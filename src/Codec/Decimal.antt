-- ===== src/Codec/Decimal.antt =====
-- `strconv.FormatInt(n, 10)`, and `%d` of fmt: decimal digits, behind a sign if the number is negative.
pub mod RoundTrip
use gearshare.Prelude.{ℕ, zero, suc, ◌+◌, ◌*◌, ◌/◌, ◌%◌, List, [], ◌∷◌, ◌==◌, if◌then◌else◌}
use gearshare.Prelude.Int.{ℤ, pos, negsuc}

abbrev pub pow10 : ℕ → ℕ
pow10 zero = 1
pow10 (suc k) = 10 * pow10 k

-- The digits of a number in front of others, on fuel: as many divisions by ten as there may be digits.
unfoldable pub emit_digits : ℕ → ℕ → List ℕ → List ℕ
emit_digits zero n out = out
emit_digits (suc k) n out =
    let more = emit_digits k (n / 10) ((48 + n % 10) ∷ out) in if n == 0 then out else more

-- An int64 has at most 19 digits, and the number behind a minus sign too.
unfoldable pub format_nat : ℕ → List ℕ
unfolding emit_digits
format_nat n = if n == 0 then 48 ∷ [] else emit_digits 19 n []

unfoldable pub format_int : ℤ → List ℕ
unfolding format_nat
format_int (pos n) = format_nat n
format_int (negsuc n) = 45 ∷ format_nat (suc n)
