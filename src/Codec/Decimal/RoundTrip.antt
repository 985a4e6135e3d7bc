-- ===== src/Codec/Decimal/RoundTrip.antt =====
-- What `format_int` writes, `parse_int` reads.
use gearshare.Prelude.{
  ℕ, zero, suc, ◌+◌, ◌*◌, ◌/◌, ◌%◌, ◌≤◌, ◌<◌, ◌≡◌, ◌≢◌, refl, some, List, [], ◌∷◌, arith, All,
  All-map,
}
use gearshare.Prelude.Int.{ℤ, pos, negsuc, int64_max}
use gearshare.Http.{digits, parse_int}
use gearshare.Codec.Decimal.{pow10, emit_digits, format_nat, format_int}

abbrev pub IsDigit : ℕ → Type 0
IsDigit c = (48 ≤ c) × (c ≤ 57)

abbrev pub InInt64 : ℤ → Type 0
InInt64 (pos n) = n ≤ int64_max
InInt64 (negsuc n) = n ≤ int64_max

last_digit : (n : ℕ) (out : List ℕ) → digits (n / 10) ((48 + n % 10) ∷ out) ≡ digits n out
unfolding digits
last_digit n out = let whole : n / 10 * 10 + n % 10 ≡ n = omega arith in ground (arith, whole)

digits-emit : (k n : ℕ) (out : List ℕ) → n < pow10 k → digits 0 (emit_digits k n out) ≡ digits n out
unfolding emit_digits
digits-emit zero n out h = ground arith
digits-emit (suc k) n out h =
    ground (arith, digits-emit k (n / 10) ((48 + n % 10) ∷ out) (omega arith), last_digit n out)

emit-All : (k n : ℕ) (out : List ℕ) → All IsDigit out → All IsDigit (emit_digits k n out)
unfolding emit_digits
emit-All zero n out h = h
emit-All (suc k) n out h =
    ground (arith, emit-All k (n / 10) ((48 + n % 10) ∷ out) ((omega arith, omega arith), h))

pub format_nat-All : (n : ℕ) → All IsDigit (format_nat n)
unfolding format_nat
format_nat-All n = ground (arith, emit-All 19 n [] tt)

digits-format : (n : ℕ) → n ≤ int64_max + 1 → digits 0 (format_nat n) ≡ some n
unfolding format_nat digits
digits-format n h = ground (arith, digits-emit 19 n [] (omega arith))

parse-digits :
    (n : ℕ) (s : List ℕ)
    → All IsDigit s
    → s ≢ []
    → digits 0 s ≡ some n
    → n ≤ int64_max
    → parse_int s ≡ some (pos n)
unfolding parse_int
parse-digits n [] h some_digits e fits = absurd (some_digits refl)
parse-digits n (c ∷ s) (hc, hs) _ e fits = ground (arith, e)

parse-sign :
    (n : ℕ) (s : List ℕ)
    → s ≢ []
    → digits 0 s ≡ some (suc n)
    → n ≤ int64_max
    → parse_int (45 ∷ s) ≡ some (negsuc n)
unfolding parse_int
parse-sign n [] some_digits e fits = absurd (some_digits refl)
parse-sign n (c ∷ s) _ e fits = ground (arith, e)

emit-ne-nil : (k n : ℕ) (out : List ℕ) → out ≢ [] → emit_digits k n out ≢ []
unfolding emit_digits
emit-ne-nil zero n out h = h
emit-ne-nil (suc k) n out h = ground (arith, emit-ne-nil k (n / 10) ((48 + n % 10) ∷ out) (cc))

pub format-ne-nil : (n : ℕ) → format_nat n ≢ []
unfolding format_nat emit_digits
format-ne-nil n = ground (arith, emit-ne-nil 18 (n / 10) ((48 + n % 10) ∷ []) (cc))

-- Every int64 is read back from its decimal text.
pub parse_int-format_int : (n : ℤ) → InInt64 n → parse_int (format_int n) ≡ some n
unfolding format_int
parse_int-format_int (pos n) h =
    parse-digits n (format_nat n) (format_nat-All n) (format-ne-nil n)
      (digits-format n (omega arith)) h
parse_int-format_int (negsuc n) h =
    parse-sign n (format_nat (suc n)) (format-ne-nil (suc n)) (digits-format (suc n) (omega arith))
      h

-- A digit or a minus sign.
abbrev pub IsDecimal : ℕ → Type 0
IsDecimal c = (45 ≤ c) × (c ≤ 57) × (c ≢ 46) × (c ≢ 47)

pub format_int-All : (n : ℤ) → All IsDecimal (format_int n)
unfolding format_int
format_int-All (pos n) = All-map (λ c h. omega arith) (format_nat n) (format_nat-All n)
format_int-All (negsuc n) =
    (omega arith, All-map (λ c h. omega arith) (format_nat (suc n)) (format_nat-All (suc n)))
