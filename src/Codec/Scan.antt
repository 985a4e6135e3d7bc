-- ===== src/Codec/Scan.antt =====
-- `unicode.IsSpace`, and `fmt.Sscanf(s, "%d %d %d", …)`. Text after the third number is not looked at.
pub mod RoundTrip
use gearshare.Prelude.{
  ℕ, Bool, ◌&&◌, ◌||◌, not, Option, none, some, List, [], ◌∷◌, ◌++◌, leb, ◌==◌, if◌then◌else◌,
}
use gearshare.Prelude.Int.{ℤ}
use gearshare.Http.{parse_int}

abbrev pub is_space : ℕ → Bool
is_space c =
    (leb 9 c && leb c 13)
    || (c == 32
        || (c == 133
            || (c == 160
                || (c == 5760
                    || ((leb 8192 c && leb c 8202)
                        || (c == 8232
                            || (c == 8233 || (c == 8239 || (c == 8287 || c == 12288)))))))))

-- The spaces before a number: a line break is an error.
unfoldable pub skip_space : List ℕ → Option (List ℕ)
skip_space [] = some []
skip_space (c ∷ s) =
    let rest = skip_space s in if c == 10 then none else if is_space c then rest else some (c ∷ s)

abbrev pub is_digit : ℕ → Bool
is_digit c = leb 48 c && leb c 57

abbrev cons_first : ℕ → List ℕ × List ℕ → List ℕ × List ℕ
cons_first c (a, b) = (c ∷ a, b)

unfoldable pub span_digits : List ℕ → List ℕ × List ℕ
span_digits [] = ([], [])
span_digits (c ∷ s) =
    let rest = span_digits s in if is_digit c then cons_first c rest else ([], c ∷ s)

abbrev pub span_sign : List ℕ → List ℕ × List ℕ
span_sign [] = ([], [])
span_sign (c ∷ s) = if c == b'+' || c == b'-' then (c ∷ [], s) else ([], c ∷ s)

abbrev pub read_token : List ℕ → List ℕ × List ℕ → Option (ℤ × List ℕ)
read_token sign (digits, rest) = elim (parse_int (sign ++ digits)) [
  | none ↦ none
  | some n ↦ some (n, rest)
]

-- `%d`: a number of 64 bits, and what is left.
abbrev pub scan_number : Option (List ℕ) → Option (ℤ × List ℕ)
scan_number none = none
scan_number (some s) = read_token (span_sign s).0 (span_digits (span_sign s).1)

-- A space of the format: one space of the text or more, or its end.
unfoldable pub drop_space : List ℕ → List ℕ
drop_space [] = []
drop_space (c ∷ s) = let rest = drop_space s in if is_space c && not (c == 10) then rest else c ∷ s

abbrev pub match_space : List ℕ → Option (List ℕ)
match_space [] = some []
match_space (c ∷ s) = if is_space c && not (c == 10) then some (drop_space s) else none

unfoldable pub scan_int : List ℕ → Option (ℤ × List ℕ)
unfolding skip_space span_digits
scan_int s = scan_number (skip_space s)

-- The next number, behind a space.
abbrev pub scan_after : Option (List ℕ) → Option (ℤ × List ℕ)
scan_after none = none
scan_after (some s) = scan_int s

abbrev third : ℤ → ℤ → Option (ℤ × List ℕ) → Option (ℤ × ℤ × ℤ)
third a b none = none
third a b (some (c, _)) = some (a, b, c)

abbrev second : ℤ → Option (ℤ × List ℕ) → Option (ℤ × ℤ × ℤ)
second a none = none
second a (some (b, s)) = third a b (scan_after (match_space s))

abbrev first : Option (ℤ × List ℕ) → Option (ℤ × ℤ × ℤ)
first none = none
first (some (a, s)) = second a (scan_after (match_space s))

unfoldable pub scan_three : List ℕ → Option (ℤ × ℤ × ℤ)
unfolding scan_int drop_space
scan_three s = first (scan_int s)
