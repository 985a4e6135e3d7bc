-- ===== src/Codec/Scan/RoundTrip.antt =====
-- What `%d` prints, `%d` scans.
use gearshare.Prelude.{ℕ, suc, ◌≡◌, ◌≢◌, refl, sym, ap, ◌∙◌, some, List, [], ◌∷◌, ◌++◌, arith, All}
use mathlib.Core.List.{append-nil, cons-ne-nil}
use gearshare.Prelude.Int.{ℤ, pos, negsuc}
use gearshare.Http.{parse_int}
use gearshare.Codec.Decimal.{format_nat, format_int}
use gearshare.Codec.Decimal.RoundTrip.{
  IsDigit, InInt64, format_nat-All, format-ne-nil, parse_int-format_int, format_int-All, IsDecimal,
}
use gearshare.Codec.Scan.{
  skip_space, span_digits, scan_int, scan_three, drop_space, first, second, third,
}

span_digits-append :
    (d t : List ℕ) → All IsDigit d → span_digits t ≡ ([], t) → span_digits (d ++ t) ≡ (d, t)
unfolding span_digits
span_digits-append [] t h e = e
span_digits-append (c ∷ d) t (hc, hd) e = ground (arith, span_digits-append d t hd e)

-- A number is scanned from its text, whatever follows that is no digit.
scan-nat :
    (n : ℤ) (d t : List ℕ)
    → All IsDigit d
    → d ≢ []
    → span_digits t ≡ ([], t)
    → parse_int d ≡ some n
    → scan_int (d ++ t) ≡ some (n, t)
unfolding scan_int skip_space
scan-nat n [] t h some_digits e p = absurd (some_digits refl)
scan-nat n (c ∷ d) t h _ e p = ground (arith, h.0, span_digits-append (c ∷ d) t h e, p)

scan-sign :
    (n : ℤ) (d t : List ℕ)
    → All IsDigit d
    → span_digits t ≡ ([], t)
    → parse_int (45 ∷ d) ≡ some n
    → scan_int (45 ∷ (d ++ t)) ≡ some (n, t)
unfolding scan_int skip_space
scan-sign n d t h e p = ground (arith, span_digits-append d t h e, p)

pub scan_int-format_int :
    (n : ℤ) (t : List ℕ)
    → InInt64 n
    → span_digits t ≡ ([], t)
    → scan_int (format_int n ++ t) ≡ some (n, t)
unfolding format_int
scan_int-format_int (pos n) t h e =
    scan-nat (pos n) (format_nat n) t (format_nat-All n) (format-ne-nil n) e
      (parse_int-format_int (pos n) h)
scan_int-format_int (negsuc n) t h e =
    scan-sign (negsuc n) (format_nat (suc n)) t (format_nat-All (suc n)) e
      (parse_int-format_int (negsuc n) h)

format_int-ne-nil : (n : ℤ) → format_int n ≢ []
unfolding format_int
format_int-ne-nil (pos n) = format-ne-nil n
format_int-ne-nil (negsuc n) = cons-ne-nil 45 (format_nat (suc n))

drop-solid : (s t : List ℕ) → All IsDecimal s → s ≢ [] → drop_space (s ++ t) ≡ s ++ t
unfolding drop_space
drop-solid [] t h some_chars = absurd (some_chars refl)
drop-solid (c ∷ s) t h _ = ground (arith, h.0)

drop-format_int : (n : ℤ) (t : List ℕ) → drop_space (format_int n ++ t) ≡ format_int n ++ t
drop-format_int n t = drop-solid (format_int n) t (format_int-All n) (format_int-ne-nil n)

scan_last : (n : ℤ) → InInt64 n → scan_int (format_int n) ≡ some (n, [])
unfolding span_digits
scan_last n h = ap scan_int (sym (append-nil (format_int n))) ∙ scan_int-format_int n [] h refl

scan_before :
    (n : ℤ) (t : List ℕ) → InInt64 n → scan_int (format_int n ++ 32 ∷ t) ≡ some (n, 32 ∷ t)
unfolding span_digits
scan_before n t h = scan_int-format_int n (32 ∷ t) h refl

drop-solid_end : (n : ℤ) → drop_space (format_int n) ≡ format_int n
drop-solid_end n =
    ap drop_space (sym (append-nil (format_int n)))
    ∙ (drop-format_int n [] ∙ append-nil (format_int n))

three :
    (a b c : ℤ) (s t u : List ℕ)
    → scan_int s ≡ some (a, 32 ∷ t)
    → drop_space t ≡ t
    → scan_int t ≡ some (b, 32 ∷ u)
    → drop_space u ≡ u
    → scan_int u ≡ some (c, [])
    → scan_three s ≡ some (a, b, c)
unfolding scan_three
three a b c s t u p d q f r =
    ap first p
    ∙ (ap (λ v. second a (scan_int v)) d
        ∙ (ap (second a) q ∙ (ap (λ v. third a b (scan_int v)) f ∙ ap (third a b) r)))

-- Three numbers of 64 bits with a space between them are read back.
pub scan_three-format_int :
    (a b c : ℤ)
    → InInt64 a
    → InInt64 b
    → InInt64 c
    → scan_three (format_int a ++ 32 ∷ (format_int b ++ 32 ∷ format_int c)) ≡ some (a, b, c)
scan_three-format_int a b c ha hb hc =
    let last = format_int c in
    let behind : drop_space last ≡ last = drop-solid_end c in
    three a b c (format_int a ++ 32 ∷ (format_int b ++ 32 ∷ last)) (format_int b ++ 32 ∷ last) last
      (scan_before a (format_int b ++ 32 ∷ last) ha) (drop-format_int b (32 ∷ last))
      (scan_before b last hb) behind (scan_last c hc)
