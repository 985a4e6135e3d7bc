-- ===== src/Http/Date/RoundTrip.antt =====
-- Dates: what is printed is what was parsed.
use gearshare.Prelude.{
  ℕ, zero, suc, ◌+◌, ◌-◌, ◌≤◌, ◌<◌, ◌≡◌, refl, ap, ◌∙◌, inl, inr, false, some, List, [], ◌∷◌, ◌++◌,
  arith, Bool-cases, Option-cases, leb, ltb,
}
use gearshare.Http.{years_days, months_days, day_number, digits, parse_date}
use gearshare.Http.Date.{split, year_days, length_of, date_of, pad2, pad4, format, format_date}

module _ (len start : ℕ → ℕ) (starts : (k : ℕ) → start (suc k) ≡ start k + len k) where
  start_mono : (i j : ℕ) → i ≤ j → start i ≤ start j
  start_mono i zero h = let e : i ≡ 0 = omega arith in rw e (omega arith)
  start_mono i (suc j) h = elim (Bool-cases (leb i j)) [
    | inl p ↦ omega (arith, starts j, start_mono i j (ground (arith, p)))
    | inr p ↦ let e : i ≡ suc j = ground (arith, p) in rw e (omega arith)
  ]

  split_lem :
      (f k d j e : ℕ)
      → d + start k ≡ start j + e
      → e < len j
      → k ≤ j
      → j ≤ k + f
      → split len f k d ≡ (j, e)
  unfolding split
  split_lem zero k d j e h in_j from to =
      let same : k ≡ j = omega arith in ground (arith, same, ap start same)
  split_lem (suc f) k d j e h in_j from to = elim (Bool-cases (leb (suc k) j)) [
    | inl p ↦
        let past : suc k ≤ j = ground (arith, p) in
        let m = start_mono (suc k) j past in
        let long : ltb d (len k) ≡ false = ground (arith, starts k, m) in
        rw long (
          split_lem f (suc k) (d - len k) j e (ground (arith, starts k, m)) in_j past (omega arith))
    | inr p ↦
        let same : k ≡ j = ground (arith, p) in ground (arith, same, ap start same, ap len same)
  ]

years_starts : (k : ℕ) → years_days (suc k) ≡ years_days k + year_days k
unfolding years_days
years_starts k = refl

year-le-days : (y : ℕ) → y ≤ years_days y
unfolding years_days
year-le-days zero = omega arith
year-le-days (suc y) = ground (arith, year-le-days y)

months_starts : (y k : ℕ) → months_days y (suc (suc k)) ≡ months_days y (suc k) + length_of y k
unfolding months_days
months_starts y k = refl

months_end : (y : ℕ) → months_days y 12 + length_of y 11 ≡ year_days y
unfolding months_days
months_end y = ground arith

no_days : (y : ℕ) → (years_days 0 ≡ 0) × (months_days y 1 ≡ 0)
unfolding years_days months_days
no_days y = (refl, refl)

-- The day of a month is in its year.
in_year : (y m d : ℕ) → m ≤ 11 → d < length_of y m → months_days y (suc m) + d < year_days y
in_year y m d h k = elim (Bool-cases (leb (suc m) 11)) [
  | inl p ↦
      let later =
        start_mono (length_of y) (λ k. months_days y (suc k)) (months_starts y) (suc m) 11
          (ground (arith, p)) in
      omega (arith, later, months_starts y m, months_end y)
  | inr p ↦ let e : m ≡ 11 = ground (arith, p) in ground (arith, e, months_end y)
]

-- The date of a day number is the one that has it.
pub date_of-day_number :
    (y m d : ℕ)
    → m ≤ 11
    → d < length_of y m
    → date_of (years_days y + months_days y (suc m) + d)
      ≡ record { year = y; month = suc m; day = suc d }
unfolding date_of
date_of-day_number y m d h k =
    let n = years_days y + months_days y (suc m) + d in
    let r = months_days y (suc m) + d in
    let inside = in_year y m d h k in
    let year_found : split year_days n 0 n ≡ (y, r) =
      split_lem year_days years_days years_starts n 0 n y r (omega (arith, no_days y)) inside
        (omega arith) (omega (arith, year-le-days y)) in
    let month_found : split (length_of y) 11 0 r ≡ (m, d) =
      split_lem (length_of y) (λ k. months_days y (suc k)) (months_starts y) 11 0 r m d
        (omega (arith, no_days y)) k (omega arith) h in
    rw (year_found, month_found) refl

day_number-some :
    (y m d n : ℕ) → day_number y m d ≡ some n → date_of n ≡ record { year = y; month = m; day = d }
day_number-some y zero d n h = absurd (ground (arith, h))
day_number-some y (suc m) zero n h = absurd (ground (arith, h))
day_number-some y (suc m) (suc d) n h =
    let (short, inside) : (m ≤ 11) × (d < length_of y m) = ground (arith, h) in
    let e : n ≡ years_days y + months_days y (suc m) + d = ground (arith, h) in
    ap date_of e ∙ date_of-day_number y m d short inside

two : (a b n : ℕ) → digits 0 (a ∷ b ∷ []) ≡ some n → pad2 n ≡ a ∷ b ∷ []
unfolding digits
two a b n h = ground (arith, h)

four : (a b c d n : ℕ) → digits 0 (a ∷ b ∷ c ∷ d ∷ []) ≡ some n → pad4 n ≡ a ∷ b ∷ c ∷ d ∷ []
unfolding digits
four a b c d n h = ground (arith, h)

-- A text that parses as a date, in YYYY-MM-DD, is the text of that date.
pub format_date-parse_date : (s : List ℕ) (n : ℕ) → parse_date s ≡ some n → format_date n ≡ s
unfolding parse_date format_date
format_date-parse_date (y1 ∷ y2 ∷ y3 ∷ y4 ∷ d1 ∷ m1 ∷ m2 ∷ d2 ∷ e1 ∷ e2 ∷ []) n h =
    elim (Option-cases (digits 0 (y1 ∷ y2 ∷ y3 ∷ y4 ∷ []))) [
      | inl p ↦ absurd (ground (arith, p, h))
      | inr (y, p) ↦ elim (Option-cases (digits 0 (m1 ∷ m2 ∷ []))) [
        | inl q ↦ absurd (ground (arith, p, q, h))
        | inr (m, q) ↦ elim (Option-cases (digits 0 (e1 ∷ e2 ∷ []))) [
          | inl r ↦ absurd (ground (arith, p, q, r, h))
          | inr (d, r) ↦
              let dashes : (d1 ≡ 45) × (d2 ≡ 45) = ground (arith, h) in
              let found : day_number y m d ≡ some n = ground (arith, p, q, r, h) in
              let parts : format (record { year = y; month = m; day = d })
                  ≡ y1 ∷ y2 ∷ y3 ∷ y4 ∷ 45 ∷ m1 ∷ m2 ∷ 45 ∷ e1 ∷ e2 ∷ [] =
                λ i. four y1 y2 y3 y4 y p i ++ 45 ∷ (two m1 m2 m q i ++ 45 ∷ two e1 e2 d r i) in
              rw (dashes.0, dashes.1) (ap format (day_number-some y m d n found) ∙ parts)
        ]
      ]
    ]
format_date-parse_date _ n h = ground (arith, h)
