-- ===== src/Http/Date.antt =====
-- `Format("2006-01-02")` of package time, on days since the first of January of the year 0.
pub mod RoundTrip
use gearshare.Prelude.{ℕ, zero, suc, ◌+◌, ◌-◌, ◌/◌, ◌%◌, List, [], ◌∷◌, ◌++◌, ltb, if◌then◌else◌}
use gearshare.Codec.Decimal.{format_nat}
use gearshare.Http.{is_leap, month_days}

-- In which of a row of blocks a number falls, and how far into it: from block k on, on fuel.
unfoldable pub split : (ℕ → ℕ) → ℕ → ℕ → ℕ → ℕ × ℕ
split len zero k d = (k, d)
split len (suc f) k d =
    let rest = split len f (suc k) (d - len k) in if ltb d (len k) then (k, d) else rest

abbrev pub year_days : ℕ → ℕ
year_days year = if is_leap year then 366 else 365

-- The months are counted from 0 here.
abbrev pub length_of : ℕ → ℕ → ℕ
length_of year k = month_days year (suc k)

pub record Date : Type 0 where
  pub year : ℕ
  pub month : ℕ
  pub day : ℕ

abbrev pub date_in : ℕ × ℕ → Date
date_in (year, d) =
    let (k, e) = split (length_of year) 11 0 d in record { year = year; month = suc k; day = suc e }

-- There are at most as many years as days.
unfoldable pub date_of : ℕ → Date
unfolding split is_leap
date_of n = date_in (split year_days n 0 n)

abbrev pub pad2 : ℕ → List ℕ
pad2 n = (48 + n / 10) ∷ (48 + n % 10) ∷ []

abbrev pub pad4 : ℕ → List ℕ
pad4 n =
    if ltb n 10000
    then (48 + n / 1000) ∷ (48 + n / 100 % 10) ∷ (48 + n / 10 % 10) ∷ (48 + n % 10) ∷ []
    else format_nat n

abbrev pub format : Date → List ℕ
format t = pad4 t.year ++ 45 ∷ (pad2 t.month ++ 45 ∷ pad2 t.day)

unfoldable pub format_date : ℕ → List ℕ
unfolding date_of
format_date n = format (date_of n)
