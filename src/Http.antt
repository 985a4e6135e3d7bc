-- ===== src/Http.antt =====
-- internal/httputil/response.go, and the parts of strconv and time that the handlers parse with. A
-- request body is what DecodeJSON makes of it, or nothing where it fails.
pub mod Cookie
pub mod Etag
pub mod Date
use gearshare.Prelude.{
  ℕ, zero, suc, ◌+◌, ◌-◌, ◌*◌, ◌%◌, String, Bool, not, ◌&&◌, ◌||◌, Option, none, some, List, [],
  ◌∷◌, leb, ◌==◌, if◌then◌else◌,
}
use gearshare.Prelude.Int.{ℤ, pos, negsuc}
use gearshare.Model.User.{Role}

pub data Response (B : Type 0) : Type 0 where
  json : ℕ → B → Response B
  error : ℕ → String → Response B

abbrev pub status : {B : Type 0} → Response B → ℕ
status (json code _) = code
status (error code _) = code

-- auth.Claims, as far as the handlers read them.
pub record Claims : Type 0 where
  pub user_id : ℕ
  pub role : Role

-- A digit, and the decimal number of a text that is all digits.
abbrev is_digit : ℕ → Bool
is_digit c = leb 48 c && leb c 57

unfoldable pub digits : ℕ → List ℕ → Option ℕ
digits acc [] = some acc
digits acc (c ∷ s) = let rest = digits (acc * 10 + (c - 48)) s in if is_digit c then rest else none

abbrev pub number : List ℕ → Option ℕ
number [] = none
number (c ∷ s) = digits 0 (c ∷ s)

-- `strconv.ParseInt(s, 10, 64)`, and `strconv.Atoi` where an int has 64 bits: a sign, then digits, and
-- no overflow.
abbrev positive : Option ℕ → Option ℤ
positive none = none
positive (some n) = if leb n 9223372036854775807 then some (pos n) else none

abbrev negative : Option ℕ → Option ℤ
negative none = none
negative (some zero) = some (pos 0)
negative (some (suc n)) = if leb n 9223372036854775807 then some (negsuc n) else none

unfoldable pub parse_int : List ℕ → Option ℤ
unfolding digits
parse_int [] = none
parse_int (c ∷ s) =
    if c == 43
    then positive (number s)
    else if c == 45
    then negative (number s)
    else positive (number (c ∷ s))

-- An id that is not positive is that of no row, as 0 is.
abbrev pub row_id : ℤ → ℕ
row_id (pos n) = n
row_id (negsuc _) = 0

-- `time.Parse("2006-01-02", s)`, in days since the first of January of the year 0.
unfoldable pub is_leap : ℕ → Bool
is_leap year = (year % 4 == 0 && not (year % 100 == 0)) || year % 400 == 0

abbrev pub month_days : ℕ → ℕ → ℕ
month_days year month =
    if month == 2
    then (if is_leap year then 29 else 28)
    else if month == 4 || (month == 6 || (month == 9 || month == 11))
    then 30
    else 31

-- The days of the years, and of the months, before.
unfoldable pub years_days : ℕ → ℕ
years_days zero = 0
years_days (suc y) = years_days y + (if is_leap y then 366 else 365)

unfoldable pub months_days : ℕ → ℕ → ℕ
months_days year zero = 0
months_days year (suc zero) = 0
months_days year (suc (suc m)) = months_days year (suc m) + month_days year (suc m)

abbrev pub day_number : ℕ → ℕ → ℕ → Option ℕ
day_number year month day =
    if (leb 1 month && leb month 12) && (leb 1 day && leb day (month_days year month))
    then some (years_days year + months_days year month + (day - 1))
    else none

unfoldable pub parse_date : List ℕ → Option ℕ
unfolding digits years_days months_days is_leap
parse_date (y1 ∷ y2 ∷ y3 ∷ y4 ∷ d1 ∷ m1 ∷ m2 ∷ d2 ∷ e1 ∷ e2 ∷ []) =
    if d1 == 45 && d2 == 45
    then elim (digits 0 (y1 ∷ y2 ∷ y3 ∷ y4 ∷ [])) [
      | none ↦ none
      | some y ↦ elim (digits 0 (m1 ∷ m2 ∷ [])) [
        | none ↦ none
        | some m ↦ elim (digits 0 (e1 ∷ e2 ∷ [])) [ none ↦ none | some d ↦ day_number y m d ]
      ]
    ]
    else none
parse_date _ = none
