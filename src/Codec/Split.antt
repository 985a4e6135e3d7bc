-- ===== src/Codec/Split.antt =====
-- `strings.SplitN(s, sep, 2)` and `strings.Split(s, sep)`, for a separator of one byte.
use gearshare.Prelude.{
  ℕ, ◌≡◌, ◌≢◌, refl, Option, none, some, List, [], ◌∷◌, ◌++◌, arith, All, ◌==◌, if◌then◌else◌,
  Bool-cases, Option-cases, inl, inr,
}

abbrev before : ℕ → Option (List ℕ × List ℕ) → Option (List ℕ × List ℕ)
before c none = none
before c (some (a, b)) = some (c ∷ a, b)

-- The two parts around the first separator, or nothing where there is none.
unfoldable pub split_once : ℕ → List ℕ → Option (List ℕ × List ℕ)
split_once sep [] = none
split_once sep (c ∷ s) =
    let rest = split_once sep s in if c == sep then some ([], s) else before c rest

abbrev extend : ℕ → List (List ℕ) → List (List ℕ)
extend c [] = (c ∷ []) ∷ []
extend c (part ∷ parts) = (c ∷ part) ∷ parts

unfoldable pub split_all : ℕ → List ℕ → List (List ℕ)
split_all sep [] = [] ∷ []
split_all sep (c ∷ s) = let rest = split_all sep s in if c == sep then [] ∷ rest else extend c rest

-- The first separator is where a text that has none ends.
pub split_once-append :
    (sep : ℕ) (a b : List ℕ) → All (λ c. c ≢ sep) a → split_once sep (a ++ sep ∷ b) ≡ some (a, b)
unfolding split_once
split_once-append sep [] b h = ground arith
split_once-append sep (c ∷ a) b (hc, ha) = ground (arith, split_once-append sep a b ha)

pub split_all-append :
    (sep : ℕ) (a b : List ℕ)
    → All (λ c. c ≢ sep) a
    → split_all sep (a ++ sep ∷ b) ≡ a ∷ split_all sep b
unfolding split_all
split_all-append sep [] b h = ground arith
split_all-append sep (c ∷ a) b (hc, ha) = ground (arith, split_all-append sep a b ha)

pub split_all-last : (sep : ℕ) (a : List ℕ) → All (λ c. c ≢ sep) a → split_all sep a ≡ a ∷ []
unfolding split_all
split_all-last sep [] h = refl
split_all-last sep (c ∷ a) (hc, ha) = ground (arith, split_all-last sep a ha)

-- What a text is split into is the text.
pub split_once-parts :
    (sep : ℕ) (s a b : List ℕ) → split_once sep s ≡ some (a, b) → s ≡ a ++ sep ∷ b
unfolding split_once
split_once-parts sep [] a b h = ground arith
split_once-parts sep (c ∷ s) a b h = elim (Bool-cases (c == sep)) [
  | inl e ↦ ground (arith, e, h)
  | inr e ↦ elim (Option-cases (split_once sep s)) [
    | inl n ↦ ground (arith, e, h, n)
    | inr ((p, q), n) ↦ ground (arith, e, h, n, split_once-parts sep s p q n)
  ]
]
