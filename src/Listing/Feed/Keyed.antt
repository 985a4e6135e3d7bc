-- ===== src/Listing/Feed/Keyed.antt =====
-- internal/listing/loader.go: the maps that a batch is read into, and the ids that it asks for.
use gearshare.Prelude.{
  ℕ, ◌≡◌, refl, ap, ◌∙◌, true, false, ◌||◌, some, List, [], ◌∷◌, map, arith, All, All-map, find,
  select, map_get, by_key, mem, ◌==◌, inl, inr, Bool-cases,
}
use gearshare.Listing.Feed.{distinct}
use gearshare.Listing.Feed.Rows.{All-select}

module _ {A : Type 0} (key : A → ℕ) where
  -- A primary key: no two rows have the same.
  abbrev pub Unique : List A → Type 0
  Unique [] = Unit {0}
  Unique (x ∷ xs) = All (λ y. (key y == key x) ≡ false) xs × Unique xs

  -- The only row under a key.
  abbrev pub Only : ℕ → A → List A → Type 0
  Only id v xs = All (λ x. (key x == id) ≡ true → x ≡ v) xs

  Unique-Only :
      (id : ℕ) (v : A) (xs : List A)
      → Unique xs
      → find (λ x. key x == id) xs ≡ some v
      → Only id v xs
  unfolding find
  Unique-Only id v [] u h = tt
  Unique-Only id v (x ∷ xs) (others, u) h = elim (Bool-cases (key x == id)) [
    | inl e ↦ (λ _. ground (arith, e, h), All-map (λ y d p. ground (arith, d, p, e)) xs others)
    | inr e ↦ (λ p. ground (arith, e, p), Unique-Only id v xs u (ground (arith, e, h)))
  ]

  kept :
      (id : ℕ) (v : A) (xs : List A)
      → Only id v xs
      → (m : List (ℕ × A)) → map_get id m ≡ some v
      → map_get id (by_key key xs m) ≡ some v
  unfolding by_key map_get
  kept id v [] only m h = h
  kept id v (x ∷ xs) (first, only) m h = elim (Bool-cases (key x == id)) [
    | inl e ↦ kept id v xs only ((key x, x) ∷ m) (rw (e, map_get) (ap some (first e)))
    | inr e ↦ kept id v xs only ((key x, x) ∷ m) (rw (e, map_get) h)
  ]

  -- The map gives the row that is there.
  pub map_get-by_key :
      (id : ℕ) (v : A) (xs : List A)
      → Only id v xs
      → find (λ x. key x == id) xs ≡ some v
      → (m : List (ℕ × A)) → map_get id (by_key key xs m) ≡ some v
  unfolding by_key find map_get
  map_get-by_key id v [] only h m = ground (arith, h)
  map_get-by_key id v (x ∷ xs) (first, only) h m = elim (Bool-cases (key x == id)) [
    | inl e ↦ kept id v xs only ((key x, x) ∷ m) (rw (e, map_get) (ap some (first e)))
    | inr e ↦ map_get-by_key id v xs only (ground (arith, e, h)) ((key x, x) ∷ m)
  ]

  -- It gives nothing where no row is there.
  pub map_get-missing :
      (id : ℕ) (xs : List A)
      → All (λ x. (key x == id) ≡ false) xs
      → (m : List (ℕ × A)) → map_get id (by_key key xs m) ≡ map_get id m
  unfolding by_key map_get
  map_get-missing id [] h m = refl
  map_get-missing id (x ∷ xs) (e, h) m =
      map_get-missing id xs h ((key x, x) ∷ m) ∙ rw (e, map_get) refl

  find-select :
      (id : ℕ) (v : A) (ids : List ℕ) (xs : List A)
      → mem id ids ≡ true
      → find (λ x. key x == id) xs ≡ some v
      → find (λ x. key x == id) (select (λ x. mem (key x) ids) xs) ≡ some v
  unfolding find select
  find-select id v ids [] asked h = h
  find-select id v ids (x ∷ xs) asked h = elim (Bool-cases (key x == id)) [
    | inl e ↦
        let same : key x ≡ id = ground (arith, e) in
        let held : mem (key x) ids ≡ true = ap (λ n. mem n ids) same ∙ asked in
        ground (arith, e, held, h)
    | inr e ↦
        let rest = find-select id v ids xs asked (ground (arith, e, h)) in
        elim (Bool-cases (mem (key x) ids)) [
          | inl d ↦ ground (arith, d, e, rest)
          | inr d ↦ ground (arith, d, e, rest)
        ]
  ]

  -- What `WHERE id IN (?)` and the map give for an id that was asked for.
  pub batch_get :
      (id : ℕ) (v : A) (ids : List ℕ) (xs : List A)
      → Unique xs
      → mem id ids ≡ true
      → find (λ x. key x == id) xs ≡ some v
      → map_get id (by_key key (select (λ x. mem (key x) ids) xs) []) ≡ some v
  batch_get id v ids xs u asked h =
      map_get-by_key id v (select (λ x. mem (key x) ids) xs)
        (All-select (λ x. (key x == id) ≡ true → x ≡ v) (λ x. mem (key x) ids) xs
          (Unique-Only id v xs u h))
        (find-select id v ids xs asked h) []

  select_none : (xs : List A) → select (λ x. mem (key x) []) xs ≡ []
  unfolding select mem
  select_none [] = refl
  select_none (x ∷ xs) = select_none xs

  -- No ids give an empty map.
  pub by_key_none : (xs : List A) → by_key key (select (λ x. mem (key x) []) xs) [] ≡ []
  unfolding by_key
  by_key_none xs = rw (select_none xs, by_key) refl

mem-cons : (n m : ℕ) (ms : List ℕ) → mem n ms ≡ true → mem n (m ∷ ms) ≡ true
unfolding mem
mem-cons n m ms h = ground (arith, h)

pub All-listed : {A : Type 0} (f : A → ℕ) (xs : List A) → All (λ x. mem (f x) (map f xs) ≡ true) xs
unfolding mem
All-listed f [] = tt
All-listed f (x ∷ xs) =
    (ground arith, All-map (λ y h. mem-cons (f y) (f x) (map f xs) h) xs (All-listed f xs))

-- `distinct` drops only ids that are seen.
mem-distinct :
    (n : ℕ) (seen ns : List ℕ) → mem n ns ≡ true → (mem n seen || mem n (distinct seen ns)) ≡ true
unfolding distinct mem
mem-distinct n seen [] h = ground (arith, h)
mem-distinct n seen (k ∷ ns) h = elim (Bool-cases (k == n)) [
  | inl e ↦
      let same : k ≡ n = ground (arith, e) in
      let known : mem k seen ≡ mem n seen = ap (λ j. mem j seen) same in ground (arith, e, known)
  | inr e ↦
      let later : mem n ns ≡ true = ground (arith, e, h) in
      ground (arith, e, mem-distinct n seen ns later, mem-distinct n (k ∷ seen) ns later)
]

-- Every id of the page is among the ids that are asked for.
pub All-asked :
    {A : Type 0} (f : A → ℕ) (xs : List A) → All (λ x. mem (f x) (distinct [] (map f xs)) ≡ true) xs
unfolding mem
All-asked f xs =
    All-map (λ x h. ground (arith, mem-distinct (f x) [] (map f xs) h)) xs (All-listed f xs)
