-- ===== src/Category.antt =====
-- internal/category/repository.go and handler.go. The order of names is that of the database's collation: a
-- parameter.
use gearshare.Prelude.{
  ℕ, String, Bool, List, [], ◌∷◌, ◌==◌, if◌then◌else◌, find, select, mem, by_key, length,
}
use gearshare.Model.Category.{Category}
use gearshare.Store.{M, Result, ok, err, query, ◌>>=◌, or_fail, pure, no_rows, attempt}
use gearshare.Http.{Response, json, error}

unfoldable pub get_by_id : ℕ → M Category
get_by_id id = do row ← query (λ t. find (λ c. c.id == id) t.categories); or_fail row no_rows

-- SELECT … WHERE id IN (?), which is not sent for no ids.
unfoldable pub get_by_ids : List ℕ → M (List (ℕ × Category))
get_by_ids ids =
    if length ids == 0
    then pure []
    else query λ t. by_key (λ c. c.id) (select (λ c. mem c.id ids) t.categories) []

-- ORDER BY name, by whether one name comes before another or with it.
module _ (before : String → String → Bool) where
  insert_by_name : Category → List Category → List Category
  insert_by_name c [] = c ∷ []
  insert_by_name c (d ∷ ds) =
      let later = insert_by_name c ds in if before c.name d.name then c ∷ d ∷ ds else d ∷ later

  unfoldable pub order_by_name : List Category → List Category
  unfolding insert_by_name
  order_by_name [] = []
  order_by_name (c ∷ cs) = insert_by_name c (order_by_name cs)

  unfoldable pub list : M (List Category)
  unfolding order_by_name
  list = query λ t. order_by_name t.categories

  abbrev listed : Result (List Category) → Response (List Category)
  listed (ok cats) = json 200 cats
  listed (err e) = error 500 "could not load categories"

  -- The handler.
  unfoldable pub handle_list : M (Response (List Category))
  handle_list = do cats ← attempt list; pure (listed cats)
