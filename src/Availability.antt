-- ===== src/Availability.antt =====
-- internal/availability/repository.go: the blocks of a listing, and their overlap test in SQL.
pub mod Sharding
use gearshare.Prelude.{
  ℕ, suc, Bool, true, false, ◌&&◌, Option, some, List, [], ◌∷◌, leb, ◌==◌, if◌then◌else◌, select,
  count_where,
}
use gearshare.Model.Availability.{Block, Reason}
use gearshare.Store.{World, Tables, M, query, query_in_tx, exec}

-- WHERE listing_id = ? AND start_date <= ? AND end_date >= ?
abbrev pub row_overlaps : ℕ → ℕ → ℕ → Block → Bool
row_overlaps listing start end b =
    b.listing_id == listing && (leb b.start_date end && leb start b.end_date)

unfoldable pub count_overlapping : ℕ → ℕ → ℕ → M ℕ
count_overlapping listing start end =
    query_in_tx λ t. count_where (row_overlaps listing start end) t.blocks

abbrev pub new_block : ℕ → ℕ → ℕ → ℕ → Reason → World → Block
new_block listing booking start end reason w = record {
  id = w.next_block;
  listing_id = listing;
  booking_id = some booking;
  start_date = start;
  end_date = end;
  reason = reason;
  created_at = w.now;
}

abbrev pub add_block : Block → World → World
add_block b w = record w {
  primary = record (w.primary) { blocks = b ∷ w.primary.blocks };
  next_block = suc w.next_block;
}

unfoldable pub insert_block : ℕ → ℕ → ℕ → ℕ → Reason → M ℕ
insert_block listing booking start end reason =
    exec (λ w. w.next_block) (λ w. add_block (new_block listing booking start end reason w) w)

-- ORDER BY start_date
insert_by_start : Block → List Block → List Block
insert_by_start b [] = b ∷ []
insert_by_start b (c ∷ cs) =
    let later = insert_by_start b cs in
    if leb b.start_date c.start_date then b ∷ c ∷ cs else c ∷ later

unfoldable pub order_by_start : List Block → List Block
unfolding insert_by_start
order_by_start [] = []
order_by_start (b ∷ bs) = insert_by_start b (order_by_start bs)

unfoldable pub list_for_listing : ℕ → M (List Block)
list_for_listing listing =
    query λ t. order_by_start (select (λ b. b.listing_id == listing) t.blocks)
