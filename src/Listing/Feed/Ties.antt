-- ===== src/Listing/Feed/Ties.antt =====
-- internal/listing: pages of listings of which no two were created in the same second.
use gearshare.Prelude.{ℕ, ◌≡◌, refl, ap, ◌∙◌, false, ◌==◌, List, [], ◌∷◌, All}
use gearshare.Model.Listing.{Listing}
use gearshare.Listing.Repository.{before, insert_newest, newest_first}
use gearshare.Listing.Feed.Rows.{All-newest_first}

-- The two listings have not the same created_at.
abbrev Apart : Listing → Listing → Type 0
Apart l m = (m.created_at == l.created_at) ≡ false

abbrev pub Untied : List Listing → Type 0
Untied [] = Unit
Untied (l ∷ ls) = All (Apart l) ls × Untied ls

before-Apart :
    (rank rank' : Listing → ℕ) (l m : Listing) → Apart l m → before rank l m ≡ before rank' l m
before-Apart rank rank' l m h = rw h refl

insert_newest-Apart :
    (rank rank' : Listing → ℕ) (l : Listing) (ls : List Listing)
    → All (Apart l) ls
    → insert_newest rank l ls ≡ insert_newest rank' l ls
unfolding insert_newest
insert_newest-Apart rank rank' l [] h = refl
insert_newest-Apart rank rank' l (m ∷ ms) h =
    rw (before-Apart rank rank' l m h.0, insert_newest-Apart rank rank' l ms h.1) refl

-- Without ties there is one order.
pub newest_first-Untied :
    (rank rank' : Listing → ℕ) (ls : List Listing)
    → Untied ls
    → newest_first rank ls ≡ newest_first rank' ls
unfolding newest_first
newest_first-Untied rank rank' [] h = refl
newest_first-Untied rank rank' (l ∷ ls) h =
    insert_newest-Apart rank rank' l (newest_first rank ls) (All-newest_first (Apart l) rank ls h.0)
    ∙ ap (insert_newest rank' l) (newest_first-Untied rank rank' ls h.1)
