-- ===== src/SearchIndexer/Latest.antt =====
-- cmd/search-indexer/main.go and esindex.go: the index is the latest event of each listing.
use gearshare.Prelude.{
  ℕ, ◌≡◌, refl, sym, ap, ◌∙◌, Bool, true, false, Option, none, some, List, [], ◌∷◌, arith, select,
  ◌==◌, ==_iff, if◌then◌else◌, Bool-cases, Option-cases, inl, inr,
}
use gearshare.Model.Event.{
  ListingEvent, ListingEventType, listing_created, listing_updated, listing_deleted,
}
use gearshare.SearchIndexer.{
  Document, Answer, answered, unreachable, Elastic, is_error, accepted, reached, document_of,
  handle_event, by_type, upsert, delete, execute,
}

-- A delete that the index has carried out, or that found no document.
abbrev pub removed : Answer → Bool
removed (answered status) = if is_error status then status == 404 else true
removed unreachable = false

-- What Elasticsearch documents: a request that is answered with success has had its effect, no request touches
-- another document, and the breaker has nothing to do with the documents.
pub record Honest {S : Type 0} (elastic : Elastic S) : Type 0 where
  pub indexed :
      (id : ℕ) (doc : Document) (s : S)
      → accepted (elastic.index_document id doc s).0 ≡ true
      → elastic.stored id (elastic.index_document id doc s).1 ≡ some doc
  pub index_apart :
      (id other : ℕ) (doc : Document) (s : S)
      → (id == other) ≡ false
      → elastic.stored other (elastic.index_document id doc s).1 ≡ elastic.stored other s
  pub deleted :
      (id : ℕ) (s : S)
      → removed (elastic.delete_document id s).0 ≡ true
      → elastic.stored id (elastic.delete_document id s).1 ≡ none
  pub delete_apart :
      (id other : ℕ) (s : S)
      → (id == other) ≡ false
      → elastic.stored other (elastic.delete_document id s).1 ≡ elastic.stored other s
  pub noted :
      (id : ℕ) (good : Bool) (s : S)
      → elastic.stored id (elastic.record_result good s) ≡ elastic.stored id s

abbrev pub is_deleted : ListingEventType → Bool
is_deleted listing_deleted = true
is_deleted listing_created = false
is_deleted listing_updated = false

-- The last event about a listing, and the document that it stands for.
abbrev or_first : ℕ → ListingEvent → Option ListingEvent → Option ListingEvent
or_first id e (some later) = some later
or_first id e none = if e.listing_id == id then some e else none

unfoldable pub last_about : ℕ → List ListingEvent → Option ListingEvent
last_about id [] = none
last_about id (e ∷ es) = or_first id e (last_about id es)

last_about-select :
    (id : ℕ) (es : List ListingEvent)
    → last_about id es ≡ last_about id (select (λ e. e.listing_id == id) es)
unfolding last_about select
last_about-select id [] = refl
last_about-select id (e ∷ es) = elim (Bool-cases (e.listing_id == id)) [
  | inl p ↦ rw p (ap (or_first id e) (last_about-select id es))
  | inr p ↦ elim (Option-cases (last_about id es)) [
    | inl n ↦ rw (p, sym (last_about-select id es), n, p) refl
    | inr (l, n) ↦ rw (p, sym (last_about-select id es), n) refl
  ]
]

module _ {S : Type 0} (elastic : Elastic S) where
  abbrev pub effect_of : ListingEvent → Option Document
  effect_of e = if is_deleted e.type then none else some (document_of elastic e)

  abbrev pub shown_by : Option ListingEvent → Option Document → Option Document
  shown_by none before = before
  shown_by (some e) before = effect_of e

  -- The handler returned nil, and a delete did not fail unseen.
  abbrev pub Done : ListingEvent → S → Type 0
  Done e s =
      ((handle_event elastic e s).0 ≡ true)
      × ((if is_deleted e.type then removed (elastic.delete_document e.listing_id s).0 else true)
          ≡ true)

  abbrev pub handle_all : List ListingEvent → S → S
  handle_all [] s = s
  handle_all (e ∷ es) s = handle_all es (handle_event elastic e s).1

  abbrev pub AllDone : List ListingEvent → S → Type 0
  AllDone [] s = Unit
  AllDone (e ∷ es) s = Done e s × AllDone es (handle_event elastic e s).1

  module _ (honest : Honest elastic) where
    -- A call that returns nil went through the breaker, and its answer was taken for a success.
    execute-ok :
        (good : Answer → Bool) (request : S → Answer × S) (id : ℕ) (s : S)
        → (execute elastic good request s).0 ≡ true
        → (good (request s).0 ≡ true)
          × (elastic.stored id (execute elastic good request s).1 ≡ elastic.stored id (request s).1)
    execute-ok good request id s h = elim (Bool-cases (elastic.lets_through s)) [
      | inr c ↦ absurd (ground (arith, c, h))
      | inl c ↦ (ground (arith, c, h), rw c (honest.noted id (good (request s).0) (request s).1))
    ]

    upsert-stored :
        (id : ℕ) (doc : Document) (s : S)
        → (upsert elastic doc s).0 ≡ true
        → elastic.stored id (upsert elastic doc s).1
          ≡ (if doc.listing_id == id then some doc else elastic.stored id s)
    unfolding upsert
    upsert-stored id doc s h =
        let (good, kept) = execute-ok accepted (elastic.index_document doc.listing_id doc) id s h in
        elim (Bool-cases (doc.listing_id == id)) [
          | inr n ↦ rw n (kept ∙ honest.index_apart doc.listing_id id doc s n)
          | inl e ↦
              let same : doc.listing_id ≡ id = (==_iff doc.listing_id id).0 e in
              rw e (
                kept
                ∙ (ap (λ k. elastic.stored k (elastic.index_document doc.listing_id doc s).1)
                      (sym same)
                    ∙ honest.indexed doc.listing_id doc s good))
        ]

    delete-stored :
        (id listing : ℕ) (s : S)
        → (delete elastic listing s).0 ≡ true
        → removed (elastic.delete_document listing s).0 ≡ true
        → elastic.stored id (delete elastic listing s).1
          ≡ (if listing == id then none else elastic.stored id s)
    unfolding delete
    delete-stored id listing s h gone =
        let (good, kept) = execute-ok reached (elastic.delete_document listing) id s h in
        elim (Bool-cases (listing == id)) [
          | inr n ↦ rw n (kept ∙ honest.delete_apart listing id s n)
          | inl e ↦
              let same : listing ≡ id = (==_iff listing id).0 e in
              rw e (
                kept
                ∙ (ap (λ k. elastic.stored k (elastic.delete_document listing s).1) (sym same)
                    ∙ honest.deleted listing s gone))
        ]

    by_type-stored :
        (id : ℕ) (e : ListingEvent) (type : ListingEventType) (s : S)
        → (by_type elastic e type s).0 ≡ true
        → (if is_deleted type then removed (elastic.delete_document e.listing_id s).0 else true)
          ≡ true
        → elastic.stored id (by_type elastic e type s).1 ≡ (
            if e.listing_id == id
            then (if is_deleted type then none else some (document_of elastic e))
            else elastic.stored id s)
    by_type-stored id e listing_deleted s h d = delete-stored id e.listing_id s h d
    by_type-stored id e listing_created s h d = upsert-stored id (document_of elastic e) s h
    by_type-stored id e listing_updated s h d = upsert-stored id (document_of elastic e) s h

    event-stored :
        (id : ℕ) (e : ListingEvent) (s : S)
        → Done e s
        → elastic.stored id (handle_event elastic e s).1
          ≡ (if e.listing_id == id then effect_of e else elastic.stored id s)
    unfolding handle_event
    event-stored id e s h = by_type-stored id e e.type s h.0 h.1

    shown-or_first :
        (id : ℕ) (e : ListingEvent) (later : Option ListingEvent) (before : Option Document)
        → shown_by later (if e.listing_id == id then effect_of e else before)
          ≡ shown_by (or_first id e later) before
    shown-or_first id e (some l) before = refl
    shown-or_first id e none before = elim (Bool-cases (e.listing_id == id)) [
      | inl p ↦ rw p refl
      | inr p ↦ rw p refl
    ]

    -- After a sequence of events that the handler has taken with no error, and of whose deletes none failed
    -- unseen, the index holds for each listing the content of the last event about it, or nothing if that was
    -- a delete, and what it held before if there was none.
    pub index-latest :
        (es : List ListingEvent) (id : ℕ) (s : S)
        → AllDone es s
        → elastic.stored id (handle_all es s) ≡ shown_by (last_about id es) (elastic.stored id s)
    unfolding last_about
    index-latest [] id s h = refl
    index-latest (e ∷ es) id s h =
        index-latest es id (handle_event elastic e s).1 h.1
        ∙ (ap (shown_by (last_about id es)) (event-stored id e s h.0)
            ∙ shown-or_first id e (last_about id es) (elastic.stored id s))

    -- Two orders of events in which the events of each listing are the same and in the same order leave the
    -- same document for every listing, if in both the handler has taken every event with no error and no delete
    -- has failed unseen.
    pub index-interleaved :
        (es es' : List ListingEvent) (s : S)
        → AllDone es s
        → AllDone es' s
        → ((id : ℕ) → select (λ e. e.listing_id == id) es ≡ select (λ e. e.listing_id == id) es')
        → (id : ℕ) → elastic.stored id (handle_all es s) ≡ elastic.stored id (handle_all es' s)
    index-interleaved es es' s h h' same id =
        let last : last_about id es ≡ last_about id es' =
          last_about-select id es
          ∙ (ap (last_about id) (same id) ∙ sym (last_about-select id es')) in
        index-latest es id s h
        ∙ (ap (λ o. shown_by o (elastic.stored id s)) last ∙ sym (index-latest es' id s h'))
