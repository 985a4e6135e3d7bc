-- ===== src/Api/Degraded.antt =====
-- cmd/api/main.go: what the services that may be away at the start change.
use gearshare.Prelude.{
  ℕ, ◌≡◌, refl, sym, ap, ◌∙◌, String, Bool, true, false, not, Option, List, arith, inl, inr,
  Option-cases, select,
}
use gearshare.Prelude.Int.{ℤ}
use gearshare.Config.{Config, load}
use gearshare.Model.Booking.{Status}
use gearshare.Model.Event.{BookingEventType}
use gearshare.Booking.Repository.{get_by_id, update_status}
use gearshare.Store.{World, Result-cases}
use gearshare.Store.Pools.{
  Pool, Pools, Connected, primary_failed, replica_failed, connected, connect,
}
use gearshare.Booking.Create.{CreateBookingInput}
use gearshare.Booking.Service.{
  Service, create_booking, transition, approve, reject, cancel, activate, complete, dispute,
}
use gearshare.Booking.Service.Lifecycle.{announce-Passes, finish-Kept}
use gearshare.Booking.History.{
  Move, approves, rejects, cancels, activates, completes, disputes, perform,
}
use gearshare.Booking.History.Bookings.{create_booking-Kept}
use gearshare.Booking.Response.Dates.{create_booking-answer}
use gearshare.Routes.{
  Endpoint, oauth_start, oauth_callback, saml_metadata, saml_acs, saml_login, Route, new_router,
}
use gearshare.Api.{Services, App, started, assemble, with_oauth, with_saml, with_database, boot}

transition-answer :
    (s t : Service) (id : ℕ) (to : Status) (type : BookingEventType) (w : World)
    → (transition s id to type w).0 ≡ (transition t id to type w).0
unfolding transition
transition-answer s t id to type w = elim (Result-cases (update_status id to w).0) [
  | inr (e, p) ↦ ground (arith, p)
  | inl (_, p) ↦
      let v = (update_status id to w).1 in
      elim (Result-cases (get_by_id id v).0) [
        | inr (e, q) ↦ ground (arith, p, q)
        | inl (b, q) ↦
            let u = (get_by_id id v).1 in
            ground (arith, p, q, announce-Passes s type b u, announce-Passes t type b u)
      ]
]

transition-tables :
    (s t : Service) (id : ℕ) (to : Status) (type : BookingEventType) (w : World)
    → (transition s id to type w).1.primary ≡ (transition t id to type w).1.primary
transition-tables s t id to type w =
    (finish-Kept s id to type w).primary ∙ sym (finish-Kept t id to type w).primary

-- A change of status answers and writes the same whatever the service has besides the tables.
pub perform-alike :
    (s t : Service) (m : Move) (id : ℕ) (w : World)
    → ((perform s m id w).0 ≡ (perform t m id w).0)
      × ((perform s m id w).1.primary ≡ (perform t m id w).1.primary)
unfolding approve reject cancel activate complete dispute
perform-alike s t approves id w = (transition-answer s t id _ _ w, transition-tables s t id _ _ w)
perform-alike s t rejects id w = (transition-answer s t id _ _ w, transition-tables s t id _ _ w)
perform-alike s t cancels id w = (transition-answer s t id _ _ w, transition-tables s t id _ _ w)
perform-alike s t activates id w = (transition-answer s t id _ _ w, transition-tables s t id _ _ w)
perform-alike s t completes id w = (transition-answer s t id _ _ w, transition-tables s t id _ _ w)
perform-alike s t disputes id w = (transition-answer s t id _ _ w, transition-tables s t id _ _ w)

pub create_booking-alike :
    (s t : Service) (input : CreateBookingInput) (w : World)
    → ((create_booking s input w).0 ≡ (create_booking t input w).0)
      × ((create_booking s input w).1.primary ≡ (create_booking t input w).1.primary)
create_booking-alike s t input w = (
  create_booking-answer s input w ∙ sym (create_booking-answer t input w),
  (create_booking-Kept s input w).primary ∙ sym (create_booking-Kept t input w).primary,
)

-- The routes that another party's identity provider is asked for.
abbrev pub is_federated : Endpoint → Bool
is_federated oauth_start = true
is_federated oauth_callback = true
is_federated saml_metadata = true
is_federated saml_acs = true
is_federated saml_login = true
is_federated _ = false

abbrev pub own_routes : List Route → List Route
own_routes = select (λ r. not (is_federated r.endpoint))

own_routes-new_router :
    (has_oauth has_saml : Bool)
    → own_routes (new_router has_oauth has_saml) ≡ new_router false false
unfolding new_router select
own_routes-new_router true true = refl
own_routes-new_router true false = refl
own_routes-new_router false true = refl
own_routes-new_router false false = refl

module _ (env : String → Option String) (parse_duration : String → Option ℤ)
    (connects : ℕ → String → Bool) (close_fails : Pool → Bool) where
  abbrev pub Alike : App → App → Type 0
  Alike a b =
      (b.config ≡ a.config)
      × (b.database ≡ a.database)
      × (b.internal ≡ a.internal)
      × (own_routes b.routes ≡ new_router false false)

  with_database-Alike :
      (cfg : Config) (up up' : Services) (c : Connected × Pools) (a : App) (s : Pools)
      → with_database env parse_duration connects close_fails cfg up c ≡ (started a, s)
      → (b : App) × (with_database env parse_duration connects close_fails cfg up' c
          ≡ (started b, s))
        × Alike a b
  with_database-Alike cfg up up' (primary_failed, t) a s h = absurd (ground (arith, h))
  with_database-Alike cfg up up' (replica_failed, t) a s h = absurd (ground (arith, h))
  with_database-Alike cfg up up' (connected db, t) a s h =
      let e : started (assemble env parse_duration cfg db up) ≡ started a = ap (λ r. r.0) h in
      let same : s ≡ t = sym (ap (λ r. r.1) h) in
      (
        assemble env parse_duration cfg db up',
        ground (arith, same),
        (
          ground (arith, e),
          ground (arith, e),
          ground (arith, e),
          own_routes-new_router (with_oauth cfg up') (with_saml cfg up'),
        ),
      )

  -- Whether the process starts, with which configuration, pools and internal credential, does not depend on the
  -- services beside MySQL: if it starts with some of them away, it starts with any others away. Every route that
  -- asks no identity provider is then served, and every booking that is made or changed gets the same answer and
  -- leaves the same tables.
  pub boot-degrades :
      (up up' : Services) (pools : Pools) (a : App) (s : Pools)
      → boot env parse_duration connects close_fails up pools ≡ (started a, s)
      → (input : CreateBookingInput) (m : Move) (id : ℕ) (w : World)
      → (b : App) × (boot env parse_duration connects close_fails up' pools ≡ (started b, s))
        × Alike a b
        × ((create_booking a.booking input w).0 ≡ (create_booking b.booking input w).0)
        × ((create_booking a.booking input w).1.primary
            ≡ (create_booking b.booking input w).1.primary)
        × ((perform a.booking m id w).0 ≡ (perform b.booking m id w).0)
        × ((perform a.booking m id w).1.primary ≡ (perform b.booking m id w).1.primary)
  unfolding boot
  boot-degrades up up' pools a s h input m id w = elim (Option-cases (load env parse_duration)) [
    | inl e ↦ absurd (ground (arith, e, h))
    | inr (cfg, e) ↦
        let c = connect connects close_fails cfg.mysql pools in
        let (b, booted, alike) = with_database-Alike cfg up up' c a s (ground (arith, e, h)) in
        let (answer, tables) = create_booking-alike a.booking b.booking input w in
        let (moved, after) = perform-alike a.booking b.booking m id w in
        (b, ground (arith, e, booted), alike, answer, tables, moved, after)
  ]
