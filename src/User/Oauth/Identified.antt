-- ===== src/User/Oauth/Identified.antt =====
-- internal/user/oauth_handler.go: whom a token of the callback is for.
use gearshare.Prelude.{
  ℕ, ◌≡◌, refl, sym, ap, ◌∙◌, inl, inr, String, Bool, true, Option, none, some, List, arith, find,
  find-true, ◌==◌, Bool-cases, Option-cases, same, same→≡, suc,
}
use gearshare.Prelude.Text.{str_eq, eq_iff}
use gearshare.Store.{
  World, Tables, OauthIdentity, Result, ok, err, Result-cases, query_in_tx, exec, query, reader,
}
use gearshare.Store.Tx.{within_transaction}
use gearshare.Store.Tx.Commits.{within_transaction-Committed}
use gearshare.User.{is_identity, insert_user, upsert_oauth_identity, oauth_user, link, get_by_id}
use gearshare.User.Oauth.{
  IdentityClaims, signed_in, verify_id_token, with_user, linked, link_google, with_claims,
  exchanged, callback,
}
use gearshare.Model.User.{User, Role}
use gearshare.Http.Cookie.{Cookie}

str_eq_refl : (s : String) → str_eq s s ≡ true
str_eq_refl s = (eq_iff s s).1 refl

-- The identity that the tables have for a subject.
abbrev pub identity_of : String → String → Tables → Option OauthIdentity
identity_of provider subject t = find (is_identity provider subject) t.oauth_identities

link-identity :
    (provider subject email name : String) (w : World) (id : ℕ)
    → (link provider subject email name w).0 ≡ ok id
    → identity_of provider subject (link provider subject email name w).1.primary
      ≡ some (record { user_id = id; provider = provider; provider_user_id = subject })
unfolding exec find
link-identity provider subject email name w id h =
    elim (Result-cases (insert_user (oauth_user email name) w).0) [
      | inr (e, p) ↦ absurd (ground (arith, p, h))
      | inl (user_id, p) ↦
          let v = (insert_user (oauth_user email name) w).1 in
          elim (Option-cases (v.faults v.clock)) [
            | inr (x, q) ↦ absurd (ground (arith, p, q, h))
            | inl q ↦ ground (arith, p, q, h, str_eq_refl provider, str_eq_refl subject)
          ]
    ]

upsert-identity :
    (provider subject email name : String) (w : World) (id : ℕ)
    → (upsert_oauth_identity provider subject email name w).0 ≡ ok id
    → (i : OauthIdentity) × (identity_of provider subject
          (upsert_oauth_identity provider subject email name w).1.primary
        ≡ some i)
      × (i.user_id ≡ id)
unfolding upsert_oauth_identity query_in_tx
upsert-identity provider subject email name w id h = elim (Option-cases (w.faults w.clock)) [
  | inr (x, q) ↦ absurd (ground (arith, q, h))
  | inl q ↦ elim (Option-cases (identity_of provider subject w.primary)) [
    | inr (i, e) ↦ (i, ground (arith, q, e), ground (arith, q, e, h))
    | inl e ↦
        let v = record w { clock = suc w.clock } in
        let same : (link provider subject email name v).0 ≡ ok id = ground (arith, q, e, h) in
        let found = link-identity provider subject email name v id same in
        (
          record { user_id = id; provider = provider; provider_user_id = subject },
          ground (arith, q, e, found),
          refl,
        )
  ]
]

-- A row that is found by an id has it.
get_by_id-found : (id : ℕ) (w : World) (u : User) → (get_by_id id w).0 ≡ ok u → u.id ≡ id
unfolding get_by_id query
get_by_id-found id w u h = elim (Option-cases (w.faults w.clock)) [
  | inr (x, q) ↦ absurd (ground (arith, q, h))
  | inl q ↦ elim (Option-cases (find (λ v. v.id == id) (reader w).users)) [
    | inl e ↦ absurd (ground (arith, q, h, e))
    | inr (v, e) ↦ ground (arith, q, h, e, find-true (λ v. v.id == id) (reader w).users v e)
  ]
]

get_by_id-primary : (id : ℕ) (w : World) → (get_by_id id w).1.primary ≡ w.primary
unfolding get_by_id query
get_by_id-primary id w = ground arith

module _ (secure : Bool) (exchange : String → Option (Option String))
    (library : String → Option IdentityClaims) (sign : ℕ → Role → Option String) where
  -- What stands behind a token for the claims of a verified ID token.
  pub record SignedIn (subject token : String) (after : World) : Type 0 where
    pub identity : OauthIdentity
    pub account : User
    pub linked : identity_of "google" subject after.primary ≡ some identity
    pub owner : account.id ≡ identity.user_id
    pub token_for : sign account.id account.role ≡ some token

  user-signed :
      (row : Result User) (token : String) (c : Cookie)
      → with_user secure exchange library sign row ≡ signed_in token c
      → (u : User) × (row ≡ ok u) × (sign u.id u.role ≡ some token)
  user-signed (err e) token c h = absurd (cc)
  user-signed (ok u) token c h = elim (Option-cases (sign u.id u.role)) [
    | inl s ↦ absurd (ground (arith, s, h))
    | inr (t, s) ↦ (u, refl, ground (arith, s, h))
  ]

  linked-Signed :
      (subject : String) (i : OauthIdentity) (id : ℕ) (w : World) (token : String) (c : Cookie)
      → identity_of "google" subject w.primary ≡ some i
      → i.user_id ≡ id
      → (linked secure exchange library sign (ok id) w).0 ≡ ok (signed_in token c)
      → SignedIn subject token (linked secure exchange library sign (ok id) w).1
  linked-Signed subject i id w token c known owned h =
      let reply : with_user secure exchange library sign (get_by_id id w).0 ≡ signed_in token c =
        ground (arith, h) in
      let (u, row, s) = user-signed (get_by_id id w).0 token c reply in
      record {
        identity = i;
        account = u;
        linked = ap (identity_of "google" subject) (get_by_id-primary id w) ∙ known;
        owner = get_by_id-found id w u row ∙ sym owned;
        token_for = s;
      }

  claims-Signed :
      (claims : IdentityClaims) (w : World) (token : String) (c : Cookie)
      → (with_claims secure exchange library sign (some claims) w).0 ≡ ok (signed_in token c)
      → SignedIn claims.subject token (with_claims secure exchange library sign (some claims) w).1
  claims-Signed claims w token c h =
      let fn = link_google secure exchange library sign claims in
      let after = (within_transaction fn w).1 in
      elim (Result-cases (within_transaction fn w).0) [
        | inr (e, p) ↦ absurd (ground (arith, h, p))
        | inl (id, p) ↦
            let (v, done, kept) = within_transaction-Committed fn id w p in
            let (i, known, owned) =
              upsert-identity "google" claims.subject claims.email claims.name v id done in
            let e : with_claims secure exchange library sign (some claims) w
                ≡ linked secure exchange library sign (ok id) after =
              ground (arith, p) in
            rw e (
              linked-Signed claims.subject i id after token c
                (ap (identity_of "google" claims.subject) kept ∙ known) owned
                (sym (ap (λ r. r.0) e) ∙ h))
      ]

  -- What the callback has seen before it hands a token out.
  pub record Verified (cookie : Option (List ℕ)) (state : List ℕ) (code token : String)
      (after : World) : Type 0 where
    pub raw : String
    pub claims : IdentityClaims
    pub state_kept : cookie ≡ some state
    pub exchanged_for : exchange code ≡ some (some raw)
    pub checked : library raw ≡ some claims
    pub email_verified : claims.email_verified ≡ true
    pub signed : SignedIn claims.subject token after

  verified_claims :
      (raw : String) (w : World) (token : String) (c : Cookie)
      → (exchanged secure exchange library sign (some (some raw)) w).0 ≡ ok (signed_in token c)
      → (claims : IdentityClaims) × (library raw ≡ some claims)
        × (claims.email_verified ≡ true)
        × SignedIn claims.subject token
            (exchanged secure exchange library sign (some (some raw)) w).1
  unfolding verify_id_token
  verified_claims raw w token c h = elim (Option-cases (library raw)) [
    | inl e ↦ absurd (ground (arith, h, e))
    | inr (claims, e) ↦ elim (Bool-cases claims.email_verified) [
      | inr v ↦ absurd (ground (arith, h, e, v))
      | inl v ↦
          let same : exchanged secure exchange library sign (some (some raw)) w
              ≡ with_claims secure exchange library sign (some claims) w =
            ground (arith, e, v) in
          (claims, e, v, rw same (claims-Signed claims w token c (sym (ap (λ r. r.0) same) ∙ h)))
    ]
  ]

  answer_verified :
      (answer : Option (Option String)) (w : World) (token : String) (c : Cookie)
      → (exchanged secure exchange library sign answer w).0 ≡ ok (signed_in token c)
      → (raw : String) × (answer ≡ some (some raw))
        × ((claims : IdentityClaims) × (library raw ≡ some claims)
            × (claims.email_verified ≡ true)
            × SignedIn claims.subject token (exchanged secure exchange library sign answer w).1)
  answer_verified none w token c h = absurd (cc)
  answer_verified (some none) w token c h = absurd (cc)
  answer_verified (some (some raw)) w token c h = (raw, refl, verified_claims raw w token c h)

  -- The callback hands a token out only where the cookie of the browser holds the state of the request, the
  -- code was exchanged for an ID token that the library accepts, with an email that Google has verified, and
  -- the token is for the account that the tables then link with the subject of that ID token.
  pub callback-Verified :
      (cookie : Option (List ℕ)) (state : List ℕ) (code : String) (w : World) (token : String)
      (c : Cookie)
      → (callback secure exchange library sign cookie state code w).0 ≡ ok (signed_in token c)
      → Verified cookie state code token
          (callback secure exchange library sign cookie state code w).1
  unfolding callback
  callback-Verified none state code w token c h = absurd (cc)
  callback-Verified (some value) state code w token c h = elim (Bool-cases (same state value)) [
    | inr e ↦ absurd (ground (arith, h, e))
    | inl e ↦
        let step : callback secure exchange library sign (some value) state code w
            ≡ exchanged secure exchange library sign (exchange code) w =
          ground (arith, e) in
        let (raw, answered, (claims, checked, v, signed)) =
          answer_verified (exchange code) w token c (sym (ap (λ r. r.0) step) ∙ h) in
        record {
          raw = raw;
          claims = claims;
          state_kept = ap some (sym (same→≡ state value e));
          exchanged_for = answered;
          checked = checked;
          email_verified = v;
          signed = rw step signed;
        }
  ]
