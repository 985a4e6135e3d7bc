-- ===== src/Config/Loaded.antt =====
-- internal/config/config.go: what holds of a configuration that is loaded.
use gearshare.Prelude.{
  ◌≡◌, refl, sym, ap, ◌∙◌, ◌⊎◌, inl, inr, String, true, false, Option, some, arith, Bool-cases,
  Option-cases,
}
use gearshare.Prelude.Int.{ℤ}
use gearshare.Prelude.Text.{str_eq, eq_iff}
use gearshare.Config.{Config, get_env, settings, with_replica, check_secret, load}

str_eq_refl : (s : String) → str_eq s s ≡ true
str_eq_refl s = (eq_iff s s).1 refl

-- What is read is the fallback, or what the environment has, which is not empty.
get_env-cases :
    (env : String → Option String) (parse : String → Option ℤ) (key fallback : String)
    → (get_env env parse key fallback ≡ fallback)
      ⊎ ((env key ≡ some (get_env env parse key fallback))
          × (str_eq (get_env env parse key fallback) "" ≡ false))
unfolding get_env
get_env-cases env parse key fallback = elim (Option-cases (env key)) [
  | inl e ↦ inl (ground (arith, e))
  | inr (v, e) ↦ elim (Bool-cases (str_eq v "")) [
    | inl p ↦ inl (ground (arith, e, p))
    | inr p ↦ inr (ground (arith, e, p), ground (arith, e, p))
  ]
]

with_replica-env : (c : Config) → (with_replica c).env ≡ c.env
with_replica-env c = ground arith

with_replica-auth : (c : Config) → (with_replica c).auth ≡ c.auth
with_replica-auth c = ground arith

with_replica-replica :
    (c : Config)
    → str_eq c.mysql.primary_dsn "" ≡ false
    → str_eq (with_replica c).mysql.replica_dsn "" ≡ false
with_replica-replica c h = elim (Bool-cases (str_eq c.mysql.replica_dsn "")) [
  | inl p ↦ ground (arith, p, h)
  | inr p ↦ ground (arith, p)
]

-- A secret that is checked is not the default in production.
-- What a replica is read from, by what the environment set.
with_replica-cases :
    (c : Config)
    → ((with_replica c).mysql.replica_dsn ≡ c.mysql.replica_dsn)
        × (str_eq c.mysql.replica_dsn "" ≡ false)
      ⊎ ((with_replica c).mysql.replica_dsn ≡ c.mysql.primary_dsn)
with_replica-cases c = elim (Bool-cases (str_eq c.mysql.replica_dsn "")) [
  | inl p ↦ inr (ground (arith, p))
  | inr p ↦ inl (ground (arith, p), p)
]

with_replica-primary : (c : Config) → (with_replica c).mysql.primary_dsn ≡ c.mysql.primary_dsn
with_replica-primary c = ground arith

check_secret-some :
    (c d : Config)
    → check_secret c ≡ some d
    → (d ≡ c)
      × ((str_eq c.env "production" ≡ false)
          ⊎ (str_eq c.auth.jwt_secret "dev-only-change-me" ≡ false))
check_secret-some c d h = elim (Bool-cases (str_eq c.env "production")) [
  | inr p ↦ (ground (arith, h, p), inl p)
  | inl p ↦ elim (Bool-cases (str_eq c.auth.jwt_secret "dev-only-change-me")) [
    | inl q ↦ absurd (ground (arith, h, p, q))
    | inr q ↦ (ground (arith, h, p, q), inr q)
  ]
]

module _ (env : String → Option String) (parse : String → Option ℤ) where
  get_env-not_empty :
      (key fallback : String)
      → str_eq fallback "" ≡ false
      → str_eq (get_env env parse key fallback) "" ≡ false
  get_env-not_empty key fallback h = elim (get_env-cases env parse key fallback) [
    | inl e ↦ rw e h
    | inr (_, p) ↦ p
  ]

  get_env-set :
      (key fallback : String)
      → str_eq (get_env env parse key fallback) fallback ≡ false
      → env key ≡ some (get_env env parse key fallback)
  get_env-set key fallback h = elim (get_env-cases env parse key fallback) [
    | inl e ↦ absurd (ground (arith, h, ap (λ v. str_eq v fallback) e, str_eq_refl fallback))
    | inr (e, _) ↦ e
  ]

  -- The replica of what is read: the one that the environment names, or the primary.
  abbrev pub ReplicaOf : Config → Type 0
  ReplicaOf c =
      ((env "MYSQL_REPLICA_DSN" ≡ some c.mysql.replica_dsn)
        × (str_eq c.mysql.replica_dsn "" ≡ false))
      ⊎ (c.mysql.replica_dsn ≡ c.mysql.primary_dsn)

  settings-ReplicaOf : ReplicaOf (with_replica (settings env parse))
  settings-ReplicaOf = elim (with_replica-cases (settings env parse)) [
    | inl (e, h) ↦ inl (rw e (get_env-set "MYSQL_REPLICA_DSN" "" h, h))
    | inr e ↦ inr (e ∙ sym (with_replica-primary (settings env parse)))
  ]

  -- A configuration that is loaded reads from the replica that MYSQL_REPLICA_DSN names, or from its primary;
  -- the address is not empty. A production deployment has its JWT secret from the environment, where it is neither
  -- empty nor the secret of the sources.
  pub load-Safe :
      (c : Config)
      → load env parse ≡ some c
      → ReplicaOf c
        × (str_eq c.mysql.replica_dsn "" ≡ false)
        × ((str_eq c.env "production" ≡ false)
            ⊎ ((env "JWT_SECRET" ≡ some c.auth.jwt_secret)
                × (str_eq c.auth.jwt_secret "" ≡ false)
                × (str_eq c.auth.jwt_secret "dev-only-change-me" ≡ false)))
  unfolding load
  load-Safe c h =
      let (same, checked) = check_secret-some (with_replica (settings env parse)) c h in
      let secret : c.auth.jwt_secret ≡ get_env env parse "JWT_SECRET" "dev-only-change-me" =
        ap (λ d. d.auth.jwt_secret) same
        ∙ ap (λ a. a.jwt_secret) (with_replica-auth (settings env parse)) in
      (
        rw same settings-ReplicaOf,
        ap (λ d. str_eq d.mysql.replica_dsn "") same
            ∙ with_replica-replica (settings env parse)
                (get_env-not_empty "MYSQL_PRIMARY_DSN" _ refl),
        elim checked [
          | inl p ↦ inl (ap (λ d. str_eq d.env "production") same ∙ p)
          | inr q ↦
              let fresh =
                ap (λ a. str_eq a.jwt_secret "dev-only-change-me")
                  (sym (with_replica-auth (settings env parse)))
                ∙ q in
              let found = get_env-set "JWT_SECRET" "dev-only-change-me" fresh in
              inr
                (rw secret (found, get_env-not_empty "JWT_SECRET" "dev-only-change-me" refl, fresh))
        ],
      )
