-- ===== src/Store/Pools/Closed.antt =====
-- internal/db/mysql.go: which pools stay open.
use gearshare.Prelude.{
  ℕ, suc, ◌<◌, ◌≡◌, refl, String, Bool, true, false, ◌||◌, some, List, [], ◌∷◌, All, arith, ◌==◌,
  if◌then◌else◌, Bool-cases, inl, inr,
}
use gearshare.Config.{MysqlConfig}
use gearshare.Store.Pools.{
  Pool, Pools, Connected, primary_failed, replica_failed, connected, without, reader,
  replica_dsn_of, connect, close,
}

abbrev Below : ℕ → List Pool → Type 0
Below n = All (λ p. p.number < n)

abbrev pub Fresh : Pools → Type 0
Fresh s = Below s.next s.open_pools

without-Below : (n m : ℕ) (ps : List Pool) → n < suc m → Below n ps → without m ps ≡ ps
unfolding without
without-Below n m [] h b = refl
without-Below n m (p ∷ ps) h (q, b) =
    let rest = without-Below n m ps h b in
    let other : (p.number == m) ≡ false = ground (arith, h, q) in ground (arith, other, rest)

module _ (connects : ℕ → String → Bool) (close_fails : Pool → Bool) where
  -- What the pools are after a call of `connect` from s.
  abbrev pub Accounted : MysqlConfig → Pools → Connected × Pools → Type 0
  Accounted cfg s (primary_failed, s') = s'.open_pools ≡ s.open_pools
  Accounted cfg s (replica_failed, s') =
      (p : Pool) × (p.dsn ≡ cfg.primary_dsn) × (s'.open_pools ≡ p ∷ s.open_pools)
  Accounted cfg s (connected d, s') =
      (d.primary.dsn ≡ cfg.primary_dsn)
      × ((reader d).dsn ≡ replica_dsn_of cfg)
      × (close connects close_fails d s'
          ≡ some (
            if close_fails d.primary || close_fails (reader d) then false else true,
            record s' { open_pools = s.open_pools },
          ))

  close_both :
      (p q : Pool)
      → q.number ≡ suc p.number
      → (ps : List Pool) (next : ℕ) → Below p.number ps
      → close connects close_fails
          (record { primary = p; replica = some q })
          (record { open_pools = q ∷ p ∷ ps; next = next })
        ≡ some (
          if close_fails p || close_fails q then false else true,
          record { open_pools = ps; next = next },
        )
  unfolding close without
  close_both p q e ps next b =
      let first = without-Below p.number p.number ps (omega arith) b in
      let second = without-Below p.number q.number ps (omega (arith, e)) b in
      let other : (q.number == p.number) ≡ false = ground (arith, e) in
      let same_p : (p.number == p.number) ≡ true = ground arith in
      let same_q : (q.number == q.number) ≡ true = ground arith in
      rw (other, same_p, first, same_q, second) refl

  -- After Connect and Close the pools are those that were open before, whether or not a Close fails, and the
  -- answer of Close says whether one did. The primary is the pool of the primary's DSN and `Reader()` one of the
  -- replica's, or of the primary's where that is not set. A Connect that cannot reach the primary opens nothing,
  -- and one that cannot reach the replica leaves a pool of the primary open. The pools have older numbers than
  -- the next.
  pub connect-Accounted :
      (cfg : MysqlConfig) (s : Pools)
      → Fresh s
      → Accounted cfg s (connect connects close_fails cfg s)
  unfolding connect close without
  connect-Accounted cfg s fresh = elim (Bool-cases (connects s.next cfg.primary_dsn)) [
    | inr down ↦ rw down refl
    | inl up ↦ elim (Bool-cases (connects (suc s.next) (replica_dsn_of cfg))) [
      | inr down ↦ rw (up, down) (_, refl, refl)
      | inl too ↦
          rw (up, too) (refl, refl, close_both _ _ refl s.open_pools (suc (suc s.next)) fresh)
    ]
  ]
