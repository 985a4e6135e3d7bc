-- ===== src/Store/Pools.antt =====
-- internal/db/mysql.go: the pools of connections. A pool is known by its number; `connects` is
-- sqlx.ConnectContext, which leaves nothing open when it fails, and `close_fails` is the error of a Close, by the
-- pool.
pub mod Closed
use gearshare.Prelude.{
  ℕ, suc, String, Bool, true, false, ◌||◌, Option, none, some, List, [], ◌∷◌, ◌==◌, if◌then◌else◌,
}
use gearshare.Prelude.Int.{ℤ}
use gearshare.Prelude.Text.{str_eq}
use gearshare.Config.{MysqlConfig}

pub record Pool : Type 0 where
  pub number : ℕ
  pub dsn : String
  pub max_open_conns : ℤ
  pub max_idle_conns : ℤ

-- The pools that are open, and the number of the next.
pub record Pools : Type 0 where
  pub open_pools : List Pool
  pub next : ℕ

-- `Replica` may be nil, though Connect never leaves it so.
pub record Db : Type 0 where
  pub primary : Pool
  pub replica : Option Pool

pub data Connected : Type 0 where
  primary_failed replica_failed : Connected
  connected : Db → Connected

abbrev pub new_pool : String → MysqlConfig → ℕ → Pool
new_pool dsn cfg n = record {
  number = n;
  dsn = dsn;
  max_open_conns = cfg.max_open_conns;
  max_idle_conns = cfg.max_idle_conns;
}

unfoldable pub without : ℕ → List Pool → List Pool
without n [] = []
without n (p ∷ ps) = let rest = without n ps in if p.number == n then rest else p ∷ rest

-- `d.Reader()`
abbrev pub reader : Db → Pool
reader d = elim d.replica [ none ↦ d.primary | some p ↦ p ]

abbrev pub replica_dsn_of : MysqlConfig → String
replica_dsn_of cfg = if str_eq cfg.replica_dsn "" then cfg.primary_dsn else cfg.replica_dsn

module _ (connects : ℕ → String → Bool) (close_fails : Pool → Bool) where
  abbrev pub connect_pool : String → MysqlConfig → Pools → Option Pool × Pools
  connect_pool dsn cfg s =
      if connects s.next dsn
      then (
        some (new_pool dsn cfg s.next),
        record { open_pools = new_pool dsn cfg s.next ∷ s.open_pools; next = suc s.next },
      )
      else (none, record s { next = suc s.next })

  abbrev pub with_replica : Pool → Option Pool × Pools → Connected × Pools
  with_replica primary (none, s) = (replica_failed, s)
  with_replica primary (some p, s) = (connected (record { primary = primary; replica = some p }), s)

  abbrev pub with_primary : MysqlConfig → Option Pool × Pools → Connected × Pools
  with_primary cfg (none, s) = (primary_failed, s)
  with_primary cfg (some p, s) = with_replica p (connect_pool (replica_dsn_of cfg) cfg s)

  unfoldable pub connect : MysqlConfig → Pools → Connected × Pools
  connect cfg s = with_primary cfg (connect_pool cfg.primary_dsn cfg s)

  abbrev pub close_pool : Pool → Pools → Pools
  close_pool p s = record s { open_pools = without p.number s.open_pools }

  -- Whether all went well; nothing is the panic of a nil replica, whose primary is closed by then.
  abbrev pub close_replica : Pool → Option Pool → Pools → Option (Bool × Pools)
  close_replica primary none s = none
  close_replica primary (some p) s =
      if p.number == primary.number
      then some (if close_fails primary then false else true, s)
      else some (if close_fails primary || close_fails p then false else true, close_pool p s)

  unfoldable pub close : Db → Pools → Option (Bool × Pools)
  close d s = close_replica d.primary d.replica (close_pool d.primary s)
