-- ===== src/Cache/RateLimiter.antt =====
-- internal/cache/ratelimiter.go. A key of Redis is the client's key with the number of its window; a key
-- that has expired is of a window that is over, and is not asked for again.
pub mod Window
use gearshare.Prelude.{
  ℕ, zero, suc, ◌+◌, ◌/◌, String, Bool, true, false, ◌&&◌, List, [], ◌∷◌, leb, ◌==◌, if◌then◌else◌,
}
use gearshare.Prelude.Text.{str_eq}

pub record WindowKey : Type 0 where
  pub key : String
  pub window : ℕ

-- The counters, the keys that EXPIRE was sent for, and which commands will fail.
pub record Redis : Type 0 where
  pub counts : List (WindowKey × ℕ)
  pub expiring : List WindowKey
  pub fails : ℕ → Bool
  pub issued : ℕ

abbrev pub same_window : WindowKey → WindowKey → Bool
same_window a b = str_eq a.key b.key && a.window == b.window

unfoldable pub count_of : WindowKey → List (WindowKey × ℕ) → ℕ
count_of k [] = 0
count_of k ((j, n) ∷ m) = if same_window j k then n else count_of k m

abbrev pub issue : Redis → Redis
issue r = record r { issued = suc r.issued }

-- INCR and EXPIRE; an error of the second is not looked at.
abbrev pub incr : WindowKey → Redis → Redis
incr k r = record (issue r) { counts = (k, suc (count_of k r.counts)) ∷ r.counts }

abbrev pub expire : WindowKey → Redis → Redis
expire k r = if r.fails r.issued then issue r else record (issue r) { expiring = k ∷ r.expiring }

pub record Answer : Type 0 where
  pub allowed : Bool
  pub failed : Bool

-- `Allow`, at a Unix time and a window in whole seconds.
unfoldable pub allow : String → ℕ → ℕ → ℕ → Redis → Answer × Redis
allow key max window now r =
    let k : WindowKey = record { key = key; window = now / window } in
    let count = suc (count_of k r.counts) in
    if r.fails r.issued then (record { allowed = true; failed = true }, issue r) else (
      record { allowed = leb count max; failed = false },
      if count == 1 then expire k (incr k r) else incr k r,
    )

-- What `Middleware` does with the answer: the next handler is run, or 429.
unfoldable pub passes : Answer → Bool
passes a = if a.failed then true else a.allowed

-- A burst of requests under one key at one time, and how many of them pass.
unfoldable pub burst : ℕ → String → ℕ → ℕ → ℕ → Redis → ℕ × Redis
burst zero key max window now r = (0, r)
burst (suc n) key max window now r =
    let (a, r1) = allow key max window now r in
    let (m, r2) = burst n key max window now r1 in (if passes a then suc m else m, r2)
