-- ===== src/Cache/RateLimiter/Window.antt =====
-- internal/cache/ratelimiter.go: how many requests of one window pass.
use Prim.Native.Nat.{min}
use gearshare.Prelude.{
  ℕ, zero, suc, ◌+◌, ◌-◌, ◌/◌, ◌≡◌, refl, ap, ◌∙◌, String, true, false, arith, leb, if◌then◌else◌,
}
use gearshare.Prelude.Text.{str_eq, eq_iff}
use gearshare.Cache.RateLimiter.{
  WindowKey, Redis, same_window, count_of, issue, allow, passes, burst,
}

str_eq_refl : (s : String) → str_eq s s ≡ true
str_eq_refl s = (eq_iff s s).1 refl

abbrev pub key_at : String → ℕ → ℕ → WindowKey
key_at key window now = record { key = key; window = now / window }

-- Without failures a request counts itself, and passes while the count has not reached the limit.
allow-counts :
    (key : String) (max window now : ℕ) (r : Redis)
    → ((n : ℕ) → r.fails n ≡ false)
    → let c = count_of (key_at key window now) r.counts in
      let (a, r') = allow key max window now r in
      (passes a ≡ leb (suc c) max)
      × (count_of (key_at key window now) r'.counts ≡ suc c)
      × (r'.fails ≡ r.fails)
unfolding allow passes count_of
allow-counts key max window now r quiet =
    ground (arith, quiet r.issued, quiet (suc r.issued), str_eq_refl key)

other_key :
    (j : WindowKey) (key : String) (max window now : ℕ) (r : Redis)
    → same_window (key_at key window now) j ≡ false
    → count_of j (allow key max window now r).1.counts ≡ count_of j r.counts
unfolding allow count_of
other_key j key max window now r other = ground (arith, other)

-- Without failures a burst of n requests under one key in one window has as many pass as the limit leaves
-- room for: min n (max - c), where c are counted already.
pub burst-admits :
    (n : ℕ) (key : String) (max window now : ℕ) (r : Redis)
    → ((k : ℕ) → r.fails k ≡ false)
    → (burst n key max window now r).0 ≡ min n (max - count_of (key_at key window now) r.counts)
unfolding burst
burst-admits zero key max window now r quiet = ground arith
burst-admits (suc n) key max window now r quiet =
    let r' = (allow key max window now r).1 in
    let (a, b, c) = allow-counts key max window now r quiet in
    let rest = burst-admits n key max window now r' (λ k. ap (λ f. f k) c ∙ quiet k) in
    ground (arith, a, b, rest)

-- Only the window of an instant matters.
pub burst-same_window :
    (n : ℕ) (key : String) (max window now later : ℕ) (r : Redis)
    → later / window ≡ now / window
    → burst n key max window later r ≡ burst n key max window now r
unfolding burst allow
burst-same_window zero key max window now later r e = refl
burst-same_window (suc n) key max window now later r e =
    let r' = (allow key max window now r).1 in
    rw e (
      ap (λ t. (if passes (allow key max window now r).0 then suc t.0 else t.0, t.1))
        (burst-same_window n key max window now later r' e))

-- A burst leaves the counters of the other clients and of the other windows alone, whatever fails.
pub burst-isolated :
    (n : ℕ) (key : String) (max window now : ℕ) (r : Redis) (j : WindowKey)
    → same_window (key_at key window now) j ≡ false
    → count_of j (burst n key max window now r).1.counts ≡ count_of j r.counts
unfolding burst
burst-isolated zero key max window now r j other = refl
burst-isolated (suc n) key max window now r j other =
    burst-isolated n key max window now (allow key max window now r).1 j other
    ∙ other_key j key max window now r other

-- With Redis down every request passes.
pub burst_open :
    (n : ℕ) (key : String) (max window now : ℕ) (r : Redis)
    → ((k : ℕ) → r.fails k ≡ true)
    → (burst n key max window now r).0 ≡ n
unfolding burst allow passes
burst_open zero key max window now r down = refl
burst_open (suc n) key max window now r down =
    ground (arith, down r.issued, burst_open n key max window now (issue r) down)

-- A burst counts each of its requests, whether it passes or not.
pub burst-counts :
    (n : ℕ) (key : String) (max window now : ℕ) (r : Redis)
    → ((k : ℕ) → r.fails k ≡ false)
    → let r' = (burst n key max window now r).1 in
      (count_of (key_at key window now) r'.counts ≡ n + count_of (key_at key window now) r.counts)
      × (r'.fails ≡ r.fails)
unfolding burst
burst-counts zero key max window now r quiet = (omega arith, refl)
burst-counts (suc n) key max window now r quiet =
    let r' = (allow key max window now r).1 in
    let (a, b, c) = allow-counts key max window now r quiet in
    let (d, e) = burst-counts n key max window now r' (λ k. ap (λ f. f k) c ∙ quiet k) in
    (omega (arith, b, d), e ∙ c)
