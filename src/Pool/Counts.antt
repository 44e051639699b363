-- ===== src/Pool/Counts.antt =====
-- How many connections are in use, and how many are idle.
use local_network_ecosystem.Prelude.{
  ℕ, ◌+◌, ◌≡◌, refl, String, Bool, false, not, List, [], ◌∷◌, arith, length, length-append, All,
  string_eq, nat_eq, addr_eq, Bool-cases, inl, inr,
}
use local_network_ecosystem.Pool.{
  PooledConnection, Pools, UpstreamPool, is_prunable, prune_pool, prune_pools, unless_empty,
  prune_idle, count, count_all, active_connections, idle_connections,
}

-- What stays in a pool is in use or fresh.
abbrev pub IsKept : ℕ → ℕ → PooledConnection → Type 0
IsKept now timeout c = is_prunable now timeout c ≡ false

prune_pool_lem :
    (now timeout : ℕ) (pool : List PooledConnection)
    → let (kept, closed) = prune_pool now timeout pool in
      (count (λ c. c.in_use) kept ≡ count (λ c. c.in_use) pool)
      × (count (λ c. not c.in_use) kept + length closed ≡ count (λ c. not c.in_use) pool)
      × All (IsKept now timeout) kept
unfolding prune_pool count
prune_pool_lem now timeout [] = (refl, refl, tt)
prune_pool_lem now timeout (c ∷ rest) =
    let (active, idle, kept) = prune_pool_lem now timeout rest in
    elim (Bool-cases (is_prunable now timeout c)) [
      | inl gone ↦ rw gone (ground (arith, gone, active), ground (arith, gone, idle), kept)
      | inr stays ↦ rw stays (ground (arith, active), ground (arith, idle), (stays, kept))
    ]

count_all-unless_empty :
    (f : PooledConnection → Bool) (key : String × ℕ) (conns : List PooledConnection) (rest : Pools)
    → count_all f (unless_empty key conns rest) ≡ count f conns + count_all f rest
unfolding count_all count
count_all-unless_empty f key [] rest = ground arith
count_all-unless_empty f key (c ∷ conns) rest = refl

All-unless_empty {κ} :
    (P : (String × ℕ) × List PooledConnection → Type κ) (key : String × ℕ)
    (conns : List PooledConnection) (rest : Pools)
    → P (key, conns)
    → All P rest
    → All P (unless_empty key conns rest)
All-unless_empty P key [] rest p h = h
All-unless_empty P key (c ∷ conns) rest p h = (p, h)

prune_pools_lem :
    (now timeout : ℕ) (pools : Pools)
    → let (kept, closed) = prune_pools now timeout pools in
      (count_all (λ c. c.in_use) kept ≡ count_all (λ c. c.in_use) pools)
      × (count_all (λ c. not c.in_use) kept + length closed ≡ count_all (λ c. not c.in_use) pools)
      × All (λ e. All (IsKept now timeout) e.1) kept
unfolding prune_pools count_all
prune_pools_lem now timeout [] = (refl, refl, tt)
prune_pools_lem now timeout ((key, pool) ∷ rest) =
    let kept = (prune_pool now timeout pool).0 in
    let rest' = (prune_pools now timeout rest).0 in
    let (active, idle, all_kept) = prune_pool_lem now timeout pool in
    let (active', idle', all_kept') = prune_pools_lem now timeout rest in
    (
      ground (arith, count_all-unless_empty (λ c. c.in_use) key kept rest', active, active'),
      ground (
        arith,
        count_all-unless_empty (λ c. not c.in_use) key kept rest',
        idle,
        idle',
        length-append (prune_pool now timeout pool).1 (prune_pools now timeout rest).1,
      ),
      All-unless_empty (λ e. All (IsKept now timeout) e.1) key kept rest' all_kept all_kept',
    )

-- prune_idle closes no connection that is in use, and as many idle ones as it reports; every idle
-- connection that it keeps has been used within the timeout.
pub prune_idle_lem :
    (now : ℕ) (p : UpstreamPool)
    → let (p', closed) = prune_idle now p in
      (active_connections p' ≡ active_connections p)
      × (idle_connections p' + length closed ≡ idle_connections p)
      × All (λ e. All (IsKept now p.idle_timeout) e.1) p'.pools
unfolding prune_idle active_connections idle_connections
prune_idle_lem now p = prune_pools_lem now p.idle_timeout p.pools
