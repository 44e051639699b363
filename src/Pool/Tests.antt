-- ===== src/Pool/Tests.antt =====
-- The theorem on idle connections at a concrete pool.
use local_network_ecosystem.Prelude.{◌≡◌, refl, false, [], ◌∷◌}
use local_network_ecosystem.Pool.{UpstreamPool, opened, prune_idle}

-- One connection in use, one idle and stale, one idle and fresh.
abbrev pool : UpstreamPool
pool = record {
  max_idle_per_server = 32;
  idle_timeout = 60;
  pools =
      (("a", 80), opened 5 "a" 80 1 ∷ record (opened 5 "a" 80 2) { in_use = false } ∷ [])
      ∷ (("b", 80), record (opened 90 "b" 80 3) { in_use = false } ∷ [])
      ∷ [];
}

one_closed : (prune_idle 100 pool).1 ≡ 2 ∷ []
unfolding prune_idle
one_closed = refl
