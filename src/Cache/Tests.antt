-- ===== src/Cache/Tests.antt =====
-- The theorems on the cache at a concrete one.
use local_network_ecosystem.Prelude.{
  ℕ, ◌≡◌, ◌≤◌, ◌+◌, ◌⊎◌, inl, refl, String, string_eq, true, false, some, none, List, [], ◌∷◌,
  arith, length, if◌then◌else◌,
}
use local_network_ecosystem.Dict
use local_network_ecosystem.Dict.{Dict, IsDistinct}
use local_network_ecosystem.Cache.{
  CacheEntry, DiskCache, ℤ, pos, is_past, make_room, store, retrieve,
}
use local_network_ecosystem.Cache.Sizes.{IsOver, IsSmall}
use local_network_ecosystem.Cache.Room.{make_room-done}
use local_network_ecosystem.Cache.Runs.{Call, stored, retrieved, purged, run, run-IsSmall}
use local_network_ecosystem.Cache.Served.{is_alive, retrieve-store}
use local_network_ecosystem.Cache.Manager.{is_stale, is_stale-never}

abbrev page : String → ℕ → CacheEntry
page key used = record {
  key = key;
  status = 200;
  headers = [];
  body = 1 ∷ 2 ∷ [];
  ttl = pos 30;
  created_at = 100;
  last_access = used;
}

abbrev start : DiskCache
start = record {
  max_size = 5;
  entries = ("a", page "a" 120) ∷ ("b", page "b" 110) ∷ [];
  current_size = 4;
  files = ("a", page "a" 100) ∷ ("b", page "b" 100) ∷ [];
}

start-IsDistinct : IsDistinct start.entries
unfolding Dict.get
start-IsDistinct = (refl, (refl, tt))

start-IsOver : IsOver start
unfolding local_network_ecosystem.Cache.Sizes.total
start-IsOver = record { distinct = start-IsDistinct; counted = omega arith }

abbrev calls : List Call
calls = stored 130 true "c" 200 [] (3 ∷ 4 ∷ 5 ∷ []) (pos 60) ∷ retrieved 140 "a" ∷ purged "c" ∷ []

run-IsSmall_example : IsOver (run (λ k. k) calls start) × IsSmall (run (λ k. k) calls start)
unfolding local_network_ecosystem.Cache.Sizes.total
run-IsSmall_example = run-IsSmall (λ k. k) calls start start-IsOver (inl (omega arith))

make_room-done_example :
    let c' = make_room (λ k. k) 2 3 start in
    (c'.current_size + 3 ≤ c'.max_size) ⊎ (length c'.entries ≡ 0)
make_room-done_example = make_room-done (λ k. k) 2 3 start start-IsDistinct (omega arith)

retrieve-store_example :
    (retrieve (λ k. k) 150 "c" (store (λ k. k) 130 true "c" 200 [] (3 ∷ []) (pos 60) start)).1
    ≡ (if is_alive 130 150 (pos 60) then some (200, [], 3 ∷ []) else none)
retrieve-store_example = retrieve-store (λ k. k) 130 150 "c" 200 [] (3 ∷ []) (pos 60) start

-- At 131 the TTL of "a" is past.
is_stale-never_example :
    (is_stale (λ k. k) 131 "a" (record { storage = some start; default_ttl = pos 300 })).1 ≡ false
is_stale-never_example =
    is_stale-never (λ k. k) 131 "a" (record { storage = some start; default_ttl = pos 300 })
