-- ===== src/Registry/Tests.antt =====
-- The registry's theorems at concrete clients.
use local_network_ecosystem.Prelude.{◌≡◌, refl, true, [], ◌∷◌, arith, string_eq}
use local_network_ecosystem.Dict
use local_network_ecosystem.Dict.{IsDistinct}
use local_network_ecosystem.Registry.{ClientRegistry, new_record, empty, get, prune_stale}
use local_network_ecosystem.Registry.Named.{IsNamed}

-- Alice was heard at 10, Bob at 90; both are online.
abbrev two_clients : ClientRegistry
two_clients = record {
  clients =
      ("alice", record (new_record 10 "alice" "pem a") { online = true })
      ∷ ("bob", record (new_record 90 "bob" "pem b") { online = true })
      ∷ [];
}

two_clients-IsDistinct : IsDistinct two_clients.clients
unfolding Dict.get
two_clients-IsDistinct = (refl, (refl, tt))

only_alice : (prune_stale 100 30 two_clients).1 ≡ "alice" ∷ []
unfolding prune_stale
only_alice = refl

empty-IsNamed : IsNamed empty
unfolding get Dict.get
empty-IsNamed = record { distinct = tt; named = λ k r e. absurd (ground arith) }
