-- ===== src/Topology/Tests.antt =====
-- The theorem on tunnels at concrete events.
use local_network_ecosystem.Prelude.{
  ◌≡◌, refl, false, List, [], ◌∷◌, contains, set_add, discard, ◌&&◌, string_eq,
}
use local_network_ecosystem.Topology.{
  TopologyManager, hub_and_spoke, on_peer_online, on_peer_offline,
}
use local_network_ecosystem.Topology.Tunnels.{
  Event, online, offline, run, handle, is_online_after, wants, run_tunnels,
}

-- A spoke of the hub Alice.
abbrev spoke : TopologyManager
spoke = hub_and_spoke (record { hub_id = "alice"; is_hub = false; spokes = [] })

abbrev events : List Event
events = online "bob" "10.0.0.2" ∷ online "alice" "10.0.0.1" ∷ offline "bob" ∷ []

only_the_hub : (run events spoke []).1 ≡ "alice" ∷ []
unfolding run handle on_peer_online on_peer_offline set_add discard
only_the_hub = refl

run_tunnels_example :
    contains "bob" (run events spoke []).1
    ≡ (is_online_after "bob" events false && wants spoke "bob")
run_tunnels_example = run_tunnels events spoke "bob"
