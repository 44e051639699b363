-- ===== src/Server/Farewell.antt =====
-- What the end of a connection leaves.
use local_network_ecosystem.Prelude.{
  ℕ, ◌≡◌, refl, String, false, none, arith, if◌then◌else◌, string_eq, ◌==◌, eq_iff,
}
use local_network_ecosystem.Dict
use local_network_ecosystem.Dict.{get-remove}
use local_network_ecosystem.Registry
use local_network_ecosystem.Registry.{networks_for}
use local_network_ecosystem.Registry.Views.{get-modify}
use local_network_ecosystem.Networks.Peers.{is_online}
use local_network_ecosystem.Relay.{has_path}
use local_network_ecosystem.Relay.Writes.{has_path-drop}
use local_network_ecosystem.Server.{MediationServer, handle_disconnect}
use local_network_ecosystem.Server.Daemon.{authenticated, finish}

-- When a connection ends that has signed in as a client, the client has no connection any more, whichever
-- connection was its last; it is offline, it has no relay path, and its memberships stay. All other
-- clients keep their connections, and their records.
pub finish_lem :
    (conn : ℕ) (k j : String) (s : MediationServer)
    → let s' = (finish conn (authenticated k) s).0 in
      (Dict.get j s'.writers ≡ (if k == j then none else Dict.get j s.writers))
      × (is_online (Registry.get s'.networks.registry k) ≡ false)
      × (has_path s'.relay k j ≡ false)
      × (has_path s'.relay j k ≡ false)
      × (networks_for s'.networks.registry j ≡ networks_for s.networks.registry j)
      × (s'.networks.networks ≡ s.networks.networks)
      × ((k == j) ≡ false
          → Registry.get s'.networks.registry j ≡ Registry.get s.networks.registry j)
unfolding finish handle_disconnect Registry.unregister networks_for
finish_lem conn k j s = (
  get-remove k j s.writers,
  ground (
    arith,
    get-modify (λ r. record r { online = false; public_endpoint = none }) k k s.networks.registry,
    eq_iff k k,
  ),
  ground (arith, has_path-drop k k j s.relay, eq_iff k k),
  ground (arith, has_path-drop k j k s.relay, eq_iff k k),
  ground (
    arith,
    get-modify (λ r. record r { online = false; public_endpoint = none }) k j s.networks.registry,
    eq_iff k j,
  ),
  refl,
  λ other. ground (
    arith,
    get-modify (λ r. record r { online = false; public_endpoint = none }) k j s.networks.registry,
  ),
)
