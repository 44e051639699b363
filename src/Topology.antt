-- ===== src/Topology.antt =====
-- client/topology.py: which peers a client keeps tunnels to. The three strategies are one type, with
-- the fields of each class; the methods that the base class declares dispatch on it.
pub mod Tunnels
mod Tests
use local_network_ecosystem.Prelude.{
  String, Bool, true, false, Option, none, some, List, [], ◌∷◌, map, string_eq, ◌==◌, if◌then◌else◌,
}
use local_network_ecosystem.Dict
use local_network_ecosystem.Dict.{Dict}
use local_network_ecosystem.Networks.{topology_mesh, topology_hub_and_spoke, topology_gateway}

pub record MeshTopology : Type 0 where
  pub peers : Dict String String

pub record HubAndSpokeTopology : Type 0 where
  pub hub_id : String
  pub is_hub : Bool
  pub spokes : Dict String String

pub record GatewayTopology : Type 0 where
  pub gateway_id : String
  pub is_gateway : Bool
  pub peers : Dict String String
  pub arp_table : Dict String String

pub data TopologyManager : Type 0 where
  mesh : MeshTopology → TopologyManager
  hub_and_spoke : HubAndSpokeTopology → TopologyManager
  gateway : GatewayTopology → TopologyManager

-- Each handler gives the state after it, and whether a tunnel is to be made.
unfoldable pub online_mesh : String → String → MeshTopology → MeshTopology × Bool
online_mesh peer_id peer_ip t = (record t { peers = Dict.put peer_id peer_ip t.peers }, true)

unfoldable pub online_hub_and_spoke :
    String → String → HubAndSpokeTopology → HubAndSpokeTopology × Bool
online_hub_and_spoke peer_id peer_ip t =
    if t.is_hub
    then (record t { spokes = Dict.put peer_id peer_ip t.spokes }, true)
    else (t, peer_id == t.hub_id)

unfoldable pub online_gateway : String → String → GatewayTopology → GatewayTopology × Bool
online_gateway peer_id peer_ip t = (
  record t { peers = Dict.put peer_id peer_ip t.peers },
  if t.is_gateway then true else peer_id == t.gateway_id,
)

unfoldable pub on_peer_online : String → String → TopologyManager → TopologyManager × Bool
unfolding online_mesh online_hub_and_spoke online_gateway
on_peer_online peer_id peer_ip (mesh t) =
    let (t', connect) = online_mesh peer_id peer_ip t in (mesh t', connect)
on_peer_online peer_id peer_ip (hub_and_spoke t) =
    let (t', connect) = online_hub_and_spoke peer_id peer_ip t in (hub_and_spoke t', connect)
on_peer_online peer_id peer_ip (gateway t) =
    let (t', connect) = online_gateway peer_id peer_ip t in (gateway t', connect)

-- And here, whether the tunnel is to be closed.
unfoldable pub offline_mesh : String → MeshTopology → MeshTopology × Bool
offline_mesh peer_id t = (record t { peers = Dict.remove peer_id t.peers }, true)

unfoldable pub offline_hub_and_spoke : String → HubAndSpokeTopology → HubAndSpokeTopology × Bool
offline_hub_and_spoke peer_id t =
    if t.is_hub
    then (record t { spokes = Dict.remove peer_id t.spokes }, true)
    else (t, peer_id == t.hub_id)

unfoldable pub offline_gateway : String → GatewayTopology → GatewayTopology × Bool
offline_gateway peer_id t = (
  record t { peers = Dict.remove peer_id t.peers; arp_table = Dict.remove peer_id t.arp_table },
  true,
)

unfoldable pub on_peer_offline : String → TopologyManager → TopologyManager × Bool
unfolding offline_mesh offline_hub_and_spoke offline_gateway
on_peer_offline peer_id (mesh t) = let (t', close) = offline_mesh peer_id t in (mesh t', close)
on_peer_offline peer_id (hub_and_spoke t) =
    let (t', close) = offline_hub_and_spoke peer_id t in (hub_and_spoke t', close)
on_peer_offline peer_id (gateway t) =
    let (t', close) = offline_gateway peer_id t in (gateway t', close)

abbrev pub keys : Dict String String → List String
keys = map (λ e. e.0)

unfoldable pub get_peers_to_connect : TopologyManager → List String
get_peers_to_connect (mesh t) = keys t.peers
get_peers_to_connect (hub_and_spoke t) = if t.is_hub then keys t.spokes else t.hub_id ∷ []
get_peers_to_connect (gateway t) = if t.is_gateway then keys t.peers else t.gateway_id ∷ []

unfoldable pub is_hub : TopologyManager → Bool
is_hub (hub_and_spoke t) = t.is_hub
is_hub _ = false

unfoldable pub is_gateway : TopologyManager → Bool
is_gateway (gateway t) = t.is_gateway
is_gateway _ = false

unfoldable pub get_spoke_ip : String → HubAndSpokeTopology → Option String
get_spoke_ip spoke_id t = Dict.get spoke_id t.spokes

unfoldable pub set_arp_entry : String → String → GatewayTopology → GatewayTopology
set_arp_entry ip mac t = record t { arp_table = Dict.put ip mac t.arp_table }

unfoldable pub get_arp_entry : String → GatewayTopology → Option String
get_arp_entry ip t = Dict.get ip t.arp_table

unfoldable pub get_peer_ip : String → GatewayTopology → Option String
get_peer_ip peer_id t = Dict.get peer_id t.peers

-- `none` stands for the ValueError of an unknown topology.
unfoldable pub create_topology_manager :
    String → String → String → Bool → Bool → Option TopologyManager
create_topology_manager topology hub_client_id gateway_client_id is_hub is_gateway =
    if topology == topology_mesh
    then some (mesh (record { peers = [] }))
    else if topology == topology_hub_and_spoke
    then some (hub_and_spoke (record { hub_id = hub_client_id; is_hub = is_hub; spokes = [] }))
    else if topology == topology_gateway
    then some (
        gateway (record {
          gateway_id = gateway_client_id;
          is_gateway = is_gateway;
          peers = [];
          arp_table = [];
        }))
    else none
