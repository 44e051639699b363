-- ===== src/Topology/Tunnels.antt =====
-- The tunnels that a client keeps, over every run of peer events.
use local_network_ecosystem.Prelude.{
  ◌≡◌, refl, String, Bool, true, false, not, ◌&&◌, ◌||◌, List, [], ◌∷◌, arith, contains, set_add,
  discard, contains-set_add, contains-discard, string_eq, ◌==◌, if◌then◌else◌, eq_iff,
}
use local_network_ecosystem.Topology.{
  TopologyManager, mesh, hub_and_spoke, gateway, on_peer_online, on_peer_offline,
}

-- A peer comes online with an address, or goes offline.
pub data Event : Type 0 where
  online : String → String → Event
  offline : String → Event

-- The tunnels of a client that makes and closes them as its topology answers.
unfoldable pub handle : Event → TopologyManager → List String → TopologyManager × List String
handle (online peer_id peer_ip) t tunnels =
    let (t', connect) = on_peer_online peer_id peer_ip t in
    (t', if connect then set_add peer_id tunnels else tunnels)
handle (offline peer_id) t tunnels =
    let (t', close) = on_peer_offline peer_id t in
    (t', if close then discard peer_id tunnels else tunnels)

unfoldable pub run : List Event → TopologyManager → List String → TopologyManager × List String
unfolding handle
run [] t tunnels = (t, tunnels)
run (e ∷ es) t tunnels = let (t', tunnels') = handle e t tunnels in run es t' tunnels'

-- Whether the last event of a peer is that it came online.
abbrev pub is_online_by : String → Event → Bool → Bool
is_online_by p (online q _) before = q == p || before
is_online_by p (offline q) before = not (q == p) && before

unfoldable pub is_online_after : String → List Event → Bool → Bool
is_online_after p [] before = before
is_online_after p (e ∷ es) before = is_online_after p es (is_online_by p e before)

-- Whether the client is to have a tunnel to a peer that is online.
abbrev pub wants : TopologyManager → String → Bool
wants (mesh t) p = true
wants (hub_and_spoke t) p = t.is_hub || p == t.hub_id
wants (gateway t) p = t.is_gateway || p == t.gateway_id

wants-handle :
    (e : Event) (t : TopologyManager) (tunnels : List String) (p : String)
    → wants (handle e t tunnels).0 p ≡ wants t p
unfolding handle on_peer_online on_peer_offline
wants-handle (online q ip) (mesh t) tunnels p = refl
wants-handle (online q ip) (hub_and_spoke t) tunnels p = ground arith
wants-handle (online q ip) (gateway t) tunnels p = refl
wants-handle (offline q) (mesh t) tunnels p = refl
wants-handle (offline q) (hub_and_spoke t) tunnels p = ground arith
wants-handle (offline q) (gateway t) tunnels p = refl

contains-handle :
    (e : Event) (t : TopologyManager) (tunnels : List String) (p : String) (before : Bool)
    → contains p tunnels ≡ (before && wants t p)
    → contains p (handle e t tunnels).1 ≡ (is_online_by p e before && wants t p)
unfolding handle on_peer_online on_peer_offline
contains-handle (online q ip) (mesh t) tunnels p before h =
    ground (arith, contains-set_add q p tunnels, eq_iff q p)
contains-handle (online q ip) (hub_and_spoke t) tunnels p before h =
    ground (arith, contains-set_add q p tunnels, eq_iff q p)
contains-handle (online q ip) (gateway t) tunnels p before h =
    ground (arith, contains-set_add q p tunnels, eq_iff q p)
contains-handle (offline q) (mesh t) tunnels p before h =
    ground (arith, contains-discard q p tunnels, eq_iff q p)
contains-handle (offline q) (hub_and_spoke t) tunnels p before h =
    ground (arith, contains-discard q p tunnels, eq_iff q p)
contains-handle (offline q) (gateway t) tunnels p before h =
    ground (arith, contains-discard q p tunnels, eq_iff q p)

contains-run :
    (es : List Event) (t : TopologyManager) (tunnels : List String) (p : String) (before : Bool)
    → contains p tunnels ≡ (before && wants t p)
    → contains p (run es t tunnels).1 ≡ (is_online_after p es before && wants t p)
unfolding run is_online_after
contains-run [] t tunnels p before h = h
contains-run (e ∷ es) t tunnels p before h =
    let t' = (handle e t tunnels).0 in
    let tunnels' = (handle e t tunnels).1 in
    ground (
      arith,
      wants-handle e t tunnels p,
      contains-handle e t tunnels p before h,
      contains-run es t' tunnels' p (is_online_by p e before),
    )

-- A client that starts without tunnels and makes and closes them as its topology answers has a tunnel
-- to a peer exactly while the peer is online and the topology joins the two: to every peer in a mesh,
-- on the hub and on the gateway, and on the others to the hub or the gateway alone.
pub run_tunnels :
    (es : List Event) (t : TopologyManager) (p : String)
    → contains p (run es t []).1 ≡ (is_online_after p es false && wants t p)
unfolding contains
run_tunnels es t p = contains-run es t [] p false refl
