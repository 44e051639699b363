-- ===== src/Tunnel/Keepalive.antt =====
-- client/keepalive.py: one cycle of the KeepAliveManager.
use local_network_ecosystem.Prelude.{
  ℕ, ◌+◌, String, Bool, List, [], ◌∷◌, ◌++◌, ltb, if◌then◌else◌, set_add, discard, string_eq,
}
use local_network_ecosystem.Registry.{values}
use local_network_ecosystem.Punch.{Sent}
use local_network_ecosystem.Tunnel.{
  PeerTunnel, TunnelManager, is_connected, is_stale, send_keepalive, close_tunnel,
}

pub record KeepAliveManager : Type 0 where
  pub manager : TunnelManager
  pub suspect_timeout : ℕ
  pub stale_timeout : ℕ
  pub suspect_peers : List String

-- Silent for longer than the suspect timeout, or for no longer.
abbrev pub is_suspect : ℕ → ℕ → PeerTunnel → Bool
is_suspect now timeout tunnel = ltb (tunnel.last_rx + timeout) now

-- What a cycle does with a tunnel once its keep-alive is sent.
unfoldable pub judge : ℕ → PeerTunnel → KeepAliveManager → KeepAliveManager × List Sent
judge now tunnel k =
    let (m', _, sent) = close_tunnel tunnel k.manager in
    if is_stale now k.stale_timeout tunnel
    then (record k { manager = m'; suspect_peers = discard tunnel.peer_id k.suspect_peers }, sent)
    else if ltb 0 tunnel.last_rx
    then (if is_suspect now k.suspect_timeout tunnel
        then (record k { suspect_peers = set_add tunnel.peer_id k.suspect_peers }, [])
        else (record k { suspect_peers = discard tunnel.peer_id k.suspect_peers }, []))
    else (k, [])

-- The loop of `_tick`.
unfoldable pub tick_tunnels : ℕ → List PeerTunnel → KeepAliveManager → KeepAliveManager × List Sent
unfolding judge
tick_tunnels now [] k = (k, [])
tick_tunnels now (t ∷ ts) k =
    let (k', sent) = judge now t k in
    let (k'', later) = tick_tunnels now ts k' in
    let rest = tick_tunnels now ts k in
    if is_connected t.state then (k'', send_keepalive t ++ sent ++ later) else rest

unfoldable pub tick : ℕ → KeepAliveManager → KeepAliveManager × List Sent
unfolding tick_tunnels
tick now k = tick_tunnels now (values k.manager.tunnels) k
