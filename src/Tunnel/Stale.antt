-- ===== src/Tunnel/Stale.antt =====
-- Which tunnels are closed for their silence.
use local_network_ecosystem.Prelude.{
  ℕ, ◌≡◌, refl, String, Bool, false, ◌&&◌, none, some, List, [], ◌∷◌, arith, if◌then◌else◌, any,
  nat_eq, string_eq, ◌==◌,
}
use local_network_ecosystem.Dict
use local_network_ecosystem.Dict.{get-remove}
use local_network_ecosystem.Registry.{values}
use local_network_ecosystem.Tunnel.{
  PeerTunnel, TunnelManager, is_stale, close_tunnel, prune_tunnels, prune_stale,
}

-- The peer has a tunnel that is connected and has been silent for longer than the timeout.
abbrev pub is_gone : ℕ → ℕ → String → PeerTunnel → Bool
is_gone now timeout peer_id t = t.peer_id == peer_id && is_stale now timeout t

prune_tunnels_lem :
    (now timeout : ℕ) (peer_id : String) (ts : List PeerTunnel) (m : TunnelManager)
    → Dict.get peer_id (prune_tunnels now timeout ts m).0.tunnels
      ≡ (if any (is_gone now timeout peer_id) ts then none else Dict.get peer_id m.tunnels)
unfolding prune_tunnels close_tunnel
prune_tunnels_lem now timeout peer_id [] m = refl
prune_tunnels_lem now timeout peer_id (t ∷ ts) m =
    let after_close = prune_tunnels_lem now timeout peer_id ts (close_tunnel t m).0 in
    let kept = prune_tunnels_lem now timeout peer_id ts m in
    let view = get-remove t.peer_id peer_id m.tunnels in ground arith

-- prune_stale takes away exactly the tunnels of the peers with a tunnel that is connected, has received
-- something, and has been silent for longer than the timeout; all others stay as they are.
pub prune_stale-tunnels :
    (now timeout : ℕ) (peer_id : String) (m : TunnelManager)
    → (timeout == 0) ≡ false
    → Dict.get peer_id (prune_stale now (some timeout) m).0.tunnels ≡ (
        if any (is_gone now timeout peer_id) (values m.tunnels)
        then none
        else Dict.get peer_id m.tunnels)
unfolding prune_stale
prune_stale-tunnels now timeout peer_id m h =
    rw h (prune_tunnels_lem now timeout peer_id (values m.tunnels) m)
