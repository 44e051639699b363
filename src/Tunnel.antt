-- ===== src/Tunnel.antt =====
-- client/tunnel_manager.py and client/keepalive.py. A socket is a number; what is sent is a list of
-- datagrams with where they go, and every send succeeds. `time.monotonic()` is the argument `now`, in whole
-- ticks above 0. A tunnel is held by its manager only, so a write to it is a write to its entry; no
-- other call runs while a punch is awaited.
pub mod Frames
pub mod Stale
pub mod Keepalive
mod Tests
use local_network_ecosystem.Prelude.{
  ℕ, zero, suc, ◌+◌, ◌-◌, String, Bool, true, false, not, ◌&&◌, Option, none, some, List, [], ◌∷◌,
  ◌++◌, ltb, if◌then◌else◌, length, string_eq, nat_eq, addr_eq, ◌==◌,
}
use local_network_ecosystem.Dict
use local_network_ecosystem.Dict.{Dict}
use local_network_ecosystem.Registry.{values}
use local_network_ecosystem.Frame
use local_network_ecosystem.Frame.{
  Result, ok, err, pack_frame, unpack_frame, make_keepalive_frame, make_close_frame,
  make_punch_ack_frame, frame_version, frame_punch, frame_keepalive, frame_close, frame_punch_ack,
}
use local_network_ecosystem.Encryption.{
  Primitives, derive_session_key_from_bytes, cipher_context, encrypt, decrypt,
}
use local_network_ecosystem.Punch.{
  PunchState, idle, punching, connected, failed, closed, Address, Received, Sent, Punched,
  acknowledgement, punch_peer, accept_punch,
}

abbrev pub frame_data : ℕ
frame_data = 1

pub record PeerTunnel : Type 0 where
  pub peer_id : String
  pub peer_ip : String
  pub state : PunchState
  pub socket : Option ℕ
  pub cipher : Option (List ℕ)
  pub last_rx : ℕ
  pub tx_seq : ℕ
  pub rx_seq : ℕ
  pub remote_addr : Option Address
  pub fallback_relay : Bool
  pub ecdh_private : List ℕ

abbrev pub is_connected : PunchState → Bool
is_connected connected = true
is_connected _ = false

unfoldable pub alive : PeerTunnel → Bool
alive tunnel = elim tunnel.state [ punching ↦ true | connected ↦ true | _ ↦ false ]

abbrev pub new_tunnel : String → String → ℕ → List ℕ → PeerTunnel
new_tunnel peer_id peer_ip socket ecdh_private = record {
  peer_id = peer_id;
  peer_ip = peer_ip;
  state = punching;
  socket = some socket;
  cipher = none;
  last_rx = 0;
  tx_seq = 0;
  rx_seq = 0;
  remote_addr = none;
  fallback_relay = false;
  ecdh_private = ecdh_private;
}

pub record TunnelManager : Type 0 where
  pub tunnels : Dict String PeerTunnel
  pub stale_timeout : ℕ
  pub has_control : Bool
  pub running : Bool

abbrev pub set_tunnel : PeerTunnel → TunnelManager → TunnelManager
set_tunnel tunnel m = record m { tunnels = Dict.put tunnel.peer_id tunnel m.tunnels }

-- The end of `create_tunnel` or `accept_tunnel`: the tunnel that it returns, or an exception.
pub data Made : Type 0 where
  made : PeerTunnel → Made
  raised : Made

abbrev pub established : ℕ → Address → PeerTunnel → PeerTunnel
established now addr tunnel = record tunnel {
  state = connected;
  remote_addr = some addr;
  last_rx = now;
}

-- Whether the control channel is asked for a relay.
abbrev pub asks_relay : Bool → Punched → Bool
asks_relay has_control (some p) = false
asks_relay has_control none = has_control

-- Whether the tunnel can send, and where to.
unfoldable pub route : PeerTunnel → Option Address
route tunnel =
    if is_connected tunnel.state
    then elim tunnel.socket [ none ↦ none | some s ↦ tunnel.remote_addr ]
    else none

unfoldable pub send_keepalive : PeerTunnel → List Sent
unfolding route
send_keepalive tunnel = elim (route tunnel) [
  | none ↦ []
  | some addr ↦ acknowledgement (make_keepalive_frame tunnel.tx_seq) addr
]

module _ (lib : Primitives) where
  -- The session key, where the peer has sent a key. An error leaves no cipher.
  unfoldable pub keyed : List ℕ → PeerTunnel → Option PeerTunnel
  keyed [] tunnel = some tunnel
  keyed (b ∷ bs) tunnel = elim (derive_session_key_from_bytes lib tunnel.ecdh_private (b ∷ bs)) [
    | none ↦ none
    | some session_key ↦ elim (cipher_context session_key) [
      | none ↦ none
      | some cipher ↦ some (record tunnel { cipher = some cipher })
    ]
  ]

  -- What a tunnel becomes by a punch; an error leaves it as it was.
  unfoldable pub punched : ℕ → Bool → PeerTunnel → Punched → PeerTunnel × Made
  unfolding keyed
  punched now has_control tunnel (some (addr, peer_pubkey)) = elim (keyed peer_pubkey tunnel) [
    | none ↦ (tunnel, raised)
    | some t ↦ (established now addr t, made (established now addr t))
  ]
  punched now has_control tunnel none =
      let relayed = record tunnel { fallback_relay = true; state = connected; last_rx = now } in
      let lost = record tunnel { state = failed } in
      if has_control then (relayed, made relayed) else (lost, made lost)

  -- A punch that raises leaves the tunnel punching.
  unfoldable pub create_tunnel :
      ℕ
      → ℕ
      → List ℕ
      → List Received
      → String
      → String
      → List Address
      → TunnelManager
      → TunnelManager × Made × List Sent × Bool
  unfolding punched
  create_tunnel now socket ecdh received peer_id peer_ip peer_endpoints m =
      let tunnel = new_tunnel peer_id peer_ip socket ecdh in
      let m' = record m { tunnels = Dict.remove peer_id m.tunnels } in
      elim (punch_peer peer_endpoints (lib.public_bytes ecdh) received) [
        | err e ↦ (set_tunnel tunnel m', raised, [], false)
        | ok (sent, result) ↦
            let (tunnel', end) = punched now m.has_control tunnel result in
            (set_tunnel tunnel' m', end, sent, asks_relay m.has_control result)
      ]

  unfoldable pub accept_tunnel :
      ℕ
      → ℕ
      → List ℕ
      → List Received
      → String
      → String
      → TunnelManager
      → TunnelManager × Option Made × List Sent
  unfolding keyed
  accept_tunnel now socket ecdh received peer_id peer_ip m =
      let tunnel = new_tunnel peer_id peer_ip socket ecdh in
      let (sent, result) = accept_punch (lib.public_bytes ecdh) received in
      elim result [
        | none ↦ (set_tunnel (record tunnel { state = failed }) m, none, sent)
        | some (addr, peer_pubkey) ↦ elim (keyed peer_pubkey tunnel) [
          | none ↦ (set_tunnel tunnel m, some raised, sent)
          | some t ↦
              (set_tunnel (established now addr t) m, some (made (established now addr t)), sent)
        ]
      ]

  -- The frame of a packet: of its ciphertext, or of itself where there is no cipher.
  unfoldable pub data_frame : List ℕ → Option (List ℕ) → ℕ → List ℕ → Result (List ℕ)
  data_frame nonce none seq_num raw_ip_packet =
      pack_frame frame_data raw_ip_packet seq_num frame_version none
  data_frame nonce (some key) seq_num raw_ip_packet =
      let (ciphertext, tag) = encrypt lib key nonce raw_ip_packet in
      pack_frame frame_data ciphertext seq_num frame_version (some tag)

  -- What is sent, if anything; a packet that is too long for a frame is the error.
  unfoldable pub send_data : List ℕ → List ℕ → PeerTunnel → PeerTunnel × Result (List Sent)
  unfolding route data_frame
  send_data nonce raw_ip_packet tunnel = elim (route tunnel) [
    | none ↦ (tunnel, ok [])
    | some addr ↦
        let seq_num = tunnel.tx_seq + 1 in
        let tunnel' = record tunnel { tx_seq = seq_num } in
        elim (data_frame nonce tunnel.cipher seq_num raw_ip_packet) [
          | err e ↦ (tunnel', err e)
          | ok wire ↦ (tunnel', ok ((wire, addr) ∷ []))
        ]
  ]

  -- The payload of a DATA frame, decrypted where there is a cipher.
  unfoldable pub opened : Option (List ℕ) → List ℕ → List ℕ → Option (List ℕ)
  opened none payload tag = some payload
  opened (some key) payload tag = decrypt lib key payload tag

  unfoldable pub handle_data :
      ℕ → ℕ → List ℕ → List ℕ → Address → PeerTunnel → PeerTunnel × Option (List ℕ) × List Sent
  unfolding opened
  handle_data now seq_num payload tag addr tunnel = elim (opened tunnel.cipher payload tag) [
    | none ↦ (tunnel, none, [])
    | some plaintext ↦ (
      record tunnel { rx_seq = seq_num; last_rx = now; remote_addr = some addr },
      some plaintext,
      [],
    )
  ]

  -- `_handle_frame`: the packet of a DATA frame, and the answer to a late punch.
  unfoldable pub handle_frame :
      ℕ → List ℕ → Address → PeerTunnel → PeerTunnel × Option (List ℕ) × List Sent
  unfolding handle_data
  handle_frame now wire addr tunnel = elim (unpack_frame wire) [
    | err e ↦ (tunnel, none, [])
    | ok (h, payload, tag) ↦
        if h.type == frame_data
        then handle_data now h.seq_num payload tag addr tunnel
        else if h.type == frame_keepalive
        then (record tunnel { last_rx = now }, none, [])
        else if h.type == frame_close
        then (record tunnel { state = closed }, none, [])
        else if h.type == frame_punch
        then (
          tunnel,
          none,
          elim tunnel.socket [
            | none ↦ []
            | some s ↦ acknowledgement (make_punch_ack_frame 0 []) addr
          ],
        )
        else if h.type == frame_punch_ack
        then (record tunnel { last_rx = now }, none, [])
        else (tunnel, none, [])
  ]

  -- `recv_data`, with what the socket gives at once.
  unfoldable pub recv_data :
      ℕ → Option (List ℕ × Address) → PeerTunnel → PeerTunnel × Option (List ℕ) × List Sent
  unfolding handle_frame
  recv_data now given tunnel =
      let handled : PeerTunnel × Option (List ℕ) × List Sent = elim given [
        | none ↦ (tunnel, none, [])
        | some (wire, addr) ↦ handle_frame now wire addr tunnel
      ] in
      if is_connected tunnel.state
      then elim tunnel.socket [ none ↦ (tunnel, none, []) | some s ↦ handled ]
      else (tunnel, none, [])

-- What `close_tunnel` sends.
unfoldable pub close_frame : PeerTunnel → List Sent
close_frame tunnel = elim tunnel.socket [
  | none ↦ []
  | some s ↦ elim tunnel.remote_addr [
    | none ↦ []
    | some addr ↦ acknowledgement (make_close_frame tunnel.tx_seq) addr
  ]
]

abbrev pub closed_tunnel : PeerTunnel → PeerTunnel
closed_tunnel tunnel = record tunnel { state = closed; socket = none }

unfoldable pub close_tunnel : PeerTunnel → TunnelManager → TunnelManager × PeerTunnel × List Sent
unfolding close_frame
close_tunnel tunnel m = (
  record m { tunnels = Dict.remove tunnel.peer_id m.tunnels },
  closed_tunnel tunnel,
  close_frame tunnel,
)

-- `last_rx > 0 and now - last_rx > timeout`, of a connected tunnel
abbrev pub is_stale : ℕ → ℕ → PeerTunnel → Bool
is_stale now timeout tunnel =
    is_connected tunnel.state && (ltb 0 tunnel.last_rx && ltb (tunnel.last_rx + timeout) now)

-- The loop of `prune_stale` over the tunnels.
unfoldable pub prune_tunnels :
    ℕ → ℕ → List PeerTunnel → TunnelManager → TunnelManager × List PeerTunnel
unfolding close_tunnel
prune_tunnels now timeout [] m = (m, [])
prune_tunnels now timeout (t ∷ ts) m =
    let (m', stale) = prune_tunnels now timeout ts (close_tunnel t m).0 in
    let rest = prune_tunnels now timeout ts m in
    if is_stale now timeout t then (m', closed_tunnel t ∷ stale) else rest

-- `timeout or self._stale_timeout`
unfoldable pub prune_stale : ℕ → Option ℕ → TunnelManager → TunnelManager × List PeerTunnel
unfolding prune_tunnels
prune_stale now timeout m =
    let limit : ℕ = elim timeout [
      | none ↦ m.stale_timeout
      | some t ↦ if t == 0 then m.stale_timeout else t
    ] in
    prune_tunnels now limit (values m.tunnels) m

unfoldable pub close_frames : List PeerTunnel → List Sent
unfolding close_frame
close_frames [] = []
close_frames (t ∷ ts) = close_frame t ++ close_frames ts

unfoldable pub shutdown : TunnelManager → TunnelManager × List Sent
unfolding close_frames
shutdown m = (record m { tunnels = []; running = false }, close_frames (values m.tunnels))
