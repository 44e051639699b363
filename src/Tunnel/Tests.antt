-- ===== src/Tunnel/Tests.antt =====
-- The theorems on tunnels and punches at concrete ones.
use local_network_ecosystem.Prelude.{
  ℕ, ◌≡◌, ◌+◌, ◌%◌, ◌^◌, refl, some, List, [], ◌∷◌, ◌++◌, arith, replicate,
}
use local_network_ecosystem.Frame
use local_network_ecosystem.Frame.{make_punch_frame}
use local_network_ecosystem.Encryption.{Primitives}
use local_network_ecosystem.Punch.{Address, datagram, timed_out, punch_loop}
use local_network_ecosystem.Punch.Handshake.{punch_loop-keyless}
use local_network_ecosystem.Tunnel.{
  PeerTunnel, new_tunnel, established, route, send_data, handle_frame,
}
use local_network_ecosystem.Tunnel.Frames.{handle_frame-send_data, handle_frame-again}

-- A sealed text is its plaintext and sixteen zeros.
abbrev primitives : Primitives
primitives = record {
  public_bytes = λ k. k;
  exchange = λ k p. some p;
  hkdf = λ secret. secret;
  seal = λ key nonce plaintext. plaintext ++ replicate 16 0;
  open_sealed = λ key nonce sealed. some (5 ∷ 6 ∷ []);
}

abbrev addr : Address
addr = ("10.0.0.9", 4001)

abbrev tunnel : PeerTunnel
tunnel = record (established 50 addr (new_tunnel "bob" "10.8.0.2" 3 [])) {
  cipher = some (1 ∷ []);
  tx_seq = 8;
}

goes_out : route tunnel ≡ some addr
unfolding route
goes_out = refl

handle_frame-send_data_example :
    (wire : List ℕ) × ((send_data primitives (replicate 12 9) (5 ∷ 6 ∷ []) tunnel).1
      ≡ Frame.ok ((wire, addr) ∷ []))
    × (handle_frame primitives 60 wire addr tunnel ≡ (
      record tunnel { rx_seq = (8 + 1) % 2 ^ 32; last_rx = 60; remote_addr = some addr },
      some (5 ∷ 6 ∷ []),
      [],
    ))
handle_frame-send_data_example =
    handle_frame-send_data primitives 60 (1 ∷ []) (replicate 12 9) (5 ∷ 6 ∷ []) addr addr tunnel
      tunnel goes_out refl refl refl (omega arith) refl refl

abbrev wire : List ℕ
wire = 1 ∷ 1 ∷ 0 ∷ 12 ∷ 0 ∷ 0 ∷ 0 ∷ 9 ∷ replicate 28 9

taken_once : (handle_frame primitives 60 wire addr tunnel).1 ≡ some (5 ∷ 6 ∷ [])
unfolding handle_frame Frame.unpack_frame Frame.unpack_header
    local_network_ecosystem.Encryption.decrypt
taken_once = refl

handle_frame-again_example :
    (handle_frame primitives 70 wire
      ("192.0.2.1", 9)
      (handle_frame primitives 60 wire addr tunnel).0).1
    ≡ some (5 ∷ 6 ∷ [])
handle_frame-again_example =
    handle_frame-again primitives 60 70 wire (5 ∷ 6 ∷ []) addr ("192.0.2.1", 9) tunnel taken_once

abbrev punch : List ℕ
punch = 1 ∷ 2 ∷ 0 ∷ 2 ∷ 0 ∷ 0 ∷ 0 ∷ 0 ∷ 7 ∷ 7 ∷ replicate 16 0

is_punch : make_punch_frame 0 (7 ∷ 7 ∷ []) ≡ Frame.ok punch
unfolding make_punch_frame Frame.pack_frame
is_punch = refl

punch_loop-keyless_example :
    (answer : List ℕ) × (punch_loop [] [] (datagram punch addr ∷ timed_out ∷ [])
      ≡ ((answer, addr) ∷ [], some (addr, 7 ∷ 7 ∷ [])))
    × (punch_loop [] [] (datagram answer ("10.0.0.8", 4002) ∷ [])
        ≡ ([], some (("10.0.0.8", 4002), [])))
punch_loop-keyless_example =
    punch_loop-keyless (7 ∷ 7 ∷ []) punch [] [] [] [] ("10.0.0.8", 4002) addr (timed_out ∷ []) []
      is_punch
