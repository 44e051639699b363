-- ===== src/Tunnel/Frames.antt =====
-- What a tunnel sends, and what it makes of a datagram.
use local_network_ecosystem.Prelude.{
  ℕ, ◌+◌, ◌%◌, ◌^◌, ◌≤◌, ◌≡◌, refl, sym, ap, ◌∙◌, true, none, some, List, [], ◌∷◌, arith, length,
  nat_eq, string_eq, addr_eq, ◌==◌,
}
use mathlib.Core.List.{append-nil}
use local_network_ecosystem.Frame.{
  ok, FrameHeader, unpack_frame, make_close_frame, frame_version, frame_close, tag_or_zeros,
}
use local_network_ecosystem.Frame.Bytes.{header_of}
use local_network_ecosystem.Frame.RoundTrip.{unpack_frame-pack_frame}
use local_network_ecosystem.Frame.Accepts.{pack_frame_ok_iff, CanPack}
use local_network_ecosystem.Encryption.{Primitives, encrypt, decrypt}
use local_network_ecosystem.Encryption.RoundTrip.{decrypt-encrypt, encrypt-length}
use local_network_ecosystem.Punch.{Address, closed, connected}
use local_network_ecosystem.Tunnel.{
  PeerTunnel, frame_data, route, send_data, data_frame, handle_data, handle_frame, opened, punched,
  made,
}

-- A DATA frame as it is read.
data_read :
    (lib : Primitives) (now : ℕ) (wire payload tag : List ℕ) (h : FrameHeader) (addr : Address)
    (t : PeerTunnel)
    → unpack_frame wire ≡ ok (h, payload, tag)
    → h.type ≡ frame_data
    → handle_frame lib now wire addr t ≡ handle_data lib now h.seq_num payload tag addr t
unfolding handle_frame
data_read lib now wire payload tag h addr t read is_data =
    let typed : (h.type == frame_data) ≡ true = ground arith in
    rw (read, handle_frame) (rw typed refl)

-- A CLOSE frame closes a tunnel, from whatever address it comes and whether or not the tunnel has a cipher:
-- nothing in it is authenticated.
pub handle_frame-make_close_frame :
    (lib : Primitives) (now seq_num : ℕ) (wire : List ℕ) (addr : Address) (t : PeerTunnel)
    → make_close_frame seq_num ≡ ok wire
    → handle_frame lib now wire addr t ≡ (record t { state = closed }, none, [])
unfolding handle_frame make_close_frame
handle_frame-make_close_frame lib now seq_num wire addr t e =
    let read =
      ap unpack_frame (sym (append-nil wire))
      ∙ unpack_frame-pack_frame frame_close [] seq_num frame_version none [] wire e in
    rw (read, handle_frame) refl

-- A tunnel that falls back to the relay is connected, and sends no packet: it has no address to send to.
pub send_data-punched :
    (lib : Primitives) (now : ℕ) (nonce packet : List ℕ) (t : PeerTunnel)
    → t.remote_addr ≡ none
    → let (t', end) = punched lib now true t none in
      (end ≡ made t') × (t'.state ≡ connected) × (send_data lib nonce packet t' ≡ (t', ok []))
unfolding punched send_data route
send_data-punched lib now nonce packet t no_addr = (refl, refl, ground (arith, no_addr))

-- A packet that a tunnel sends is what the other end makes of its datagram, where both have the same key,
-- the primitives open what they have sealed, a sealed text is a tag longer, the nonce has 12 bytes and the
-- packet no more than 65523. The receiver takes the address as the peer's, and the sequence number in 32 bits.
pub handle_frame-send_data :
    (lib : Primitives) (now : ℕ) (key nonce packet : List ℕ) (addr from : Address)
    (t u : PeerTunnel)
    → route t ≡ some addr
    → t.cipher ≡ some key
    → u.cipher ≡ some key
    → length nonce ≡ 12
    → length packet ≤ 65523
    → lib.open_sealed key nonce (lib.seal key nonce packet) ≡ some packet
    → length (lib.seal key nonce packet) ≡ length packet + 16
    → (wire : List ℕ) × ((send_data lib nonce packet t).1 ≡ ok ((wire, addr) ∷ []))
      × (handle_frame lib now wire from u ≡ (
        record u { rx_seq = (t.tx_seq + 1) % 2 ^ 32; last_rx = now; remote_addr = some from },
        some packet,
        [],
      ))
unfolding send_data data_frame handle_data encrypt tag_or_zeros
handle_frame-send_data lib now key nonce packet addr from t u to t_key u_key twelve short opens
      whole =
    let (ciphertext, tag) = encrypt lib key nonce packet in
    let (long, tagged) = encrypt-length lib key nonce packet twelve whole in
    let can : CanPack frame_data ciphertext frame_version (some tag) = record {
      small = omega arith;
      supported = refl;
      byte = omega arith;
      tagged = tagged;
    } in
    let (wire, packed, _) =
      (pack_frame_ok_iff frame_data ciphertext (t.tx_seq + 1) frame_version (some tag)).1 can in
    let read =
      ap unpack_frame (sym (append-nil wire))
      ∙ unpack_frame-pack_frame frame_data ciphertext (t.tx_seq + 1) frame_version (some tag) []
          wire packed in
    let plain : opened lib u.cipher ciphertext tag ≡ some packet =
      ap (λ c. opened lib c ciphertext tag) u_key
      ∙ unfold opened in decrypt-encrypt lib key nonce packet twelve opens in
    (
      wire,
      rw (to, send_data) (rw (t_key, data_frame) (rw packed refl)),
      data_read lib now wire ciphertext tag
            (header_of frame_version frame_data (length ciphertext) ((t.tx_seq + 1) % 2 ^ 32)) from
            u read refl
          ∙ rw (plain, handle_data) refl,
    )

-- What a tunnel with a cipher hands on has been decrypted under its key.
pub record IsOpened (lib : Primitives) (key wire packet : List ℕ) : Type 0 where
  pub header : FrameHeader
  pub payload : List ℕ
  pub tag : List ℕ
  pub read : unpack_frame wire ≡ ok (header, payload, tag)
  pub is_data : header.type ≡ frame_data
  pub decrypted : decrypt lib key payload tag ≡ some packet

-- A datagram that a tunnel has taken it takes again, at any time and from any address: no sequence number
-- is compared.
pub handle_frame-again :
    (lib : Primitives) (now now' : ℕ) (wire packet : List ℕ) (addr addr' : Address) (t : PeerTunnel)
    → (handle_frame lib now wire addr t).1 ≡ some packet
    → (handle_frame lib now' wire addr' (handle_frame lib now wire addr t).0).1 ≡ some packet
unfolding handle_frame handle_data opened
handle_frame-again lib now now' wire packet addr addr' t taken = ground arith
