-- ===== src/Frame.antt =====
-- common/frame.py: the data-plane frame. Bytes are numbers below 256 in a list; `struct` is the
-- big-endian layout of its format "!BBHI", which raises `struct.error` for a field out of range.
pub mod Bytes
pub mod RoundTrip
pub mod Accepts
mod Tests
use local_network_ecosystem.Prelude.{
  ℕ, ◌+◌, ◌-◌, ◌*◌, ◌/◌, ◌%◌, ◌^◌, Bool, ◌&&◌, not, Option, none, some, List, [], ◌∷◌, ◌++◌, ltb,
  leb, ◌==◌, if◌then◌else◌, length, take, drop, replicate, nat_eq,
}

pub data FrameError : Type 0 where
  frame_too_large invalid_frame_version bad_frame struct_error : FrameError

pub data Result {ℓ} (A : Type ℓ) : Type ℓ where
  ok : A → Result A
  err : FrameError → Result A

infixl 5 ◌>>=◌
abbrev pub ◌>>=◌ {ℓ κ} : {A : Type ℓ} {B : Type κ} → Result A → (A → Result B) → Result B
ok a >>= f = f a
err e >>= f = err e

abbrev pub frame_version : ℕ
frame_version = 1

abbrev pub frame_header_size : ℕ
frame_header_size = 8

abbrev pub gcm_tag_size : ℕ
gcm_tag_size = 16

abbrev pub max_frame_payload : ℕ
max_frame_payload = 65535

abbrev pub frame_punch : ℕ
frame_punch = 2

abbrev pub frame_keepalive : ℕ
frame_keepalive = 3

abbrev pub frame_close : ℕ
frame_close = 4

abbrev pub frame_punch_ack : ℕ
frame_punch_ack = 6

pub record FrameHeader : Type 0 where
  pub version : ℕ
  pub type : ℕ
  pub payload_length : ℕ
  pub seq_num : ℕ

unfoldable pub total_size : FrameHeader → ℕ
total_size h = frame_header_size + h.payload_length + gcm_tag_size

unfoldable pub header_bytes : ℕ → ℕ → ℕ → ℕ → List ℕ
header_bytes v t n s =
    v
    ∷ t
    ∷ (n / 2 ^ 8)
    ∷ (n % 2 ^ 8)
    ∷ (s / 2 ^ 24)
    ∷ (s / 2 ^ 16 % 2 ^ 8)
    ∷ (s / 2 ^ 8 % 2 ^ 8)
    ∷ (s % 2 ^ 8)
    ∷ []

-- `_HEADER.pack`
unfoldable pub pack_header : ℕ → ℕ → ℕ → ℕ → Result (List ℕ)
unfolding header_bytes
pack_header v t n s =
    if ltb v 256 && ltb t 256 && (ltb n (2 ^ 16) && ltb s (2 ^ 32))
    then ok (header_bytes v t n s)
    else err struct_error

-- `_HEADER.unpack_from(data, 0)`
unfoldable pub unpack_header : List ℕ → Result FrameHeader
unpack_header (v ∷ t ∷ n1 ∷ n0 ∷ s3 ∷ s2 ∷ s1 ∷ s0 ∷ rest) = ok (record {
  version = v;
  type = t;
  payload_length = n1 * 2 ^ 8 + n0;
  seq_num = s3 * 2 ^ 24 + s2 * 2 ^ 16 + s1 * 2 ^ 8 + s0;
})
unpack_header _ = err struct_error

-- `auth_tag if auth_tag is not None else b"\x00" * GCM_TAG_SIZE`
unfoldable pub tag_or_zeros : Option (List ℕ) → List ℕ
tag_or_zeros none = replicate gcm_tag_size 0
tag_or_zeros (some tag) = tag

-- The test on PLAINTEXT_FRAME_TYPES guards only a `pass`.
unfoldable pub pack_frame : ℕ → List ℕ → ℕ → ℕ → Option (List ℕ) → Result (List ℕ)
unfolding tag_or_zeros pack_header
pack_frame type payload seq_num version auth_tag =
    if ltb max_frame_payload (length payload)
    then err frame_too_large
    else if not (version == frame_version)
    then err invalid_frame_version
    else let tag = tag_or_zeros auth_tag in
      if not (length tag == gcm_tag_size) then err bad_frame else do
        header ← pack_header version type (length payload) (seq_num % 2 ^ 32)
        ok (header ++ (payload ++ tag))

-- data[a:b]
abbrev pub slice : ℕ → ℕ → List ℕ → List ℕ
slice a b l = take (b - a) (drop a l)

-- The two tests after the header is read, and the slices.
unfoldable pub unpack_body : List ℕ → FrameHeader → Result (FrameHeader × List ℕ × List ℕ)
unfolding total_size
unpack_body wire h =
    if not (h.version == frame_version)
    then err invalid_frame_version
    else if ltb (length wire) (total_size h)
    then err bad_frame
    else let stop = frame_header_size + h.payload_length in
      ok (h, slice frame_header_size stop wire, slice stop (stop + gcm_tag_size) wire)

unfoldable pub unpack_frame : List ℕ → Result (FrameHeader × List ℕ × List ℕ)
unfolding unpack_body
unpack_frame wire =
    if ltb (length wire) (frame_header_size + gcm_tag_size)
    then err bad_frame
    else unpack_header wire >>= unpack_body wire

unfoldable pub make_punch_frame : ℕ → List ℕ → Result (List ℕ)
make_punch_frame seq_num payload = pack_frame frame_punch payload seq_num frame_version none

unfoldable pub make_punch_ack_frame : ℕ → List ℕ → Result (List ℕ)
make_punch_ack_frame seq_num payload = pack_frame frame_punch_ack payload seq_num frame_version none

unfoldable pub make_keepalive_frame : ℕ → Result (List ℕ)
make_keepalive_frame seq_num = pack_frame frame_keepalive [] seq_num frame_version none

unfoldable pub make_close_frame : ℕ → Result (List ℕ)
make_close_frame seq_num = pack_frame frame_close [] seq_num frame_version none
