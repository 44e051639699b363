-- ===== src/Frame/Accepts.antt =====
-- Which arguments pack_frame takes, and which bytes unpack_frame takes.
use local_network_ecosystem.Prelude.{
  ℕ, ◌+◌, ◌%◌, ◌^◌, ◌≤◌, ◌<◌, ◌≡◌, refl, ◌↔◌, Option, some, none, List, [], ◌∷◌, ◌++◌, arith,
  length, length-append, replicate, nat_eq, sym, ap, ◌∙◌, ltb, if◌then◌else◌, ◌==◌, not, ◌*◌,
}
use mathlib.Core.List.{append-nil}
use local_network_ecosystem.Frame.{
  FrameError, Result, ok, err, invalid_frame_version, bad_frame, header_bytes, unpack_header,
  frame_header_size, gcm_tag_size, max_frame_payload, frame_version, tag_or_zeros, pack_frame,
  unpack_frame, make_punch_frame, make_punch_ack_frame, make_keepalive_frame, make_close_frame,
  frame_punch, frame_punch_ack, frame_keepalive, frame_close,
}
use local_network_ecosystem.Frame.Bytes.{header_of}
use local_network_ecosystem.Frame.RoundTrip.{unpack_frame-pack_frame}

-- What pack_frame asks of its arguments.
pub record CanPack (type : ℕ) (payload : List ℕ) (version : ℕ) (tag : Option (List ℕ))
    : Type 0 where
  pub small : length payload ≤ max_frame_payload
  pub supported : version ≡ frame_version
  pub byte : type < 256
  pub tagged : length (tag_or_zeros tag) ≡ gcm_tag_size

-- pack_frame succeeds exactly when the payload has at most 65535 bytes, the version is 1, the type
-- is a byte and the tag has 16 bytes; the frame then is 24 bytes longer than the payload.
pub pack_frame_ok_iff :
    (type : ℕ) (payload : List ℕ) (seq_num version : ℕ) (tag : Option (List ℕ))
    → ((wire : List ℕ) × (pack_frame type payload seq_num version tag ≡ ok wire)
        × (length wire ≡ frame_header_size + length payload + gcm_tag_size))
      ↔ CanPack type payload version tag
unfolding pack_frame
pack_frame_ok_iff type payload seq_num version tag = (
  λ r. let e = r.1 in ground arith,
  λ c. (
    header_bytes frame_version type (length payload) (seq_num % 2 ^ 32)
        ++ (payload ++ tag_or_zeros tag),
    ground arith,
    ground (arith, length-append payload (tag_or_zeros tag)),
  ),
)

-- The length that bytes 2 and 3 of a buffer declare.
abbrev pub declared : List ℕ → ℕ
declared (v ∷ t ∷ n1 ∷ n0 ∷ rest) = n1 * 2 ^ 8 + n0
declared _ = 0

abbrev pub version_byte : List ℕ → ℕ
version_byte [] = 0
version_byte (v ∷ rest) = v

abbrev pub error_of {ℓ} : {A : Type ℓ} → Result A → Option FrameError
error_of (ok a) = none
error_of (err e) = some e

-- unpack_frame refuses a buffer below 24 bytes, then a version byte other than 1, then a declared
-- length that does not fit behind the header with the tag, and takes every other buffer.
unpack_frame_verdict :
    (wire : List ℕ)
    → error_of (unpack_frame wire) ≡ (
        if ltb (length wire) 24
        then some bad_frame
        else if not (version_byte wire == 1)
        then some invalid_frame_version
        else if ltb (length wire) (24 + declared wire)
        then some bad_frame
        else none)
unfolding unpack_frame unpack_header
unpack_frame_verdict (v ∷ t ∷ n1 ∷ n0 ∷ s3 ∷ s2 ∷ s1 ∷ s0 ∷ rest) = ground arith
unpack_frame_verdict _ = ground arith

-- A frame that a maker built, and how it reads back.
abbrev pub ReadsBack : Result (List ℕ) → ℕ → List ℕ → ℕ → Type 0
ReadsBack made type payload seq_num =
    (wire : List ℕ) × (made ≡ ok wire)
    × (unpack_frame wire
        ≡ ok (
          header_of frame_version type (length payload) (seq_num % 2 ^ 32),
          payload,
          replicate gcm_tag_size 0,
        ))

pack_frame-ReadsBack :
    (type : ℕ) (payload : List ℕ) (seq_num : ℕ)
    → type < 256
    → length payload ≤ max_frame_payload
    → ReadsBack (pack_frame type payload seq_num frame_version none) type payload seq_num
unfolding tag_or_zeros
pack_frame-ReadsBack type payload seq_num ht hp =
    let (wire, e, n) =
      (pack_frame_ok_iff type payload seq_num frame_version none).1
        (record { small = hp; supported = refl; byte = ht; tagged = refl }) in
    (
      wire,
      e,
      ap unpack_frame (sym (append-nil wire))
          ∙ unpack_frame-pack_frame type payload seq_num frame_version none [] wire e,
    )

-- Every plaintext frame that the convenience makers build, with a payload of at most 65535 bytes,
-- is built without an error and reads back with its type, payload and 32-bit sequence number.
makers-ReadsBack :
    (seq_num : ℕ) (payload : List ℕ)
    → length payload ≤ max_frame_payload
    → ReadsBack (make_punch_frame seq_num payload) frame_punch payload seq_num
      × ReadsBack (make_punch_ack_frame seq_num payload) frame_punch_ack payload seq_num
      × ReadsBack (make_keepalive_frame seq_num) frame_keepalive [] seq_num
      × ReadsBack (make_close_frame seq_num) frame_close [] seq_num
unfolding make_punch_frame make_punch_ack_frame make_keepalive_frame make_close_frame
makers-ReadsBack seq_num payload h = (
  pack_frame-ReadsBack frame_punch payload seq_num (omega arith) h,
  pack_frame-ReadsBack frame_punch_ack payload seq_num (omega arith) h,
  pack_frame-ReadsBack frame_keepalive [] seq_num (omega arith) (omega arith),
  pack_frame-ReadsBack frame_close [] seq_num (omega arith) (omega arith),
)
