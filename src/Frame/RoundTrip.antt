-- ===== src/Frame/RoundTrip.antt =====
-- pack_frame and unpack_frame undo one another.
use local_network_ecosystem.Prelude.{
  ℕ, ◌+◌, ◌-◌, ◌%◌, ◌^◌, ◌≤◌, ◌<◌, ◌≡◌, refl, ap, Option, some, List, ◌++◌, arith, length, take,
  drop, length-append, take-append, drop-append, length-take_of_le, length-drop, take-add, ◌∙◌,
}
use mathlib.Core.List.{append_assoc}
use local_network_ecosystem.Frame.{
  FrameHeader, ok, pack_header, unpack_header, header_bytes, frame_header_size, gcm_tag_size,
  frame_version, tag_or_zeros, pack_frame, unpack_body, unpack_frame, total_size, slice,
}
use local_network_ecosystem.Frame.Bytes.{
  IsBytes, header_of, unpack_header-pack_header, pack_header-unpack_header,
}

-- What a successful pack tells of its arguments and of the bytes.
pack_frame-eq-ok :
    (type : ℕ) (payload : List ℕ) (seq_num version : ℕ) (tag : Option (List ℕ)) {wire : List ℕ}
    → pack_frame type payload seq_num version tag ≡ ok wire
    → (h : List ℕ) × (version ≡ frame_version)
      × (length (tag_or_zeros tag) ≡ gcm_tag_size)
      × (pack_header frame_version type (length payload) (seq_num % 2 ^ 32) ≡ ok h)
      × (wire ≡ h ++ (payload ++ tag_or_zeros tag))
unfolding pack_frame
pack_frame-eq-ok type payload seq_num version tag e = (
  header_bytes frame_version type (length payload) (seq_num % 2 ^ 32),
  ground arith,
  ground arith,
  ground arith,
  ground arith,
)

slice_middle :
    (a b : ℕ) (x y z : List ℕ) → length x ≡ a → length y + a ≡ b → slice a b (x ++ (y ++ z)) ≡ y
slice_middle a b x y z ex ey =
    rw (drop-append a x (y ++ z) ex) (take-append (b - a) y z (omega arith))

-- An unpacked frame that was packed, with anything behind it.
unpack_body_parts :
    (hdr : FrameHeader) (h payload tag rest : List ℕ)
    → hdr.version ≡ frame_version
    → length h ≡ frame_header_size
    → length payload ≡ hdr.payload_length
    → length tag ≡ gcm_tag_size
    → unpack_body (h ++ (payload ++ (tag ++ rest))) hdr ≡ ok (hdr, payload, tag)
unfolding unpack_body
unpack_body_parts hdr h payload tag rest ev eh ep et = ground (
  arith,
  slice_middle 8 (8 + hdr.payload_length) h payload (tag ++ rest),
  length-append h (payload ++ (tag ++ rest)),
  length-append payload (tag ++ rest),
  length-append tag rest,
  append_assoc h payload (tag ++ rest),
  length-append h payload,
  slice_middle (8 + hdr.payload_length) (8 + hdr.payload_length + 16) (h ++ payload) tag rest,
)

unpack_frame_parts :
    (hdr : FrameHeader) (h payload tag rest : List ℕ)
    → hdr.version ≡ frame_version
    → length h ≡ frame_header_size
    → length payload ≡ hdr.payload_length
    → length tag ≡ gcm_tag_size
    → unpack_header (h ++ (payload ++ (tag ++ rest))) ≡ ok hdr
    → unpack_frame (h ++ (payload ++ (tag ++ rest))) ≡ ok (hdr, payload, tag)
unpack_frame_parts hdr h payload tag rest ev eh ep et uh =
    unfold unpack_frame in
    ground (
      arith,
      unpack_body_parts hdr h payload tag rest ev eh ep et,
      length-append h (payload ++ (tag ++ rest)),
      length-append payload (tag ++ rest),
      length-append tag rest,
    )

-- Unpacking a packed frame, also with further bytes behind it, gives the header with the sequence
-- number reduced to 32 bits, the payload, and the tag (sixteen zeros where none was given).
pub unpack_frame-pack_frame :
    (type : ℕ) (payload : List ℕ) (seq_num version : ℕ) (tag : Option (List ℕ)) (rest wire : List ℕ)
    → pack_frame type payload seq_num version tag ≡ ok wire
    → unpack_frame (wire ++ rest)
      ≡ ok (
        header_of frame_version type (length payload) (seq_num % 2 ^ 32),
        payload,
        tag_or_zeros tag,
      )
unpack_frame-pack_frame type payload seq_num version tag rest wire e =
    let (h, ev, et, eh, ew) = pack_frame-eq-ok type payload seq_num version tag e in
    let t = tag_or_zeros tag in
    let (lh, uh) =
      unpack_header-pack_header frame_version type (length payload) (seq_num % 2 ^ 32)
        (payload ++ (t ++ rest)) eh in
    rw (ew, append_assoc, append_assoc)
      (unpack_frame_parts (header_of frame_version type (length payload) (seq_num % 2 ^ 32)) h
        payload t rest refl lh refl et uh)

-- What a successful unpack tells of its input.
unpack_frame-eq-ok :
    (wire : List ℕ) (h : FrameHeader) (payload tag : List ℕ)
    → unpack_frame wire ≡ ok (h, payload, tag)
    → (unpack_header wire ≡ ok h)
      × (h.version ≡ frame_version)
      × (total_size h ≤ length wire)
      × (payload ≡ slice frame_header_size (frame_header_size + h.payload_length) wire)
      × (tag ≡ slice (frame_header_size + h.payload_length) (total_size h) wire)
unfolding unpack_frame
unpack_frame-eq-ok wire h payload tag e =
    (ground arith, ground arith, ground arith, ground arith, ground arith)

length-slice : (a b : ℕ) (wire : List ℕ) → a ≤ b → b ≤ length wire → length (slice a b wire) ≡ b - a
length-slice a b wire h k =
    length-take_of_le (b - a) (drop a wire) (omega (arith, length-drop a wire))

take-append-slice : (a b : ℕ) (wire : List ℕ) → a ≤ b → take a wire ++ slice a b wire ≡ take b wire
take-append-slice a b wire h = take-add a (b - a) wire ∙ ap (λ n. take n wire) (omega arith)

pack_header_bounds :
    (v t n s : ℕ) {h : List ℕ} → pack_header v t n s ≡ ok h → (n < 2 ^ 16) × (s < 2 ^ 32)
unfolding pack_header
pack_header_bounds v t n s e = ground arith

-- Packing what was unpacked, with its own header's fields, gives back the bytes of the frame: the
-- whole input but for what stands behind the declared size, which unpack_frame drops unseen.
pub pack_frame-unpack_frame :
    (wire : List ℕ) (h : FrameHeader) (payload tag : List ℕ)
    → IsBytes wire
    → unpack_frame wire ≡ ok (h, payload, tag)
    → pack_frame h.type payload h.seq_num h.version (some tag) ≡ ok (take (total_size h) wire)
unfolding total_size
pack_frame-unpack_frame wire h payload tag b e =
    let (eh, ev, el, ep, et) = unpack_frame-eq-ok wire h payload tag e in
    let ph = pack_header-unpack_header wire h b eh in
    let stop = frame_header_size + h.payload_length in
    let (ln, ls) = pack_header_bounds h.version h.type h.payload_length h.seq_num ph in
    let lp : length payload ≡ h.payload_length =
      rw ep (length-slice frame_header_size stop wire (omega arith) (omega arith) ∙ omega arith) in
    let lt : length tag ≡ gcm_tag_size =
      rw et
        (length-slice stop (stop + gcm_tag_size) wire (omega arith) (omega arith) ∙ omega arith) in
    let joined : take frame_header_size wire ++ (payload ++ tag) ≡ take (stop + gcm_tag_size) wire =
      rw (ep, et, ← append_assoc, take-append-slice frame_header_size stop wire (omega arith))
        (take-append-slice stop (stop + gcm_tag_size) wire (omega arith)) in
    let small : h.seq_num % 2 ^ 32 ≡ h.seq_num = omega arith in
    unfold pack_frame in ground (arith, ph, joined, lp, lt, small)
