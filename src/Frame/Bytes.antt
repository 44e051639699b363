-- ===== src/Frame/Bytes.antt =====
-- The header's fields as bytes and back.
use local_network_ecosystem.Prelude.{ℕ, ◌<◌, ◌≡◌, List, ◌∷◌, ◌++◌, arith, length, All, take}
use local_network_ecosystem.Frame.{FrameHeader, ok, pack_header, unpack_header, frame_header_size}

-- Every entry is a byte.
abbrev pub IsBytes : List ℕ → Type 0
IsBytes = All (λ b. b < 256)

abbrev pub header_of : ℕ → ℕ → ℕ → ℕ → FrameHeader
header_of v t n s = record { version = v; type = t; payload_length = n; seq_num = s }

pub unpack_header-pack_header :
    (v t n s : ℕ) (rest : List ℕ) {h : List ℕ}
    → pack_header v t n s ≡ ok h
    → (length h ≡ frame_header_size) × (unpack_header (h ++ rest) ≡ ok (header_of v t n s))
unfolding pack_header unpack_header
unpack_header-pack_header v t n s rest e = (ground arith, ground arith)

pub pack_header-unpack_header :
    (wire : List ℕ) (h : FrameHeader)
    → IsBytes wire
    → unpack_header wire ≡ ok h
    → pack_header h.version h.type h.payload_length h.seq_num ≡ ok (take frame_header_size wire)
unfolding pack_header unpack_header
pack_header-unpack_header (v ∷ t ∷ n1 ∷ n0 ∷ s3 ∷ s2 ∷ s1 ∷ s0 ∷ rest) h b e = ground arith
pack_header-unpack_header _ h b e = cc
