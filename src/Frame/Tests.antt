-- ===== src/Frame/Tests.antt =====
-- The frame's theorems at concrete frames.
use local_network_ecosystem.Prelude.{
  ℕ, ◌+◌, ◌%◌, ◌^◌, ◌≡◌, refl, some, none, List, [], ◌∷◌, ◌++◌, arith, replicate, take,
}
use local_network_ecosystem.Frame.{
  ok, err, invalid_frame_version, unpack_header, tag_or_zeros, pack_frame, unpack_frame, total_size,
}
use local_network_ecosystem.Frame.Bytes.{header_of}
use local_network_ecosystem.Frame.RoundTrip.{unpack_frame-pack_frame, pack_frame-unpack_frame}

abbrev tag : List ℕ
tag = replicate 16 7

abbrev wire : List ℕ
wire = 1 ∷ 1 ∷ 0 ∷ 2 ∷ 0 ∷ 0 ∷ 0 ∷ 5 ∷ 10 ∷ 11 ∷ tag

packed : pack_frame 1 (10 ∷ 11 ∷ []) (2 ^ 32 + 5) 1 (some tag) ≡ ok wire
unfolding pack_frame
packed = refl

unpacked : unpack_frame (wire ++ 9 ∷ []) ≡ ok (header_of 1 1 2 5, 10 ∷ 11 ∷ [], tag)
unfolding unpack_frame unpack_header
unpacked = refl

not_version_one : pack_frame 1 [] 0 2 none ≡ err invalid_frame_version
unfolding pack_frame
not_version_one = refl

unpack_frame-pack_frame_example :
    unpack_frame (wire ++ 9 ∷ [])
    ≡ ok (header_of 1 1 2 ((2 ^ 32 + 5) % 2 ^ 32), 10 ∷ 11 ∷ [], tag_or_zeros (some tag))
unpack_frame-pack_frame_example =
    unpack_frame-pack_frame 1 (10 ∷ 11 ∷ []) (2 ^ 32 + 5) 1 (some tag) (9 ∷ []) wire packed

pack_frame-unpack_frame_example :
    pack_frame 1 (10 ∷ 11 ∷ []) 5 1 (some tag)
    ≡ ok (take (total_size (header_of 1 1 2 5)) (wire ++ 9 ∷ []))
pack_frame-unpack_frame_example =
    pack_frame-unpack_frame (wire ++ 9 ∷ []) (header_of 1 1 2 5) (10 ∷ 11 ∷ []) tag (omega arith)
      unpacked
