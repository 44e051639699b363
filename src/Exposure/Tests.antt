-- ===== src/Exposure/Tests.antt =====
-- The theorems on streams at concrete ones.
use local_network_ecosystem.Prelude.{◌≡◌, refl, [], ◌∷◌, arith}
use local_network_ecosystem.Exposure.{stream_payload, decode_stream_frame}
use local_network_ecosystem.Exposure.Streams.{decode_stream_frame-stream_payload}

decode_stream_frame-stream_payload_example :
    decode_stream_frame (stream_payload (115 ∷ 49 ∷ []) (116 ∷ []) (0 ∷ 7 ∷ 0 ∷ []))
    ≡ (115 ∷ 49 ∷ [], 116 ∷ [], 0 ∷ 7 ∷ 0 ∷ [])
decode_stream_frame-stream_payload_example =
    decode_stream_frame-stream_payload (115 ∷ 49 ∷ []) (116 ∷ []) (0 ∷ 7 ∷ 0 ∷ []) (omega arith)
      (omega arith) (refl, (refl, tt)) (refl, tt)
