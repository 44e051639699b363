-- ===== src/Exposure/Streams.antt =====
-- The streams of a service, and their frames.
use local_network_ecosystem.Prelude.{
  ℕ, zero, suc, ◌-◌, ◌≤◌, ◌≡◌, refl, sym, ap, ◌∙◌, String, Bool, true, false, ◌&&◌, none, List, [],
  ◌∷◌, ◌++◌, arith, ltb, if◌then◌else◌, length, take, drop, replicate, any, nat_eq, string_eq, ◌==◌,
  All, Option-cases, inl, inr, length-append, length-replicate, take-append, drop-append,
}
use mathlib.Core.List.{append_assoc}
use local_network_ecosystem.Dict
use local_network_ecosystem.Dict.{Dict, get-remove, has-eq}
use local_network_ecosystem.Registry.{values}
use local_network_ecosystem.Exposure.{
  ActiveStream, ServiceExposureManager, close_stream, close_streams_of, unexpose, padded, stripped,
  stream_payload, decode_stream_frame,
}

stripped-zeros : (n : ℕ) → stripped (replicate n 0) ≡ []
unfolding stripped
stripped-zeros zero = refl
stripped-zeros (suc n) = rw (stripped-zeros n) refl

-- A text that holds no zero byte.
abbrev pub IsFilled : ℕ → Type 0
IsFilled b = (b == 0) ≡ false

stripped-append : (bs : List ℕ) (n : ℕ) → All IsFilled bs → stripped (bs ++ replicate n 0) ≡ bs
unfolding stripped
stripped-append [] n h = stripped-zeros n
stripped-append (b ∷ []) n (some_b, h) = rw (stripped-zeros n, stripped) (rw some_b refl)
stripped-append (b ∷ c ∷ cs) n (some_b, h) = rw (stripped-append (c ∷ cs) n h, stripped) refl

take-all : (n : ℕ) (bs : List ℕ) → length bs ≤ n → take n bs ≡ bs
take-all zero [] h = refl
take-all zero (b ∷ bs) h = absurd (omega arith)
take-all (suc n) [] h = refl
take-all (suc n) (b ∷ bs) h = ap (λ x. b ∷ x) (take-all n bs (omega arith))

padded-eq : (id : List ℕ) → length id ≤ 36 → padded id ≡ id ++ replicate (36 - length id) 0
unfolding padded
padded-eq id h = rw (take-all 36 id h) refl

length-padded : (id : List ℕ) → length id ≤ 36 → length (padded id) ≡ 36
length-padded id h =
    ap length (padded-eq id h)
    ∙ omega (
      arith,
      length-append id (replicate (36 - length id) 0),
      length-replicate {A = ℕ} (36 - length id) 0,
    )

stripped-padded : (id : List ℕ) → length id ≤ 36 → All IsFilled id → stripped (padded id) ≡ id
stripped-padded id h filled =
    ap stripped (padded-eq id h) ∙ stripped-append id (36 - length id) filled

-- What is sent on a stream is decoded as it was, with the ids of its service and of the stream, where they
-- have at most 36 bytes and none of them is zero.
pub decode_stream_frame-stream_payload :
    (service_id stream_id bytes : List ℕ)
    → length service_id ≤ 36
    → length stream_id ≤ 36
    → All IsFilled service_id
    → All IsFilled stream_id
    → decode_stream_frame (stream_payload service_id stream_id bytes)
      ≡ (service_id, stream_id, bytes)
unfolding decode_stream_frame stream_payload
decode_stream_frame-stream_payload service_id stream_id bytes h k filled filled' =
    let p = padded service_id in
    let q = padded stream_id in
    let first = length-padded service_id h in
    let second = length-padded stream_id k in
    let both : length (p ++ q) ≡ 72 = omega (arith, length-append p q) in
    let long : ltb (length (p ++ (q ++ bytes))) 72 ≡ false =
      ground (arith, length-append p (q ++ bytes), length-append q bytes) in
    let rest : drop 72 (p ++ (q ++ bytes)) ≡ bytes =
      ap (drop 72) (sym (append_assoc p q bytes)) ∙ drop-append 72 (p ++ q) bytes both in
    rw
      (
        long,
        take-append 36 p (q ++ bytes) first,
        drop-append 36 p (q ++ bytes) first,
        take-append 36 q bytes second,
        rest,
      )
      (rw (stripped-padded service_id h filled, stripped-padded stream_id k filled') refl)

-- The stream has this id and belongs to the service.
abbrev pub is_stream_of : String → String → ActiveStream → Bool
is_stream_of service_id stream_id s = s.stream_id == stream_id && s.service_id == service_id

close_streams_of_lem :
    (service_id stream_id : String) (ss : List ActiveStream) (m : ServiceExposureManager)
    → Dict.get stream_id (close_streams_of service_id ss m).0.streams
      ≡ (if any (is_stream_of service_id stream_id) ss then none else Dict.get stream_id m.streams)
unfolding close_streams_of close_stream
close_streams_of_lem service_id stream_id [] m = refl
close_streams_of_lem service_id stream_id (s ∷ ss) m =
    let after_close = close_streams_of_lem service_id stream_id ss (close_stream s m).0 in
    let kept = close_streams_of_lem service_id stream_id ss m in
    let view = get-remove s.stream_id stream_id m.streams in ground arith

-- unexpose takes away the service, and exactly the streams that belong to it, if the service is exposed.
pub unexpose-streams :
    (service_id stream_id : String) (m : ServiceExposureManager)
    → Dict.has service_id m.services ≡ true
    → let m' = (unexpose service_id m).0 in
      (Dict.get stream_id m'.streams ≡ (
        if any (is_stream_of service_id stream_id) (values m.streams)
        then none
        else Dict.get stream_id m.streams))
unfolding unexpose
unexpose-streams service_id stream_id m there =
    elim (Option-cases (Dict.get service_id m.services)) [
      | inl missing ↦ absurd (ground (arith, has-eq service_id m.services))
      | inr (r, e) ↦
          rw (e, unexpose)
            (close_streams_of_lem service_id stream_id (values m.streams)
              (record m { services = Dict.remove service_id m.services }))
    ]
