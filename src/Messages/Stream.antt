-- ===== src/Messages/Stream.antt =====
-- A message is read back from a stream, and not before it is complete.
use local_network_ecosystem.Prelude.{
  ℕ, ◌+◌, ◌≤◌, ◌<◌, ◌≡◌, refl, String, none, some, List, [], ◌∷◌, ◌++◌, arith, length, take, drop,
  suc, length-take_of_le, length-append, take-append, drop-append, ◌∙◌, ap,
}
use native.Mathlib.Decide.{dec_le}
use local_network_ecosystem.Messages.{
  Json, Message, ok, serialize, message_of, deserialize, parse_stream, pack_length, unpack_length,
  max_message_size, length_prefix_size,
}

-- What json promises of a type and a payload: what it writes of them reads back.
abbrev pub ReadsBack : (json : Json) → String → json.Payload → Type 0
ReadsBack json type payload =
    (body : json.Object) × (json.loads (json.dumps type payload) ≡ some body)
    × (json.get_type body ≡ some type)
    × (json.get_payload body ≡ some payload)

take-length : (xs : List ℕ) → take (length xs) xs ≡ xs
take-length [] = refl
take-length (x ∷ xs) = ap (◌∷◌ x) (take-length xs)

unpack-pack :
    (n : ℕ) (rest : List ℕ) → n ≤ max_message_size → unpack_length (pack_length n ++ rest) ≡ some n
unfolding unpack_length pack_length
unpack-pack n rest h = ap some (omega arith)

serialize-eq-ok :
    (json : Json) (msg : Message json) {wire : List ℕ}
    → serialize json msg ≡ ok wire
    → let bytes = json.dumps msg.type msg.payload in
      (length bytes ≤ max_message_size) × (wire ≡ pack_length (length bytes) ++ bytes)
unfolding serialize
serialize-eq-ok json msg e = (ground arith, ground arith)

message_of-ReadsBack :
    (json : Json) (msg : Message json) (body : json.Object)
    → json.get_type body ≡ some msg.type
    → json.get_payload body ≡ some msg.payload
    → message_of json body ≡ ok msg
unfolding message_of
message_of-ReadsBack json msg body typed filled = ground (arith, typed, filled)

deserialize_at :
    (json : Json) (msg : Message json) (wire : List ℕ) (n : ℕ) (body : json.Object)
    → unpack_length wire ≡ some n
    → n ≤ max_message_size
    → length_prefix_size + n ≤ length wire
    → json.loads (take n (drop length_prefix_size wire)) ≡ some body
    → message_of json body ≡ ok msg
    → deserialize json wire ≡ ok msg
unfolding deserialize
deserialize_at json msg wire n body u small whole loaded read = ground arith

parse_stream_at :
    (json : Json) (msg : Message json) (wire : List ℕ) (n : ℕ)
    → unpack_length wire ≡ some n
    → n ≤ max_message_size
    → length_prefix_size + n ≤ length wire
    → deserialize json (take (length_prefix_size + n) wire) ≡ ok msg
    → parse_stream json wire ≡ ok (some msg, drop (length_prefix_size + n) wire)
unfolding parse_stream
parse_stream_at json msg wire n u small whole read = ground arith

-- The bytes of one message, with nothing behind them.
deserialize-wire :
    (json : Json) (msg : Message json) (bytes : List ℕ) (body : json.Object)
    → length bytes ≤ max_message_size
    → json.loads bytes ≡ some body
    → message_of json body ≡ ok msg
    → deserialize json (pack_length (length bytes) ++ bytes) ≡ ok msg
deserialize-wire json msg bytes body small loaded read =
    deserialize_at json msg (pack_length (length bytes) ++ bytes) (length bytes) body
      (unpack-pack (length bytes) bytes small) small (unfold pack_length in omega arith)
      (unfold pack_length in ap json.loads (take-length bytes) ∙ loaded) read

parse_stream-wire :
    (json : Json) (msg : Message json) (bytes rest : List ℕ)
    → length bytes ≤ max_message_size
    → deserialize json (pack_length (length bytes) ++ bytes) ≡ ok msg
    → parse_stream json (pack_length (length bytes) ++ bytes ++ rest) ≡ ok (some msg, rest)
unfolding pack_length
parse_stream-wire json msg bytes rest small read =
    let wire = pack_length (length bytes) ++ bytes ++ rest in
    let n = length bytes in
    let whole : length_prefix_size + n ≤ length wire =
      unfold pack_length in ground (arith, length-append bytes rest) in
    let first : take (length_prefix_size + n) wire ≡ pack_length n ++ bytes =
      unfold pack_length in
      take-append (length_prefix_size + n) (pack_length n ++ bytes) rest (omega arith) in
    let behind : drop (length_prefix_size + n) wire ≡ rest =
      unfold pack_length in
      drop-append (length_prefix_size + n) (pack_length n ++ bytes) rest (omega arith) in
    parse_stream_at json msg wire n (unpack-pack n (bytes ++ rest) small) small whole
      (ap (deserialize json) first ∙ read)
    ∙ ap (λ r. ok (some msg, r)) behind

-- A message that serialize wrote, whatever follows it, is read from the stream as that message and
-- what follows, where json reads back what it wrote of the message.
pub parse_stream-serialize :
    (json : Json) (msg : Message json) (rest wire : List ℕ)
    → ReadsBack json msg.type msg.payload
    → serialize json msg ≡ ok wire
    → parse_stream json (wire ++ rest) ≡ ok (some msg, rest)
parse_stream-serialize json msg rest wire (body, loaded, typed, filled) e =
    let bytes = json.dumps msg.type msg.payload in
    let (small, written) = serialize-eq-ok json msg e in
    rw written (
      parse_stream-wire json msg bytes rest small (
        deserialize-wire json msg bytes body small loaded
          (message_of-ReadsBack json msg body typed filled)))

unpack_short : (wire : List ℕ) → length wire < length_prefix_size → unpack_length wire ≡ none
unfolding unpack_length
unpack_short [] h = refl
unpack_short (a ∷ []) h = refl
unpack_short (a ∷ b ∷ []) h = refl
unpack_short (a ∷ b ∷ c ∷ []) h = refl
unpack_short (a ∷ b ∷ c ∷ d ∷ rest) h = absurd (omega arith)

unpack-take :
    (n m : ℕ) (bytes : List ℕ)
    → m ≤ max_message_size
    → length_prefix_size ≤ n
    → unpack_length (take n (pack_length m ++ bytes)) ≡ some m
unfolding pack_length
unpack-take (suc (suc (suc (suc k)))) m bytes small long = unpack-pack m (take k bytes) small
unpack-take _ m bytes small long = absurd (omega arith)

parse_stream-none :
    (json : Json) (wire : List ℕ)
    → unpack_length wire ≡ none
    → parse_stream json wire ≡ ok (none, wire)
unfolding parse_stream
parse_stream-none json wire u = ground arith

parse_stream_partial :
    (json : Json) (wire : List ℕ) (m : ℕ)
    → unpack_length wire ≡ some m
    → m ≤ max_message_size
    → length wire < length_prefix_size + m
    → parse_stream json wire ≡ ok (none, wire)
unfolding parse_stream
parse_stream_partial json wire m u small short = ground arith

length-wire :
    (m : ℕ) (bytes : List ℕ) → length (pack_length m ++ bytes) ≡ length_prefix_size + length bytes
unfolding pack_length
length-wire m bytes = omega arith

-- While only a first part of a message has come, nothing is read of it, and all of it is kept.
pub parse_stream_waits :
    (json : Json) (msg : Message json) (wire : List ℕ) (n : ℕ)
    → serialize json msg ≡ ok wire
    → n < length wire
    → parse_stream json (take n wire) ≡ ok (none, take n wire)
parse_stream_waits json msg wire n e short =
    let bytes = json.dumps msg.type msg.payload in
    let m = length bytes in
    let (small, written) = serialize-eq-ok json msg e in
    let size : length wire ≡ length_prefix_size + m = ap length written ∙ length-wire m bytes in
    let cut : length (take n wire) ≡ n = length-take_of_le n wire (omega arith) in
    elim (dec_le length_prefix_size n) [
      | yes long ↦
          parse_stream_partial json (take n wire) m
            (ap (λ w. unpack_length (take n w)) written ∙ unpack-take n m bytes small long) small
            (omega arith)
      | no early ↦ parse_stream-none json (take n wire) (unpack_short (take n wire) (omega arith))
    ]
