-- ===== src/Messages/Tests.antt =====
-- The theorems on messages at a concrete codec: a message is its payload's bytes.
use local_network_ecosystem.Prelude.{ℕ, ◌≡◌, refl, some, List, [], ◌∷◌, ◌++◌}
use local_network_ecosystem.Messages.{Json, Message, ok, serialize, parse_stream}
use local_network_ecosystem.Messages.Stream.{ReadsBack, parse_stream-serialize}

abbrev plain : Json
plain = record {
  Object = List ℕ;
  Payload = List ℕ;
  no_payload = [];
  dumps = λ type payload. payload;
  loads = λ bytes. some bytes;
  get_type = λ body. some "HEARTBEAT";
  get_payload = λ body. some body;
}

abbrev heartbeat : Message plain
heartbeat = record { type = "HEARTBEAT"; payload = 123 ∷ 125 ∷ [] }

abbrev wire : List ℕ
wire = 0 ∷ 0 ∷ 0 ∷ 2 ∷ 123 ∷ 125 ∷ []

written : serialize plain heartbeat ≡ ok wire
unfolding serialize
written = refl

heartbeat-ReadsBack : ReadsBack plain "HEARTBEAT" (123 ∷ 125 ∷ [])
heartbeat-ReadsBack = (123 ∷ 125 ∷ [], refl, refl, refl)

parse_stream-serialize_example :
    parse_stream plain (wire ++ 0 ∷ 0 ∷ []) ≡ ok (some heartbeat, 0 ∷ 0 ∷ [])
parse_stream-serialize_example =
    parse_stream-serialize plain heartbeat (0 ∷ 0 ∷ []) wire heartbeat-ReadsBack written
