-- ===== src/Channel/Routing.antt =====
-- Where a message of the server goes.
use local_network_ecosystem.Prelude.{◌≡◌, some, List, [], ◌∷◌, ◌++◌, string_eq}
use local_network_ecosystem.Channel.{Message, ControlChannel, Reply, reply}

-- The channel once these events and this reply have come.
abbrev answered : List Message → Message → ControlChannel → ControlChannel
answered pushed msg c = record c {
  events = c.events ++ pushed;
  responses = c.responses ++ some msg ∷ [];
}

-- What a request has come to: its answer, and what became of the messages before it.
abbrev IsAnswered : Message → List Message → ControlChannel × Reply → Type 0
IsAnswered msg events (c, answer) = (answer ≡ reply msg) × (c.events ≡ events) × (c.responses ≡ [])
