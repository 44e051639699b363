-- ===== src/Websocket/Tests.antt =====
-- The theorems on frames and their relay at concrete ones.
use local_network_ecosystem.Prelude.{
  ℕ, ◌≡◌, refl, false, some, List, [], ◌∷◌, ◌++◌, arith, ◌==◌, string_eq,
}
use local_network_ecosystem.Protocol.{codes}
use local_network_ecosystem.Websocket
use local_network_ecosystem.Websocket.{
  read_frame, Frame, passed_on, Relay, Turn, client, upstream, ping,
}
use local_network_ecosystem.Websocket.RoundTrip.{client_frame, read_frame-client_frame}
use local_network_ecosystem.Websocket.Written.{send_all}
use local_network_ecosystem.Websocket.Upgrade.{
  Text, Library, HttpRequest, LocationBlock, header, handle_websocket_upgrade, relaying,
  perform_upgrade, compute_accept_key,
}
use local_network_ecosystem.Websocket.Upgrade.AcceptKey.{IsTold, handle_websocket_upgrade-IsTold}

abbrev payload : List ℕ
payload = 104 ∷ 105 ∷ 33 ∷ 10 ∷ 200 ∷ []

read_frame-client_frame_example :
    read_frame 1024 (client_frame 7 0 255 16 (2, payload) ++ 1 ∷ [])
    ≡ Websocket.ok ((2, payload), 1 ∷ [])
read_frame-client_frame_example =
    read_frame-client_frame 1024 2 7 0 255 16 payload (1 ∷ []) (omega arith)
      (omega arith, (omega arith, (omega arith, (omega arith, tt))))
      (omega arith, (omega arith, (omega arith, (omega arith, (omega arith, tt))))) (omega arith)
      (omega arith)

abbrev frames : List Frame
frames = (1, payload) ∷ (9, 5 ∷ []) ∷ (8, []) ∷ (1, payload) ∷ []

abbrev start : Relay
start = record {
  max_message_size = 1024;
  from_client = [];
  from_upstream = send_all frames;
  to_client = [];
  to_upstream = [];
  done = false;
}

abbrev turns : List Turn
turns = upstream ∷ ping ∷ upstream ∷ upstream ∷ upstream ∷ client ∷ []

-- Texts are as they are, every number is 101, and the accept key of a key stands in brackets.
abbrev library : Library
library = record {
  lower = λ t. t;
  strip = λ t. t;
  int = λ t. some 101;
  b64_sha1 = λ t. 91 ∷ t ++ 93 ∷ [];
}

abbrev request : HttpRequest
request = record { method = "GET"; path = "/ws"; headers = ("sec-websocket-key", "k") ∷ [] }

abbrev location : LocationBlock
location = record { ws_max_message_size = 1024 }

-- "HTTP/1.1 101" and an empty line.
abbrev switching : Text
switching = codes "HTTP/1.1 101" ++ 13 ∷ 10 ∷ 13 ∷ 10 ∷ []

-- The client is told the accept key of the accept key of "k".
abbrev told : Text
told = perform_upgrade library (compute_accept_key library (codes "k")) []

lets_through :
    handle_websocket_upgrade library request location (some switching) ≡ relaying told 1024
unfolding handle_websocket_upgrade local_network_ecosystem.Dict.get
lets_through = refl

handle_websocket_upgrade-IsTold_example :
    IsTold library request (some switching) told
    × (header "sec-websocket-key" request.headers == "" ≡ false)
    × (1024 ≡ location.ws_max_message_size)
handle_websocket_upgrade-IsTold_example =
    handle_websocket_upgrade-IsTold library request location (some switching) told 1024 lets_through
