-- ===== src/Websocket/Upgrade.antt =====
-- proxy/websocket.py: compute_accept_key, is_websocket_upgrade, perform_upgrade and
-- handle_websocket_upgrade. A text is the list of its code points, and a response is its text. The standard library's `str.lower`,
-- `str.strip`, `int`, and base64 over SHA-1, are the parameter `Library`.
pub mod Headers
pub mod AcceptKey
use local_network_ecosystem.Prelude.{
  ℕ, ◌+◌, String, Bool, true, false, not, ◌&&◌, ◌||◌, Option, none, some, List, [], ◌∷◌, ◌++◌,
  if◌then◌else◌, nat_eq, string_eq, ◌==◌,
}
use local_network_ecosystem.Dict
use local_network_ecosystem.Dict.{Dict}
use local_network_ecosystem.Protocol.{codes, is_prefix}

abbrev pub Text : Type 0
Text = List ℕ

pub record Library : Type 0 where
  pub lower : Text → Text
  pub strip : Text → Text
  -- none where `int` raises ValueError
  pub int : Text → Option ℕ
  pub b64_sha1 : Text → Text

pub record HttpRequest : Type 0 where
  pub method : String
  pub path : String
  pub headers : Dict String String

-- LocationBlock, as far as it is read.
pub record LocationBlock : Type 0 where
  pub ws_max_message_size : ℕ

abbrev pub crlf : Text
crlf = 13 ∷ 10 ∷ []

unfoldable pub same_text : Text → Text → Bool
same_text [] [] = true
same_text (x ∷ xs) (y ∷ ys) = x == y && same_text xs ys
same_text _ _ = false

-- `needle in text`
unfoldable pub occurs_in : Text → Text → Bool
unfolding is_prefix
occurs_in needle [] = is_prefix needle []
occurs_in needle (c ∷ cs) = is_prefix needle (c ∷ cs) || occurs_in needle cs

-- headers.get(name, "")
unfoldable pub header : String → Dict String String → String
header name headers = elim (Dict.get name headers) [ none ↦ "" | some v ↦ v ]

-- The texts of a split with a code before the first, and without its first code.
abbrev pub push : ℕ → List Text → List Text
push c [] = (c ∷ []) ∷ []
push c (line ∷ lines) = (c ∷ line) ∷ lines

abbrev pub drop_first : List Text → List Text
drop_first ((c ∷ line) ∷ lines) = line ∷ lines
drop_first lines = lines

-- text.split("\r\n"): at a carriage return, the next text begins with the line feed behind it.
unfoldable pub split_lines : Text → List Text
unfolding is_prefix
split_lines [] = [] ∷ []
split_lines (c ∷ cs) =
    let lines = split_lines cs in
    if c == 13 && is_prefix (10 ∷ []) cs then [] ∷ drop_first lines else push c lines

-- The text before the first such code, and what is behind it if there is one.
unfoldable pub partition : ℕ → Text → Text × Option Text
partition sep [] = ([], none)
partition sep (c ∷ cs) =
    let (before, behind) = partition sep cs in
    if c == sep then ([], some cs) else (c ∷ before, behind)

-- `status_line.split(" ", 2)[1]`, if there are two parts.
unfoldable pub second_part : Text → Option Text
unfolding partition
second_part line = elim (partition 32 line).1 [
  | none ↦ none
  | some behind ↦ some (partition 32 behind).0
]

-- The end of a request to upgrade.
pub data Upgrade : Type 0 where
  refused : ℕ → Upgrade
  raises : Text → Upgrade
  relaying : Text → ℕ → Upgrade

-- `sec-websocket-accept` and `sec-websocket-protocol` of the response.
abbrev pub Answered : Type 0
Answered = Text × Text

abbrev pub is_empty : Text → Bool
is_empty [] = true
is_empty (c ∷ cs) = false

unfoldable pub header_block : Dict String String → Text
unfolding codes
header_block [] = []
header_block ((k, v) ∷ headers) = codes k ++ codes ": " ++ codes v ++ crlf ++ header_block headers

-- The request as it is passed on to upstream.
unfoldable pub upgrade_request : HttpRequest → Text
unfolding header_block header
upgrade_request request =
    codes request.method
    ++ codes " "
    ++ codes request.path
    ++ codes " HTTP/1.1"
    ++ crlf
    ++ header_block (Dict.put "host" (header "host" request.headers) request.headers)
    ++ crlf

module _ (lib : Library) where
  unfoldable pub compute_accept_key : Text → Text
  unfolding codes
  compute_accept_key client_key =
      lib.b64_sha1 (client_key ++ codes "258EAFA5-E914-47DA-95CA-C5AB0DC85B11")

  unfoldable pub is_websocket_upgrade : Dict String String → Bool
  unfolding codes occurs_in header same_text
  is_websocket_upgrade headers =
      same_text (lib.lower (codes (header "upgrade" headers))) (codes "websocket")
      && occurs_in (codes "upgrade") (lib.lower (codes (header "connection" headers)))

  -- What `perform_upgrade` writes to the client.
  unfoldable pub perform_upgrade : Text → Text → Text
  unfolding compute_accept_key codes
  perform_upgrade client_key client_protocol =
      codes "HTTP/1.1 101 Switching Protocols"
      ++ crlf
      ++ codes "Upgrade: websocket"
      ++ crlf
      ++ codes "Connection: Upgrade"
      ++ crlf
      ++ codes "Sec-WebSocket-Accept: "
      ++ compute_accept_key client_key
      ++ crlf
      ++ (if is_empty client_protocol
          then []
          else codes "Sec-WebSocket-Protocol: " ++ client_protocol ++ crlf)
      ++ crlf

  -- The loop over the lines of the response.
  unfoldable pub read_headers : List Text → Answered → Answered
  unfolding partition same_text codes
  read_headers [] found = found
  read_headers (line ∷ lines) (accept, protocol) = elim (partition 58 line).1 [
    | none ↦ read_headers lines (accept, protocol)
    | some v ↦
        let key = lib.lower (lib.strip (partition 58 line).0) in
        read_headers lines (
          if same_text key (codes "sec-websocket-accept")
          then (lib.strip v, protocol)
          else if same_text key (codes "sec-websocket-protocol")
          then (accept, lib.strip v)
          else (accept, protocol))
  ]

  -- The key that the response of upstream leads to.
  unfoldable pub chosen_key : Text → Text → Text
  unfolding same_text compute_accept_key
  chosen_key client_key upstream_accept =
      if not (is_empty upstream_accept)
        && not (same_text upstream_accept (compute_accept_key client_key))
      then upstream_accept
      else compute_accept_key client_key

  -- Behind a response whose first line is `status` and whose others are `lines`. A response with another
  -- status than 101 is written to the client, and the call then waits for the None that `write` returns.
  unfoldable pub answer_upgrade : HttpRequest → LocationBlock → Text → Text → List Text → Upgrade
  unfolding second_part read_headers chosen_key perform_upgrade header
  answer_upgrade request location response status lines = elim (second_part status) [
    | none ↦ refused 502
    | some part ↦ elim (lib.int part) [
      | none ↦ raises []
      | some status_code ↦
          let (accept, protocol) = read_headers lines ([], []) in
          if not (status_code == 101)
          then raises response
          else relaying
              (perform_upgrade
                (chosen_key (codes (header "sec-websocket-key" request.headers)) accept)
                (if is_empty protocol
                  then codes (header "sec-websocket-protocol" request.headers)
                  else protocol))
              location.ws_max_message_size
    ]
  ]

  -- The response is what upstream sends up to its first empty line, or none in ten seconds.
  unfoldable pub handle_websocket_upgrade : HttpRequest → LocationBlock → Option Text → Upgrade
  unfolding answer_upgrade split_lines
  handle_websocket_upgrade request location response =
      if header "sec-websocket-key" request.headers == "" then refused 400 else elim response [
        | none ↦ refused 502
        | some text ↦ elim (split_lines text) [
          | [] ↦ refused 502
          | status ∷ lines ↦ answer_upgrade request location text status lines
        ]
      ]
