-- ===== src/Websocket/Upgrade/AcceptKey.antt =====
-- Which accept key the client is given.
use local_network_ecosystem.Prelude.{
  ℕ, ◌≡◌, refl, sym, ap, ◌∙◌, true, false, not, Option, none, some, List, [], ◌∷◌, arith,
  if◌then◌else◌, string_eq, nat_eq, ◌==◌, Bool-cases, inl, inr, ◌++◌,
}
use mathlib.Core.List.{append_assoc}
use local_network_ecosystem.Protocol.{codes}
use local_network_ecosystem.Websocket.Upgrade.{
  Text, Library, HttpRequest, LocationBlock, same_text, header, split_lines, second_part, Upgrade,
  refused, raises, relaying, is_empty, compute_accept_key, perform_upgrade, read_headers,
  chosen_key, answer_upgrade, handle_websocket_upgrade, crlf,
}
use local_network_ecosystem.Websocket.Upgrade.Headers.{IsSent, read_headers-sent}

same_text-eq : (xs ys : Text) → same_text xs ys ≡ true → xs ≡ ys
unfolding same_text
same_text-eq [] [] h = refl
same_text-eq [] (y ∷ ys) h = absurd (cc h)
same_text-eq (x ∷ xs) [] h = absurd (cc h)
same_text-eq (x ∷ xs) (y ∷ ys) h = ground (arith, same_text-eq xs ys)

-- The accept key of upstream if it has sent one, or else the one of the client's key.
abbrev pub given_key : Library → Text → Text → Text
given_key lib client_key upstream_accept =
    if is_empty upstream_accept then compute_accept_key lib client_key else upstream_accept

chosen_key-given :
    (lib : Library) (client_key upstream : Text)
    → chosen_key lib client_key upstream ≡ given_key lib client_key upstream
unfolding chosen_key
chosen_key-given lib client_key [] = refl
chosen_key-given lib client_key (c ∷ cs) =
    elim (Bool-cases (same_text (c ∷ cs) (compute_accept_key lib client_key))) [
      | inl same ↦ rw same (sym (same_text-eq (c ∷ cs) (compute_accept_key lib client_key) same))
      | inr other ↦ rw other refl
    ]

-- The text that RFC 6455 adds to a key.
abbrev pub guid : Text
guid = codes "258EAFA5-E914-47DA-95CA-C5AB0DC85B11"

-- The key of the response: upstream's accept key if it has sent one, or else the accept key of the client's.
abbrev pub key_of_response : Library → Text → Text → Text
key_of_response lib client_key upstream_accept =
    if is_empty upstream_accept then lib.b64_sha1 (client_key ++ guid) else upstream_accept

-- What a client that is let through is told, of a response of upstream: the accept key of the key of the
-- response.
pub record IsTold (lib : Library) (request : HttpRequest) (response : Option Text) (written : Text)
    : Type 0 where
  pub text : Text
  pub status : Text
  pub lines : List Text
  pub came : response ≡ some text
  pub split : split_lines text ≡ status ∷ lines
  pub upstream_accept : Text
  pub accepted : IsSent lib lines upstream_accept
  pub before : Text
  pub behind : Text
  pub told :
      written
      ≡ before
        ++ codes "Sec-WebSocket-Accept: "
        ++ lib.b64_sha1 (
            key_of_response lib (codes (header "sec-websocket-key" request.headers)) upstream_accept
            ++ guid)
        ++ crlf
        ++ behind

-- The end of an answer with this status.
abbrev ends_in : Library → HttpRequest → LocationBlock → Text → Text × Text → ℕ → Upgrade
ends_in lib request location response (accept, protocol) status_code =
    if not (status_code == 101)
    then raises response
    else relaying
        (perform_upgrade lib
          (chosen_key lib (codes (header "sec-websocket-key" request.headers)) accept)
          (if is_empty protocol
            then codes (header "sec-websocket-protocol" request.headers)
            else protocol))
        location.ws_max_message_size

-- What is written when upstream has sent this accept key.
record IsGiven (lib : Library) (request : HttpRequest) (upstream_accept written : Text)
    : Type 0 where
  protocol : Text
  told :
      written
      ≡ perform_upgrade lib
          (given_key lib (codes (header "sec-websocket-key" request.headers)) upstream_accept)
          protocol

ends_in-IsGiven :
    (lib : Library) (request : HttpRequest) (location : LocationBlock) (response : Text)
    (found : Text × Text) (status_code : ℕ) (written : Text) (limit : ℕ)
    → ends_in lib request location response found status_code ≡ relaying written limit
    → IsGiven lib request found.0 written × (limit ≡ location.ws_max_message_size)
ends_in-IsGiven lib request location response (accept, protocol) status_code written limit e =
    elim (Bool-cases (status_code == 101)) [
      | inl switching ↦
          let told =
            if is_empty protocol
            then codes (header "sec-websocket-protocol" request.headers)
            else protocol in
          let key = codes (header "sec-websocket-key" request.headers) in
          let same : relaying (perform_upgrade lib (chosen_key lib key accept) told)
                location.ws_max_message_size
              ≡ relaying written limit =
            rw switching at e in
          let text : perform_upgrade lib (chosen_key lib key accept) told ≡ written = cc same in
          let size : location.ws_max_message_size ≡ limit = cc same in
          (
            record {
              protocol = told;
              told =
                  sym text ∙ ap (λ k. perform_upgrade lib k told) (chosen_key-given lib key accept);
            },
            sym size,
          )
      | inr other ↦
          let ended : raises response ≡ relaying written limit = rw other at e in absurd (cc ended)
    ]

answer_upgrade-IsGiven :
    (lib : Library) (request : HttpRequest) (location : LocationBlock) (response status : Text)
    (lines : List Text) (written : Text) (limit : ℕ)
    → answer_upgrade lib request location response status lines ≡ relaying written limit
    → IsGiven lib request (read_headers lib lines ([], [])).0 written
      × (limit ≡ location.ws_max_message_size)
unfolding answer_upgrade
answer_upgrade-IsGiven lib request location response status lines written limit e =
    go (second_part status) e
  where
    coded :
        (n : Option ℕ)
        → elim n [
          | none ↦ raises []
          | some status_code ↦
              ends_in lib request location response (read_headers lib lines ([], [])) status_code
        ]
          ≡ relaying written limit
        → IsGiven lib request (read_headers lib lines ([], [])).0 written
          × (limit ≡ location.ws_max_message_size)
    coded none e = absurd (cc e)
    coded (some status_code) e =
        ends_in-IsGiven lib request location response (read_headers lib lines ([], [])) status_code
          written limit e

    go :
        (part : Option Text)
        → elim part [
          | none ↦ refused 502
          | some part ↦ elim (lib.int part) [
            | none ↦ raises []
            | some status_code ↦
                ends_in lib request location response (read_headers lib lines ([], [])) status_code
          ]
        ]
          ≡ relaying written limit
        → IsGiven lib request (read_headers lib lines ([], [])).0 written
          × (limit ≡ location.ws_max_message_size)
    go none e = absurd (cc e)
    go (some part) e = coded (lib.int part) e

-- The text that is written up to the name of the accept key.
abbrev head : Text
head =
    codes "HTTP/1.1 101 Switching Protocols"
    ++ crlf
    ++ codes "Upgrade: websocket"
    ++ crlf
    ++ codes "Connection: Upgrade"
    ++ crlf

told_key :
    (lib : Library) (client_key accept protocol : Text)
    → (behind : Text) × (perform_upgrade lib (given_key lib client_key accept) protocol
        ≡ head
          ++ codes "Sec-WebSocket-Accept: "
          ++ lib.b64_sha1 (key_of_response lib client_key accept ++ guid)
          ++ crlf
          ++ behind)
unfolding perform_upgrade compute_accept_key
told_key lib client_key accept protocol =
    let named =
      if is_empty protocol then [] else codes "Sec-WebSocket-Protocol: " ++ protocol ++ crlf in
    (
      named ++ crlf,
      append_assoc
          (head
            ++ codes "Sec-WebSocket-Accept: "
            ++ lib.b64_sha1 (key_of_response lib client_key accept ++ guid)
            ++ crlf)
          named crlf,
    )

-- A client that is let through is told the accept key of a key that is itself an accept key: of the one that
-- the last such header of upstream's response gives, or, if none does or it is empty, of the accept key of
-- the client's key. Its request had a key, and the relay has the limit of the location.
pub handle_websocket_upgrade-IsTold :
    (lib : Library) (request : HttpRequest) (location : LocationBlock) (response : Option Text)
    (written : Text) (limit : ℕ)
    → handle_websocket_upgrade lib request location response ≡ relaying written limit
    → IsTold lib request response written
      × ((header "sec-websocket-key" request.headers == "") ≡ false)
      × (limit ≡ location.ws_max_message_size)
unfolding handle_websocket_upgrade
handle_websocket_upgrade-IsTold lib request location response written limit h =
    elim (Bool-cases (header "sec-websocket-key" request.headers == "")) [
      | inl no_key ↦
          let ended : refused 400 ≡ relaying written limit = rw no_key at h in absurd (cc ended)
      | inr has_key ↦ go has_key response refl (rw has_key at h)
    ]
  where
    lined : Text → List Text → Upgrade
    lined text lines = elim lines [
      | [] ↦ refused 502
      | status ∷ rest ↦ answer_upgrade lib request location text status rest
    ]

    first :
        (text : Text)
        → response ≡ some text
        → (lines : List Text) → split_lines text ≡ lines
        → lined text lines ≡ relaying written limit
        → IsTold lib request response written × (limit ≡ location.ws_max_message_size)
    first text came [] split e = absurd (cc e)
    first text came (status ∷ rest) split e =
        let (given, size) =
          answer_upgrade-IsGiven lib request location text status rest written limit e in
        let accept = (read_headers lib rest ([], [])).0 in
        let (behind, told) =
          told_key lib (codes (header "sec-websocket-key" request.headers)) accept given.protocol in
        (
          record {
            text = text;
            status = status;
            lines = rest;
            came = came;
            split = split;
            upstream_accept = accept;
            accepted = read_headers-sent lib rest [] [];
            before = head;
            behind = behind;
            told = given.told ∙ told;
          },
          size,
        )

    go :
        (header "sec-websocket-key" request.headers == "") ≡ false
        → (r : Option Text) → response ≡ r
        → elim r [ none ↦ refused 502 | some text ↦ lined text (split_lines text) ]
          ≡ relaying written limit
        → IsTold lib request response written
          × ((header "sec-websocket-key" request.headers == "") ≡ false)
          × (limit ≡ location.ws_max_message_size)
    go has_key none came e = absurd (cc e)
    go has_key (some text) came e =
        let (told, size) = first text came (split_lines text) refl e in (told, has_key, size)
