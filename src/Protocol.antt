-- ===== src/Protocol.antt =====
-- server/protocol.py: the fields of a control message, checked before a handler trusts them. A payload
-- is a dict of JSON values; a JSON true or false is Python's 1 or 0 with its own text.
pub mod Fields
mod Tests
use Prim.Native.Char.{code}
use Prim.Native.String
use local_network_ecosystem.Prelude.{
  ℕ, ◌+◌, ◌-◌, String, Bool, true, false, not, ◌&&◌, ◌||◌, Option, none, some, List, [], ◌∷◌, ltb,
  leb, if◌then◌else◌, length, any, contains, string_eq, nat_eq, ◌==◌,
}
use local_network_ecosystem.Dict
use local_network_ecosystem.Dict.{Dict}
use local_network_ecosystem.Networks.{topology_mesh, supported_topologies}

-- A value of JSON: a number from 0 on with the text that `str` makes of it, or, for all else (a float, a
-- negative number, a list, an object), whether it is true and its text.
pub data Value : Type 0 where
  null : Value
  text : String → Value
  number : ℕ → String → Value
  other : Bool → String → Value

abbrev pub Payload : Type 0
Payload = Dict String Value

pub data ProtocolError : Type 0 where
  is_required : String → ProtocolError
  bad_client_id bad_public_key bad_name bad_topology bad_protocol bad_local_port : ProtocolError

pub data Result {ℓ} (A : Type ℓ) : Type ℓ where
  ok : A → Result A
  err : ProtocolError → Result A

infixl 5 ◌>>=◌
abbrev pub ◌>>=◌ {ℓ κ} : {A : Type ℓ} {B : Type κ} → Result A → (A → Result B) → Result B
ok a >>= f = f a
err e >>= f = err e

-- payload.get(key)
unfoldable pub field : String → Payload → Value
field key payload = elim (Dict.get key payload) [ none ↦ null | some v ↦ v ]

-- `str(value)`
abbrev pub str : Value → String
str null = "None"
str (text s) = s
str (number n s) = s
str (other b s) = s

abbrev pub is_true : Value → Bool
is_true null = false
is_true (text s) = not (s == "")
is_true (number n s) = not (n == 0)
is_true (other b s) = b

-- `str(value or default)`
abbrev pub str_or : String → Value → String
str_or default v = if is_true v then str v else default

-- `value in (None, "")`
abbrev pub is_missing : Value → Bool
is_missing null = true
is_missing (text s) = s == ""
is_missing _ = false

unfoldable pub require : String → Payload → Result Value
unfolding field
require key payload =
    let v = field key payload in if is_missing v then err (is_required key) else ok v

-- The code points of a text.
unfoldable pub codes : String → List ℕ
codes String.[] = []
codes (String.◌∷◌ c s) = code c ∷ codes s

-- What `$` lets stand at the end: one line feed.
unfoldable pub but_line_feed : List ℕ → List ℕ
but_line_feed [] = []
but_line_feed (c ∷ []) = if c == 10 then [] else c ∷ []
but_line_feed (c ∷ d ∷ cs) = c ∷ but_line_feed (d ∷ cs)

-- [A-Za-z0-9\-_]
abbrev pub is_id_code : ℕ → Bool
is_id_code c =
    leb 65 c && leb c 90
    || (leb 97 c && leb c 122)
    || (leb 48 c && leb c 57)
    || (c == 45 || c == 95)

abbrev pub between : ℕ → ℕ → ℕ → Bool
between lo hi n = leb lo n && leb n hi

unfoldable pub matches_id : String → Bool
unfolding codes but_line_feed
matches_id s =
    let cs = but_line_feed (codes s) in
    between 8 64 (length cs) && not (any (λ c. not (is_id_code c)) cs)

-- `.` is any code point but a line feed.
unfoldable pub matches_name : String → Bool
unfolding codes but_line_feed
matches_name s =
    let cs = but_line_feed (codes s) in between 1 64 (length cs) && not (any (λ c. c == 10) cs)

-- str.isspace of one character
abbrev pub is_space : ℕ → Bool
is_space c =
    between 9 13 c
    || between 28 32 c
    || (c == 133 || c == 160)
    || (c == 5760 || between 8192 8202 c)
    || (c == 8232 || c == 8233)
    || (c == 8239 || c == 8287)
    || c == 12288

unfoldable pub skip_space : List ℕ → List ℕ
skip_space [] = []
skip_space (c ∷ cs) = let rest = skip_space cs in if is_space c then rest else c ∷ cs

unfoldable pub is_prefix : List ℕ → List ℕ → Bool
is_prefix [] ys = true
is_prefix (x ∷ xs) [] = false
is_prefix (x ∷ xs) (y ∷ ys) = x == y && is_prefix xs ys

-- What is stripped behind the text is no part of a match, which is at its start and ends in a hyphen.
unfoldable pub matches_pem : String → Bool
unfolding codes skip_space is_prefix
matches_pem s =
    let cs = skip_space (codes s) in
    is_prefix (codes "-----BEGIN RSA PUBLIC KEY-----") cs
    || is_prefix (codes "-----BEGIN PUBLIC KEY-----") cs

unfoldable pub validate_register : Payload → Result (String × String)
unfolding require matches_id matches_pem
validate_register payload = do
  client_id ← require "client_id" payload
  public_key ← require "public_key" payload
  (if not (matches_id (str client_id))
      then err bad_client_id
      else if not (matches_pem (str public_key))
      then err bad_public_key
      else ok (str client_id, str public_key))

unfoldable pub validate_auth_response : Payload → Result (String × String)
unfolding require
validate_auth_response payload = do
  challenge ← require "challenge" payload
  signature ← require "signature" payload
  ok (str challenge, str signature)

-- DEFAULT_TOPOLOGY is the mesh.
unfoldable pub validate_create_network : Payload → Result (String × String × String)
unfolding require field matches_name
validate_create_network payload = do
  name ← require "name" payload
  password ← require "password" payload
  let topology = str_or topology_mesh (field "topology" payload)
  (if not (matches_name (str name))
      then err bad_name
      else if not (contains topology supported_topologies)
      then err bad_topology
      else ok (str name, str password, topology))

unfoldable pub validate_join_network : Payload → Result (String × String)
unfolding require
validate_join_network payload = do
  network_id ← require "network_id" payload
  password ← require "password" payload
  ok (str network_id, str password)

unfoldable pub validate_network_id : Payload → Result String
unfolding require
validate_network_id payload = require "network_id" payload >>= λ v. ok (str v)

unfoldable pub validate_peer_id : Payload → Result String
unfolding require
validate_peer_id payload = require "peer_id" payload >>= λ v. ok (str v)

unfoldable pub validate_service_id : Payload → Result String
unfolding require
validate_service_id payload = require "service_id" payload >>= λ v. ok (str v)

-- str.lower, as far as a text that becomes "tcp" or "udp" is concerned: no letter outside ASCII does.
unfoldable pub lower_is : List ℕ → List ℕ → Bool
lower_is [] [] = true
lower_is (c ∷ cs) (w ∷ ws) = (c == w || c + 32 == w) && lower_is cs ws
lower_is _ _ = false

unfoldable pub protocol_of : String → Option String
unfolding codes lower_is
protocol_of s =
    if lower_is (codes s) (codes "tcp")
    then some "tcp"
    else if lower_is (codes s) (codes "udp")
    then some "udp"
    else none

-- `isinstance(local_port, int) and 0 < local_port < 65536`
abbrev pub port_of : Value → Option ℕ
port_of (number n s) = if between 1 65535 n then some n else none
port_of _ = none

unfoldable pub validate_expose_service : Payload → Result (String × String × String × ℕ)
unfolding require field protocol_of
validate_expose_service payload = do
  name ← require "name" payload
  let protocol = str_or "tcp" (field "protocol" payload)
  let local_host = str_or "127.0.0.1" (field "local_host" payload)
  (elim (protocol_of protocol) [
    | none ↦ err bad_protocol
    | some p ↦ elim (port_of (field "local_port" payload)) [
      | none ↦ err bad_local_port
      | some port ↦ ok (str name, p, local_host, port)
    ]
  ])
