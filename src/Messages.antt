-- ===== src/Messages.antt =====
-- common/messages.py: control messages, as JSON behind a length of four bytes. The `json` module is
-- the section's parameter.
pub mod Stream
mod Tests
use local_network_ecosystem.Prelude.{
  ℕ, ◌+◌, ◌*◌, ◌/◌, ◌%◌, ◌^◌, String, Bool, true, false, Option, none, some, List, [], ◌∷◌, ◌++◌,
  ltb, if◌then◌else◌, length, take, drop,
}

abbrev pub max_message_size : ℕ
max_message_size = 1048576

abbrev pub length_prefix_size : ℕ
length_prefix_size = 4

-- What the code uses of `json`: a payload is a dict. `loads` is `none` for bytes that are no JSON object
-- in UTF-8; `get_type` is the object's "type", if it is a str, and `get_payload` its "payload", if it is
-- a dict.
pub record Json : Type 1 where
  pub Object : Type 0
  pub Payload : Type 0
  pub no_payload : Payload
  pub dumps : String → Payload → List ℕ
  pub loads : List ℕ → Option Object
  pub get_type : Object → Option String
  pub get_payload : Object → Option Payload

pub data Error : Type 0 where
  message_too_large value_error : Error

pub data Result {ℓ} (A : Type ℓ) : Type ℓ where
  ok : A → Result A
  err : Error → Result A

-- LENGTH_PREFIX.pack and unpack_from
unfoldable pub pack_length : ℕ → List ℕ
pack_length n = (n / 2 ^ 24) ∷ (n / 2 ^ 16 % 2 ^ 8) ∷ (n / 2 ^ 8 % 2 ^ 8) ∷ (n % 2 ^ 8) ∷ []

unfoldable pub unpack_length : List ℕ → Option ℕ
unpack_length (a ∷ b ∷ c ∷ d ∷ rest) = some (a * 2 ^ 24 + b * 2 ^ 16 + c * 2 ^ 8 + d)
unpack_length _ = none

module _ (json : Json) where
  pub record Message : Type 0 where
    pub type : String
    pub payload : json.Payload

  unfoldable pub serialize : Message → Result (List ℕ)
  unfolding pack_length
  serialize msg =
      let bytes = json.dumps msg.type msg.payload in
      if ltb max_message_size (length bytes)
      then err message_too_large
      else ok (pack_length (length bytes) ++ bytes)

  abbrev pub or_no_payload : Option json.Payload → json.Payload
  or_no_payload none = json.no_payload
  or_no_payload (some p) = p

  -- `deserialize` once the JSON is read.
  unfoldable pub message_of : json.Object → Result Message
  message_of body = elim (json.get_type body) [
    | none ↦ err value_error
    | some type ↦ ok (record { type = type; payload = or_no_payload (json.get_payload body) })
  ]

  unfoldable pub deserialize : List ℕ → Result Message
  unfolding unpack_length message_of
  deserialize wire = elim (unpack_length wire) [
    | none ↦ err value_error
    | some n ↦
        if ltb max_message_size n
        then err message_too_large
        else if ltb (length wire) (length_prefix_size + n)
        then err value_error
        else elim (json.loads (take n (drop length_prefix_size wire))) [
          | none ↦ err value_error
          | some body ↦ message_of body
        ]
  ]

  unfoldable pub msg_size : List ℕ → Result ℕ
  unfolding unpack_length
  msg_size wire = elim (unpack_length wire) [ none ↦ err value_error | some n ↦ ok n ]

  -- A message and the bytes behind it, or none and all bytes.
  unfoldable pub parse_stream : List ℕ → Result (Option Message × List ℕ)
  unfolding unpack_length deserialize
  parse_stream wire = elim (unpack_length wire) [
    | none ↦ ok (none, wire)
    | some n ↦
        let total = length_prefix_size + n in
        if ltb max_message_size n
        then err message_too_large
        else if ltb (length wire) total
        then ok (none, wire)
        else elim (deserialize (take total wire)) [
          | ok msg ↦ ok (some msg, drop total wire)
          | err e ↦ err e
        ]
  ]
