-- ===== src/Protocol/Fields.antt =====
-- What the fields of an accepted payload are.
use local_network_ecosystem.Prelude.{
  ℕ, ◌≤◌, ◌≡◌, ◌⊎◌, String, true, false, not, arith, if◌then◌else◌, string_eq, Bool-cases, inl, inr,
  contains, length, any,
}
use local_network_ecosystem.Networks.{supported_topologies}
use local_network_ecosystem.Protocol.{
  Payload, Value, Result, ok, err, require, str, codes, but_line_feed, is_id_code, matches_id,
  matches_name, matches_pem, protocol_of, validate_register, validate_create_network, ◌>>=◌,
  bad_client_id, bad_public_key, validate_expose_service,
}

-- An accepted service has the protocol tcp or udp, in lower case, and a port of 1 to 65535.
pub validate_expose_service-bounds :
    (payload : Payload) (name protocol host : String) (port : ℕ)
    → validate_expose_service payload ≡ ok (name, protocol, host, port)
    → ((protocol ≡ "tcp") ⊎ (protocol ≡ "udp")) × (1 ≤ port) × (port ≤ 65535)
unfolding validate_expose_service protocol_of
validate_expose_service-bounds payload name protocol host port h = ground arith

matches_id-codes :
    (k : String)
    → matches_id k ≡ true
    → let cs = but_line_feed (codes k) in
      (8 ≤ length cs) × (length cs ≤ 64) × (any (λ c. not (is_id_code c)) cs ≡ false)
unfolding matches_id
matches_id-codes k h = ground arith

matched :
    (payload : Payload) (k pem : String)
    → validate_register payload ≡ ok (k, pem)
    → (matches_id k ≡ true) × (matches_pem pem ≡ true)
unfolding validate_register
matched payload k pem h = go (require "client_id" payload) (require "public_key" payload) h
  where
    check : Value → Value → Result (String × String)
    check a b =
        if not (matches_id (str a))
        then err bad_client_id
        else if not (matches_pem (str b))
        then err bad_public_key
        else ok (str a, str b)

    go :
        (v w : Result Value)
        → (v >>= λ a. w >>= λ b. check a b) ≡ ok (k, pem)
        → (matches_id k ≡ true) × (matches_pem pem ≡ true)
    go (ok a) (ok b) e = elim (Bool-cases (matches_id (str a))) [
      | inl named ↦ elim (Bool-cases (matches_pem (str b))) [
        | inl armoured ↦
            let same : ok (str a, str b) ≡ ok (k, pem) = rw (named, armoured) at e in
            let ids : str a ≡ k = cc same in
            let keys : str b ≡ pem = cc same in (rw (← ids) named, rw (← keys) armoured)
        | inr not_armoured ↦
            let no : err bad_public_key ≡ ok (k, pem) = rw (named, not_armoured) at e in
            absurd (cc no)
      ]
      | inr not_named ↦
          let no : err bad_client_id ≡ ok (k, pem) = rw not_named at e in absurd (cc no)
    ]
    go (ok a) (err x) e = absurd (cc e)
    go (err x) w e = absurd (cc e)

-- A registration is accepted only when the id is 8 to 64 letters, digits, hyphens or underscores, with at
-- most one line feed behind them, and the key starts as a PEM does.
pub validate_register-ok :
    (payload : Payload) (k pem : String)
    → validate_register payload ≡ ok (k, pem)
    → let cs = but_line_feed (codes k) in
      (8 ≤ length cs)
      × (length cs ≤ 64)
      × (any (λ c. not (is_id_code c)) cs ≡ false)
      × (matches_pem pem ≡ true)
validate_register-ok payload k pem h =
    let (id, key) = matched payload k pem h in
    let (least, most, plain) = matches_id-codes k id in (least, most, plain, key)

-- An accepted network has one of the supported topologies.
pub validate_create_network-supported :
    (payload : Payload) (name password topology : String)
    → validate_create_network payload ≡ ok (name, password, topology)
    → (contains topology supported_topologies ≡ true) × (matches_name name ≡ true)
unfolding validate_create_network
validate_create_network-supported payload name password topology h = ground arith
