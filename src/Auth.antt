-- ===== src/Auth.antt =====
-- server/auth.py: challenge and response. Bytes are numbers below 256, a hexadecimal text is the list
-- of its character codes. `os.urandom` is the argument `nonce`, `time.time()` the argument `now`.
-- The `cryptography` package is the section's parameter.
pub mod Hex
pub mod Verify
pub mod Guesses
pub mod Expiry
mod Tests
use local_network_ecosystem.Prelude.{
  ℕ, ◌+◌, ◌-◌, ◌<◌, String, Bool, true, false, not, Option, none, some, List, [], ◌∷◌, ltb, leb,
  if◌then◌else◌, length, string_eq,
}
use local_network_ecosystem.Dict
use local_network_ecosystem.Dict.{Dict}
use local_network_ecosystem.Registry
use local_network_ecosystem.Registry.{ClientRecord, ClientRegistry}
use Hex.{hexlify, unhexlify}

-- What the code uses of `cryptography`: `none` is a key that does not load (ValueError, TypeError),
-- `verify` is false where it raises InvalidSignature or ValueError.
pub record Crypto : Type 1 where
  pub Key : Type 0
  pub load_pem_public_key : String → Option Key
  pub is_rsa : Key → Bool
  pub verify : Key → List ℕ → List ℕ → Bool

pub record AuthChallenge : Type 0 where
  pub challenge : List ℕ
  pub client_id : String

pub record PendingAuth : Type 0 where
  pub client_id : String
  pub challenge : List ℕ
  pub created_at : ℕ
  pub attempts : ℕ

pub record AuthSession : Type 0 where
  pub ttl : ℕ
  pub max_attempts : ℕ
  pub pending : Dict String PendingAuth

-- The second half of what `verify` returns, one constructor for each message.
pub data Detail : Type 0 where
  no_pending malformed unknown_client too_many_attempts bad_signature authenticated : Detail

unfoldable pub create_auth_challenge : String → List ℕ → AuthChallenge
create_auth_challenge client_id nonce = record { challenge = hexlify nonce; client_id = client_id }

abbrev pub fresh : ℕ → List ℕ → String → PendingAuth
fresh now nonce client_id = record {
  client_id = client_id;
  challenge = nonce;
  created_at = now;
  attempts = 0;
}

unfoldable pub issue : ℕ → List ℕ → String → AuthSession → AuthSession × AuthChallenge
issue now nonce client_id s = (
  record s { pending = Dict.put client_id (fresh now nonce client_id) s.pending },
  create_auth_challenge client_id nonce,
)

-- `time.time() - pending.created_at > self.ttl`
abbrev pub is_expired : ℕ → ℕ → PendingAuth → Bool
is_expired now ttl p = ltb (p.created_at + ttl) now

unfoldable pub consume : ℕ → String → AuthSession → AuthSession × Option PendingAuth
consume now client_id s =
    let s' = record s { pending = Dict.remove client_id s.pending } in
    elim (Dict.get client_id s.pending) [
      | none ↦ (s, none)
      | some p ↦ if is_expired now s.ttl p then (s', none) else (s', some p)
    ]

-- Drops what `cutoff = now - ttl` leaves behind it: the ids, and the challenges that stay.
unfoldable pub drop_stale : ℕ → ℕ → Dict String PendingAuth → Dict String PendingAuth × List String
drop_stale now ttl [] = ([], [])
drop_stale now ttl ((client_id, p) ∷ d) =
    let (kept, stale) = drop_stale now ttl d in
    if is_expired now ttl p then (kept, client_id ∷ stale) else ((client_id, p) ∷ kept, stale)

unfoldable pub expire_stale : ℕ → AuthSession → AuthSession × List String
unfolding drop_stale
expire_stale now s =
    let (kept, stale) = drop_stale now s.ttl s.pending in (record s { pending = kept }, stale)

unfoldable pub pending_count : AuthSession → ℕ
pending_count s = length s.pending

module _ (crypto : Crypto) where
  unfoldable pub verify_auth_response : String → List ℕ → List ℕ → Bool
  verify_auth_response public_key_pem challenge signature =
      elim (crypto.load_pem_public_key public_key_pem) [
        | none ↦ false
        | some key ↦ if crypto.is_rsa key then crypto.verify key signature challenge else false
      ]

  -- `verify` once there is a challenge and the signature is read: the record and the attempts.
  unfoldable pub check :
      String
      → PendingAuth
      → List ℕ
      → Option ClientRecord
      → AuthSession
      → AuthSession × Bool × Detail
  check client_id p signature none s = (s, false, unknown_client)
  check client_id p signature (some r) s =
      if verify_auth_response r.public_key_pem p.challenge signature
      then (s, true, authenticated)
      else let p' = record p { attempts = p.attempts + 1 } in
        if leb s.max_attempts p'.attempts
        then (s, false, too_many_attempts)
        else (record s { pending = Dict.put client_id p' s.pending }, false, bad_signature)

  -- `challenge_hex` is not read, as in the source.
  unfoldable pub verify :
      ℕ → ClientRegistry → String → List ℕ → List ℕ → AuthSession → AuthSession × Bool × Detail
  unfolding consume check
  verify now reg client_id challenge_hex signature_hex s =
      let (s', found) = consume now client_id s in
      elim found [
        | none ↦ (s', false, no_pending)
        | some p ↦ elim (unhexlify signature_hex) [
          | none ↦ (s', false, malformed)
          | some signature ↦ check client_id p signature (Registry.get reg client_id) s'
        ]
      ]
