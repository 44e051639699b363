-- ===== src/Encryption.antt =====
-- client/encryption.py: the key agreement and the cipher of a tunnel. X25519, HKDF and AES-GCM of the
-- `cryptography` package are the parameter `Primitives`; `os.urandom` is the argument `nonce`. None is an
-- EncryptionError.
pub mod RoundTrip
use local_network_ecosystem.Prelude.{
  ℕ, ◌-◌, Bool, true, false, not, Option, none, some, List, [], ◌∷◌, ◌++◌, ltb, if◌then◌else◌,
  length, take, drop, nat_eq, ◌==◌,
}

pub record Primitives : Type 0 where
  -- of a private key
  pub public_bytes : List ℕ → List ℕ
  -- of a private and a public key; none where the package raises ValueError
  pub exchange : List ℕ → List ℕ → Option (List ℕ)
  -- HKDF with SHA-256 to 32 bytes
  pub hkdf : List ℕ → List ℕ
  -- AESGCM(key).encrypt(nonce, data, b""), and `decrypt`: none where it raises InvalidTag
  pub seal : List ℕ → List ℕ → List ℕ → List ℕ
  pub open_sealed : List ℕ → List ℕ → List ℕ → Option (List ℕ)

abbrev pub session_key_length : ℕ
session_key_length = 32

abbrev pub nonce_length : ℕ
nonce_length = 12

abbrev pub tag_length : ℕ
tag_length = 16

-- A CipherContext is its key.
unfoldable pub cipher_context : List ℕ → Option (List ℕ)
cipher_context session_key =
    if not (length session_key == session_key_length) then none else some session_key

module _ (lib : Primitives) where
  unfoldable pub derive_session_key_from_bytes : List ℕ → List ℕ → Option (List ℕ)
  derive_session_key_from_bytes our_private peer_public_bytes =
      if not (length peer_public_bytes == 32)
      then none
      else elim (lib.exchange our_private peer_public_bytes) [
        | none ↦ none
        | some secret ↦ some (lib.hkdf secret)
      ]

  unfoldable pub encrypt : List ℕ → List ℕ → List ℕ → List ℕ × List ℕ
  encrypt key nonce plaintext =
      let sealed = lib.seal key nonce plaintext in
      let cut = length sealed - tag_length in (nonce ++ take cut sealed, drop cut sealed)

  unfoldable pub decrypt : List ℕ → List ℕ → List ℕ → Option (List ℕ)
  decrypt key ciphertext tag =
      if ltb (length ciphertext) nonce_length
      then none
      else lib.open_sealed key (take nonce_length ciphertext) (drop nonce_length ciphertext ++ tag)

  unfoldable pub encrypt_full : List ℕ → List ℕ → List ℕ → List ℕ
  unfolding encrypt
  encrypt_full key nonce plaintext =
      let (ciphertext, tag) = encrypt key nonce plaintext in ciphertext ++ tag
