-- ===== src/Encryption/RoundTrip.antt =====
-- What is encrypted is decrypted again.
use local_network_ecosystem.Prelude.{
  ℕ, ◌+◌, ◌-◌, ◌≡◌, false, some, List, ◌++◌, arith, ltb, length, take, length-append, take-append,
  drop-append, take-append-drop, length-drop, length-take_of_le,
}
use local_network_ecosystem.Encryption.{Primitives, encrypt, decrypt, tag_length}

-- A ciphertext is decrypted to its plaintext under its key, where the package opens what it has sealed, to
-- at least a tag, and the nonce has 12 bytes.
pub decrypt-encrypt :
    (lib : Primitives) (key nonce plaintext : List ℕ)
    → length nonce ≡ 12
    → lib.open_sealed key nonce (lib.seal key nonce plaintext) ≡ some plaintext
    → let (ciphertext, tag) = encrypt lib key nonce plaintext in
      decrypt lib key ciphertext tag ≡ some plaintext
unfolding encrypt decrypt
decrypt-encrypt lib key nonce plaintext twelve opens =
    let sealed = lib.seal key nonce plaintext in
    let cut = length sealed - tag_length in
    let long : ltb (length (nonce ++ take cut sealed)) 12 ≡ false =
      ground (arith, length-append nonce (take cut sealed)) in
    rw
      (
        long,
        take-append 12 nonce (take cut sealed) twelve,
        drop-append 12 nonce (take cut sealed) twelve,
        take-append-drop cut sealed,
      )
      opens

-- A sealed text is as long as its plaintext and a tag; the parts of an encryption then have 12 bytes more
-- than the plaintext, and 16.
pub encrypt-length :
    (lib : Primitives) (key nonce plaintext : List ℕ)
    → length nonce ≡ 12
    → length (lib.seal key nonce plaintext) ≡ length plaintext + 16
    → let (ciphertext, tag) = encrypt lib key nonce plaintext in
      (length ciphertext ≡ length plaintext + 12) × (length tag ≡ 16)
unfolding encrypt
encrypt-length lib key nonce plaintext twelve whole =
    let sealed = lib.seal key nonce plaintext in
    let cut = length sealed - tag_length in
    (
      omega (
        arith,
        length-append nonce (take cut sealed),
        length-take_of_le cut sealed (omega arith),
      ),
      omega (arith, length-drop cut sealed),
    )
