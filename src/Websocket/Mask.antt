-- ===== src/Websocket/Mask.antt =====
-- A mask laid on twice is off again.
use Prim.Native.Nat.{bit_xor}
use local_network_ecosystem.Prelude.{
  ℕ, zero, suc, ◌+◌, ◌%◌, ◌<◌, ◌≡◌, refl, Bool, true, ◌&&◌, none, some, List, [], ◌∷◌, arith,
  length, All, get_elem?, nat_eq, nat_beq_iff, nat_beq,
}
use local_network_ecosystem.Websocket.{unmask, key_byte}

unfoldable all_below : ℕ → (ℕ → Bool) → Bool
all_below zero p = true
all_below (suc n) p = p n && all_below n p

of_all_below : (n : ℕ) (p : ℕ → Bool) (x : ℕ) → all_below n p ≡ true → x < n → p x ≡ true
unfolding all_below
of_all_below zero p x h lt = absurd (omega arith)
of_all_below (suc n) p x h lt = ground (arith, of_all_below n p x)

table : all_below 256 (λ a. all_below 256 (λ b. nat_beq (bit_xor (bit_xor a b) b) a)) ≡ true
unfolding all_below
table = refl

xor_twice : (a b : ℕ) → a < 256 → b < 256 → bit_xor (bit_xor a b) b ≡ a
xor_twice a b p q =
    (nat_beq_iff (bit_xor (bit_xor a b) b) a).0
      (of_all_below 256 _ b (of_all_below 256 _ a table p) q)

-- A byte.
abbrev pub IsByte : ℕ → Type 0
IsByte b = b < 256

key_byte-IsByte : (key : List ℕ) (i : ℕ) → All IsByte key → key_byte key i < 256
unfolding key_byte
key_byte-IsByte key i h = go key (i % 4) h
  where
    go :
        (key : List ℕ) (j : ℕ)
        → All IsByte key
        → elim (get_elem? key j) [ none ↦ 0 | some k ↦ k ] < 256
    go [] j h = omega arith
    go (k ∷ ks) zero h = h.0
    go (k ∷ ks) (suc j) h = go ks j h.1

pub length-unmask : (key : List ℕ) (i : ℕ) (bs : List ℕ) → length (unmask key i bs) ≡ length bs
unfolding unmask
length-unmask key i [] = refl
length-unmask key i (b ∷ bs) = omega (arith, length-unmask key (i + 1) bs)

-- Laid on twice with the same key, a mask gives the bytes back.
pub unmask-unmask :
    (key : List ℕ) (i : ℕ) (bs : List ℕ)
    → All IsByte key
    → All IsByte bs
    → unmask key i (unmask key i bs) ≡ bs
unfolding unmask
unmask-unmask key i [] hk h = refl
unmask-unmask key i (b ∷ bs) hk h =
    rw
      (
        xor_twice b (key_byte key i) h.0 (key_byte-IsByte key i hk),
        unmask-unmask key (i + 1) bs hk h.1,
      )
      refl
