-- ===== src/Prelude/Lists.antt =====
-- Lists measured by native numbers, and lists that are kept as Python sets.
use Prim.Native.Nat.{ℕ, zero, suc, ◌+◌, ◌-◌, ◌≤◌}
use mathlib.Core.Path.{◌≡◌, refl, ap, sym, ◌∙◌}
use mathlib.Core.Logic.{inl, inr}
use mathlib.Core.Bool.{Bool, true, false, false≢true, ◌&&◌, ◌||◌}
use mathlib.Core.List.{List, [], ◌∷◌, ◌++◌}
use mathlib.Core.Option.{Option, none, some}
use native.Mathlib.Omega.{arith}
use native.Mathlib.Nat.{zero-add, add-zero, suc-add}
use local_network_ecosystem.Prelude.Tests.{Eq, ◌==◌, if◌then◌else◌, Bool-cases}

module _ {ℓ} {A : Type ℓ} where
  abbrev pub length : List A → ℕ
  length [] = 0
  length (x ∷ xs) = suc (length xs)

  abbrev pub get_elem? : List A → ℕ → Option A
  get_elem? [] i = none
  get_elem? (x ∷ xs) zero = some x
  get_elem? (x ∷ xs) (suc i) = get_elem? xs i

  abbrev pub take : ℕ → List A → List A
  take zero xs = []
  take (suc n) [] = []
  take (suc n) (x ∷ xs) = x ∷ take n xs

  abbrev pub drop : ℕ → List A → List A
  drop zero xs = xs
  drop (suc n) [] = []
  drop (suc n) (x ∷ xs) = drop n xs

  abbrev pub replicate : ℕ → A → List A
  replicate zero a = []
  replicate (suc n) a = a ∷ replicate n a

  -- `[x for x in xs if p(x)]`
  abbrev pub filter : (A → Bool) → List A → List A
  filter p [] = []
  filter p (x ∷ xs) = if p x then x ∷ filter p xs else filter p xs

  abbrev pub any : (A → Bool) → List A → Bool
  any p [] = false
  any p (x ∷ xs) = p x || any p xs

  abbrev pub All {κ} : (A → Type κ) → List A → Type κ
  All P [] = Unit
  All P (x ∷ xs) = P x × All P xs

module _ {ℓ} {A : Type ℓ} where
  pub length-append : (xs ys : List A) → length (xs ++ ys) ≡ length xs + length ys
  length-append [] ys = omega arith
  length-append (x ∷ xs) ys = omega (arith, length-append xs ys)

  pub length-replicate : (n : ℕ) (a : A) → length (replicate n a) ≡ n
  length-replicate zero a = refl
  length-replicate (suc n) a = ap suc (length-replicate n a)

  pub take-append : (n : ℕ) (xs ys : List A) → length xs ≡ n → take n (xs ++ ys) ≡ xs
  take-append zero [] ys h = refl
  take-append zero (x ∷ xs) ys h = absurd (omega arith)
  take-append (suc n) [] ys h = absurd (omega arith)
  take-append (suc n) (x ∷ xs) ys h = ap (◌∷◌ x) (take-append n xs ys (omega arith))

  pub drop-append : (n : ℕ) (xs ys : List A) → length xs ≡ n → drop n (xs ++ ys) ≡ ys
  drop-append zero [] ys h = refl
  drop-append zero (x ∷ xs) ys h = absurd (omega arith)
  drop-append (suc n) [] ys h = absurd (omega arith)
  drop-append (suc n) (x ∷ xs) ys h = drop-append n xs ys (omega arith)

  pub length-take_of_le : (n : ℕ) (xs : List A) → n ≤ length xs → length (take n xs) ≡ n
  length-take_of_le zero xs h = refl
  length-take_of_le (suc n) [] h = absurd (omega arith)
  length-take_of_le (suc n) (x ∷ xs) h = ap suc (length-take_of_le n xs (omega arith))

  pub length-drop : (n : ℕ) (xs : List A) → length (drop n xs) ≡ length xs - n
  length-drop zero xs = omega arith
  length-drop (suc n) [] = omega arith
  length-drop (suc n) (x ∷ xs) = omega (arith, length-drop n xs)

  pub take-append-drop : (n : ℕ) (xs : List A) → take n xs ++ drop n xs ≡ xs
  take-append-drop zero xs = refl
  take-append-drop (suc n) [] = refl
  take-append-drop (suc n) (x ∷ xs) = ap (◌∷◌ x) (take-append-drop n xs)

  pub take-add : (m n : ℕ) (xs : List A) → take m xs ++ take n (drop m xs) ≡ take (m + n) xs
  take-add zero n xs = rw zero-add
  take-add (suc m) zero [] = rw add-zero
  take-add (suc m) (suc n) [] = rw suc-add
  take-add (suc m) n (x ∷ xs) = rw suc-add (ap (◌∷◌ x) (take-add m n xs))

  pub length-filter-le : (p : A → Bool) (xs : List A) → length (filter p xs) ≤ length xs
  length-filter-le p [] = omega arith
  length-filter-le p (x ∷ xs) = ground (arith, length-filter-le p xs)

  pub All-append {κ} : (P : A → Type κ) (xs ys : List A) → All P xs → All P ys → All P (xs ++ ys)
  All-append P [] right h k = k
  All-append P (x ∷ left) right (p, h) k = (p, All-append P left right h k)

  pub All-weaken {κ ι} :
      {P : A → Type κ} {Q : A → Type ι} (xs : List A) → ((x : A) → P x → Q x) → All P xs → All Q xs
  All-weaken [] f h = tt
  All-weaken (x ∷ xs) f h = (f x h.0, All-weaken xs f h.1)

  pub All-of-filter {κ} :
      (P : A → Type κ) (p : A → Bool) (xs : List A)
      → All P (filter p xs)
      → All (λ x. p x ≡ true → P x) xs
  All-of-filter P p [] h = tt
  All-of-filter P p (x ∷ xs) h = elim (Bool-cases (p x)) [
    | inl holds ↦
        let h' : P x × All P (filter p xs) = rw holds at h in (λ _. h'.0, All-of-filter P p xs h'.1)
    | inr out ↦ (λ holds. absurd (false≢true (sym out ∙ holds)), All-of-filter P p xs (rw out at h))
  ]

  pub All-filter {κ} :
      (P : A → Type κ) (p : A → Bool) (xs : List A)
      → All P xs
      → All (λ x. P x × (p x ≡ true)) (filter p xs)
  All-filter P p [] h = tt
  All-filter P p (x ∷ xs) h = elim (Bool-cases (p x)) [
    | inl holds ↦ rw holds ((h.0, holds), All-filter P p xs h.1)
    | inr out ↦ rw out (All-filter P p xs h.1)
  ]

-- A Python set as a list; `set_add` keeps one copy.
module _ {ℓ} {A : Type ℓ} ⦃e : Eq A⦄ where
  unfoldable pub contains : A → List A → Bool
  contains a [] = false
  contains a (x ∷ xs) = x == a || contains a xs

  -- s.add(a)
  unfoldable pub set_add : A → List A → List A
  set_add a [] = a ∷ []
  set_add a (x ∷ xs) = let rest = set_add a xs in if x == a then x ∷ xs else x ∷ rest

  -- s.discard(a)
  unfoldable pub discard : A → List A → List A
  discard a [] = []
  discard a (x ∷ xs) = let rest = discard a xs in if x == a then rest else x ∷ rest

  pub contains-set_add :
      (a b : A) (s : List A) → contains b (set_add a s) ≡ (if a == b then true else contains b s)
  unfolding contains set_add
  contains-set_add a b [] = ground arith
  contains-set_add a b (x ∷ s) =
      ground (arith, contains-set_add a b s, e.beq_iff x a, e.beq_iff x b, e.beq_iff a b)

  pub contains-discard :
      (a b : A) (s : List A) → contains b (discard a s) ≡ (if a == b then false else contains b s)
  unfolding contains discard
  contains-discard a b [] = ground arith
  contains-discard a b (x ∷ s) =
      ground (arith, contains-discard a b s, e.beq_iff x a, e.beq_iff x b, e.beq_iff a b)

  pub contains-filter :
      (p : A → Bool) (a : A) (xs : List A) → contains a (filter p xs) ≡ (contains a xs && p a)
  unfolding contains
  contains-filter p a [] = refl
  contains-filter p a (x ∷ xs) = elim (Bool-cases (x == a)) [
    | inl same ↦
        let e : x ≡ a = (e.beq_iff x a).0 same in
        ground (arith, contains-filter p a xs, same, ap p e)
    | inr other ↦ ground (arith, contains-filter p a xs, other)
  ]
