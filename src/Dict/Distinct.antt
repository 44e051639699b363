-- ===== src/Dict/Distinct.antt =====
-- The operations of `dict` that the sources use, and that they keep the keys apart.
use local_network_ecosystem.Prelude.{
  suc, ◌+◌, ◌≤◌, ◌≡◌, refl, ap, Bool, true, false, Option, none, some, List, [], ◌∷◌, arith, Eq,
  ◌==◌, if◌then◌else◌, length, ◌||◌, Bool-cases, inl, inr,
}

abbrev pub Dict {ℓ κ} : Type ℓ → Type κ → Type (ℓ ⊔ κ)
Dict K V = List (K × V)

module _ {ℓ κ} {K : Type ℓ} {V : Type κ} ⦃e : Eq K⦄ where
  -- d.get(k)
  unfoldable pub get : K → Dict K V → Option V
  get k [] = none
  get k ((j, v) ∷ d) = if j == k then some v else get k d

  -- k in d
  unfoldable pub has : K → Dict K V → Bool
  has k [] = false
  has k ((j, v) ∷ d) = j == k || has k d

  -- d[k] = v: an old key keeps its place, a new one goes last
  unfoldable pub put : K → V → Dict K V → Dict K V
  put k v [] = (k, v) ∷ []
  put k v ((j, w) ∷ d) = let rest = put k v d in if j == k then (j, v) ∷ d else (j, w) ∷ rest

  -- d.pop(k, None), and `del d[k]` where the key is there
  unfoldable pub remove : K → Dict K V → Dict K V
  remove k [] = []
  remove k ((j, w) ∷ d) = let rest = remove k d in if j == k then rest else (j, w) ∷ rest

  -- an update of every value in turn
  unfoldable pub map_values : (V → V) → Dict K V → Dict K V
  map_values f [] = []
  map_values f ((j, w) ∷ d) = (j, f w) ∷ map_values f d

  pub get-put :
      (k j : K) (v : V) (d : Dict K V) → get j (put k v d) ≡ (if k == j then some v else get j d)
  unfolding get put
  get-put k j v [] = refl
  get-put k j v ((i, w) ∷ d) =
      ground (arith, get-put k j v d, e.beq_iff i k, e.beq_iff i j, e.beq_iff k j)

  pub get-remove :
      (k j : K) (d : Dict K V) → get j (remove k d) ≡ (if k == j then none else get j d)
  unfolding get remove
  get-remove k j [] = ground arith
  get-remove k j ((i, w) ∷ d) =
      ground (arith, get-remove k j d, e.beq_iff i k, e.beq_iff i j, e.beq_iff k j)

  pub get-map_values :
      (f : V → V) (j : K) (d : Dict K V)
      → get j (map_values f d) ≡ elim (get j d) [ none ↦ none | some v ↦ some (f v) ]
  unfolding get map_values
  get-map_values f j [] = refl
  get-map_values f j ((i, w) ∷ d) = ground (arith, get-map_values f j d)

  pub has-eq : (k : K) (d : Dict K V) → has k d ≡ elim (get k d) [ none ↦ false | some _ ↦ true ]
  unfolding get has
  has-eq k [] = refl
  has-eq k ((j, v) ∷ d) = ground (arith, has-eq k d)

  -- no key twice
  abbrev pub IsDistinct : Dict K V → Type κ
  IsDistinct [] = Unit
  IsDistinct ((k, v) ∷ d) = (get k d ≡ none) × IsDistinct d

  pub put-IsDistinct : (k : K) (v : V) (d : Dict K V) → IsDistinct d → IsDistinct (put k v d)
  unfolding put get
  put-IsDistinct k v [] h = (refl, tt)
  put-IsDistinct k v ((j, w) ∷ d) h = elim (Bool-cases (j == k)) [
    | inl same ↦ ground arith
    | inr other ↦
        ground (arith, get-put k j v d, e.beq_iff j k, e.beq_iff k j, put-IsDistinct k v d h.1)
  ]

  pub remove-IsDistinct : (k : K) (d : Dict K V) → IsDistinct d → IsDistinct (remove k d)
  unfolding remove get
  remove-IsDistinct k [] h = tt
  remove-IsDistinct k ((j, w) ∷ d) h = ground (arith, get-remove k j d, remove-IsDistinct k d h.1)

  pub map_values-IsDistinct :
      (f : V → V) (d : Dict K V) → IsDistinct d → IsDistinct (map_values f d)
  unfolding map_values get
  map_values-IsDistinct f [] h = tt
  map_values-IsDistinct f ((j, w) ∷ d) h =
      ground (arith, get-map_values f j d, map_values-IsDistinct f d h.1)

  pub length-put :
      (k : K) (v : V) (d : Dict K V)
      → length (put k v d) ≡ (if has k d then length d else length d + 1)
  unfolding put has
  length-put k v [] = omega arith
  length-put k v ((j, w) ∷ d) = ground (arith, length-put k v d)

  pub length-remove-le : (k : K) (d : Dict K V) → length (remove k d) ≤ length d
  unfolding remove
  length-remove-le k [] = omega arith
  length-remove-le k ((j, w) ∷ d) = ground (arith, length-remove-le k d)

  pub remove_absent : (k : K) (d : Dict K V) → get k d ≡ none → remove k d ≡ d
  unfolding remove get
  remove_absent k [] h = refl
  remove_absent k ((j, w) ∷ d) h = ground (arith, remove_absent k d)

  pub length-map_values : (f : V → V) (d : Dict K V) → length (map_values f d) ≡ length d
  unfolding map_values
  length-map_values f [] = refl
  length-map_values f ((j, w) ∷ d) = ap suc (length-map_values f d)

pub ruleset dict_laws = (get-put, get-remove, get-map_values)
