-- ===== src/Balancer/RoundRobin.antt =====
-- The weighted round robin.
use local_network_ecosystem.Prelude.{
  ℕ, zero, suc, ◌+◌, ◌-◌, ◌%◌, ◌≤◌, ◌<◌, ◌≡◌, ◌≢◌, refl, ap, sym, ◌∙◌, some, List, [], ◌∷◌, arith,
  length, get_elem?, drop, map, subst, Bool, true, false, filter, replicate, ◌++◌, length-append,
  length-replicate, Bool-cases, inl, inr, not, ◌&&◌,
}
use native.Mathlib.Nat.{mod-eq_of_lt, mod_self}
use local_network_ecosystem.Balancer.{
  UpstreamServer, Selection, chosen, available, or_else, weighted, pick, round_robin,
}

-- As many selections over the same servers, from an index.
unfoldable pub rounds : ℕ → List UpstreamServer → ℕ → ℕ × List Selection
rounds zero servers index = (index, [])
rounds (suc n) servers index =
    let (index', result) = round_robin servers index in
    let (last, results) = rounds n servers index' in (last, result ∷ results)

get_elem?-drop {ℓ} :
    {A : Type ℓ} (xs : List A) (i : ℕ)
    → i < length xs
    → (x : A) × (get_elem? xs i ≡ some x) × (drop i xs ≡ x ∷ drop (suc i) xs)
get_elem?-drop [] i h = absurd (omega arith)
get_elem?-drop (x ∷ xs) zero h = (x, refl, refl)
get_elem?-drop (x ∷ xs) (suc i) h = get_elem?-drop xs i (omega arith)

round_robin-pick :
    (servers : List UpstreamServer) (index : ℕ)
    → available servers ≢ []
    → round_robin servers index ≡ pick (weighted (available servers)) index
unfolding round_robin
round_robin-pick servers index h = ground arith

-- An index in range picks its entry and moves on, back to the start behind the last.
pick_next :
    (ws : List UpstreamServer) (i : ℕ)
    → i < length ws
    → (s : UpstreamServer) × (pick ws i ≡ ((i + 1) % length ws, chosen s))
      × (drop i ws ≡ s ∷ drop (suc i) ws)
unfolding pick
pick_next ws i h = let (s, at_i, e) = get_elem?-drop ws i h in (s, ground arith, e)

drop_all {ℓ} : {A : Type ℓ} (n : ℕ) (xs : List A) → length xs ≤ n → drop n xs ≡ []
drop_all zero [] h = refl
drop_all zero (x ∷ xs) h = absurd (omega arith)
drop_all (suc n) [] h = refl
drop_all (suc n) (x ∷ xs) h = drop_all n xs (omega arith)

rounds_step :
    (n : ℕ) (servers : List UpstreamServer) (i : ℕ) {i' j : ℕ} {result : Selection}
    {results : List Selection}
    → round_robin servers i ≡ (i', result)
    → rounds n servers i' ≡ (j, results)
    → rounds (suc n) servers i ≡ (j, result ∷ results)
unfolding rounds
rounds_step n servers i e f = ground arith

some_available :
    (servers : List UpstreamServer)
    → 0 < length (weighted (available servers))
    → available servers ≢ []
unfolding weighted
some_available servers h e = absurd (ground arith)

rounds-drop :
    (n : ℕ) (servers : List UpstreamServer) (i : ℕ)
    → available servers ≢ []
    → i + suc n ≡ length (weighted (available servers))
    → rounds (suc n) servers i ≡ (0, map chosen (drop i (weighted (available servers))))
unfolding rounds
rounds-drop zero servers i h e =
    let ws = weighted (available servers) in
    let (s, picked, tail) = pick_next ws i (omega arith) in
    let end : drop (suc i) ws ≡ [] = drop_all (suc i) ws (omega arith) in
    let wrap : (i + 1) % length ws ≡ 0 =
      ap (λ k. k % length ws) (omega arith) ∙ mod_self (length ws) in
    ground (arith, round_robin-pick servers i h, picked, tail, end, wrap)
rounds-drop (suc n) servers i h e =
    let ws = weighted (available servers) in
    let (s, picked, tail) = pick_next ws i (omega arith) in
    let onward : (i + 1) % length ws ≡ suc i = mod-eq_of_lt (omega arith) ∙ omega arith in
    let later = rounds-drop n servers (suc i) h (omega arith) in
    let here : round_robin servers i ≡ (suc i, chosen s) =
      round_robin-pick servers i h ∙ picked ∙ ap (λ j. (j, chosen s)) onward in
    rounds_step (suc n) servers i here later ∙ ap (λ l. (0, map chosen l)) (sym tail)

rounds-weighted :
    (servers : List UpstreamServer)
    → 0 < length (weighted (available servers))
    → let ws = weighted (available servers) in rounds (length ws) servers 0 ≡ (0, map chosen ws)
rounds-weighted servers h =
    let ws = weighted (available servers) in
    let e : length ws ≡ suc (length ws - 1) = omega arith in
    rw e (rounds-drop (length ws - 1) servers 0 (some_available servers h) (omega arith))

-- The servers of the list that are P, in its order.
pub data IsKept (P : UpstreamServer → Type 0)
    : List UpstreamServer → List UpstreamServer → Type 0 where
  end : IsKept P [] []
  kept :
      (s : UpstreamServer) {xs ys : List UpstreamServer}
      → P s
      → IsKept P xs ys
      → IsKept P (s ∷ xs) (s ∷ ys)
  passed_over :
      (s : UpstreamServer) {xs ys : List UpstreamServer}
      → (P s → ⊥)
      → IsKept P xs ys
      → IsKept P (s ∷ xs) ys

abbrev pub IsPrimary : UpstreamServer → Type 0
IsPrimary s = (s.down ≡ false) × (s.backup ≡ false)

abbrev pub IsSpare : UpstreamServer → Type 0
IsSpare s = (s.down ≡ false) × (s.backup ≡ true)

-- Those that serve: the servers that are up and no backup, or, if there is none, the backups that are up.
pub data IsServing (servers : List UpstreamServer) : List UpstreamServer → Type 0 where
  primaries :
      {ups : List UpstreamServer} → IsKept IsPrimary servers ups → ups ≢ [] → IsServing servers ups
  spares :
      {ups : List UpstreamServer}
      → IsKept IsPrimary servers []
      → IsKept IsSpare servers ups
      → IsServing servers ups

kept-filter :
    (P : UpstreamServer → Type 0) (p : UpstreamServer → Bool)
    → ((s : UpstreamServer) → P s → p s ≡ true)
    → ((s : UpstreamServer) → (P s → ⊥) → p s ≡ false)
    → {xs ys : List UpstreamServer} → IsKept P xs ys
    → filter p xs ≡ ys
kept-filter P p on off end = refl
kept-filter P p on off (kept s h k) = rw (on s h) (ap (λ l. s ∷ l) (kept-filter P p on off k))
kept-filter P p on off (passed_over s h k) = rw (off s h) (kept-filter P p on off k)

kept_primaries :
    {servers ups : List UpstreamServer}
    → IsKept IsPrimary servers ups
    → filter (λ s. not s.down && not s.backup) servers ≡ ups
kept_primaries k =
    kept-filter IsPrimary (λ s. not s.down && not s.backup) (λ s h. ground arith)
      (λ s h. elim (Bool-cases s.down) [
        | inl down ↦ ground arith
        | inr up ↦ elim (Bool-cases s.backup) [
          | inl spare ↦ ground arith
          | inr primary ↦ absurd (h (up, primary))
        ]
      ])
      k

kept_spares :
    {servers ups : List UpstreamServer}
    → IsKept IsSpare servers ups
    → filter (λ s. s.backup && not s.down) servers ≡ ups
kept_spares k =
    kept-filter IsSpare (λ s. s.backup && not s.down) (λ s h. ground arith)
      (λ s h. elim (Bool-cases s.down) [
        | inl down ↦ ground arith
        | inr up ↦ elim (Bool-cases s.backup) [
          | inl spare ↦ absurd (h (up, spare))
          | inr primary ↦ ground arith
        ]
      ])
      k

or_else-some : (xs ys : List UpstreamServer) → xs ≢ [] → or_else xs ys ≡ xs
or_else-some [] ys h = absurd (h refl)
or_else-some (x ∷ xs) ys h = refl

IsServing-available :
    {servers ups : List UpstreamServer} → IsServing servers ups → available servers ≡ ups
unfolding available
IsServing-available {servers} {ups} (primaries k some_up) =
    let spare = filter (λ s. s.backup && not s.down) servers in
    ap (λ l. or_else l spare) (kept_primaries k) ∙ or_else-some ups spare some_up
IsServing-available {servers} (spares k l) =
    ap (λ xs. or_else xs (filter (λ s. s.backup && not s.down) servers)) (kept_primaries k)
    ∙ kept_spares l

-- The choices of these servers one after the other, each as often in a row as its weight.
pub data IsShare : List UpstreamServer → List Selection → Type 0 where
  none_left : IsShare [] []
  share :
      (s : UpstreamServer) {ups : List UpstreamServer} {results : List Selection}
      → IsShare ups results
      → IsShare (s ∷ ups) (replicate s.weight (chosen s) ++ results)

unfoldable pub weight_sum : List UpstreamServer → ℕ
weight_sum [] = 0
weight_sum (s ∷ ups) = s.weight + weight_sum ups

length-weighted : (ups : List UpstreamServer) → length (weighted ups) ≡ weight_sum ups
unfolding weighted weight_sum
length-weighted [] = refl
length-weighted (s ∷ ups) = omega (
  arith,
  length-append (replicate s.weight s) (weighted ups),
  length-replicate s.weight s,
  length-weighted ups,
)

map-block :
    (n : ℕ) (s : UpstreamServer) (ws : List UpstreamServer)
    → map chosen (replicate n s ++ ws) ≡ replicate n (chosen s) ++ map chosen ws
map-block zero s ws = refl
map-block (suc n) s ws = ap (λ l. chosen s ∷ l) (map-block n s ws)

weighted-IsShare : (ups : List UpstreamServer) → IsShare ups (map chosen (weighted ups))
unfolding weighted
weighted-IsShare [] = none_left
weighted-IsShare (s ∷ ups) =
    subst (IsShare (s ∷ ups)) (sym (map-block s.weight s (weighted ups)))
      (share s (weighted-IsShare ups))

-- From the start, as many selections as the weights of the serving servers add up to, which is not 0, choose
-- each of them as often as its weight, in the order of the list, and end at the start. Serving are the servers
-- that are up and no backup, or the backups that are up if there is none.
pub rounds_fair :
    (servers ups : List UpstreamServer)
    → IsServing servers ups
    → 0 < weight_sum ups
    → let (index, results) = rounds (weight_sum ups) servers 0 in (index ≡ 0) × IsShare ups results
rounds_fair servers ups serving h =
    let e = IsServing-available serving in
    let size : length (weighted (available servers)) ≡ weight_sum ups =
      ap (λ l. length (weighted l)) e ∙ length-weighted ups in
    let whole : rounds (weight_sum ups) servers 0 ≡ (0, map chosen (weighted ups)) =
      ap (λ n. rounds n servers 0) (sym size)
      ∙ rounds-weighted servers (omega (arith, size))
      ∙ ap (λ l. (0, map chosen (weighted l))) e in
    rw whole (refl, weighted-IsShare ups)

-- While the servers stay the same and one of them has a weight, an index in range leads to a
-- selection and to an index in range.
pub round_robin_in_range :
    (servers : List UpstreamServer) (i : ℕ)
    → i < length (weighted (available servers))
    → let (i', result) = round_robin servers i in
      (i' < length (weighted (available servers))) × ((s : UpstreamServer) × (result ≡ chosen s))
round_robin_in_range servers i h =
    let ws = weighted (available servers) in
    let (s, picked, _) = pick_next ws i h in
    let e = round_robin-pick servers i (some_available servers (omega arith)) ∙ picked in
    rw e (omega arith, (s, refl))
