-- ===== src/Networks/Codes.antt =====
-- Invite codes lead to their networks and back.
use local_network_ecosystem.Prelude.{
  ℕ, ◌≡◌, refl, String, true, false, Option, none, some, List, [], ◌∷◌, arith, if◌then◌else◌, take,
  set_add, contains-set_add, string_eq, ◌==◌, eq_iff, Option-cases, inl, inr, All, ◌⊎◌, zero, suc,
}
use local_network_ecosystem.Dict
use local_network_ecosystem.Dict.{Dict, get-put, get-remove, has-eq}
use local_network_ecosystem.Networks.{
  Bcrypt, NetworkRecord, NetworkManager, ok, get, is_banned, admit, password_fits, delete,
  drop_code, is_member, erase,
}
use local_network_ecosystem.Networks.Cases.{delete_cases}
use local_network_ecosystem.Networks.Invites.{
  first_free, set_code, new_code, generate_invite_code, join_by_invite_code,
}

-- The two dictionaries of codes are inverse to one another, and no code is empty.
pub record IsCoded (m : NetworkManager) : Type 0 where
  pub leads :
      (n code : String)
      → Dict.get n m.network_invite_codes ≡ some code
      → Dict.get code m.invite_codes ≡ some n
  pub back :
      (n code : String)
      → Dict.get code m.invite_codes ≡ some n
      → Dict.get n m.network_invite_codes ≡ some code
  pub filled :
      (n code : String) → Dict.get n m.network_invite_codes ≡ some code → (code == "") ≡ false

-- The draws and the fallback are codes that can be given: none is empty, and the fallback is not in use.
pub record CanDraw (draws : List String) (fallback : String → String) (m : NetworkManager)
    : Type 0 where
  pub draws_filled : All (λ code. (code == "") ≡ false) draws
  pub fallback_filled : (name : String) → (fallback name == "") ≡ false
  pub fallback_free : (name : String) → Dict.get (fallback name) m.invite_codes ≡ none

first_free_lem :
    (draws : List String) (n : ℕ) (codes : Dict String String) (code : String)
    → All (λ c. (c == "") ≡ false) draws
    → first_free (take n draws) codes ≡ some code
    → (Dict.get code codes ≡ none) × ((code == "") ≡ false)
unfolding first_free
first_free_lem [] zero codes code h e = absurd (cc)
first_free_lem [] (suc n) codes code h e = absurd (cc)
first_free_lem (d ∷ draws) zero codes code h e = absurd (cc)
first_free_lem (d ∷ draws) (suc n) codes code h e =
    ground (arith, first_free_lem draws n codes code h.1, has-eq d codes)

new_code_lem :
    (draws : List String) (fallback : String → String) (r : NetworkRecord) (m : NetworkManager)
    → CanDraw draws fallback m
    → let code = new_code draws fallback r m.invite_codes in
      (Dict.get code m.invite_codes ≡ none) × ((code == "") ≡ false)
unfolding new_code
new_code_lem draws fallback r m h =
    elim (Option-cases (first_free (take 10 draws) m.invite_codes)) [
      | inl e ↦ ground (arith, h.fallback_filled r.name, h.fallback_free r.name)
      | inr (code, e) ↦ ground (arith, first_free_lem draws 10 m.invite_codes code h.draws_filled e)
    ]

set_code-IsCoded :
    (n code : String) (m : NetworkManager)
    → Dict.get code m.invite_codes ≡ none
    → Dict.get n m.network_invite_codes ≡ none
    → (code == "") ≡ false
    → IsCoded m
    → IsCoded (set_code n code m)
unfolding set_code
set_code-IsCoded n code m free new filled h = record {
  leads = λ k d e. grind (arith, get-put, h.leads k d, eq_iff);
  back = λ k d e. grind (arith, get-put, h.back k d, eq_iff);
  filled = λ k d e. grind (arith, get-put, h.filled k d, eq_iff);
}

-- What generate_invite_code has done when it returns.
pub generate-eq-ok :
    (draws : List String) (fallback : String → String) (n : String) (m : NetworkManager)
    {m' : NetworkManager} {code : String}
    → generate_invite_code draws fallback n m ≡ ok (m', code)
    → (r : NetworkRecord) × (get m n ≡ some r)
      × ((Dict.get n m.network_invite_codes ≡ some code) × (m' ≡ m)
          ⊎ (Dict.get n m.network_invite_codes ≡ none)
            × (code ≡ new_code draws fallback r m.invite_codes)
            × (m' ≡ set_code n code m))
unfolding generate_invite_code
generate-eq-ok draws fallback n m e = elim (Option-cases (get m n)) [
  | inl missing ↦ absurd (ground arith)
  | inr (r, found) ↦ elim (Option-cases (Dict.get n m.network_invite_codes)) [
    | inl new ↦ (r, found, inr (new, ground arith, ground arith))
    | inr (c, old) ↦ (r, found, inl (ground arith, ground arith))
  ]
]

generate_again :
    (draws : List String) (fallback : String → String) (n code : String) (m : NetworkManager)
    (r : NetworkRecord)
    → get m n ≡ some r
    → Dict.get n m.network_invite_codes ≡ some code
    → generate_invite_code draws fallback n m ≡ ok (m, code)
unfolding generate_invite_code
generate_again draws fallback n code m r e c = ground arith

-- A code that generate_invite_code returns leads to its network, the dictionaries of codes stay
-- inverse to one another, and asking again, whatever is drawn, returns the same code and changes
-- nothing. Before, the dictionaries were inverse; the draws and the fallback are not empty, and the
-- fallback was not in use.
pub generate_invite_code_lem :
    (draws : List String) (fallback : String → String) (n : String) (m : NetworkManager)
    {m' : NetworkManager} {code : String}
    → CanDraw draws fallback m
    → IsCoded m
    → generate_invite_code draws fallback n m ≡ ok (m', code)
    → IsCoded m'
      × (Dict.get code m'.invite_codes ≡ some n)
      × ((draws' : List String) (fallback' : String → String)
          → generate_invite_code draws' fallback' n m' ≡ ok (m', code))
unfolding set_code get
generate_invite_code_lem draws fallback n m {m'} {code} can h e =
    let (r, found, how) = generate-eq-ok draws fallback n m e in
    elim how [
      | inl (old, same) ↦
          rw same (h, h.leads n code old, λ d f. generate_again d f n code m r found old)
      | inr (new, drawn, set) ↦
          let (free, filled) = new_code_lem draws fallback r m can in
          rw (set, drawn)
            (
              set_code-IsCoded n _ m free new filled h,
              unfold set_code in
                  ground (
                    arith,
                    get-put (new_code draws fallback r m.invite_codes)
                        (new_code draws fallback r m.invite_codes) n m.invite_codes,
                    eq_iff (new_code draws fallback r m.invite_codes)
                        (new_code draws fallback r m.invite_codes),
                  ),
              λ d f.
                  generate_again d f n _ (set_code n (new_code draws fallback r m.invite_codes) m) r
                    found
                    (unfold set_code in
                      ground (
                        arith,
                        get-put n n (new_code draws fallback r m.invite_codes)
                            m.network_invite_codes,
                        eq_iff n n,
                      )),
            )
    ]

get-drop_code :
    (o : Option String) (d : String) (codes : Dict String String)
    → ((code : String) → o ≡ some code → (code == "") ≡ false)
    → Dict.get d (drop_code o codes) ≡ elim o [
      | none ↦ Dict.get d codes
      | some code ↦ if code == d then none else Dict.get d codes
    ]
unfolding drop_code
get-drop_code none d codes h = refl
get-drop_code (some code) d codes h = rw (h code refl) (get-remove code d codes)

erase-IsCoded :
    (n : String) (r : NetworkRecord) (m : NetworkManager) → IsCoded m → IsCoded (erase n r m)
unfolding erase
erase-IsCoded n r m h = elim (Option-cases (Dict.get n m.network_invite_codes)) [
  | inl none_there ↦ record {
    leads = λ k d e. ground (arith, dropped d, gone k, h.leads k d, eq_iff n k);
    back = λ k d e. ground (arith, dropped d, gone k, h.back k d, eq_iff n k);
    filled = λ k d e. ground (arith, gone k, h.filled k d, eq_iff n k);
  }
  | inr (x, there) ↦ record {
    leads = λ k d e.
        ground (arith, dropped d, gone k, h.leads k d, h.leads n x, eq_iff n k, eq_iff x d);
    back =
        λ k d e. ground (arith, dropped d, gone k, h.back k d, h.back n d, eq_iff n k, eq_iff x d);
    filled = λ k d e. ground (arith, gone k, h.filled k d, eq_iff n k);
  }
]
  where
    dropped :
        (d : String)
        → Dict.get d (drop_code (Dict.get n m.network_invite_codes) m.invite_codes)
          ≡ elim (Dict.get n m.network_invite_codes) [
            | none ↦ Dict.get d m.invite_codes
            | some code ↦ if code == d then none else Dict.get d m.invite_codes
          ]
    dropped d = get-drop_code (Dict.get n m.network_invite_codes) d m.invite_codes (h.filled n)

    gone :
        (k : String)
        → Dict.get k (Dict.remove n m.network_invite_codes)
          ≡ (if n == k then none else Dict.get k m.network_invite_codes)
    gone k = get-remove n k m.network_invite_codes

-- delete leaves the dictionaries of codes inverse to one another.
delete-IsCoded : (n c : String) (m : NetworkManager) → IsCoded m → IsCoded (delete n c m).0
delete-IsCoded n c m h = elim (delete_cases n c m) [
  | inl e ↦ rw e h
  | inr (r, _, _, e) ↦ rw e (erase-IsCoded n r m h)
]

unknown_code :
    (bcrypt : Bcrypt) (code c password : String) (m : NetworkManager)
    → Dict.get code m.invite_codes ≡ none
    → join_by_invite_code bcrypt code c password m ≡ (m, none)
unfolding join_by_invite_code
unknown_code bcrypt code c password m e = ground arith

erased_code :
    (n code : String) (r : NetworkRecord) (m : NetworkManager)
    → IsCoded m
    → Dict.get n m.network_invite_codes ≡ some code
    → Dict.get code (erase n r m).invite_codes ≡ none
unfolding erase
erased_code n code r m h e = ground (
  arith,
  get-drop_code (Dict.get n m.network_invite_codes) code m.invite_codes (h.filled n),
  eq_iff code code,
)

-- Once its owner has deleted a network, the code that it had admits nobody and changes nothing,
-- where the dictionaries of codes were inverse to one another before.
pub join_by_invite_code-delete :
    (bcrypt : Bcrypt) (n code owner c password : String) (m : NetworkManager)
    → IsCoded m
    → Dict.get n m.network_invite_codes ≡ some code
    → (delete n owner m).1 ≡ true
    → let m' = (delete n owner m).0 in join_by_invite_code bcrypt code c password m' ≡ (m', none)
join_by_invite_code-delete bcrypt n code owner c password m h has_code done =
    elim (delete_cases n owner m) [
      | inl kept ↦ absurd (ground (arith, kept))
      | inr (r, _, _, e) ↦
          rw e
            (unknown_code bcrypt code c password (erase n r m) (erased_code n code r m h has_code))
    ]

known_code :
    (bcrypt : Bcrypt) (code n c password : String) (m : NetworkManager) (r : NetworkRecord)
    → Dict.get code m.invite_codes ≡ some n
    → get m n ≡ some r
    → is_banned m n ≡ false
    → password_fits bcrypt password r ≡ true
    → join_by_invite_code bcrypt code c password m
      ≡ (admit n r c m, some (record r { members = set_add c r.members }))
unfolding join_by_invite_code
known_code bcrypt code n c password m r lead found free fits = ground arith

set_code_keeps :
    (n code : String) (m : NetworkManager)
    → (get (set_code n code m) n ≡ get m n) × (is_banned (set_code n code m) n ≡ is_banned m n)
unfolding set_code get is_banned
set_code_keeps n code m = (refl, refl)

admit-is_member :
    (n c : String) (r : NetworkRecord) (m : NetworkManager) → is_member (admit n r c m) n c ≡ true
unfolding admit is_member
admit-is_member n c r m = grind (arith, get-put, contains-set_add, eq_iff)

-- Whoever has the code that generate_invite_code returned and the network's password becomes a
-- member of that network, unless it is banned, and is told its record. Before, the dictionaries of
-- codes were inverse to one another; the draws and the fallback are not empty, and the fallback was
-- not in use.
pub join_by_invite_code-generate :
    (bcrypt : Bcrypt) (draws : List String) (fallback : String → String) (n c password : String)
    (m : NetworkManager) (r : NetworkRecord) {m' : NetworkManager} {code : String}
    → CanDraw draws fallback m
    → IsCoded m
    → generate_invite_code draws fallback n m ≡ ok (m', code)
    → get m n ≡ some r
    → is_banned m n ≡ false
    → password_fits bcrypt password r ≡ true
    → let (m'', found) = join_by_invite_code bcrypt code c password m' in
      (is_member m'' n c ≡ true) × (found ≡ some (record r { members = set_add c r.members }))
join_by_invite_code-generate bcrypt draws fallback n c password m r {m'} {code} can h e found free
      fits =
    let lead = (generate_invite_code_lem draws fallback n m can h e).1 in
    let (found', free') = kept in
    rw (known_code bcrypt code n c password m' r lead found' free' fits)
      (admit-is_member n c r m', refl)
  where
    kept : (get m' n ≡ some r) × (is_banned m' n ≡ false)
    kept = elim (generate-eq-ok draws fallback n m e).2 [
      | inl (_, same) ↦ rw same (found, free)
      | inr (_, _, set) ↦
          rw set (
            ground (arith, (set_code_keeps n code m).0),
            ground (arith, (set_code_keeps n code m).1),
          )
    ]
