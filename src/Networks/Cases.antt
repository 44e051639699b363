-- ===== src/Networks/Cases.antt =====
-- The two outcomes of the methods that check something before they write.
use local_network_ecosystem.Prelude.{
  ℕ, ◌≡◌, String, true, false, Option, some, List, [], ◌∷◌, arith, set_add, string_eq, ◌==◌,
  Option-cases, Bool-cases, inl, inr, ◌⊎◌,
}
use local_network_ecosystem.Dict
use local_network_ecosystem.Registry
use local_network_ecosystem.Networks.{
  Bcrypt, NetworkRecord, NetworkManager, ok, get, is_banned, admit, password_fits, create,
  chosen_id, join, erase, delete,
}

-- join did nothing, or it let the client in.
pub join_cases :
    (bcrypt : Bcrypt) (n c password : String) (m : NetworkManager)
    → (join bcrypt n c password m ≡ (m, false))
      ⊎ ((r : NetworkRecord) × (get m n ≡ some r)
          × (is_banned m n ≡ false)
          × (password_fits bcrypt password r ≡ true)
          × (join bcrypt n c password m ≡ (admit n r c m, true)))
unfolding join
join_cases bcrypt n c password m = elim (Option-cases (get m n)) [
  | inl e ↦ inl (ground arith)
  | inr (r, e) ↦ elim (Bool-cases (is_banned m n)) [
    | inl b ↦ inl (ground arith)
    | inr b ↦ elim (Bool-cases (password_fits bcrypt password r)) [
      | inl f ↦ inr (r, e, b, f, ground arith)
      | inr f ↦ inl (ground arith)
    ]
  ]
]

-- What create has written when it returns.
pub create-eq-ok :
    (bcrypt : Bcrypt) (now : ℕ) (uuid : String) (salt : List ℕ)
    (name password owner topology : String) (network_id : Option String) (m : NetworkManager)
    {m' : NetworkManager} {r : NetworkRecord}
    → create bcrypt now uuid salt name password owner topology network_id m ≡ ok (m', r)
    → let id = chosen_id uuid network_id in
      (r.network_id ≡ id)
      × (r.members ≡ owner ∷ [])
      × (r.owner_id ≡ owner)
      × (r.topology ≡ topology)
      × (bcrypt.hashpw password salt ≡ some r.password_hash)
      × (m' ≡ record m {
        registry = Registry.add_network owner id m.registry;
        networks = Dict.put id r m.networks;
      })
unfolding create set_add
create-eq-ok bcrypt now uuid salt name password owner topology network_id m e =
    (ground arith, ground arith, ground arith, ground arith, ground arith, ground arith)

-- delete did nothing, or the owner erased the network.
pub delete_cases :
    (n c : String) (m : NetworkManager)
    → (delete n c m ≡ (m, false))
      ⊎ ((r : NetworkRecord) × (get m n ≡ some r)
          × ((r.owner_id == c) ≡ true)
          × (delete n c m ≡ (erase n r m, true)))
unfolding delete
delete_cases n c m = elim (Option-cases (get m n)) [
  | inl e ↦ inl (ground arith)
  | inr (r, e) ↦ elim (Bool-cases (r.owner_id == c)) [
    | inl owns ↦ inr (r, e, owns, ground arith)
    | inr other ↦ inl (ground arith)
  ]
]
