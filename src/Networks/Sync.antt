-- ===== src/Networks/Sync.antt =====
-- The manager's member lists and the registry's network lists say the same.
use local_network_ecosystem.Prelude.{
  ℕ, ◌≡◌, refl, ◌∙◌, String, true, false, ◌&&◌, Option, none, some, List, [], ◌∷◌, arith,
  if◌then◌else◌, contains, set_add, discard, contains-set_add, contains-discard, string_eq, ◌==◌,
  eq_iff, inl, inr,
}
use local_network_ecosystem.Dict
use local_network_ecosystem.Dict.{Dict, IsDistinct, get-put, get-remove}
use local_network_ecosystem.Registry
use local_network_ecosystem.Registry.{ClientRecord, ClientRegistry}
use local_network_ecosystem.Registry.Views.{
  is_in, is_known, is_in-add_network, is_in-remove_network,
}
use local_network_ecosystem.Networks.Cases.{join_cases, create-eq-ok}
use local_network_ecosystem.Networks.{
  Bcrypt, NetworkRecord, NetworkManager, ok, get, admit, leave, is_member, remove_from_all, delete,
  purge_network, purge_networks, purge_client, create, chosen_id, join,
}

-- A client is a member of a network exactly when its own record lists the network.
pub record IsSynced (m : NetworkManager) : Type 0 where
  pub agree : (n c : String) → is_member m n c ≡ is_in m.registry c n

is_in-remove_from_all :
    (n : String) (cs : List String) (reg : ClientRegistry) (c k : String)
    → is_in (remove_from_all n cs reg) c k
      ≡ (if n == k && contains c cs then false else is_in reg c k)
unfolding remove_from_all contains
is_in-remove_from_all n [] reg c k = ground arith
is_in-remove_from_all n (d ∷ cs) reg c k = ground (
  arith,
  is_in-remove_from_all n cs (Registry.remove_network d n reg) c k,
  is_in-remove_network reg d n c k,
)

pub admit-IsSynced :
    (n c : String) (r : NetworkRecord) (m : NetworkManager)
    → get m n ≡ some r
    → is_known m.registry c ≡ true
    → IsSynced m
    → IsSynced (admit n r c m)
unfolding admit is_member
admit-IsSynced n c r m e known h = record {
  agree = λ k d. ground (
    arith,
    h.agree k d,
    is_in-add_network m.registry c n d k,
    get-put n k (record r { members = set_add c r.members }) m.networks,
    contains-set_add c d r.members,
    eq_iff n k,
    eq_iff c d,
  );
}

pub create-IsSynced :
    (bcrypt : Bcrypt) (now : ℕ) (uuid : String) (salt : List ℕ)
    (name password owner topology : String) (network_id : Option String) (m : NetworkManager)
    {m' : NetworkManager} {r : NetworkRecord}
    → create bcrypt now uuid salt name password owner topology network_id m ≡ ok (m', r)
    → get m (chosen_id uuid network_id) ≡ none
    → is_known m.registry owner ≡ true
    → IsSynced m
    → IsSynced m'
unfolding is_member contains
create-IsSynced bcrypt now uuid salt name password owner topology network_id m {m'} {r} e fresh
      known h =
    let (_, em, _, _, _, e') =
      create-eq-ok bcrypt now uuid salt name password owner topology network_id m e in
    let id = chosen_id uuid network_id in
    record {
      agree = λ k d. rw e' (
          ground (
            arith,
            em,
            h.agree k d,
            is_in-add_network m.registry owner id d k,
            get-put id k r m.networks,
            eq_iff id k,
            eq_iff owner d,
          ));
    }

pub join-IsSynced :
    (bcrypt : Bcrypt) (n c password : String) (m : NetworkManager)
    → is_known m.registry c ≡ true
    → IsSynced m
    → IsSynced (join bcrypt n c password m).0
join-IsSynced bcrypt n c password m known h = elim (join_cases bcrypt n c password m) [
  | inl e ↦ rw e h
  | inr (r, found, _, _, e) ↦ rw e (admit-IsSynced n c r m found known h)
]

pub leave-IsSynced : (n c : String) (m : NetworkManager) → IsSynced m → IsSynced (leave n c m).0
unfolding leave is_member
leave-IsSynced n c m h = record {
  agree = λ k d. grind (
    arith,
    h.agree k d,
    is_in-remove_network m.registry c n d k,
    get-put,
    contains-discard,
    eq_iff,
  );
}

pub delete-IsSynced : (n c : String) (m : NetworkManager) → IsSynced m → IsSynced (delete n c m).0
unfolding delete is_member
delete-IsSynced n c m h = record {
  agree = λ k d. grind (arith, h.agree k d, is_in-remove_from_all, get-remove, eq_iff);
}

-- The records still to be visited are the manager's.
abbrev Current : Dict String NetworkRecord → NetworkManager → Type 0
Current d m = (k : String) (r : NetworkRecord) → Dict.get k d ≡ some r → get m k ≡ some r

purge_network-IsSynced :
    (c n : String) (r : NetworkRecord) (m : NetworkManager)
    → get m n ≡ some r
    → IsSynced m
    → IsSynced (purge_network c n r m)
unfolding purge_network is_member
purge_network-IsSynced c n r m e h = record {
  agree = λ k d. grind (
    arith,
    h.agree k d,
    is_in-remove_network m.registry c n d k,
    get-put,
    get-remove,
    contains-discard c d r.members,
    emptied d,
    eq_iff n k,
    eq_iff c d,
  );
}
  where
    emptied : (d : String) → discard c r.members ≡ [] → contains d (discard c r.members) ≡ false
    emptied d p = rw p (unfold contains in refl)

get-purge_network_ne :
    (c n k : String) (r : NetworkRecord) (m : NetworkManager)
    → (n == k) ≡ false
    → get (purge_network c n r m) k ≡ get m k
unfolding purge_network get
get-purge_network_ne c n k r m h = grind (arith, get-put, get-remove)

keys_differ :
    (n k : String) (d : Dict String NetworkRecord) {q : NetworkRecord}
    → Dict.get n d ≡ none
    → Dict.get k d ≡ some q
    → (n == k) ≡ false
keys_differ n k d a b = ground (arith, eq_iff n k)

purge_networks-IsSynced :
    (c : String) (d : Dict String NetworkRecord) (m : NetworkManager)
    → IsDistinct d
    → Current d m
    → IsSynced m
    → IsSynced (purge_networks c d m).0
unfolding purge_networks
purge_networks-IsSynced c [] m h cur s = s
purge_networks-IsSynced c ((n, r) ∷ d) m h cur s =
    purge_networks-IsSynced c d (purge_network c n r m) h.1
      (λ k q e.
        let other = keys_differ n k d h.0 e in
        get-purge_network_ne c n k r m other
        ∙ cur k q (unfold Dict.get in ground (arith, other, e)))
      (purge_network-IsSynced c n r m (cur n r (unfold Dict.get in ground (arith, eq_iff n n))) s)

pub purge_client-IsSynced :
    (c : String) (m : NetworkManager)
    → IsDistinct m.networks
    → IsSynced m
    → IsSynced (purge_client c m).0
unfolding purge_client is_member
purge_client-IsSynced c m d h = record {
  agree = (purge_networks-IsSynced c m.networks m d (λ k r e. unfold get in e) h).agree;
}
