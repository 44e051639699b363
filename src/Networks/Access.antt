-- ===== src/Networks/Access.antt =====
-- Who gets into a network, and what it then tells whom.
use local_network_ecosystem.Prelude.{
  ℕ, ◌≡◌, refl, String, Bool, true, false, not, ◌&&◌, ◌||◌, Option, none, some, List, arith,
  if◌then◌else◌, contains, contains-set_add, contains-discard, string_eq, ◌==◌, eq_iff,
}
use local_network_ecosystem.Dict.{get-put}
use local_network_ecosystem.Registry
use local_network_ecosystem.Registry.{ClientRecord, ClientRegistry}
use local_network_ecosystem.Networks.{
  Bcrypt, NetworkRecord, NetworkManager, ok, get, is_banned, without_member, leave, is_member,
  create, chosen_id, join, password_fits, reachable_at, is_role, shared_endpoints_for,
  topology_hub_and_spoke,
}
use local_network_ecosystem.Networks.Cases.{create-eq-ok}

-- Both are members, they differ, and in a hub-and-spoke network the target is the hub.
abbrev pub may_share : Option NetworkRecord → String → String → Bool
may_share none requester target = false
may_share (some r) requester target =
    not (requester == target)
    && (contains requester r.members && contains target r.members)
    && (not (r.topology == topology_hub_and_spoke) || is_role r.hub_id target)

-- The endpoint of an online target is shared exactly when requester and target are two members and,
-- in a hub-and-spoke network, the target is the hub; in every other case nothing is.
pub shared_endpoints_for_lem :
    (m : NetworkManager) (n requester target : String)
    → shared_endpoints_for m n requester target ≡ (
        if may_share (get m n) requester target
        then reachable_at (Registry.get m.registry target)
        else none)
unfolding shared_endpoints_for
shared_endpoints_for_lem m n requester target = ground arith

abbrev left : String → Option NetworkRecord → Option NetworkRecord
left c none = none
left c (some r) = if contains c r.members then some (without_member c r) else some r

get-leave :
    (n c k : String) (m : NetworkManager)
    → get (leave n c m).0 k ≡ (if n == k then left c (get m n) else get m k)
unfolding leave get
get-leave n c k m = grind (arith, get-put, eq_iff n k)

get-leave_self : (n c : String) (m : NetworkManager) → get (leave n c m).0 n ≡ left c (get m n)
get-leave_self n c m = ground (arith, get-leave n c n m, eq_iff n n)

left-may_share :
    (c x : String) (o : Option NetworkRecord)
    → (may_share (left c o) c x ≡ false) × (may_share (left c o) x c ≡ false)
unfolding without_member
left-may_share c x none = (refl, refl)
left-may_share c x (some r) = (
  ground (arith, contains-discard c c r.members, eq_iff c c),
  ground (arith, contains-discard c c r.members, eq_iff c c),
)

-- Once a client has left a network, the network shares no endpoint with it, and none of its own.
pub leave-shared_endpoints_for :
    (m : NetworkManager) (n c other : String)
    → let m' = (leave n c m).0 in
      (shared_endpoints_for m' n c other ≡ none) × (shared_endpoints_for m' n other c ≡ none)
leave-shared_endpoints_for m n c other =
    let gone = left-may_share c other (get m n) in
    (
      rw (shared_endpoints_for_lem, get-leave_self, gone.0),
      rw (shared_endpoints_for_lem, get-leave_self, gone.1),
    )

hub_gone :
    (hub a b : String) (r : NetworkRecord)
    → r.topology ≡ topology_hub_and_spoke
    → r.hub_id ≡ some hub
    → contains hub r.members ≡ true
    → may_share (left hub (some r)) a b ≡ false
unfolding without_member is_role
hub_gone hub a b r t h c = ground (arith, eq_iff hub hub, eq_iff r.topology topology_hub_and_spoke)

-- Once the hub has left a hub-and-spoke network, the network shares no endpoint at all.
pub leave_hub-shared_endpoints_for :
    (m : NetworkManager) (n hub : String) (r : NetworkRecord) (requester target : String)
    → get m n ≡ some r
    → r.topology ≡ topology_hub_and_spoke
    → r.hub_id ≡ some hub
    → contains hub r.members ≡ true
    → shared_endpoints_for (leave n hub m).0 n requester target ≡ none
leave_hub-shared_endpoints_for m n hub r requester target e t h c =
    rw (shared_endpoints_for_lem, get-leave_self, e, hub_gone hub requester target r t h c)

-- join lets a client in exactly when the network exists, is not banned and the password fits its
-- hash; then that client and no other becomes a member, and otherwise nothing changes.
join_lem :
    (bcrypt : Bcrypt) (n c password : String) (m : NetworkManager)
    → let (m', done) = join bcrypt n c password m in
      (done ≡ elim (get m n) [
        | none ↦ false
        | some r ↦ not (is_banned m n) && password_fits bcrypt password r
      ])
      × ((k d : String)
          → is_member m' k d ≡ (if done && (n == k && c == d) then true else is_member m k d))
      × (done ≡ false → m' ≡ m)
unfolding join is_member
join_lem bcrypt n c password m =
    (ground arith, λ k d. grind (arith, get-put, contains-set_add, eq_iff), ground arith)

-- A created network admits any client that has the password that it was created with, unless its id
-- is banned. What is asked of bcrypt: a password fits the hash made of it.
pub join-create :
    (bcrypt : Bcrypt)
    → ((password : String) (salt hash : List ℕ)
        → bcrypt.hashpw password salt ≡ some hash
        → bcrypt.checkpw password hash ≡ some true)
    → (now : ℕ) (uuid : String) (salt : List ℕ) (name password owner topology : String)
      (network_id : Option String) (m : NetworkManager) {m' : NetworkManager} {r : NetworkRecord}
    → create bcrypt now uuid salt name password owner topology network_id m ≡ ok (m', r)
    → is_banned m r.network_id ≡ false
    → (c : String)
    → let m'' = (join bcrypt r.network_id c password m').0 in
      (is_member m' r.network_id owner ≡ true)
      × ((join bcrypt r.network_id c password m').1 ≡ true)
      × (is_member m'' r.network_id c ≡ true)
join-create bcrypt law now uuid salt name password owner topology network_id m {m'} {r} e free c =
    let (ei, em, _, _, eh, e') =
      create-eq-ok bcrypt now uuid salt name password owner topology network_id m e in
    let id = r.network_id in
    let got : get m' id ≡ some r =
      rw (e', ei)
        (unfold get in
          ground (
            arith,
            get-put (chosen_id uuid network_id) (chosen_id uuid network_id) r m.networks,
            eq_iff (chosen_id uuid network_id) (chosen_id uuid network_id),
          )) in
    let open_still : is_banned m' id ≡ false = unfold is_banned in ground (arith, e', free) in
    let fits : password_fits bcrypt password r ≡ true =
      unfold password_fits in ground (arith, law password salt r.password_hash eh) in
    let (done, after, _) = join_lem bcrypt id c password m' in
    let joined : (join bcrypt id c password m').1 ≡ true =
      ground (arith, done, got, open_still, fits) in
    (
      unfold is_member contains in ground (arith, got, em, eq_iff owner owner),
      joined,
      ground (arith, after id c, joined, eq_iff id id, eq_iff c c),
    )
