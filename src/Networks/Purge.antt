-- ===== src/Networks/Purge.antt =====
-- What purge_client leaves of the networks, and of their codes.
use local_network_ecosystem.Prelude.{
  ◌≡◌, refl, ap, ◌∙◌, String, ◌&&◌, Option, none, some, [], ◌∷◌, arith, if◌then◌else◌, contains,
  discard, string_eq, ◌==◌, eq_iff,
}
use local_network_ecosystem.Dict
use local_network_ecosystem.Dict.{Dict, IsDistinct, get-put, get-remove}
use local_network_ecosystem.Networks.{
  NetworkRecord, NetworkManager, get, without_member, purge_client, purge_networks, purge_network,
}

-- What is left of a network when the client has gone: nothing, if it was the last member.
abbrev pub purged : String → NetworkRecord → Option NetworkRecord
purged c r = elim (discard c r.members) [ [] ↦ none | _ ∷ _ ↦ some (without_member c r) ]

abbrev pub purge_one : String → Option NetworkRecord → Option NetworkRecord
purge_one c none = none
purge_one c (some r) = if contains c r.members then purged c r else some r

get-purge_network :
    (c n k : String) (r : NetworkRecord) (m : NetworkManager)
    → get (purge_network c n r m) k
      ≡ (if n == k && contains c r.members then purged c r else get m k)
unfolding purge_network get
get-purge_network c n k r m =
    ground (arith, get-put n k (without_member c r) m.networks, get-remove n k m.networks)

get-purge_networks :
    (c n : String) (d : Dict String NetworkRecord) (m : NetworkManager)
    → IsDistinct d
    → get (purge_networks c d m).0 n ≡ elim (Dict.get n d) [
      | none ↦ get m n
      | some r ↦ if contains c r.members then purged c r else get m n
    ]
unfolding purge_networks Dict.get
get-purge_networks c n [] m h = refl
get-purge_networks c n ((k, r) ∷ d) m h = ground (
  arith,
  get-purge_networks c n d (purge_network c k r m) h.1,
  get-purge_network c k n r m,
  eq_iff k n,
)

codes-purge_networks :
    (c : String) (d : Dict String NetworkRecord) (m : NetworkManager)
    → (purge_networks c d m).0.invite_codes ≡ m.invite_codes
unfolding purge_networks
codes-purge_networks c [] m = refl
codes-purge_networks c ((k, r) ∷ d) m =
    codes-purge_networks c d (purge_network c k r m) ∙ (unfold purge_network in ground arith)

-- purge_client takes the client out of every network: each network loses
-- that member and the roles it had, and is deleted exactly when it was the last member; no invite
-- code is dropped with it.
purge_client_lem :
    (c n code : String) (m : NetworkManager)
    → IsDistinct m.networks
    → let m' = (purge_client c m).0 in
      (get m' n ≡ purge_one c (get m n))
      × (Dict.get code m'.invite_codes ≡ Dict.get code m.invite_codes)
unfolding purge_client get
purge_client_lem c n code m h = (
  ground (arith, get-purge_networks c n m.networks m h),
  ap (Dict.get code) (codes-purge_networks c m.networks m),
)

-- A network that loses its last member by purge_client is gone, and the code that led to it still
-- does. No network has two records.
pub purge_client_dangles :
    (c n code : String) (m : NetworkManager) (r : NetworkRecord)
    → IsDistinct m.networks
    → get m n ≡ some r
    → r.members ≡ c ∷ []
    → Dict.get code m.invite_codes ≡ some n
    → let m' = (purge_client c m).0 in (get m' n ≡ none) × (Dict.get code m'.invite_codes ≡ some n)
unfolding contains discard
purge_client_dangles c n code m r h e one lead = (
  ground (arith, (purge_client_lem c n code m h).0, eq_iff c c),
  ground (arith, (purge_client_lem c n code m h).1),
)
