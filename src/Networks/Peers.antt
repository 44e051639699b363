-- ===== src/Networks/Peers.antt =====
-- Whom a member is shown.
use local_network_ecosystem.Prelude.{
  ◌≡◌, refl, String, Bool, false, not, ◌&&◌, Option, none, some, List, [], ◌∷◌, map, arith,
  contains, string_eq, ◌==◌, eq_iff, Option-cases, inl, inr,
}
use local_network_ecosystem.Registry
use local_network_ecosystem.Registry.{ClientRecord, ClientRegistry}
use local_network_ecosystem.Registry.Named.{IsNamed}
use local_network_ecosystem.Networks.{NetworkManager, get, is_member, online_peers, get_peers}

abbrev pub is_online : Option ClientRecord → Bool
is_online none = false
is_online (some r) = r.online

abbrev pub ids : List ClientRecord → List String
ids = map (λ r. r.client_id)

contains-online_peers :
    (reg : ClientRegistry) (c j : String) (ms : List String)
    → IsNamed reg
    → contains j (ids (online_peers reg c ms))
      ≡ (contains j ms && (not (j == c) && is_online (Registry.get reg j)))
unfolding online_peers contains
contains-online_peers reg c j [] h = refl
contains-online_peers reg c j (k ∷ ms) h = elim (Option-cases (Registry.get reg k)) [
  | inl e ↦ ground (arith, contains-online_peers reg c j ms h, eq_iff k j, eq_iff k c, eq_iff j c)
  | inr (r, e) ↦
      ground (
        arith,
        contains-online_peers reg c j ms h,
        h.named k r e,
        eq_iff k j,
        eq_iff k c,
        eq_iff j c,
      )
]

-- get_peers shows exactly the members that are online, without the client that asks, where the
-- registry files each record once and under its own client_id.
pub get_peers_lem :
    (m : NetworkManager) (n c j : String)
    → IsNamed m.registry
    → contains j (ids (get_peers m n c))
      ≡ (is_member m n j && (not (j == c) && is_online (Registry.get m.registry j)))
unfolding get_peers is_member contains
get_peers_lem m n c j h = elim (Option-cases (get m n)) [
  | inl e ↦ ground arith
  | inr (r, e) ↦ ground (arith, contains-online_peers m.registry c j r.members h)
]
