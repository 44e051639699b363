-- ===== src/Cache/Sizes.antt =====
-- How much the cache holds in memory.
use local_network_ecosystem.Prelude.{
  ℕ, zero, suc, ◌+◌, ◌≤◌, ◌≡◌, ◌⊎◌, refl, subst, ◌∙◌, String, not, ◌&&◌, Option, none, some, [],
  ◌∷◌, arith, ltb, length, string_eq, nat_eq, ◌==◌, eq_iff, Bool-cases, inl, inr,
}
use local_network_ecosystem.Dict
use local_network_ecosystem.Dict.{
  Dict, IsDistinct, get-put, get-remove, put-IsDistinct, remove-IsDistinct, length-put,
  length-remove-le, remove_absent,
}
use local_network_ecosystem.Protocol.{codes, is_prefix}
use local_network_ecosystem.Cache.{
  CacheEntry, DiskCache, size, least_used, remove, evict_one, make_room, purge_keys,
}

unfoldable pub total : Dict String CacheEntry → ℕ
total [] = 0
total ((k, e) ∷ d) = size e + total d

abbrev pub size_of : Option CacheEntry → ℕ
size_of none = 0
size_of (some e) = size e

pub total-put :
    (k : String) (e : CacheEntry) (d : Dict String CacheEntry)
    → total (Dict.put k e d) + size_of (Dict.get k d) ≡ total d + size e
unfolding total Dict.put Dict.get
total-put k e [] = omega arith
total-put k e ((j, f) ∷ d) = elim (Bool-cases (j == k)) [
  | inl same ↦ rw same (omega arith)
  | inr other ↦ rw other (omega (arith, total-put k e d))
]

total-remove :
    (k : String) (d : Dict String CacheEntry)
    → IsDistinct d
    → total (Dict.remove k d) + size_of (Dict.get k d) ≡ total d
unfolding total Dict.remove Dict.get
total-remove k [] h = refl
total-remove k ((j, f) ∷ d) h = elim (Bool-cases (j == k)) [
  | inl same ↦
      let absent : Dict.get k d ≡ none =
        subst (λ i. Dict.get i d ≡ none) ((eq_iff j k).0 same) h.0 in
      rw (same, remove_absent k d absent) (omega arith)
  | inr other ↦ rw other (omega (arith, total-remove k d h.1))
]

-- No key is there twice, and what is counted is not below what is there.
pub record IsOver (c : DiskCache) : Type 0 where
  pub distinct : IsDistinct c.entries
  pub counted : total c.entries ≤ c.current_size

-- What is in memory fits the limit, or is one entry.
abbrev pub IsSmall : DiskCache → Type 0
IsSmall c = (total c.entries ≤ c.max_size) ⊎ (length c.entries ≤ 1)

-- What a call takes away: nothing is added, and the limit is the same.
pub record IsLess (c c' : DiskCache) : Type 0 where
  pub over : IsOver c'
  pub bytes : total c'.entries ≤ total c.entries
  pub count : length c'.entries ≤ length c.entries
  pub limit : c'.max_size ≡ c.max_size

pub same-IsLess : (c : DiskCache) → IsOver c → IsLess c c
same-IsLess c h = record { over = h; bytes = omega arith; count = omega arith; limit = refl }

IsLess-trans : (a b c : DiskCache) → IsLess a b → IsLess b c → IsLess a c
IsLess-trans a b c p q = record {
  over = q.over;
  bytes = omega (arith, p.bytes, q.bytes);
  count = omega (arith, p.count, q.count);
  limit = q.limit ∙ p.limit;
}

pub IsLess-IsSmall : (c c' : DiskCache) → IsLess c c' → IsSmall c → IsSmall c'
IsLess-IsSmall c c' p (inl h) = inl (omega (arith, p.bytes, p.limit))
IsLess-IsSmall c c' p (inr h) = inr (omega (arith, p.count))

pub remove-IsLess :
    (digest : String → String) (k : String) (c : DiskCache)
    → IsOver c
    → IsLess c (remove digest k c)
unfolding remove
remove-IsLess digest k c h = record {
  over = record {
    distinct = remove-IsDistinct k c.entries h.distinct;
    counted = let freed = total-remove k c.entries h.distinct in ground (arith, h.counted, freed);
  };
  bytes = omega (arith, total-remove k c.entries h.distinct);
  count = length-remove-le k c.entries;
  limit = refl;
}

evict_one-IsLess :
    (digest : String → String) (c : DiskCache) → IsOver c → IsLess c (evict_one digest c)
unfolding evict_one
evict_one-IsLess digest c h = go c.entries h
  where
    go :
        (d : Dict String CacheEntry)
        → IsOver (record c { entries = d })
        → IsLess (record c { entries = d }) (evict_one digest (record c { entries = d }))
    go [] h = same-IsLess (record c { entries = [] }) h
    go ((k, e) ∷ d) h =
        remove-IsLess digest (least_used k e.last_access d) (record c { entries = (k, e) ∷ d }) h

pub make_room-IsLess :
    (digest : String → String) (n needed : ℕ) (c : DiskCache)
    → IsOver c
    → IsLess c (make_room digest n needed c)
unfolding make_room
make_room-IsLess digest zero needed c h = same-IsLess c h
make_room-IsLess digest (suc n) needed c h =
    let first = evict_one-IsLess digest c h in
    let rest = make_room-IsLess digest n needed (evict_one digest c) first.over in
    elim (Bool-cases (ltb c.max_size (c.current_size + needed) && not (length c.entries == 0))) [
      | inl full ↦ rw full (
          IsLess-trans c (evict_one digest c) (make_room digest n needed (evict_one digest c)) first
            rest)
      | inr done ↦ rw done (same-IsLess c h)
    ]

pub purge_keys-IsLess :
    (digest : String → String) (pattern : String) (d : Dict String CacheEntry) (c : DiskCache)
    → IsOver c
    → IsLess c (purge_keys digest pattern d c).0
unfolding purge_keys
purge_keys-IsLess digest pattern [] c h = same-IsLess c h
purge_keys-IsLess digest pattern ((k, e) ∷ d) c h =
    let first = remove-IsLess digest k c h in
    elim (Bool-cases (is_prefix (codes pattern) (codes k))) [
      | inl match ↦ rw match (
          IsLess-trans c (remove digest k c) (purge_keys digest pattern d (remove digest k c)).0
            first (purge_keys-IsLess digest pattern d (remove digest k c) first.over))
      | inr other ↦ rw other (purge_keys-IsLess digest pattern d c h)
    ]
