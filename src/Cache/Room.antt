-- ===== src/Cache/Room.antt =====
-- The eviction loop ends, and which entry it takes.
use local_network_ecosystem.Prelude.{
  ℕ, zero, suc, ◌+◌, ◌≤◌, ◌<◌, ◌≡◌, ◌⊎◌, refl, sym, subst, ◌∙◌, String, true, false, none, some, [],
  ◌∷◌, arith, ltb, length, string_eq, nat_eq, ◌==◌, eq_iff, Bool-cases, inl, inr, All,
}
use local_network_ecosystem.Dict
use local_network_ecosystem.Dict.{Dict, length-remove-le, IsDistinct, has-eq, remove-IsDistinct}
use local_network_ecosystem.Cache.{CacheEntry, DiskCache, least_used, remove, evict_one, make_room}

length-remove-lt :
    (k : String) (d : Dict String CacheEntry)
    → Dict.has k d ≡ true
    → length (Dict.remove k d) < length d
unfolding Dict.has Dict.remove
length-remove-lt k [] h = absurd (cc h)
length-remove-lt k ((j, e) ∷ d) h = ground (arith, length-remove-lt k d, length-remove-le k d)

-- What `min` finds: a key whose entry was used no later than any other.
record IsLeast (best : String) (used : ℕ) (d : Dict String CacheEntry) (key : String) : Type 0 where
  found_used : ℕ
  below : found_used ≤ used
  below_all : All (λ p. found_used ≤ p.1.last_access) d
  found :
      ((key ≡ best) × (found_used ≡ used))
      ⊎ ((e : CacheEntry) × (Dict.get key d ≡ some e) × (e.last_access ≡ found_used))

get-behind :
    (k key : String) (e f : CacheEntry) (d : Dict String CacheEntry)
    → Dict.get k d ≡ none
    → Dict.get key d ≡ some f
    → Dict.get key ((k, e) ∷ d) ≡ some f
get-behind k key e f d new at =
    unfold Dict.get in
    elim (Bool-cases (k == key)) [
      | inl same ↦
          let none_there : Dict.get key d ≡ none =
            subst (λ i. Dict.get i d ≡ none) ((eq_iff k key).0 same) new in
          let clash : none ≡ some f = sym none_there ∙ at in absurd (cc clash)
      | inr other ↦ rw other at
    ]

least_used-IsLeast :
    (best : String) (used : ℕ) (d : Dict String CacheEntry)
    → IsDistinct d
    → Dict.get best d ≡ none
    → IsLeast best used d (least_used best used d)
unfolding least_used
least_used-IsLeast best used [] h absent = record {
  found_used = used;
  below = omega arith;
  below_all = tt;
  found = inl (refl, refl);
}
least_used-IsLeast best used ((k, e) ∷ d) (new, h) absent =
    elim (Bool-cases (ltb e.last_access used)) [
      | inl better ↦
          let rest = least_used-IsLeast k e.last_access d h new in
          rw better record {
            found_used = rest.found_used;
            below = ground (arith, rest.below);
            below_all = (rest.below, rest.below_all);
            found = elim rest.found [
              | inl (same, same_used) ↦ inr (
                e,
                unfold Dict.get in ground (arith, eq_iff k (least_used k e.last_access d)),
                sym same_used,
              )
              | inr (f, at, same_used) ↦
                  inr (f, get-behind k (least_used k e.last_access d) e f d new at, same_used)
            ];
          }
      | inr worse ↦
          let missing : Dict.get best d ≡ none = unfold Dict.get in ground (arith, absent) in
          let rest = least_used-IsLeast best used d h missing in
          rw worse record {
            found_used = rest.found_used;
            below = rest.below;
            below_all = (ground (arith, rest.below), rest.below_all);
            found = elim rest.found [
              | inl same ↦ inl same
              | inr (f, at, same_used) ↦
                  inr (f, get-behind k (least_used best used d) e f d new at, same_used)
            ];
          }
    ]

-- The entry that goes, and that it was used no later than any.
pub record IsEvicted (digest : String → String) (c : DiskCache) : Type 0 where
  pub victim : String
  pub entry : CacheEntry
  pub stands : Dict.get victim c.entries ≡ some entry
  pub least : All (λ p. entry.last_access ≤ p.1.last_access) c.entries
  pub gone : evict_one digest c ≡ remove digest victim c

-- evict_one removes one entry that is there, and none of the others was used before it, where no key is
-- there twice and the cache is not empty.
pub evict_one-IsEvicted :
    (digest : String → String) (c : DiskCache)
    → IsDistinct c.entries
    → (length c.entries == 0) ≡ false
    → IsEvicted digest c
unfolding evict_one
evict_one-IsEvicted digest c h some_left = go c.entries h some_left
  where
    go :
        (d : Dict String CacheEntry)
        → IsDistinct d
        → (length d == 0) ≡ false
        → IsEvicted digest (record c { entries = d })
    go [] h some_left = absurd (ground arith)
    go ((k, e) ∷ d) (new, h) some_left =
        let least = least_used-IsLeast k e.last_access d h new in
        elim least.found [
          | inl (same, same_used) ↦ record {
            victim = least_used k e.last_access d;
            entry = e;
            stands = unfold Dict.get in ground (arith, eq_iff k (least_used k e.last_access d));
            least = (
              omega arith,
              subst (λ u. All (λ p. u ≤ p.1.last_access) d) same_used least.below_all,
            );
            gone = refl;
          }
          | inr (f, at, same_used) ↦ record {
            victim = least_used k e.last_access d;
            entry = f;
            stands = get-behind k (least_used k e.last_access d) e f d new at;
            least = (
              omega (arith, least.below),
              subst (λ u. All (λ p. u ≤ p.1.last_access) d) (sym same_used) least.below_all,
            );
            gone = refl;
          }
        ]

evict_one-lt :
    (digest : String → String) (c : DiskCache)
    → IsDistinct c.entries
    → (length c.entries == 0) ≡ false
    → length (evict_one digest c).entries < length c.entries
unfolding remove
evict_one-lt digest c h some_left =
    let out = evict_one-IsEvicted digest c h some_left in
    rw (out.gone)
      (length-remove-lt out.victim c.entries (has-eq out.victim c.entries ∙ rw (out.stands) refl))

evict_one-IsDistinct :
    (digest : String → String) (c : DiskCache)
    → IsDistinct c.entries
    → IsDistinct (evict_one digest c).entries
unfolding evict_one remove
evict_one-IsDistinct digest c h = go c.entries h
  where
    go :
        (d : Dict String CacheEntry)
        → IsDistinct d
        → IsDistinct (evict_one digest (record c { entries = d })).entries
    go [] h = h
    go ((k, e) ∷ d) h = remove-IsDistinct (least_used k e.last_access d) ((k, e) ∷ d) h

evict_one-limit :
    (digest : String → String) (c : DiskCache) → (evict_one digest c).max_size ≡ c.max_size
unfolding evict_one remove
evict_one-limit digest c = go c.entries
  where
    go :
        (d : Dict String CacheEntry)
        → (evict_one digest (record c { entries = d })).max_size ≡ c.max_size
    go [] = refl
    go ((k, e) ∷ d) = refl

-- The loop of store ends: with a round for each entry, the cache has room for the new entry when it stops,
-- or no entry is left, where no key is there twice.
pub make_room-done :
    (digest : String → String) (n needed : ℕ) (c : DiskCache)
    → IsDistinct c.entries
    → length c.entries ≤ n
    → let c' = make_room digest n needed c in
      (c'.current_size + needed ≤ c'.max_size) ⊎ (length c'.entries ≡ 0)
unfolding make_room
make_room-done digest zero needed c h few = inr (omega arith)
make_room-done digest (suc n) needed c h few = ground (
  arith,
  make_room-done digest n needed (evict_one digest c) (evict_one-IsDistinct digest c h),
  evict_one-lt digest c h,
)
