-- ===== src/Relay/Writes.antt =====
-- What each write to the forwarder leaves to read.
use local_network_ecosystem.Prelude.{
  ℕ, ◌<◌, ◌≡◌, String, Bool, true, false, ◌&&◌, ◌||◌, Option, none, some, List, [], arith, ltb,
  if◌then◌else◌, length, filter, set_add, contains-set_add, string_eq, pair_eq, ◌==◌, eq_iff,
  contains-filter, ◌⊎◌, Option-cases, Bool-cases, inl, inr,
}
use local_network_ecosystem.Dict
use local_network_ecosystem.Dict.{Dict, get-put, get-remove, get-map_values}
use local_network_ecosystem.Relay.{
  RelayForwarder, Queued, max_relay_queue, queue_for, has_path, register_relay_path, enqueue,
  relay_frame, drop_client, not_from, without,
}

abbrev pub queue_of : RelayForwarder → String → Option (List Queued)
queue_of s c = Dict.get c s.queues

abbrev pub or_empty : Option (List Queued) → List Queued
or_empty none = []
or_empty (some q) = q

abbrev pub is_some {ℓ} : {A : Type ℓ} → Option A → Bool
is_some none = false
is_some (some a) = true

queue_of-queue_for :
    (c k : String) (s : RelayForwarder)
    → queue_of (queue_for c s) k ≡ (if c == k then some (or_empty (queue_of s c)) else queue_of s k)
unfolding queue_for
queue_of-queue_for c k s = ground (arith, get-put c k [] s.queues, eq_iff c k)

paths-queue_for : (c : String) (s : RelayForwarder) → (queue_for c s).paths ≡ s.paths
unfolding queue_for
paths-queue_for c s = ground arith

pub queue_of-register :
    (a b k : String) (s : RelayForwarder)
    → queue_of (register_relay_path a b s).0 k
      ≡ (if a == k || b == k then some (or_empty (queue_of s k)) else queue_of s k)
unfolding register_relay_path
queue_of-register a b k s = ground (
  arith,
  queue_of-queue_for a k (queue_for b s),
  queue_of-queue_for b k s,
  queue_of-queue_for b a s,
  eq_iff a k,
  eq_iff b k,
  eq_iff b a,
)

pub has_path-register :
    (a b c d : String) (s : RelayForwarder)
    → has_path (register_relay_path a b s).0 c d
      ≡ (if (a == c && b == d) || (b == c && a == d) then true else has_path s c d)
unfolding register_relay_path
has_path-register a b c d s = rw paths-queue_for (
    rw paths-queue_for (
      ground (
        arith,
        contains-set_add (b, a) (c, d) (set_add (a, b) s.paths),
        contains-set_add (a, b) (c, d) s.paths,
      )))

-- relay_frame refuses, perhaps counting a dropped frame, or it queues the frame.
pub relay_frame_cases :
    (a b : String) (raw : List ℕ) (s : RelayForwarder)
    → ((relay_frame a b raw s).0.queues ≡ s.queues)
        × ((relay_frame a b raw s).0.paths ≡ s.paths)
        × ((relay_frame a b raw s).1 ≡ false)
      ⊎ (q : List Queued) × (queue_of s b ≡ some q)
        × (has_path s a b ≡ true)
        × (length q < max_relay_queue)
        × (relay_frame a b raw s ≡ (enqueue a b raw q s, true))
unfolding relay_frame
relay_frame_cases a b raw s = elim (Option-cases (queue_of s b)) [
  | inl e ↦ inl (ground arith, ground arith, ground arith)
  | inr (q, e) ↦ elim (Bool-cases (has_path s a b && ltb (length q) max_relay_queue)) [
    | inl fits ↦ inr (q, e, ground arith, ground arith, ground arith)
    | inr full ↦ inl (ground arith, ground arith, ground arith)
  ]
]

pub queue_of-drop :
    (c k : String) (s : RelayForwarder)
    → queue_of (drop_client c s) k ≡ (
        if c == k
        then none
        else elim (queue_of s k) [ none ↦ none | some q ↦ some (filter (not_from c) q) ])
unfolding drop_client
queue_of-drop c k s = ground (
  arith,
  get-map_values (filter (not_from c)) k (Dict.remove c s.queues),
  get-remove c k s.queues,
)

pub has_path-drop :
    (c a b : String) (s : RelayForwarder)
    → has_path (drop_client c s) a b ≡ (has_path s a b && without c (a, b))
unfolding drop_client has_path
has_path-drop c a b s = contains-filter (without c) (a, b) s.paths
