-- ===== src/Relay/Invariant.antt =====
-- What holds of the forwarder after every sequence of its operations.
use local_network_ecosystem.Prelude.{
  ℕ, ◌≤◌, ◌<◌, ◌≡◌, String, true, false, some, List, [], ◌∷◌, ◌++◌, arith, if◌then◌else◌, length,
  length-append, length-filter-le, filter, string_eq, pair_eq, ◌==◌, eq_iff, All, All-append,
  All-weaken, Option-cases, Bool-cases, inl, inr,
}
use local_network_ecosystem.Dict
use local_network_ecosystem.Dict.{Dict, get-put, get-remove, get-map_values}
use local_network_ecosystem.Relay.Writes.{
  queue_of, is_some, queue_of-register, has_path-register, relay_frame_cases, queue_of-drop,
  has_path-drop,
}
use local_network_ecosystem.Relay.{
  RelayForwarder, Queued, max_relay_queue, has_path, register_relay_path, enqueue, relay_frame,
  pending_frames, drop_client, not_from,
}

-- No queue is over the limit, paths run both ways, every path has the queue of its destination, and
-- every queued frame came over a path.
pub record IsValid (s : RelayForwarder) : Type 0 where
  pub bounded : (c : String) (q : List Queued) → queue_of s c ≡ some q → length q ≤ max_relay_queue
  pub both_ways : (a b : String) → has_path s a b ≡ has_path s b a
  pub has_queue : (a b : String) → has_path s a b ≡ true → is_some (queue_of s b) ≡ true
  pub routed :
      (c : String) (q : List Queued) → queue_of s c ≡ some q → All (λ f. has_path s f.0 c ≡ true) q

-- The calls that change the forwarder.
pub data Call : Type 0 where
  register : String → String → Call
  frame : String → String → List ℕ → Call
  drain : String → Call
  drop : String → Call

unfoldable pub apply : Call → RelayForwarder → RelayForwarder
apply (register a b) s = (register_relay_path a b s).0
apply (frame a b raw) s = (relay_frame a b raw s).0
apply (drain c) s = (pending_frames (λ raw. raw) c s).0
apply (drop c) s = drop_client c s

unfoldable pub run : List Call → RelayForwarder → RelayForwarder
unfolding apply
run [] s = s
run (c ∷ cs) s = run cs (apply c s)

register-routed :
    (a b k : String) (q : List Queued) (s : RelayForwarder)
    → IsValid s
    → queue_of (register_relay_path a b s).0 k ≡ some q
    → All (λ f. has_path (register_relay_path a b s).0 f.0 k ≡ true) q
register-routed a b k q s h e = elim (Option-cases (queue_of s k)) [
  | inl new ↦ let e' : q ≡ [] = ground (arith, queue_of-register a b k s) in rw e' tt
  | inr (r, old) ↦
      let e' : q ≡ r = ground (arith, queue_of-register a b k s) in
      rw e'
        (All-weaken r (λ f p. ground (arith, has_path-register a b f.0 k s, p)) (h.routed k r old))
]

register-IsValid :
    (a b : String) (s : RelayForwarder) → IsValid s → IsValid (register_relay_path a b s).0
register-IsValid a b s h = record {
  bounded = λ k q e. ground (arith, queue_of-register a b k s, h.bounded k q);
  both_ways = λ c d.
      ground (arith, has_path-register a b c d s, has_path-register a b d c s, h.both_ways c d);
  has_queue = λ c d p. ground (
    arith,
    has_path-register a b c d s,
    queue_of-register a b d s,
    h.has_queue c d,
    eq_iff a c,
    eq_iff b d,
    eq_iff b c,
    eq_iff a d,
  );
  routed = λ k q e. register-routed a b k q s h e;
}

same-IsValid :
    (s t : RelayForwarder) → t.queues ≡ s.queues → t.paths ≡ s.paths → IsValid s → IsValid t
unfolding has_path
same-IsValid s t eq ep h = record {
  bounded = λ k q e. h.bounded k q (rw (← eq) e);
  both_ways = λ a b. rw ep (h.both_ways a b);
  has_queue = λ a b p. rw eq (h.has_queue a b (rw (← ep) p));
  routed = λ k q e. rw ep (h.routed k q (rw (← eq) e));
}

enqueue-IsValid :
    (a b : String) (raw : List ℕ) (q : List Queued) (s : RelayForwarder)
    → queue_of s b ≡ some q
    → has_path s a b ≡ true
    → length q < max_relay_queue
    → IsValid s
    → IsValid (enqueue a b raw q s)
unfolding enqueue has_path
enqueue-IsValid a b raw q s found path fits h = record {
  bounded = λ k r e. ground (arith, put k, h.bounded k r, length-append q ((a, raw) ∷ []));
  both_ways = h.both_ways;
  has_queue = λ c d p. ground (arith, put d, h.has_queue c d);
  routed = λ k r e. elim (Bool-cases (b == k)) [
    | inl same ↦
        let eb : b ≡ k = (eq_iff b k).0 same in
        let er : r ≡ q ++ (a, raw) ∷ [] = ground (arith, put k) in
        rw (er, ← eb) (All-append _ q ((a, raw) ∷ []) (h.routed b q found) (path, tt))
    | inr other ↦ h.routed k r (ground (arith, put k))
  ];
}
  where
    put :
        (k : String)
        → Dict.get k (Dict.put b (q ++ (a, raw) ∷ []) s.queues)
          ≡ (if b == k then some (q ++ (a, raw) ∷ []) else Dict.get k s.queues)
    put k = get-put b k (q ++ (a, raw) ∷ []) s.queues

frame-IsValid :
    (a b : String) (raw : List ℕ) (s : RelayForwarder)
    → IsValid s
    → IsValid (relay_frame a b raw s).0
frame-IsValid a b raw s h = elim (relay_frame_cases a b raw s) [
  | inl (eq, ep, _) ↦ same-IsValid s (relay_frame a b raw s).0 eq ep h
  | inr (q, found, path, fits, e) ↦ rw e (enqueue-IsValid a b raw q s found path fits h)
]

drain-IsValid :
    (c : String) (s : RelayForwarder) → IsValid s → IsValid (pending_frames (λ raw. raw) c s).0
unfolding pending_frames has_path
drain-IsValid c s h = elim (Option-cases (queue_of s c)) [
  | inl e ↦ rw (e, pending_frames) h
  | inr (q, e) ↦
      rw (e, pending_frames)
        (record {
          bounded = λ k r p. ground (arith, get-put c k [] s.queues, h.bounded k r);
          both_ways = h.both_ways;
          has_queue = λ a b p. ground (arith, get-put c b [] s.queues, h.has_queue a b);
          routed = λ k r p. elim (Bool-cases (c == k)) [
            | inl same ↦ let er : r ≡ [] = ground (arith, get-put c k [] s.queues) in rw er tt
            | inr other ↦ h.routed k r (ground (arith, get-put c k [] s.queues))
          ];
        })
]

without_lem :
    (c : String) (q : List Queued) → All (λ f. not_from c f ≡ true) (filter (not_from c) q)
without_lem c [] = tt
without_lem c (f ∷ q) = ground (arith, without_lem c q)

filter-routed :
    (c k : String) (s : RelayForwarder) (q : List Queued)
    → (c == k) ≡ false
    → All (λ f. has_path s f.0 k ≡ true) q
    → All (λ f. has_path (drop_client c s) f.0 k ≡ true) (filter (not_from c) q)
filter-routed c k s [] h p = tt
filter-routed c k s (f ∷ q) h p = elim (Bool-cases (f.0 == c)) [
  | inl from ↦ rw from (filter-routed c k s q h p.1)
  | inr other ↦ rw other (
    ground (arith, has_path-drop c f.0 k s, p.0, eq_iff c k, eq_iff k c),
    filter-routed c k s q h p.1,
  )
]

drop-IsValid : (c : String) (s : RelayForwarder) → IsValid s → IsValid (drop_client c s)
drop-IsValid c s h = record {
  bounded = λ k q e. elim (Option-cases (queue_of s k)) [
    | inl none_there ↦ absurd (ground (arith, queue_of-drop c k s))
    | inr (r, there) ↦
        ground (arith, queue_of-drop c k s, h.bounded k r, length-filter-le (not_from c) r)
  ];
  both_ways = λ a b. ground (arith, has_path-drop c a b s, has_path-drop c b a s, h.both_ways a b);
  has_queue = λ a b p.
      ground (
        arith,
        has_path-drop c a b s,
        queue_of-drop c b s,
        h.has_queue a b,
        eq_iff b c,
        eq_iff c b,
      );
  routed = λ k q e. elim (Option-cases (queue_of s k)) [
    | inl none_there ↦ absurd (ground (arith, queue_of-drop c k s))
    | inr (r, there) ↦
        let other : (c == k) ≡ false = ground (arith, queue_of-drop c k s) in
        let eq : q ≡ filter (not_from c) r = ground (arith, queue_of-drop c k s) in
        rw eq (filter-routed c k s r other (h.routed k r there))
  ];
}

apply-IsValid : (call : Call) (s : RelayForwarder) → IsValid s → IsValid (apply call s)
unfolding apply
apply-IsValid (register a b) s h = register-IsValid a b s h
apply-IsValid (frame a b raw) s h = frame-IsValid a b raw s h
apply-IsValid (drain c) s h = drain-IsValid c s h
apply-IsValid (drop c) s h = drop-IsValid c s h

-- From a forwarder where this holds, as it does at the start, every sequence of the forwarder's
-- calls keeps each queue within 1024 frames, each path in both directions and with a queue at its
-- end, and each queued frame on a path.
pub run-IsValid : (calls : List Call) (s : RelayForwarder) → IsValid s → IsValid (run calls s)
unfolding run
run-IsValid [] s h = h
run-IsValid (c ∷ calls) s h = run-IsValid calls (apply c s) (apply-IsValid c s h)
