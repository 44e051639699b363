-- ===== src/Relay/Delivery.antt =====
-- What is relayed arrives, once and in order.
use local_network_ecosystem.Prelude.{
  ℕ, ◌+◌, ◌≡◌, refl, ap, sym, ◌∙◌, String, Bool, false, ◌&&◌, Option, none, some, List, [], ◌∷◌,
  ◌++◌, map, arith, ltb, if◌then◌else◌, length, filter, string_eq, pair_eq, ◌==◌, eq_iff,
  pair_beq_iff, All,
}
use mathlib.Core.List.{append-nil, append_assoc}
use local_network_ecosystem.Dict
use local_network_ecosystem.Dict.{Dict, get-put, get-remove, get-map_values}
use local_network_ecosystem.Relay.{
  RelayForwarder, Queued, max_relay_queue, has_path, relay_frame, pending_frames, drop_client,
  not_from, without, or_zero, keep_others,
}
use local_network_ecosystem.Relay.Writes.{
  queue_of, or_empty, queue_of-register, queue_of-drop, has_path-drop,
}
use local_network_ecosystem.Relay.Invariant.{Call, register, frame, drain, drop, apply, run}

-- What waits for a client.
abbrev pub waiting : RelayForwarder → String → List Queued
waiting s k = or_empty (queue_of s k)

abbrev pub is_short : Option (List Queued) → Bool
is_short none = false
is_short (some q) = ltb (length q) max_relay_queue

-- relay_frame accepts a frame exactly when there is a path and the destination's queue has fewer
-- than 1024 frames; the frame then waits last, its bytes are counted for the pair, and nothing else
-- changes for any destination. A refused frame changes no queue and no count of bytes.
pub relay_frame_lem :
    (a b : String) (raw : List ℕ) (s : RelayForwarder)
    → let (s', done) = relay_frame a b raw s in
      (done ≡ (has_path s a b && is_short (queue_of s b)))
      × ((k : String)
          → waiting s' k ≡ (if done && b == k then waiting s k ++ (a, raw) ∷ [] else waiting s k))
      × ((p : String × String)
          → or_zero (Dict.get p s'.bytes_relayed)
            ≡ or_zero (Dict.get p s.bytes_relayed)
              + (if done && (a, b) == p then length raw else 0))
unfolding relay_frame
relay_frame_lem a b raw s = (
  ground arith,
  λ k. grind (arith, get-put, eq_iff b k),
  λ p. grind (arith, get-put, pair_beq_iff (a, b) p),
)

module _ {ℓ} {B : Type ℓ} (b64encode : List ℕ → B) where
  -- pending_frames hands over all that waits for the client, oldest first, and leaves nothing of it;
  -- what waits for others stays.
  pending_frames_lem :
      (k j : String) (s : RelayForwarder)
      → let (s', out) = pending_frames b64encode k s in
        (out ≡ map (λ item. (item.0, b64encode item.1)) (waiting s k))
        × (waiting s' j ≡ (if k == j then [] else waiting s j))
  unfolding pending_frames
  pending_frames_lem k j s = (ground arith, ground (arith, get-put k j [] s.queues, eq_iff k j))

-- The frames that a call hands over to the client, and those that it accepts for it.
abbrev pub delivered_by : String → Call → RelayForwarder → List Queued
delivered_by k (drain c) s = if c == k then (pending_frames (λ raw. raw) c s).1 else []
delivered_by k _ s = []

abbrev pub accepted_by : String → Call → RelayForwarder → List Queued
accepted_by k (frame a b raw) s = if (relay_frame a b raw s).1 && b == k then (a, raw) ∷ [] else []
accepted_by k _ s = []

unfoldable pub delivered : String → List Call → RelayForwarder → List Queued
delivered k [] s = []
delivered k (c ∷ cs) s = delivered_by k c s ++ delivered k cs (apply c s)

unfoldable pub accepted : String → List Call → RelayForwarder → List Queued
accepted k [] s = []
accepted k (c ∷ cs) s = accepted_by k c s ++ accepted k cs (apply c s)

-- No client is dropped.
abbrev pub IsDropFree : Call → Type 0
IsDropFree (drop c) = ⊥
IsDropFree _ = Unit {0}

pairs_id : (q : List Queued) → map (λ item. (item.0, item.1)) q ≡ q
pairs_id [] = refl
pairs_id (f ∷ q) = ap (◌∷◌ f) (pairs_id q)

apply-waiting :
    (k : String) (c : Call) (s : RelayForwarder)
    → IsDropFree c
    → waiting s k ++ accepted_by k c s ≡ delivered_by k c s ++ waiting (apply c s) k
unfolding apply
apply-waiting k (register a b) s h = rw append-nil (ground (arith, queue_of-register a b k s))
apply-waiting k (frame a b raw) s h =
    ground (arith, (relay_frame_lem a b raw s).1 k, append-nil (waiting s k))
apply-waiting k (drain c) s h =
    let (out, left) = pending_frames_lem (λ raw. raw) c k s in
    ground (
      arith,
      out,
      left,
      pairs_id (waiting s c),
      append-nil (waiting s k),
      append-nil (waiting s c),
      eq_iff c k,
    )
apply-waiting k (drop c) s h = absurd h

-- While no client is dropped, what has been handed over to a client, followed by what still waits
-- for it, is what waited at first followed by every frame accepted since, in order: no frame is
-- lost, doubled or overtaken.
pub run-waiting :
    (k : String) (cs : List Call) (s : RelayForwarder)
    → All IsDropFree cs
    → waiting s k ++ accepted k cs s ≡ delivered k cs s ++ waiting (run cs s) k
unfolding accepted delivered run
run-waiting k [] s h = append-nil (waiting s k)
run-waiting k (c ∷ cs) s h =
    let s' = apply c s in
    sym (append_assoc (waiting s k) (accepted_by k c s) (accepted k cs s'))
    ∙ ap (λ l. l ++ accepted k cs s') (apply-waiting k c s h.0)
    ∙ append_assoc (delivered_by k c s) (waiting s' k) (accepted k cs s')
    ∙ ap (λ l. delivered_by k c s ++ l) (run-waiting k cs s' h.1)
    ∙ sym (append_assoc (delivered_by k c s) (delivered k cs s') (waiting (run cs s') k))

get-keep_others :
    (c : String) (p : String × String) (d : Dict (String × String) ℕ)
    → without c p ≡ false
    → Dict.get p (keep_others c d) ≡ none
unfolding keep_others Dict.get
get-keep_others c p [] h = refl
get-keep_others c p ((i, n) ∷ d) h = ground (arith, get-keep_others c p d, pair_beq_iff i p)

-- After drop_client nothing of the client is left: no queue, no path, no waiting frame of its own,
-- no count of bytes.
pub drop_client_lem :
    (c k : String) (s : RelayForwarder)
    → let s' = drop_client c s in
      (queue_of s' c ≡ none)
      × (has_path s' c k ≡ false)
      × (has_path s' k c ≡ false)
      × (waiting s' k ≡ (if c == k then [] else filter (not_from c) (waiting s k)))
      × (Dict.get (c, k) s'.bytes_relayed ≡ none)
      × (Dict.get (k, c) s'.bytes_relayed ≡ none)
unfolding drop_client
drop_client_lem c k s = (
  ground (arith, queue_of-drop c c s, eq_iff c c),
  ground (arith, has_path-drop c c k s, eq_iff c c),
  ground (arith, has_path-drop c k c s, eq_iff c c),
  ground (arith, queue_of-drop c k s),
  get-keep_others c (c, k) s.bytes_relayed (ground (arith, eq_iff c c)),
  get-keep_others c (k, c) s.bytes_relayed (ground (arith, eq_iff c c)),
)
