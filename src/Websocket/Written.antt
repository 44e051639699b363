-- ===== src/Websocket/Written.antt =====
-- How many frames a relay writes to a side, and which.
use local_network_ecosystem.Prelude.{
  ℕ, suc, ◌^◌, ◌<◌, ◌≤◌, ◌≡◌, refl, ap, sym, subst, ◌∙◌, true, false, List, [], ◌∷◌, ◌++◌, map,
  arith, if◌then◌else◌, length, take, replicate, All, nat_eq, ◌==◌, Bool-cases, inl, inr,
}
use mathlib.Core.Bool.{false≢true}
use mathlib.Core.List.{append_assoc, append-nil}
use local_network_ecosystem.Websocket.{
  Frame, op_close, read_frame, send_frame, passed_on, Relay, relay_one, Turn, client, upstream,
  ping, turn, relay,
}
use local_network_ecosystem.Websocket.RoundTrip.{read_frame-send_frame}

-- A frame that a reader with this limit takes.
abbrev pub IsSendable : ℕ → Frame → Type 0
IsSendable max_size (opcode, payload) = (opcode < 16) × (length payload ≤ max_size)

unfoldable pub send_all : List Frame → List ℕ
send_all [] = []
send_all (f ∷ fs) = send_frame f ++ send_all fs

-- The frames up to the first close frame, with it.
unfoldable pub up_to_close : List Frame → List Frame
up_to_close [] = []
up_to_close (f ∷ fs) = let rest = up_to_close fs in if f.0 == 8 then f ∷ [] else f ∷ rest

relay_one-frame :
    (max_size : ℕ) (f : Frame) (rest : List ℕ)
    → IsSendable max_size f
    → max_size < 256 ^ 8
    → relay_one max_size (send_frame f ++ rest) ≡ (send_frame (passed_on f), rest, f.0 == op_close)
unfolding relay_one
relay_one-frame max_size (opcode, payload) rest (op, fits) most =
    rw (read_frame-send_frame max_size opcode payload rest op fits most, relay_one) refl

turn-done : (t : Turn) (r : Relay) → r.done ≡ true → turn t r ≡ r
unfolding turn
turn-done t r h = ground arith

relay-done : (ts : List Turn) (r : Relay) → r.done ≡ true → relay ts r ≡ r
unfolding relay
relay-done [] r h = refl
relay-done (t ∷ ts) r h = ap (relay ts) (turn-done t r h) ∙ relay-done ts r h

-- The client's side of a relay, which the turns of the others leave.
record IsKept (r s : Relay) : Type 0 where
  written : s.to_client ≡ r.to_client
  unread : s.from_upstream ≡ r.from_upstream
  limit : s.max_message_size ≡ r.max_message_size

turn-client : (r : Relay) → IsKept r (turn client r)
unfolding turn
turn-client r = record { written = ground arith; unread = ground arith; limit = ground arith }

turn-ping : (r : Relay) → IsKept r (turn ping r)
unfolding turn
turn-ping r = record { written = ground arith; unread = ground arith; limit = ground arith }

-- A turn that finds nothing to read.
turn_ended : (r : Relay) → r.from_upstream ≡ [] → IsKept r (turn upstream r)
unfolding turn relay_one read_frame
turn_ended r e =
    let read : relay_one r.max_message_size r.from_upstream ≡ ([], r.from_upstream, true) =
      rw e refl in
    elim (Bool-cases r.done) [
      | inl over ↦
          rw (turn-done upstream r over) record { written = refl; unread = refl; limit = refl }
      | inr running ↦ record {
        written = rw (running, read) (append-nil r.to_client);
        unread = rw (running, read) refl;
        limit = ground arith;
      }
    ]

turn_ended-done : (r : Relay) → r.from_upstream ≡ [] → (turn upstream r).done ≡ true
unfolding turn relay_one read_frame
turn_ended-done r e =
    let read : relay_one r.max_message_size r.from_upstream ≡ ([], r.from_upstream, true) =
      rw e refl in
    elim (Bool-cases r.done) [
      | inl over ↦ ap (λ q. q.done) (turn-done upstream r over) ∙ over
      | inr running ↦ rw (running, read) refl
    ]

-- A turn that finds a frame.
turn_frame :
    (f : Frame) (rest : List ℕ) (r : Relay)
    → r.done ≡ false
    → r.from_upstream ≡ send_frame f ++ rest
    → IsSendable r.max_message_size f
    → r.max_message_size < 256 ^ 8
    → turn upstream r ≡ record r {
      to_client = r.to_client ++ send_frame (passed_on f);
      from_upstream = rest;
      done = f.0 == op_close;
    }
unfolding turn
turn_frame f rest r running e can most =
    let read : relay_one r.max_message_size r.from_upstream
        ≡ (send_frame (passed_on f), rest, f.0 == op_close) =
      ap (relay_one r.max_message_size) e ∙ relay_one-frame r.max_message_size f rest can most in
    rw (running, read) refl

-- The turns of the direction from upstream.
pub upstream_turns : List Turn → ℕ
upstream_turns [] = 0
upstream_turns (upstream ∷ ts) = suc (upstream_turns ts)
upstream_turns (client ∷ ts) = upstream_turns ts
upstream_turns (ping ∷ ts) = upstream_turns ts

-- How many of the frames that upstream sends have been written to the client. While the relay is not done,
-- they are as many as the turns.
pub record HasWritten (fs : List Frame) (turns : ℕ) (r s : Relay) : Type 0 where
  pub count : ℕ
  pub written : s.to_client ≡ r.to_client ++ send_all (map passed_on (take count (up_to_close fs)))
  pub kept_up : s.done ≡ false → count ≡ turns

-- A relay that is done at the start writes nothing.
HasWritten-done :
    (fs : List Frame) (ts : List Turn) (turns : ℕ) (r : Relay)
    → r.done ≡ true
    → HasWritten fs turns r (relay ts r)
unfolding send_all
HasWritten-done fs ts turns r over =
    subst (HasWritten fs turns r) (sym (relay-done ts r over)) record {
      count = 0;
      written = sym (append-nil r.to_client);
      kept_up = λ running. absurd (false≢true (sym running ∙ over));
    }

-- What holds of every relay over these turns.
Carries : List Turn → Type 0
Carries ts =
    (fs : List Frame) (r : Relay)
    → r.from_upstream ≡ send_all fs
    → All (IsSendable r.max_message_size) fs
    → r.max_message_size < 256 ^ 8
    → HasWritten fs (upstream_turns ts) r (relay ts r)

kept-HasWritten :
    (ts : List Turn) (fs : List Frame) (r s : Relay)
    → IsKept r s
    → Carries ts
    → r.from_upstream ≡ send_all fs
    → All (IsSendable r.max_message_size) fs
    → r.max_message_size < 256 ^ 8
    → HasWritten fs (upstream_turns ts) r (relay ts s)
unfolding Carries
kept-HasWritten ts fs r s k carries e h most =
    let later =
      carries fs s (k.unread ∙ e) (subst (λ m. All (IsSendable m) fs) (sym k.limit) h)
        (rw k.limit most) in
    record {
      count = later.count;
      written =
          later.written
          ∙ ap (λ w. w ++ send_all (map passed_on (take later.count (up_to_close fs)))) k.written;
      kept_up = later.kept_up;
    }

cut_closed :
    (f : Frame) (fs : List Frame) → (f.0 == op_close) ≡ true → up_to_close (f ∷ fs) ≡ f ∷ []
unfolding up_to_close
cut_closed f fs h = rw h refl

cut_open :
    (f : Frame) (fs : List Frame)
    → (f.0 == op_close) ≡ false
    → up_to_close (f ∷ fs) ≡ f ∷ up_to_close fs
unfolding up_to_close
cut_open f fs h = rw h refl

frame-HasWritten :
    (ts : List Turn) (f : Frame) (fs : List Frame) (r : Relay)
    → Carries ts
    → All (IsSendable r.max_message_size) fs
    → r.max_message_size < 256 ^ 8
    → HasWritten (f ∷ fs) (suc (upstream_turns ts)) r (
        relay ts (record r {
          to_client = r.to_client ++ send_frame (passed_on f);
          from_upstream = send_all fs;
          done = f.0 == op_close;
        }))
unfolding Carries send_all
frame-HasWritten ts f fs r carries h most =
    let s = record r {
      to_client = r.to_client ++ send_frame (passed_on f);
      from_upstream = send_all fs;
      done = f.0 == op_close;
    } in
    elim (Bool-cases (f.0 == op_close)) [
      | inl closed ↦ record {
        count = 1;
        written =
            ap (λ q. q.to_client) (relay-done ts s closed)
            ∙ ap (λ w. r.to_client ++ w) (sym (append-nil (send_frame (passed_on f))))
            ∙ ap (λ gs. r.to_client ++ send_all (map passed_on (take 1 gs)))
                (sym (cut_closed f fs closed));
        kept_up = λ running.
            absurd (false≢true (sym running ∙ ap (λ q. q.done) (relay-done ts s closed) ∙ closed));
      }
      | inr not_closed ↦
          let later = carries fs s refl h most in
          record {
            count = suc later.count;
            written =
                later.written
                ∙ append_assoc r.to_client (send_frame (passed_on f))
                    (send_all (map passed_on (take later.count (up_to_close fs))))
                ∙ ap (λ gs. r.to_client ++ send_all (map passed_on (take (suc later.count) gs)))
                    (sym (cut_open f fs not_closed));
            kept_up = λ running. ap suc (later.kept_up running);
          }
    ]

turn-HasWritten :
    (t : Turn) (ts : List Turn) (fs : List Frame) (r : Relay)
    → r.done ≡ false
    → Carries ts
    → r.from_upstream ≡ send_all fs
    → All (IsSendable r.max_message_size) fs
    → r.max_message_size < 256 ^ 8
    → HasWritten fs (upstream_turns (t ∷ ts)) r (relay ts (turn t r))
unfolding send_all upstream_turns
turn-HasWritten client ts fs r running carries e h most =
    kept-HasWritten ts fs r (turn client r) (turn-client r) carries e h most
turn-HasWritten ping ts fs r running carries e h most =
    kept-HasWritten ts fs r (turn ping r) (turn-ping r) carries e h most
turn-HasWritten upstream ts [] r running carries e h most =
    let over = turn_ended-done r e in
    let s = turn upstream r in
    subst (HasWritten [] (suc (upstream_turns ts)) r) (sym (relay-done ts s over)) record {
      count = 0;
      written = (turn_ended r e).written ∙ sym (append-nil r.to_client);
      kept_up = λ running. absurd (false≢true (sym running ∙ over));
    }
turn-HasWritten upstream ts (f ∷ fs) r running carries e h most =
    rw (turn_frame f (send_all fs) r running e h.0 most)
      (frame-HasWritten ts f fs r carries h.1 most)

pub relay-HasWritten :
    (fs : List Frame) (ts : List Turn) (r : Relay)
    → r.from_upstream ≡ send_all fs
    → All (IsSendable r.max_message_size) fs
    → r.max_message_size < 256 ^ 8
    → HasWritten fs (upstream_turns ts) r (relay ts r)
unfolding relay Carries
relay-HasWritten fs [] r e h most = record {
  count = 0;
  written = unfold send_all in sym (append-nil r.to_client);
  kept_up = λ running. unfold upstream_turns in refl;
}
relay-HasWritten fs (t ∷ ts) r e h most = elim (Bool-cases r.done) [
  | inl over ↦ HasWritten-done fs (t ∷ ts) (upstream_turns (t ∷ ts)) r over
  | inr running ↦ turn-HasWritten t ts fs r running (λ gs s. relay-HasWritten gs ts s) e h most
]

pub written_all :
    (fs : List Frame) (r : Relay)
    → r.done ≡ false
    → r.from_upstream ≡ send_all fs
    → All (IsSendable r.max_message_size) fs
    → r.max_message_size < 256 ^ 8
    → (relay (replicate (length fs) upstream) r).to_client
      ≡ r.to_client ++ send_all (map passed_on (up_to_close fs))
unfolding relay send_all
written_all [] r running e h most = unfold up_to_close in sym (append-nil r.to_client)
written_all (f ∷ fs) r running e h most =
    let s = record r {
      to_client = r.to_client ++ send_frame (passed_on f);
      from_upstream = send_all fs;
      done = f.0 == op_close;
    } in
    let more = replicate (length fs) upstream in
    ap (λ q. (relay more q).to_client) (turn_frame f (send_all fs) r running e h.0 most)
    ∙ elim (Bool-cases (f.0 == op_close)) [
      | inl closed ↦
          ap (λ q. q.to_client) (relay-done more s closed)
          ∙ ap (λ w. r.to_client ++ w) (sym (append-nil (send_frame (passed_on f))))
          ∙ ap (λ gs. r.to_client ++ send_all (map passed_on gs)) (sym (cut_closed f fs closed))
      | inr not_closed ↦
          written_all fs s not_closed refl h.1 most
          ∙ append_assoc r.to_client (send_frame (passed_on f))
              (send_all (map passed_on (up_to_close fs)))
          ∙ ap (λ gs. r.to_client ++ send_all (map passed_on gs)) (sym (cut_open f fs not_closed))
    ]
