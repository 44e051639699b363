-- ===== src/Websocket/Relaying.antt =====
-- What a relay writes to a side, whatever the order of its turns.
use local_network_ecosystem.Prelude.{ℕ, ◌≡◌, ◌≢◌, false, List, [], ◌∷◌, ◌++◌, take, nat_eq}
use local_network_ecosystem.Websocket.{Frame, Relay, Turn}
use local_network_ecosystem.Websocket.Written.{send_all, up_to_close, upstream_turns}

-- The frames that are written for these: a pong (10) with the payload of a ping (9), and every other frame
-- as it was.
pub data IsPassedOn : List Frame → List Frame → Type 0 where
  none_left : IsPassedOn [] []
  pong :
      (payload : List ℕ) {fs gs : List Frame}
      → IsPassedOn fs gs
      → IsPassedOn ((9, payload) ∷ fs) ((10, payload) ∷ gs)
  same :
      (opcode : ℕ) (payload : List ℕ) {fs gs : List Frame}
      → opcode ≢ 9
      → IsPassedOn fs gs
      → IsPassedOn ((opcode, payload) ∷ fs) ((opcode, payload) ∷ gs)

-- What has been written to the client over these turns.
pub record IsCarried (fs : List Frame) (ts : List Turn) (r s : Relay) : Type 0 where
  pub count : ℕ
  pub frames : List Frame
  pub passed : IsPassedOn (take count (up_to_close fs)) frames
  pub written : s.to_client ≡ r.to_client ++ send_all frames
  pub kept_up : s.done ≡ false → count ≡ upstream_turns ts
