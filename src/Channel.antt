-- ===== src/Channel.antt =====
-- client/control_channel.py: the client's end of the control connection. What comes from the server is a
-- list of messages; a round of the reconnect loop is told whether the connection opens and whether the
-- sign-in succeeds. Delays are whole ticks.
pub mod Backoff
pub mod Routing
mod Tests
use local_network_ecosystem.Prelude.{
  ℕ, ◌*◌, min, String, Bool, true, false, not, ◌&&◌, ◌||◌, Option, none, some, List, [], ◌∷◌, ◌++◌,
  if◌then◌else◌, string_eq, ◌==◌,
}
use local_network_ecosystem.Protocol.{Payload}

pub record Message : Type 0 where
  pub type : String
  pub payload : Payload

-- A queue is a list, its oldest first; a `none` among the responses wakes a waiter when the connection is
-- lost.
pub record ControlChannel : Type 0 where
  pub reconnect_base_delay : ℕ
  pub reconnect_max_delay : ℕ
  pub backoff : ℕ
  pub connected : Bool
  pub authenticated : Bool
  pub stopped : Bool
  pub reader_owned : Bool
  pub reconnecting : Bool
  pub expected_type : Option String
  pub events : List Message
  pub responses : List (Option Message)

unfoldable pub connect : ControlChannel → ControlChannel
connect c = record c { connected = true; backoff = c.reconnect_base_delay }

-- A sign-in starts the background reader.
unfoldable pub signed_in : ControlChannel → ControlChannel
signed_in c = record c { authenticated = true; reader_owned = true }

abbrev pub longer : ControlChannel → ControlChannel
longer c = record c { backoff = min (c.backoff * 2) c.reconnect_max_delay }

-- One round of `_reconnect_loop`, behind its sleep.
unfoldable pub attempt : Bool → Bool → ControlChannel → ControlChannel
unfolding connect signed_in
attempt opens signs_in c =
    if opens
    then (if signs_in
        then record (signed_in (connect c)) { backoff = c.reconnect_base_delay }
        else longer (connect c))
    else longer c

-- The loop, which ends only when the channel is stopped: its sleeps, and the channel after them.
unfoldable pub reconnect_loop : List (Bool × Bool) → ControlChannel → List ℕ × ControlChannel
unfolding attempt
reconnect_loop [] c = ([], c)
reconnect_loop ((opens, signs_in) ∷ rounds) c =
    let (sleeps, c') = reconnect_loop rounds (attempt opens signs_in c) in
    if c.stopped then ([], c) else (c.backoff ∷ sleeps, c')

-- `msg.type in (expected, MSG_ERROR)`
abbrev pub is_reply : Option String → Message → Bool
is_reply none msg = false
is_reply (some expected) msg = msg.type == expected || msg.type == "ERROR"

-- A message in `_event_loop`.
unfoldable pub deliver : Message → ControlChannel → ControlChannel
deliver msg c =
    if is_reply c.expected_type msg
    then record c { responses = c.responses ++ some msg ∷ [] }
    else record c { events = c.events ++ msg ∷ [] }

unfoldable pub event_loop : List Message → ControlChannel → ControlChannel
unfolding deliver
event_loop [] c = c
event_loop (msg ∷ msgs) c =
    let rest = event_loop msgs (deliver msg c) in if c.connected && not c.stopped then rest else c

-- The end of a request.
pub data Reply : Type 0 where
  reply : Message → Reply
  control_error : Payload → Reply
  not_connected connection_lost timed_out : Reply

-- The loop of `request` over the responses, and those that it leaves.
unfoldable pub await_reply : String → List (Option Message) → Reply × List (Option Message)
await_reply expected [] = (timed_out, [])
await_reply expected (none ∷ rest) = (connection_lost, rest)
await_reply expected (some msg ∷ rest) =
    let later = await_reply expected rest in
    if msg.type == "ERROR"
    then (control_error msg.payload, rest)
    else if msg.type == expected
    then (reply msg, rest)
    else later

-- The loop of `request` over the stream itself: a message that is no answer is dropped.
unfoldable pub read_reply : String → List Message → Reply
read_reply expected [] = timed_out
read_reply expected (msg ∷ rest) =
    let later = read_reply expected rest in
    if msg.type == "ERROR"
    then control_error msg.payload
    else if msg.type == expected
    then reply msg
    else later

-- A request whose answer the background reader files.
unfoldable pub request_through_reader :
    String → List Message → ControlChannel → ControlChannel × Reply
unfolding event_loop await_reply
request_through_reader expected arriving c =
    let c' = event_loop arriving (record c { expected_type = some expected }) in
    let (answer, rest) = await_reply expected c'.responses in
    (record c' { expected_type = none; responses = rest }, answer)

-- A request, and the messages that come until it ends. The background reader reads them if it owns the stream,
-- and else the request itself does. A channel has a writer just when it is connected.
unfoldable pub request : String → List Message → ControlChannel → ControlChannel × Reply
unfolding request_through_reader read_reply
request expected arriving c =
    let c' = record c { expected_type = none } in
    if not c.connected
    then (c', not_connected)
    else if c.reader_owned
    then request_through_reader expected arriving c
    else (c', read_reply expected arriving)

-- `_on_connection_lost`
unfoldable pub on_connection_lost : ControlChannel → ControlChannel
on_connection_lost c = if c.stopped || not c.connected then c else record c {
  connected = false;
  authenticated = false;
  responses = c.responses ++ none ∷ [];
  reconnecting = true;
}

unfoldable pub close : ControlChannel → ControlChannel
close c = record c {
  stopped = true;
  reconnecting = false;
  connected = false;
  authenticated = false;
  reader_owned = false;
}
