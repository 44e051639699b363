-- ===== src/Channel/Tests.antt =====
-- The theorems on the control channel at a concrete one.
use local_network_ecosystem.Prelude.{◌≡◌, refl, String, true, false, none, [], ◌∷◌, string_eq}
use local_network_ecosystem.Channel.{Message, ControlChannel, reconnect_loop}

abbrev of_type : String → Message
of_type type = record { type = type; payload = [] }

abbrev channel : ControlChannel
channel = record {
  reconnect_base_delay = 1;
  reconnect_max_delay = 60;
  backoff = 1;
  connected = true;
  authenticated = true;
  stopped = false;
  reader_owned = true;
  reconnecting = false;
  expected_type = none;
  events = [];
  responses = [];
}

-- The loop goes on after a sign-in that has succeeded.
goes_on :
    (reconnect_loop ((false, false) ∷ (false, false) ∷ (true, true) ∷ (true, true) ∷ []) channel).0
    ≡ 1 ∷ 2 ∷ 4 ∷ 1 ∷ []
unfolding reconnect_loop
goes_on = refl
