-- ===== src/Protocol/Tests.antt =====
-- The checks of a payload at concrete fields.
use local_network_ecosystem.Prelude.{◌≡◌, refl, true, false, [], ◌∷◌}
use local_network_ecosystem.Protocol
use local_network_ecosystem.Protocol.{
  matches_id, text, validate_expose_service, number, is_required,
}

takes_id : matches_id "alice_01" ≡ true
unfolding matches_id
takes_id = refl

takes_line_feed : matches_id "alice_01\n" ≡ true
unfolding matches_id
takes_line_feed = refl

refuses_space : matches_id "alice 01" ≡ false
unfolding matches_id
refuses_space = refl

port_is_needed :
    validate_expose_service (("name", text "printer") ∷ ("local_port", number 65536 "65536") ∷ [])
    ≡ Protocol.err Protocol.bad_local_port
unfolding validate_expose_service Protocol.Dict.get
port_is_needed = refl
