-- ===== src/AccessControl/Tests.antt =====
-- The theorem on access at concrete rules: an address is its text, a network the text of its one host.
use local_network_ecosystem.Prelude.{◌≡◌, refl, String, false, some, [], ◌∷◌, string_eq, ◌==◌}
use local_network_ecosystem.AccessControl.{IpAddress, AccessControl, allowed, deny, check, matches}

abbrev hosts : IpAddress
hosts = record {
  Ip = String;
  Network = String;
  ip_address = λ s. some s;
  ip_network = λ s. some s;
  is_inside = λ ip network. ip == network;
}

abbrev access : AccessControl
access = record { rules = (allowed, "10.0.0.1") ∷ [] }

kept_out : check hosts "10.0.0.2" (deny "10.0.0.2" access) ≡ false
unfolding check deny matches
kept_out = refl
