-- ===== src/AccessControl/Rules.antt =====
-- The first rule that matches decides.
use local_network_ecosystem.Prelude.{
  ◌≡◌, refl, String, Bool, true, false, not, Option, none, some, List, [], ◌∷◌, ◌++◌, arith, any,
  if◌then◌else◌,
}
use local_network_ecosystem.AccessControl.{
  IpAddress, Action, AccessControl, allowed, denied, allow, deny, is_allowed, matches, check_rules,
  check,
}

-- Whether some rule decides on the address; one that does not parse needs none.
abbrev pub decided : (ipaddress : IpAddress) → Option ipaddress.Ip → List (Action × String) → Bool
decided ipaddress none rules = true
decided ipaddress (some ip) rules = any (λ rule. matches ipaddress ip rule.1) rules

abbrev pub is_inside_text : (ipaddress : IpAddress) → Option ipaddress.Ip → String → Bool
is_inside_text ipaddress none network = false
is_inside_text ipaddress (some ip) network = matches ipaddress ip network

check_rules-append :
    (ipaddress : IpAddress) (ip : ipaddress.Ip) (rules : List (Action × String)) (action : Action)
    (network : String)
    → check_rules ipaddress ip (rules ++ (action, network) ∷ []) ≡ (
        if any (λ rule. matches ipaddress ip rule.1) rules
        then check_rules ipaddress ip rules
        else if matches ipaddress ip network
        then is_allowed action
        else true)
unfolding check_rules
check_rules-append ipaddress ip [] action network = refl
check_rules-append ipaddress ip ((a, n) ∷ rules) action network =
    ground (arith, check_rules-append ipaddress ip rules action network)

check_rules_undecided :
    (ipaddress : IpAddress) (ip : ipaddress.Ip) (rules : List (Action × String))
    → any (λ rule. matches ipaddress ip rule.1) rules ≡ false
    → check_rules ipaddress ip rules ≡ true
unfolding check_rules
check_rules_undecided ipaddress ip [] h = refl
check_rules_undecided ipaddress ip ((a, n) ∷ rules) h =
    ground (arith, h, check_rules_undecided ipaddress ip rules)

-- An address that does not parse is let in; else the rules decide, and no rule lets it in.
verdict : (ipaddress : IpAddress) → Option ipaddress.Ip → List (Action × String) → Bool
verdict ipaddress none rules = true
verdict ipaddress (some ip) rules = check_rules ipaddress ip rules

check-verdict :
    (ipaddress : IpAddress) (client_ip : String) (rules : List (Action × String))
    → check ipaddress client_ip (record { rules = rules })
      ≡ verdict ipaddress (ipaddress.ip_address client_ip) rules
unfolding check verdict check_rules
check-verdict ipaddress client_ip [] = ground arith
check-verdict ipaddress client_ip (rule ∷ rest) = ground arith

verdict-append :
    (ipaddress : IpAddress) (address : Option ipaddress.Ip) (network : String)
    (rules : List (Action × String))
    → (verdict ipaddress address (rules ++ (denied, network) ∷ []) ≡ (
        if decided ipaddress address rules
        then verdict ipaddress address rules
        else not (is_inside_text ipaddress address network)))
      × (verdict ipaddress address (rules ++ (allowed, network) ∷ [])
          ≡ verdict ipaddress address rules)
unfolding verdict
verdict-append ipaddress none network rules = (refl, refl)
verdict-append ipaddress (some ip) network rules = (
  ground (arith, check_rules-append ipaddress ip rules denied network),
  ground (
    arith,
    check_rules-append ipaddress ip rules allowed network,
    check_rules_undecided ipaddress ip rules,
  ),
)

-- A rule that is added last changes only what no earlier rule decides: deny then keeps out exactly
-- the addresses of its network, and allow changes no answer.
pub check-deny :
    (ipaddress : IpAddress) (client_ip network : String) (a : AccessControl)
    → let address = ipaddress.ip_address client_ip in
      (check ipaddress client_ip (deny network a) ≡ (
        if decided ipaddress address a.rules
        then check ipaddress client_ip a
        else not (is_inside_text ipaddress address network)))
      × (check ipaddress client_ip (allow network a) ≡ check ipaddress client_ip a)
unfolding deny allow
check-deny ipaddress client_ip network a =
    let (kept_out, let_in) =
      verdict-append ipaddress (ipaddress.ip_address client_ip) network a.rules in
    let now = check-verdict ipaddress client_ip a.rules in
    let denying = check-verdict ipaddress client_ip (a.rules ++ (denied, network) ∷ []) in
    let allowing = check-verdict ipaddress client_ip (a.rules ++ (allowed, network) ∷ []) in
    (cc, cc)
