-- ===== src/AccessControl.antt =====
-- proxy/security/access.py: the rules that let addresses in or keep them out. The `ipaddress` package
-- is the section's parameter.
pub mod Rules
mod Tests
use local_network_ecosystem.Prelude.{
  String, Bool, true, false, Option, none, some, List, [], ◌∷◌, ◌++◌, if◌then◌else◌,
}

-- What the code uses of `ipaddress`; `none` stands for a ValueError.
pub record IpAddress : Type 1 where
  pub Ip : Type 0
  pub Network : Type 0
  pub ip_address : String → Option Ip
  pub ip_network : String → Option Network
  pub is_inside : Ip → Network → Bool

pub data Action : Type 0 where
  allowed denied : Action

pub record AccessControl : Type 0 where
  pub rules : List (Action × String)

unfoldable pub allow : String → AccessControl → AccessControl
allow network a = record { rules = a.rules ++ (allowed, network) ∷ [] }

unfoldable pub deny : String → AccessControl → AccessControl
deny network a = record { rules = a.rules ++ (denied, network) ∷ [] }

unfoldable pub clear : AccessControl → AccessControl
clear a = record { rules = [] }

abbrev pub is_allowed : Action → Bool
is_allowed allowed = true
is_allowed denied = false

module _ (ipaddress : IpAddress) where
  -- `ip in network`, with a ValueError as no match.
  unfoldable pub matches : ipaddress.Ip → String → Bool
  matches ip network = elim (ipaddress.ip_network network) [
    | none ↦ false
    | some n ↦ ipaddress.is_inside ip n
  ]

  -- The loop over the rules.
  unfoldable pub check_rules : ipaddress.Ip → List (Action × String) → Bool
  check_rules ip [] = true
  check_rules ip ((action, network) ∷ rest) =
      let later = check_rules ip rest in if matches ip network then is_allowed action else later

  unfoldable pub check : String → AccessControl → Bool
  unfolding check_rules
  check client_ip a = elim a.rules [
    | [] ↦ true
    | rule ∷ rest ↦ elim (ipaddress.ip_address client_ip) [
      | none ↦ true
      | some ip ↦ check_rules ip (rule ∷ rest)
    ]
  ]
