-- ===== src/Consumption/Ports.antt =====
-- The port that a mapping gets.
use local_network_ecosystem.Prelude.{
  ℕ, zero, suc, ◌+◌, ◌≤◌, ◌<◌, ◌≡◌, Bool, true, false, not, ◌&&◌, List, arith, string_eq, ◌==◌,
  Bool-cases, inl, inr, nat_beq_iff, nat_eq,
}
use local_network_ecosystem.Registry.{values}
use local_network_ecosystem.Consumption.{
  MappedService, ServiceConsumer, ok, os_error, is_used, first_port, find_auto_port, auto_ports,
  auto_port_start,
}

module _ (free : ℕ → Bool) where
  -- The port found is one of those looked at, not used and free.
  pub first_port-ok :
      (n start port : ℕ) (ms : List MappedService)
      → first_port free n start ms ≡ ok port
      → (start ≤ port) × (port < start + n) × (is_used port ms ≡ false) × (free port ≡ true)
  unfolding first_port
  first_port-ok zero start port ms e = absurd cc
  first_port-ok (suc n) start port ms e = elim (Bool-cases (not (is_used start ms) && free start)) [
    | inl here ↦ ground arith
    | inr on ↦
        let later : first_port free n (start + 1) ms ≡ ok port = ground arith in
        let (low, high, unused, can_bind) = first_port-ok n (start + 1) port ms later in
        (omega arith, omega arith, unused, can_bind)
  ]

  -- No port is found just when each that was looked at is used or cannot be bound.
  pub first_port-none :
      (n start port : ℕ) (ms : List MappedService)
      → first_port free n start ms ≡ os_error
      → start ≤ port
      → port < start + n
      → (not (is_used port ms) && free port) ≡ false
  unfolding first_port
  first_port-none zero start port ms e low high = absurd (omega arith)
  first_port-none (suc n) start port ms e low high = elim (Bool-cases (start == port)) [
    | inl same ↦ ground (arith, nat_beq_iff start port)
    | inr other ↦
        let later : first_port free n (start + 1) ms ≡ os_error = ground arith in
        let apart = nat_beq_iff start port in
        first_port-none n (start + 1) port ms later (ground arith) (omega arith)
  ]

  -- A port that is chosen automatically is in the range, no mapping has it, and it can be bound.
  pub find_auto_port_lem :
      (c : ServiceConsumer) (port : ℕ)
      → find_auto_port free c ≡ ok port
      → (50000 ≤ port)
        × (port ≤ 50999)
        × (is_used port (values c.mapped) ≡ false)
        × (free port ≡ true)
  unfolding find_auto_port
  find_auto_port_lem c port e =
      let (low, high, unused, can_bind) =
        first_port-ok auto_ports auto_port_start port (values c.mapped) e in
      (low, omega arith, unused, can_bind)
