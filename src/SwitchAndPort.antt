-- ===== src/SwitchAndPort.antt =====
-- src/core/lib/switch_and_port.hpp: a port of a switch, with its order.
use runos.Base.{ℕ, ◌≡◌, Bool, true, false, ◌&&◌, ◌||◌, ltb, ◌==◌, arith}

pub record SwitchAndPort : Type 0 where
  pub dpid : ℕ
  pub port : ℕ

abbrev pub switch_and_port : ℕ → ℕ → SwitchAndPort
switch_and_port d p = record { dpid = d; port = p }

unfoldable pub port_eq : SwitchAndPort → SwitchAndPort → Bool
port_eq a b = a.dpid == b.dpid && a.port == b.port

unfoldable pub port_lt : SwitchAndPort → SwitchAndPort → Bool
port_lt a b = ltb a.dpid b.dpid || (a.dpid == b.dpid && ltb a.port b.port)

pub port_eq→eq : (a b : SwitchAndPort) → port_eq a b ≡ true → a ≡ b
unfolding port_eq
port_eq→eq a b h = ground arith

pub port_eq_refl : (a : SwitchAndPort) → port_eq a a ≡ true
unfolding port_eq
port_eq_refl a = ground arith

pub port_lt_total : (a b : SwitchAndPort) → port_lt a b ≡ false → port_lt b a ≡ false → a ≡ b
unfolding port_lt
port_lt_total a b h k = ground arith

pub port_lt_asymm :
    (a b : SwitchAndPort)
    → port_lt a b ≡ true
    → (port_lt b a ≡ false) × (port_eq a b ≡ false) × (port_eq b a ≡ false)
unfolding port_lt port_eq
port_lt_asymm a b h = ground arith
