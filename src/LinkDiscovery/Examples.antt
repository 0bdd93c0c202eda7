-- ===== src/LinkDiscovery/Examples.antt =====
-- Two switches joined by a cable, and the wirings that LinkDiscovery does not expect.
use runos.Base.{
  ℕ, ◌+◌, ◌-◌, ◌%◌, ◌≡◌, ◌≢◌, refl, ap, Bool, true, List, [], ◌∷◌, arith, none, some, ◌==◌,
  if◌then◌else◌,
}
use runos.SwitchAndPort.{SwitchAndPort, switch_and_port, port_eq, port_lt}
use runos.LinkDiscovery.Links.{Link, link, has, find_link, link_eq}
use runos.LinkDiscovery.{LinkDiscovery, put_edge}
use runos.LinkDiscovery.Invariant.{touches, Agrees, touches, IsConsistent-empty}
use runos.LinkDiscovery.Wiring.{IsWired, Event, beacon, port_down, poll, run, run-IsWired}
use runos.LinkDiscovery.Discovery.{Linked, beacons-Linked}

-- Even and odd ports of a switch are joined in pairs.
flip : ℕ → ℕ
flip n = if n % 2 == 0 then n + 1 else n - 1

abbrev peer : SwitchAndPort → SwitchAndPort
peer p = switch_and_port p.dpid (flip p.port)

back : (p : SwitchAndPort) → peer (peer p) ≡ p
unfolding flip
back p = ground arith

flip_apart : (n : ℕ) → flip n ≢ n
unfolding flip
flip_apart n = ground arith

apart : (p : SwitchAndPort) → peer p ≢ p
apart p e = flip_apart p.port (ap (λ (q : SwitchAndPort). q.port) e)

abbrev all_known : ℕ → Bool
all_known d = true

abbrev start : LinkDiscovery
start = record { poll_interval = 5; links = []; waiting_links = []; out_edges = λ p. none }

start-IsWired : IsWired peer back apart start
unfolding has
start-IsWired = record {
  agrees = IsConsistent-empty;
  sorted = tt;
  distinct = tt;
  sorted_waiting = tt;
  links_along = λ l h. ground arith;
  waiting_along = λ l h. ground arith;
}

abbrev p0 : SwitchAndPort
p0 = switch_and_port 1 0

abbrev p1 : SwitchAndPort
p1 = switch_and_port 1 1

abbrev p2 : SwitchAndPort
p2 = switch_and_port 1 2

abbrev events : List Event
events = beacon 0 p0 ∷ beacon 1 p1 ∷ poll 5 ∷ port_down p0 ∷ []

run-IsWired_example :
    (d : LinkDiscovery) × (run peer all_known start events ≡ some d) × IsWired peer back apart d
run-IsWired_example = run-IsWired peer back apart all_known start events start-IsWired

beacons-Linked_example :
    (d : LinkDiscovery) × (run peer all_known start (beacon 0 p0 ∷ beacon 1 (peer p0) ∷ [])
      ≡ some d)
    × Linked d (peer p0) p0
unfolding find_link
beacons-Linked_example =
    beacons-Linked peer back apart all_known start 0 1 p0 start-IsWired refl refl refl

-- One link, between the first two ports.
abbrev cable : Link
cable = link p0 p1 10

abbrev cabled : LinkDiscovery
cabled = record start {
  links = cable ∷ [];
  out_edges = put_edge p1 cable (put_edge p0 cable (λ p. none));
}

cabled_known :
    (p : SwitchAndPort) (l : Link)
    → cabled.out_edges p ≡ some l
    → (has l cabled.links ≡ true) × (touches l p ≡ true)
unfolding has link_eq port_eq
cabled_known p l h = ground arith

cabled_entered :
    (l : Link)
    → has l cabled.links ≡ true
    → (port_lt l.source l.target ≡ true)
      × (cabled.out_edges l.source ≡ some l)
      × (cabled.out_edges l.target ≡ some l)
unfolding has link_eq port_eq port_lt
cabled_entered l h = ground arith

cabled-Agrees : Agrees cabled
cabled-Agrees = record { edge_known = cabled_known; link_entered = cabled_entered }

-- `p0` is linked to `p2`, and has heard `p1`.
abbrev crossed : Link
crossed = link p0 p2 10

abbrev shared : LinkDiscovery
shared = record start {
  links = crossed ∷ [];
  waiting_links = link p0 p1 10 ∷ [];
  out_edges = put_edge p2 crossed (put_edge p0 crossed (λ p. none));
}

abbrev looped_start : LinkDiscovery
looped_start = record start { waiting_links = link p0 p0 10 ∷ [] }
