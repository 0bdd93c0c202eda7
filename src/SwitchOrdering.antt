-- ===== src/SwitchOrdering.antt =====
-- src/core/SwitchOrdering.cc, SwitchOrdering.hpp: the order in which switch and link events reach
-- the applications. A switch is its dpid, a port its dpid and number. Work in a thread has two
-- steps, `start_handling` and `finish_handling`, with the mutex of the switch held between them;
-- every other slot is one step. What a handler does is not modelled, only that it is called. Whether
-- the connection is alive is an argument. A failed CHECK is `none`.
pub mod Handlers
pub mod Lists
pub mod Order
pub mod Cache
mod Examples
use runos.Base.{
  ℕ, ◌≡◌, Bool, true, false, not, ◌||◌, ◌&&◌, Option, none, some, List, [], ◌∷◌, ◌++◌, map, ◌==◌,
  if◌then◌else◌,
}
use runos.SwitchAndPort.{SwitchAndPort, port_eq}
use Handlers.{
  EventType, at_switch_up, at_switch_down, at_link_up, at_link_down, Handler, subscribe, wanting,
}
use Lists.{find, remove_all, Links, find_links, set_links, remove_port}

pub data SwitchAction : Type 0 where
  up down : SwitchAction

-- `ups` and `downs` are the switches whose mutex in `SwitchLocker` a running handler holds.
pub record SwitchOrderingManager : Type 0 where
  pub handlers : List (ℕ × Handler)
  pub connected : List ℕ
  pub cached : Links
  pub barrier_timers : List ℕ
  pub ups : List ℕ
  pub downs : List ℕ

pub data Call : Type 0 where
  thread_started : SwitchAction → ℕ → List (ℕ × Handler) → Call
  switch_call : ℕ → SwitchAction → ℕ → Call
  link_call : ℕ → EventType → SwitchAndPort → Call

abbrev pub type_of : SwitchAction → EventType
type_of up = at_switch_up
type_of down = at_switch_down

pub run_handling : ℕ → SwitchAction → SwitchOrderingManager → Call
unfolding subscribe
run_handling dpid act m = thread_started act dpid (subscribe (type_of act) m.handlers [])

pub is_connected : ℕ → SwitchOrderingManager → Bool
unfolding find
is_connected dpid m = find dpid m.connected

unfoldable pub link_calls : EventType → SwitchAndPort → List (ℕ × Handler) → List Call
unfolding wanting
link_calls type port handlers = map (λ h. link_call h.1.id type port) (wanting type handlers)

pub on_switch_up : ℕ → SwitchOrderingManager → SwitchOrderingManager × List Call
unfolding run_handling find
on_switch_up dpid m = (
  record m {
    barrier_timers =
        if find dpid m.barrier_timers then m.barrier_timers else dpid ∷ m.barrier_timers;
  },
  run_handling dpid up m ∷ [],
)

pub on_switch_down : ℕ → SwitchOrderingManager → Option (SwitchOrderingManager × List Call)
unfolding run_handling find remove_all
on_switch_down dpid m =
    if find dpid m.barrier_timers
    then some (
      record m { barrier_timers = remove_all dpid m.barrier_timers },
      run_handling dpid down m ∷ [],
    )
    else none

pub on_link_up : SwitchAndPort → SwitchOrderingManager → SwitchOrderingManager × List Call
unfolding is_connected link_calls find_links set_links
on_link_up port m =
    if is_connected port.dpid m then (m, link_calls at_link_up port m.handlers) else (
      record m {
        cached = set_links port.dpid (find_links port.dpid m.cached ++ port ∷ []) m.cached;
      },
      [],
    )

abbrev pub no_ports : List SwitchAndPort → Bool
no_ports [] = true
no_ports (p ∷ ps) = false

pub on_link_down : SwitchAndPort → SwitchOrderingManager → SwitchOrderingManager × List Call
unfolding link_calls find_links set_links remove_port
on_link_down port m =
    if no_ports (find_links port.dpid m.cached)
    then (m, link_calls at_link_down port m.handlers)
    else (
      record m {
        cached = set_links port.dpid (remove_port port (find_links port.dpid m.cached)) m.cached;
      },
      [],
    )

-- `alive` is `sw->connection()->alive()`.
pub can_handle_action : SwitchAction → Bool → ℕ → SwitchOrderingManager → Bool
unfolding is_connected
can_handle_action up alive dpid m = alive && not (is_connected dpid m)
can_handle_action down alive dpid m = is_connected dpid m && not alive

abbrev pub hold : SwitchAction → ℕ → SwitchOrderingManager → SwitchOrderingManager
hold up dpid m = record m { ups = dpid ∷ m.ups }
hold down dpid m = record m { downs = dpid ∷ m.downs }

abbrev pub told : SwitchAction → ℕ → List (ℕ × Handler) → List Call
told act dpid subscribed = map (λ h. switch_call h.1.id act dpid) subscribed

-- The thread waits while another one holds the mutex: then nothing happens.
pub start_handling :
    SwitchAction
    → Bool
    → ℕ
    → List (ℕ × Handler)
    → SwitchOrderingManager
    → SwitchOrderingManager × List Call
unfolding can_handle_action find
start_handling act alive dpid subscribed m =
    if find dpid m.ups || find dpid m.downs
    then (m, [])
    else if can_handle_action act alive dpid m
    then (hold act dpid m, told act dpid subscribed)
    else (m, [])

unfoldable pub cached_calls : List SwitchAndPort → List (ℕ × Handler) → List Call
unfolding link_calls
cached_calls [] handlers = []
cached_calls (p ∷ ps) handlers = link_calls at_link_up p handlers ++ cached_calls ps handlers

-- The slots of `finished`, then the mutex is free. Moving the cached ports out leaves none.
pub finish_handling : SwitchAction → ℕ → SwitchOrderingManager → SwitchOrderingManager × List Call
unfolding cached_calls find_links set_links remove_all
finish_handling up dpid m = (
  record m {
    connected = m.connected ++ dpid ∷ [];
    cached = if no_ports (find_links dpid m.cached) then m.cached else set_links dpid [] m.cached;
    ups = remove_all dpid m.ups;
  },
  cached_calls (find_links dpid m.cached) m.handlers,
)
finish_handling down dpid m =
    (record m { connected = remove_all dpid m.connected; downs = remove_all dpid m.downs }, [])
