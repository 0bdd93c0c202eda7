-- ===== src/SwitchOrdering/Examples.antt =====
-- Two handlers, a switch and its ports.
use runos.Base.{ℕ, ◌≡◌, refl, true, List, [], ◌∷◌, arith}
use runos.SwitchAndPort.{SwitchAndPort, switch_and_port}
use runos.SwitchOrdering.{SwitchOrderingManager, up, link_call, finish_handling, cached_calls}
use runos.SwitchOrdering.Handlers.{Handler, at_link_up}
use runos.SwitchOrdering.Lists.{count}
use runos.SwitchOrdering.Order.{IsOrdered, switch_up, start, finish, run, run-IsOrdered}

abbrev two_handlers : List (ℕ × Handler)
two_handlers = (1, record { id = 8; types = 15 }) ∷ (16, record { id = 9; types = 3 }) ∷ []

abbrev one_cached : SwitchOrderingManager
one_cached = record {
  handlers = two_handlers;
  connected = 6 ∷ [];
  cached = (4, switch_and_port 4 1 ∷ []) ∷ [];
  barrier_timers = 6 ∷ [];
  ups = [];
  downs = [];
}

cached_run : (finish_handling up 4 one_cached).1 ≡ link_call 8 at_link_up (switch_and_port 4 1) ∷ []
unfolding finish_handling cached_calls
cached_run = refl

one_cached-IsOrdered : IsOrdered one_cached
unfolding count
one_cached-IsOrdered = record {
  one_thread = λ d. omega arith;
  once = λ d. ground arith;
  down_connected = λ d. omega arith;
}

run-IsOrdered_example : IsOrdered (
    run one_cached (
      switch_up 4 ∷ start up true 4 two_handlers ∷ start up true 4 two_handlers ∷ finish up 4 ∷ []))
run-IsOrdered_example =
    run-IsOrdered one_cached
      (switch_up 4 ∷ start up true 4 two_handlers ∷ start up true 4 two_handlers ∷ finish up 4 ∷ [])
      one_cached-IsOrdered

abbrev second_port : SwitchAndPort
second_port = switch_and_port 4 2
