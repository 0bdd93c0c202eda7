-- ===== src/SwitchOrdering/Order.antt =====
-- Simultaneous connects and disconnects of a switch are handled one after the other.
use runos.Base.{
  ℕ, ◌+◌, ◌≤◌, ◌≡◌, refl, Bool, true, Option, none, some, List, [], ◌∷◌, if◌then◌else◌, arith,
}
use runos.SwitchAndPort.{SwitchAndPort}
use runos.SwitchOrdering.{
  SwitchOrderingManager, SwitchAction, up, down, Call, is_connected, on_switch_up, on_switch_down,
  on_link_up, on_link_down, can_handle_action, start_handling, finish_handling,
}
use runos.SwitchOrdering.Handlers.{Handler}
use runos.SwitchOrdering.Lists.{count, find, count-append, find-count, count-remove_all}

-- A switch is handled by one thread at most; it is connected once, unless its up is being handled;
-- where its down is being handled it is connected.
pub record IsOrdered (m : SwitchOrderingManager) : Type 0 where
  pub one_thread : (d : ℕ) → count d m.ups + count d m.downs ≤ 1
  pub once : (d : ℕ) → count d m.connected + count d m.ups ≤ 1
  pub down_connected : (d : ℕ) → count d m.downs ≤ count d m.connected

pub data Event : Type 0 where
  switch_up switch_down : ℕ → Event
  link_up link_down : SwitchAndPort → Event
  start : SwitchAction → Bool → ℕ → List (ℕ × Handler) → Event
  finish : SwitchAction → ℕ → Event

abbrev kept :
    SwitchOrderingManager → Option (SwitchOrderingManager × List Call) → SwitchOrderingManager
kept m none = m
kept m (some r) = r.0

abbrev holds : SwitchAction → ℕ → SwitchOrderingManager → Bool
holds up d m = find d m.ups
holds down d m = find d m.downs

-- A thread finishes that has started.
abbrev pub step : Event → SwitchOrderingManager → SwitchOrderingManager
step (switch_up d) m = (on_switch_up d m).0
step (switch_down d) m = kept m (on_switch_down d m)
step (link_up p) m = (on_link_up p m).0
step (link_down p) m = (on_link_down p m).0
step (start act alive d subscribed) m = (start_handling act alive d subscribed m).0
step (finish act d) m = if holds act d m then (finish_handling act d m).0 else m

start_up :
    (alive : Bool) (d : ℕ) (hs : List (ℕ × Handler)) (m : SwitchOrderingManager)
    → IsOrdered m
    → IsOrdered ((start_handling up alive d hs m).0)
unfolding start_handling can_handle_action is_connected count
start_up alive d hs m v = record {
  one_thread = λ x. ground (arith, find-count d m.ups, find-count d m.downs, v.one_thread x);
  once = λ x. ground (arith, find-count d m.ups, find-count d m.connected, v.once x);
  down_connected = λ x. ground (arith, v.down_connected x);
}

start_down :
    (alive : Bool) (d : ℕ) (hs : List (ℕ × Handler)) (m : SwitchOrderingManager)
    → IsOrdered m
    → IsOrdered ((start_handling down alive d hs m).0)
unfolding start_handling can_handle_action is_connected count
start_down alive d hs m v = record {
  one_thread = λ x. ground (arith, find-count d m.ups, find-count d m.downs, v.one_thread x);
  once = λ x. ground (arith, v.once x);
  down_connected =
      λ x. ground (arith, find-count d m.downs, find-count d m.connected, v.down_connected x);
}

finish_up :
    (d : ℕ) (m : SwitchOrderingManager)
    → find d m.ups ≡ true
    → IsOrdered m
    → IsOrdered ((finish_handling up d m).0)
unfolding finish_handling count
finish_up d m h v = record {
  one_thread = λ x. ground (arith, count-remove_all x d m.ups, v.one_thread x);
  once = λ x. ground (
    arith,
    count-remove_all x d m.ups,
    count-append x m.connected (d ∷ []),
    find-count d m.ups,
    v.once x,
  );
  down_connected = λ x. ground (arith, count-append x m.connected (d ∷ []), v.down_connected x);
}

finish_down :
    (d : ℕ) (m : SwitchOrderingManager) → IsOrdered m → IsOrdered ((finish_handling down d m).0)
unfolding finish_handling
finish_down d m v = record {
  one_thread = λ x. ground (arith, count-remove_all x d m.downs, v.one_thread x);
  once = λ x. ground (arith, count-remove_all x d m.connected, v.once x);
  down_connected = λ x.
      ground
        (arith, count-remove_all x d m.connected, count-remove_all x d m.downs, v.down_connected x);
}

same_order :
    (m n : SwitchOrderingManager)
    → n.ups ≡ m.ups
    → n.downs ≡ m.downs
    → n.connected ≡ m.connected
    → IsOrdered m
    → IsOrdered n
same_order m n u w c v = record {
  one_thread = λ x. ground (arith, v.one_thread x);
  once = λ x. ground (arith, v.once x);
  down_connected = λ x. ground (arith, v.down_connected x);
}

pub step-IsOrdered : (e : Event) (m : SwitchOrderingManager) → IsOrdered m → IsOrdered (step e m)
unfolding on_switch_up on_switch_down on_link_up on_link_down
step-IsOrdered (switch_up d) m v = same_order m _ refl refl refl v
step-IsOrdered (switch_down d) m v =
    same_order m (kept m (on_switch_down d m)) (ground arith) (ground arith) (ground arith) v
step-IsOrdered (link_up p) m v =
    same_order m ((on_link_up p m).0) (ground arith) (ground arith) (ground arith) v
step-IsOrdered (link_down p) m v =
    same_order m ((on_link_down p m).0) (ground arith) (ground arith) (ground arith) v
step-IsOrdered (start up alive d hs) m v = start_up alive d hs m v
step-IsOrdered (start down alive d hs) m v = start_down alive d hs m v
step-IsOrdered (finish up d) m v = ground (arith, finish_up d m)
step-IsOrdered (finish down d) m v = ground (arith, finish_down d m v)

pub run : SwitchOrderingManager → List Event → SwitchOrderingManager
run m [] = m
run m (e ∷ es) = run (step e m) es

-- Along any sequence of switch and link events and of threads that start and finish, from a state
-- in which this holds: one thread at most handles a switch, a switch is connected at most once and
-- not while its connect is being handled, and it is connected while its disconnect is being
-- handled.
pub run-IsOrdered :
    (m : SwitchOrderingManager) (es : List Event) → IsOrdered m → IsOrdered (run m es)
unfolding run
run-IsOrdered m [] v = v
run-IsOrdered m (e ∷ es) v = run-IsOrdered (step e m) es (step-IsOrdered e m v)
