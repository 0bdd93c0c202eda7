-- ===== src/Topology/Numbering.antt =====
-- Identifiers of paths are positions, along every sequence of calls on a route.
use runos.Base.{
  ℕ, zero, suc, ◌≡◌, refl, true, some, List, [], ◌∷◌, ltb, if◌then◌else◌, arith, length,
  length-append,
}
use runos.SwitchAndPort.{SwitchAndPort}
use runos.Topology.Paths.{RoutePath, new_path, u8, reset_triggers}
use runos.Topology.Sequences.{nth, nth-append_last}
use runos.Topology.Routes.{
  Route, RouteSelector, attach_path, with_selector, delete_path, move_path, reset_at, set_used_path,
  modify_at, modify_path,
}
use runos.Topology.Order.{IsNumbered, move_path-Moved, detach_path-IsNumbered}

pub data RouteCall : Type 0 where
  attach : List SwitchAndPort → RouteSelector → RouteCall
  delete use_path : ℕ → RouteCall
  move : ℕ → ℕ → RouteCall
  modify : ℕ → RouteSelector → RouteCall

-- No 256th path is attached: its identifier would wrap to 0 and clash with `max_path_id` before.
abbrev pub route_step : RouteCall → Route → Route
route_step (attach path s) r = if ltb (length r.paths) 255 then attach_path path s r else r
route_step (delete k) r = (delete_path k r).0
route_step (use_path k) r = set_used_path k r
route_step (move a b) r = (move_path a b r).0
route_step (modify k s) r = (modify_path k s r).0

attached-IsNumbered :
    (path : List SwitchAndPort) (s : RouteSelector) (r : Route)
    → IsNumbered r.paths
    → ltb (length r.paths) 255 ≡ true
    → IsNumbered ((attach_path path s r).paths)
unfolding attach_path with_selector new_path u8
attached-IsNumbered path s r v h =
    let q = with_selector s (new_path (length r.paths) r.id path) in
    record {
      size = ground (arith, h, length-append r.paths (q ∷ []));
      numbered = λ i p e. ground (arith, v.size, v.numbered i p, nth-append_last i r.paths q);
    }

nth-reset_at :
    (i k : ℕ) (ps : List RoutePath) (p : RoutePath)
    → nth i (reset_at k ps) ≡ some p
    → (q : RoutePath) × (nth i ps ≡ some q) × (q.id ≡ p.id)
unfolding nth reset_at reset_triggers
nth-reset_at i k [] p h = ground arith
nth-reset_at zero zero (q ∷ ps) p h = (q, refl, ground (arith, h))
nth-reset_at (suc i) zero (q ∷ ps) p h = (p, h, refl)
nth-reset_at zero (suc k) (q ∷ ps) p h = (p, h, refl)
nth-reset_at (suc i) (suc k) (q ∷ ps) p h = nth-reset_at i k ps p h

length-reset_at : (k : ℕ) (ps : List RoutePath) → length (reset_at k ps) ≡ length ps
unfolding reset_at
length-reset_at k [] = refl
length-reset_at zero (p ∷ ps) = refl
length-reset_at (suc k) (p ∷ ps) = omega (arith, length-reset_at k ps)

reset-IsNumbered : (k : ℕ) (ps : List RoutePath) → IsNumbered ps → IsNumbered (reset_at k ps)
reset-IsNumbered k ps v = record {
  size = omega (arith, v.size, length-reset_at k ps);
  numbered = λ i p e. let (q, f, g) = nth-reset_at i k ps p e in omega (arith, g, v.numbered i q f);
}

nth-modify_at :
    (i k : ℕ) (s : RouteSelector) (ps : List RoutePath) (p : RoutePath)
    → nth i (modify_at k s ps) ≡ some p
    → (q : RoutePath) × (nth i ps ≡ some q) × (q.id ≡ p.id)
unfolding nth modify_at
nth-modify_at i k s [] p h = ground arith
nth-modify_at zero zero s (q ∷ ps) p h = (q, refl, ground (arith, h))
nth-modify_at (suc i) zero s (q ∷ ps) p h = (p, h, refl)
nth-modify_at zero (suc k) s (q ∷ ps) p h = (p, h, refl)
nth-modify_at (suc i) (suc k) s (q ∷ ps) p h = nth-modify_at i k s ps p h

length-modify_at :
    (k : ℕ) (s : RouteSelector) (ps : List RoutePath) → length (modify_at k s ps) ≡ length ps
unfolding modify_at
length-modify_at k s [] = refl
length-modify_at zero s (p ∷ ps) = refl
length-modify_at (suc k) s (p ∷ ps) = omega (arith, length-modify_at k s ps)

modify-IsNumbered :
    (k : ℕ) (s : RouteSelector) (ps : List RoutePath)
    → IsNumbered ps
    → IsNumbered (modify_at k s ps)
modify-IsNumbered k s ps v = record {
  size = omega (arith, v.size, length-modify_at k s ps);
  numbered =
      λ i p e. let (q, f, g) = nth-modify_at i k s ps p e in omega (arith, g, v.numbered i q f);
}

route_step-IsNumbered :
    (c : RouteCall) (r : Route) → IsNumbered r.paths → IsNumbered ((route_step c r).paths)
unfolding delete_path set_used_path modify_path
route_step-IsNumbered (attach path s) r v = ground (arith, v, attached-IsNumbered path s r v)
route_step-IsNumbered (delete k) r v = ground (arith, v, detach_path-IsNumbered k r v)
route_step-IsNumbered (use_path k) r v = ground (arith, v, reset-IsNumbered k r.paths v)
route_step-IsNumbered (move a b) r v = ground (move_path-Moved a b r 0 v, arith)
route_step-IsNumbered (modify k s) r v = ground (arith, v, modify-IsNumbered k s r.paths v)

pub run_route : List RouteCall → Route → Route
run_route [] r = r
run_route (c ∷ cs) r = run_route cs (route_step c r)

-- Attaching up to 255 paths, deleting, moving, modifying and choosing the used path, in any
-- sequence, keep the identifier of each path equal to its position.
pub run_route-IsNumbered :
    (cs : List RouteCall) (r : Route) → IsNumbered r.paths → IsNumbered ((run_route cs r).paths)
unfolding run_route
run_route-IsNumbered [] r v = v
run_route-IsNumbered (c ∷ cs) r v =
    run_route-IsNumbered cs (route_step c r) (route_step-IsNumbered c r v)
