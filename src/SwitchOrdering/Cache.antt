-- ===== src/SwitchOrdering/Cache.antt =====
-- Links that come up before their switch wait for it.
use runos.Base.{ℕ, ◌≡◌, refl, ap, ◌∙◌, true, false, List, [], ◌∷◌, ◌++◌, arith}
use runos.SwitchAndPort.{SwitchAndPort, port_eq_refl}
use runos.SwitchOrdering.{
  SwitchOrderingManager, up, is_connected, on_link_up, on_link_down, finish_handling, cached_calls,
  link_calls, no_ports,
}
use runos.SwitchOrdering.Handlers.{Handler, at_link_up, at_link_down}
use runos.SwitchOrdering.Lists.{find_links, set_links, find-set_links, remove_port, find-append}

append_assoc : {A : Type 0} (xs ys zs : List A) → (xs ++ ys) ++ zs ≡ xs ++ (ys ++ zs)
append_assoc [] ys zs = refl
append_assoc (x ∷ xs) ys zs = ap (λ l. x ∷ l) (append_assoc xs ys zs)

append_nil : {A : Type 0} (xs : List A) → xs ++ [] ≡ xs
append_nil [] = refl
append_nil (x ∷ xs) = ap (λ l. x ∷ l) (append_nil xs)

no_ports-snoc : (ps : List SwitchAndPort) (p : SwitchAndPort) → no_ports (ps ++ p ∷ []) ≡ false
no_ports-snoc [] p = refl
no_ports-snoc (q ∷ qs) p = refl

no_ports→nil : (ps : List SwitchAndPort) → no_ports ps ≡ true → ps ≡ []
no_ports→nil [] h = refl
no_ports→nil (p ∷ ps) h = ground arith

cached_calls-append :
    (ps qs : List SwitchAndPort) (hs : List (ℕ × Handler))
    → cached_calls (ps ++ qs) hs ≡ cached_calls ps hs ++ cached_calls qs hs
unfolding cached_calls
cached_calls-append [] qs hs = refl
cached_calls-append (p ∷ ps) qs hs = ground (
  arith,
  cached_calls-append ps qs hs,
  append_assoc (link_calls at_link_up p hs) (cached_calls ps hs) (cached_calls qs hs),
)

remove_port-append :
    (p : SwitchAndPort) (ps : List SwitchAndPort) → remove_port p (ps ++ p ∷ []) ≡ remove_port p ps
unfolding remove_port
remove_port-append p [] = ground (arith, port_eq_refl p)
remove_port-append p (q ∷ qs) = ground (arith, remove_port-append p qs)

-- A link that comes up while its switch is not connected reaches no handler then; when the connect
-- of the switch is finished it reaches the handlers for links after those that were cached before.
pub link_up_waits :
    (p : SwitchAndPort) (m : SwitchOrderingManager)
    → is_connected p.dpid m ≡ false
    → ((on_link_up p m).1 ≡ [])
      × ((finish_handling up p.dpid ((on_link_up p m).0)).1
          ≡ (finish_handling up p.dpid m).1 ++ link_calls at_link_up p m.handlers)
unfolding on_link_up finish_handling cached_calls
link_up_waits p m h = ground (
  arith,
  find-set_links p.dpid p.dpid (find_links p.dpid m.cached ++ p ∷ []) m.cached,
  cached_calls-append (find_links p.dpid m.cached) (p ∷ []) m.handlers,
  append_nil (link_calls at_link_up p m.handlers),
)

on_link_down-cached :
    (p : SwitchAndPort) (n : SwitchOrderingManager) (ps : List SwitchAndPort)
    → find_links p.dpid n.cached ≡ ps ++ p ∷ []
    → on_link_down p n ≡ (record n { cached = set_links p.dpid (remove_port p ps) n.cached }, [])
unfolding on_link_down
on_link_down-cached p n ps h = ground (arith, no_ports-snoc ps p, remove_port-append p ps)

on_link_up-caches :
    (p : SwitchAndPort) (m : SwitchOrderingManager)
    → is_connected p.dpid m ≡ false
    → let n = (on_link_up p m).0 in
      (find_links p.dpid n.cached ≡ find_links p.dpid m.cached ++ p ∷ [])
      × (n.handlers ≡ m.handlers)
unfolding on_link_up
on_link_up-caches p m h =
    ground (arith, find-set_links p.dpid p.dpid (find_links p.dpid m.cached ++ p ∷ []) m.cached)

finish-cached :
    (p : SwitchAndPort) (n : SwitchOrderingManager) (ps : List SwitchAndPort)
    → (finish_handling up p.dpid (record n { cached = set_links p.dpid ps n.cached })).1
      ≡ cached_calls ps n.handlers
unfolding finish_handling
finish-cached p n ps = ground (arith, find-set_links p.dpid p.dpid ps n.cached)

-- A link that comes up and goes down again while its switch is not connected reaches no handler
-- with its going down, and the finished connect of the switch announces the links cached before
-- without that port.
pub link_down_cancels :
    (p : SwitchAndPort) (m : SwitchOrderingManager)
    → is_connected p.dpid m ≡ false
    → let r = on_link_down p ((on_link_up p m).0) in
      (r.1 ≡ [])
      × ((finish_handling up p.dpid (r.0)).1
          ≡ cached_calls (remove_port p (find_links p.dpid m.cached)) m.handlers)
link_down_cancels p m h =
    let n = (on_link_up p m).0 in
    let ps = find_links p.dpid m.cached in
    let (c, e) = on_link_up-caches p m h in
    let d = on_link_down-cached p n ps c in
    (
      ap (λ r. r.1) d,
      ap (λ r. (finish_handling up p.dpid (r.0)).1) d
          ∙ finish-cached p n (remove_port p ps)
          ∙ ap (λ hs. cached_calls (remove_port p ps) hs) e,
    )

-- When the connect of a switch is finished, its cached ports are gone, and a link of it that comes
-- up or goes down next reaches the handlers at once and changes nothing.
pub finish_empties :
    (p : SwitchAndPort) (m : SwitchOrderingManager)
    → let n = (finish_handling up p.dpid m).0 in
      (find_links p.dpid n.cached ≡ [])
      × (on_link_up p n ≡ (n, link_calls at_link_up p m.handlers))
      × (on_link_down p n ≡ (n, link_calls at_link_down p m.handlers))
unfolding finish_handling on_link_up on_link_down is_connected
finish_empties p m = ground (
  arith,
  find-set_links p.dpid p.dpid [] m.cached,
  find-append p.dpid m.connected (p.dpid ∷ []),
  no_ports→nil (find_links p.dpid m.cached),
)
