-- ===== src/LinkDiscovery/Discovery.antt =====
-- A link is discovered once both of its ports have been heard.
use runos.Base.{
  ℕ, ◌≡◌, ◌≢◌, refl, sym, ◌∙◌, inl, inr, Bool, true, false, none, some, List, [], ◌∷◌, ◌++◌, arith,
  Option-cases,
}
use runos.SwitchAndPort.{SwitchAndPort, port_eq, port_eq_refl, port_eq→eq}
use runos.LinkDiscovery.Links.{
  Link, link, find_link, same_ends, link_eq_refl, has-insert_link, find_link-none,
}
use runos.LinkDiscovery.{
  LinkDiscovery, Signal, ordered, add_link, add_waiting_link, erase_found, valid_through,
  beacon_known, handle_beacon, heard_back, heard_first, other,
}
use runos.LinkDiscovery.Invariant.{Agrees, other_lem}
use runos.LinkDiscovery.Wiring.{
  IsWired, heard_back-IsWired, add_waiting_link-IsWired, remove_broken_link-IsWired, beacon, step,
  run,
}

-- The two ports are linked to one another.
abbrev pub Linked : LinkDiscovery → SwitchAndPort → SwitchAndPort → Type 0
Linked d p q = (other d p ≡ some q) × (other d q ≡ some p)

heard_back_edges :
    (d : LinkDiscovery) (l : Link)
    → port_eq l.source l.target ≡ false
    → ((heard_back d l).0.out_edges l.source ≡ some (ordered l))
      × ((heard_back d l).0.out_edges l.target ≡ some (ordered l))
unfolding heard_back add_link ordered
heard_back_edges d l h = ground (arith, port_eq_refl l.source, port_eq_refl l.target)

heard_back-Linked :
    (d : LinkDiscovery) (l : Link)
    → l.source ≢ l.target
    → Agrees (heard_back d l).0
    → Linked (heard_back d l).0 l.source l.target
unfolding ordered
heard_back-Linked d l h v = ground (
  arith,
  heard_back_edges d l,
  other_lem (heard_back d l).0 l.source (ordered l) v,
  other_lem (heard_back d l).0 l.target (ordered l) v,
  port_eq→eq l.source l.target,
  port_eq→eq l.target l.source,
  port_eq_refl l.source,
  port_eq_refl l.target,
)

find_link_time :
    (ls : List Link) (p q : SwitchAndPort) (v w : ℕ)
    → find_link ls (link p q v) ≡ find_link ls (link p q w)
unfolding find_link same_ends
find_link_time [] p q v w = refl
find_link_time (m ∷ ms) p q v w = ground (arith, find_link_time ms p q v w)

add_waiting_link-waits :
    (d : LinkDiscovery) (l : Link)
    → (m : Link) × (find_link (add_waiting_link d l).waiting_links l ≡ some m)
unfolding add_waiting_link same_ends
add_waiting_link-waits d l =
    elim (Option-cases (find_link (add_waiting_link d l).waiting_links l)) [
      | inr (m, e) ↦ (m, e)
      | inl e ↦ ground (
        arith,
        find_link-none l l _ e,
        has-insert_link l l (erase_found (find_link d.waiting_links l) d.waiting_links),
        link_eq_refl l,
        port_eq_refl l.source,
        port_eq_refl l.target,
      )
    ]

module _ (peer : SwitchAndPort → SwitchAndPort) (back : (p : SwitchAndPort) → peer (peer p) ≡ p)
    (apart : (p : SwitchAndPort) → peer p ≢ p) where
  abbrev Wired : LinkDiscovery → Type 0
  Wired = IsWired peer back apart

  first_beacon :
      (d : LinkDiscovery) (now : ℕ) (p : SwitchAndPort)
      → Wired d
      → find_link d.waiting_links (link (peer p) p (valid_through d now)) ≡ none
      → (d' : LinkDiscovery) × (s : List Signal) × (m : Link) × (beacon_known d now p (peer p)
          ≡ some (d', s))
        × Wired d'
        × (find_link d'.waiting_links (link p (peer p) (valid_through d now)) ≡ some m)
  unfolding beacon_known heard_first
  first_beacon d now p w e =
      let l = link p (peer p) (valid_through d now) in
      elim (Option-cases (find_link d.waiting_links l)) [
        | inr (m, e') ↦
            let (m', f) = add_waiting_link-waits d l in
            (
              add_waiting_link d l,
              [],
              m',
              ground (arith, e, e'),
              add_waiting_link-IsWired peer back apart d l refl w,
              f,
            )
        | inl e' ↦
            let (d1, s1, e1, w1) = remove_broken_link-IsWired peer back apart d p w in
            let (d2, s2, e2, w2) = remove_broken_link-IsWired peer back apart d1 (peer p) w1 in
            let (m', f) = add_waiting_link-waits d2 l in
            (
              add_waiting_link d2 l,
              s1 ++ s2,
              m',
              ground (arith, e, e', e1, e2),
              add_waiting_link-IsWired peer back apart d2 l refl w2,
              f,
            )
      ]

  second_beacon :
      (d : LinkDiscovery) (now : ℕ) (p : SwitchAndPort) (m : Link)
      → Wired d
      → find_link d.waiting_links (link p (peer p) (valid_through d now)) ≡ some m
      → (d' : LinkDiscovery) × (s : List Signal) × (beacon_known d now (peer p) (peer (peer p))
          ≡ some (d', s))
        × Wired d'
        × Linked d' (peer p) p
  unfolding beacon_known
  second_beacon d now p m w e =
      let l = link (peer p) p (valid_through d now) in
      let w' = heard_back-IsWired peer back apart d l (sym (back p)) w in
      (
        (heard_back d l).0,
        (heard_back d l).1,
        rw (back p) (ground (arith, e)),
        w',
        heard_back-Linked d l (apart p) w'.agrees,
      )

  -- When a port of a point-to-point wiring and then its peer hear each other, with both switches
  -- known, the discovery in a consistent state and no earlier beacon of the peer waiting, the two
  -- beacons are processed without a failed CHECK and other maps each of the two ports to the
  -- other.
  pub beacons-Linked :
      (known : ℕ → Bool) (d : LinkDiscovery) (now later : ℕ) (p : SwitchAndPort)
      → Wired d
      → known p.dpid ≡ true
      → known (peer p).dpid ≡ true
      → find_link d.waiting_links (link (peer p) p 0) ≡ none
      → (d' : LinkDiscovery) × (run peer known d (beacon now p ∷ beacon later (peer p) ∷ [])
          ≡ some d')
        × Linked d' (peer p) p
  unfolding run step handle_beacon
  beacons-Linked known d now later p w k k' e =
      let (d1, s1, m, e1, w1, f) =
        first_beacon d now p w
          (find_link_time d.waiting_links (peer p) p (valid_through d now) 0 ∙ e) in
      let (d2, s2, e2, w2, linked) =
        second_beacon d1 later p m w1 (find_link_time d1.waiting_links p (peer p) _ _ ∙ f) in
      (d2, ground (arith, k, k', e1, e2, back p), linked)
