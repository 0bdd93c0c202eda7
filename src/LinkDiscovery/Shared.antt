-- ===== src/LinkDiscovery/Shared.antt =====
-- Where a port hears more than one peer, or itself, a CHECK of LinkDiscovery fails.
use runos.Base.{ℕ, ◌≡◌, ◌≢◌, inl, inr, true, none, some, List, [], ◌∷◌, arith, Option-cases}
use runos.SwitchAndPort.{SwitchAndPort, port_lt, port_eq_refl, port_eq→eq, port_lt_asymm}
use runos.LinkDiscovery.Links.{
  Link, link, has, find_link, erase_link, same_ends, link_eq_refl, has-insert_link, find_link-none,
}
use runos.LinkDiscovery.{
  LinkDiscovery, Signal, link_broken, erase_edge, ordered, add_link, remove_link, clear_link_at,
  erase_found, valid_through, beacon_known, heard_back,
}

found :
    (ls : List Link) (l : Link)
    → has l ls ≡ true
    → (v : ℕ) → (m : Link) × (find_link ls (link l.source l.target v) ≡ some m)
unfolding same_ends
found ls l h v = elim (Option-cases (find_link ls (link l.source l.target v))) [
  | inr (m, e) ↦ (m, e)
  | inl e ↦ ground (
    arith,
    find_link-none (link l.source l.target v) l ls e,
    port_eq_refl l.source,
    port_eq_refl l.target,
  )
]

-- `a` is below `b`; the link `l` joins `a` to a third port, and `b` is heard while `a`-`b` waits.
module _ (d : LinkDiscovery) (now : ℕ) (a b : SwitchAndPort) (l : Link) (up : port_lt a b ≡ true)
    (low : l.source ≡ a) (lu : port_lt l.source l.target ≡ true) (third : l.target ≢ b)
    (at_source : d.out_edges l.source ≡ some l) (at_target : d.out_edges l.target ≡ some l)
    (waits : Link)
    (w : find_link d.waiting_links (link a b (valid_through d now)) ≡ some waits) where
  after : LinkDiscovery
  unfolding heard_back
  after = (heard_back d (link b a (valid_through d now))).0

  beacon_after : (s : List Signal) × (beacon_known d now b a ≡ some (after, s))
  unfolding beacon_known after
  beacon_after = ((heard_back d (link b a (valid_through d now))).1, ground (arith, w))

  after_edges :
      (after.out_edges a ≡ some (link a b (valid_through d now)))
      × (after.out_edges b ≡ some (link a b (valid_through d now)))
      × (after.out_edges l.target ≡ some l)
  unfolding after heard_back add_link ordered
  after_edges = ground (
    arith,
    up,
    low,
    lu,
    third,
    at_target,
    port_lt_asymm a b,
    port_lt_asymm l.source l.target,
    port_eq_refl a,
    port_eq_refl b,
    port_eq→eq b l.target,
    port_eq→eq a l.target,
  )

  after_has : has (link a b (valid_through d now)) after.links ≡ true
  unfolding after heard_back add_link ordered
  after_has = ground (
    arith,
    up,
    port_lt_asymm a b,
    has-insert_link (link a b (valid_through d now)) (link a b (valid_through d now))
        (erase_found (find_link d.links (link a b (valid_through d now))) d.links),
    link_eq_refl (link a b (valid_through d now)),
  )

  abbrev without_joined : Link → LinkDiscovery
  without_joined m = record after {
    links = erase_link m after.links;
    out_edges = erase_edge b (erase_edge a after.out_edges);
  }

  clear_joined :
      (m : Link) × (clear_link_at after b ≡ some (without_joined m, link_broken a b ∷ []))
  unfolding clear_link_at remove_link ordered
  clear_joined =
      let (m, e) = found after.links (link a b (valid_through d now)) after_has 0 in
      (m, ground (arith, e, after_edges, up, port_lt_asymm a b))

  clear_third : (m : Link) → clear_link_at (without_joined m) l.target ≡ none
  unfolding clear_link_at remove_link ordered
  clear_third m = ground (
    arith,
    after_edges,
    up,
    low,
    lu,
    third,
    port_lt_asymm a b,
    port_lt_asymm l.source l.target,
    port_eq→eq b l.target,
    port_eq→eq a l.target,
    port_eq_refl a,
  )

  -- Where a port is linked to a third port and a second peer is heard back on it, the beacon is
  -- accepted, the second peer can go down, and then a CHECK fails when the third port goes down.
  pub shared_segment_throws :
      (d1 : LinkDiscovery) × (s1 : List Signal) × (d2 : LinkDiscovery) × (s2 : List Signal)
      × (beacon_known d now b a ≡ some (d1, s1))
      × (clear_link_at d1 b ≡ some (d2, s2))
      × (clear_link_at d2 l.target ≡ none)
  shared_segment_throws =
      let (s, e) = beacon_after in
      let (m, f) = clear_joined in
      (after, s, without_joined m, link_broken a b ∷ [], e, f, clear_third m)

module _ (d : LinkDiscovery) (now : ℕ) (p : SwitchAndPort) (waits : Link)
    (w : find_link d.waiting_links (link p p (valid_through d now)) ≡ some waits) where
  looped : LinkDiscovery
  unfolding heard_back
  looped = (heard_back d (link p p (valid_through d now))).0

  looped_edge : looped.out_edges p ≡ some (link p p (valid_through d now))
  unfolding looped heard_back add_link ordered
  looped_edge = ground (arith, port_eq_refl p)

  -- A port that hears its own beacon while one waits is linked to itself, and then a CHECK fails
  -- when the port goes down.
  pub self_loop_throws :
      (d1 : LinkDiscovery) × (s1 : List Signal) × (beacon_known d now p p ≡ some (d1, s1))
      × (clear_link_at d1 p ≡ none)
  unfolding beacon_known looped clear_link_at remove_link ordered
  self_loop_throws = (
    looped,
    (heard_back d (link p p (valid_through d now))).1,
    ground (arith, w),
    ground (arith, looped_edge, port_eq_refl p),
  )
