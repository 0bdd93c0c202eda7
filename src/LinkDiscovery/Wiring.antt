-- ===== src/LinkDiscovery/Wiring.antt =====
-- Histories over point-to-point cables: a port hears the beacons of one peer only.
use runos.Base.{
  ℕ, ◌≡◌, ◌≢◌, refl, ◌⊎◌, inl, inr, Bool, true, not, ◌||◌, Option, none, some, List, [], ◌∷◌, ◌++◌,
  arith, map, Option-cases, Bool-cases,
}
use runos.SwitchAndPort.{
  SwitchAndPort, port_lt, port_eq_refl, port_eq→eq, port_lt_asymm, port_lt_total,
}
use runos.LinkDiscovery.Links.{
  Link, link, has, find_link, erase_link, same_ends, link_eq→eq, has-erase_link, has-insert_link,
  Sorted, Distinct, Sorted-insert_link, Sorted-erase_link, Distinct-insert_link,
  Distinct-erase_link,
}
use runos.LinkDiscovery.{
  LinkDiscovery, Signal, ordered, add_link, remove_broken_link, add_waiting_link,
  remove_waiting_link, clear_link_at, erase_found, valid_through, heard_back, heard_first,
  beacon_known, handle_beacon, polling,
}
use runos.LinkDiscovery.Invariant.{
  Agrees, Vacant, add_link-Agrees, has-add_link, erase_found-absent, remove_broken_link_total,
}
use runos.LinkDiscovery.Expiry.{
  expired, polled, polling_primary, broken, has-live, Sorted-live, Distinct-live,
}

-- What drives the application on a primary controller: a beacon heard from a port by its peer, a
-- port that goes down, a round of polling.
pub data Event : Type 0 where
  beacon : ℕ → SwitchAndPort → Event
  port_down : SwitchAndPort → Event
  poll : ℕ → Event

unfoldable pub step :
    (SwitchAndPort → SwitchAndPort)
    → (ℕ → Bool)
    → LinkDiscovery
    → Event
    → Option (LinkDiscovery × List Signal)
step peer known d (beacon now p) = handle_beacon known d now p (peer p)
step peer known d (port_down p) = clear_link_at d p
step peer known d (poll now) = polling known true d now []

unfoldable pub run :
    (SwitchAndPort → SwitchAndPort) → (ℕ → Bool) → LinkDiscovery → List Event → Option LinkDiscovery
unfolding step
run peer known d [] = some d
run peer known d (e ∷ es) = elim (step peer known d e) [
  | none ↦ none
  | some (d', s) ↦ run peer known d' es
]

has-erase_found :
    (l x : Link) (ls : List Link) → has x (erase_found (find_link ls l) ls) ≡ true → has x ls ≡ true
has-erase_found l x ls h = elim (Option-cases (find_link ls l)) [
  | inl e ↦ ground (arith, e)
  | inr (m, e) ↦ ground (arith, has-erase_link x m ls)
]

Sorted-erase_found :
    (l : Link) (ls : List Link) → Sorted 0 ls → Sorted 0 (erase_found (find_link ls l) ls)
Sorted-erase_found l ls h = elim (Option-cases (find_link ls l)) [
  | inl e ↦ rw e h
  | inr (m, e) ↦ rw e (Sorted-erase_link 0 m ls h)
]

Distinct-erase_found :
    (l : Link) (ls : List Link) → Distinct ls → Distinct (erase_found (find_link ls l) ls)
Distinct-erase_found l ls h = elim (Option-cases (find_link ls l)) [
  | inl e ↦ rw e h
  | inr (m, e) ↦ rw e (Distinct-erase_link m ls h)
]

module _ (peer : SwitchAndPort → SwitchAndPort) (back : (p : SwitchAndPort) → peer (peer p) ≡ p)
    (apart : (p : SwitchAndPort) → peer p ≢ p) where
  abbrev pub Along : Link → Type 0
  Along l = l.target ≡ peer l.source

  pub record IsWired (d : LinkDiscovery) : Type 0 where
    pub agrees : Agrees d
    pub sorted : Sorted 0 d.links
    pub distinct : Distinct d.links
    pub sorted_waiting : Sorted 0 d.waiting_links
    pub links_along : (l : Link) → has l d.links ≡ true → Along l
    pub waiting_along : (l : Link) → has l d.waiting_links ≡ true → Along l

  pub add_waiting_link-IsWired :
      (d : LinkDiscovery) (l : Link) → Along l → IsWired d → IsWired (add_waiting_link d l)
  unfolding add_waiting_link
  add_waiting_link-IsWired d l a w = record {
    agrees = w.agrees;
    sorted = w.sorted;
    distinct = w.distinct;
    sorted_waiting =
        Sorted-insert_link 0 l _ (omega arith)
          (Sorted-erase_found l d.waiting_links w.sorted_waiting);
    links_along = w.links_along;
    waiting_along = λ x h. ground (
      arith,
      has-insert_link x l (erase_found (find_link d.waiting_links l) d.waiting_links),
      link_eq→eq x l,
      has-erase_found l x d.waiting_links,
      w.waiting_along x,
    );
  }

  remove_waiting_link-IsWired :
      (d : LinkDiscovery) (p q : SwitchAndPort) → IsWired d → IsWired (remove_waiting_link d p q)
  unfolding remove_waiting_link
  remove_waiting_link-IsWired d p q w =
      elim (Option-cases (find_link d.waiting_links (link p q 0))) [
        | inl e ↦ rw (e, remove_waiting_link) w
        | inr (m, e) ↦
            rw (e, remove_waiting_link)
              (record {
                agrees = w.agrees;
                sorted = w.sorted;
                distinct = w.distinct;
                sorted_waiting = Sorted-erase_link 0 m d.waiting_links w.sorted_waiting;
                links_along = w.links_along;
                waiting_along =
                    λ x h. w.waiting_along x (ground (arith, has-erase_link x m d.waiting_links));
              })
      ]

  Vacant-Along :
      (d : LinkDiscovery) (l : Link)
      → IsWired d
      → Along l
      → port_lt l.source l.target ≡ true
      → Vacant d l
  unfolding same_ends
  Vacant-Along d l w a up m h = ground (
    arith,
    w.links_along m,
    w.agrees.link_entered m,
    port_eq→eq m.source l.source,
    port_eq→eq m.source l.target,
    port_eq→eq m.target l.source,
    port_eq→eq m.target l.target,
    port_eq_refl l.source,
    port_eq_refl l.target,
    back l.source,
    back m.source,
    port_lt_asymm l.source l.target,
    apart l.source,
  )

  ordered_up :
      (l : Link)
      → Along l
      → (port_lt (ordered l).source (ordered l).target ≡ true)
        × Along (ordered l)
        × (ordered (ordered l) ≡ ordered l)
  unfolding ordered
  ordered_up l a = ground (
    arith,
    port_lt_asymm l.source l.target,
    port_lt_asymm l.target l.source,
    port_lt_total l.source l.target,
    apart l.source,
    back l.source,
  )

  add_link-ordered :
      (d : LinkDiscovery) (l : Link)
      → ordered (ordered l) ≡ ordered l
      → add_link d l ≡ add_link d (ordered l)
  unfolding add_link
  add_link-ordered d l e = cc

  add_up-IsWired :
      (d : LinkDiscovery) (l : Link)
      → Along l
      → port_lt l.source l.target ≡ true
      → ordered l ≡ l
      → IsWired d
      → IsWired (add_link d l).0
  unfolding add_link
  add_up-IsWired d l a up o w = record {
    agrees = add_link-Agrees d l w.agrees up (Vacant-Along d l w a up);
    sorted = rw o (Sorted-insert_link 0 l _ (omega arith) (Sorted-erase_found l d.links w.sorted));
    distinct = rw o (
        Distinct-insert_link l _ (erase_found-absent d l w.agrees up (Vacant-Along d l w a up))
          (Distinct-erase_found l d.links w.distinct));
    sorted_waiting = w.sorted_waiting;
    links_along = λ x h. ground (
      arith,
      has-add_link d l w.agrees up (Vacant-Along d l w a up) x,
      link_eq→eq x l,
      w.links_along x,
    );
    waiting_along = w.waiting_along;
  }

  add_link-IsWired : (d : LinkDiscovery) (l : Link) → Along l → IsWired d → IsWired (add_link d l).0
  add_link-IsWired d l a w =
      let (up, a', o) = ordered_up l a in
      rw (add_link-ordered d l o) (add_up-IsWired d (ordered l) a' up o w)

  pub remove_broken_link-IsWired :
      (d : LinkDiscovery) (p : SwitchAndPort)
      → IsWired d
      → (d' : LinkDiscovery) × (s : List Signal) × (remove_broken_link d p ≡ some (d', s))
        × IsWired d'
  remove_broken_link-IsWired d p w =
      let (d', s, e, agrees, waiting, links, touched) = remove_broken_link_total d p w.agrees in
      (
        d',
        s,
        e,
        record {
          agrees = agrees;
          sorted = shorter (Sorted 0) (λ m. Sorted-erase_link 0 m d.links w.sorted) w.sorted links;
          distinct =
              shorter Distinct (λ m. Distinct-erase_link m d.links w.distinct) w.distinct links;
          sorted_waiting = rw waiting w.sorted_waiting;
          links_along = λ l h. w.links_along l (ground (arith, touched l));
          waiting_along = λ l h. w.waiting_along l (rw waiting at h);
        },
      )
    where
      shorter :
          {ls' : List Link} (P : List Link → Type 0)
          → ((m : Link) → P (erase_link m d.links))
          → P d.links
          → (ls' ≡ d.links) ⊎ ((m : Link) × (ls' ≡ erase_link m d.links))
          → P ls'
      shorter P cut whole (inl e) = rw e whole
      shorter P cut whole (inr (m, e)) = rw e (cut m)

  pub heard_back-IsWired :
      (d : LinkDiscovery) (l : Link) → Along l → IsWired d → IsWired (heard_back d l).0
  unfolding heard_back
  heard_back-IsWired d l a w =
      add_waiting_link-IsWired _ (ordered l) (ordered_up l a).1
        (add_link-IsWired _ l a (remove_waiting_link-IsWired d l.target l.source w))

  pub heard_first-IsWired :
      (d : LinkDiscovery) (l : Link)
      → Along l
      → IsWired d
      → (d' : LinkDiscovery) × (s : List Signal) × (heard_first d l ≡ some (d', s)) × IsWired d'
  unfolding heard_first
  heard_first-IsWired d l a w =
      let (d1, s1, e1, w1) = remove_broken_link-IsWired d l.source w in
      let (d2, s2, e2, w2) = remove_broken_link-IsWired d1 l.target w1 in
      (add_waiting_link d2 l, s1 ++ s2, ground (arith, e1, e2), add_waiting_link-IsWired d2 l a w2)

  beacon_known-IsWired :
      (d : LinkDiscovery) (now : ℕ) (p : SwitchAndPort)
      → IsWired d
      → (d' : LinkDiscovery) × (s : List Signal) × (beacon_known d now p (peer p) ≡ some (d', s))
        × IsWired d'
  unfolding beacon_known
  beacon_known-IsWired d now p w =
      let l = link p (peer p) (valid_through d now) in
      elim (Option-cases (find_link d.waiting_links (link (peer p) p (valid_through d now)))) [
        | inr (m, e) ↦ (
          (heard_back d l).0,
          (heard_back d l).1,
          ground (arith, e),
          heard_back-IsWired d l refl w,
        )
        | inl e ↦ elim (Option-cases (find_link d.waiting_links l)) [
          | inr (m, e') ↦
              (add_waiting_link d l, [], ground (arith, e, e'), add_waiting_link-IsWired d l refl w)
          | inl e' ↦
              let (d', s, h, w') = heard_first-IsWired d l refl w in
              (d', s, ground (arith, e, e', h), w')
        ]
      ]

  pub step-IsWired :
      (known : ℕ → Bool) (d : LinkDiscovery) (e : Event)
      → IsWired d
      → (d' : LinkDiscovery) × (s : List Signal) × (step peer known d e ≡ some (d', s)) × IsWired d'
  unfolding step handle_beacon clear_link_at
  step-IsWired known d (beacon now p) w =
      elim (Bool-cases (not (known p.dpid) || not (known (peer p).dpid))) [
        | inl e ↦ (d, [], rw e refl, w)
        | inr e ↦ let (d', s, h, w') = beacon_known-IsWired d now p w in (d', s, rw e h, w')
      ]
  step-IsWired known d (port_down p) w = remove_broken_link-IsWired d p w
  step-IsWired known d (poll now) w =
      let (e, agrees) =
        polling_primary known d now [] w.agrees w.sorted w.distinct w.sorted_waiting in
      (
        polled d now,
        map broken (expired now d.links),
        e,
        record {
          agrees = agrees;
          sorted = Sorted-live now 0 d.links w.sorted;
          distinct = Distinct-live now d.links w.distinct;
          sorted_waiting = Sorted-live now 0 d.waiting_links w.sorted_waiting;
          links_along = λ l h. w.links_along l (ground (arith, has-live now l d.links));
          waiting_along = λ l h. w.waiting_along l (ground (arith, has-live now l d.waiting_links));
        },
      )

  -- On a primary controller, where each port hears the beacons of one fixed peer other than
  -- itself, any sequence of beacons, ports going down and polling rounds runs through without a
  -- failed CHECK, and leaves links, waiting links and out-edges consistent, sorted and along the
  -- wiring.
  pub run-IsWired :
      (known : ℕ → Bool) (d : LinkDiscovery) (es : List Event)
      → IsWired d
      → (d' : LinkDiscovery) × (run peer known d es ≡ some d') × IsWired d'
  unfolding run
  run-IsWired known d [] w = (d, refl, w)
  run-IsWired known d (e ∷ es) w =
      let (d1, s, h, w1) = step-IsWired known d e w in
      let (d2, h', w2) = run-IsWired known d1 es w1 in (d2, rw (h, run) h', w2)
