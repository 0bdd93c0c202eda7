-- ===== src/LinkDiscovery/Invariant.antt =====
-- Every port is the end of at most one link, and `m_out_edges` names that link.
use runos.Base.{
  ◌≡◌, refl, ◌≢◌, ◌⊎◌, inl, inr, Bool, true, false, not, ◌&&◌, ◌||◌, none, some, List, [], ◌∷◌,
  if◌then◌else◌, arith, Option-cases,
}
use runos.SwitchAndPort.{SwitchAndPort, port_eq, port_lt, port_eq_refl, port_eq→eq, port_lt_asymm}
use runos.LinkDiscovery.Links.{
  Link, link, has, find_link, erase_link, link_eq, same_ends, link_eq→eq, link_eq_refl,
  has-erase_link, has-insert_link, find_link-some, find_link-none,
}
use runos.LinkDiscovery.{
  LinkDiscovery, Signal, link_broken, Edges, erase_edge, check_erase, add_link, remove_link,
  remove_broken_link, erase_found, other,
}

abbrev pub touches : Link → SwitchAndPort → Bool
touches l p = port_eq l.source p || port_eq l.target p

pub record IsConsistent (links : List Link) (edges : Edges) : Type 0 where
  pub edge_known :
      (p : SwitchAndPort) (l : Link)
      → edges p ≡ some l
      → (has l links ≡ true) × (touches l p ≡ true)
  pub link_entered :
      (l : Link)
      → has l links ≡ true
      → (port_lt l.source l.target ≡ true) × (edges l.source ≡ some l) × (edges l.target ≡ some l)

pub IsConsistent-empty : IsConsistent [] (λ p. none)
unfolding has
IsConsistent-empty = record { edge_known = λ p l h. cc; link_entered = λ l h. cc }

module _ (links : List Link) (edges : Edges) (v : IsConsistent links edges) (l : Link)
    (k : has l links ≡ true) where
  abbrev fewer : List Link
  fewer = erase_link l links

  abbrev cleared : Edges
  cleared = erase_edge l.target (erase_edge l.source edges)

  cleared_known :
      (p : SwitchAndPort) (m : Link)
      → cleared p ≡ some m
      → (has m fewer ≡ true) × (touches m p ≡ true)
  cleared_known p m h = ground (arith, v.edge_known p m, has-erase_link m l links, link_eq→eq l m)

  cleared_entered :
      (m : Link)
      → has m fewer ≡ true
      → (port_lt m.source m.target ≡ true)
        × (cleared m.source ≡ some m)
        × (cleared m.target ≡ some m)
  cleared_entered m h = ground (
    arith,
    v.link_entered m,
    v.link_entered l,
    has-erase_link m l links,
    link_eq_refl m,
    port_eq→eq l.source m.source,
    port_eq→eq l.source m.target,
    port_eq→eq l.target m.source,
    port_eq→eq l.target m.target,
  )

  pub IsConsistent-erase : IsConsistent fewer cleared
  IsConsistent-erase = record { edge_known = cleared_known; link_entered = cleared_entered }

-- Both CHECKs on the edges of a link pass.
pub checks_pass :
    (links : List Link) (edges : Edges) (l : Link)
    → IsConsistent links edges
    → has l links ≡ true
    → (check_erase l.source edges ≡ some (erase_edge l.source edges))
      × (check_erase l.target (erase_edge l.source edges)
          ≡ some (erase_edge l.target (erase_edge l.source edges)))
checks_pass links edges l v k = ground (arith, v.link_entered l, port_lt_asymm l.source l.target)

pub remove_link_lem :
    (d : LinkDiscovery) (l : Link)
    → IsConsistent d.links d.out_edges
    → has l d.links ≡ true
    → remove_link d l.source l.target
      ≡ some (
        record d {
          links = erase_link l d.links;
          out_edges = erase_edge l.target (erase_edge l.source d.out_edges);
        },
        (l.source, l.target),
      )
unfolding remove_link same_ends
remove_link_lem d l v k = elim (Option-cases (find_link d.links (link l.source l.target 0))) [
  | inl e ↦ ground (
    arith,
    find_link-none (link l.source l.target 0) l d.links e,
    port_eq_refl l.source,
    port_eq_refl l.target,
  )
  | inr (m, e) ↦ ground (
    arith,
    find_link-some (link l.source l.target 0) m d.links e,
    v.link_entered l,
    v.link_entered m,
    port_lt_asymm l.source l.target,
    port_eq→eq l.source m.source,
    port_eq→eq l.target m.target,
    checks_pass d.links d.out_edges l v k,
  )
]

abbrev pub Agrees : LinkDiscovery → Type 0
Agrees d = IsConsistent d.links d.out_edges

-- A link may be entered where its ports are free, or held by a link between the same two ports.
abbrev pub Vacant : LinkDiscovery → Link → Type 0
Vacant d l =
    (m : Link)
    → (has m d.links && (touches m l.source || touches m l.target)) ≡ true
    → same_ends l m ≡ true

module _ (d : LinkDiscovery) (l : Link) (v : Agrees d) (up : port_lt l.source l.target ≡ true)
    (free : Vacant d l) where
  remaining : Link → Bool
  remaining m = has m d.links && not (same_ends l m)

  remaining_lem : (m : Link) → has m (erase_found (find_link d.links l) d.links) ≡ remaining m
  unfolding remaining same_ends
  remaining_lem m = elim (Option-cases (find_link d.links l)) [
    | inl e ↦ ground (arith, find_link-none l m d.links e)
    | inr (x, e) ↦ ground (
      arith,
      find_link-some l x d.links e,
      has-erase_link m x d.links,
      v.link_entered m,
      v.link_entered x,
      link_eq→eq x m,
      port_eq→eq l.source m.source,
      port_eq→eq l.target m.target,
      port_eq→eq l.source x.source,
      port_eq→eq l.target x.target,
      link_eq_refl m,
      link_eq_refl x,
    )
  ]

  pub erase_found-absent : has l (erase_found (find_link d.links l) d.links) ≡ false
  unfolding remaining same_ends
  erase_found-absent = ground (arith, remaining_lem l, port_eq_refl l.source, port_eq_refl l.target)

  pub has-add_link :
      (m : Link)
      → has m (add_link d l).0.links ≡ (link_eq m l || (has m d.links && not (same_ends l m)))
  unfolding add_link remaining
  has-add_link m = ground (
    arith,
    has-insert_link m l (erase_found (find_link d.links l) d.links),
    remaining_lem m,
    port_lt_asymm l.source l.target,
  )

  added_known :
      (p : SwitchAndPort) (m : Link)
      → (add_link d l).0.out_edges p ≡ some m
      → (has m (add_link d l).0.links ≡ true) × (touches m p ≡ true)
  unfolding add_link same_ends
  added_known p m h = ground (
    arith,
    has-add_link m,
    link_eq_refl m,
    port_lt_asymm l.source l.target,
    v.edge_known p m,
    v.link_entered m,
    port_eq→eq l.source m.source,
    port_eq→eq l.target m.target,
  )

  added_entered :
      (m : Link)
      → has m (add_link d l).0.links ≡ true
      → (port_lt m.source m.target ≡ true)
        × ((add_link d l).0.out_edges m.source ≡ some m)
        × ((add_link d l).0.out_edges m.target ≡ some m)
  unfolding add_link same_ends
  added_entered m h = ground (
    arith,
    has-add_link m,
    link_eq→eq m l,
    port_lt_asymm l.source l.target,
    v.link_entered m,
    free m,
    port_eq_refl l.source,
    port_eq_refl l.target,
    port_eq→eq l.source m.source,
    port_eq→eq l.source m.target,
    port_eq→eq l.target m.source,
    port_eq→eq l.target m.target,
  )

  pub add_link-Agrees : Agrees (add_link d l).0
  add_link-Agrees = record { edge_known = added_known; link_entered = added_entered }

abbrev broken_state : LinkDiscovery → Link → LinkDiscovery
broken_state d l = record d {
  links = erase_link l d.links;
  out_edges = erase_edge l.target (erase_edge l.source d.out_edges);
}

broken_at :
    (d : LinkDiscovery) (p : SwitchAndPort) (l : Link)
    → Agrees d
    → d.out_edges p ≡ some l
    → remove_broken_link d p ≡ some (broken_state d l, link_broken l.source l.target ∷ [])
unfolding remove_broken_link
broken_at d p l v e = ground (arith, v.edge_known p l e, v.link_entered l, remove_link_lem d l)

broken-has :
    (d : LinkDiscovery) (p : SwitchAndPort) (e l : Link)
    → Agrees d
    → d.out_edges p ≡ some e
    → has l (erase_link e d.links) ≡ (has l d.links && not (touches l p))
broken-has d p e l v h = ground (
  arith,
  has-erase_link l e d.links,
  v.edge_known p e,
  v.link_entered l,
  v.link_entered e,
  link_eq→eq e l,
  link_eq_refl l,
  port_eq→eq l.source p,
  port_eq→eq l.target p,
)

unbroken-has :
    (d : LinkDiscovery) (p : SwitchAndPort) (l : Link)
    → Agrees d
    → d.out_edges p ≡ none
    → has l d.links ≡ (has l d.links && not (touches l p))
unbroken-has d p l v h =
    ground (arith, v.link_entered l, port_eq→eq l.source p, port_eq→eq l.target p)

-- In a consistent state remove_broken_link never fails a CHECK: it leaves a consistent state in
-- which the port has no out-edge and the links are those that do not touch the port; the waiting
-- links stay.
pub remove_broken_link_total :
    (d : LinkDiscovery) (p : SwitchAndPort)
    → Agrees d
    → (d' : LinkDiscovery) × (s : List Signal) × (remove_broken_link d p ≡ some (d', s))
      × Agrees d'
      × (d'.waiting_links ≡ d.waiting_links)
      × ((d'.links ≡ d.links) ⊎ ((m : Link) × (d'.links ≡ erase_link m d.links)))
      × ((l : Link) → has l d'.links ≡ (has l d.links && not (touches l p)))
unfolding remove_broken_link
remove_broken_link_total d p v = elim (Option-cases (d.out_edges p)) [
  | inl e ↦ (d, [], ground (arith, e), v, refl, inl refl, λ l. unbroken-has d p l v e)
  | inr (m, e) ↦ (
    broken_state d m,
    link_broken m.source m.target ∷ [],
    broken_at d p m v e,
    IsConsistent-erase d.links d.out_edges v m (v.edge_known p m e).0,
    refl,
    inr (m, refl),
    λ l. broken-has d p m l v e,
  )
]

find_link_total :
    (d : LinkDiscovery) (l : Link)
    → has l d.links ≡ true
    → (m : Link) × (find_link d.links l ≡ some m)
unfolding same_ends
find_link_total d l h = elim (Option-cases (find_link d.links l)) [
  | inl e ↦
      ground (arith, find_link-none l l d.links e, port_eq_refl l.source, port_eq_refl l.target)
  | inr (m, e) ↦ (m, e)
]

abbrev far_end : Link → SwitchAndPort → SwitchAndPort
far_end l p = if port_eq l.source p then l.target else l.source

pub other_lem :
    (d : LinkDiscovery) (p : SwitchAndPort) (l : Link)
    → Agrees d
    → d.out_edges p ≡ some l
    → other d p ≡ some (far_end l p)
unfolding other
other_lem d p l v e = ground (arith, find_link_total d l, v.edge_known p l)

-- In a consistent state, at a port with an out-edge, other passes its CHECK, leads to a different
-- port, and leads from there back to the first port.
pub other-other :
    (d : LinkDiscovery) (p : SwitchAndPort) (l : Link)
    → Agrees d
    → d.out_edges p ≡ some l
    → (q : SwitchAndPort) × (other d p ≡ some q) × (other d q ≡ some p) × (q ≢ p)
other-other d p l v e = (
  far_end l p,
  other_lem d p l v e,
  ground (
    arith,
    other_lem d (far_end l p) l v,
    v.edge_known p l e,
    v.link_entered l,
    port_lt_asymm l.source l.target,
    port_eq→eq l.source p,
    port_eq→eq l.target p,
    port_eq_refl l.source,
    port_eq_refl l.target,
  ),
  λ z. ground (
    arith,
    v.edge_known p l e,
    v.link_entered l,
    port_lt_asymm l.source l.target,
    port_eq→eq l.source p,
    port_eq→eq l.target p,
    port_eq_refl l.target,
  ),
)
