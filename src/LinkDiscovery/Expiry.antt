-- ===== src/LinkDiscovery/Expiry.antt =====
-- LinkDiscovery::polling on a primary controller: links that were not refreshed in time go.
use runos.Base.{
  ℕ, ◌≤◌, ◌≡◌, refl, inl, inr, Bool, true, not, ◌&&◌, some, List, [], ◌∷◌, ltb, Bool-cases,
  if◌then◌else◌, arith, map,
}
use runos.SwitchAndPort.{port_lt, port_lt_asymm}
use runos.LinkDiscovery.Links.{
  Link, has, link_eq→eq, link_eq_refl, Sorted, Sorted-mono, Distinct, erase_link_head,
}
use runos.LinkDiscovery.{
  LinkDiscovery, Signal, link_broken, Edges, erase_edge, expire, expire_waiting, polling, Entry,
}
use runos.LinkDiscovery.Invariant.{IsConsistent, Agrees, IsConsistent-erase}

abbrev pub expired : ℕ → List Link → List Link
expired now [] = []
expired now (l ∷ ls) = if ltb l.valid_through now then l ∷ expired now ls else expired now ls

abbrev pub live : ℕ → List Link → List Link
live now [] = []
live now (l ∷ ls) = if ltb l.valid_through now then live now ls else l ∷ live now ls

abbrev pub broken : Link → Signal
broken l = link_broken l.source l.target

-- The edges once the links of the list are gone.
abbrev pub clear_all : List Link → Edges → Edges
clear_all [] edges = edges
clear_all (l ∷ ls) edges = clear_all ls (erase_edge l.target (erase_edge l.source edges))

live_above :
    (now lo : ℕ) (ls : List Link)
    → now ≤ lo
    → Sorted lo ls
    → (live now ls ≡ ls) × (expired now ls ≡ [])
live_above now lo [] h s = (refl, refl)
live_above now lo (l ∷ ls) h s = ground (arith, live_above now l.valid_through ls)

pub expire_waiting-live :
    (now lo : ℕ) (ls : List Link) → Sorted lo ls → expire_waiting now ls ≡ live now ls
unfolding expire_waiting
expire_waiting-live now lo [] s = refl
expire_waiting-live now lo (l ∷ ls) s =
    ground (arith, expire_waiting-live now l.valid_through ls, live_above now l.valid_through ls)

-- The links of the list are entered under both their ports, and under no port twice.
abbrev Entered : List Link → Edges → Type 0
Entered [] edges = Unit {0}
Entered (l ∷ ls) edges =
    (port_lt l.source l.target ≡ true)
    × (edges l.source ≡ some l)
    × (edges l.target ≡ some l)
    × Entered ls (erase_edge l.target (erase_edge l.source edges))

expire-Entered :
    (now lo : ℕ) (ls : List Link) (edges : Edges)
    → Sorted lo ls
    → Entered ls edges
    → expire now ls edges
      ≡ some (live now ls, clear_all (expired now ls) edges, map broken (expired now ls))
unfolding expire
expire-Entered now lo [] edges s e = refl
expire-Entered now lo (l ∷ ls) edges s e = ground (
  arith,
  expire-Entered now l.valid_through ls (erase_edge l.target (erase_edge l.source edges)),
  port_lt_asymm l.source l.target,
  live_above now l.valid_through ls,
)

IsConsistent-tail :
    (l : Link) (ls : List Link) (edges : Edges)
    → Distinct (l ∷ ls)
    → IsConsistent (l ∷ ls) edges
    → IsConsistent ls (erase_edge l.target (erase_edge l.source edges))
unfolding has
IsConsistent-tail l ls edges s v =
    rw (erase_link_head l ls s) at
      (IsConsistent-erase (l ∷ ls) edges v l (ground (arith, link_eq_refl l)))

Entered-of_consistent :
    (ls : List Link) (edges : Edges) → Distinct ls → IsConsistent ls edges → Entered ls edges
unfolding has
Entered-of_consistent [] edges s v = tt
Entered-of_consistent (l ∷ ls) edges s v =
    let e = v.link_entered l (ground (arith, link_eq_refl l)) in
    (e.0, e.1, e.2, Entered-of_consistent ls _ s.1 (IsConsistent-tail l ls edges s v))

live-IsConsistent :
    (now lo : ℕ) (ls : List Link) (edges : Edges)
    → Sorted lo ls
    → Distinct ls
    → IsConsistent ls edges
    → IsConsistent (live now ls) (clear_all (expired now ls) edges)
live-IsConsistent now lo [] edges s w v = v
live-IsConsistent now lo (l ∷ ls) edges s w v = elim (Bool-cases (ltb l.valid_through now)) [
  | inl e ↦
      rw e (live-IsConsistent now l.valid_through ls _ s.1 w.1 (IsConsistent-tail l ls edges w v))
  | inr e ↦ let (a, b) = live_above now l.valid_through ls (ground arith) s.1 in rw (e, a, b) v
]

abbrev pub polled : LinkDiscovery → ℕ → LinkDiscovery
polled d now = record d {
  links = live now d.links;
  waiting_links = live now d.waiting_links;
  out_edges = clear_all (expired now d.links) d.out_edges;
}

-- A polling round of a primary controller in a consistent, sorted state passes its CHECKs: it
-- removes exactly the links and waiting links that expired before now, reports each removed link
-- as broken, in order, clears their out-edges, and leaves a consistent state.
pub polling_primary :
    (known : ℕ → Bool) (d : LinkDiscovery) (now : ℕ) (stored : List Entry)
    → Agrees d
    → Sorted 0 d.links
    → Distinct d.links
    → Sorted 0 d.waiting_links
    → (polling known true d now stored ≡ some (polled d now, map broken (expired now d.links)))
      × Agrees (polled d now)
unfolding polling
polling_primary known d now stored v s w t = (
  rw
      (
        expire-Entered now 0 d.links d.out_edges s (Entered-of_consistent d.links d.out_edges w v),
        expire_waiting-live now 0 d.waiting_links t,
        polling,
      )
      refl,
  live-IsConsistent now 0 d.links d.out_edges s w v,
)

pub has-live :
    (now : ℕ) (m : Link) (ls : List Link)
    → has m (live now ls) ≡ (has m ls && not (ltb m.valid_through now))
unfolding has
has-live now m [] = refl
has-live now m (l ∷ ls) = ground (arith, has-live now m ls, link_eq→eq m l)

pub Sorted-live : (now lo : ℕ) (ls : List Link) → Sorted lo ls → Sorted lo (live now ls)
Sorted-live now lo [] s = tt
Sorted-live now lo (l ∷ ls) s =
    ground (arith, Sorted-live now l.valid_through ls, Sorted-mono lo l.valid_through (live now ls))

pub Distinct-live : (now : ℕ) (ls : List Link) → Distinct ls → Distinct (live now ls)
unfolding has
Distinct-live now [] s = tt
Distinct-live now (l ∷ ls) s = ground (arith, Distinct-live now ls, has-live now l ls)
