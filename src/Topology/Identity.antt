-- ===== src/Topology/Identity.antt =====
-- Route identifiers, and the links of a switch that goes down.
use runos.Base.{
  ℕ, ◌+◌, ◌-◌, ◌^◌, ◌<◌, ◌≡◌, ◌⊎◌, inl, inr, refl, true, false, none, some, List, [], ◌∷◌, leb,
  ◌==◌, if◌then◌else◌, arith, Bool-cases,
}
use runos.SwitchAndPort.{SwitchAndPort}
use runos.Topology.{Topology, find_route, put_route, add_route, switch_down, link_broken}
use runos.Topology.Routes.{Route, new_route}
use runos.Topology.Graphs.{vertex, find_vertex, erase_key, delete_vertex, remove_edge_at}

find-put_route :
    (id : ℕ) (r : Route) (rs : List Route)
    → find_route id (put_route r rs) ≡ (if r.id == id then some r else find_route id rs)
unfolding find_route put_route
find-put_route id r [] = refl
find-put_route id r (s ∷ ss) = ground (arith, find-put_route id r ss)

-- Every route has an identifier below the next one, which is neither 0 nor the last of 32 bits.
pub record IsFresh (t : Topology) : Type 0 where
  pub next_pos : 0 < t.pending_id
  pub next_small : t.pending_id < 2 ^ 32 - 1
  pub below : (id : ℕ) → leb t.pending_id id ≡ true → find_route id t.route_map ≡ none

abbrev pub Routed : ℕ → ℕ → Topology → ℕ → Topology × Route → Type 0
Routed from to t id (u, r) =
    (find_route r.id t.route_map ≡ none)
    × (find_route id u.route_map ≡ (if r.id == id then some r else find_route id t.route_map))
    × (r.from ≡ from)
    × (r.to ≡ to)
    × (r.paths ≡ [])
    × ((u.pending_id ≡ 2 ^ 32 - 1) ⊎ IsFresh u)

added-IsFresh :
    (from to : ℕ) (t : Topology)
    → IsFresh t
    → (t.pending_id + 1 == 2 ^ 32 - 1) ≡ false
    → IsFresh ((add_route from to 0 t).0)
unfolding add_route new_route
added-IsFresh from to t v h = record {
  next_pos = omega (arith, v.next_pos, v.next_small);
  next_small = ground (arith, v.next_small, h);
  below = λ id l. ground (
    arith,
    l,
    v.next_small,
    v.below id,
    find-put_route id (new_route t.pending_id from to) t.route_map,
  );
}

pub add_route-Routed :
    (from to : ℕ) (t : Topology) (id : ℕ) → IsFresh t → Routed from to t id (add_route from to 0 t)
unfolding add_route new_route
add_route-Routed from to t id v =
    let q = find-put_route id (new_route t.pending_id from to) t.route_map in
    (
      ground (arith, v.below t.pending_id),
      q,
      refl,
      refl,
      refl,
      elim (Bool-cases (t.pending_id + 1 == 2 ^ 32 - 1)) [
        | inl h ↦ inl (ground (arith, h, v.next_small))
        | inr h ↦ inr (added-IsFresh from to t v h)
      ],
    )

find-erase_key : (d : ℕ) (m : List (ℕ × ℕ)) → find_vertex d (erase_key d m) ≡ none
unfolding find_vertex erase_key
find-erase_key d [] = refl
find-erase_key d ((k, w) ∷ rest) = ground (arith, find-erase_key d rest)

-- Once a switch went down, linkBroken for one of its ports removes no link: the edges are the same
-- as before both.
pub switch_down_keeps_links :
    (port : SwitchAndPort) (to : SwitchAndPort) (t : Topology)
    → (link_broken port to (switch_down port.dpid t)).0.graph.edges ≡ t.graph.edges
unfolding switch_down link_broken delete_vertex remove_edge_at vertex
switch_down_keeps_links port to t = ground (arith, find-erase_key port.dpid t.graph.vertex_map)
