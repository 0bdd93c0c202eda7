-- ===== src/Topology/Search.antt =====
-- computePath, exactPath, inExPath, findPath and minHops of src/core/Topology.cc. Dijkstra's
-- algorithm is of the Boost graph library: `dijkstra` gives the predecessor of each vertex on the way
-- to a vertex. The walk along the predecessors is on fuel, one round for each vertex; `none` is a
-- walk that needs more.
use runos.Base.{
  ℕ, zero, suc, ◌/◌, Bool, true, false, not, ◌||◌, ◌&&◌, Option, none, some, List, [], ◌∷◌, ◌++◌,
  ltb, ◌==◌, if◌then◌else◌, length,
}
use runos.SwitchAndPort.{SwitchAndPort}
use runos.Topology.Paths.{MetricsFlag, hop, u8}
use runos.Topology.Graphs.{Graph, Edge, LinkProperty, vertex, joins, select_metrics, clear_switch}

infixl 5 ◌>>=◌
abbrev pub ◌>>=◌ {ℓ κ} : {A : Type ℓ} {B : Type κ} → Option A → (A → Option B) → Option B
none >>= f = none
some a >>= f = f a

-- The edge of least metrics between two vertices, the first of several; one of metrics 0 is taken as
-- none so far.
abbrev pub better : ℕ → Option (ℕ × LinkProperty) → Bool
better curr none = true
better curr (some (least, l)) = least == 0 || ltb curr least

unfoldable pub least_link :
    MetricsFlag → ℕ → ℕ → List Edge → Option (ℕ × LinkProperty) → Option (ℕ × LinkProperty)
unfolding joins select_metrics
least_link mf a b [] found = found
least_link mf a b (e ∷ es) found = least_link mf a b es (
    if joins a b e && better (select_metrics mf e.link) found
    then some (select_metrics mf e.link, e.link)
    else found)

-- The two ends of a link, that of the switch `from` first.
abbrev pub ends_from : ℕ → LinkProperty → SwitchAndPort × SwitchAndPort
ends_from from l = if l.source.dpid == from then (l.source, l.target) else (l.target, l.source)

abbrev pub prepend :
    SwitchAndPort × SwitchAndPort → Option (List SwitchAndPort) → Option (List SwitchAndPort)
prepend (a, b) none = none
prepend (a, b) (some ret) = some (a ∷ b ∷ ret)

unfoldable pub exclude_all : List ℕ → ℕ → ℕ → Graph → Graph
unfolding clear_switch
exclude_all [] from to g = g
exclude_all (d ∷ ds) from to g =
    exclude_all ds from to (if not (d == from) && not (d == to) then clear_switch d g else g)

unfoldable pub find : ℕ → List ℕ → Bool
find x [] = false
find x (y ∷ ys) = x == y || find x ys

abbrev pub no_dpids : List ℕ → Bool
no_dpids [] = true
no_dpids (d ∷ ds) = false

abbrev pub no_ports : List SwitchAndPort → Bool
no_ports [] = true
no_ports (p ∷ ps) = false

module _ (dijkstra : Graph → ℕ → MetricsFlag → ℕ → ℕ) where
  -- The loop of computePath at a vertex `v`, with `p` the predecessors.
  unfoldable pub walk :
      ℕ → (ℕ → ℕ) → MetricsFlag → List Edge → ℕ → ℕ → ℕ → Option (List SwitchAndPort)
  unfolding least_link
  walk zero p mf edges e v from = if v == e then some [] else none
  walk (suc fuel) p mf edges e v from =
      if v == e then some [] else elim (least_link mf v (p v) edges none) [
        | none ↦ some []
        | some found ↦
            if found.0 == 0
            then some []
            else prepend (ends_from from found.1)
                (walk fuel p mf edges e (p v) ((ends_from from found.1).1.dpid))
      ]

  abbrev pub path_between :
      MetricsFlag → Graph → ℕ → Option ℕ → Option ℕ → Option (List SwitchAndPort)
  path_between mf g from (some v) (some e) =
      walk g.num_vertices (dijkstra g e mf) mf g.edges e v from
  path_between mf g from (some v) none = some []
  path_between mf g from none e = some []

  unfoldable pub compute_path : ℕ → ℕ → MetricsFlag → Graph → Option (List SwitchAndPort)
  unfolding walk vertex
  compute_path from_dpid to_dpid mf g =
      if g.num_vertices == 0
      then some []
      else path_between mf g from_dpid (vertex from_dpid g) (vertex to_dpid g)

  unfoldable pub min_hops : ℕ → ℕ → Graph → Option ℕ
  unfolding compute_path u8
  min_hops from to g =
      if from == to
      then some 0
      else (do path ← compute_path from to hop g; some (u8 (length path / 2)))

  -- The parts by way of each switch; a part that is missing empties the result.
  unfoldable pub join_parts : ℕ → List ℕ → MetricsFlag → Graph → Option (List SwitchAndPort)
  unfolding compute_path
  join_parts from [] mf g = some []
  join_parts from (d ∷ ds) mf g = do
    part ← compute_path from d mf g
    rest ← join_parts d ds mf g
    some (if no_ports part || (not (no_dpids ds) && no_ports rest) then [] else part ++ rest)

  unfoldable pub in_ex_path :
      List ℕ → List ℕ → MetricsFlag → ℕ → ℕ → Graph → Option (List SwitchAndPort)
  unfolding exclude_all join_parts find
  in_ex_path include exclude mf from to g =
      if find from include || find to include
      then some []
      else join_parts from (include ++ to ∷ []) mf (exclude_all exclude from to g)
