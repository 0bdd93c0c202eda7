-- ===== src/Topology/Graphs.antt =====
-- The graph of TopologyImpl, src/core/Topology.cc, on boost::adjacency_list<multisetS, vecS,
-- undirectedS>: a vertex is a number, add_vertex gives the next one, and an edge is between two
-- vertices with the properties of its link. The edges are a list in the order in which they were
-- added, as parallel edges are met. Where several edges to different switches end at one port, which
-- link discovery does not report of a wiring, the first added stands for the one boost meets first.
use runos.Base.{
  ℕ, ◌+◌, ◌-◌, ◌%◌, ◌^◌, Bool, ◌||◌, ◌&&◌, Option, none, some, List, [], ◌∷◌, ◌++◌, leb, ◌==◌,
  if◌then◌else◌,
}
use runos.SwitchAndPort.{SwitchAndPort, port_eq}
use runos.Topology.Paths.{MetricsFlag, hop, port_speed, port_loading}

abbrev pub max_weight : ℕ
max_weight = 10000

pub record LinkProperty : Type 0 where
  pub source : SwitchAndPort
  pub target : SwitchAndPort
  pub hop_metrics : ℕ
  pub ps_metrics : ℕ
  pub pl_metrics : ℕ

pub record Edge : Type 0 where
  pub u : ℕ
  pub v : ℕ
  pub link : LinkProperty

pub record Graph : Type 0 where
  pub num_vertices : ℕ
  pub edges : List Edge
  pub vertex_map : List (ℕ × ℕ)

unfoldable pub find_vertex : ℕ → List (ℕ × ℕ) → Option ℕ
find_vertex dpid [] = none
find_vertex dpid ((k, v) ∷ rest) = if k == dpid then some v else find_vertex dpid rest

-- `none` is the null vertex.
unfoldable pub vertex : ℕ → Graph → Option ℕ
unfolding find_vertex
vertex dpid g = find_vertex dpid g.vertex_map

abbrev pub add_vertex : ℕ → Graph → Option ℕ → Graph × ℕ
add_vertex dpid g (some v) = (g, v)
add_vertex dpid g none = (
  record g {
    num_vertices = g.num_vertices + 1;
    vertex_map = (dpid, g.num_vertices) ∷ g.vertex_map;
  },
  g.num_vertices,
)

unfoldable pub new_vertex : ℕ → Graph → Graph × ℕ
unfolding vertex
new_vertex dpid g = add_vertex dpid g (vertex dpid g)

unfoldable pub erase_key : ℕ → List (ℕ × ℕ) → List (ℕ × ℕ)
erase_key dpid [] = []
erase_key dpid ((k, v) ∷ rest) =
    if k == dpid then erase_key dpid rest else (k, v) ∷ erase_key dpid rest

-- The vertex and its edges stay in the graph.
unfoldable pub delete_vertex : ℕ → Graph → Graph
unfolding erase_key
delete_vertex dpid g = record g { vertex_map = erase_key dpid g.vertex_map }

-- An edge of the vertex whose link ends at the port.
unfoldable pub at_port : SwitchAndPort → LinkProperty → Bool
unfolding port_eq
at_port sp l = port_eq l.source sp || port_eq l.target sp

unfoldable pub touches : ℕ → Edge → Bool
touches w e = e.u == w || e.v == w

-- `edge` followed by `remove_edge`: the first edge of the vertex that ends at the port goes.
unfoldable pub remove_first : ℕ → SwitchAndPort → List Edge → List Edge
unfolding at_port touches
remove_first w sp [] = []
remove_first w sp (e ∷ es) =
    if touches w e && at_port sp e.link then es else e ∷ remove_first w sp es

abbrev pub remove_at : SwitchAndPort → Graph → Option ℕ → Graph
remove_at sp g none = g
remove_at sp g (some w) = record g { edges = remove_first w sp g.edges }

unfoldable pub remove_edge_at : SwitchAndPort → Graph → Graph
unfolding vertex remove_first
remove_edge_at sp g = remove_at sp g (vertex sp.dpid g)

-- addLink. `speed` is what the switch manager says of the port: `none` for no switch or no port,
-- otherwise current_speed()/1000, or max_weight for a port that is not Ethernet.
unfoldable pub link_weight : ℕ → ℕ
link_weight speed = if leb max_weight speed then 1 else max_weight - speed + 1

unfoldable pub add_edge : SwitchAndPort → SwitchAndPort → ℕ → ℕ → ℕ → Graph → Graph
unfolding link_weight
add_edge from to speed u v g = record g {
  edges =
      g.edges
      ++ record {
        u = u;
        v = v;
        link = record {
          source = from;
          target = to;
          hop_metrics = 1;
          ps_metrics = link_weight speed;
          pl_metrics = 1;
        };
      }
        ∷ [];
}

abbrev pub add_link_at : SwitchAndPort → SwitchAndPort → Graph → Option ℕ → Graph
add_link_at from to g none = g
add_link_at from to g (some speed) =
    let (g1, u) = new_vertex from.dpid g in
    let (g2, v) = new_vertex to.dpid g1 in add_edge from to speed u v g2

unfoldable pub add_link : Option ℕ → SwitchAndPort → SwitchAndPort → Graph → Graph
unfolding new_vertex add_edge
add_link speed from to g = if from.dpid == to.dpid then g else add_link_at from to g speed

-- `boost::clear_vertex` of a vertex, and `clear_vertex(vertex(dpid), g)` where there is one.
unfoldable pub drop_touching : ℕ → List Edge → List Edge
unfolding touches
drop_touching w [] = []
drop_touching w (e ∷ es) = if touches w e then drop_touching w es else e ∷ drop_touching w es

abbrev clear_at : Graph → Option ℕ → Graph
clear_at g none = g
clear_at g (some w) = record g { edges = drop_touching w g.edges }

unfoldable pub clear_switch : ℕ → Graph → Graph
unfolding vertex drop_touching
clear_switch dpid g = clear_at g (vertex dpid g)

-- The metrics of a link; other flags are logged and count as 0.
unfoldable pub select_metrics : MetricsFlag → LinkProperty → ℕ
select_metrics hop l = l.hop_metrics
select_metrics port_speed l = l.ps_metrics
select_metrics port_loading l = l.pl_metrics
select_metrics _ l = 0

-- maxWeight: every edge between two consecutive switches of the path that ends at the later port.
unfoldable pub u64 : ℕ → ℕ
u64 n = n % 2 ^ 64

abbrev heavier : LinkProperty → LinkProperty
heavier l = record l {
  hop_metrics = u64 (l.hop_metrics + max_weight);
  ps_metrics = u64 (l.ps_metrics + max_weight);
  pl_metrics = u64 (l.pl_metrics + max_weight);
}

unfoldable pub joins : ℕ → ℕ → Edge → Bool
joins a b e = e.u == a && e.v == b || e.u == b && e.v == a

unfoldable pub weigh_edges : ℕ → ℕ → SwitchAndPort → List Edge → List Edge
unfolding joins at_port u64
weigh_edges a b sp [] = []
weigh_edges a b sp (e ∷ es) =
    (if joins a b e && at_port sp e.link then record e { link = heavier e.link } else e)
    ∷ weigh_edges a b sp es

abbrev weigh_between : SwitchAndPort → Graph → Option ℕ → Option ℕ → Option Graph
weigh_between sp g (some a) (some b) = some (record g { edges = weigh_edges a b sp g.edges })
weigh_between sp g (some a) none = some g
weigh_between sp g none b = none

infixl 5 ◌>>=◌
abbrev ◌>>=◌ {ℓ κ} : {A : Type ℓ} {B : Type κ} → Option A → (A → Option B) → Option B
none >>= f = none
some a >>= f = f a

-- `none` is the failed CHECK: a switch of the path without a vertex.
unfoldable pub max_weight_path : List SwitchAndPort → Graph → Option Graph
unfolding weigh_edges vertex
max_weight_path [] g = some g
max_weight_path (x ∷ []) g = some g
max_weight_path (x ∷ y ∷ rest) g =
    let go = (do
      g' ← weigh_between y g (vertex y.dpid g) (vertex x.dpid g)
      max_weight_path (y ∷ rest) g') in
    let skip = max_weight_path (y ∷ rest) g in if y.dpid == x.dpid then skip else go
