-- ===== src/Topology/Growing.antt =====
-- The graph that links and switches build is sound: its edges are between the vertices of their
-- switches.
use runos.Base.{
  ℕ, ◌+◌, ◌≤◌, ◌<◌, ◌≡◌, inl, inr, refl, sym, ◌∙◌, Bool, true, false, ◌&&◌, Option, none, some,
  List, [], ◌∷◌, ◌++◌, ◌==◌, if◌then◌else◌, arith, Bool-cases,
}
use runos.SwitchAndPort.{SwitchAndPort}
use runos.Topology.Paths.{MetricsFlag, hop, port_speed, port_loading}
use runos.Topology.Graphs.{
  Graph, Edge, LinkProperty, vertex, find_vertex, erase_key, new_vertex, add_vertex, add_link,
  add_link_at, add_edge, link_weight, delete_vertex, remove_first, remove_edge_at, remove_at,
  touches, at_port, select_metrics,
}
use runos.Topology.Shortest.{All, Sound, Labelled}

-- The flags that name metrics of a link.
abbrev pub weighing : MetricsFlag → Bool
weighing hop = true
weighing port_speed = true
weighing port_loading = true
weighing _ = false

abbrev Inside : ℕ → Edge → Type 0
Inside n e = (e.u < n) × (e.v < n)

pub record IsGraph (mf : MetricsFlag) (label : ℕ → ℕ) (g : Graph) : Type 0 where
  pub sound : All (Sound label mf) g.edges
  pub labels : Labelled label g
  pub placed : (d v : ℕ) → vertex d g ≡ some v → v < g.num_vertices
  pub inside : All (Inside g.num_vertices) g.edges

relabel :
    (mf : MetricsFlag) (label label' : ℕ → ℕ) (n m : ℕ) (es : List Edge)
    → ((x : ℕ) → x < n → label' x ≡ label x)
    → n ≤ m
    → All (Sound label mf) es
    → All (Inside n) es
    → All (Sound label' mf) es × All (Inside m) es
relabel mf label label' n m [] same l s i = (tt, tt)
relabel mf label label' n m (e ∷ es) same l ((a, b, c, d), s) ((x, y), i) =
    let (s', i') = relabel mf label label' n m es same l s i in
    (
      (((a ∙ sym (same e.u x)), (b ∙ sym (same e.v y)), c, d), s'),
      ((omega (arith, x, l), omega (arith, y, l)), i'),
    )

-- What new_vertex gives: the graph with a vertex for the switch, and no other switch changed.
abbrev Grown : MetricsFlag → ℕ → Graph → Graph × ℕ → Type 0
Grown mf d g (h, v) =
    (label' : ℕ → ℕ) × IsGraph mf label' h
    × (vertex d h ≡ some v)
    × ((d' w : ℕ) → vertex d' g ≡ some w → vertex d' h ≡ some w)
    × (h.edges ≡ g.edges)

abbrev labelled_with : ℕ → ℕ → (ℕ → ℕ) → ℕ → ℕ
labelled_with n d label x = if x == n then d else label x

added-Grown :
    (mf : MetricsFlag) (label : ℕ → ℕ) (d : ℕ) (g : Graph) (o : Option ℕ)
    → IsGraph mf label g
    → vertex d g ≡ o
    → Grown mf d g (add_vertex d g o)
unfolding vertex find_vertex
added-Grown mf label d g (some v) h e = (label, h, e, (λ d' w f. f), refl)
added-Grown mf label d g none h e =
    let (s, i) =
      relabel mf label (labelled_with g.num_vertices d label) g.num_vertices (g.num_vertices + 1)
        g.edges (λ x l. ground (arith, l)) (omega arith) h.sound h.inside in
    (
      labelled_with g.num_vertices d label,
      record {
        sound = s;
        labels = λ d' v f. ground (arith, h.labels d' v, h.placed d' v);
        placed = λ d' v f. ground (arith, h.placed d' v);
        inside = i;
      },
      ground arith,
      (λ d' w f. ground (arith, e, f)),
      refl,
    )

new_vertex-Grown :
    (mf : MetricsFlag) (label : ℕ → ℕ) (d : ℕ) (g : Graph)
    → IsGraph mf label g
    → Grown mf d g (new_vertex d g)
unfolding new_vertex
new_vertex-Grown mf label d g h = added-Grown mf label d g (vertex d g) h refl

abbrev pub Graphs : MetricsFlag → Graph → Type 0
Graphs mf g = (label : ℕ → ℕ) × IsGraph mf label g

All-snoc : (P : Edge → Type 0) (es : List Edge) (e : Edge) → All P es → P e → All P (es ++ e ∷ [])
All-snoc P [] e h p = (p, tt)
All-snoc P (x ∷ es) e (q, h) p = (q, All-snoc P es e h p)

new_link : SwitchAndPort → SwitchAndPort → ℕ → LinkProperty
new_link from to speed = record {
  source = from;
  target = to;
  hop_metrics = 1;
  ps_metrics = link_weight speed;
  pl_metrics = 1;
}

weight_pos :
    (mf : MetricsFlag) (from to : SwitchAndPort) (speed : ℕ)
    → weighing mf ≡ true
    → (select_metrics mf (new_link from to speed) == 0) ≡ false
unfolding new_link select_metrics link_weight
weight_pos hop from to speed w = refl
weight_pos port_speed from to speed w = ground arith
weight_pos port_loading from to speed w = refl
weight_pos MetricsFlag.manual from to speed w = ground arith
weight_pos MetricsFlag.no_metrics from to speed w = ground arith

edge_added :
    (mf : MetricsFlag) (label : ℕ → ℕ) (g : Graph) (from to : SwitchAndPort) (speed u v : ℕ)
    → weighing mf ≡ true
    → IsGraph mf label g
    → (from.dpid == to.dpid) ≡ false
    → vertex from.dpid g ≡ some u
    → vertex to.dpid g ≡ some v
    → IsGraph mf label (add_edge from to speed u v g)
unfolding add_edge new_link vertex
edge_added mf label g from to speed u v w h n a b =
    let lu = h.labels from.dpid u a in
    let lv = h.labels to.dpid v b in
    let apart : (u == v) ≡ false = ground (arith, lu, lv, n) in
    record {
      sound =
          All-snoc (Sound label mf) g.edges _ h.sound
            (sym lu, sym lv, apart, weight_pos mf from to speed w);
      labels = h.labels;
      placed = h.placed;
      inside =
          All-snoc (Inside g.num_vertices) g.edges _ h.inside
            (h.placed from.dpid u a, h.placed to.dpid v b);
    }

add_link_at-Graphs :
    (mf : MetricsFlag) (label : ℕ → ℕ) (g : Graph) (from to : SwitchAndPort) (speed : Option ℕ)
    → weighing mf ≡ true
    → IsGraph mf label g
    → (from.dpid == to.dpid) ≡ false
    → Graphs mf (add_link_at from to g speed)
add_link_at-Graphs mf label g from to none w h n = (label, h)
add_link_at-Graphs mf label g from to (some speed) w h n =
    let g1 = (new_vertex from.dpid g).0 in
    let (label1, h1, a, k1, e1) = new_vertex-Grown mf label from.dpid g h in
    let (label2, h2, b, k2, e2) = new_vertex-Grown mf label1 to.dpid g1 h1 in
    (
      label2,
      edge_added mf label2 (new_vertex to.dpid g1).0 from to speed (new_vertex from.dpid g).1
          (new_vertex to.dpid g1).1 w h2 n (k2 from.dpid _ a) b,
    )

pub add_link-Graphs :
    (mf : MetricsFlag) (g : Graph) (from to : SwitchAndPort) (speed : Option ℕ)
    → weighing mf ≡ true
    → Graphs mf g
    → Graphs mf (add_link speed from to g)
unfolding add_link
add_link-Graphs mf g from to speed w (label, h) = elim (Bool-cases (from.dpid == to.dpid)) [
  | inl e ↦ rw e (label, h)
  | inr e ↦ rw e (add_link_at-Graphs mf label g from to speed w h e)
]

All-remove_first :
    (P : Edge → Type 0) (w : ℕ) (sp : SwitchAndPort) (es : List Edge)
    → All P es
    → All P (remove_first w sp es)
unfolding remove_first
All-remove_first P w sp [] h = tt
All-remove_first P w sp (e ∷ es) (p, h) = elim (Bool-cases (touches w e && at_port sp e.link)) [
  | inl t ↦ rw t h
  | inr t ↦ rw t (p, All-remove_first P w sp es h)
]

removed-Graphs :
    (mf : MetricsFlag) (sp : SwitchAndPort) (g : Graph) (o : Option ℕ)
    → Graphs mf g
    → Graphs mf (remove_at sp g o)
unfolding vertex
removed-Graphs mf sp g none h = h
removed-Graphs mf sp g (some w) (label, h) = (
  label,
  record {
    sound = All-remove_first (Sound label mf) w sp g.edges h.sound;
    labels = h.labels;
    placed = h.placed;
    inside = All-remove_first (Inside g.num_vertices) w sp g.edges h.inside;
  },
)

find-erase_other :
    (d k : ℕ) (m : List (ℕ × ℕ))
    → find_vertex k (erase_key d m) ≡ (if k == d then none else find_vertex k m)
unfolding find_vertex erase_key
find-erase_other d k [] = ground arith
find-erase_other d k ((j, w) ∷ rest) = ground (arith, find-erase_other d k rest)

deleted-Graphs :
    (mf : MetricsFlag) (d : ℕ) (g : Graph) → Graphs mf g → Graphs mf (delete_vertex d g)
unfolding delete_vertex vertex
deleted-Graphs mf d g (label, h) = (
  label,
  record {
    sound = h.sound;
    labels = λ k v e. ground (arith, find-erase_other d k g.vertex_map, h.labels k v);
    placed = λ k v e. ground (arith, find-erase_other d k g.vertex_map, h.placed k v);
    inside = h.inside;
  },
)

-- What switches and links do to the graph.
pub data GraphEvent : Type 0 where
  link_found : Option ℕ → SwitchAndPort → SwitchAndPort → GraphEvent
  link_lost : SwitchAndPort → GraphEvent
  switch_found switch_lost : ℕ → GraphEvent

abbrev pub graph_step : GraphEvent → Graph → Graph
graph_step (link_found speed from to) g = add_link speed from to g
graph_step (link_lost sp) g = remove_edge_at sp g
graph_step (switch_found d) g = (new_vertex d g).0
graph_step (switch_lost d) g = delete_vertex d g

graph_step-Graphs :
    (mf : MetricsFlag) (e : GraphEvent) (g : Graph)
    → weighing mf ≡ true
    → Graphs mf g
    → Graphs mf (graph_step e g)
unfolding remove_edge_at
graph_step-Graphs mf (link_found speed from to) g w h = add_link-Graphs mf g from to speed w h
graph_step-Graphs mf (link_lost sp) g w h = removed-Graphs mf sp g (vertex sp.dpid g) h
graph_step-Graphs mf (switch_found d) g w (label, h) =
    let (label', h', a, b, c) = new_vertex-Grown mf label d g h in (label', h')
graph_step-Graphs mf (switch_lost d) g w h = deleted-Graphs mf d g h

unfoldable pub run_graph : List GraphEvent → Graph → Graph
run_graph [] g = g
run_graph (e ∷ es) g = run_graph es (graph_step e g)

abbrev pub empty_graph : Graph
empty_graph = record { num_vertices = 0; edges = []; vertex_map = [] }

run_from :
    (mf : MetricsFlag) (es : List GraphEvent) (g : Graph)
    → weighing mf ≡ true
    → Graphs mf g
    → Graphs mf (run_graph es g)
unfolding run_graph
run_from mf [] g w h = h
run_from mf (e ∷ es) g w h = run_from mf es (graph_step e g) w (graph_step-Graphs mf e g w h)

empty-Graphs : (mf : MetricsFlag) → Graphs mf empty_graph
unfolding vertex find_vertex
empty-Graphs mf = (
  (λ x. x),
  record {
    sound = tt;
    labels = λ d v e. ground (arith, e);
    placed = λ d v e. ground (arith, e);
    inside = tt;
  },
)

-- After any sequence of link and switch events from the empty graph, every link has positive
-- weight under a metric that weighs links and joins the vertices of its two switches, different
-- ones, and a switch is mapped to a vertex of its own that exists.
pub run_graph-Graphs :
    (mf : MetricsFlag) (es : List GraphEvent)
    → weighing mf ≡ true
    → Graphs mf (run_graph es empty_graph)
run_graph-Graphs mf es w = run_from mf es empty_graph w (empty-Graphs mf)
