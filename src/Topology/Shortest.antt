-- ===== src/Topology/Shortest.antt =====
-- The walk along the predecessors ends, and what it collects is a route over links of the graph.
use runos.Base.{
  ℕ, zero, suc, ◌<◌, ◌≡◌, ◌⊎◌, inl, inr, refl, sym, ◌∙◌, Bool, true, false, not, ◌||◌, ◌&&◌, Option,
  none, some, List, [], ◌∷◌, ◌==◌, if◌then◌else◌, arith, Bool-cases,
}
use runos.SwitchAndPort.{SwitchAndPort, port_eq, port_eq_refl}
use runos.Topology.Paths.{MetricsFlag}
use runos.Topology.Graphs.{Graph, Edge, LinkProperty, vertex, joins, select_metrics}
use runos.Topology.Search.{least_link, better, ends_from, prepend, walk, path_between, compute_path}

abbrev pub All : (Edge → Type 0) → List Edge → Type 0
All P [] = Unit
All P (e ∷ es) = P e × All P es

-- Each edge is between the vertices of its switches, which differ, and has metrics.
abbrev pub Sound : (ℕ → ℕ) → MetricsFlag → Edge → Type 0
Sound label mf e =
    (e.link.source.dpid ≡ label e.u)
    × (e.link.target.dpid ≡ label e.v)
    × ((e.u == e.v) ≡ false)
    × ((select_metrics mf e.link == 0) ≡ false)

unfoldable pub joined : ℕ → ℕ → List Edge → Bool
unfolding joins
joined a b [] = false
joined a b (e ∷ es) = joins a b e || joined a b es

-- A link of the graph, in one direction or the other.
unfoldable pub linked : SwitchAndPort → SwitchAndPort → List Edge → Bool
unfolding port_eq
linked a b [] = false
linked a b (e ∷ es) =
    port_eq e.link.source a && port_eq e.link.target b
    || port_eq e.link.source b && port_eq e.link.target a
    || linked a b es

-- From one switch over links to another.
abbrev pub Chain : List Edge → ℕ → List SwitchAndPort → ℕ → Type 0
Chain edges from [] to = from ≡ to
Chain edges from (a ∷ []) to = true ≡ false
Chain edges from (a ∷ b ∷ rest) to =
    (a.dpid ≡ from) × (linked a b edges ≡ true) × Chain edges b.dpid rest to

-- What Dijkstra's algorithm documents of the predecessors on the way to `e`: a predecessor that is
-- another vertex is joined and nearer, and only `e` is the last of others.
pub record IsPredecessors (g : Graph) (e : ℕ) (p : ℕ → ℕ) : Type 0 where
  pub depth : ℕ → ℕ
  pub bound : (v : ℕ) → depth v < g.num_vertices
  pub nearer : (v : ℕ) → (p v == v) ≡ false → depth (p v) < depth v
  pub edge : (v : ℕ) → (p v == v) ≡ false → joined v (p v) g.edges ≡ true
  pub root : (v : ℕ) → (p v == v) ≡ false → (p (p v) == p v) ≡ true → (p v == e) ≡ true

module _ (P : Edge → Type 0) (mf : MetricsFlag) (a b : ℕ) where
  abbrev Found : Option (ℕ × LinkProperty) → Type 0
  Found none = Unit
  Found (some (m, l)) =
      (e : Edge) × P e × (joins a b e ≡ true) × (e.link ≡ l) × (m ≡ select_metrics mf l)

  least_link-Found :
      (es : List Edge) (found : Option (ℕ × LinkProperty))
      → All P es
      → Found found
      → Found (least_link mf a b es found)
  unfolding least_link
  least_link-Found [] found h f = f
  least_link-Found (e ∷ es) found (p, h) f =
      elim (Bool-cases (joins a b e && better (select_metrics mf e.link) found)) [
        | inl t ↦ rw t (
            least_link-Found es (some (select_metrics mf e.link, e.link)) h
              (e, p, ground (arith, t), refl, refl))
        | inr t ↦ rw t (least_link-Found es found h f)
      ]

abbrev is_some {ℓ} : {A : Type ℓ} → Option A → Bool
is_some none = false
is_some (some a) = true

least_link-some :
    (mf : MetricsFlag) (a b : ℕ) (es : List Edge) (found : Option (ℕ × LinkProperty))
    → is_some (least_link mf a b es found) ≡ (is_some found || joined a b es)
unfolding least_link joined
least_link-some mf a b [] none = refl
least_link-some mf a b [] (some f) = refl
least_link-some mf a b (e ∷ es) none = ground (
  arith,
  least_link-some mf a b es none,
  least_link-some mf a b es (some (select_metrics mf e.link, e.link)),
)
least_link-some mf a b (e ∷ es) (some f) = ground (
  arith,
  least_link-some mf a b es (some f),
  least_link-some mf a b es (some (select_metrics mf e.link, e.link)),
)

joined_self :
    (label : ℕ → ℕ) (mf : MetricsFlag) (v : ℕ) (es : List Edge)
    → All (Sound label mf) es
    → joined v v es ≡ false
unfolding joined joins
joined_self label mf v [] h = refl
joined_self label mf v (e ∷ es) (s, h) = ground (arith, joined_self label mf v es h, s)

linked_sym : (x y : SwitchAndPort) (es : List Edge) → linked x y es ≡ linked y x es
unfolding linked
linked_sym x y [] = refl
linked_sym x y (e ∷ es) = ground (arith, linked_sym x y es)

linked_cons : (e : Edge) (es : List Edge) → linked e.link.source e.link.target (e ∷ es) ≡ true
unfolding linked
linked_cons e es = ground (arith, port_eq_refl e.link.source, port_eq_refl e.link.target)

abbrev Linked : List Edge → Edge → Type 0
Linked all e = linked e.link.source e.link.target all ≡ true

linked_later :
    (x y : SwitchAndPort) (e : Edge) (es : List Edge)
    → linked x y es ≡ true
    → linked x y (e ∷ es) ≡ true
unfolding linked
linked_later x y e es h = ground (arith, h)

Linked-All :
    (es all : List Edge)
    → ((x y : SwitchAndPort) → linked x y es ≡ true → linked x y all ≡ true)
    → All (Linked all) es
Linked-All [] all sub = tt
Linked-All (e ∷ es) all sub = (
  sub e.link.source e.link.target (linked_cons e es),
  Linked-All es all (λ x y h. sub x y (linked_later x y e es h)),
)

both : (P Q : Edge → Type 0) (es : List Edge) → All P es → All Q es → All (λ e. P e × Q e) es
both P Q [] h k = tt
both P Q (e ∷ es) (p, h) (q, k) = ((p, q), both P Q es h k)

abbrev Usable : (ℕ → ℕ) → MetricsFlag → List Edge → Edge → Type 0
Usable label mf all e = Sound label mf e × Linked all e

-- The chosen link leads from the one vertex to the other.
abbrev Leads : (ℕ → ℕ) → List Edge → ℕ → ℕ → ℕ → SwitchAndPort × SwitchAndPort → Type 0
Leads label all a b from (x, y) = (x.dpid ≡ from) × (y.dpid ≡ label b) × (linked x y all ≡ true)

ends_from-Leads :
    (label : ℕ → ℕ) (mf : MetricsFlag) (all : List Edge) (a b from : ℕ) (e : Edge)
    → Usable label mf all e
    → joins a b e ≡ true
    → from ≡ label a
    → Leads label all a b from (ends_from from e.link)
unfolding joins
ends_from-Leads label mf all a b from e ((s, t, n, m), k) j f =
    ground (arith, s, t, j, f, k, linked_sym e.link.source e.link.target all)

-- The graph of a labelling: every vertex of the map is that of its switch.
abbrev pub Labelled : (ℕ → ℕ) → Graph → Type 0
Labelled label g = (dpid v : ℕ) → vertex dpid g ≡ some v → label v ≡ dpid

abbrev pub Computed : Graph → ℕ → ℕ → Option (List SwitchAndPort) → Type 0
Computed g from to none = true ≡ false
Computed g from to (some ret) = (ret ≡ []) ⊎ Chain g.edges from ret to

module _ (dijkstra : Graph → ℕ → MetricsFlag → ℕ → ℕ) where
  -- With more rounds than the depth of the vertex the walk ends: with nothing at a vertex without
  -- predecessor, otherwise with a chain to the end.
  abbrev pub Walked : (ℕ → ℕ) → List Edge → ℕ → ℕ → Bool → ℕ → Option (List SwitchAndPort) → Type 0
  Walked label all e v stuck from none = true ≡ false
  Walked label all e v stuck from (some ret) =
      if stuck then ret ≡ [] else Chain all from ret (label e)

  module _ (label : ℕ → ℕ) (mf : MetricsFlag) (g : Graph) (e : ℕ) (p : ℕ → ℕ)
      (sound : All (Sound label mf) g.edges) (tree : IsPredecessors g e p) where
    usable : All (Usable label mf g.edges) g.edges
    usable =
        both (Sound label mf) (Linked g.edges) g.edges sound
          (Linked-All g.edges g.edges (λ x y h. h))

    chosen : ℕ → Option (ℕ × LinkProperty)
    chosen v = least_link mf v (p v) g.edges none

    chosen-Found : (v : ℕ) → Found (Usable label mf g.edges) mf v (p v) (chosen v)
    unfolding chosen
    chosen-Found v = least_link-Found (Usable label mf g.edges) mf v (p v) g.edges none usable tt

    chosen_some : (v : ℕ) → is_some (chosen v) ≡ joined v (p v) g.edges
    unfolding chosen
    chosen_some v = least_link-some mf v (p v) g.edges none

    chosen_stuck : (v : ℕ) → (p v == v) ≡ true → is_some (chosen v) ≡ false
    chosen_stuck v h = ground (arith, chosen_some v, joined_self label mf v g.edges sound)

    unfoldable pub stuck_at : ℕ → Bool
    stuck_at v = not (v == e) && (p v == v)

    prepend-Walked :
        (v from : ℕ) (xy : SwitchAndPort × SwitchAndPort) (r : Option (List SwitchAndPort))
        → Leads label g.edges v (p v) from xy
        → Walked label g.edges e (p v) false (xy.1.dpid) r
        → Walked label g.edges e v false from (prepend xy r)
    prepend-Walked v from (x, y) none h w = w
    prepend-Walked v from (x, y) (some ret) (a, b, c) w = (a, c, w)

    -- The walk from the predecessor on, with the rounds that are left.
    abbrev Rest : ℕ → ℕ → Type 0
    Rest fuel v =
        (from : ℕ)
        → from ≡ label (p v)
        → Walked label g.edges e (p v) false from (walk dijkstra fuel p mf g.edges e (p v) from)

    taken-Walked :
        (fuel v from : ℕ) (r : Option (ℕ × LinkProperty))
        → from ≡ label v
        → Found (Usable label mf g.edges) mf v (p v) r
        → is_some r ≡ true
        → Rest fuel v
        → Walked label g.edges e v false from (elim r [
          | none ↦ some []
          | some found ↦
              if found.0 == 0
              then some []
              else prepend
                  (ends_from from found.1)
                  (walk dijkstra fuel p mf g.edges e (p v) ((ends_from from found.1).1.dpid))
        ])
    taken-Walked fuel v from none f h s rest = absurd (ground (arith, s))
    taken-Walked fuel v from (some (m, l)) f (d, u, j, k, w) s rest =
        let leads = ends_from-Leads label mf g.edges v (p v) from d u j f in
        let leads' : Leads label g.edges v (p v) from (ends_from from l) = rw (← k) leads in
        let pos : (m == 0) ≡ false = rw (w, ← k) u.0.3 in
        rw pos (prepend-Walked v from (ends_from from l) _ leads' (rest _ leads'.1))

    not_taken-Walked :
        (v from : ℕ) (r : Option (ℕ × LinkProperty))
        (go : ℕ × LinkProperty → Option (List SwitchAndPort))
        → is_some r ≡ false
        → Walked label g.edges e v true from (elim r [ none ↦ some [] | some found ↦ go found ])
    not_taken-Walked v from none go s = refl
    not_taken-Walked v from (some found) go s = absurd (ground (arith, s))

    -- Behind a step the walk is not stuck.
    goes_on : (v : ℕ) → (p v == v) ≡ false → stuck_at (p v) ≡ false
    unfolding stuck_at
    goes_on v h = ground (arith, tree.root v h)

    pub walk-Walked :
        (fuel v from : ℕ)
        → tree.depth v < fuel
        → from ≡ label v
        → Walked label g.edges e v (stuck_at v) from (walk dijkstra fuel p mf g.edges e v from)
    unfolding walk stuck_at chosen
    walk-Walked zero v from d f = absurd (omega (arith, d))
    walk-Walked (suc fuel) v from d f = elim (Bool-cases (v == e)) [
      | inl here ↦ rw here (ground (arith, here, f))
      | inr away ↦ elim (Bool-cases (p v == v)) [
        | inl stuck ↦ rw (away, stuck) (not_taken-Walked v from (chosen v) _ (chosen_stuck v stuck))
        | inr on ↦
            rw (away, on)
              (taken-Walked fuel v from (chosen v) f (chosen-Found v)
                (chosen_some v ∙ tree.edge v on)
                (λ from' f'.
                  rw (← goes_on v on)
                    (walk-Walked fuel (p v) from' (omega (arith, d, tree.nearer v on)) f')))
      ]
    ]

  Walked-Computed :
      (label : ℕ → ℕ) (g : Graph) (from to v e : ℕ) (stuck : Bool) (r : Option (List SwitchAndPort))
      → label e ≡ to
      → Walked label g.edges e v stuck from r
      → Computed g from to r
  Walked-Computed label g from to v e stuck none h w = w
  Walked-Computed label g from to v e true (some ret) h w = inl w
  Walked-Computed label g from to v e false (some ret) h w = inr (rw (← h) w)

  between-Computed :
      (label : ℕ → ℕ) (mf : MetricsFlag) (g : Graph) (from to : ℕ) (a b : Option ℕ)
      → All (Sound label mf) g.edges
      → Labelled label g
      → ((e : ℕ) → IsPredecessors g e (dijkstra g e mf))
      → vertex from g ≡ a
      → vertex to g ≡ b
      → Computed g from to (path_between dijkstra mf g from a b)
  between-Computed label mf g from to none b s l t x y = inl refl
  between-Computed label mf g from to (some v) none s l t x y = inl refl
  between-Computed label mf g from to (some v) (some e) s l t x y =
      Walked-Computed label g from to v e (stuck_at label mf g e (dijkstra g e mf) s (t e) v) _
        (l to e y)
        (walk-Walked label mf g e (dijkstra g e mf) s (t e) g.num_vertices v from ((t e).bound v)
          (sym (l from v x)))

  pub compute_path-Computed :
      (label : ℕ → ℕ) (mf : MetricsFlag) (g : Graph) (from to : ℕ)
      → All (Sound label mf) g.edges
      → Labelled label g
      → ((e : ℕ) → IsPredecessors g e (dijkstra g e mf))
      → Computed g from to (compute_path dijkstra from to mf g)
  unfolding compute_path
  compute_path-Computed label mf g from to s l t = elim (Bool-cases (g.num_vertices == 0)) [
    | inl h ↦ rw h (inl refl)
    | inr h ↦
        rw h (between-Computed label mf g from to (vertex from g) (vertex to g) s l t refl refl)
  ]
