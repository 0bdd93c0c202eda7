-- ===== src/Topology/Including.antt =====
-- inExPath: a path by way of some switches, past others.
use mathlib.Core.Path.{subst}
use runos.Base.{
  ℕ, ◌≡◌, ◌⊎◌, inl, inr, refl, Bool, true, false, not, ◌||◌, ◌&&◌, Option, none, some, List, [],
  ◌∷◌, ◌++◌, ◌==◌, if◌then◌else◌, arith, Bool-cases,
}
use runos.SwitchAndPort.{SwitchAndPort}
use runos.Topology.Paths.{MetricsFlag}
use runos.Topology.Graphs.{Graph, Edge, vertex, clear_switch, drop_touching, touches}
use runos.Topology.Search.{
  compute_path, join_parts, in_ex_path, exclude_all, find, no_ports, no_dpids,
}
use runos.Topology.Shortest.{
  All, Sound, Chain, Labelled, IsPredecessors, Computed, compute_path-Computed,
}

Chain-append :
    (es : List Edge) (a b c : ℕ) (xs ys : List SwitchAndPort)
    → Chain es a xs b
    → Chain es b ys c
    → Chain es a (xs ++ ys) c
Chain-append es a b c [] ys h k = rw h k
Chain-append es a b c (x ∷ []) ys h k = absurd (ground (arith, h))
Chain-append es a b c (x ∷ y ∷ xs) ys (p, q, h) k = (p, q, Chain-append es y.dpid b c xs ys h k)

All-drop_touching :
    (P : Edge → Type 0) (w : ℕ) (es : List Edge) → All P es → All P (drop_touching w es)
unfolding drop_touching
All-drop_touching P w [] h = tt
All-drop_touching P w (e ∷ es) (p, h) = elim (Bool-cases (touches w e)) [
  | inl t ↦ rw t (All-drop_touching P w es h)
  | inr t ↦ rw t (p, All-drop_touching P w es h)
]

module _ (dijkstra : Graph → ℕ → MetricsFlag → ℕ → ℕ) (label : ℕ → ℕ) (mf : MetricsFlag) where
  abbrev IsLabelled : Graph → Type 0
  IsLabelled g = All (Sound label mf) g.edges × Labelled label g

  clear_switch-IsLabelled : (d : ℕ) (g : Graph) → IsLabelled g → IsLabelled (clear_switch d g)
  unfolding clear_switch
  clear_switch-IsLabelled d g h = cleared (vertex d g)
    where
      cleared :
          (o : Option ℕ)
          → IsLabelled (elim o [ none ↦ g | some w ↦ record g { edges = drop_touching w g.edges } ])
      cleared none = h
      cleared (some w) = (All-drop_touching (Sound label mf) w g.edges h.0, h.1)

  if-IsLabelled :
      (b : Bool) (x y : Graph) → IsLabelled x → IsLabelled y → IsLabelled (if b then x else y)
  if-IsLabelled true x y h k = h
  if-IsLabelled false x y h k = k

  exclude_all-IsLabelled :
      (ds : List ℕ) (from to : ℕ) (g : Graph) → IsLabelled g → IsLabelled (exclude_all ds from to g)
  unfolding exclude_all
  exclude_all-IsLabelled [] from to g h = h
  exclude_all-IsLabelled (d ∷ ds) from to g h = exclude_all-IsLabelled ds from to _ (
      if-IsLabelled (not (d == from) && not (d == to)) (clear_switch d g) g
        (clear_switch-IsLabelled d g h) h)

  unfoldable pub last_of : ℕ → List ℕ → ℕ
  last_of d [] = d
  last_of d (x ∷ xs) = last_of x xs

  abbrev both_parts : Bool → List SwitchAndPort → List SwitchAndPort → List SwitchAndPort
  both_parts final part rest =
      if no_ports part || (not final && no_ports rest) then [] else part ++ rest

  parts-Chain :
      (g : Graph) (from d to : ℕ) (final : Bool) (part rest : List SwitchAndPort)
      → (final ≡ true → d ≡ to)
      → (part ≡ []) ⊎ Chain g.edges from part d
      → (rest ≡ []) ⊎ Chain g.edges d rest to
      → (both_parts final part rest ≡ []) ⊎ Chain g.edges from (both_parts final part rest) to
  parts-Chain g from d to final [] rest f p q = inl refl
  parts-Chain g from d to final (x ∷ xs) rest f (inl e) q = absurd (ground (arith, e))
  parts-Chain g from d to true (x ∷ xs) [] f (inr c) q =
      inr (Chain-append g.edges from d to (x ∷ xs) [] c (f refl))
  parts-Chain g from d to false (x ∷ xs) [] f (inr c) q = inl refl
  parts-Chain g from d to final (x ∷ xs) (y ∷ ys) f (inr c) (inl e) = absurd (ground (arith, e))
  parts-Chain g from d to true (x ∷ xs) (y ∷ ys) f (inr c) (inr k) =
      inr (Chain-append g.edges from d to (x ∷ xs) (y ∷ ys) c k)
  parts-Chain g from d to false (x ∷ xs) (y ∷ ys) f (inr c) (inr k) =
      inr (Chain-append g.edges from d to (x ∷ xs) (y ∷ ys) c k)

  abbrev bind_parts :
      Bool → Option (List SwitchAndPort) → Option (List SwitchAndPort) → Option (List SwitchAndPort)
  bind_parts final none rest = none
  bind_parts final (some part) none = none
  bind_parts final (some part) (some rest) = some (both_parts final part rest)

  bound-Computed :
      (g : Graph) (from d to : ℕ) (final : Bool) (part rest : Option (List SwitchAndPort))
      → (final ≡ true → d ≡ to)
      → Computed g from d part
      → Computed g d to rest
      → Computed g from to (bind_parts final part rest)
  bound-Computed g from d to final none rest f p q = p
  bound-Computed g from d to final (some part) none f p q = q
  bound-Computed g from d to final (some part) (some rest) f p q =
      parts-Chain g from d to final part rest f p q

  join_parts_lem :
      (g : Graph) (from d : ℕ) (ds : List ℕ)
      → join_parts dijkstra from (d ∷ ds) mf g
        ≡ bind_parts
            (no_dpids ds)
            (compute_path dijkstra from d mf g)
            (join_parts dijkstra d ds mf g)
  unfolding join_parts
  join_parts_lem g from d ds = ground arith

  final_last : (d : ℕ) (ds : List ℕ) → no_dpids ds ≡ true → d ≡ last_of d ds
  unfolding last_of
  final_last d [] h = refl
  final_last d (x ∷ xs) h = absurd (ground (arith, h))

  join_parts-Computed :
      (g : Graph) (from : ℕ) (ds : List ℕ)
      → IsLabelled g
      → ((e : ℕ) → IsPredecessors g e (dijkstra g e mf))
      → Computed g from (last_of from ds) (join_parts dijkstra from ds mf g)
  unfolding join_parts last_of
  join_parts-Computed g from [] h t = inr refl
  join_parts-Computed g from (d ∷ ds) h t = rw (join_parts_lem g from d ds) (
      bound-Computed g from d (last_of d ds) (no_dpids ds) _ _ (final_last d ds)
        (compute_path-Computed dijkstra label mf g from d h.0 h.1 t)
        (join_parts-Computed g d ds h t))

  last_of-append : (d to : ℕ) (ds : List ℕ) → last_of d (ds ++ to ∷ []) ≡ to
  unfolding last_of
  last_of-append d to [] = refl
  last_of-append d to (x ∷ xs) = last_of-append x to xs

  pub in_ex_path-Computed :
      (include exclude : List ℕ) (from to : ℕ) (g : Graph)
      → All (Sound label mf) g.edges
      → Labelled label g
      → ((e : ℕ)
          → IsPredecessors
              (exclude_all exclude from to g)
              e
              (dijkstra (exclude_all exclude from to g) e mf))
      → Computed
          (exclude_all exclude from to g)
          from
          to
          (in_ex_path dijkstra include exclude mf from to g)
  unfolding in_ex_path
  in_ex_path-Computed include exclude from to g s l t =
      elim (Bool-cases (find from include || find to include)) [
        | inl h ↦ rw h (inl refl)
        | inr h ↦ rw h (
            subst
              (λ x.
                Computed (exclude_all exclude from to g) from x (
                  join_parts dijkstra from (include ++ to ∷ []) mf (exclude_all exclude from to g)))
              (last_of-append from to include)
              (join_parts-Computed (exclude_all exclude from to g) from (include ++ to ∷ [])
                (exclude_all-IsLabelled exclude from to g (s, l)) t))
      ]
