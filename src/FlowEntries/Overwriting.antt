-- ===== src/FlowEntries/Overwriting.antt =====
-- Two savings of a switch in a row: the second overwrites the entries of the first index by index.
use mathlib.Core.List.{append-nil, append_assoc}
use runos.Base.{
  ℕ, ◌+◌, ◌≡◌, inl, inr, refl, sym, ap, ◌∙◌, Bool-cases, Bool, true, false, ◌&&◌, Option, none,
  some, List, [], ◌∷◌, ◌++◌, map, ltb, ◌==◌, if◌then◌else◌, arith,
}
use runos.FlowEntries.Messages.{OxmMatch, IsComparing, FlowMod}
use runos.FlowEntries.Flows.{FlowKey, Flow, FlowSet, is_some, flow_of, find}
use runos.FlowEntries.States.{StateMap, find_state}
use runos.FlowEntries.Store.{
  Database, Entries, put_value, get_state, save_from, save_states, save, from_json, load,
}
use runos.FlowEntries.Tables.{IsArrangement, all_flows, find-insert_all, distinct}
use runos.FlowEntries.Handling.{keyed}
use runos.FlowEntries.Restoring.{once}
use runos.FlowEntries.Saving.{loaded, find-load, member-dpids, flow-message}

module _ {T : Type 0} where
  -- The entries of one switch.
  view : ℕ → Entries T → List (ℕ × T)
  view d [] = []
  view d (((e, i), t) ∷ es) = let rest = view d es in if d == e then (i, t) ∷ rest else rest

  put_view : ℕ → T → List (ℕ × T) → List (ℕ × T)
  put_view i t [] = (i, t) ∷ []
  put_view i t ((j, u) ∷ vs) =
      let rest = put_view i t vs in if i == j then (i, t) ∷ vs else (j, u) ∷ rest

  texts_of : List (ℕ × T) → List T
  texts_of [] = []
  texts_of ((i, t) ∷ vs) = t ∷ texts_of vs

  view-put_value :
      (d e i : ℕ) (t : T) (es : Entries T)
      → view d (put_value e i t es) ≡ (if d == e then put_view i t (view d es) else view d es)
  unfolding view put_view put_value
  view-put_value d e i t [] = ground arith
  view-put_value d e i t (((b, j), u) ∷ es) = ground (arith, view-put_value d e i t es)

  get_state-view : (d : ℕ) (es : Entries T) → get_state d es ≡ texts_of (view d es)
  unfolding get_state view texts_of
  get_state-view d [] = refl
  get_state-view d (((e, i), t) ∷ es) = ground (arith, get_state-view d es)

  no_view : (vs : List (ℕ × T)) → texts_of vs ≡ [] → vs ≡ []
  unfolding texts_of
  no_view [] h = refl
  no_view ((i, t) ∷ vs) h = absurd (ground (arith, h))

  before_all : ℕ → List (ℕ × T) → Bool
  before_all i [] = true
  before_all i ((j, u) ∷ vs) = ltb j i && before_all i vs

  put_behind :
      (i : ℕ) (t : T) (ps vs : List (ℕ × T))
      → before_all i ps ≡ true
      → put_view i t (ps ++ vs) ≡ ps ++ put_view i t vs
  unfolding before_all put_view
  put_behind i t [] vs h = refl
  put_behind i t ((j, u) ∷ ps) vs h = ground (arith, h, put_behind i t ps vs)

  put_first : (i : ℕ) (t u : T) (vs : List (ℕ × T)) → put_view i t ((i, u) ∷ vs) ≡ (i, t) ∷ vs
  unfolding put_view
  put_first i t u vs = ground arith

  before_more :
      (i : ℕ) (t : T) (ps : List (ℕ × T))
      → before_all i ps ≡ true
      → before_all (i + 1) (ps ++ (i, t) ∷ []) ≡ true
  unfolding before_all
  before_more i t [] h = ground arith
  before_more i t ((j, u) ∷ ps) h = ground (arith, h, before_more i t ps)

before_nothing : (T : Type 0) (i : ℕ) → before_all {T = T} i [] ≡ true
unfolding before_all
before_nothing T i = refl

-- What a set has beyond as many flows as another.
pub beyond : {M I : Type 0} → FlowSet M I → FlowSet M I → FlowSet M I
beyond [] gs = gs
beyond (f ∷ fs) [] = []
beyond (f ∷ fs) (g ∷ gs) = beyond fs gs

module _ {M F I T : Type 0} (o : OxmMatch M F) (dump : FlowMod M I → T) where
  indexed : ℕ → FlowSet M I → List (ℕ × T)
  indexed i [] = []
  indexed i (f ∷ fs) = (i, dump f.message) ∷ indexed (i + 1) fs

  put_all : ℕ → FlowSet M I → List (ℕ × T) → List (ℕ × T)
  put_all i [] vs = vs
  put_all i (f ∷ fs) vs = put_all (i + 1) fs (put_view i (dump f.message) vs)

  view-save_from :
      (d e i : ℕ) (fs : FlowSet M I) (es : Entries T)
      → view d (save_from dump e i fs es) ≡ (if d == e then put_all i fs (view d es) else view d es)
  unfolding save_from put_all
  view-save_from d e i [] es = ground arith
  view-save_from d e i (f ∷ fs) es = ground (
    arith,
    view-save_from d e (i + 1) fs (put_value e i (dump f.message) es),
    view-put_value d e i (dump f.message) es,
  )

  view-others :
      (d : ℕ) (ss : StateMap M I) (es : Entries T)
      → is_some (find_state d ss) ≡ false
      → view d (save_states dump ss es) ≡ view d es
  unfolding save_states find_state
  view-others d [] es h = refl
  view-others d ((e, gs) ∷ ss) es h =
      ground (arith, h, view-others d ss (save_from dump e 1 gs es), view-save_from d e 1 gs es)

  view-save_states :
      (d : ℕ) (ss : StateMap M I) (fs : FlowSet M I) (es : Entries T)
      → once ss ≡ true
      → find_state d ss ≡ some fs
      → view d (save_states dump ss es) ≡ put_all 1 fs (view d es)
  unfolding save_states find_state once
  view-save_states d [] fs es u h = absurd (ground (arith, h))
  view-save_states d ((e, gs) ∷ ss) fs es u h = elim (Bool-cases (d == e)) [
    | inl t ↦
        let same : d ≡ e = ground (arith, t) in
        let gone : is_some (find_state d ss) ≡ false =
          ap (λ x. is_some (find_state x ss)) same ∙ ground (arith, u) in
        let own : gs ≡ fs = ground (arith, t, h) in
        view-others d ss (save_from dump e 1 gs es) gone
        ∙ view-save_from d e 1 gs es
        ∙ rw (t, own) refl
    | inr t ↦
        view-save_states d ss fs (save_from dump e 1 gs es) (ground (arith, u))
          (ground (arith, t, h))
        ∙ ap (put_all 1 fs) (view-save_from d e 1 gs es ∙ rw t refl)
  ]

  beyond_none : (fs : FlowSet M I) → beyond fs [] ≡ []
  unfolding beyond
  beyond_none [] = refl
  beyond_none (f ∷ fs) = refl

  put_all_over :
      (i : ℕ) (fs gs : FlowSet M I) (ps : List (ℕ × T))
      → before_all i ps ≡ true
      → put_all i fs (ps ++ indexed i gs) ≡ ps ++ indexed i (fs ++ beyond fs gs)
  unfolding put_all indexed beyond put_view
  put_all_over i [] gs ps h = refl
  put_all_over i (f ∷ fs) [] ps h =
      let t = dump f.message in
      let qs = ps ++ (i, t) ∷ [] in
      ap (put_all (i + 1) fs) (put_behind i t ps [] h ∙ sym (append-nil qs))
      ∙ put_all_over (i + 1) fs [] qs (before_more i t ps h)
      ∙ ap (λ x. qs ++ indexed (i + 1) (fs ++ x)) (beyond_none fs)
      ∙ append_assoc ps ((i, t) ∷ []) (indexed (i + 1) (fs ++ []))
  put_all_over i (f ∷ fs) (g ∷ gs) ps h =
      let t = dump f.message in
      let qs = ps ++ (i, t) ∷ [] in
      ap (put_all (i + 1) fs) (
        put_behind i t ps (indexed i (g ∷ gs)) h
        ∙ ap (λ vs. ps ++ vs) (put_first i t (dump g.message) (indexed (i + 1) gs))
        ∙ sym (append_assoc ps ((i, t) ∷ []) (indexed (i + 1) gs)))
      ∙ put_all_over (i + 1) fs gs qs (before_more i t ps h)
      ∙ append_assoc ps ((i, t) ∷ []) (indexed (i + 1) (fs ++ beyond fs gs))

  -- Two savings, the first to entries that have none of the switch.
  view_twice :
      (d : ℕ) (ss ts : StateMap M I) (fs gs : FlowSet M I) (es : Entries T)
      → once ss ≡ true
      → once ts ≡ true
      → find_state d ss ≡ some gs
      → find_state d ts ≡ some fs
      → get_state d es ≡ []
      → view d (save_states dump ts (save_states dump ss es)) ≡ indexed 1 (fs ++ beyond fs gs)
  unfolding put_all indexed
  view_twice d ss ts fs gs es u v g f n =
      let none_yet : view d es ≡ [] = no_view (view d es) (sym (get_state-view d es) ∙ n) in
      let first : view d (save_states dump ss es) ≡ indexed 1 gs =
        view-save_states d ss gs es u g
        ∙ ap (put_all 1 gs) none_yet
        ∙ put_all_over 1 gs [] [] (before_nothing T 1)
        ∙ ap (λ x. indexed 1 (gs ++ x)) (beyond_none gs)
        ∙ ap (indexed 1) (append-nil gs) in
      view-save_states d ts fs (save_states dump ss es) v f
      ∙ ap (put_all 1 fs) first
      ∙ put_all_over 1 fs gs [] (before_nothing T 1)

  module _ (c : IsComparing o) (arrange : FlowSet M I → FlowSet M I) (a : IsArrangement o arrange)
      (parse : T → FlowMod M I) (parse-dump : (m : FlowMod M I) → parse (dump m) ≡ m) where
    parsed-indexed :
        (i : ℕ) (fs : FlowSet M I)
        → all_flows (keyed o) fs ≡ true
        → map (λ t. flow_of (parse t)) (texts_of (indexed i fs)) ≡ fs
    unfolding texts_of indexed all_flows
    parsed-indexed i [] h = refl
    parsed-indexed i (f ∷ fs) h =
        rw
          (
            parse-dump f.message,
            flow-message o dump c arrange a parse parse-dump f (ground (arith, h)),
            parsed-indexed (i + 1) fs (ground (arith, h)),
          )
          refl

    all-append :
        (test : Flow M I → Bool) (xs ys : FlowSet M I)
        → all_flows test xs ≡ true
        → all_flows test ys ≡ true
        → all_flows test (xs ++ ys) ≡ true
    unfolding all_flows
    all-append test [] ys h k = k
    all-append test (x ∷ xs) ys h k = ground (arith, h, all-append test xs ys)

    all-beyond :
        (test : Flow M I → Bool) (fs gs : FlowSet M I)
        → all_flows test gs ≡ true
        → all_flows test (beyond fs gs) ≡ true
    unfolding all_flows beyond
    all-beyond test [] gs h = h
    all-beyond test (f ∷ fs) [] h = refl
    all-beyond test (f ∷ fs) (g ∷ gs) h = all-beyond test fs gs (ground (arith, h))

    abbrev pub Loads : FlowKey M → FlowSet M I → Option (FlowSet M I) → Type 0
    Loads k fs none = true ≡ false
    Loads k fs (some hs) = find o k hs ≡ find o k fs

    json-Loads :
        (k : FlowKey M) (d : ℕ) (fs : FlowSet M I) (es : Entries T)
        → all_flows (keyed o) fs ≡ true
        → view d es ≡ indexed 1 fs
        → find o k (loaded o arrange parse es d) ≡ find o k fs
    unfolding from_json distinct find
    json-Loads k d fs es h v =
        rw (get_state-view d es, v, parsed-indexed 1 fs h)
          (find-insert_all o c arrange a k fs [] refl)

    pub stale-Loads :
        (d : ℕ) (ss ts : StateMap M I) (fs gs : FlowSet M I) (db : Database T) (k : FlowKey M)
        → once ss ≡ true
        → once ts ≡ true
        → find_state d ss ≡ some gs
        → find_state d ts ≡ some fs
        → all_flows (keyed o) gs ≡ true
        → all_flows (keyed o) fs ≡ true
        → get_state d db.entries ≡ []
        → Loads k
            (fs ++ beyond fs gs)
            (find_state d (load o arrange parse (save dump ts (save dump ss db))))
    unfolding save
    stale-Loads d ss ts fs gs db k u v g f y x n =
        rw
          (
            find-load o arrange parse d (save dump ts (save dump ss db)),
            member-dpids o dump d ts,
            f,
          )
          (json-Loads k d (fs ++ beyond fs gs)
            (save_states dump ts (save_states dump ss db.entries))
            (all-append (keyed o) fs (beyond fs gs) x (all-beyond (keyed o) fs gs y))
            (view_twice d ss ts fs gs db.entries u v g f n))
