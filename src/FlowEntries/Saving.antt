-- ===== src/FlowEntries/Saving.antt =====
-- The states across a fail-over: what is saved, and what is loaded.
use mathlib.Core.List.{append-nil, append_assoc}
use runos.Base.{
  ℕ, ◌+◌, ◌≡◌, inl, inr, refl, sym, ap, ◌∙◌, Bool-cases, Bool, true, false, ◌||◌, Option, none,
  some, List, [], ◌∷◌, ◌++◌, map, ◌==◌, leb, if◌then◌else◌, arith,
}
use runos.FlowEntries.Messages.{OxmMatch, IsComparing, FlowMod}
use runos.FlowEntries.Flows.{FlowKey, Flow, FlowSet, is_some, key_of, flow_of, find}
use runos.FlowEntries.States.{Result, ok, err, StateMap, find_state, add_state, remove_state}
use runos.FlowEntries.Store.{
  Database, Entries, get_value, put_value, get_state, save_from, save_states, save, dpids,
  from_json, load_list, load,
}
use runos.FlowEntries.Tables.{IsArrangement, distinct, key_eq→eq, all_flows, find-insert_all}
use runos.FlowEntries.Handling.{IsFlowSet, keyed}
use runos.FlowEntries.Restoring.{once}
use runos.FlowEntries.{FlowEntriesVerifier, switch_up, switch_down, on_primary}

pub member : ℕ → List ℕ → Bool
member d [] = false
member d (e ∷ es) = d == e || member d es

module _ {M I : Type 0} where
  pub find-add_state :
      (d e : ℕ) (fs : FlowSet M I) (ss : StateMap M I)
      → find_state d (add_state e fs ss) ≡ (if d == e then some fs else find_state d ss)
  unfolding find_state add_state
  find-add_state d e fs [] = ground arith
  find-add_state d e fs ((b, gs) ∷ ss) = ground (arith, find-add_state d e fs ss)

module _ {M F I T : Type 0} (o : OxmMatch M F) (arrange : FlowSet M I → FlowSet M I)
    (parse : T → FlowMod M I) where
  -- What is loaded for a switch.
  abbrev pub loaded : Entries T → ℕ → FlowSet M I
  loaded es d = from_json o arrange parse (get_state d es)

  loaded_same : (es : Entries T) (d e : ℕ) → d == e ≡ true → loaded es d ≡ loaded es e
  loaded_same es d e h = let same : d ≡ e = ground (arith, h) in rw same refl

  find-load_list :
      (d : ℕ) (es : Entries T) (ds : List ℕ) (ss : StateMap M I)
      → find_state d (load_list o arrange parse es ds ss)
        ≡ (if member d ds then some (loaded es d) else find_state d ss)
  unfolding load_list member
  find-load_list d es [] ss = refl
  find-load_list d es (e ∷ ds) ss = ground (
    arith,
    find-load_list d es ds (add_state e (loaded es e) ss),
    find-add_state d e (loaded es e) ss,
    loaded_same es d e,
  )

  pub find-load :
      (d : ℕ) (db : Database T)
      → find_state d (load o arrange parse db)
        ≡ (if member d db.states_list then some (loaded db.entries d) else none)
  unfolding load find_state
  find-load d db = find-load_list d db.entries db.states_list []

  abbrev pub succeeds : Result (FlowEntriesVerifier M I T) → Bool
  succeeds (ok v) = true
  succeeds (err e) = false

  -- If a switch comes up at a backup that then becomes primary, its going down passes the CHECK
  -- exactly if the database lists the switch.
  pub failover_down :
      (d : ℕ) (v : FlowEntriesVerifier M I T)
      → v.is_primary ≡ false
      → succeeds (switch_down d (on_primary o arrange parse (switch_up d v)))
        ≡ member d v.database.states_list
  unfolding switch_down on_primary switch_up remove_state
  failover_down d v h = ground (arith, h, find-load d v.database)

module _ {T : Type 0} where
  put_new :
      (d i : ℕ) (t : T) (es : Entries T)
      → get_value d i es ≡ none
      → put_value d i t es ≡ es ++ ((d, i), t) ∷ []
  unfolding get_value put_value
  put_new d i t [] h = refl
  put_new d i t (((b, k), u) ∷ es) h = ground (arith, h, put_new d i t es)

  get_state-append :
      (d : ℕ) (es fs : Entries T) → get_state d (es ++ fs) ≡ get_state d es ++ get_state d fs
  unfolding get_state
  get_state-append d [] fs = refl
  get_state-append d (((b, k), u) ∷ es) fs = ground (arith, get_state-append d es fs)

  get-append :
      (d i : ℕ) (es fs : Entries T)
      → get_value d i es ≡ none
      → get_value d i (es ++ fs) ≡ get_value d i fs
  unfolding get_value
  get-append d i [] fs h = refl
  get-append d i (((b, k), u) ∷ es) fs h = ground (arith, h, get-append d i es fs)

module _ {M F I T : Type 0} (o : OxmMatch M F) (dump : FlowMod M I → T) where
  texts : FlowSet M I → List T
  texts fs = map (λ f. dump f.message) fs

  numbered : ℕ → ℕ → FlowSet M I → Entries T
  numbered d i [] = []
  numbered d i (f ∷ fs) = ((d, i), dump f.message) ∷ numbered d (i + 1) fs

  -- No value under an index from one on.
  abbrev FreeFrom : ℕ → ℕ → Entries T → Type 0
  FreeFrom d i es = (j : ℕ) → leb i j ≡ true → get_value d j es ≡ none

  one-FreeFrom :
      (d i : ℕ) (t : T) (es : Entries T)
      → FreeFrom d i es
      → FreeFrom d (i + 1) (es ++ ((d, i), t) ∷ [])
  unfolding get_value
  one-FreeFrom d i t es h j l =
      get-append d j es (((d, i), t) ∷ []) (h j (ground (arith, l))) ∙ ground (arith, l)

  save_from-append :
      (d i : ℕ) (fs : FlowSet M I) (es : Entries T)
      → FreeFrom d i es
      → save_from dump d i fs es ≡ es ++ numbered d i fs
  unfolding save_from numbered
  save_from-append d i [] es h = sym (append-nil es)
  save_from-append d i (f ∷ fs) es h =
      rw
        (
          put_new d i (dump f.message) es (h i (ground arith)),
          save_from-append d (i + 1) fs (es ++ ((d, i), dump f.message) ∷ [])
              (one-FreeFrom d i (dump f.message) es h),
        )
        (append_assoc es (((d, i), dump f.message) ∷ []) (numbered d (i + 1) fs))

  get_state-numbered :
      (d e i : ℕ) (fs : FlowSet M I)
      → get_state d (numbered e i fs) ≡ (if d == e then texts fs else [])
  unfolding get_state numbered texts
  get_state-numbered d e i [] = ground arith
  get_state-numbered d e i (f ∷ fs) = ground (arith, get_state-numbered d e (i + 1) fs)

  numbered_other :
      (d e i j : ℕ) (fs : FlowSet M I) → d == e ≡ false → get_value d j (numbered e i fs) ≡ none
  unfolding get_value numbered
  numbered_other d e i j [] h = refl
  numbered_other d e i j (f ∷ fs) h = ground (arith, h, numbered_other d e (i + 1) j fs)

  -- The database has nothing of the switches that are saved.
  abbrev pub Unsaved : StateMap M I → Entries T → Type 0
  Unsaved ss es = (d : ℕ) → is_some (find_state d ss) ≡ true → FreeFrom d 1 es

  abbrev stored : Option (FlowSet M I) → List T
  stored none = []
  stored (some fs) = texts fs

  find_once :
      (d e : ℕ) (fs : FlowSet M I) (ss : StateMap M I)
      → once ((e, fs) ∷ ss) ≡ true
      → is_some (find_state d ss) ≡ true
      → d == e ≡ false
  unfolding once
  find_once d e fs ss u h = elim (Bool-cases (d == e)) [
    | inl t ↦
        let same : d ≡ e = ground (arith, t) in
        absurd (ground (arith, u, h, ap (λ x. is_some (find_state x ss)) same))
    | inr t ↦ t
  ]

  later-Unsaved :
      (e : ℕ) (fs : FlowSet M I) (ss : StateMap M I) (es : Entries T)
      → once ((e, fs) ∷ ss) ≡ true
      → Unsaved ((e, fs) ∷ ss) es
      → Unsaved ss (es ++ numbered e 1 fs)
  unfolding find_state
  later-Unsaved e fs ss es u f d h j l =
      let away = find_once d e fs ss u h in
      get-append d j es (numbered e 1 fs) (f d (ground (arith, h, away)) j l)
      ∙ numbered_other d e 1 j fs away

  head_free :
      (e : ℕ) (fs : FlowSet M I) (ss : StateMap M I) (es : Entries T)
      → Unsaved ((e, fs) ∷ ss) es
      → FreeFrom e 1 es
  unfolding find_state
  head_free e fs ss es f = f e (ground arith)

  stored_once :
      (d e : ℕ) (fs : FlowSet M I) (ss : StateMap M I)
      → once ((e, fs) ∷ ss) ≡ true
      → (if d == e then texts fs else []) ++ stored (find_state d ss)
        ≡ stored (find_state d ((e, fs) ∷ ss))
  unfolding find_state
  stored_once d e fs ss u = elim (Bool-cases (d == e)) [
    | inl t ↦ elim (Bool-cases (is_some (find_state d ss))) [
      | inl h ↦ absurd (ground (arith, t, find_once d e fs ss u h))
      | inr h ↦
          let n : find_state d ss ≡ none = ground (arith, h) in rw (t, n) (append-nil (texts fs))
    ]
    | inr t ↦ rw t refl
  ]

  saved_state :
      (d : ℕ) (ss : StateMap M I) (es : Entries T)
      → once ss ≡ true
      → Unsaved ss es
      → get_state d (save_states dump ss es) ≡ get_state d es ++ stored (find_state d ss)
  unfolding save_states once find_state
  saved_state d [] es u f = sym (append-nil (get_state d es))
  saved_state d ((e, fs) ∷ ss) es u f = rw (save_from-append e 1 fs es (head_free e fs ss es f)) (
      saved_state d ss (es ++ numbered e 1 fs) (ground (arith, u)) (later-Unsaved e fs ss es u f)
      ∙ ap (λ t. t ++ stored (find_state d ss))
          (get_state-append d es (numbered e 1 fs)
            ∙ ap (λ t. get_state d es ++ t) (get_state-numbered d e 1 fs))
      ∙ append_assoc (get_state d es) (if d == e then texts fs else []) (stored (find_state d ss))
      ∙ ap (λ t. get_state d es ++ t) (stored_once d e fs ss u))

  pub member-dpids :
      (d : ℕ) (ss : StateMap M I) → member d (dpids dump ss) ≡ is_some (find_state d ss)
  unfolding member find_state
  member-dpids d [] = refl
  member-dpids d ((e, fs) ∷ ss) = ground (arith, member-dpids d ss)

  module _ (c : IsComparing o) (arrange : FlowSet M I → FlowSet M I) (a : IsArrangement o arrange)
      (parse : T → FlowMod M I) (parse-dump : (m : FlowMod M I) → parse (dump m) ≡ m) where
    pub flow-message : (f : Flow M I) → keyed o f ≡ true → flow_of f.message ≡ f
    flow-message f h =
        let e = key_eq→eq o c f.key (key_of f.message) h in
        λ i. record { message = f.message; key = sym e i }

    parsed : FlowSet M I → FlowSet M I
    parsed fs = map (λ t. flow_of (parse t)) (texts fs)

    parsed_back : (fs : FlowSet M I) → all_flows (keyed o) fs ≡ true → parsed fs ≡ fs
    unfolding parsed texts all_flows
    parsed_back [] h = refl
    parsed_back (f ∷ fs) h =
        rw
          (
            parse-dump f.message,
            flow-message f (ground (arith, h)),
            parsed_back fs (ground (arith, h)),
          )
          refl

    abbrev pub Same : Option (FlowSet M I) → Option (FlowSet M I) → Type 0
    Same none none = Unit
    Same (some gs) (some fs) = (k : FlowKey M) → find o k gs ≡ find o k fs
    Same _ _ = true ≡ false

    find-from_json :
        (fs : FlowSet M I) (k : FlowKey M)
        → IsFlowSet o fs
        → find o k (from_json o arrange parse (texts fs)) ≡ find o k fs
    unfolding from_json parsed distinct find
    find-from_json fs k v = rw (parsed_back fs v.keys) (find-insert_all o c arrange a k fs [] refl)

    -- A database without entries of the switches that are saved.
    abbrev pub Fresh : StateMap M I → Entries T → Type 0
    Fresh ss es = (d : ℕ) → is_some (find_state d ss) ≡ true → get_state d es ≡ []

    no_value : (d j : ℕ) (es : Entries T) → get_state d es ≡ [] → get_value d j es ≡ none
    unfolding get_state get_value
    no_value d j [] h = refl
    no_value d j (((b, k), u) ∷ es) h = ground (arith, h, no_value d j es)

    loaded-Same :
        (d : ℕ) (ss : StateMap M I) (es : Entries T) (x : Option (FlowSet M I))
        → find_state d ss ≡ x
        → once ss ≡ true
        → Fresh ss es
        → ((e : ℕ) (fs : FlowSet M I) → find_state e ss ≡ some fs → IsFlowSet o fs)
        → Same
            (if is_some x then some (loaded o arrange parse (save_states dump ss es) d) else none)
            x
    loaded-Same d ss es none e u f v = tt
    loaded-Same d ss es (some fs) e u f v =
        let there : get_state d es ≡ [] = f d (rw e refl) in
        let back : get_state d (save_states dump ss es) ≡ texts fs =
          saved_state d ss es u (λ b h j l. no_value b j es (f b h)) ∙ rw (there, e) refl in
        λ k. rw back (find-from_json fs k (v d fs e))

    -- What a new primary loads for a switch, after the old one saved its states to a database
    -- without entries of these switches, has for each key the flow that was saved, and a switch is
    -- there exactly if it was, if parsing undoes dumping, matches compare their contents, an
    -- insertion only rearranges the set, and the flows of each switch have different keys, those
    -- of their messages.
    pub load-save :
        (d : ℕ) (ss : StateMap M I) (db : Database T)
        → once ss ≡ true
        → Fresh ss db.entries
        → ((e : ℕ) (fs : FlowSet M I) → find_state e ss ≡ some fs → IsFlowSet o fs)
        → Same (find_state d (load o arrange parse (save dump ss db))) (find_state d ss)
    unfolding save
    load-save d ss db u f v =
        rw (find-load o arrange parse d (save dump ss db), member-dpids d ss)
          (loaded-Same d ss db.entries (find_state d ss) refl u f v)
