-- ===== src/FlowEntries/Restoring.antt =====
-- What the periodic verification sends again.
use mathlib.Core.List.{append-nil}
use runos.Base.{
  ℕ, ◌≡◌, inl, inr, refl, ap, ◌∙◌, Bool-cases, Bool, true, false, not, ◌||◌, ◌&&◌, Option, none,
  some, List, [], ◌∷◌, ◌++◌, map, ◌==◌, if◌then◌else◌, arith,
}
use runos.FlowEntries.Messages.{OxmMatch, IsComparing, FlowMod}
use runos.FlowEntries.Flows.{FlowKey, Flow, FlowSet, is_some, key_eq, key_of, find}
use runos.FlowEntries.States.{
  StateMap, any_key, StatsReply, flow_stats_request, restore_one, sent_to, process_stats,
  find_state, restore_states,
}
use runos.FlowEntries.Tables.{all_flows, key_eq→eq, key_eq_right}
use runos.FlowEntries.Handling.{IsFlowSet, keyed}

module _ {M I : Type 0} where
  abbrev pub keys_of : List (FlowMod M I) → List (FlowKey M)
  keys_of ms = map (λ m. key_of m) ms

  -- The messages of a list that go to one switch.
  pub messages_to : ℕ → List (ℕ × FlowMod M I) → List (FlowMod M I)
  messages_to d [] = []
  messages_to d ((e, m) ∷ ms) = let rest = messages_to d ms in if d == e then m ∷ rest else rest

  unfoldable pub once : StateMap M I → Bool
  unfolding find_state
  once [] = true
  once ((d, fs) ∷ ss) = not (is_some (find_state d ss)) && once ss

  apart :
      (d e : ℕ) (before : StateMap M I) (fs : FlowSet M I) (after : StateMap M I)
      → is_some (find_state e (before ++ (d, fs) ∷ after)) ≡ false
      → d == e ≡ false
  unfolding find_state
  apart d e [] fs after h = ground (arith, h)
  apart d e ((b, gs) ∷ before) fs after h = apart d e before fs after (ground (arith, h))

  to_other :
      (d e : ℕ) (ms : List (FlowMod M I)) (rest : List (ℕ × FlowMod M I))
      → d == e ≡ false
      → messages_to d (sent_to e ms ++ rest) ≡ messages_to d rest
  unfolding messages_to
  to_other d e [] rest h = refl
  to_other d e (m ∷ ms) rest h = ground (arith, h, to_other d e ms rest h)

  to_same :
      (d : ℕ) (ms : List (FlowMod M I)) (rest : List (ℕ × FlowMod M I))
      → messages_to d (sent_to d ms ++ rest) ≡ ms ++ messages_to d rest
  unfolding messages_to
  to_same d [] rest = refl
  to_same d (m ∷ ms) rest = ground (arith, to_same d ms rest)

any_key-append :
    {M F : Type 0} (o : OxmMatch M F) (k : FlowKey M) (js ks : List (FlowKey M))
    → any_key o k (js ++ ks) ≡ (any_key o k js || any_key o k ks)
unfolding any_key
any_key-append o k [] ks = refl
any_key-append o k (j ∷ js) ks = ground (arith, any_key-append o k js ks)

any_key_same :
    {M F : Type 0} (o : OxmMatch M F) (c : IsComparing o) (j k : FlowKey M) (ks : List (FlowKey M))
    → key_eq o j k ≡ true
    → any_key o j ks ≡ any_key o k ks
any_key_same o c j k ks h = rw (key_eq→eq o c j k h) refl

module _ {M F I : Type 0} (o : OxmMatch M F) (c : IsComparing o) where
  found_later :
      (k : FlowKey M) (f : Flow M I) (fs : FlowSet M I)
      → is_some (find o k fs) ≡ true
      → is_some (find o k (f ∷ fs)) ≡ true
  unfolding find
  found_later k f fs h = ground (arith, h)

  -- The keys that are sent again are those of the set that the statistics lack.
  pub any_key-stats :
      (k : FlowKey M) (stats : List (FlowKey M)) (fs : FlowSet M I)
      → all_flows (keyed o) fs ≡ true
      → any_key o k (keys_of (process_stats o stats fs))
        ≡ (is_some (find o k fs) && not (any_key o k stats))
  unfolding any_key process_stats find all_flows
  any_key-stats k stats [] h = refl
  any_key-stats k stats (f ∷ fs) h = ground (
    arith,
    h,
    any_key-stats k stats fs,
    key_eq→eq o c f.key (key_of f.message),
    key_eq_right o c f.key (key_of f.message) k,
    any_key_same o c k f.key stats,
  )

  -- The switches that answer, if only with a timeout.
  unfoldable pub all_reply : (ℕ → StatsReply M) → StateMap M I → Bool
  all_reply replies [] = true
  all_reply replies ((d, fs) ∷ ss) =
      is_some (flow_stats_request (replies d)) && all_reply replies ss

  one_other :
      (d e : ℕ) (fs : FlowSet M I) (stats : List (FlowKey M)) (rest : List (ℕ × FlowMod M I) × Bool)
      → d == e ≡ false
      → messages_to d (restore_one o e fs (some stats) rest).0 ≡ messages_to d rest.0
  one_other d e fs [] rest h = refl
  one_other d e fs (k ∷ ks) rest h = to_other d e (process_stats o (k ∷ ks) fs) rest.0 h

  some_other :
      (d e : ℕ) (fs : FlowSet M I) (reply : Option (List (FlowKey M)))
      (rest : List (ℕ × FlowMod M I) × Bool)
      → d == e ≡ false
      → is_some reply ≡ true
      → messages_to d (restore_one o e fs reply rest).0 ≡ messages_to d rest.0
  some_other d e fs none rest h s = absurd (ground (arith, s))
  some_other d e fs (some stats) rest h s = one_other d e fs stats rest h

  none_other :
      (d e : ℕ) (fs : FlowSet M I) (reply : Option (List (FlowKey M)))
      (rest : List (ℕ × FlowMod M I) × Bool)
      → d == e ≡ false
      → messages_to d rest.0 ≡ []
      → messages_to d (restore_one o e fs reply rest).0 ≡ []
  unfolding messages_to
  none_other d e fs none rest h n = refl
  none_other d e fs (some stats) rest h n = one_other d e fs stats rest h ∙ n

  -- Nothing goes to a switch without a state.
  no_state :
      (replies : ℕ → StatsReply M) (d : ℕ) (ss : StateMap M I)
      → is_some (find_state d ss) ≡ false
      → messages_to d (restore_states o replies ss).0 ≡ []
  unfolding restore_states find_state messages_to
  no_state replies d [] h = refl
  no_state replies d ((e, fs) ∷ ss) h =
      none_other d e fs (flow_stats_request (replies e)) (restore_states o replies ss)
        (ground (arith, h)) (no_state replies d ss (ground (arith, h)))

  -- If the switches before one in the map answer or time out, and that one answers with statistics
  -- that are not empty, then a verification sends it a flow with a key exactly if its set has a
  -- flow with that key and the statistics have none, for a set of flows with different keys, those
  -- of their messages, if no switch has two states and matches compare their contents.
  pub restore_covers :
      (replies : ℕ → StatsReply M) (d : ℕ) (before after : StateMap M I) (fs : FlowSet M I)
      (j : FlowKey M) (js : List (FlowKey M)) (k : FlowKey M)
      → once (before ++ (d, fs) ∷ after) ≡ true
      → all_reply replies before ≡ true
      → flow_stats_request (replies d) ≡ some (j ∷ js)
      → IsFlowSet o fs
      → any_key o k
          (keys_of (messages_to d (restore_states o replies (before ++ (d, fs) ∷ after)).0))
        ≡ (is_some (find o k fs) && not (any_key o k (j ∷ js)))
  unfolding restore_states once all_reply
  restore_covers replies d [] after fs j js k u a r v =
      let gone : messages_to d (restore_states o replies after).0 ≡ [] =
        no_state replies d after (ground (arith, u)) in
      rw
        (
          r,
          to_same d (process_stats o (j ∷ js) fs) (restore_states o replies after).0,
          gone,
          append-nil (process_stats o (j ∷ js) fs),
        )
        (any_key-stats k (j ∷ js) fs v.keys)
  restore_covers replies d ((e, gs) ∷ before) after fs j js k u a r v =
      let other : d == e ≡ false = apart d e before fs after (ground (arith, u)) in
      rw
        (some_other d e gs (flow_stats_request (replies e))
          (restore_states o replies (before ++ (d, fs) ∷ after)) other (ground (arith, a)))
        (restore_covers replies d before after fs j js k (ground (arith, u)) (ground (arith, a)) r
          v)

  not_later :
      (b d : ℕ) (before after : StateMap M I) (fs : FlowSet M I)
      → is_some (find_state b (before ++ (d, fs) ∷ after)) ≡ false
      → is_some (find_state b after) ≡ false
  unfolding find_state
  not_later b d [] after fs h = ground (arith, h)
  not_later b d ((c, gs) ∷ before) after fs h = not_later b d before after fs (ground (arith, h))

  differs :
      (e b : ℕ) (after : StateMap M I)
      → is_some (find_state b after) ≡ false
      → is_some (find_state e after) ≡ true
      → e == b ≡ false
  differs e b after n s = elim (Bool-cases (e == b)) [
    | inl t ↦
        let same : e ≡ b = ground (arith, t) in
        absurd (ground (arith, n, s, ap (λ x. is_some (find_state x after)) same))
    | inr t ↦ t
  ]

  stays_unfinished :
      (d : ℕ) (fs : FlowSet M I) (reply : Option (List (FlowKey M)))
      (rest : List (ℕ × FlowMod M I) × Bool)
      → rest.1 ≡ false
      → (restore_one o d fs reply rest).1 ≡ false
  stays_unfinished d fs none rest h = refl
  stays_unfinished d fs (some []) rest h = h
  stays_unfinished d fs (some (k ∷ ks)) rest h = h

  pub restore_stops :
      (replies : ℕ → StatsReply M) (d e : ℕ) (before after : StateMap M I) (fs : FlowSet M I)
      → once (before ++ (d, fs) ∷ after) ≡ true
      → flow_stats_request (replies d) ≡ none
      → is_some (find_state e after) ≡ true
      → (messages_to e (restore_states o replies (before ++ (d, fs) ∷ after)).0 ≡ [])
        × ((restore_states o replies (before ++ (d, fs) ∷ after)).1 ≡ false)
  unfolding restore_states once messages_to
  restore_stops replies d e [] after fs u r s = rw r (refl, refl)
  restore_stops replies d e ((b, gs) ∷ before) after fs u r s =
      let (m, f) = restore_stops replies d e before after fs (ground (arith, u)) r s in
      let other : e == b ≡ false =
        differs e b after (not_later b d before after fs (ground (arith, u))) s in
      let rest = restore_states o replies (before ++ (d, fs) ∷ after) in
      let reply = flow_stats_request (replies b) in
      (none_other e b gs reply rest other m, stays_unfinished b gs reply rest f)
