-- ===== src/FlowEntries/Store.antt =====
-- The class Recovery of src/core/FlowEntriesVerifier.cc: the states in the database. A key is the
-- datapath identifier and the index, which the source writes as texts with a colon between them. What
-- the json library and libfluid make of a message is `dump`, and of a text `parse`.
use runos.Base.{ℕ, ◌+◌, ◌&&◌, Option, none, some, List, [], ◌∷◌, map, ◌==◌, if◌then◌else◌}
use runos.FlowEntries.Messages.{OxmMatch, FlowMod}
use runos.FlowEntries.Flows.{FlowSet, flow_of, insert_all}
use runos.FlowEntries.States.{StateMap, add_state}

abbrev pub Entries : Type 0 → Type 0
Entries T = List ((ℕ × ℕ) × T)

pub record Database (T : Type 0) : Type 0 where
  pub states_list : List ℕ
  pub entries : Entries T

module _ {T : Type 0} where
  unfoldable pub get_value : ℕ → ℕ → Entries T → Option T
  get_value d i [] = none
  get_value d i (((e, j), t) ∷ es) = if d == e && i == j then some t else get_value d i es

  unfoldable pub put_value : ℕ → ℕ → T → Entries T → Entries T
  put_value d i t [] = ((d, i), t) ∷ []
  put_value d i t (((e, j), u) ∷ es) =
      let rest = put_value d i t es in
      if d == e && i == j then ((d, i), t) ∷ es else ((e, j), u) ∷ rest

  -- The values of the keys under a prefix.
  unfoldable pub get_state : ℕ → Entries T → List T
  get_state d [] = []
  get_state d (((e, i), t) ∷ es) = let rest = get_state d es in if d == e then t ∷ rest else rest

module _ {M I T : Type 0} (dump : FlowMod M I → T) where
  -- The loop of save_state from an index on.
  unfoldable pub save_from : ℕ → ℕ → FlowSet M I → Entries T → Entries T
  unfolding put_value
  save_from d i [] es = es
  save_from d i (f ∷ fs) es = save_from d (i + 1) fs (put_value d i (dump f.message) es)

  unfoldable pub save_states : StateMap M I → Entries T → Entries T
  unfolding save_from
  save_states [] es = es
  save_states ((d, fs) ∷ ss) es = save_states ss (save_from d 1 fs es)

  abbrev pub dpids : StateMap M I → List ℕ
  dpids [] = []
  dpids ((d, fs) ∷ ss) = d ∷ dpids ss

  unfoldable pub save : StateMap M I → Database T → Database T
  unfolding save_states
  save ss db = record { states_list = dpids ss; entries = save_states ss db.entries }

module _ {M F I T : Type 0} (o : OxmMatch M F) (arrange : FlowSet M I → FlowSet M I)
    (parse : T → FlowMod M I) where
  -- SwitchState::fromJson
  unfoldable pub from_json : List T → FlowSet M I
  unfolding insert_all
  from_json ts = insert_all o arrange (map (λ t. flow_of (parse t)) ts) []

  unfoldable pub load_list : Entries T → List ℕ → StateMap M I → StateMap M I
  unfolding get_state from_json add_state
  load_list es [] ss = ss
  load_list es (d ∷ ds) ss = load_list es ds (add_state d (from_json (get_state d es)) ss)

  -- Recovery::load and VerifierDatabase::fromJson
  unfoldable pub load : Database T → StateMap M I
  unfolding load_list
  load db = load_list db.entries db.states_list []
