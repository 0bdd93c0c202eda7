-- ===== src/FlowEntries/Messages.antt =====
-- The OpenFlow messages of src/core/FlowEntriesVerifier.cc and the classes PatternData and Pattern.
-- Matches, their fields and instructions are of libfluid: parameters `M`, `F` and `I`.
use Prim.Native.Nat.{bit_and}
use runos.Base.{ℕ, zero, suc, ◌≡◌, Bool, true, false, not, ◌||◌, ◌&&◌, Option, none, some, ◌==◌}

-- What the source uses of of13::Match; `oxm_num` is the number of its fields.
pub record OxmMatch (M F : Type 0) : Type 0 where
  pub oxm_num : ℕ
  pub oxm_field : M → ℕ → Option F
  pub equals : F → F → Bool
  pub eq : M → M → Bool

-- The comparison of matches is documented to compare their contents.
pub record IsComparing {M F : Type 0} (o : OxmMatch M F) : Type 0 where
  pub eq_self : (m : M) → o.eq m m ≡ true
  pub eq_same : (m n : M) → o.eq m n ≡ true → m ≡ n

-- of13::OFPFC_ADD and so on.
pub data Command : Type 0 where
  add modify modify_strict delete delete_strict other : Command

pub record FlowMod (M I : Type 0) : Type 0 where
  pub command : Command
  pub table_id : ℕ
  pub priority : ℕ
  pub out_group : ℕ
  pub out_port : ℕ
  pub cookie : ℕ
  pub cookie_mask : ℕ
  pub send_flow_rem : Bool
  pub match : M
  pub instructions : I

-- of13::OFPTT_ALL, OFPP_ANY and OFPG_ANY
abbrev pub table_all : ℕ
table_all = 255

abbrev pub any : ℕ
any = 4294967295

module _ {M I : Type 0} where
  unfoldable pub cookie_filter : FlowMod M I → FlowMod M I → Bool
  cookie_filter p m = bit_and m.cookie p.cookie_mask == bit_and p.cookie p.cookie_mask

  unfoldable pub to_be_modified_base : FlowMod M I → FlowMod M I → Bool
  unfolding cookie_filter
  to_be_modified_base p m = m.table_id == p.table_id && cookie_filter p m

  unfoldable pub to_be_deleted_base : FlowMod M I → FlowMod M I → Bool
  unfolding to_be_modified_base
  to_be_deleted_base p m =
      to_be_modified_base p m
      && (p.table_id == table_all || (not (p.table_id == table_all) || m.table_id == p.table_id))
      && (not (p.out_port == any) || m.out_port == p.out_port)
      && (not (p.out_group == any) || m.out_group == p.out_group)

module _ {M F : Type 0} where
  abbrev pub field_fits : OxmMatch M F → Option F → Option F → Bool
  field_fits o none field = true
  field_fits o (some m) none = false
  field_fits o (some m) (some f) = o.equals f m

  -- The loop over the first fields.
  unfoldable pub fields_fit : OxmMatch M F → ℕ → M → M → Bool
  fields_fit o zero p m = true
  fields_fit o (suc n) p m = fields_fit o n p m && field_fits o (o.oxm_field p n) (o.oxm_field m n)

module _ {M F I : Type 0} where
  unfoldable pub non_strict_match : OxmMatch M F → FlowMod M I → FlowMod M I → Bool
  unfolding fields_fit
  non_strict_match o p m = fields_fit o o.oxm_num p.match m.match

  unfoldable pub strict_match : OxmMatch M F → FlowMod M I → FlowMod M I → Bool
  strict_match o p m = m.priority == p.priority && o.eq m.match p.match

  -- Pattern::matches, by the command of the message that the pattern is made of.
  abbrev pub matches_by : OxmMatch M F → Command → FlowMod M I → FlowMod M I → Bool
  matches_by o modify p m = to_be_modified_base p m && non_strict_match o p m
  matches_by o delete p m = to_be_deleted_base p m && non_strict_match o p m
  matches_by o modify_strict p m = to_be_modified_base p m && strict_match o p m
  matches_by o delete_strict p m = to_be_deleted_base p m && strict_match o p m
  matches_by o _ p m = false

  unfoldable pub matches : OxmMatch M F → FlowMod M I → FlowMod M I → Bool
  unfolding to_be_modified_base to_be_deleted_base non_strict_match strict_match
  matches o p m = matches_by o p.command p m
