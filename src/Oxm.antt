-- ===== src/Oxm.antt =====
-- src/core/oxm/field.hh, type.hh, field_set.hh: match fields of packets as bits under a mask. A
-- failed ASSERT is `none`. The C++ type parameter is the value `type` in each part, as in the
-- specialisations for `oxm::type`, and binop_type tests that the types agree.
pub mod BitOps
pub mod Rewriting
mod Examples
use runos.Base.{
  ℕ, ◌≡◌, Bool, true, false, not, ◌||◌, ◌&&◌, Option, none, some, List, [], ◌∷◌, ◌==◌,
  if◌then◌else◌, length,
}
use BitOps.{Bits, and_bits, or_bits, not_bits, all_set, none_set, eq_bits, zero_bits}

infixl 5 ◌>>=◌
abbrev pub ◌>>=◌ {ℓ κ} : {A : Type ℓ} {B : Type κ} → Option A → (A → Option B) → Option B
none >>= f = none
some a >>= f = f a

pub record OxmType : Type 0 where
  pub ns : ℕ
  pub id : ℕ
  pub maskable : Bool
  pub nbits : ℕ

unfoldable pub type_eq : OxmType → OxmType → Bool
type_eq lhs rhs = lhs.ns == rhs.ns && lhs.id == rhs.id

pub record Value : Type 0 where
  pub type : OxmType
  pub value_bits : Bits

pub record Mask : Type 0 where
  pub type : OxmType
  pub mask_bits : Bits

pub record Field : Type 0 where
  pub type : OxmType
  pub value_bits : Bits
  pub mask_bits : Bits

unfoldable pub value : OxmType → Bits → Option Value
value t v = if length v == t.nbits then some (record { type = t; value_bits = v }) else none

unfoldable pub mask : OxmType → Bits → Option Mask
unfolding all_set none_set
mask t m =
    if length m == t.nbits && (t.maskable || all_set m || none_set m)
    then some (record { type = t; mask_bits = m })
    else none

unfoldable pub field : OxmType → Bits → Bits → Option Field
unfolding value mask and_bits
field t v m = do
  val ← value t v
  msk ← mask t m
  some (record {
    type = t;
    value_bits = and_bits val.value_bits msk.mask_bits;
    mask_bits = msk.mask_bits;
  })

unfoldable pub wildcard_field : OxmType → Option Field
unfolding field zero_bits
wildcard_field t = field t (zero_bits t.nbits) (zero_bits t.nbits)

unfoldable pub exact : Field → Bool
unfolding all_set
exact f = all_set f.mask_bits

unfoldable pub wildcard : Field → Bool
unfolding none_set
wildcard f = none_set f.mask_bits

unfoldable pub fuzzy : Field → Bool
unfolding exact wildcard
fuzzy f = not (exact f || wildcard f)

unfoldable pub binop_type : OxmType → OxmType → Option OxmType
unfolding type_eq
binop_type lhs rhs = if type_eq lhs rhs then some lhs else none

unfoldable pub field_eq : Field → Field → Bool
unfolding type_eq eq_bits
field_eq lhs rhs =
    type_eq lhs.type rhs.type
    && eq_bits lhs.value_bits rhs.value_bits
    && eq_bits lhs.mask_bits rhs.mask_bits

-- `value & mask`
unfoldable pub masked : Value → OxmType → Bits → Option Field
unfolding binop_type field
masked lhs t m = do type ← binop_type lhs.type t; field type lhs.value_bits m

-- `field & value`
unfoldable pub match_value : Field → Value → Option Bool
unfolding binop_type masked field_eq
match_value lhs rhs = do
  t ← binop_type lhs.type rhs.type
  r ← masked rhs lhs.type lhs.mask_bits
  some (field_eq lhs r)

-- `field & field`
unfoldable pub match_field : Field → Field → Option Bool
unfolding binop_type mask masked field_eq and_bits
match_field lhs rhs = do
  t ← binop_type lhs.type rhs.type
  m ← mask t (and_bits lhs.mask_bits rhs.mask_bits)
  l ← masked (record { type = lhs.type; value_bits = lhs.value_bits }) m.type m.mask_bits
  r ← masked (record { type = rhs.type; value_bits = rhs.value_bits }) m.type m.mask_bits
  some (field_eq l r)

-- `value >> field`
unfoldable pub rewrite_value : Value → Field → Option Value
unfolding binop_type value and_bits or_bits not_bits
rewrite_value lhs rhs = do
  t ← binop_type lhs.type rhs.type
  value t (or_bits (and_bits lhs.value_bits (not_bits rhs.mask_bits)) rhs.value_bits)

-- `field >> field`
unfoldable pub rewrite_field : Field → Field → Option Field
unfolding rewrite_value binop_type mask masked or_bits
rewrite_field lhs rhs = do
  v ← rewrite_value (record { type = lhs.type; value_bits = lhs.value_bits }) rhs
  t ← binop_type lhs.type rhs.type
  m ← mask t (or_bits lhs.mask_bits rhs.mask_bits)
  masked v m.type m.mask_bits

-- `field & mask`
unfoldable pub widen : Field → Mask → Option Field
unfolding binop_type field and_bits
widen lhs rhs = do
  t ← binop_type lhs.type rhs.type
  field t lhs.value_bits (and_bits lhs.mask_bits rhs.mask_bits)

-- `~mask`
unfoldable pub complement : Mask → Option Mask
unfolding mask not_bits
complement rhs = mask rhs.type (not_bits rhs.mask_bits)

-- `entries.find` and the entry that is written back, by type.
unfoldable pub find_entry : OxmType → List Field → Option Field
unfolding type_eq
find_entry t [] = none
find_entry t (f ∷ fs) = if type_eq f.type t then some f else find_entry t fs

unfoldable pub set_entry : Field → List Field → List Field
unfolding type_eq
set_entry g [] = g ∷ []
set_entry g (f ∷ fs) = if type_eq f.type g.type then g ∷ fs else f ∷ set_entry g fs

unfoldable pub erase_entry : OxmType → List Field → List Field
unfolding type_eq
erase_entry t [] = []
erase_entry t (f ∷ fs) = if type_eq f.type t then fs else f ∷ erase_entry t fs

pub load : Mask → List Field → Option Field
unfolding find_entry wildcard_field widen
load m entries = elim (find_entry m.type entries) [
  | none ↦ (do w ← wildcard_field m.type; widen w m)
  | some f ↦ widen f m
]

abbrev pub entry_or : Option Field → Field → Field
entry_or none patch = patch
entry_or (some f) patch = f

pub modify : Field → List Field → Option (List Field)
unfolding find_entry rewrite_field set_entry
modify patch entries = do
  f ← rewrite_field (entry_or (find_entry patch.type entries) patch) patch
  some (set_entry f entries)

pub erase : Mask → List Field → Option (List Field)
unfolding find_entry complement widen wildcard erase_entry set_entry
erase m entries = elim (find_entry m.type entries) [
  | none ↦ some entries
  | some f ↦ do
    c ← complement m
    g ← widen f c
    some (if wildcard g then erase_entry m.type entries else set_entry g entries)
]
