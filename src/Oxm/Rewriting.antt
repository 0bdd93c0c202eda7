-- ===== src/Oxm/Rewriting.antt =====
-- What a rewrite does to a value, and what then matches.
use runos.Base.{◌≡◌, true, false, ◌||◌, ◌&&◌, Option, none, some, ◌==◌, arith, length}
use runos.Oxm.{
  OxmType, Value, Field, value, mask, field, type_eq, binop_type, field_eq, masked, match_value,
  rewrite_value,
}
use runos.Oxm.BitOps.{
  Bits, and_bits, or_bits, not_bits, all_set, none_set, eq_bits_refl, length-and_bits,
  length-or_bits, length-not_bits, rewritten_bits, kept_bits, and_bits_idem,
}

-- What the constructor of a field leaves: the sizes of its type, a mask that the type allows, and
-- no value outside the mask.
pub record IsField (f : Field) : Type 0 where
  pub value_size : length f.value_bits ≡ f.type.nbits
  pub mask_size : length f.mask_bits ≡ f.type.nbits
  pub allowed : (f.type.maskable || all_set f.mask_bits || none_set f.mask_bits) ≡ true
  pub under_mask : and_bits f.value_bits f.mask_bits ≡ f.value_bits

type_eq_refl : (t : OxmType) → type_eq t t ≡ true
unfolding type_eq
type_eq_refl t = ground arith

abbrev pub of_type : Field → Bits → Value
of_type f v = record { type = f.type; value_bits = v }

abbrev pub Rewritten : Bits → Field → Option Value → Type 0
Rewritten v f none = true ≡ false
Rewritten v f (some w) =
    (match_value f w ≡ some true)
    × (and_bits w.value_bits (not_bits f.mask_bits) ≡ and_bits v (not_bits f.mask_bits))
    × (length w.value_bits ≡ f.type.nbits)

rewritten_size :
    (v f m : Bits)
    → length v ≡ length f
    → length m ≡ length f
    → length (or_bits (and_bits v (not_bits m)) f) ≡ length f
rewritten_size v f m a b = omega (
  arith,
  a,
  b,
  length-not_bits m,
  length-and_bits v (not_bits m) (omega (arith, a, b, length-not_bits m)),
  length-or_bits (and_bits v (not_bits m)) f (
      omega (
        arith,
        a,
        b,
        length-not_bits m,
        length-and_bits v (not_bits m) (omega (arith, a, b, length-not_bits m)),
      )),
)

match_under :
    (f : Field) (w : Bits)
    → IsField f
    → length w ≡ f.type.nbits
    → and_bits w f.mask_bits ≡ f.value_bits
    → match_value f (record { type = f.type; value_bits = w }) ≡ some true
unfolding match_value binop_type masked field value mask field_eq
match_under f w v h e = ground (
  arith,
  v.value_size,
  v.mask_size,
  v.allowed,
  type_eq_refl f.type,
  eq_bits_refl f.value_bits,
  eq_bits_refl f.mask_bits,
)

rewrite_value_lem :
    (f : Field) (v : Bits)
    → IsField f
    → length v ≡ f.type.nbits
    → rewrite_value (of_type f v) f
      ≡ some (of_type f (or_bits (and_bits v (not_bits f.mask_bits)) f.value_bits))
unfolding rewrite_value binop_type value
rewrite_value_lem f v i h = ground (
  arith,
  i.value_size,
  i.mask_size,
  type_eq_refl f.type,
  rewritten_size v f.value_bits f.mask_bits,
)

-- Rewriting a value of the size of its type by a field of that type, as the constructor of fields
-- leaves it, passes its assertions: the result has that size, matches the field, and agrees with
-- the value outside the mask.
pub rewrite_value-Rewritten :
    (f : Field) (v : Bits)
    → IsField f
    → length v ≡ f.type.nbits
    → Rewritten v f (rewrite_value (of_type f v) f)
rewrite_value-Rewritten f v i h =
    let a : length v ≡ length f.value_bits = omega (arith, h, i.value_size) in
    let b : length f.mask_bits ≡ length f.value_bits = omega (arith, i.mask_size, i.value_size) in
    let w = or_bits (and_bits v (not_bits f.mask_bits)) f.value_bits in
    let size : length w ≡ f.type.nbits =
      omega (arith, rewritten_size v f.value_bits f.mask_bits a b, i.value_size) in
    rw (rewrite_value_lem f v i h) (
      match_under f w i size (rewritten_bits v f.value_bits f.mask_bits a b i.under_mask),
      kept_bits v f.value_bits f.mask_bits a b i.under_mask,
      size,
    )

abbrev pub Constructed : OxmType → Bits → Bits → Option Field → Type 0
Constructed t v m none =
    ((length v == t.nbits) && (length m == t.nbits) && (t.maskable || all_set m || none_set m))
    ≡ false
Constructed t v m (some f) =
    IsField f × (f.type ≡ t) × (f.mask_bits ≡ m) × (match_value f (of_type f v) ≡ some true)

constructed-IsField :
    (t : OxmType) (v m : Bits)
    → length v ≡ t.nbits
    → length m ≡ t.nbits
    → (t.maskable || all_set m || none_set m) ≡ true
    → IsField (record { type = t; value_bits = and_bits v m; mask_bits = m })
constructed-IsField t v m a b c = record {
  value_size = omega (arith, length-and_bits v m (omega (arith, a, b)));
  mask_size = b;
  allowed = c;
  under_mask = and_bits_idem v m;
}

-- The constructor of a field succeeds exactly if value and mask have the size of the type and the
-- type allows the mask; the field then has that type and mask, no value outside the mask, and
-- matches the value it was made from.
pub field-Constructed : (t : OxmType) (v m : Bits) → Constructed t v m (field t v m)
unfolding field value mask
field-Constructed t v m = ground (
  arith,
  constructed-IsField t v m,
  match_under (record { type = t; value_bits = and_bits v m; mask_bits = m }) v,
)
