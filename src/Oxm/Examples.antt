-- ===== src/Oxm/Examples.antt =====
-- A field of three bits under a mask of two.
use runos.Base.{◌≡◌, refl, true, false, some, [], ◌∷◌}
use runos.Oxm.{OxmType, Field, rewrite_value, Mask, load, modify, erase}
use runos.Oxm.BitOps.{and_bits}
use runos.Oxm.Rewriting.{IsField, Rewritten, of_type, rewrite_value-Rewritten}

abbrev three_bits : OxmType
three_bits = record { ns = 1; id = 2; maskable = true; nbits = 3 }

abbrev low_field : Field
low_field = record {
  type = three_bits;
  value_bits = true ∷ false ∷ false ∷ [];
  mask_bits = true ∷ true ∷ false ∷ [];
}

abbrev low_mask : Mask
low_mask = record { type = three_bits; mask_bits = true ∷ true ∷ false ∷ [] }

load_modified : load low_mask (low_field ∷ []) ≡ some low_field
unfolding load and_bits
load_modified = refl

modify_empty : modify low_field [] ≡ some (low_field ∷ [])
unfolding modify
modify_empty = refl

erase_all : erase low_mask (low_field ∷ []) ≡ some []
unfolding erase
erase_all = refl

low_field-IsField : IsField low_field
unfolding and_bits
low_field-IsField = record {
  value_size = refl;
  mask_size = refl;
  allowed = refl;
  under_mask = refl;
}

rewrite_value-Rewritten_example :
    Rewritten
      (false ∷ true ∷ true ∷ [])
      low_field
      (rewrite_value (of_type low_field (false ∷ true ∷ true ∷ [])) low_field)
rewrite_value-Rewritten_example =
    rewrite_value-Rewritten low_field (false ∷ true ∷ true ∷ []) low_field-IsField refl
