-- ===== src/Oxm/BitOps.antt =====
-- The bits of a field, as src/core/oxm uses them: two operands have the same size.
use runos.Base.{
  ℕ, zero, suc, ◌≡◌, refl, Bool, true, false, not, ◌||◌, ◌&&◌, List, [], ◌∷◌, arith, length,
}

abbrev pub Bits : Type 0
Bits = List Bool

unfoldable pub and_bits : Bits → Bits → Bits
and_bits (x ∷ xs) (y ∷ ys) = (x && y) ∷ and_bits xs ys
and_bits _ _ = []

unfoldable pub or_bits : Bits → Bits → Bits
or_bits (x ∷ xs) (y ∷ ys) = (x || y) ∷ or_bits xs ys
or_bits _ _ = []

unfoldable pub not_bits : Bits → Bits
not_bits [] = []
not_bits (x ∷ xs) = not x ∷ not_bits xs

unfoldable pub all_set : Bits → Bool
all_set [] = true
all_set (x ∷ xs) = x && all_set xs

unfoldable pub none_set : Bits → Bool
none_set [] = true
none_set (x ∷ xs) = not x && none_set xs

unfoldable pub eq_bits : Bits → Bits → Bool
eq_bits [] [] = true
eq_bits (true ∷ xs) (true ∷ ys) = eq_bits xs ys
eq_bits (false ∷ xs) (false ∷ ys) = eq_bits xs ys
eq_bits _ _ = false

unfoldable pub zero_bits : ℕ → Bits
zero_bits zero = []
zero_bits (suc n) = false ∷ zero_bits n

pub eq_bits_refl : (xs : Bits) → eq_bits xs xs ≡ true
unfolding eq_bits
eq_bits_refl [] = refl
eq_bits_refl (true ∷ xs) = eq_bits_refl xs
eq_bits_refl (false ∷ xs) = eq_bits_refl xs

pub length-and_bits : (xs ys : Bits) → length xs ≡ length ys → length (and_bits xs ys) ≡ length xs
unfolding and_bits
length-and_bits [] ys h = refl
length-and_bits (x ∷ xs) [] h = ground arith
length-and_bits (x ∷ xs) (y ∷ ys) h = ground (arith, length-and_bits xs ys)

pub length-or_bits : (xs ys : Bits) → length xs ≡ length ys → length (or_bits xs ys) ≡ length xs
unfolding or_bits
length-or_bits [] ys h = refl
length-or_bits (x ∷ xs) [] h = ground arith
length-or_bits (x ∷ xs) (y ∷ ys) h = ground (arith, length-or_bits xs ys)

pub length-not_bits : (xs : Bits) → length (not_bits xs) ≡ length xs
unfolding not_bits
length-not_bits [] = refl
length-not_bits (x ∷ xs) = ground (arith, length-not_bits xs)

-- Rewritten under the mask, the bits under the mask are those of the field.
pub rewritten_bits :
    (v f m : Bits)
    → length v ≡ length f
    → length m ≡ length f
    → and_bits f m ≡ f
    → and_bits (or_bits (and_bits v (not_bits m)) f) m ≡ f
unfolding and_bits or_bits not_bits
rewritten_bits [] [] [] a b c = refl
rewritten_bits [] [] (z ∷ m) a b c = ground arith
rewritten_bits [] (y ∷ f) m a b c = ground arith
rewritten_bits (x ∷ v) [] m a b c = ground arith
rewritten_bits (x ∷ v) (y ∷ f) [] a b c = ground arith
rewritten_bits (x ∷ v) (y ∷ f) (z ∷ m) a b c = ground (arith, rewritten_bits v f m)

-- And those outside it are those of the value.
pub kept_bits :
    (v f m : Bits)
    → length v ≡ length f
    → length m ≡ length f
    → and_bits f m ≡ f
    → and_bits (or_bits (and_bits v (not_bits m)) f) (not_bits m) ≡ and_bits v (not_bits m)
unfolding and_bits or_bits not_bits
kept_bits [] [] [] a b c = refl
kept_bits [] [] (z ∷ m) a b c = ground arith
kept_bits [] (y ∷ f) m a b c = ground arith
kept_bits (x ∷ v) [] m a b c = ground arith
kept_bits (x ∷ v) (y ∷ f) [] a b c = ground arith
kept_bits (x ∷ v) (y ∷ f) (z ∷ m) a b c = ground (arith, kept_bits v f m)

pub and_bits_idem : (v m : Bits) → and_bits (and_bits v m) m ≡ and_bits v m
unfolding and_bits
and_bits_idem [] m = refl
and_bits_idem (x ∷ v) [] = refl
and_bits_idem (x ∷ v) (z ∷ m) = ground (arith, and_bits_idem v m)
