-- ===== src/FlowEntries/Choosing.antt =====
-- Which flows a message is for, as OpenFlow describes it, and as the patterns of the verifier do.
use Prim.Native.Nat.{bit_and}
use runos.Base.{
  ◌⊎◌, ℕ, zero, suc, ◌≡◌, ◌<◌, inl, inr, refl, Bool-cases, Bool, true, false, ◌&&◌, Option, none,
  some, ltb, ◌==◌, arith,
}
use runos.FlowEntries.Messages.{
  OxmMatch, FlowMod, Command, matches_by, add, modify, modify_strict, delete, delete_strict, other,
  table_all, any, cookie_filter, field_fits, fields_fit, non_strict_match, strict_match,
  to_be_modified_base, to_be_deleted_base,
}

-- Where the instructions of a flow forward to, which is what out_port and out_group ask for.
pub record Forwarding (I : Type 0) : Type 0 where
  pub to_port : I → ℕ → Bool
  pub to_group : I → ℕ → Bool

module _ {M F : Type 0} (o : OxmMatch M F) where
  -- A field that the pattern does not have fits every packet.
  abbrev pub Fits : Option F → Option F → Type 0
  Fits none g = Unit
  Fits (some f) none = true ≡ false
  Fits (some f) (some g) = o.equals g f ≡ true

  pub record Covers (p m : M) : Type 0 where
    pub fits : (n : ℕ) → n < o.oxm_num → Fits (o.oxm_field p n) (o.oxm_field m n)

  Fits-field : (f g : Option F) → field_fits o f g ≡ true → Fits f g
  Fits-field none g h = tt
  Fits-field (some f) none h = absurd (ground (arith, h))
  Fits-field (some f) (some g) h = h

  field_fitting : (f g : Option F) → Fits f g → field_fits o f g ≡ true
  field_fitting none g h = refl
  field_fitting (some f) none h = absurd (ground (arith, h))
  field_fitting (some f) (some g) h = h

  Fits-first :
      (n i : ℕ) (p m : M)
      → fields_fit o n p m ≡ true
      → i < n
      → Fits (o.oxm_field p i) (o.oxm_field m i)
  unfolding fields_fit
  Fits-first zero i p m h l = absurd (omega (arith, l))
  Fits-first (suc n) i p m h l = elim (Bool-cases (i == n)) [
    | inl e ↦
        let same : i ≡ n = ground (arith, e) in
        Fits-field (o.oxm_field p i) (o.oxm_field m i) (rw same (ground (arith, h)))
    | inr e ↦ Fits-first n i p m (ground (arith, h)) (ground (arith, e, l))
  ]

  fitting_first :
      (n : ℕ) (p m : M)
      → ((i : ℕ) → i < n → Fits (o.oxm_field p i) (o.oxm_field m i))
      → fields_fit o n p m ≡ true
  unfolding fields_fit
  fitting_first zero p m h = refl
  fitting_first (suc n) p m h =
      let low : fields_fit o n p m ≡ true = fitting_first n p m (λ i l. h i (omega (arith, l))) in
      let last : field_fits o (o.oxm_field p n) (o.oxm_field m n) ≡ true =
        field_fitting (o.oxm_field p n) (o.oxm_field m n) (h n (omega arith)) in
      ground (arith, low, last)

module _ {M F I : Type 0} (o : OxmMatch M F) where
  -- The flows that a modification is for, without the match.
  pub record InTable (p m : FlowMod M I) : Type 0 where
    pub own_table : m.table_id ≡ p.table_id
    pub own_cookie : bit_and m.cookie p.cookie_mask ≡ bit_and p.cookie p.cookie_mask

  pub record IsSame (p m : FlowMod M I) : Type 0 where
    pub own_priority : m.priority ≡ p.priority
    pub own_match : o.eq m.match p.match ≡ true

  module _ (w : Forwarding I) where
    -- The flows that a deletion is for, without the match: in any table, and with the outputs.
    pub record Deletable (p m : FlowMod M I) : Type 0 where
      pub some_table : (p.table_id ≡ table_all) ⊎ (m.table_id ≡ p.table_id)
      pub some_cookie : bit_and m.cookie p.cookie_mask ≡ bit_and p.cookie p.cookie_mask
      pub some_port : (p.out_port ≡ any) ⊎ (w.to_port m.instructions p.out_port ≡ true)
      pub some_group : (p.out_group ≡ any) ⊎ (w.to_group m.instructions p.out_group ≡ true)

    abbrev pub Chosen : Command → FlowMod M I → FlowMod M I → Type 0
    Chosen modify p m = InTable p m × Covers o p.match m.match
    Chosen modify_strict p m = InTable p m × IsSame p m
    Chosen delete p m = Deletable p m × Covers o p.match m.match
    Chosen delete_strict p m = Deletable p m × IsSame p m
    Chosen _ p m = true ≡ false

  -- Without an out port and an out group.
  abbrev pub unfiltered : FlowMod M I → Bool
  unfiltered m = m.out_port == any && m.out_group == any

  covers : (p m : FlowMod M I) → non_strict_match o p m ≡ true → Covers o p.match m.match
  unfolding non_strict_match
  covers p m h = record { fits = λ n l. Fits-first o o.oxm_num n p.match m.match h l }

  covering : (p m : FlowMod M I) → Covers o p.match m.match → non_strict_match o p m ≡ true
  unfolding non_strict_match
  covering p m h = fitting_first o o.oxm_num p.match m.match (λ n l. h.fits n l)

  same : (p m : FlowMod M I) → strict_match o p m ≡ true → IsSame p m
  unfolding strict_match
  same p m h = record { own_priority = ground (arith, h); own_match = ground (arith, h) }

  sameness : (p m : FlowMod M I) → IsSame p m → strict_match o p m ≡ true
  unfolding strict_match
  sameness p m h = ground (arith, h.own_priority, h.own_match)

  in_table : (p m : FlowMod M I) → to_be_modified_base p m ≡ true → InTable p m
  unfolding to_be_modified_base cookie_filter
  in_table p m h = record { own_table = ground (arith, h); own_cookie = ground (arith, h) }

  being-InTable : (p m : FlowMod M I) → InTable p m → to_be_modified_base p m ≡ true
  unfolding to_be_modified_base cookie_filter
  being-InTable p m h = ground (arith, h.own_table, h.own_cookie)

  module _ (w : Forwarding I) where
    deletable :
        (p m : FlowMod M I) → unfiltered p ≡ true → to_be_deleted_base p m ≡ true → Deletable w p m
    unfolding to_be_deleted_base to_be_modified_base cookie_filter
    deletable p m u h = record {
      some_table = inr (ground (arith, h));
      some_cookie = ground (arith, h);
      some_port = inl (ground (arith, u));
      some_group = inl (ground (arith, u));
    }

    own_table_of :
        (p m : FlowMod M I)
        → ltb p.table_id table_all ≡ true
        → Deletable w p m
        → m.table_id ≡ p.table_id
    own_table_of p m l h = elim h.some_table [ inl e ↦ absurd (ground (arith, l, e)) | inr e ↦ e ]

    deleting :
        (p m : FlowMod M I)
        → ltb p.table_id table_all ≡ true
        → unfiltered p ≡ true
        → unfiltered m ≡ true
        → Deletable w p m
        → to_be_deleted_base p m ≡ true
    unfolding to_be_deleted_base to_be_modified_base cookie_filter
    deleting p m l u v h = ground (arith, l, u, v, own_table_of p m l h, h.some_cookie)

    -- What a deletion needs to know of a flow.
    abbrev pub Fair : Command → FlowMod M I → FlowMod M I → Type 0
    Fair delete p m =
        (ltb p.table_id table_all ≡ true) × (unfiltered p ≡ true) × (unfiltered m ≡ true)
    Fair delete_strict p m =
        (ltb p.table_id table_all ≡ true) × (unfiltered p ≡ true) × (unfiltered m ≡ true)
    Fair _ p m = Unit

    pub chosen :
        (b : Command) (p m : FlowMod M I) → Fair b p m → matches_by o b p m ≡ true → Chosen w b p m
    chosen add p m f h = absurd (ground (arith, h))
    chosen modify p m f h = (in_table p m (ground (arith, h)), covers p m (ground (arith, h)))
    chosen modify_strict p m f h = (in_table p m (ground (arith, h)), same p m (ground (arith, h)))
    chosen delete p m (l, u, v) h =
        (deletable p m u (ground (arith, h)), covers p m (ground (arith, h)))
    chosen delete_strict p m (l, u, v) h =
        (deletable p m u (ground (arith, h)), same p m (ground (arith, h)))
    chosen other p m f h = absurd (ground (arith, h))

    pub choosing :
        (b : Command) (p m : FlowMod M I) → Fair b p m → Chosen w b p m → matches_by o b p m ≡ true
    choosing add p m f h = absurd (ground (arith, h))
    choosing modify p m f (t, c) = ground (arith, being-InTable p m t, covering p m c)
    choosing modify_strict p m f (t, c) = ground (arith, being-InTable p m t, sameness p m c)
    choosing delete p m (l, u, v) (t, c) = ground (arith, deleting p m l u v t, covering p m c)
    choosing delete_strict p m (l, u, v) (t, c) =
        ground (arith, deleting p m l u v t, sameness p m c)
    choosing other p m f h = absurd (ground (arith, h))
