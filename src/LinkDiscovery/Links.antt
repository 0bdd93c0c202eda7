-- ===== src/LinkDiscovery/Links.antt =====
-- std::set<DiscoveredLink>, as the ascending list of its elements.
use runos.Base.{
  ℕ, ◌≤◌, ◌≡◌, refl, Bool, true, false, not, ◌&&◌, ◌||◌, Option, none, some, List, [], ◌∷◌, ltb,
  ◌==◌, if◌then◌else◌, arith,
}
use runos.SwitchAndPort.{SwitchAndPort, port_eq, port_lt, port_lt_total, port_eq_refl, port_eq→eq}

pub record Link : Type 0 where
  pub source : SwitchAndPort
  pub target : SwitchAndPort
  pub valid_through : ℕ

abbrev pub link : SwitchAndPort → SwitchAndPort → ℕ → Link
link s t v = record { source = s; target = t; valid_through = v }

-- `std::tie(valid_through, source, target)`, compared as a tuple.
unfoldable pub link_lt : Link → Link → Bool
link_lt a b =
    ltb a.valid_through b.valid_through
    || (a.valid_through == b.valid_through
        && (port_lt a.source b.source
            || (not (port_lt b.source a.source) && port_lt a.target b.target)))

unfoldable pub link_eq : Link → Link → Bool
link_eq a b =
    a.valid_through == b.valid_through && (port_eq a.source b.source && port_eq a.target b.target)

unfoldable pub same_ends : Link → Link → Bool
same_ends a b = port_eq a.source b.source && port_eq a.target b.target

unfoldable pub find_link : List Link → Link → Option Link
find_link [] l = none
find_link (m ∷ ms) l = if same_ends l m then some m else find_link ms l

-- `set.erase(iterator)`: the elements of a set differ.
unfoldable pub erase_link : Link → List Link → List Link
erase_link l [] = []
erase_link l (m ∷ ms) = let rest = erase_link l ms in if link_eq l m then rest else m ∷ rest

unfoldable pub insert_link : Link → List Link → List Link
insert_link l [] = l ∷ []
insert_link l (m ∷ ms) =
    let rest = insert_link l ms in
    if link_lt l m then l ∷ m ∷ ms else if link_lt m l then m ∷ rest else m ∷ ms

unfoldable pub has : Link → List Link → Bool
has l [] = false
has l (m ∷ ms) = link_eq l m || has l ms

pub link_lt_total : (a b : Link) → link_lt a b ≡ false → link_lt b a ≡ false → a ≡ b
unfolding link_lt
link_lt_total a b h k =
    ground (arith, port_lt_total a.source b.source, port_lt_total a.target b.target)

pub link_eq→eq : (a b : Link) → link_eq a b ≡ true → a ≡ b
unfolding link_eq
link_eq→eq a b h = ground (arith, port_eq→eq a.source b.source, port_eq→eq a.target b.target)

pub link_eq_refl : (a : Link) → link_eq a a ≡ true
unfolding link_eq
link_eq_refl a = ground (arith, port_eq_refl a.source, port_eq_refl a.target)

pub has-erase_link :
    (m l : Link) (ls : List Link) → has m (erase_link l ls) ≡ (has m ls && not (link_eq l m))
unfolding has erase_link
has-erase_link m l [] = refl
has-erase_link m l (x ∷ xs) = ground (
  arith,
  has-erase_link m l xs,
  link_eq→eq m x,
  link_eq→eq l x,
  link_eq→eq l m,
  link_eq_refl l,
  link_eq_refl m,
  link_eq_refl x,
)

pub has-insert_link :
    (m l : Link) (ls : List Link) → has m (insert_link l ls) ≡ (link_eq m l || has m ls)
unfolding has insert_link
has-insert_link m l [] = refl
has-insert_link m l (x ∷ xs) = ground (arith, has-insert_link m l xs, link_lt_total l x)

pub find_link-some :
    (l m : Link) (ls : List Link)
    → find_link ls l ≡ some m
    → (has m ls ≡ true) × (same_ends l m ≡ true)
unfolding has find_link
find_link-some l m [] h = ground arith
find_link-some l m (x ∷ xs) h = ground (arith, find_link-some l m xs, link_eq_refl m)

pub find_link-none :
    (l m : Link) (ls : List Link) → find_link ls l ≡ none → has m ls ≡ true → same_ends l m ≡ false
unfolding has find_link
find_link-none l m [] h k = ground arith
find_link-none l m (x ∷ xs) h k = ground (arith, find_link-none l m xs, link_eq→eq m x)

-- Ascending in `valid_through`, from a bound on.
abbrev pub Sorted : ℕ → List Link → Type 0
Sorted lo [] = Unit {0}
Sorted lo (l ∷ ls) = (lo ≤ l.valid_through) × Sorted l.valid_through ls

abbrev pub Distinct : List Link → Type 0
Distinct [] = Unit {0}
Distinct (l ∷ ls) = (has l ls ≡ false) × Distinct ls

pub Sorted-insert_link :
    (lo : ℕ) (l : Link) (ls : List Link)
    → lo ≤ l.valid_through
    → Sorted lo ls
    → Sorted lo (insert_link l ls)
unfolding insert_link link_lt
Sorted-insert_link lo l [] h s = (h, tt)
Sorted-insert_link lo l (m ∷ ms) h s = ground (arith, Sorted-insert_link m.valid_through l ms)

pub Sorted-mono : (lo hi : ℕ) (ls : List Link) → lo ≤ hi → Sorted hi ls → Sorted lo ls
Sorted-mono lo hi [] h s = tt
Sorted-mono lo hi (l ∷ ls) h s = (omega arith, s.1)

pub Sorted-erase_link :
    (lo : ℕ) (l : Link) (ls : List Link) → Sorted lo ls → Sorted lo (erase_link l ls)
unfolding erase_link
Sorted-erase_link lo l [] s = tt
Sorted-erase_link lo l (m ∷ ms) s = ground (
  arith,
  Sorted-erase_link m.valid_through l ms,
  Sorted-mono lo m.valid_through (erase_link l ms),
)

pub Distinct-insert_link :
    (l : Link) (ls : List Link) → has l ls ≡ false → Distinct ls → Distinct (insert_link l ls)
unfolding insert_link has
Distinct-insert_link l [] h s = ground arith
Distinct-insert_link l (m ∷ ms) h s =
    ground
      (arith, Distinct-insert_link l ms, has-insert_link m l ms, link_eq→eq m l, link_eq_refl m)

pub Distinct-erase_link : (l : Link) (ls : List Link) → Distinct ls → Distinct (erase_link l ls)
unfolding erase_link has
Distinct-erase_link l [] s = tt
Distinct-erase_link l (m ∷ ms) s = ground (arith, Distinct-erase_link l ms, has-erase_link m l ms)

pub erase_link_absent : (l : Link) (ls : List Link) → has l ls ≡ false → erase_link l ls ≡ ls
unfolding erase_link has
erase_link_absent l [] h = refl
erase_link_absent l (m ∷ ms) h = ground (arith, erase_link_absent l ms)

pub erase_link_head : (l : Link) (ls : List Link) → Distinct (l ∷ ls) → erase_link l (l ∷ ls) ≡ ls
unfolding erase_link
erase_link_head l ls h = ground (arith, erase_link_absent l ls, link_eq_refl l)
