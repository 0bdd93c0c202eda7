-- ===== src/Topology/Order.antt =====
-- The paths of a route keep their identity when others are removed or moved.
use runos.Base.{
  ℕ, zero, suc, ◌+◌, ◌-◌, ◌≤◌, ◌<◌, ◌≡◌, ◌⊎◌, inl, inr, refl, ap, ◌∙◌, Bool, true, false, not, ◌||◌,
  ◌&&◌, Option, none, some, List, [], ◌∷◌, ltb, leb, ◌==◌, if◌then◌else◌, arith, length, Bool-cases,
}
use runos.Topology.Paths.{RoutePath, u8, dec8}
use runos.Topology.Sequences.{
  nth, erase_at, insert_at, nth-erase_at, nth-insert_at, length-erase_at, nth_in, length-insert_at,
  nth-some,
}
use runos.Topology.Routes.{
  Route, count_down_from, delete_path, moved, renumber, insert_found, move_path,
}

-- A path without its identifier.
abbrev pub bare : Option RoutePath → Option RoutePath
bare none = none
bare (some p) = some (record p { id = 0 })

nth-renumber : (i n : ℕ) (ps : List RoutePath) → bare (nth i (renumber n ps)) ≡ bare (nth i ps)
unfolding nth renumber
nth-renumber i n [] = refl
nth-renumber zero n (p ∷ ps) = refl
nth-renumber (suc i) n (p ∷ ps) = nth-renumber i (suc n) ps

nth-count_down_from :
    (i n : ℕ) (ps : List RoutePath) → bare (nth i (count_down_from n ps)) ≡ bare (nth i ps)
unfolding nth count_down_from
nth-count_down_from i n [] = refl
nth-count_down_from zero zero (p ∷ ps) = refl
nth-count_down_from (suc i) zero (p ∷ ps) = nth-count_down_from i zero ps
nth-count_down_from zero (suc n) (p ∷ ps) = refl
nth-count_down_from (suc i) (suc n) (p ∷ ps) = nth-count_down_from i n ps

-- At most 255 paths, each with its position as its identifier.
pub record IsNumbered (ps : List RoutePath) : Type 0 where
  pub size : length ps ≤ 255
  pub numbered : (i : ℕ) (p : RoutePath) → nth i ps ≡ some p → p.id ≡ i

nth-renumber_id :
    (i n : ℕ) (ps : List RoutePath) (p : RoutePath)
    → nth i (renumber n ps) ≡ some p
    → p.id ≡ u8 (n + i)
unfolding nth renumber
nth-renumber_id i n [] p h = ground arith
nth-renumber_id zero n (q ∷ ps) p h = ground arith
nth-renumber_id (suc i) n (q ∷ ps) p h = ground (arith, nth-renumber_id i (suc n) ps p)

length-renumber : (n : ℕ) (ps : List RoutePath) → length (renumber n ps) ≡ length ps
unfolding renumber
length-renumber n [] = refl
length-renumber n (p ∷ ps) = omega (arith, length-renumber (suc n) ps)

module _ {A : Type 0} where
  nth-moved :
      (a b i : ℕ) (p : A) (ps : List A)
      → nth a ps ≡ some p
      → ltb b (length ps) ≡ true
      → nth (moved a b i) (insert_at b p (erase_at a ps)) ≡ nth i ps
  unfolding moved
  nth-moved a b i p ps h l =
      let size = length-erase_at a ps (nth_in a ps p h) in
      ground (
        arith,
        h,
        size,
        nth-insert_at (moved a b i) b p (erase_at a ps),
        nth-erase_at (moved a b i) a ps,
        nth-erase_at (moved a b i - 1) a ps,
      )

abbrev pub Moved : ℕ → ℕ → Route → ℕ → Route × Bool → Type 0
Moved path_id new_id r i (s, done) =
    (done
      ≡ (not (path_id == new_id) && ltb path_id (length r.paths) && ltb new_id (length r.paths)))
    × ((done ≡ false) ⊎ (bare (nth (moved path_id new_id i) s.paths) ≡ bare (nth i r.paths)))
    × ((done ≡ false) ⊎ (s.used_path ≡ moved path_id new_id r.used_path))
    × IsNumbered s.paths

renumber-IsNumbered : (ps : List RoutePath) → length ps ≤ 255 → IsNumbered (renumber 0 ps)
unfolding u8
renumber-IsNumbered ps h = record {
  size = omega (arith, length-renumber 0 ps, h);
  numbered = λ i p e.
      let b = nth_in i (renumber 0 ps) p e in
      omega (arith, nth-renumber_id i 0 ps p e, b, length-renumber 0 ps, h);
}

moved-Moved :
    (a b i : ℕ) (r : Route) (p : RoutePath)
    → IsNumbered r.paths
    → nth a r.paths ≡ some p
    → ltb b (length r.paths) ≡ true
    → (bare (nth (moved a b i) (renumber 0 (insert_found b (nth a r.paths) (erase_at a r.paths))))
        ≡ bare (nth i r.paths))
      × IsNumbered (renumber 0 (insert_found b (nth a r.paths) (erase_at a r.paths)))
moved-Moved a b i r p v h l = rw h (
  nth-renumber (moved a b i) 0 (insert_at b p (erase_at a r.paths))
      ∙ ap bare (nth-moved a b i p r.paths h l),
  renumber-IsNumbered (insert_at b p (erase_at a r.paths)) (
      omega (
        arith,
        v.size,
        length-insert_at b p (erase_at a r.paths),
        length-erase_at a r.paths (nth_in a r.paths p h),
      )),
)

abbrev in_place : ℕ → ℕ → ℕ → Bool
in_place a b n = not (a == b) && ltb a n && ltb b n

refused : (a b n : ℕ) → n ≤ 255 → (a == b || leb (u8 n) a || leb (u8 n) b) ≡ not (in_place a b n)
unfolding u8
refused a b n h = ground arith

move_path_done :
    (a b : ℕ) (r : Route) (i : ℕ)
    → IsNumbered r.paths
    → in_place a b (length r.paths) ≡ true
    → Moved a b r i (move_path a b r)
unfolding move_path
move_path_done a b r i v h =
    let (p, e) = nth-some a r.paths (ground (arith, h)) in
    let (m, n) = moved-Moved a b i r p v e (ground (arith, h)) in
    rw (refused a b (length r.paths) v.size, h) (refl, inr m, inr refl, n)

move_path_refused :
    (a b : ℕ) (r : Route) (i : ℕ)
    → IsNumbered r.paths
    → in_place a b (length r.paths) ≡ false
    → Moved a b r i (move_path a b r)
unfolding move_path
move_path_refused a b r i v h =
    rw (refused a b (length r.paths) v.size, h) (refl, inl refl, inl refl, v)

-- On a route whose paths are numbered, movePath succeeds exactly for two different positions of
-- the route; then each path is, apart from its identifier, where the move of one element puts it,
-- the used path is still the same one, and the paths are numbered again.
pub move_path-Moved :
    (a b : ℕ) (r : Route) (i : ℕ) → IsNumbered r.paths → Moved a b r i (move_path a b r)
move_path-Moved a b r i v = elim (Bool-cases (in_place a b (length r.paths))) [
  | inl h ↦ move_path_done a b r i v h
  | inr h ↦ move_path_refused a b r i v h
]

length-count_down_from : (n : ℕ) (ps : List RoutePath) → length (count_down_from n ps) ≡ length ps
unfolding count_down_from
length-count_down_from n [] = refl
length-count_down_from zero (p ∷ ps) = omega (arith, length-count_down_from zero ps)
length-count_down_from (suc n) (p ∷ ps) = omega (arith, length-count_down_from n ps)

abbrev id_of : Option RoutePath → ℕ
id_of none = 0
id_of (some p) = p.id

count_down_id :
    (i n : ℕ) (ps : List RoutePath)
    → i < length ps
    → id_of (nth i (count_down_from n ps))
      ≡ (if ltb i n then id_of (nth i ps) else dec8 (id_of (nth i ps)))
unfolding nth count_down_from
count_down_id i n [] h = absurd (omega (arith, h))
count_down_id zero zero (p ∷ ps) h = refl
count_down_id (suc i) zero (p ∷ ps) h = ground (arith, count_down_id i zero ps)
count_down_id zero (suc n) (p ∷ ps) h = ground arith
count_down_id (suc i) (suc n) (p ∷ ps) h = ground (arith, count_down_id i n ps)

id_at : (i : ℕ) (ps : List RoutePath) → IsNumbered ps → i < length ps → id_of (nth i ps) ≡ i
id_at i ps v h = let (p, e) = nth-some i ps h in rw e (v.numbered i p e)

detached_id :
    (k i : ℕ) (ps : List RoutePath) (p : RoutePath)
    → IsNumbered ps
    → k < length ps
    → nth i (erase_at k (count_down_from (suc k) ps)) ≡ some p
    → p.id ≡ i
unfolding dec8
detached_id k i ps p v h e =
    let qs = count_down_from (suc k) ps in
    let len = length-count_down_from (suc k) ps in
    let size = length-erase_at k qs (omega (arith, h, len)) in
    let here : i < length (erase_at k qs) = nth_in i (erase_at k qs) p e in
    let pid : id_of (nth i (erase_at k qs)) ≡ p.id = ap id_of e in
    ground (
      arith,
      v.size,
      len,
      size,
      here,
      pid,
      nth-erase_at i k qs,
      count_down_id i (suc k) ps,
      count_down_id (suc i) (suc k) ps,
      id_at i ps v,
      id_at (suc i) ps v,
    )

pub detach_path-IsNumbered :
    (k : ℕ) (r : Route)
    → IsNumbered r.paths
    → ltb k (length r.paths) ≡ true
    → IsNumbered (erase_at k (count_down_from (suc k) r.paths))
detach_path-IsNumbered k r v h =
    let qs = count_down_from (suc k) r.paths in
    let l : k < length r.paths = ground (arith, h) in
    let len = length-count_down_from (suc k) r.paths in
    record {
      size = omega (arith, v.size, len, length-erase_at k qs (omega (arith, l, len)));
      numbered = λ i p e. detached_id k i r.paths p v l e;
    }

-- Where a path is after `path_id` was taken out.
unfoldable pub shifted : ℕ → ℕ → ℕ
shifted k i = if ltb k i then i - 1 else i

detached_nth :
    (k i : ℕ) (ps : List RoutePath)
    → not (i == k) ≡ true
    → bare (nth (shifted k i) (erase_at k (count_down_from (suc k) ps))) ≡ bare (nth i ps)
unfolding shifted
detached_nth k i ps h = ground (
  arith,
  nth-erase_at (if ltb k i then i - 1 else i) k (count_down_from (suc k) ps),
  nth-count_down_from i (suc k) ps,
)

abbrev pub Detached : ℕ → Route → ℕ → Route × Bool → Type 0
Detached k r i (s, done) =
    (done ≡ (ltb 1 (length r.paths) && not (r.used_path == k) && ltb k (length r.paths)))
    × IsNumbered s.paths
    × (bare (nth (if done then shifted k i else i) s.paths) ≡ bare (nth i r.paths))
    × (s.used_path ≡ (if done then shifted k r.used_path else r.used_path))

-- On a route whose paths are numbered, deletePath succeeds exactly for a position of the route
-- that is not used and not the only one; every other path stays, apart from its identifier, one
-- position earlier if it came after, the used path is still the same one, and the paths are
-- numbered.
pub delete_path-Detached :
    (k : ℕ) (r : Route) (i : ℕ)
    → IsNumbered r.paths
    → not (i == k) ≡ true
    → Detached k r i (delete_path k r)
unfolding delete_path shifted
delete_path-Detached k r i v n =
    ground (arith, v, detach_path-IsNumbered k r v, detached_nth k i r.paths n)
