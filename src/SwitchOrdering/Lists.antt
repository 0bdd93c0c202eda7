-- ===== src/SwitchOrdering/Lists.antt =====
-- The vector of dpids and the map from a dpid to the ports that are cached.
use runos.Base.{
  ℕ, ◌+◌, ◌≡◌, refl, Bool, false, not, ◌||◌, List, [], ◌∷◌, ◌++◌, ◌==◌, if◌then◌else◌, arith,
}
use runos.SwitchAndPort.{SwitchAndPort, port_eq}

unfoldable pub count : ℕ → List ℕ → ℕ
count x [] = 0
count x (y ∷ ys) = (if x == y then 1 else 0) + count x ys

unfoldable pub find : ℕ → List ℕ → Bool
find x [] = false
find x (y ∷ ys) = x == y || find x ys

-- `v.erase(std::remove(v.begin(), v.end(), x), v.end())`
unfoldable pub remove_all : ℕ → List ℕ → List ℕ
remove_all x [] = []
remove_all x (y ∷ ys) = let rest = remove_all x ys in if x == y then rest else y ∷ rest

unfoldable pub remove_port : SwitchAndPort → List SwitchAndPort → List SwitchAndPort
remove_port x [] = []
remove_port x (y ∷ ys) = let rest = remove_port x ys in if port_eq x y then rest else y ∷ rest

abbrev pub Links : Type 0
Links = List (ℕ × List SwitchAndPort)

-- The ports under a dpid; a missing key has none.
unfoldable pub find_links : ℕ → Links → List SwitchAndPort
find_links d [] = []
find_links d ((k, ps) ∷ rest) = let others = find_links d rest in if d == k then ps else others

unfoldable pub set_links : ℕ → List SwitchAndPort → Links → Links
set_links d ps [] = (d, ps) ∷ []
set_links d ps ((k, qs) ∷ rest) =
    let others = set_links d ps rest in if d == k then (k, ps) ∷ rest else (k, qs) ∷ others

pub find-set_links :
    (d e : ℕ) (ps : List SwitchAndPort) (l : Links)
    → find_links d (set_links e ps l) ≡ (if d == e then ps else find_links d l)
unfolding find_links set_links
find-set_links d e ps [] = refl
find-set_links d e ps ((k, qs) ∷ rest) = ground (arith, find-set_links d e ps rest)

pub count-append : (x : ℕ) (xs ys : List ℕ) → count x (xs ++ ys) ≡ count x xs + count x ys
unfolding count
count-append x [] ys = omega arith
count-append x (z ∷ zs) ys = omega (arith, count-append x zs ys)

pub find-count : (x : ℕ) (xs : List ℕ) → find x xs ≡ not (count x xs == 0)
unfolding find count
find-count x [] = refl
find-count x (y ∷ ys) = ground (arith, find-count x ys)

pub count-remove_all :
    (x d : ℕ) (xs : List ℕ) → count x (remove_all d xs) ≡ (if x == d then 0 else count x xs)
unfolding count remove_all
count-remove_all x d [] = ground arith
count-remove_all x d (y ∷ ys) = ground (arith, count-remove_all x d ys)

pub find-append : (x : ℕ) (xs ys : List ℕ) → find x (xs ++ ys) ≡ (find x xs || find x ys)
unfolding find
find-append x [] ys = refl
find-append x (z ∷ zs) ys = ground (arith, find-append x zs ys)
