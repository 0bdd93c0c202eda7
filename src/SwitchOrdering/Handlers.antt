-- ===== src/SwitchOrdering/Handlers.antt =====
-- HandlersMap, a std::multimap<int, SwitchEventHandler*>, and the event types as bits of a byte.
use runos.Base.{
  ℕ, ◌/◌, ◌%◌, ◌≡◌, refl, Bool, true, ◌&&◌, List, [], ◌∷◌, ◌++◌, leb, ◌==◌, if◌then◌else◌, arith,
}

pub data EventType : Type 0 where
  at_switch_up at_switch_down at_link_up at_link_down : EventType

pub record Handler : Type 0 where
  pub id : ℕ
  pub types : ℕ

-- `types & type`
unfoldable pub has_type : ℕ → EventType → Bool
has_type types at_switch_up = types % 2 == 1
has_type types at_switch_down = types / 2 % 2 == 1
has_type types at_link_up = types / 4 % 2 == 1
has_type types at_link_down = types / 8 % 2 == 1

-- `emplace` puts an element behind those with its key.
unfoldable pub emplace : ℕ × Handler → List (ℕ × Handler) → List (ℕ × Handler)
emplace h [] = h ∷ []
emplace h (g ∷ gs) = let rest = emplace h gs in if leb g.0 h.0 then g ∷ rest else h ∷ g ∷ gs

unfoldable pub register_handler : ℕ → ℕ → ℕ → List (ℕ × Handler) → List (ℕ × Handler)
unfolding emplace
register_handler id prio types handlers =
    emplace (prio, record { id = id; types = types % 256 }) handlers

-- The map that `run_handling` fills.
unfoldable pub subscribe : EventType → List (ℕ × Handler) → List (ℕ × Handler) → List (ℕ × Handler)
unfolding emplace has_type
subscribe type [] found = found
subscribe type (h ∷ hs) found =
    let one = subscribe type hs (emplace h found) in
    let none = subscribe type hs found in if has_type h.1.types type then one else none

-- The test in the loops over `handlers_` for links.
unfoldable pub wanting : EventType → List (ℕ × Handler) → List (ℕ × Handler)
unfolding has_type
wanting type [] = []
wanting type (h ∷ hs) =
    let rest = wanting type hs in if has_type h.1.types type then h ∷ rest else rest

abbrev pub all_le : ℕ → List (ℕ × Handler) → Bool
all_le k [] = true
all_le k (h ∷ hs) = leb k h.0 && all_le k hs

abbrev pub sorted : List (ℕ × Handler) → Bool
sorted [] = true
sorted (h ∷ hs) = all_le h.0 hs && sorted hs

all_le-emplace :
    (k : ℕ) (h : ℕ × Handler) (hs : List (ℕ × Handler))
    → all_le k (emplace h hs) ≡ (leb k h.0 && all_le k hs)
unfolding emplace
all_le-emplace k h [] = ground arith
all_le-emplace k h (g ∷ gs) = ground (arith, all_le-emplace k h gs)

all_le_trans :
    (j k : ℕ) (hs : List (ℕ × Handler)) → leb j k ≡ true → all_le k hs ≡ true → all_le j hs ≡ true
all_le_trans j k [] l a = refl
all_le_trans j k (h ∷ hs) l a = ground (arith, all_le_trans j k hs l)

pub sorted-emplace :
    (h : ℕ × Handler) (hs : List (ℕ × Handler)) → sorted hs ≡ true → sorted (emplace h hs) ≡ true
unfolding emplace
sorted-emplace h [] s = refl
sorted-emplace h (g ∷ gs) s =
    ground (arith, sorted-emplace h gs, all_le-emplace g.0 h gs, all_le_trans h.0 g.0 gs)

-- A handler whose key is at least all others goes to the end.
abbrev all_ge : ℕ → List (ℕ × Handler) → Bool
all_ge k [] = true
all_ge k (h ∷ hs) = leb h.0 k && all_ge k hs

emplace-last :
    (h : ℕ × Handler) (hs : List (ℕ × Handler)) → all_ge h.0 hs ≡ true → emplace h hs ≡ hs ++ h ∷ []
unfolding emplace
emplace-last h [] a = refl
emplace-last h (g ∷ gs) a = ground (arith, emplace-last h gs)

abbrev above_all : List (ℕ × Handler) → List (ℕ × Handler) → Bool
above_all found [] = true
above_all found (h ∷ hs) = all_ge h.0 found && above_all found hs

all_ge-snoc :
    (k : ℕ) (h : ℕ × Handler) (hs : List (ℕ × Handler))
    → all_ge k (hs ++ h ∷ []) ≡ (all_ge k hs && leb h.0 k)
all_ge-snoc k h [] = ground arith
all_ge-snoc k h (g ∷ gs) = ground (arith, all_ge-snoc k h gs)

above_all-snoc :
    (h : ℕ × Handler) (found hs : List (ℕ × Handler))
    → all_le h.0 hs ≡ true
    → above_all found hs ≡ true
    → above_all (found ++ h ∷ []) hs ≡ true
above_all-snoc h found [] l a = refl
above_all-snoc h found (g ∷ gs) l a =
    ground (arith, above_all-snoc h found gs, all_ge-snoc g.0 h found)

append_assoc :
    (xs : List (ℕ × Handler)) (y : ℕ × Handler) (zs : List (ℕ × Handler))
    → (xs ++ y ∷ []) ++ zs ≡ xs ++ y ∷ zs
append_assoc [] y zs = refl
append_assoc (x ∷ xs) y zs = ground (append_assoc xs y zs, arith)

append_nil : (xs : List (ℕ × Handler)) → xs ++ [] ≡ xs
append_nil [] = refl
append_nil (x ∷ xs) = ground (append_nil xs, arith)

subscribe-wanting :
    (type : EventType) (hs found : List (ℕ × Handler))
    → sorted hs ≡ true
    → above_all found hs ≡ true
    → subscribe type hs found ≡ found ++ wanting type hs
unfolding subscribe wanting
subscribe-wanting type [] found s a = ground (arith, append_nil found)
subscribe-wanting type (h ∷ hs) found s a = ground (
  arith,
  emplace-last h found,
  append_assoc found h (wanting type hs),
  above_all-snoc h found hs,
  subscribe-wanting type hs found,
  subscribe-wanting type hs (found ++ h ∷ []),
)

above_nil : (hs : List (ℕ × Handler)) → above_all [] hs ≡ true
above_nil [] = refl
above_nil (h ∷ hs) = ground (arith, above_nil hs)

-- After registerHandler on a map in the order of priorities, the map of subscribed handlers that
-- run_handling fills is the registered map in its order without the handlers that do not want the
-- event.
pub register-subscribe :
    (id prio types : ℕ) (type : EventType) (hs : List (ℕ × Handler))
    → sorted hs ≡ true
    → subscribe type (register_handler id prio types hs) []
      ≡ wanting type (register_handler id prio types hs)
unfolding register_handler
register-subscribe id prio types type hs s =
    let h : ℕ × Handler = (prio, record { id = id; types = types % 256 }) in
    subscribe-wanting type (emplace h hs) [] (sorted-emplace h hs s) (above_nil (emplace h hs))
