-- ===== src/Recovery/Checker.antt =====
-- src/core/RecoveryModeChecker.cc: a controller in mode RECOVERY waits for the switches it had.
use runos.Base.{
  ℕ, ◌+◌, ◌≡◌, ◌↔◌, refl, Bool, true, false, not, ◌||◌, ◌&&◌, Option, none, some, List, [], ◌∷◌,
  ◌++◌, ltb, ◌==◌, if◌then◌else◌, arith,
}

pub data Action : Type 0 where
  add delete : Action

-- Times are in seconds; `none` is the time point of no expiry.
pub record RecoveryModeChecker : Type 0 where
  pub waiting_for_switches : List ℕ
  pub connected_switches : List ℕ
  pub expire_time : Option ℕ
  pub running : Bool

pub data Outcome : Type 0 where
  failed_recover ready_to_recover still_waiting : Outcome

unfoldable pub find : ℕ → List ℕ → Bool
find x [] = false
find x (y ∷ ys) = x == y || find x ys

unfoldable pub remove_all : ℕ → List ℕ → List ℕ
remove_all x [] = []
remove_all x (y ∷ ys) = let rest = remove_all x ys in if x == y then rest else y ∷ rest

unfoldable pub start_recovery_check : ℕ → ℕ → RecoveryModeChecker → RecoveryModeChecker
start_recovery_check now max_waiting_interval c = record c {
  running = true;
  expire_time = if max_waiting_interval == 0 then none else some (now + max_waiting_interval);
}

-- The second part is what is saved in the database, on a primary.
unfoldable pub update_switch :
    Bool → ℕ → Action → RecoveryModeChecker → RecoveryModeChecker × Option (List ℕ)
unfolding remove_all
update_switch is_primary dpid add c =
    let l = c.connected_switches ++ dpid ∷ [] in
    (record c { connected_switches = l }, if is_primary then some l else none)
update_switch is_primary dpid delete c =
    let l = remove_all dpid c.connected_switches in
    (record c { connected_switches = l }, if is_primary then some l else none)

unfoldable pub lacking : List ℕ → List ℕ → List ℕ → List ℕ
unfolding find remove_all
lacking waiting left [] = left
lacking waiting left (d ∷ ds) =
    lacking waiting (if find d waiting then remove_all d left else left) ds

abbrev pub expired : Option ℕ → ℕ → Bool
expired none now = false
expired (some t) now = ltb t now

abbrev pub empty : List ℕ → Bool
empty [] = true
empty (d ∷ ds) = false

-- checkAllSwitchesConnected; the first two outcomes stop the timer and save the connected switches.
unfoldable pub check_all_switches_connected :
    ℕ → RecoveryModeChecker → RecoveryModeChecker × Outcome
unfolding lacking
check_all_switches_connected now c =
    if expired c.expire_time now
    then (record c { running = false }, failed_recover)
    else if empty (lacking c.waiting_for_switches c.waiting_for_switches c.connected_switches)
    then (record c { running = false }, ready_to_recover)
    else (c, still_waiting)

find-remove_all :
    (x d : ℕ) (l : List ℕ) → find x (remove_all d l) ≡ (if x == d then false else find x l)
unfolding find remove_all
find-remove_all x d [] = ground arith
find-remove_all x d (y ∷ ys) = ground (arith, find-remove_all x d ys)

-- What is lacking is what was left and is not connected.
find-lacking :
    (x : ℕ) (waiting left connected : List ℕ)
    → find x waiting ≡ true
    → find x (lacking waiting left connected) ≡ (find x left && not (find x connected))
unfolding lacking find
find-lacking x waiting left [] h = ground arith
find-lacking x waiting left (d ∷ ds) h = ground (
  arith,
  h,
  find-lacking x waiting (if find d waiting then remove_all d left else left) ds h,
  find-remove_all x d left,
)

find-empty : (l : List ℕ) → ((x : ℕ) → find x l ≡ false) → empty l ≡ true
unfolding find
find-empty [] h = refl
find-empty (d ∷ ds) h = ground (arith, h d)

empty-find : (x : ℕ) (l : List ℕ) → empty l ≡ true → find x l ≡ false
unfolding find
empty-find x [] h = refl
empty-find x (d ∷ ds) h = absurd (ground (arith, h))

lacking_left :
    (x : ℕ) (waiting connected left : List ℕ)
    → find x left ≡ false
    → find x (lacking waiting left connected) ≡ false
unfolding lacking
lacking_left x waiting [] left h = h
lacking_left x waiting (d ∷ ds) left h =
    lacking_left x waiting ds (if find d waiting then remove_all d left else left)
      (ground (arith, h, find-remove_all x d left))

abbrev pub AllConnected : RecoveryModeChecker → Type 0
AllConnected c = (x : ℕ) → find x c.waiting_for_switches ≡ true → find x c.connected_switches ≡ true

pub is_ready : Outcome → Bool
is_ready ready_to_recover = true
is_ready _ = false

lacking_none :
    (c : RecoveryModeChecker)
    → AllConnected c
    → empty (lacking c.waiting_for_switches c.waiting_for_switches c.connected_switches) ≡ true
lacking_none c h = find-empty _ (λ x. ground (
  arith,
  h x,
  find-lacking x c.waiting_for_switches c.waiting_for_switches c.connected_switches,
  lacking_left x c.waiting_for_switches c.connected_switches c.waiting_for_switches,
))

lacking_some :
    (c : RecoveryModeChecker)
    → empty (lacking c.waiting_for_switches c.waiting_for_switches c.connected_switches) ≡ true
    → AllConnected c
lacking_some c h x w =
    let l = lacking c.waiting_for_switches c.waiting_for_switches c.connected_switches in
    ground (
      arith,
      w,
      empty-find x l h,
      find-lacking x c.waiting_for_switches c.waiting_for_switches c.connected_switches w,
    )

-- Before the waiting time is over checkAllSwitchesConnected reports that the controller is ready
-- exactly when every switch that was waited for is connected.
pub check_ready :
    (now : ℕ) (c : RecoveryModeChecker)
    → expired c.expire_time now ≡ false
    → (is_ready (check_all_switches_connected now c).1 ≡ true) ↔ AllConnected c
unfolding check_all_switches_connected is_ready
check_ready now c e =
    (λ h. lacking_some c (ground (arith, e, h)), λ h. ground (arith, e, lacking_none c h))
