-- ===== src/DpidChecker/Races.antt =====
-- addSwitch by several threads: isRegistered and the appending are separate critical sections.
use runos.Base.{
  ap, ◌∙◌, ℕ, ◌+◌, ◌≤◌, ◌≡◌, refl, Bool, true, false, not, ◌||◌, ◌&&◌, List, [], ◌∷◌, ◌++◌, ◌==◌,
  if◌then◌else◌, arith,
}
use runos.DpidChecker.{
  DpidChecker, SwitchRole, undefined, ar, dr, Result, ok, err, Signal, is_registered, push_switch,
  remove_switch,
}
use runos.DpidChecker.Lists.{find, count, erase_first, find-count, count-append, count-erase_first}
use runos.DpidChecker.Roles.{IsUnique, assignable}

-- The switches that were not registered when a thread looked, and that it has not appended yet.
pub record Threads : Type 0 where
  pub checker : DpidChecker
  pub adding : List (ℕ × SwitchRole)

-- `pushes` lets the first thread that waits with the switch go on.
pub data Event : Type 0 where
  looks pushes removes : ℕ → SwitchRole → Event

after : DpidChecker → Result (DpidChecker × List Signal) → DpidChecker
after c (ok r) = r.0
after c (err e) = c

role_same : SwitchRole → SwitchRole → Bool
role_same ar ar = true
role_same dr dr = true
role_same _ _ = false

waits : ℕ → SwitchRole → List (ℕ × SwitchRole) → Bool
unfolding role_same
waits d r [] = false
waits d r ((e, q) ∷ ws) = (d == e && role_same r q) || waits d r ws

gone_on : ℕ → SwitchRole → List (ℕ × SwitchRole) → List (ℕ × SwitchRole)
unfolding role_same
gone_on d r [] = []
gone_on d r ((e, q) ∷ ws) =
    let rest = gone_on d r ws in if d == e && role_same r q then ws else (e, q) ∷ rest

pub pending : ℕ → List (ℕ × SwitchRole) → ℕ
pending x [] = 0
pending x ((e, q) ∷ ws) = (if x == e then 1 else 0) + pending x ws

pub step : Event → Threads → Threads
unfolding after waits gone_on
step (looks d r) t =
    if assignable r && not (is_registered d undefined t.checker)
    then record t { adding = t.adding ++ (d, r) ∷ [] }
    else t
step (pushes d r) t =
    if waits d r t.adding
    then record {
      checker = after t.checker (push_switch d r t.checker);
      adding = gone_on d r t.adding;
    }
    else t
step (removes d r) t = record t { checker = after t.checker (remove_switch d r t.checker) }

pub run : List Event → Threads → Threads
unfolding step
run [] t = t
run (e ∷ es) t = run es (step e t)

-- No thread looks for a switch that another one is about to append.
unfoldable pub alone : List Event → Threads → Bool
unfolding step pending
alone [] t = true
alone (looks d r ∷ es) t = pending d t.adding == 0 && alone es (step (looks d r) t)
alone (pushes d r ∷ es) t = alone es (step (pushes d r) t)
alone (removes d r ∷ es) t = alone es (step (removes d r) t)

-- A switch is in the lists or about to be, once.
abbrev Once : Threads → Type 0
Once t = (x : ℕ) → count x t.checker.ar_list + count x t.checker.dr_list + pending x t.adding ≤ 1

pending_new :
    (x d : ℕ) (r : SwitchRole) (ws : List (ℕ × SwitchRole))
    → pending x (ws ++ (d, r) ∷ []) ≡ pending x ws + (if x == d then 1 else 0)
unfolding pending
pending_new x d r [] = ground arith
pending_new x d r ((e, q) ∷ ws) = ground (arith, pending_new x d r ws)

pending_gone :
    (x d : ℕ) (r : SwitchRole) (ws : List (ℕ × SwitchRole))
    → waits d r ws ≡ true
    → pending x (gone_on d r ws) + (if x == d then 1 else 0) ≡ pending x ws
unfolding pending gone_on waits
pending_gone x d r [] h = absurd (ground (arith, h))
pending_gone x d r ((e, q) ∷ ws) h = ground (arith, h, pending_gone x d r ws)

count_added : (x d : ℕ) (l : List ℕ) → count x (l ++ d ∷ []) ≡ count x l + (if x == d then 1 else 0)
unfolding count
count_added x d l = ground (arith, count-append x l (d ∷ []))

looks-Once :
    (d : ℕ) (r : SwitchRole) (t : Threads)
    → Once t
    → pending d t.adding ≡ 0
    → Once (step (looks d r) t)
unfolding step is_registered
looks-Once d r t h n x = ground (
  arith,
  h x,
  n,
  pending_new x d r t.adding,
  find-count d t.checker.ar_list,
  find-count d t.checker.dr_list,
)

never : (d : ℕ) (ws : List (ℕ × SwitchRole)) → waits d undefined ws ≡ false
unfolding waits role_same
never d [] = refl
never d ((e, q) ∷ ws) = ground (arith, never d ws)

pushes-Once : (d : ℕ) (r : SwitchRole) (t : Threads) → Once t → Once (step (pushes d r) t)
unfolding step push_switch after
pushes-Once d undefined t h x = ground (arith, h x, never d t.adding)
pushes-Once d ar t h x =
    ground (arith, h x, pending_gone x d ar t.adding, count_added x d t.checker.ar_list)
pushes-Once d dr t h x =
    ground (arith, h x, pending_gone x d dr t.adding, count_added x d t.checker.dr_list)

removes-Once : (d : ℕ) (r : SwitchRole) (t : Threads) → Once t → Once (step (removes d r) t)
unfolding step remove_switch after
removes-Once d undefined t h x = h x
removes-Once d ar t h x = ground (arith, h x, count-erase_first x d t.checker.ar_list)
removes-Once d dr t h x = ground (arith, h x, count-erase_first x d t.checker.dr_list)

run-Once : (es : List Event) (t : Threads) → alone es t ≡ true → Once t → Once (run es t)
unfolding run alone
run-Once [] t a h = h
run-Once (looks d r ∷ es) t a h =
    run-Once es (step (looks d r) t) (ground (arith, a)) (looks-Once d r t h (ground (arith, a)))
run-Once (pushes d r ∷ es) t a h = run-Once es (step (pushes d r) t) a (pushes-Once d r t h)
run-Once (removes d r ∷ es) t a h = run-Once es (step (removes d r) t) a (removes-Once d r t h)

pub run-IsUnique :
    (es : List Event) (c : DpidChecker)
    → alone es (record { checker = c; adding = [] }) ≡ true
    → IsUnique c
    → IsUnique (run es (record { checker = c; adding = [] })).checker
unfolding pending
run-IsUnique es c a u =
    let t : Threads = record { checker = c; adding = [] } in
    let h : Once (run es t) = run-Once es t a (λ x. ground (arith, u.once x)) in
    record { once = λ x. omega (arith, h x) }

found_last : (d : ℕ) (l : List ℕ) → find d (l ++ d ∷ []) ≡ true
found_last d l = ground (arith, find-count d (l ++ d ∷ []), count_added d d l)

left_over : (d : ℕ) (l : List ℕ) → find d (erase_first d ((l ++ d ∷ []) ++ d ∷ [])) ≡ true
left_over d l =
    let two = (l ++ d ∷ []) ++ d ∷ [] in
    ground (
      arith,
      find-count d (erase_first d two),
      find-count d two,
      count-erase_first d d two,
      count_added d d (l ++ d ∷ []),
      count_added d d l,
    )

abbrev put : ℕ → SwitchRole → DpidChecker → DpidChecker
put d r c = after c (push_switch d r c)

look_on :
    (d : ℕ) (r : SwitchRole) (c : DpidChecker) (ws : List (ℕ × SwitchRole))
    → assignable r ≡ true
    → is_registered d undefined c ≡ false
    → step (looks d r) (record { checker = c; adding = ws })
      ≡ record { checker = c; adding = ws ++ (d, r) ∷ [] }
unfolding step
look_on d r c ws h n = rw (h, n) refl

push_on :
    (d : ℕ) (r : SwitchRole) (c : DpidChecker) (ws : List (ℕ × SwitchRole))
    → assignable r ≡ true
    → step (pushes d r) (record { checker = c; adding = (d, r) ∷ ws })
      ≡ record { checker = put d r c; adding = ws }
unfolding step waits gone_on role_same
push_on d undefined c ws h = absurd (ground (arith, h))
push_on d ar c ws h = ground arith
push_on d dr c ws h = ground arith

race :
    (d : ℕ) (r q : SwitchRole) (c : DpidChecker)
    → assignable r ≡ true
    → assignable q ≡ true
    → is_registered d undefined c ≡ false
    → run
        (looks d r ∷ looks d q ∷ pushes d r ∷ pushes d q ∷ removes d r ∷ [])
        (record { checker = c; adding = [] })
      ≡ step (removes d r) (record { checker = put d q (put d r c); adding = [] })
unfolding run
race d r q c h k n =
    ap (run (looks d q ∷ pushes d r ∷ pushes d q ∷ removes d r ∷ [])) (look_on d r c [] h n)
    ∙ ap (run (pushes d r ∷ pushes d q ∷ removes d r ∷ [])) (look_on d q c ((d, r) ∷ []) k n)
    ∙ ap (run (pushes d q ∷ removes d r ∷ [])) (push_on d r c ((d, q) ∷ []) h)
    ∙ ap (run (removes d r ∷ [])) (push_on d q (put d r c) [] k)

registered :
    (d : ℕ) (c : DpidChecker)
    → (find d c.ar_list || find d c.dr_list) ≡ true
    → is_registered d undefined c ≡ true
unfolding is_registered
registered d c h = h

raced :
    (d : ℕ) (r q : SwitchRole) (c : DpidChecker)
    → assignable r ≡ true
    → assignable q ≡ true
    → is_registered d undefined
        (step (removes d r) (record { checker = put d q (put d r c); adding = [] })).checker
      ≡ true
unfolding step push_switch remove_switch after
raced d undefined q c h k = absurd (ground (arith, h))
raced d ar undefined c h k = absurd (ground (arith, k))
raced d dr undefined c h k = absurd (ground (arith, k))
raced d ar ar c h k =
    rw (found_last d (c.ar_list ++ d ∷ [])) (registered d _ (ground (arith, left_over d c.ar_list)))
raced d ar dr c h k =
    rw (found_last d c.ar_list) (registered d _ (ground (arith, found_last d c.dr_list)))
raced d dr ar c h k =
    rw (found_last d c.dr_list) (registered d _ (ground (arith, found_last d c.ar_list)))
raced d dr dr c h k =
    rw (found_last d (c.dr_list ++ d ∷ [])) (registered d _ (ground (arith, left_over d c.dr_list)))

-- If two threads add an unregistered switch with roles AR or DR, both look before either appends,
-- and then one removal with the role of the first follows, the switch is still registered.
pub racing_adds :
    (d : ℕ) (r q : SwitchRole) (c : DpidChecker)
    → assignable r ≡ true
    → assignable q ≡ true
    → is_registered d undefined c ≡ false
    → is_registered d undefined
        (run
          (looks d r ∷ looks d q ∷ pushes d r ∷ pushes d q ∷ removes d r ∷ [])
          (record { checker = c; adding = [] })).checker
      ≡ true
racing_adds d r q c h k n =
    ap (λ (t : Threads). is_registered d undefined t.checker) (race d r q c h k n)
    ∙ raced d r q c h k
