-- ===== src/OfAgent/Conserving.antt =====
-- What the operations do to the promises: how many of a request have an outcome, and how many wait.
use runos.Base.{
  ℕ, ◌+◌, ◌≡◌, inl, inr, refl, Bool-cases, Option-cases, true, Option, none, some, List, [], ◌∷◌,
  ltb, arith,
}
use runos.OfAgent.Sessions.{
  not_responded, Thrown, unexpected, minimal_xid, is_thrown, Session, Answer, OfAgent, Step,
  set_outcome, then_visit, visit, find_in, find_task, replace, erase, left, on_found, on_response,
  waiting_for_response,
}
use runos.OfAgent.Honest.{
  settled, waits, pending, is_tidy, tidy, IsHonest, settled-append, set_outcome-IsHonest,
}

module _ {B : Type 0} where
  then-IsHonest :
      (visitor : Session B → Answer B) (s : Session B) (a : Answer B)
      → IsHonest s a
      → IsHonest a.session (visitor a.session)
      → IsHonest s (then_visit visitor a)
  then-IsHonest visitor s a h k = elim (Bool-cases (is_thrown a.thrown)) [
    | inl t ↦ rw t h
    | inr t ↦ rw t (record {
      balanced = λ x. ground (
        arith,
        settled-append x a.outcomes (visitor a.session).outcomes,
        h.balanced x,
        k.balanced x,
      );
      stays_tidy = λ u. k.stays_tidy (h.stays_tidy u);
    })
  ]

  visit-IsHonest :
      (visitor : Session B → Answer B) (s : Session B)
      → ((t : Session B) → IsHonest t (visitor t))
      → IsHonest s (visit visitor s)
  unfolding visit
  visit-IsHonest visitor s h = elim (Bool-cases (waiting_for_response s.kind)) [
    | inl w ↦ rw w (h s)
    | inr w ↦
        let a = set_outcome not_responded s in
        let one = set_outcome-IsHonest not_responded s in
        rw w (then-IsHonest visitor s a one (h a.session))
  ]

  erased :
      (xid x : ℕ) (s : Session B) (ss : List (Session B))
      → find_in xid ss ≡ some s
      → pending x (erase xid ss) + waits x s ≡ pending x ss
  unfolding find_in erase pending
  erased xid x s [] h = absurd (ground (arith, h))
  erased xid x s (t ∷ ss) h = ground (arith, h, erased xid x s ss)

  replaced :
      (xid x : ℕ) (s t : Session B) (ss : List (Session B))
      → find_in xid ss ≡ some s
      → pending x (replace xid t ss) + waits x s ≡ pending x ss + waits x t
  unfolding find_in replace pending
  replaced xid x s t [] h = absurd (ground (arith, h))
  replaced xid x s t (u ∷ ss) h = ground (arith, h, replaced xid x s t ss)

  erase-tidy : (xid : ℕ) (ss : List (Session B)) → tidy ss ≡ true → tidy (erase xid ss) ≡ true
  unfolding erase tidy
  erase-tidy xid [] h = refl
  erase-tidy xid (s ∷ ss) h = ground (arith, h, erase-tidy xid ss)

  replace-tidy :
      (xid : ℕ) (t : Session B) (ss : List (Session B))
      → tidy ss ≡ true
      → is_tidy t ≡ true
      → tidy (replace xid t ss) ≡ true
  unfolding replace tidy
  replace-tidy xid t [] h k = refl
  replace-tidy xid t (s ∷ ss) h k = ground (arith, h, k, replace-tidy xid t ss)

  found_tidy :
      (xid : ℕ) (s : Session B) (ss : List (Session B))
      → tidy ss ≡ true
      → find_in xid ss ≡ some s
      → is_tidy s ≡ true
  unfolding find_in tidy
  found_tidy xid s [] h e = absurd (ground (arith, e))
  found_tidy xid s (t ∷ ss) h e = ground (arith, h, e, found_tidy xid s ss)

  -- The promises of an identifier, before and after.
  pub record IsConserving (x : ℕ) (a : OfAgent B) (t : Step B) : Type 0 where
    pub conserved : settled x t.outcomes + pending x t.agent.tasks ≡ pending x a.tasks
    pub tidied : tidy t.agent.tasks ≡ true

  pub nothing-IsConserving :
      (x : ℕ) (a : OfAgent B) (e : Option Thrown)
      → tidy a.tasks ≡ true
      → IsConserving x a (record { agent = a; outcomes = []; thrown = e })
  unfolding settled
  nothing-IsConserving x a e t = record { conserved = ground arith; tidied = t }

  left-tidy :
      (xid : ℕ) (a : Answer B) (ss : List (Session B))
      → tidy ss ≡ true
      → is_tidy a.session ≡ true
      → tidy (left xid a ss) ≡ true
  left-tidy xid a ss h k = ground (arith, h, k, erase-tidy xid ss, replace-tidy xid a.session ss)

  left-pending :
      (xid x : ℕ) (s : Session B) (a : Answer B) (ss : List (Session B))
      → find_in xid ss ≡ some s
      → is_tidy a.session ≡ true
      → settled x a.outcomes + waits x a.session ≡ waits x s
      → settled x a.outcomes + pending x (left xid a ss) ≡ pending x ss
  left-pending xid x s a ss e k h =
      ground (arith, e, k, h, erased xid x s ss e, replaced xid x s a.session ss e)

  found-IsConserving :
      (xid x : ℕ) (visitor : Session B → Answer B) (a : OfAgent B) (s : Session B)
      → ((t : Session B) → IsHonest t (visitor t))
      → find_in xid a.tasks ≡ some s
      → tidy a.tasks ≡ true
      → IsConserving x a (on_found xid visitor a (some s))
  found-IsConserving xid x visitor a s h e t =
      let v = visit-IsHonest visitor s h in
      let u = v.stays_tidy (found_tidy xid s a.tasks t e) in
      record {
        conserved = left-pending xid x s (visit visitor s) a.tasks e u (v.balanced x);
        tidied = left-tidy xid (visit visitor s) a.tasks t u;
      }

  pub on_response-IsConserving :
      (xid x : ℕ) (visitor : Session B → Answer B) (a : OfAgent B)
      → ((t : Session B) → IsHonest t (visitor t))
      → tidy a.tasks ≡ true
      → IsConserving x a (on_response xid visitor a)
  unfolding on_response find_task
  on_response-IsConserving xid x visitor a h t = elim (Bool-cases (ltb xid minimal_xid)) [
    | inl l ↦ rw l (nothing-IsConserving x a none t)
    | inr l ↦ elim (Option-cases (find_in xid a.tasks)) [
      | inl e ↦ rw (l, e) (nothing-IsConserving x a (some unexpected) t)
      | inr (s, e) ↦ rw (l, e) (found-IsConserving xid x visitor a s h e t)
    ]
  ]
