-- ===== src/DpidChecker/Sync.antt =====
-- DpidChecker::syncSwitchList and syncSwitchLists.
use runos.Base.{
  ◌⊎◌, inl, inr, ◌↔◌, ℕ, ◌≡◌, refl, Bool, false, not, ◌||◌, ◌&&◌, List, [], ◌∷◌, ◌++◌, map, ◌==◌,
  arith,
}
use runos.DpidChecker.{
  DpidChecker, SwitchRole, ar, dr, Result, ok, err, Signal, switch_list_changed,
  switch_unregistered, Reading, number, parse, unregister, sync_switch_lists,
}
use runos.DpidChecker.Lists.{find, removed_from, find-removed_from}

-- Whether a switch is reported as unregistered.
abbrev pub reported : ℕ → List Signal → Bool
reported x [] = false
reported x (switch_unregistered d ∷ ss) = x == d || reported x ss
reported x (switch_list_changed r ∷ ss) = reported x ss

reported-append :
    (x : ℕ) (ss ts : List Signal) → reported x (ss ++ ts) ≡ (reported x ss || reported x ts)
reported-append x [] ts = refl
reported-append x (switch_unregistered d ∷ ss) ts = ground (arith, reported-append x ss ts)
reported-append x (switch_list_changed r ∷ ss) ts = reported-append x ss ts

reported-map : (x : ℕ) (ds : List ℕ) → reported x (map switch_unregistered ds) ≡ find x ds
unfolding find
reported-map x [] = refl
reported-map x (d ∷ ds) = ground (arith, reported-map x ds)

reported-unregister :
    (x : ℕ) (ds : List ℕ) (r : SwitchRole) → reported x (unregister ds r) ≡ find x ds
unfolding unregister find
reported-unregister x [] r = refl
reported-unregister x (d ∷ ds) r = ground (
  arith,
  reported-append x (map switch_unregistered ds) (switch_list_changed r ∷ []),
  reported-map x ds,
)

module _ {J : Type 0} (reads : J → Reading) where
  abbrev pub Synced :
      List J → List J → DpidChecker → ℕ → Result (DpidChecker × List Signal) → Type 0
  Synced ars drs c x (ok (c', signals)) =
      (parse reads ars ≡ ok c'.ar_list)
      × (parse reads drs ≡ ok c'.dr_list)
      × (reported x signals ≡ (
          (find x c.ar_list && not (find x c'.ar_list))
          || (find x c.dr_list && not (find x c'.dr_list))))
  Synced ars drs c x (err e) =
      (parse reads ars ≡ err e)
      ⊎ ((l : List ℕ) × (parse reads ars ≡ ok l) × (parse reads drs ≡ err e))

  sync_signals :
      (c : DpidChecker) (x : ℕ) (new_ar new_dr : List ℕ)
      → reported x (
          switch_list_changed ar
          ∷ switch_list_changed dr
          ∷ (unregister (removed_from c.ar_list new_ar) ar
              ++ unregister (removed_from c.dr_list new_dr) dr))
        ≡ ((find x c.ar_list && not (find x new_ar)) || (find x c.dr_list && not (find x new_dr)))
  sync_signals c x new_ar new_dr = ground (
    arith,
    reported-append x (unregister (removed_from c.ar_list new_ar) ar)
        (unregister (removed_from c.dr_list new_dr) dr),
    reported-unregister x (removed_from c.ar_list new_ar) ar,
    reported-unregister x (removed_from c.dr_list new_dr) dr,
    find-removed_from x c.ar_list new_ar,
    find-removed_from x c.dr_list new_dr,
  )

  sync_by :
      (ars drs : List J) (c : DpidChecker) (x : ℕ) (a d : Result (List ℕ))
      → parse reads ars ≡ a
      → parse reads drs ≡ d
      → Synced ars drs c x (sync_switch_lists reads ars drs c)
  unfolding sync_switch_lists
  sync_by ars drs c x (ok xs) (ok ys) p q = rw (p, q) (p, q, sync_signals c x xs ys)
  sync_by ars drs c x (ok xs) (err e) p q = rw (p, q) (inr (xs, p, q))
  sync_by ars drs c x (err e) d p q = rw p (inl p)

  -- syncSwitchLists fails exactly as the parsing of one of the lists does, that of AR first;
  -- otherwise each list becomes what was parsed, and a switch is reported as unregistered exactly
  -- if one of the lists had it and no longer has it.
  pub sync_switch_lists-Synced :
      (ars drs : List J) (c : DpidChecker) (x : ℕ)
      → Synced ars drs c x (sync_switch_lists reads ars drs c)
  sync_switch_lists-Synced ars drs c x =
      sync_by ars drs c x (parse reads ars) (parse reads drs) refl refl

  parsed : (js : List J) (l : List ℕ) → parse reads js ≡ ok l → map reads js ≡ map number l
  unfolding parse
  parsed [] [] e = refl
  parsed [] (n ∷ l) e = ground arith
  parsed (j ∷ js) [] e = ground arith
  parsed (j ∷ js) (n ∷ l) e = ground (arith, parsed js l)

  unparsed : (js : List J) (l : List ℕ) → map reads js ≡ map number l → parse reads js ≡ ok l
  unfolding parse
  unparsed [] [] e = refl
  unparsed [] (n ∷ l) e = ground arith
  unparsed (j ∷ js) [] e = ground arith
  unparsed (j ∷ js) (n ∷ l) e = ground (arith, unparsed js l)

  -- parse returns a list exactly if every entry reads as a number, and these numbers are the list,
  -- in order.
  pub parse-number :
      (js : List J) (l : List ℕ) → (parse reads js ≡ ok l) ↔ (map reads js ≡ map number l)
  parse-number js l = (parsed js l, unparsed js l)
