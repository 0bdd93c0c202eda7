-- ===== src/OfMsgSender/Decrease.antt =====
-- What a missing reply does to the limit, and the queue of a switch in the map.
use native.Mathlib.Nat.{le-div_iff_mul-le, div-le_self}
use runos.Base.{
  ℕ, ◌*◌, ◌/◌, ◌^◌, ◌≤◌, ◌<◌, ◌≡◌, ◌⊎◌, refl, Bool, true, false, ◌&&◌, Option, none, some, List, [],
  ◌∷◌, ◌++◌, ◌==◌, if◌then◌else◌, arith,
}
use runos.OfMsgSender.{
  MsgStatus, min_rate, mult_decrease, find_status, set_status, enqueue, send_impl,
}

share_ge : (limit mult : ℕ) → 0 < mult → mult * 20 ≤ limit → 20 ≤ limit / mult
share_ge limit mult p h = (le-div_iff_mul-le p).1 (omega (arith, h))

module _ {M : Type 0} where
  abbrev pub Decreased : MsgStatus M → Option (MsgStatus M) → Type 0
  Decreased s none = true ≡ false
  Decreased s (some t) =
      (min_rate ≤ t.limit)
      × ((t.limit ≤ s.limit) ⊎ (t.limit ≡ min_rate))
      × (t.msgs ≡ s.msgs)
      × (t.sent ≡ s.sent)

  -- With a positive ratio whose product with min_rate fits 32 bits, mult_decrease returns a limit
  -- of at least min_rate that is no more than before or is min_rate itself, and keeps the queue
  -- and the counter.
  pub mult_decrease-Decreased :
      (s : MsgStatus M)
      → 0 < s.multiplicative_ratio
      → s.multiplicative_ratio * 20 < 2 ^ 32
      → Decreased s (mult_decrease s)
  unfolding mult_decrease
  mult_decrease-Decreased s p h =
      ground
        (arith, share_ge s.limit s.multiplicative_ratio, div-le_self s.limit s.multiplicative_ratio)

  abbrev pub msgs_of : Option (MsgStatus M) → Option (List M)
  msgs_of none = none
  msgs_of (some s) = some s.msgs

  find-set_status :
      (d k : ℕ) (s : MsgStatus M) (map : List (ℕ × MsgStatus M))
      → find_status k (set_status d s map)
        ≡ elim (find_status k map) [ none ↦ none | some t ↦ if d == k then some s else some t ]
  unfolding find_status set_status
  find-set_status d k s [] = refl
  find-set_status d k s ((j, t) ∷ rest) = ground (arith, find-set_status d k s rest)

  abbrev pub Queued :
      M
      → Bool
      → ℕ
      → ℕ
      → List (ℕ × MsgStatus M)
      → Option (MsgStatus M)
      → List (ℕ × MsgStatus M) × List M
      → Type 0
  Queued m packs d k map none (map', out) = (map' ≡ map) × (out ≡ m ∷ [])
  Queued m packs d k map (some s) (map', out) =
      (out ≡ [])
      × (msgs_of (find_status k map')
          ≡ (if packs && d == k then some (s.msgs ++ m ∷ []) else msgs_of (find_status k map)))

  find_same :
      (d k : ℕ) (map : List (ℕ × MsgStatus M))
      → (d == k) ≡ true
      → find_status k map ≡ find_status d map
  find_same d k map h = ground arith

  enqueue-Queued :
      (d : ℕ) (m : M) (packs : Bool) (k : ℕ) (map : List (ℕ × MsgStatus M))
      (found : Option (MsgStatus M))
      → find_status d map ≡ found
      → Queued m packs d k map found (enqueue d m packs map found)
  unfolding enqueue
  enqueue-Queued d m packs k map none h = ground arith
  enqueue-Queued d m packs k map (some s) h =
      ground
        (arith, find_same d k map, find-set_status d k (record s { msgs = s.msgs ++ m ∷ [] }) map)

  -- A message for a switch without a limit goes to the verifier and no queue changes; one for a
  -- switch with a limit goes nowhere at once, and is at the end of the queue of that switch if it
  -- could be packed, with every other queue as it was.
  pub send_impl-Queued :
      (d : ℕ) (m : M) (packs : Bool) (k : ℕ) (map : List (ℕ × MsgStatus M))
      → Queued m packs d k map (find_status d map) (send_impl d m packs map)
  unfolding send_impl
  send_impl-Queued d m packs k map = enqueue-Queued d m packs k map (find_status d map) refl
