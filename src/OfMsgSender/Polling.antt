-- ===== src/OfMsgSender/Polling.antt =====
-- A round of polling for one switch.
use runos.Base.{
  ℕ, ◌+◌, ◌*◌, ◌^◌, ◌<◌, ◌≡◌, refl, Bool, true, false, not, ◌||◌, ◌&&◌, Option, none, some, List,
  [], ◌++◌, ◌==◌, arith,
}
use runos.OfMsgSender.{
  MsgStatus, Barrier, invalid, waiting, replied, failed, send_barrier, add_increase, mult_decrease,
  poll_by, poll_waiting, poll_status, queue_empty,
}
use runos.OfMsgSender.Packs.{IsLive, send_pack-Packed}
use runos.OfMsgSender.Decrease.{Decreased, mult_decrease-Decreased}

abbrev is_waiting : Barrier → Bool
is_waiting invalid = false
is_waiting waiting = true
is_waiting replied = false
is_waiting failed = false

abbrev is_failed : Barrier → Bool
is_failed failed = true
is_failed _ = false

module _ {M : Type 0} where
  -- The counter is zero behind a barrier without a reply; the ratios keep the limit in 32 bits.
  pub record IsTuned (s : MsgStatus M) : Type 0 where
    pub live : IsLive s
    pub quiet : (is_waiting s.barrier && not (s.sent == 0)) ≡ false
    pub ratio : 0 < s.multiplicative_ratio
    pub ratio_32 : s.multiplicative_ratio * 20 < 2 ^ 32
    pub room : s.limit + s.additive_ratio < 2 ^ 32

  abbrev pub Polled : MsgStatus M → Option (MsgStatus M × List M) → Type 0
  Polled s none = (is_failed s.barrier && not (queue_empty s.msgs)) ≡ true
  Polled s (some (s', out)) =
      ((is_failed s.barrier && not (queue_empty s.msgs)) ≡ false)
      × (out ++ s'.msgs ≡ s.msgs)
      × IsLive s'
      × ((queue_empty s.msgs || is_waiting s.barrier) ≡ queue_empty out)

  Decreased-Polled :
      (taken : Bool) (now : ℕ) (s : MsgStatus M) (r : Option (MsgStatus M))
      → IsTuned s
      → is_waiting s.barrier ≡ true
      → Decreased s r
      → Polled s (elim r [ none ↦ none | some s' ↦ some (send_barrier taken now s', []) ])
  unfolding send_barrier
  Decreased-Polled taken now s none v w d = absurd (ground (arith, d))
  Decreased-Polled taken now s (some t) v w (a, b, c, e) =
      ground (arith, v.live.below, v.live.limit_32, v.quiet)

  waiting-Polled :
      (wait_interval : ℕ) (taken : Bool) (now : ℕ) (s : MsgStatus M)
      → IsTuned s
      → is_waiting s.barrier ≡ true
      → Polled s (poll_waiting wait_interval taken now s)
  unfolding poll_waiting
  waiting-Polled wait_interval taken now s v w = ground (
    arith,
    v.live,
    Decreased-Polled taken now s (mult_decrease s) v w
        (mult_decrease-Decreased s v.ratio v.ratio_32),
  )

  poll_by-Polled :
      (b : Barrier) (wait_interval : ℕ) (taken : Bool) (now : ℕ) (s : MsgStatus M)
      → IsTuned s
      → s.barrier ≡ b
      → queue_empty s.msgs ≡ false
      → Polled s (poll_by b wait_interval taken now s)
  unfolding poll_by add_increase
  poll_by-Polled invalid wait_interval taken now s v h q =
      ground (arith, send_pack-Packed taken now s v.live)
  poll_by-Polled failed wait_interval taken now s v h q = ground (arith, h, q)
  poll_by-Polled replied wait_interval taken now s v h q = ground (
    arith,
    v.room,
    v.live.below,
    send_pack-Packed taken now (add_increase (record s { barrier = invalid })),
  )
  poll_by-Polled waiting wait_interval taken now s v h q =
      waiting-Polled wait_interval taken now s v (ground arith)

  -- A polling round for a switch with a limit above the messages sent behind the last barrier,
  -- none of them where the barrier waits, with a multiplicative ratio that is positive and a limit
  -- and ratios that do not overflow 32 bits, throws exactly where the queue is not empty and the
  -- future of the barrier holds an exception. Otherwise what it sends followed by what stays
  -- queued is the queue as it was, the limit stays above the counter, and it sends nothing exactly
  -- where the queue is empty or the barrier waits for its reply.
  pub poll_status-Polled :
      (wait_interval : ℕ) (taken : Bool) (now : ℕ) (s : MsgStatus M)
      → IsTuned s
      → Polled s (poll_status wait_interval taken now s)
  unfolding poll_status
  poll_status-Polled wait_interval taken now s v =
      ground (arith, v.live, poll_by-Polled s.barrier wait_interval taken now s v refl)
