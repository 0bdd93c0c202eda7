-- ===== src/OfMsgSender/Packs.antt =====
-- Packs of messages: order, size, and that a queue does not get stuck.
use runos.Base.{
  ℕ, ◌+◌, ◌^◌, ◌≤◌, ◌<◌, ◌≡◌, Bool, true, not, ◌||◌, List, [], ◌∷◌, ◌++◌, if◌then◌else◌, arith,
  length,
}
use runos.OfMsgSender.{MsgStatus, send_loop, send_pack, queue_empty}

module _ {M : Type 0} where
  abbrev Loops : ℕ → ℕ → ℕ → List M → List M × List M × ℕ × Bool → Type 0
  Loops limit k sent ms (out, rest, n, reached) =
      (out ++ rest ≡ ms)
      × (length out + k ≤ limit)
      × (n ≡ (if reached then 0 else sent + length out))
      × (n < limit)
      × ((reached || queue_empty rest) ≡ true)

  send_loop-Loops :
      (limit k sent : ℕ) (ms : List M)
      → limit < 2 ^ 32
      → k < limit
      → sent < limit
      → Loops limit k sent ms (send_loop limit k sent ms)
  unfolding send_loop
  send_loop-Loops limit k sent [] h a b = ground arith
  send_loop-Loops limit k sent (m ∷ ms) h a b =
      ground (arith, send_loop-Loops limit (k + 1) (sent + 1) ms h)

  -- The limit is a 32-bit number above what was sent since the last barrier.
  pub record IsLive (s : MsgStatus M) : Type 0 where
    pub below : s.sent < s.limit
    pub limit_32 : s.limit < 2 ^ 32

  abbrev pub Packed : MsgStatus M → MsgStatus M × List M → Type 0
  Packed s (s', out) =
      (out ++ s'.msgs ≡ s.msgs)
      × (length out ≤ s.limit)
      × IsLive s'
      × ((queue_empty s.msgs || not (queue_empty out)) ≡ true)

  -- Where the limit is a 32-bit number above the counter, send_pack sends a prefix of the queue of
  -- at most limit messages, leaves the rest in order and the limit above the counter, and sends
  -- something unless the queue is empty.
  pub send_pack-Packed :
      (taken : Bool) (now : ℕ) (s : MsgStatus M) → IsLive s → Packed s (send_pack taken now s)
  unfolding send_pack
  send_pack-Packed taken now s v = ground (arith, send_loop-Loops s.limit 0 s.sent s.msgs)
