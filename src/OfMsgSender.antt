-- ===== src/OfMsgSender.antt =====
-- src/core/OFMsgSender.cc, OFMsgSender.hpp: messages to a switch go out in packs, each pack behind a
-- barrier, and the size of a pack follows the replies. A message is of a type `M`. What the switch
-- connection does is an argument: whether a barrier request is taken, and, in a status, whether the
-- future of the last barrier waits, has its reply or holds an exception. Time is in milliseconds. The locks make each call one step,
-- and what the poller runs in another thread runs at once.
pub mod Packs
pub mod Decrease
pub mod Polling
mod Examples
use runos.Base.{
  ℕ, suc, ◌+◌, ◌-◌, ◌*◌, ◌/◌, ◌%◌, ◌^◌, ◌≡◌, Bool, true, false, not, ◌||◌, ◌&&◌, Option, none, some,
  List, [], ◌∷◌, ◌++◌, ltb, leb, ◌==◌, if◌then◌else◌,
}

abbrev pub u32 : ℕ → ℕ
u32 n = n % 2 ^ 32

abbrev pub min_rate : ℕ
min_rate = 20

-- `boost::future<void> barrier`: not valid, valid and not ready, ready with a value, ready with an
-- exception.
pub data Barrier : Type 0 where
  invalid waiting replied failed : Barrier

pub record MsgStatus (M : Type 0) : Type 0 where
  pub limit : ℕ
  pub sent : ℕ
  pub msgs : List M
  pub barrier : Barrier
  pub updated : ℕ
  pub additive_ratio : ℕ
  pub multiplicative_ratio : ℕ

module _ {M : Type 0} where
  -- `taken` is whether the agent accepts the request; otherwise it throws request_error.
  pub send_barrier : Bool → ℕ → MsgStatus M → MsgStatus M
  send_barrier taken now s = record s {
    barrier = if taken then waiting else s.barrier;
    updated = now;
  }

  abbrev pub also_sent : M → List M × List M × ℕ × Bool → List M × List M × ℕ × Bool
  also_sent m r = (m ∷ r.0, r.1, r.2, r.3)

  -- The loop of `send_pack`: what is sent, what stays queued, the counter, and whether the limit was
  -- reached.
  pub send_loop : ℕ → ℕ → ℕ → List M → List M × List M × ℕ × Bool
  send_loop limit in_pack sent [] = ([], [], sent, false)
  send_loop limit in_pack sent (m ∷ ms) =
      let further = also_sent m (send_loop limit (u32 (in_pack + 1)) (u32 (sent + 1)) ms) in
      if not (ltb in_pack limit && ltb sent limit)
      then ([], m ∷ ms, sent, false)
      else if u32 (in_pack + 1) == limit || u32 (sent + 1) == limit
      then (m ∷ [], ms, 0, true)
      else further

  pub send_pack : Bool → ℕ → MsgStatus M → MsgStatus M × List M
  unfolding send_loop send_barrier
  send_pack taken now s =
      let (out, rest, n, reached) = send_loop s.limit 0 s.sent s.msgs in
      let s' = record s { msgs = rest; sent = n } in
      (if reached then send_barrier taken now s' else s', out)

  pub add_increase : MsgStatus M → MsgStatus M
  add_increase s = record s { limit = u32 (s.limit + s.additive_ratio) }

  -- `none` is the division by a ratio of zero.
  pub mult_decrease : MsgStatus M → Option (MsgStatus M)
  mult_decrease s =
      if leb (u32 (s.multiplicative_ratio * min_rate)) s.limit
      then (if s.multiplicative_ratio == 0
          then none
          else some (record s { limit = s.limit / s.multiplicative_ratio }))
      else some (record s { limit = min_rate })

  -- No reply yet: after the wait interval the limit falls and a new barrier is asked for.
  pub poll_waiting : ℕ → Bool → ℕ → MsgStatus M → Option (MsgStatus M × List M)
  unfolding mult_decrease send_barrier
  poll_waiting wait_interval taken now s =
      if ltb (s.updated + wait_interval) now
      then (elim (mult_decrease s) [ none ↦ none | some s' ↦ some (send_barrier taken now s', []) ])
      else some (s, [])

  -- `barrier.get()` throws what the future holds, out of the round: `none`, too.
  pub poll_by : Barrier → ℕ → Bool → ℕ → MsgStatus M → Option (MsgStatus M × List M)
  unfolding send_pack add_increase poll_waiting
  poll_by invalid wait_interval taken now s = some (send_pack taken now s)
  poll_by failed wait_interval taken now s = none
  poll_by replied wait_interval taken now s =
      some (send_pack taken now (add_increase (record s { barrier = invalid })))
  poll_by waiting wait_interval taken now s = poll_waiting wait_interval taken now s

  abbrev pub queue_empty : List M → Bool
  queue_empty [] = true
  queue_empty (m ∷ ms) = false

  -- One round of `polling` for one switch.
  pub poll_status : ℕ → Bool → ℕ → MsgStatus M → Option (MsgStatus M × List M)
  unfolding poll_by
  poll_status wait_interval taken now s =
      if queue_empty s.msgs then some (s, []) else poll_by s.barrier wait_interval taken now s

  -- `status_map` is a list of pairs of a dpid and its status.
  pub find_status : ℕ → List (ℕ × MsgStatus M) → Option (MsgStatus M)
  find_status d [] = none
  find_status d ((k, s) ∷ rest) = if k == d then some s else find_status d rest

  pub set_status : ℕ → MsgStatus M → List (ℕ × MsgStatus M) → List (ℕ × MsgStatus M)
  set_status d s [] = []
  set_status d s ((k, t) ∷ rest) =
      let others = set_status d s rest in if k == d then (k, s) ∷ rest else (k, t) ∷ others

  pub new_status : ℕ → ℕ → ℕ → MsgStatus M
  new_status limit add mult = record {
    limit = limit;
    sent = 0;
    msgs = [];
    barrier = invalid;
    updated = 0;
    additive_ratio = add;
    multiplicative_ratio = mult;
  }

  -- `limit` is the property `ofmsg_limit` where it is set and positive; `emplace` keeps an entry
  -- that is there.
  pub switch_up : ℕ → Option ℕ → ℕ → ℕ → List (ℕ × MsgStatus M) → List (ℕ × MsgStatus M)
  unfolding find_status new_status
  switch_up d none add mult map = map
  switch_up d (some limit) add mult map = elim (find_status d map) [
    | some s ↦ map
    | none ↦ if limit == 0 then map else (d, new_status (u32 limit) (u32 add) (u32 mult)) ∷ map
  ]

  pub switch_down : ℕ → List (ℕ × MsgStatus M) → List (ℕ × MsgStatus M)
  switch_down d [] = []
  switch_down d ((k, s) ∷ rest) =
      let others = switch_down d rest in if k == d then others else (k, s) ∷ others

  pub enqueue :
      ℕ → M → Bool → List (ℕ × MsgStatus M) → Option (MsgStatus M) → List (ℕ × MsgStatus M) × List M
  unfolding set_status
  enqueue d msg packs map none = (map, msg ∷ [])
  enqueue d msg packs map (some s) =
      (if packs then set_status d (record s { msgs = s.msgs ++ msg ∷ [] }) map else map, [])

  -- The second part is what goes to the verifier at once. `packs` is whether `msg.pack` succeeds.
  pub send_impl : ℕ → M → Bool → List (ℕ × MsgStatus M) → List (ℕ × MsgStatus M) × List M
  unfolding find_status enqueue
  send_impl d msg packs map = enqueue d msg packs map (find_status d map)
