-- ===== src/OfMsgSender/Examples.antt =====
-- A queue of numbers behind a limit of two.
use runos.Base.{ℕ, ◌≡◌, refl, true, [], ◌∷◌, arith}
use runos.OfMsgSender.{MsgStatus, invalid, send_pack, poll_status, send_loop}
use runos.OfMsgSender.Polling.{IsTuned, Polled, poll_status-Polled}

abbrev three_queued : MsgStatus ℕ
three_queued = record {
  limit = 2;
  sent = 0;
  msgs = 11 ∷ 12 ∷ 13 ∷ [];
  barrier = invalid;
  updated = 0;
  additive_ratio = 5;
  multiplicative_ratio = 2;
}

first_two : (send_pack true 40 three_queued).1 ≡ 11 ∷ 12 ∷ []
unfolding send_pack send_loop
first_two = refl

three_queued-IsTuned : IsTuned three_queued
three_queued-IsTuned = record {
  live = record { below = omega arith; limit_32 = omega arith };
  quiet = refl;
  ratio = omega arith;
  ratio_32 = omega arith;
  room = omega arith;
}

poll_status-Polled_example : Polled three_queued (poll_status 5000 true 40 three_queued)
poll_status-Polled_example = poll_status-Polled 5000 true 40 three_queued three_queued-IsTuned
