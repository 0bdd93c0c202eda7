-- ===== src/OfAgent/Examples.antt =====
-- Items, matches and mods are numbers.
use runos.Base.{ℕ, ◌+◌, ◌≡◌, refl, true, none, List, [], ◌∷◌, ◌++◌}
use runos.OfAgent.Sessions.{
  barrier_session, no_respond_session, flow_stat_seq_session, done, Session, OfAgent, new_session,
  find_in, has_barrier,
}
use runos.OfAgent.Visitors.{error, barrier_reply, process}
use runos.OfAgent.Requests.{Call, barrier, request_port_stats, flow_mod, call}
use runos.OfAgent.Honest.{settled, pending, tidy}
use runos.OfAgent.Promises.{Event, calls, receives, run, opened, refused, run_settles_once}
use runos.OfAgent.Barriers.{
  all_open, all_overtaken, barrier_settles, barrier_leaves_one, Blocked, error_blocks,
}
use runos.OfAgent.Answering.{flows, receive_parts, Collected, parts_collected}
use runos.OfAgent.Replying.{Replied, reply_to, value_to, call-Replied}

abbrev idle : OfAgent ℕ
idle = record { tasks = []; next_xid = 65536 }

abbrev mod_then_barrier : List (Event ℕ ℕ ℕ)
mod_then_barrier =
    calls (flow_mod 4) true
    ∷ calls barrier true
    ∷ receives (error 65536 5 1)
    ∷ receives (barrier_reply 65537)
    ∷ []

run_settles_once_example :
    settled 65537 (run mod_then_barrier idle).1 + pending 65537 (run mod_then_barrier idle).0.tasks
    ≡ pending 65537 idle.tasks + opened 65537 mod_then_barrier idle
unfolding tidy
run_settles_once_example = run_settles_once 65537 mod_then_barrier idle refl

abbrev modded : Session ℕ
modded = new_session no_respond_session 65536

abbrev asked : Session ℕ
asked = new_session flow_stat_seq_session 65540

abbrev fence : Session ℕ
fence = new_session barrier_session 65541

barrier_settles_example :
    process (barrier_reply 65541) (record idle { tasks = (modded ∷ asked ∷ []) ++ fence ∷ [] })
    ≡ record {
      agent = idle;
      outcomes = all_overtaken (modded ∷ asked ∷ []) ++ (65541, done) ∷ [];
      thrown = none;
    }
unfolding has_barrier all_open
barrier_settles_example =
    barrier_settles 65541 (modded ∷ asked ∷ []) fence [] idle refl refl refl refl

abbrev busy : OfAgent ℕ
busy = record { tasks = modded ∷ []; next_xid = 65537 }

barrier_leaves_one_example :
    process (barrier_reply 65537) (call {M = ℕ} {C = ℕ} barrier true busy).agent ≡ record {
      agent = record { tasks = new_session barrier_session 65537 ∷ []; next_xid = 65538 };
      outcomes = all_overtaken (modded ∷ []) ++ (65537, done) ∷ [];
      thrown = none;
    }
unfolding has_barrier all_open
barrier_leaves_one_example = barrier_leaves_one ℕ ℕ busy refl refl

error_blocks_example :
    Blocked 65541
      (all_overtaken (asked ∷ []))
      (process (error 65536 5 1) (record idle { tasks = (asked ∷ []) ++ modded ∷ fence ∷ [] }))
unfolding has_barrier all_open find_in
error_blocks_example =
    error_blocks 65541 5 1 (asked ∷ []) modded (fence ∷ []) idle refl refl refl refl refl refl refl

parts_collected_example :
    receive_parts flows 65540
      ((1 ∷ 2 ∷ []) ∷ [] ∷ [])
      (3 ∷ [])
      (record idle { tasks = modded ∷ asked ∷ [] })
    ≡ Collected 65540
        ((1 ∷ 2 ∷ []) ∷ [] ∷ [])
        (3 ∷ [])
        (record idle { tasks = modded ∷ asked ∷ [] })
        asked
unfolding find_in
parts_collected_example =
    parts_collected flows 65540 ((1 ∷ 2 ∷ []) ∷ [] ∷ []) (3 ∷ [])
      (record idle { tasks = modded ∷ asked ∷ [] }) asked refl refl refl refl refl

abbrev port_call : Call ℕ ℕ
port_call = request_port_stats 2

call-Replied_example :
    Replied busy
      (value_to port_call 9)
      (call port_call true busy).agent
      (reply_to port_call 65537 9)
unfolding find_in refused
call-Replied_example = call-Replied port_call 9 busy refl refl refl
