-- ===== src/Topology/Counting.antt =====
-- The counters of a path against the number of its links that are down.
use runos.Base.{
  ℕ, ◌+◌, ◌-◌, ◌<◌, ◌≡◌, Bool, true, false, not, ◌||◌, ◌&&◌, List, [], ◌∷◌, ◌==◌, ltb,
  if◌then◌else◌, arith,
}
use runos.Topology.Paths.{
  RoutePath, TriggerFlag, broken, maintenance, drop, util, no_flag, activate_trigger,
  inactivate_trigger, timeout, get_trigger,
}

-- The flags whose links are counted.
abbrev pub counted : TriggerFlag → Bool
counted broken = true
counted maintenance = true
counted _ = false

abbrev pub links_of : TriggerFlag → RoutePath → ℕ
links_of broken p = p.broken_links
links_of maintenance p = p.maintn_links
links_of _ p = 0

-- `n` links of the path are down. A running timer stands for one more, which has just come back.
abbrev pub Counts : TriggerFlag → ℕ → RoutePath → Type 0
Counts tf n p =
    (links_of tf p ≡ n + (if p.flapping_timers tf then 1 else 0))
    × (n < 255)
    × (p.triggers tf ≡ not (links_of tf p == 0))
    × ((p.flapping_timers tf && p.flap == 0) ≡ false)

-- What happens to the links of a path.
pub data LinkEvent : Type 0 where
  link_down link_up timer : LinkEvent

abbrev pub link_step : TriggerFlag → LinkEvent → RoutePath → RoutePath × Bool
link_step tf link_down p = activate_trigger tf p
link_step tf link_up p = inactivate_trigger tf p
link_step tf timer p = timeout tf p

-- The specification: only the number of links that are down, and whether an event can happen.
abbrev pub possible : TriggerFlag → LinkEvent → ℕ → RoutePath → Bool
possible tf link_down n p = ltb n 254
possible tf link_up n p = ltb 0 n
possible tf timer n p = p.flapping_timers tf

abbrev pub down_after : LinkEvent → ℕ → ℕ
down_after link_down n = n + 1
down_after link_up n = n - 1
down_after timer n = n

abbrev pub Stepped : TriggerFlag → LinkEvent → ℕ → RoutePath → RoutePath × Bool → Type 0
Stepped tf e n p (q, signal) =
    Counts tf (down_after e n) q
    × (signal ≡ (if p.triggers tf then not (q.triggers tf) else q.triggers tf))

pub link_step-Counts :
    (tf : TriggerFlag) (e : LinkEvent) (n : ℕ) (p : RoutePath)
    → counted tf ≡ true
    → Counts tf n p
    → possible tf e n p ≡ true
    → Stepped tf e n p (link_step tf e p)
unfolding activate_trigger inactivate_trigger timeout
link_step-Counts broken link_down n p h c o = ground (arith, c)
link_step-Counts broken link_up n p h c o = ground (arith, c)
link_step-Counts broken timer n p h c o = ground (arith, c)
link_step-Counts maintenance link_down n p h c o = ground (arith, c)
link_step-Counts maintenance link_up n p h c o = ground (arith, c)
link_step-Counts maintenance timer n p h c o = ground (arith, c)
link_step-Counts drop e n p h c o = ground arith
link_step-Counts util e n p h c o = ground arith
link_step-Counts no_flag e n p h c o = ground arith

-- A list of events from a path on, each of them possible where it happens.
unfoldable pub run_links : TriggerFlag → List LinkEvent → RoutePath → RoutePath
run_links tf [] p = p
run_links tf (e ∷ es) p = run_links tf es ((link_step tf e p).0)

unfoldable pub all_possible : TriggerFlag → List LinkEvent → ℕ → RoutePath → Bool
all_possible tf [] n p = true
all_possible tf (e ∷ es) n p =
    possible tf e n p && all_possible tf es (down_after e n) ((link_step tf e p).0)

unfoldable pub down_after_all : List LinkEvent → ℕ → ℕ
down_after_all [] n = n
down_after_all (e ∷ es) n = down_after_all es (down_after e n)

and_split : (a b : Bool) → (a && b) ≡ true → (a ≡ true) × (b ≡ true)
and_split a b h = ground arith

pub run_links-Counts :
    (tf : TriggerFlag) (es : List LinkEvent) (n : ℕ) (p : RoutePath)
    → counted tf ≡ true
    → Counts tf n p
    → all_possible tf es n p ≡ true
    → Counts tf (down_after_all es n) (run_links tf es p)
unfolding run_links all_possible down_after_all
run_links-Counts tf [] n p h c o = c
run_links-Counts tf (e ∷ es) n p h c o =
    let (now, later) =
      and_split (possible tf e n p) (all_possible tf es (down_after e n) ((link_step tf e p).0))
        o in
    let (c', s) = link_step-Counts tf e n p h c now in
    run_links-Counts tf es (down_after e n) ((link_step tf e p).0) h c' later

-- For a path of which no link is down and whose counter, trigger and timer agree, any sequence of
-- links going down, links coming up and flapping timers firing, with fewer than 255 links down at
-- once and none coming up that was not down, keeps the trigger of broken or of maintained links
-- active exactly while a link is down or the flapping timer runs.
pub run_links_active :
    (tf : TriggerFlag) (es : List LinkEvent) (p : RoutePath)
    → counted tf ≡ true
    → Counts tf 0 p
    → all_possible tf es 0 p ≡ true
    → get_trigger tf (run_links tf es p)
      ≡ (ltb 0 (down_after_all es 0) || (run_links tf es p).flapping_timers tf)
unfolding get_trigger
run_links_active tf es p h c o = let d = run_links-Counts tf es 0 p h c o in ground (arith, d)

-- On a path with no flapping and nothing broken, a link that comes up without having gone down, as
-- after the broken trigger is enabled while a link is down, wraps the counter, so that the next
-- break and repair leave the trigger active and the counter at 255.
pub stuck_trigger :
    (p : RoutePath)
    → p.flap ≡ 0
    → p.flapping_timers broken ≡ false
    → p.broken_links ≡ 0
    → p.triggers broken ≡ false
    → (let after = run_links broken (link_up ∷ link_down ∷ link_up ∷ []) p in
        (get_trigger broken after ≡ true) × (after.broken_links ≡ 255))
unfolding run_links activate_trigger inactivate_trigger get_trigger
stuck_trigger p f t b a = ground arith
