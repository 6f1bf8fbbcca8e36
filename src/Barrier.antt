-- ===== src/Barrier.antt =====
-- The thread barrier of dev_root/client_lib/src/utils.h and utils.cc. `Wait` is two atomic parts,
-- since it gives up the mutex while it sleeps: `arrive`, and for a thread that is put to sleep the
-- predicate `may_leave` under which it goes on. `count_` is -1 after `Destroy` only: `none` here.
pub mod Threads
pub mod Rounds
pub mod Safety
mod Tests
use p4app_switch_ml.Prelude.{
  ℕ, ◌-◌, Bool, true, false, not, ◌||◌, ltb, if◌then◌else◌, eqb, Option, none, some,
}
use p4app_switch_ml.Outcome.{Outcome, ok, crash, fatal}

pub record Barrier : Type 0 where
  pub num_participants : ℕ
  pub count : Option ℕ
  pub flag : Bool

-- The constructor.
unfoldable pub new_barrier : ℕ → Barrier
new_barrier n = record { num_participants = n; count = some n; flag = false }

-- What `Wait` does first: the thread sleeps with its copy of the flag, or goes on at once.
pub data Arrival : Type 0 where
  sleeps : Bool → Arrival
  passes : Arrival

arrive_at : Barrier → Option ℕ → Outcome (Barrier × Arrival)
arrive_at b none = crash fatal
arrive_at b (some c) =
    if ltb 1 c
    then ok (record b { count = some (c - 1) }, sleeps b.flag)
    else ok (record b { flag = not b.flag; count = some b.num_participants }, passes)

unfoldable pub arrive : Barrier → Outcome (Barrier × Arrival)
unfolding arrive_at
arrive b = arrive_at b b.count

is_destroyed : Option ℕ → Bool
is_destroyed none = true
is_destroyed (some _) = false

-- The predicate of the condition variable: `count_ == -1 || flag_copy != flag_`.
unfoldable pub may_leave : Barrier → Bool → Bool
unfolding is_destroyed
may_leave b flag_copy = is_destroyed b.count || not (eqb flag_copy b.flag)

unfoldable pub destroy : Barrier → Barrier
destroy b = record b { count = none }
