-- ===== src/Scheduler/Tables.antt =====
-- `std::unordered_map<JobId, int>`, as the scheduler uses it: `insert` keeps what is there, `at`
-- throws where there is nothing.
use p4app_switch_ml.Prelude.{ℕ, ◌==◌, if◌then◌else◌, Option, none, some}
use p4app_switch_ml.Outcome.{Outcome, ok, crash, out_of_range}

abbrev pub Counters : Type 0
Counters = ℕ → Option ℕ

abbrev pub empty : Counters
empty j = none

abbrev pub put : Counters → ℕ → ℕ → Counters
put m k v j = if j == k then some v else m j

abbrev pub kept : Option ℕ → ℕ → Option ℕ
kept none v = some v
kept (some w) v = some w

abbrev pub insert : Counters → ℕ → ℕ → Counters
insert m k v j = if j == k then kept (m k) v else m j

abbrev pub erase : Counters → ℕ → Counters
erase m k j = if j == k then none else m j

abbrev pub found : Option ℕ → Outcome ℕ
found none = crash out_of_range
found (some v) = ok v

abbrev pub at : Counters → ℕ → Outcome ℕ
at m k = found (m k)
