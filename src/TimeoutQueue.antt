-- ===== src/TimeoutQueue.antt =====
-- dev_root/client_lib/src/backends/rdma/rdma_timeout_queue.{h,cc}: a doubly linked list inside a
-- vector, newest entry at the head. The links are `int`s of which only -1 is negative: `none` here.
-- A time point is a number of nanoseconds of the steady clock, `timeout` a number of milliseconds;
-- neither reaches 2 ^ 63. An index outside the vector is undefined behaviour.
pub mod Order
pub mod Represents
pub mod Remove
pub mod Push
pub mod Check
pub mod Backoff
mod Tests
use p4app_switch_ml.Prelude.{
  ℕ, ◌+◌, ◌-◌, ◌*◌, ◌/◌, ◌%◌, Bool, true, false, not, ltb, ◌==◌, if◌then◌else◌, Option, none, some,
  update, u32_mod, u64_mod,
}
use p4app_switch_ml.Outcome.{Outcome, ok, fatal, undefined, crash_if, ◌>>=◌, ◌>>◌}

pub record TqEntry : Type 0 where
  pub valid : Bool
  pub next : Option ℕ
  pub previous : Option ℕ
  pub timestamp : ℕ

-- `entries` is a vector of `num_entries` entries.
pub record TimeoutQueue : Type 0 where
  pub num_entries : ℕ
  pub entries : ℕ → TqEntry
  pub head : Option ℕ
  pub tail : Option ℕ
  pub timeout : ℕ
  pub timeouts_counter : ℕ
  pub timeouts_threshold : ℕ
  pub timeouts_threshold_increment : ℕ

unfoldable pub new_entry : TqEntry
new_entry = record { valid = false; next = none; previous = none; timestamp = 0 }

-- The constructor.
unfoldable pub new_queue : ℕ → ℕ → ℕ → ℕ → TimeoutQueue
unfolding new_entry
new_queue num_entries timeout threshold increment = record {
  num_entries = num_entries;
  entries = λ i. new_entry;
  head = none;
  tail = none;
  timeout = timeout;
  timeouts_counter = 0;
  timeouts_threshold = threshold;
  timeouts_threshold_increment = increment;
}

-- `==` on links.
abbrev pub same_link : Option ℕ → Option ℕ → Bool
same_link none none = true
same_link (some a) (some b) = a == b
same_link _ _ = false

-- `entries_[link].next = v` and `entries_[link].previous = v`, where the link is not -1.
abbrev pub set_next : (ℕ → TqEntry) → Option ℕ → Option ℕ → ℕ → TqEntry
set_next e none v = e
set_next e (some p) v = update e p (record (e p) { next = v })

abbrev pub set_previous : (ℕ → TqEntry) → Option ℕ → Option ℕ → ℕ → TqEntry
set_previous e none v = e
set_previous e (some p) v = update e p (record (e p) { previous = v })

-- The body of `Remove`, statement by statement, for an entry that is valid.
unfoldable pub unlink : TimeoutQueue → ℕ → TimeoutQueue
unlink q i =
    let e1 = set_next q.entries (q.entries i).previous (q.entries i).next in
    let e2 = set_previous e1 (e1 i).next (e1 i).previous in
    record q {
      head = if same_link q.head (some i) then (e2 i).next else q.head;
      tail = if same_link q.tail (some i) then (e2 i).previous else q.tail;
      entries = update e2 i (record (e2 i) { next = none; previous = none; valid = false });
    }

unfoldable pub remove : TimeoutQueue → ℕ → Outcome TimeoutQueue
unfolding unlink
remove q i = do
  crash_if (not (ltb i q.num_entries)) undefined
  ok (if (q.entries i).valid then unlink q i else q)

abbrev pub is_older : ℕ → (ℕ → TqEntry) → Option ℕ → Bool
is_older timestamp e none = false
is_older timestamp e (some h) = ltb timestamp (e h).timestamp

-- `Push` after the call of `Remove`.
unfoldable pub link_front : TimeoutQueue → ℕ → ℕ → TimeoutQueue
link_front q i timestamp =
    let e1 =
      update q.entries i
        (record { valid = true; previous = none; next = q.head; timestamp = timestamp }) in
    record q {
      entries = set_previous e1 q.head (some i);
      head = some i;
      tail = if same_link q.tail none then some i else q.tail;
    }

unfoldable pub push : TimeoutQueue → ℕ → ℕ → Outcome TimeoutQueue
unfolding link_front
push q i timestamp = do
  crash_if (is_older timestamp q.entries q.head) fatal
  q' ← remove q i
  ok (link_front q' i timestamp)

-- `duration_cast<milliseconds>(now - then)`; a negative interval is over no timeout, nor is 0.
abbrev pub interval : ℕ → ℕ → ℕ
interval now before = (now - before) / 1_000_000

-- The timeout is a count of milliseconds in 63 bits and a sign: a doubling beyond that is undefined in the
-- source, and nothing is proved of it.
-- What `Check` does to the counters when the oldest entry has timed out.
unfoldable pub count_timeout : TimeoutQueue → TimeoutQueue
count_timeout q =
    let counter = (q.timeouts_counter + 1) % u32_mod in
    if ltb q.timeouts_threshold counter
    then record q {
      timeouts_counter = 0;
      timeout = q.timeout * 2 % u64_mod;
      timeouts_threshold = (q.timeouts_threshold + q.timeouts_threshold_increment) % u32_mod;
    }
    else record q { timeouts_counter = counter }

check_tail : TimeoutQueue → ℕ → Option ℕ → Option ℕ × TimeoutQueue
unfolding count_timeout
check_tail q now none = (none, q)
check_tail q now (some i) =
    if ltb q.timeout (interval now (q.entries i).timestamp)
    then (some i, count_timeout q)
    else (none, q)

-- `Check` returns the index of the entry that timed out first, or -1.
unfoldable pub check : TimeoutQueue → ℕ → Option ℕ × TimeoutQueue
unfolding check_tail
check q now = check_tail q now q.tail
