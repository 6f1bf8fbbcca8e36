-- ===== src/TimeoutQueue/Tests.antt =====
-- A queue of four entries in which 0, then 1 were pushed, and the theorems at it.
use p4app_switch_ml.Prelude.{ℕ, ◌≤◌, ◌<◌, ◌≡◌, refl, none, some, [], ◌∷◌, All, arith}
use p4app_switch_ml.Outcome.{ok, ◌>>=◌}
use p4app_switch_ml.TimeoutQueue.{
  TimeoutQueue, new_queue, link_front, remove, push, check, count_timeout, interval,
}
use p4app_switch_ml.TimeoutQueue.Represents.{Represents, Stamped, new_queue-Represents}
use p4app_switch_ml.TimeoutQueue.Remove.{SameTimeouts, remove_refines}
use p4app_switch_ml.TimeoutQueue.Push.{link_front-Represents, push_refines}
use p4app_switch_ml.TimeoutQueue.Check.{check_finds_oldest, oldest, NotBefore}
use p4app_switch_ml.TimeoutQueue.Backoff.{backoff_rounds, round_length, repeat}

-- A timeout of 10 milliseconds, doubled on the third one.
abbrev fresh : TimeoutQueue
fresh = new_queue 4 10 2 1

abbrev two : TimeoutQueue
two = link_front (link_front fresh 0 1_000_000) 1 5_000_000

abbrev two_list : Stamped
two_list = (1, 5_000_000) ∷ (0, 1_000_000) ∷ []

two-Represents : Represents two two_list
unfolding new_queue link_front
two-Represents =
    link_front-Represents
      (link_front-Represents (new_queue-Represents 4 10 2 1) 0 1_000_000 refl (omega arith) tt) 1
      5_000_000 refl (omega arith) (omega arith, tt)

-- Pushing 2, then 0 again, leaves 1 as the oldest; at 20 ms it has timed out.
runs :
    (push two 2 6_000_000 >>= λ q. push q 0 7_000_000 >>= λ p. ok (check p 20_000_000).0)
    ≡ ok (some 1)
unfolding new_queue link_front push check remove
runs = refl

remove_refines_example :
    (q : TimeoutQueue) × (remove two 0 ≡ ok q)
    × Represents q ((1, 5_000_000) ∷ [])
    × SameTimeouts two q
unfolding new_queue link_front
remove_refines_example = remove_refines two two_list 0 two-Represents (omega arith)

push_refines_example :
    (q : TimeoutQueue) × (push two 0 6_000_000 ≡ ok q)
    × Represents q ((0, 6_000_000) ∷ (1, 5_000_000) ∷ [])
    × SameTimeouts two q
unfolding new_queue link_front
push_refines_example =
    push_refines two two_list 0 6_000_000 two-Represents (omega arith) (omega arith)

check_finds_oldest_example :
    ((check two 20_000_000).0 ≡ none → All (λ x. interval 20_000_000 x.1 ≤ two.timeout) two_list)
    × ((i : ℕ)
        → (check two 20_000_000).0 ≡ some i
        → (s : ℕ) × (oldest two_list ≡ some (i, s))
          × (two.timeout < interval 20_000_000 s)
          × NotBefore s two_list)
    × Represents (check two 20_000_000).1 two_list
check_finds_oldest_example = check_finds_oldest two two_list 20_000_000 two-Represents

-- Two rounds: three timeouts, then four.
backoff_rounds_example :
    repeat (round_length 2 1 2) count_timeout fresh
    ≡ record fresh { timeouts_counter = 0; timeout = 40; timeouts_threshold = 4 }
unfolding new_queue
backoff_rounds_example = backoff_rounds 2 fresh refl (omega arith) (omega arith)
