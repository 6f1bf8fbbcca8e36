-- ===== src/TimeoutQueue/Backoff.antt =====
-- The back-off of `TimeoutQueue::Check`: the timeout doubles once the timeouts exceed the threshold.
use p4app_switch_ml.Prelude.{
  ℕ, zero, suc, ◌+◌, ◌*◌, ◌^◌, ◌≤◌, ◌<◌, ◌≡◌, refl, ◌∙◌, ap, arith, u32_mod, u64_mod,
}
use native.Mathlib.Nat.{zero-add, suc-add, pow-suc, one-le-pow, mul-le-mul_left, mod-eq_of_lt}
use p4app_switch_ml.TimeoutQueue.{TimeoutQueue, count_timeout}

abbrev pub repeat : ℕ → (TimeoutQueue → TimeoutQueue) → TimeoutQueue → TimeoutQueue
repeat zero f q = q
repeat (suc n) f q = repeat n f (f q)

-- How many timeouts the next `r` doublings take.
unfoldable pub round_length : ℕ → ℕ → ℕ → ℕ
round_length threshold step zero = 0
round_length threshold step (suc r) = suc threshold + round_length (threshold + step) step r

repeat-add :
    (m n : ℕ) (f : TimeoutQueue → TimeoutQueue) (q : TimeoutQueue)
    → repeat (m + n) f q ≡ repeat n f (repeat m f q)
repeat-add zero n f q = rw zero-add
repeat-add (suc m) n f q = rw suc-add (repeat-add m n f (f q))

repeat_last :
    (n : ℕ) (f : TimeoutQueue → TimeoutQueue) (q : TimeoutQueue)
    → repeat (suc n) f q ≡ f (repeat n f q)
repeat_last zero f q = refl
repeat_last (suc n) f q = repeat_last n f (f q)

-- A timeout that does not exceed the threshold is only counted.
count-below :
    (q : TimeoutQueue)
    → q.timeouts_counter < q.timeouts_threshold
    → q.timeouts_threshold < u32_mod
    → count_timeout q ≡ record q { timeouts_counter = q.timeouts_counter + 1 }
unfolding count_timeout
count-below q h small = ground arith

count_up :
    (k : ℕ) (q : TimeoutQueue)
    → q.timeouts_counter + k ≤ q.timeouts_threshold
    → q.timeouts_threshold < u32_mod
    → repeat k count_timeout q ≡ record q { timeouts_counter = q.timeouts_counter + k }
count_up zero q h small = ground arith
count_up (suc k) q h small = rw (count-below q (omega arith) small) (
    count_up k (record q { timeouts_counter = q.timeouts_counter + 1 }) (omega arith) small
    ∙ ground arith)

-- The timeout that exceeds the threshold.
count_over :
    (q : TimeoutQueue)
    → q.timeouts_counter ≡ q.timeouts_threshold
    → q.timeouts_threshold + q.timeouts_threshold_increment + 1 < u32_mod
    → q.timeout * 2 < 2 ^ 63
    → count_timeout q ≡ record q {
      timeouts_counter = 0;
      timeout = q.timeout * 2;
      timeouts_threshold = q.timeouts_threshold + q.timeouts_threshold_increment;
    }
unfolding count_timeout
count_over q h small short =
    rw (mod-eq_of_lt {n = q.timeout * 2} {m = u64_mod} (omega (arith, short))) (ground arith)

one_round :
    (q : TimeoutQueue)
    → q.timeouts_counter ≡ 0
    → q.timeouts_threshold + q.timeouts_threshold_increment + 1 < u32_mod
    → q.timeout * 2 < 2 ^ 63
    → repeat (suc q.timeouts_threshold) count_timeout q ≡ record q {
      timeouts_counter = 0;
      timeout = q.timeout * 2;
      timeouts_threshold = q.timeouts_threshold + q.timeouts_threshold_increment;
    }
one_round q zero_count small short =
    repeat_last q.timeouts_threshold count_timeout q
    ∙ ap count_timeout (count_up q.timeouts_threshold q (omega arith) (omega arith))
    ∙ count_over (record q { timeouts_counter = q.timeouts_counter + q.timeouts_threshold })
        (omega arith) small short

abbrev with_counters : TimeoutQueue → ℕ → ℕ → ℕ → TimeoutQueue
with_counters q counter timeout threshold = record q {
  timeouts_counter = counter;
  timeout = timeout;
  timeouts_threshold = threshold;
}

same_counters :
    (q : TimeoutQueue) (c t h t' h' : ℕ)
    → t ≡ t'
    → h ≡ h'
    → with_counters q c t h ≡ with_counters q c t' h'
same_counters q c t h t' h' e f = cc

-- Starting with no timeout counted, and as long as the threshold fits 32 bits and the doubled
-- timeout 63, the timeout has been
-- doubled exactly `r` times after the first `threshold + 1` timeouts, the next
-- `threshold + increment + 1`, and so on for `r` rounds; the threshold has grown by the increment
-- in each, and the count is zero again.
pub backoff_rounds :
    (r : ℕ) (q : TimeoutQueue)
    → q.timeouts_counter ≡ 0
    → q.timeouts_threshold + r * q.timeouts_threshold_increment + 1 < u32_mod
    → q.timeout * 2 ^ r < 2 ^ 63
    → repeat (round_length q.timeouts_threshold q.timeouts_threshold_increment r) count_timeout q
      ≡ record q {
        timeouts_counter = 0;
        timeout = q.timeout * 2 ^ r;
        timeouts_threshold = q.timeouts_threshold + r * q.timeouts_threshold_increment;
      }
unfolding round_length
backoff_rounds zero q zero_count small short =
    ap (λ c. record q { timeouts_counter = c }) zero_count
    ∙ same_counters q 0 _ _ _ _ (omega arith) (omega arith)
backoff_rounds (suc r) q zero_count small short =
    let shifted : q.timeout * 2 ^ suc r ≡ q.timeout * 2 * 2 ^ r = rw (pow-suc 2 r) (grind arith) in
    let least =
      mul-le-mul_left {m = 1} {n = 2 ^ r} (q.timeout * 2) (one-le-pow r 2 (omega arith)) in
    let fits : q.timeout * 2 * 2 ^ r < 2 ^ 63 = omega (arith, shifted, short) in
    let once : q.timeout * 2 < 2 ^ 63 = omega (arith, least, fits) in
    let step = q.timeouts_threshold_increment in
    let q1 = record q {
      timeouts_counter = 0;
      timeout = q.timeout * 2;
      timeouts_threshold = q.timeouts_threshold + step;
    } in
    rw
      (
        repeat-add (suc q.timeouts_threshold) (round_length (q.timeouts_threshold + step) step r)
            count_timeout q,
        one_round q zero_count (grind arith) once,
      )
      (backoff_rounds r q1 refl (grind arith) fits
        ∙ same_counters q 0 _ _ _ _ (rw (pow-suc 2 r) (grind arith)) (grind arith))
