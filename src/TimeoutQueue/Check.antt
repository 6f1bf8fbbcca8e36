-- ===== src/TimeoutQueue/Check.antt =====
-- `TimeoutQueue::Check`: which entry it reports.
use p4app_switch_ml.Prelude.{
  ℕ, ◌+◌, ◌%◌, ◌≤◌, ◌<◌, ◌≡◌, refl, ◌∙◌, ap, ltb, ltb→lt, ltb→le, Bool-cases, inl, inr,
  if◌then◌else◌, [], ◌∷◌, Option, none, some, some_inj, All, arith, u32_mod,
}
use p4app_switch_ml.TimeoutQueue.{TimeoutQueue, interval, count_timeout, check}
use p4app_switch_ml.TimeoutQueue.Order.{last_of}
use p4app_switch_ml.TimeoutQueue.Represents.{Represents, Stamped, Stamps, keys, AtMost}

-- The entry at the oldest end, below `x`.
abbrev pub oldest_from : ℕ × ℕ → Stamped → ℕ × ℕ
oldest_from x [] = x
oldest_from x (y ∷ xs) = oldest_from y xs

abbrev pub oldest : Stamped → Option (ℕ × ℕ)
oldest [] = none
oldest (x ∷ xs) = some (oldest_from x xs)

abbrev pub NotBefore : ℕ → Stamped → Type 0
NotBefore s = All (λ x. s ≤ x.1)

last-oldest : (x : ℕ × ℕ) (xs : Stamped) → last_of (some x.0) (keys xs) ≡ some (oldest_from x xs).0
last-oldest x [] = refl
last-oldest x (y ∷ xs) = last-oldest y xs

oldest_from-NotBefore :
    (x : ℕ × ℕ) (xs : Stamped)
    → AtMost x.1 xs
    → ((oldest_from x xs).1 ≤ x.1) × NotBefore (oldest_from x xs).1 xs
oldest_from-NotBefore x [] a = (omega arith, tt)
oldest_from-NotBefore x (y ∷ xs) a =
    let (le, rest) = oldest_from-NotBefore y xs a.1 in (omega arith, (le, rest))

oldest_stamp :
    (q : TimeoutQueue) (x : ℕ × ℕ) (xs : Stamped)
    → Stamps q.entries (x ∷ xs)
    → (q.entries (oldest_from x xs).0).timestamp ≡ (oldest_from x xs).1
oldest_stamp q x [] h = h.0
oldest_stamp q x (y ∷ xs) h = oldest_stamp q y xs h.1

-- `Check` looks at the oldest entry of the list alone.
abbrev pub check_list : TimeoutQueue → ℕ → Option (ℕ × ℕ) → Option ℕ × TimeoutQueue
check_list q now none = (none, q)
check_list q now (some (i, s)) =
    if ltb q.timeout (interval now s) then (some i, count_timeout q) else (none, q)

check-oldest :
    (q : TimeoutQueue) (xs : Stamped) (now : ℕ)
    → Represents q xs
    → check q now ≡ check_list q now (oldest xs)
unfolding check
check-oldest q [] now r = rw r.tail_eq
check-oldest q (x ∷ xs) now r = rw (r.tail_eq ∙ last-oldest x xs, oldest_stamp q x xs r.stamps)

interval_anti : (now s t : ℕ) → s ≤ t → interval now t ≤ interval now s
interval_anti now s t h = omega arith

calm :
    (now s b : ℕ) (xs : Stamped)
    → NotBefore s xs
    → interval now s ≤ b
    → All (λ x. interval now x.1 ≤ b) xs
calm now s b [] n h = tt
calm now s b (x ∷ xs) n h = (omega (arith, interval_anti now s x.1 n.0), calm now s b xs n.1 h)

count_timeout-Represents :
    (q : TimeoutQueue) (xs : Stamped) → Represents q xs → Represents (count_timeout q) xs
unfolding count_timeout
count_timeout-Represents q xs r =
    elim (Bool-cases (ltb q.timeouts_threshold ((q.timeouts_counter + 1) % u32_mod))) [
      | inl over ↦ rw over (same_list _ refl refl refl refl)
      | inr under ↦ rw under (same_list _ refl refl refl refl)
    ]
  where
    same_list :
        (p : TimeoutQueue)
        → p.entries ≡ q.entries
        → p.num_entries ≡ q.num_entries
        → p.head ≡ q.head
        → p.tail ≡ q.tail
        → Represents p xs
    same_list p e n h t = record {
      distinct = r.distinct;
      in_range = rw n r.in_range;
      marks = rw e r.marks;
      nexts = rw e r.nexts;
      prevs = rw e r.prevs;
      stamps = rw e r.stamps;
      head_eq = h ∙ r.head_eq;
      tail_eq = t ∙ r.tail_eq;
      newest_first = r.newest_first;
    }

oldest_eq : (x : ℕ × ℕ) (i : ℕ) → x.0 ≡ i → some x ≡ some (i, x.1)
oldest_eq x i e = ap (λ k. some (k, x.1)) e

-- On a queue that stands for a list, `Check` reports no entry only if no entry of the list is
-- older than the timeout; the index that it reports is that of an entry which is, and than which
-- none of the list is older. The list stays as it was.
pub check_finds_oldest :
    (q : TimeoutQueue) (xs : Stamped) (now : ℕ)
    → Represents q xs
    → ((check q now).0 ≡ none → All (λ x. interval now x.1 ≤ q.timeout) xs)
      × ((i : ℕ)
          → (check q now).0 ≡ some i
          → (s : ℕ) × (oldest xs ≡ some (i, s)) × (q.timeout < interval now s) × NotBefore s xs)
      × Represents (check q now).1 xs
check_finds_oldest q [] now r = rw (check-oldest q [] now r) ((λ h. tt), (λ i h. cc), r)
check_finds_oldest q (x ∷ xs) now r =
    let bounds = oldest_from-NotBefore x xs r.newest_first in
    let old = oldest_from x xs in
    elim (Bool-cases (ltb q.timeout (interval now old.1))) [
      | inl late ↦
          rw (check-oldest q (x ∷ xs) now r, late)
            (
              (λ h. cc),
              (λ i h. (old.1, oldest_eq old i (some_inj h), ltb→lt _ _ late, bounds)),
              count_timeout-Represents q (x ∷ xs) r,
            )
      | inr early ↦
          rw (check-oldest q (x ∷ xs) now r, early)
            ((λ h. calm now old.1 q.timeout (x ∷ xs) bounds (ltb→le _ _ early)), (λ i h. cc), r)
    ]
