-- ===== src/TimeoutQueue/Remove.antt =====
-- `TimeoutQueue::Remove` takes one entry out of the list that the queue stands for.
use p4app_switch_ml.Prelude.{
  ℕ, ◌<◌, ◌≡◌, refl, sym, ◌∙◌, ap, true, false, ◌==◌, ==→eq, ==_refl, lt→ltb, Bool-cases, inl, inr,
  none, elem, arith,
}
use p4app_switch_ml.Outcome.{ok}
use p4app_switch_ml.TimeoutQueue.{TimeoutQueue, unlink, remove}
use p4app_switch_ml.TimeoutQueue.Order.{
  Distinct-without, elem-without, first-without, next-without, prev-without, last-without,
  prev-next, next_of, prev_of,
}
use p4app_switch_ml.TimeoutQueue.Represents.{
  Represents, Stamped, keys, drop_key, keys-drop_key, drop_key_absent, NewestFirst-drop_key,
  Stamps-drop_key, unlink_next, unlink_previous, unlink_valid, unlink_timestamp, unlink_self,
  unlink_head, unlink_tail,
}

-- `Remove` of an entry that is in the list.
module _ {q : TimeoutQueue} {xs : Stamped} (r : Represents q xs) (i : ℕ)
    (here : elem i (keys xs) ≡ true) where
  in_rest :
      (j : ℕ)
      → elem j (keys (drop_key i xs)) ≡ true
      → ((j == i) ≡ false) × (elem j (keys xs) ≡ true)
  in_rest j h =
      ground (arith, ap (elem j) (keys-drop_key i xs), elem-without i j (keys xs) r.distinct)

  unlink_marks : (j : ℕ) → ((unlink q i).entries j).valid ≡ elem j (keys (drop_key i xs))
  unlink_marks j = elim (Bool-cases (j == i)) [
    | inl e ↦
        rw (==→eq j i e, keys-drop_key i xs, elem-without i i (keys xs) r.distinct, ==_refl i)
          (unlink_self q i)
    | inr ne ↦
        rw (keys-drop_key i xs, elem-without i j (keys xs) r.distinct, ne)
          (unlink_valid q i j ne ∙ r.marks j)
  ]

  unlink_nexts :
      (j : ℕ)
      → elem j (keys (drop_key i xs)) ≡ true
      → ((unlink q i).entries j).next ≡ next_of (keys (drop_key i xs)) j
  unlink_nexts j h =
      let (ne, old) = in_rest j h in
      rw (
        keys-drop_key i xs,
        unlink_next q i j ne,
        next-without i j (keys xs) r.distinct ne,
        r.prevs i here,
        r.nexts i here,
        r.nexts j old,
        prev-next none i j (keys xs) r.distinct here old refl,
      )

  unlink_prevs :
      (j : ℕ)
      → elem j (keys (drop_key i xs)) ≡ true
      → ((unlink q i).entries j).previous ≡ prev_of none (keys (drop_key i xs)) j
  unlink_prevs j h =
      let (ne, old) = in_rest j h in
      rw (
        keys-drop_key i xs,
        unlink_previous q i j ne,
        prev-without none i j (keys xs) r.distinct ne refl,
        r.prevs i here,
        r.nexts i here,
        r.prevs j old,
        prev-next none j i (keys xs) r.distinct old here refl,
      )

  unlink-Represents : Represents (unlink q i) (drop_key i xs)
  unfolding unlink
  unlink-Represents = record {
    distinct = rw (keys-drop_key i xs) (Distinct-without i (keys xs) r.distinct);
    in_range = λ j h. r.in_range j (in_rest j h).1;
    marks = unlink_marks;
    nexts = unlink_nexts;
    prevs = unlink_prevs;
    stamps =
        Stamps-drop_key q.entries (unlink q i).entries i xs r.distinct (unlink_timestamp q i)
          r.stamps;
    head_eq =
        rw (keys-drop_key i xs, first-without i (keys xs))
          (unlink_head q i ∙ rw (r.head_eq, r.nexts i here));
    tail_eq =
        rw (keys-drop_key i xs, last-without none i (keys xs) r.distinct refl)
          (unlink_tail q i ∙ rw (r.tail_eq, r.prevs i here));
    newest_first = NewestFirst-drop_key i xs r.newest_first;
  }

-- The fields that `Remove` leaves alone.
abbrev pub SameTimeouts : TimeoutQueue → TimeoutQueue → Type 0
SameTimeouts p q =
    (q.num_entries ≡ p.num_entries)
    × (q.timeout ≡ p.timeout)
    × (q.timeouts_counter ≡ p.timeouts_counter)
    × (q.timeouts_threshold ≡ p.timeouts_threshold)
    × (q.timeouts_threshold_increment ≡ p.timeouts_threshold_increment)

unlink-SameTimeouts : (q : TimeoutQueue) (i : ℕ) → SameTimeouts q (unlink q i)
unfolding unlink
unlink-SameTimeouts q i = (refl, refl, refl, refl, refl)

-- For an index of the vector, `Remove` on a queue that stands for a list returns with no fault, and
-- leaves a queue that stands for the list with that index taken out, or for the same list where
-- the index was not in it. The timeouts and their counters stay as they were.
pub remove_refines :
    (q : TimeoutQueue) (xs : Stamped) (i : ℕ)
    → Represents q xs
    → i < q.num_entries
    → (q' : TimeoutQueue) × (remove q i ≡ ok q') × Represents q' (drop_key i xs) × SameTimeouts q q'
unfolding remove
remove_refines q xs i r h = elim (Bool-cases (q.entries i).valid) [
  | inl old ↦ (
    unlink q i,
    rw (lt→ltb _ _ h, old),
    unlink-Represents r i (sym (r.marks i) ∙ old),
    unlink-SameTimeouts q i,
  )
  | inr new ↦ (
    q,
    rw (lt→ltb _ _ h, new),
    rw (drop_key_absent i xs (sym (r.marks i) ∙ new)) r,
    (refl, refl, refl, refl, refl),
  )
]
