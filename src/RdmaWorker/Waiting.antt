-- ===== src/RdmaWorker/Waiting.antt =====
-- The timers of rdma_worker_thread.cc: which queue pairs wait for a message.
use p4app_switch_ml.Prelude.{
  ℕ, ◌≤◌, ◌<◌, ◌≡◌, refl, sym, ◌∙◌, ap, Bool, true, false, ◌==◌, if◌then◌else◌, [], ◌∷◌, some,
  some_inj, elem, update, arith,
}
use p4app_switch_ml.Outcome.{ok}
use p4app_switch_ml.TimeoutQueue.{TimeoutQueue, push, remove, check, count_timeout}
use p4app_switch_ml.TimeoutQueue.Order.{elem-without}
use p4app_switch_ml.TimeoutQueue.Represents.{
  Represents, Stamped, keys, drop_key, keys-drop_key, AtMost, AtMost-weaken, AtMost-drop_key,
}
use p4app_switch_ml.TimeoutQueue.Remove.{remove_refines}
use p4app_switch_ml.TimeoutQueue.Push.{FitsFront, push_refines}
use p4app_switch_ml.TimeoutQueue.Check.{oldest, oldest_from, check_finds_oldest}

-- The timers that run are those of the queue pairs which `waits` names, and none started after `now`.
pub record Timers (n : ℕ) (waits : ℕ → Bool) (now : ℕ) (q : TimeoutQueue) : Type 0 where
  pub running : Stamped
  pub represents : Represents q running
  pub named : (k : ℕ) → elem k (keys running) ≡ waits k
  pub past : AtMost now running
  pub room : n ≤ q.num_entries

AtMost-FitsFront : (t : ℕ) (xs : Stamped) → AtMost t xs → FitsFront t xs
AtMost-FitsFront t [] a = tt
AtMost-FitsFront t ((k, s) ∷ xs) a = a.0

oldest_from-elem :
    (x : ℕ × ℕ) (xs : Stamped) (i s : ℕ) → oldest_from x xs ≡ (i, s) → elem i (keys (x ∷ xs)) ≡ true
oldest_from-elem (k, t) [] i s e = let same : k ≡ i = ap (λ (p : ℕ × ℕ). p.0) e in ground arith
oldest_from-elem (k, t) (y ∷ xs) i s e = ground (arith, oldest_from-elem y xs i s e)

oldest-elem : (xs : Stamped) (i s : ℕ) → oldest xs ≡ some (i, s) → elem i (keys xs) ≡ true
oldest-elem [] i s e = cc
oldest-elem (x ∷ xs) i s e = oldest_from-elem x xs i s (some_inj e)

module _ {n : ℕ} {waits : ℕ → Bool} {now : ℕ} {q : TimeoutQueue} (ts : Timers n waits now q) where
  pub Timers-later : (later : ℕ) → now ≤ later → Timers n waits later q
  Timers-later later h = record {
    running = ts.running;
    represents = ts.represents;
    named = ts.named;
    past = AtMost-weaken now later ts.running h ts.past;
    room = ts.room;
  }

  pub Timers-same : (waits' : ℕ → Bool) → ((k : ℕ) → waits k ≡ waits' k) → Timers n waits' now q
  Timers-same waits' same = record {
    running = ts.running;
    represents = ts.represents;
    named = λ k. ts.named k ∙ same k;
    past = ts.past;
    room = ts.room;
  }

  elem-drop_key :
      (i k : ℕ) → elem k (keys (drop_key i ts.running)) ≡ (if k == i then false else waits k)
  elem-drop_key i k =
      rw
        (
          keys-drop_key i ts.running,
          elem-without i k (keys ts.running) ts.represents.distinct,
          ts.named k,
        )
        refl

  pub Timers-push :
      (i : ℕ)
      → i < n
      → (q' : TimeoutQueue) × (push q i now ≡ ok q') × Timers n (update waits i true) now q'
  Timers-push i h =
      let (q', e, r, same) =
        push_refines q ts.running i now ts.represents (omega (arith, ts.room))
          (AtMost-FitsFront now ts.running ts.past) in
      (
        q',
        e,
        record {
          running = (i, now) ∷ drop_key i ts.running;
          represents = r;
          named = λ k. ground (arith, elem-drop_key i k);
          past = (omega arith, AtMost-drop_key now i ts.running ts.past);
          room = omega (arith, ts.room, same.0);
        },
      )

  pub Timers-remove :
      (i : ℕ)
      → i < n
      → (q' : TimeoutQueue) × (remove q i ≡ ok q') × Timers n (update waits i false) now q'
  Timers-remove i h =
      let (q', e, r, same) = remove_refines q ts.running i ts.represents (omega (arith, ts.room)) in
      (
        q',
        e,
        record {
          running = drop_key i ts.running;
          represents = r;
          named = elem-drop_key i;
          past = AtMost-drop_key now i ts.running ts.past;
          room = omega (arith, ts.room, same.0);
        },
      )

  check_room : (at : ℕ) → ((check q at).1).num_entries ≡ q.num_entries
  unfolding check count_timeout
  check_room at = ground arith

  pub Timers-check :
      (at : ℕ)
      → Timers n waits now (check q at).1 × ((i : ℕ) → (check q at).0 ≡ some i → waits i ≡ true)
  Timers-check at =
      let (calm, late, r) = check_finds_oldest q ts.running at ts.represents in
      (
        record {
          running = ts.running;
          represents = r;
          named = ts.named;
          past = ts.past;
          room = omega (arith, ts.room, check_room at);
        },
        λ i e.
            let (s, found, _, _) = late i e in sym (ts.named i) ∙ oldest-elem ts.running i s found,
      )
