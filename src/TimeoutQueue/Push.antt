-- ===== src/TimeoutQueue/Push.antt =====
-- `TimeoutQueue::Push` puts an entry at the newest end of the list.
use p4app_switch_ml.Prelude.{
  ℕ, ◌≤◌, ◌<◌, ◌≡◌, refl, ◌↔◌, true, false, ◌==◌, ==_refl, lt→ltb, ltb→le, le→ltb, if◌then◌else◌,
  List, [], ◌∷◌, Option, none, some, elem, update, arith,
}
use p4app_switch_ml.Outcome.{ok, crash, fatal}
use p4app_switch_ml.TimeoutQueue.{
  TimeoutQueue, TqEntry, same_link, set_previous, is_older, link_front, push,
}
use p4app_switch_ml.TimeoutQueue.Order.{elem-without, next_of, prev_of, first_of_list, last_of}
use p4app_switch_ml.TimeoutQueue.Represents.{
  Represents, Stamped, keys, drop_key, keys-drop_key, AtMost, NewestFirst, Stamps-frame,
  AtMost-drop_key,
}
use p4app_switch_ml.TimeoutQueue.Remove.{SameTimeouts, remove_refines}

last_of-some : (k : ℕ) (ks : List ℕ) → same_link (last_of (some k) ks) none ≡ false
last_of-some k [] = refl
last_of-some k (l ∷ ks) = last_of-some l ks

-- The backward links, after the old head has been given one.
prevs_at :
    (e : ℕ → TqEntry) (i t : ℕ) (head : Option ℕ) (ks : List ℕ) (j : ℕ)
    → head ≡ first_of_list ks
    → elem i ks ≡ false
    → elem j (i ∷ ks) ≡ true
    → (elem j ks ≡ true → (e j).previous ≡ prev_of none ks j)
    → (set_previous
        (update e i (record { valid = true; previous = none; next = head; timestamp = t }))
        head
        (some i)
        j).previous
      ≡ prev_of none (i ∷ ks) j
prevs_at e i t head [] j he new h old = rw he (ground arith)
prevs_at e i t head (k ∷ ks) j he new h old = rw he (ground arith)

-- The parts of the new queue.
module _ {q : TimeoutQueue} {xs : Stamped} (r : Represents q xs) (i t : ℕ)
    (new : elem i (keys xs) ≡ false) where
  front_prevs :
      (j : ℕ)
      → elem j (i ∷ keys xs) ≡ true
      → ((link_front q i t).entries j).previous ≡ prev_of none (i ∷ keys xs) j
  unfolding link_front
  front_prevs j h = prevs_at q.entries i t q.head (keys xs) j r.head_eq new h (r.prevs j)

  front_nexts :
      (j : ℕ)
      → elem j (i ∷ keys xs) ≡ true
      → ((link_front q i t).entries j).next ≡ next_of (i ∷ keys xs) j
  unfolding link_front
  front_nexts j h = ground (arith, r.nexts j, r.head_eq)

  front_marks : (j : ℕ) → ((link_front q i t).entries j).valid ≡ elem j (i ∷ keys xs)
  unfolding link_front
  front_marks j = ground (arith, r.marks j)

  front_stamp :
      (j : ℕ)
      → (j == i) ≡ false
      → ((link_front q i t).entries j).timestamp ≡ (q.entries j).timestamp
  unfolding link_front
  front_stamp j ne = ground arith

  front_stamp_self : ((link_front q i t).entries i).timestamp ≡ t
  unfolding link_front
  front_stamp_self = ground arith

  pub link_front-Represents :
      i < q.num_entries → AtMost t xs → Represents (link_front q i t) ((i, t) ∷ xs)
  unfolding link_front
  link_front-Represents h old = record {
    distinct = (new, r.distinct);
    in_range = λ j k. ground (arith, r.in_range j);
    marks = front_marks;
    nexts = front_nexts;
    prevs = front_prevs;
    stamps = (
      front_stamp_self,
      Stamps-frame q.entries (link_front q i t).entries i xs new front_stamp r.stamps,
    );
    head_eq = refl;
    tail_eq = tail_at q.tail (keys xs) r.tail_eq;
    newest_first = old;
  }
    where
      tail_at :
          (tail : Option ℕ) (ks : List ℕ)
          → tail ≡ last_of none ks
          → (if same_link tail none then some i else tail) ≡ last_of none (i ∷ ks)
      tail_at tail [] e = rw e
      tail_at tail (k ∷ ks) e = rw (e, last_of-some k ks)

-- Whether a new time stamp is at least that of the newest entry.
abbrev pub FitsFront : ℕ → Stamped → Type 0
FitsFront t [] = Unit {0}
FitsFront t ((k, s) ∷ xs) = s ≤ t

FitsFront-AtMost : (t : ℕ) (xs : Stamped) → FitsFront t xs → NewestFirst xs → AtMost t xs
FitsFront-AtMost t [] f n = tt
FitsFront-AtMost t ((k, s) ∷ xs) f n = (f, n)

is_older_iff :
    {q : TimeoutQueue} (xs : Stamped) (t : ℕ)
    → Represents q xs
    → (is_older t q.entries q.head ≡ false) ↔ FitsFront t xs
is_older_iff [] t r = rw r.head_eq ((λ h. tt), λ h. refl)
is_older_iff {q} ((k, s) ∷ xs) t r =
    rw (r.head_eq, r.stamps.0) ((λ h. ltb→le _ _ h), λ h. le→ltb _ _ h)

-- For an index of the vector and a time stamp that is not older than the newest entry's, `Push`
-- returns with no fault, and leaves a queue that stands for the list with that entry in front and
-- the index's old entry taken out; the timeouts and their counters stay as they were.
pub push_refines :
    (q : TimeoutQueue) (xs : Stamped) (i t : ℕ)
    → Represents q xs
    → i < q.num_entries
    → FitsFront t xs
    → (q' : TimeoutQueue) × (push q i t ≡ ok q')
      × Represents q' ((i, t) ∷ drop_key i xs)
      × SameTimeouts q q'
unfolding push
push_refines q xs i t r h f =
    let (q1, e, r1, same) = remove_refines q xs i r h in
    let out : elem i (keys (drop_key i xs)) ≡ false =
      rw (keys-drop_key i xs, elem-without i i (keys xs) r.distinct, ==_refl i) in
    (
      link_front q1 i t,
      rw ((is_older_iff xs t r).1 f, e),
      link_front-Represents r1 i t out (rw same.0 h)
          (AtMost-drop_key t i xs (FitsFront-AtMost t xs f r.newest_first)),
      same,
    )

-- `Push` of a time stamp older than the newest entry's aborts the process, whatever the index.
pub push_out_of_order :
    (q : TimeoutQueue) (k s : ℕ) (xs : Stamped) (i t : ℕ)
    → Represents q ((k, s) ∷ xs)
    → t < s
    → push q i t ≡ crash fatal
unfolding push
push_out_of_order q k s xs i t r h = rw (r.head_eq, r.stamps.0, lt→ltb _ _ h)
