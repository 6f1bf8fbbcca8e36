-- ===== src/TimeoutQueue/Represents.antt =====
-- The list of entries, newest first, that a timeout queue stands for.
use p4app_switch_ml.Prelude.{
  ℕ, ◌≤◌, ◌<◌, ◌≡◌, refl, ◌∙◌, Bool-cases, inl, inr, ==→eq, true, false, ◌==◌, if◌then◌else◌, List,
  [], ◌∷◌, none, some, elem, All, arith,
}
use p4app_switch_ml.TimeoutQueue.{TimeoutQueue, TqEntry, new_queue, same_link, unlink}
use p4app_switch_ml.TimeoutQueue.Order.{Distinct, first_of_list, last_of, next_of, prev_of, without}

-- An entry's index and time stamp.
abbrev pub Stamped : Type 0
Stamped = List (ℕ × ℕ)

abbrev pub keys : Stamped → List ℕ
keys [] = []
keys ((i, t) ∷ xs) = i ∷ keys xs

abbrev pub drop_key : ℕ → Stamped → Stamped
drop_key i [] = []
drop_key i ((k, t) ∷ xs) = if i == k then xs else (k, t) ∷ drop_key i xs

-- No entry is older than the next.
abbrev pub AtMost : ℕ → Stamped → Type 0
AtMost t [] = Unit {0}
AtMost t ((k, s) ∷ xs) = (s ≤ t) × AtMost s xs

abbrev pub NewestFirst : Stamped → Type 0
NewestFirst [] = Unit {0}
NewestFirst ((k, s) ∷ xs) = AtMost s xs

abbrev pub Stamps : (ℕ → TqEntry) → Stamped → Type 0
Stamps e = All (λ x. (e x.0).timestamp ≡ x.1)

-- The links, the marks and the stamps of the vector are those of the list.
pub record Represents (q : TimeoutQueue) (xs : Stamped) : Type 0 where
  pub distinct : Distinct (keys xs)
  pub in_range : (j : ℕ) → elem j (keys xs) ≡ true → j < q.num_entries
  pub marks : (j : ℕ) → (q.entries j).valid ≡ elem j (keys xs)
  pub nexts : (j : ℕ) → elem j (keys xs) ≡ true → (q.entries j).next ≡ next_of (keys xs) j
  pub prevs : (j : ℕ) → elem j (keys xs) ≡ true → (q.entries j).previous ≡ prev_of none (keys xs) j
  pub stamps : Stamps q.entries xs
  pub head_eq : q.head ≡ first_of_list (keys xs)
  pub tail_eq : q.tail ≡ last_of none (keys xs)
  pub newest_first : NewestFirst xs

-- A new queue stands for the empty list.
pub new_queue-Represents :
    (n timeout threshold step : ℕ) → Represents (new_queue n timeout threshold step) []
unfolding new_queue
new_queue-Represents n timeout threshold step = record {
  distinct = tt;
  in_range = λ j h. cc;
  marks = λ j. refl;
  nexts = λ j h. cc;
  prevs = λ j h. cc;
  stamps = tt;
  head_eq = refl;
  tail_eq = refl;
  newest_first = tt;
}

pub keys-drop_key : (i : ℕ) (xs : Stamped) → keys (drop_key i xs) ≡ without i (keys xs)
keys-drop_key i [] = refl
keys-drop_key i ((k, t) ∷ xs) = ground (arith, keys-drop_key i xs)

pub AtMost-weaken : (s t : ℕ) (xs : Stamped) → s ≤ t → AtMost s xs → AtMost t xs
AtMost-weaken s t [] h a = tt
AtMost-weaken s t ((k, u) ∷ xs) h a = (omega arith, a.1)

pub AtMost-drop_key : (t i : ℕ) (xs : Stamped) → AtMost t xs → AtMost t (drop_key i xs)
AtMost-drop_key t i [] a = tt
AtMost-drop_key t i ((k, u) ∷ xs) a =
    ground (arith, AtMost-drop_key u i xs a.1, AtMost-weaken u t xs)

pub NewestFirst-drop_key : (i : ℕ) (xs : Stamped) → NewestFirst xs → NewestFirst (drop_key i xs)
NewestFirst-drop_key i [] a = tt
NewestFirst-drop_key i ((k, u) ∷ []) a = ground arith
NewestFirst-drop_key i ((k, u) ∷ (l, v) ∷ xs) a =
    ground (arith, AtMost-drop_key u i ((l, v) ∷ xs) a)

-- Stamps carry over to a vector that agrees on all entries but one that is not in the list.
pub Stamps-frame :
    (e f : ℕ → TqEntry) (i : ℕ) (xs : Stamped)
    → elem i (keys xs) ≡ false
    → ((j : ℕ) → (j == i) ≡ false → (f j).timestamp ≡ (e j).timestamp)
    → Stamps e xs
    → Stamps f xs
Stamps-frame e f i [] out same h = tt
Stamps-frame e f i ((k, t) ∷ xs) out same h =
    (same k (ground arith) ∙ h.0, Stamps-frame e f i xs (ground arith) same h.1)

-- The same for the list with that entry taken out.
pub Stamps-drop_key :
    (e f : ℕ → TqEntry) (i : ℕ) (xs : Stamped)
    → Distinct (keys xs)
    → ((j : ℕ) → (j == i) ≡ false → (f j).timestamp ≡ (e j).timestamp)
    → Stamps e xs
    → Stamps f (drop_key i xs)
Stamps-drop_key e f i [] d same h = tt
Stamps-drop_key e f i ((k, t) ∷ xs) d same h = elim (Bool-cases (i == k)) [
  | inl hit ↦ rw hit (Stamps-frame e f i xs (rw (==→eq i k hit) d.0) same h.1)
  | inr miss ↦ rw miss (same k (ground arith) ∙ h.0, Stamps-drop_key e f i xs d.1 same h.1)
]

pub drop_key_absent : (i : ℕ) (xs : Stamped) → elem i (keys xs) ≡ false → drop_key i xs ≡ xs
drop_key_absent i [] h = refl
drop_key_absent i ((k, t) ∷ xs) h = ground (arith, drop_key_absent i xs)

-- The entries of `Remove`'s result but the removed one.
module _ (q : TimeoutQueue) (i j : ℕ) (ne : (j == i) ≡ false) where
  pub unlink_next : ((unlink q i).entries j).next ≡ (
      if same_link (q.entries i).previous (some j) then (q.entries i).next else (q.entries j).next)
  unfolding unlink
  unlink_next = ground arith

  pub unlink_previous : ((unlink q i).entries j).previous ≡ (
      if same_link (q.entries i).next (some j)
      then (q.entries i).previous
      else (q.entries j).previous)
  unfolding unlink
  unlink_previous = ground arith

  pub unlink_valid : ((unlink q i).entries j).valid ≡ (q.entries j).valid
  unfolding unlink
  unlink_valid = ground arith

  pub unlink_timestamp : ((unlink q i).entries j).timestamp ≡ (q.entries j).timestamp
  unfolding unlink
  unlink_timestamp = ground arith

pub unlink_self : (q : TimeoutQueue) (i : ℕ) → ((unlink q i).entries i).valid ≡ false
unfolding unlink
unlink_self q i = ground arith

pub unlink_head :
    (q : TimeoutQueue) (i : ℕ)
    → (unlink q i).head ≡ (if same_link q.head (some i) then (q.entries i).next else q.head)
unfolding unlink
unlink_head q i = ground arith

pub unlink_tail :
    (q : TimeoutQueue) (i : ℕ)
    → (unlink q i).tail ≡ (if same_link q.tail (some i) then (q.entries i).previous else q.tail)
unfolding unlink
unlink_tail q i = ground arith
