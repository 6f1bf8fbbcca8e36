-- ===== src/Scheduler/Slices.antt =====
-- The static division of a job's tensor among the worker threads, in `GetJobSlice` of
-- dev_root/client_lib/src/schedulers/fifo_scheduler.cc.
use p4app_switch_ml.Prelude.{
  ℕ, zero, suc, ◌+◌, ◌-◌, ◌*◌, ◌/◌, ◌%◌, ◌≤◌, ◌<◌, ◌≡◌, refl, ap, ◌∙◌, inl, inr, ltb, ltb→lt,
  ltb→le, Bool-cases, if◌then◌else◌, arith, u64_mod, min,
}
use p4app_switch_ml.Scheduler.{slice_numel, slice_offset, construct_slice}
use p4app_switch_ml.Common.{Tensor, offset_ptrs_lem}
use native.Mathlib.Numerals.{add-one}
use native.Mathlib.Nat.{mod-eq_of_lt, mod-lt, div-add-mod}

le-mul : (k n q : ℕ) → k ≤ n → k * q ≤ n * q
le-mul k n q h = grind arith

-- Where the slice of a thread begins and how long it is, without the wrap-around of `uint64_t`.
module _ (n numel tid : ℕ) (threads : 0 < n) (small : numel < u64_mod) (h : tid ≤ n) where
  numel_eq : slice_numel n numel tid ≡ (if ltb tid (numel % n) then numel / n + 1 else numel / n)
  unfolding slice_numel
  numel_eq =
      let whole = div-add-mod numel n in
      let more = le-mul 1 n (numel / n) threads in
      elim (Bool-cases (ltb tid (numel % n))) [
        | inl e ↦ rw e (mod-eq_of_lt (omega (arith, whole, more, ltb→lt _ _ e)))
        | inr e ↦ rw e
      ]

  offset_eq : slice_offset n numel tid ≡ tid * (numel / n) + min tid (numel % n)
  unfolding slice_offset
  offset_eq =
      let whole = div-add-mod numel n in
      let rem : numel % n < n = mod-lt numel threads in
      let more = le-mul tid n (numel / n) h in
      elim (Bool-cases (ltb tid (numel % n))) [
        | inl e ↦
            rw (numel_eq, e)
              (mod-eq_of_lt (omega (arith, whole, more, ltb→lt _ _ e))
                ∙ omega (arith, ltb→lt _ _ e))
        | inr e ↦
            rw (numel_eq, e)
              (mod-eq_of_lt (omega (arith, whole, more, rem)) ∙ omega (arith, ltb→le _ _ e))
      ]

-- Each slice ends where the next begins.
next_offset :
    (n numel tid : ℕ)
    → 0 < n
    → numel < u64_mod
    → tid < n
    → slice_offset n numel tid + slice_numel n numel tid ≡ slice_offset n numel (tid + 1)
next_offset n numel tid threads small h =
    let q = numel / n in
    rw
      (
        offset_eq n numel tid threads small (omega arith),
        offset_eq n numel (tid + 1) threads small (omega arith),
        numel_eq n numel tid threads small (omega arith),
      )
      (ground arith)

first_offset : (n numel : ℕ) → 0 < n → numel < u64_mod → slice_offset n numel 0 ≡ 0
first_offset n numel threads small =
    rw (offset_eq n numel 0 threads small (omega arith)) (omega arith)

last_offset : (n numel : ℕ) → 0 < n → numel < u64_mod → slice_offset n numel n ≡ numel
last_offset n numel threads small =
    let rem : numel % n < n = mod-lt numel threads in
    rw (offset_eq n numel n threads small (omega arith)) (omega (arith, div-add-mod numel n, rem))

offset_mono :
    (n numel : ℕ) (threads : 0 < n) (small : numel < u64_mod) (j d : ℕ)
    → j + d ≤ n
    → slice_offset n numel j ≤ slice_offset n numel (j + d)
offset_mono n numel threads small j d h =
    rw (offset_eq n numel j threads small (omega arith), offset_eq n numel (j + d) threads small h)
      (omega (arith, le-mul j (j + d) (numel / n) (omega arith)))

-- Element `e` of the tensor lies in the slice of thread `tid`.
pub record Owns (n numel tid e : ℕ) : Type 0 where
  pub thread : tid < n
  pub from : slice_offset n numel tid ≤ e
  pub to : e < slice_offset n numel tid + slice_numel n numel tid

find_owner :
    (n numel e : ℕ) (threads : 0 < n) (small : numel < u64_mod) (k : ℕ)
    → k ≤ n
    → e < slice_offset n numel k
    → (tid : ℕ) × Owns n numel tid e
find_owner n numel e threads small zero h l =
    absurd (omega (arith, first_offset n numel threads small))
find_owner n numel e threads small (suc k) h l =
    elim (Bool-cases (ltb e (slice_offset n numel k))) [
      | inl before ↦ find_owner n numel e threads small k (omega arith) (ltb→lt _ _ before)
      | inr after ↦ (
        k,
        record {
          thread = h;
          from = ltb→le _ _ after;
          to =
              omega (
                arith,
                next_offset n numel k threads small h,
                ap (slice_offset n numel) (add-one k),
              );
        },
      )
    ]

owner_le :
    (n numel e i j : ℕ) (threads : 0 < n) (small : numel < u64_mod)
    → Owns n numel i e
    → Owns n numel j e
    → i ≤ j
owner_le n numel e i j threads small a b = elim (Bool-cases (ltb j i)) [
  | inl over ↦
      let l = ltb→lt _ _ over in
      let e' : j + 1 + (i - (j + 1)) ≡ i = omega arith in
      absurd (
        omega (
          arith,
          next_offset n numel j threads small b.thread,
          a.from,
          b.to,
          offset_mono n numel threads small (j + 1) (i - (j + 1)) (omega (arith, a.thread)),
          ap (slice_offset n numel) e',
        ))
  | inr fine ↦ ltb→le _ _ fine
]

-- With at least one worker thread, every element of a job's tensor lies in the slice of exactly
-- one worker thread, whatever order the threads ask in; no slice reaches past the tensor, and the
-- slices of two threads differ in length by one element at most.
pub slices_partition :
    (n numel : ℕ)
    → 0 < n
    → numel < u64_mod
    → ((e : ℕ)
        → e < numel
        → (tid : ℕ) × Owns n numel tid e × ((k : ℕ) → Owns n numel k e → k ≡ tid))
      × ((tid : ℕ) → tid < n → slice_offset n numel tid + slice_numel n numel tid ≤ numel)
      × ((i j : ℕ) → i < n → j < n → slice_numel n numel i ≤ slice_numel n numel j + 1)
slices_partition n numel threads small = (
  (λ e h.
      let (tid, own) =
        find_owner n numel e threads small n (omega arith)
          (rw (last_offset n numel threads small) h) in
      (
        tid,
        own,
        λ k other. omega (
          arith,
          owner_le n numel e k tid threads small other own,
          owner_le n numel e tid k threads small own other,
        ),
      )),
  (λ tid h.
      let e' : tid + 1 + (n - (tid + 1)) ≡ n = omega arith in
      omega (
        arith,
        next_offset n numel tid threads small h,
        last_offset n numel threads small,
        offset_mono n numel threads small (tid + 1) (n - (tid + 1)) (omega arith),
        ap (slice_offset n numel) e',
      )),
  (λ i j hi hj.
      rw
        (
          numel_eq n numel i threads small (omega arith),
          numel_eq n numel j threads small (omega arith),
        )
        (ground arith)),
)

-- The pointers of a slice: where the tensor's memory does not wrap round the address space, the
-- slice of a thread starts `slice_offset` elements of four bytes into the input and the output,
-- ends inside them, and has the tensor's data type.
pub construct_slice_lem :
    (n : ℕ) (t : Tensor) (tid : ℕ)
    → tid < n
    → t.in_ptr + 4 * t.numel < u64_mod
    → t.out_ptr + 4 * t.numel < u64_mod
    → let s = construct_slice n t tid in
      (s.in_ptr ≡ t.in_ptr + 4 * slice_offset n t.numel tid)
      × (s.out_ptr ≡ t.out_ptr + 4 * slice_offset n t.numel tid)
      × (s.in_ptr + 4 * s.numel ≤ t.in_ptr + 4 * t.numel)
      × (s.out_ptr + 4 * s.numel ≤ t.out_ptr + 4 * t.numel)
      × (s.data_type ≡ t.data_type)
unfolding construct_slice
construct_slice_lem n t tid h inb outb =
    let inside = (slices_partition n t.numel (omega arith) (omega arith)).1 tid h in
    let whole = record t { numel = slice_numel n t.numel tid } in
    let start =
      mod-eq_of_lt {n = t.in_ptr + 4 * slice_offset n t.numel tid} {m = u64_mod}
        (omega (arith, inside)) in
    let out =
      mod-eq_of_lt {n = t.out_ptr + 4 * slice_offset n t.numel tid} {m = u64_mod}
        (omega (arith, inside)) in
    rw (offset_ptrs_lem whole (slice_offset n t.numel tid))
      (start, out, omega (arith, inside, start), omega (arith, inside, out), refl)
