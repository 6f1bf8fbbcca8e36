-- ===== src/Dummy/Bursts.antt =====
-- The packets that ReceiveBurst of dummy_backend.cc moves.
use p4app_switch_ml.Prelude.{
  ℕ, zero, suc, ◌+◌, ◌%◌, ◌≤◌, ◌<◌, ◌≡◌, refl, ◌∙◌, Bool, true, false, arith, ◌==◌, if◌then◌else◌,
  List, [], ◌∷◌, ◌++◌, length, get_elem?, some, length-append,
}
use native.Mathlib.Nat.{mod-lt}
use p4app_switch_ml.Outcome.{ok, bind_ok}
use p4app_switch_ml.Dummy.{
  DummyPacket, Call, preprocess, postprocess, process, Transfer, Burst, erase, process_packet,
  receive_one, receive_all, receive_burst,
}

-- The sum of a function over a list.
abbrev pub tally {ℓ} : {A : Type ℓ} → (A → ℕ) → List A → ℕ
tally f [] = 0
tally f (x ∷ xs) = f x + tally f xs

pub tally-append {ℓ} :
    {A : Type ℓ} (f : A → ℕ) (xs ys : List A) → tally f (xs ++ ys) ≡ tally f xs + tally f ys
tally-append f [] ys = omega arith
tally-append f (x ∷ xs) ys = omega (arith, tally-append f xs ys)

pub tally-length {ℓ} : {A : Type ℓ} (xs : List A) → tally (λ x. 1) xs ≡ length xs
tally-length [] = refl
tally-length (x ∷ xs) = omega (arith, tally-length xs)

tally-erase {ℓ} :
    {A : Type ℓ} (f : A → ℕ) (xs : List A) (i : ℕ) {x : A}
    → get_elem? xs i ≡ some x
    → f x + tally f (erase xs i) ≡ tally f xs
tally-erase f [] i h = cc
tally-erase f (y ∷ ys) zero h = cc
tally-erase f (y ∷ ys) (suc i) h = omega (arith, tally-erase f ys i h)

in_range {ℓ} :
    {A : Type ℓ} (xs : List A) (i : ℕ) → i < length xs → (x : A) × (get_elem? xs i ≡ some x)
in_range [] i h = absurd (omega arith)
in_range (x ∷ xs) zero h = (x, refl)
in_range (x ∷ xs) (suc i) h = in_range xs i (omega arith)

-- How often a packet was preprocessed, and postprocessed.
abbrev pub pre_of : ℕ → Call → ℕ
pre_of m (preprocess id entries extra) = if id == m then 1 else 0
pre_of m (postprocess id entries extra) = 0
pre_of m (process p) = 0

abbrev pub post_of : ℕ → Call → ℕ
post_of m (preprocess id entries extra) = 0
post_of m (postprocess id entries extra) = if id == m then 1 else 0
post_of m (process p) = 0

abbrev pub pres : ℕ → List Call → ℕ
pres m = tally (pre_of m)

abbrev pub posts : ℕ → List Call → ℕ
posts m = tally (post_of m)

-- A later state of a burst: packets only moved from pending to received.
pub record Moved (b b' : Burst) : Type 0 where
  pub kept :
      (f : DummyPacket → ℕ)
      → tally f b'.pending + tally f b'.packets_received
        ≡ tally f b.pending + tally f b.packets_received
  pub calls_same :
      (f : Call → ℕ) → ((p : DummyPacket) → f (process p) ≡ 0) → tally f b'.calls ≡ tally f b.calls

process_packet-tally :
    (on : Bool) (p : DummyPacket) (calls : List Call) (f : Call → ℕ)
    → ((p : DummyPacket) → f (process p) ≡ 0)
    → tally f (process_packet on p calls) ≡ tally f calls
process_packet-tally false p calls f h = refl
process_packet-tally true p calls f h = omega (arith, h p)

module _ (rand : ℕ → ℕ) (on : Bool) where
  receive_one-Moved :
      (b : Burst)
      → 0 < length b.pending
      → (b' : Burst) × (receive_one rand on b ≡ ok b')
        × Moved b b'
        × (length b'.pending + 1 ≡ length b.pending)
        × (length b'.packets_received ≡ length b.packets_received + 1)
  unfolding receive_one
  receive_one-Moved b h =
      let i = rand b.draws % length b.pending in
      let (p, e) = in_range b.pending i (mod-lt (rand b.draws) h) in
      let some_left : (length b.pending == 0) ≡ false = ground arith in
      (
        record b {
          pending = erase b.pending i;
          packets_received = b.packets_received ++ (p ∷ []);
          calls = process_packet on p b.calls;
          draws = b.draws + 1;
        },
        rw (some_left, e) refl,
        record {
          kept = λ f.
              omega
                (arith, tally-erase f b.pending i e, tally-append f b.packets_received (p ∷ []));
          calls_same = process_packet-tally on p b.calls;
        },
        omega (
          arith,
          tally-erase (λ x. 1) b.pending i e,
          tally-length b.pending,
          tally-length (erase b.pending i),
        ),
        omega (arith, length-append b.packets_received (p ∷ [])),
      )

  receive_all-Moved :
      (n : ℕ) (b : Burst)
      → n ≤ length b.pending
      → (b' : Burst) × (receive_all rand on n b ≡ ok b')
        × Moved b b'
        × (length b'.packets_received ≡ length b.packets_received + n)
  unfolding receive_all
  receive_all-Moved zero b h =
      (b, refl, record { kept = λ f. refl; calls_same = λ f none_counted. refl }, omega arith)
  receive_all-Moved (suc n) b h =
      let (b1, e1, moved1, left, got1) = receive_one-Moved b (omega arith) in
      let (b2, e2, moved2, got2) = receive_all-Moved n b1 (omega arith) in
      (
        b2,
        bind_ok (receive_all rand on n) e1 e2,
        record {
          kept = λ f. moved2.kept f ∙ moved1.kept f;
          calls_same =
              λ f none_counted. moved2.calls_same f none_counted ∙ moved1.calls_same f none_counted;
        },
        omega arith,
      )

  -- The whole call, on a thread that has packets pending.
  pub receive_burst-Moved :
      (t : Transfer)
      → 0 < length t.pending
      → (b : Burst) × (receive_burst rand on t ≡ ok b)
        × Moved
            (record {
              pending = t.pending;
              packets_received = [];
              calls = t.calls;
              draws = t.draws + 1;
            })
            b
        × (length b.packets_received ≡ rand t.draws % (length t.pending + 1))
  unfolding receive_burst
  receive_burst-Moved t h =
      let n = rand t.draws % (length t.pending + 1) in
      let some_left : (length t.pending == 0) ≡ false = ground arith in
      let low : n < length t.pending + 1 = mod-lt (rand t.draws) (omega arith) in
      let (b, e, moved, got) =
        receive_all-Moved n
          (record {
            pending = t.pending;
            packets_received = [];
            calls = t.calls;
            draws = t.draws + 1;
          })
          (omega (arith, low)) in
      (b, rw some_left e, moved, omega (arith, got))
