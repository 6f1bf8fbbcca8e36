-- ===== src/RdmaConnection/Cluster/Sessions.antt =====
-- The order in which the controller creates the sessions of the workers of rdma_connection.cc.
use p4app_switch_ml.Prelude.{
  ℕ, zero, suc, ◌-◌, ◌≤◌, ◌<◌, ◌≡◌, ◌≢◌, refl, sym, ◌∙◌, ap, Bool, true, false, ltb, ltb→le, ◌==◌,
  leb, sum_below, if◌then◌else◌, if_true, if_false, ==→eq, Bool-cases, inl, inr, ◌⊎◌, List, [], ◌∷◌,
  ◌++◌, elem, update, arith,
}
use p4app_switch_ml.Config.{Config}
use p4app_switch_ml.RdmaConnection.Bringup.{Environment, SessionRequest}
use p4app_switch_ml.RdmaConnection.Cluster.{
  Cluster, barriers, calls, begun, Exchange, create, enter, leave, Exchanges, start, after,
}
use p4app_switch_ml.RdmaConnection.Cluster.Calls.{
  before, before_le, at_create, at_barrier, count_zero, count_low, count_two,
}

-- Where as many as `n` of `n` tests hold, all do.
at_most : (n : ℕ) (test : ℕ → Bool) → sum_below n (λ j. if test j then 1 else 0) ≤ n
at_most zero test = omega arith
at_most (suc n) test = ground (arith, at_most n test)

all_of :
    (n : ℕ) (test : ℕ → Bool)
    → n ≤ sum_below n (λ j. if test j then 1 else 0)
    → (j : ℕ) → j < n
    → test j ≡ true
all_of zero test h j le = absurd (omega (arith, le))
all_of (suc n) test h j le = elim (Bool-cases (j == n)) [
  | inl last ↦ ground (arith, ==→eq j n last, at_most n test, h)
  | inr before_it ↦
      all_of n test (ground (arith, at_most n test, h)) j (ground (arith, before_it, le))
]

leb→le : (a b : ℕ) → leb a b ≡ true → a ≤ b
leb→le a b h = ground (arith, h)

record Ordered (n : ℕ) (p : Cluster) : Type 0 where
  first : (j : ℕ) → 1 ≤ p.made (suc j) → 1 ≤ p.made 0
  all : (i j : ℕ) → p.made i ≡ 3 → j < n → 2 ≤ p.made j
  few : (i : ℕ) → p.made i ≤ 3
  between : (i : ℕ) → p.inside i ≡ true → p.made i ≢ before i
  created : (i : ℕ) → before i < p.made i → elem i p.sessions ≡ true
  oldest : (p.made 0 ≡ 0) × (p.sessions ≡ []) ⊎ ((xs : List ℕ) × (p.sessions ≡ xs ++ 0 ∷ []))

module _ (n : ℕ) (c : ℕ → Config) (env : ℕ → Environment) (request : ℕ → SessionRequest)
    (ranks : (i : ℕ) → (c i).general.rank ≡ i)
    (workers : (i : ℕ) → i < n → (c i).general.num_workers ≡ n) where
  module _ {p : Cluster} (o : Ordered n p) where
    -- Who has begun a call of the barrier, and who has begun two.
    begun_one : 1 ≤ begun n c env request p 0 → 1 ≤ p.made 0
    begun_one h = elim (Bool-cases (p.inside 0)) [
      | inl here ↦ ground (arith, o.between 0 here)
      | inr away ↦ ground (arith, away, count_zero n c env request ranks (p.made 0) (o.few 0), h)
    ]

    begun_two : (j : ℕ) → 2 ≤ begun n c env request p j → 2 ≤ p.made j
    begun_two zero h = ground (arith, count_zero n c env request ranks (p.made 0) (o.few 0), h)
    begun_two (suc j) h = elim (Bool-cases (ltb (p.made (suc j)) 2)) [
      | inl low ↦ elim (Bool-cases (p.inside (suc j))) [
        | inl here ↦ ground (
          arith,
          low,
          o.between (suc j) here,
          count_low n c env request ranks j (p.made (suc j)),
          h,
        )
        | inr away ↦
            ground (arith, low, away, count_low n c env request ranks j (p.made (suc j)), h)
      ]
      | inr high ↦ ltb→le _ _ high
    ]

    -- A worker `i` that makes one more call.
    one_more_call :
        (i : ℕ) (inside : ℕ → Bool) (sessions : List ℕ)
        → p.made i ≤ 2
        → ((j : ℕ) → i ≡ suc j → 1 ≤ p.made 0)
        → (p.made i ≡ 2 → (j : ℕ) → j < n → 2 ≤ p.made j)
        → ((k : ℕ) → inside k ≡ true → (k ≢ i) × (p.inside k ≡ true))
        → ((k : ℕ) → before k < update p.made i (suc (p.made i)) k → elem k sessions ≡ true)
        → ((xs : List ℕ) × (sessions ≡ xs ++ 0 ∷ []))
        → Ordered n (record {
          made = update p.made i (suc (p.made i));
          inside = inside;
          sessions = sessions;
        })
    one_more_call i inside sessions low after_zero ready inside_old created oldest = record {
      first = λ j h. elim (Bool-cases (i == 0)) [
        | inl same ↦ ground (arith, same)
        | inr apart ↦ ground (arith, apart, after_zero (i - 1) (ground (arith, apart)))
      ];
      all = λ i' j h le. elim (Bool-cases (i' == i)) [
        | inl same ↦ ground (arith, same, h, ready (ground (arith, same, h)) j le)
        | inr apart ↦ ground (arith, apart, h, o.all i' j (ground (arith, apart, h)) le)
      ];
      few = λ k. ground (arith, o.few k);
      between = λ k h. ground (arith, inside_old k h, o.between k);
      created = created;
      oldest = inr oldest;
    }

    grown :
        (i : ℕ) (sessions : List ℕ) (k : ℕ)
        → (k == i) ≡ false
        → ((m : ℕ) → elem m p.sessions ≡ true → elem m sessions ≡ true)
        → before k < update p.made i (suc (p.made i)) k
        → elem k sessions ≡ true
    grown i sessions k apart more h = more k (o.created k (ground (arith, apart, h)))

    -- The sessions end with that of worker 0, once it has asked for it.
    ends_with_first : 1 ≤ p.made 0 → (xs : List ℕ) × (p.sessions ≡ xs ++ 0 ∷ [])
    ends_with_first h = elim o.oldest [
      | inl (none_yet, _) ↦ absurd (omega (arith, none_yet, h))
      | inr found ↦ found
    ]

    newest : (i : ℕ) → p.made i ≡ before i → (xs : List ℕ) × (i ∷ p.sessions ≡ xs ++ 0 ∷ [])
    newest zero d = elim o.oldest [
      | inl (_, empty) ↦ ([], ap (λ xs. 0 ∷ xs) empty)
      | inr (xs, e) ↦ (0 ∷ xs, ap (λ ys. 0 ∷ ys) e)
    ]
    newest (suc j) d =
        let (xs, e) = ends_with_first (o.first j (omega (arith, d))) in
        (suc j ∷ xs, ap (λ ys. suc j ∷ ys) e)

    create_lem :
        (i : ℕ)
        → p.made i ≡ before i
        → Ordered n
            (record p { made = update p.made i (suc (p.made i)); sessions = i ∷ p.sessions })
    create_lem i d =
        one_more_call i p.inside (i ∷ p.sessions) (omega (arith, d, before_le i))
          (λ j e. o.first j (omega (arith, ap p.made e, d, ap before e)))
          (λ two. absurd (omega (arith, d, before_le i, two)))
          (λ k h. ((λ e. o.between k h (ap p.made e ∙ d ∙ ap before (sym e))), h))
          (λ k h. elim (Bool-cases (k == i)) [
            | inl same ↦ if_true _ same
            | inr apart ↦ grown i (i ∷ p.sessions) k apart (λ m e. ground (arith, e)) h
          ])
          (newest i d)

    leave_lem :
        (i : ℕ)
        → i < n
        → p.inside i ≡ true
        → p.made i ≢ before i
        → p.made i ≤ 2
        → ((j : ℕ) → j < n → begun n c env request p i ≤ begun n c env request p j)
        → Ordered n
            (record p { made = update p.made i (suc (p.made i)); inside = update p.inside i false })
    leave_lem i le inside apart low wait =
        let asked : 1 ≤ p.made 0 = begun_one (ground (arith, inside, wait 0 (omega arith))) in
        one_more_call i (update p.inside i false) p.sessions low (λ j e. asked)
          (λ two j le'. begun_two j (
            ground (
              arith,
              inside,
              ap (λ d. barriers (calls n c env request i) d) two
                  ∙ count_two n c env request ranks i,
              wait j le',
            )))
          (λ k h. elim (Bool-cases (k == i)) [
            | inl same ↦ absurd (ground (arith, same, h))
            | inr other ↦ ground (arith, other, h)
          ])
          (λ k h. elim (Bool-cases (k == i)) [
            | inl same ↦
                let is = ==→eq k i same in
                o.created k (ground (arith, same, h, ap p.made is, ap before is, apart))
            | inr other ↦ grown i p.sessions k other (λ m e. e) h
          ])
          (ends_with_first asked)

    step_lem : (q : Cluster) → Exchange n c env request p q → Ordered n q
    step_lem q (create i r le at) = create_lem i (at_create n c env request ranks i (p.made i) at)
    step_lem q (enter i k le at) = record {
      first = o.first;
      all = o.all;
      few = o.few;
      between = λ m h. elim (Bool-cases (m == i)) [
        | inl same ↦
            let is = ==→eq m i same in
            λ e.
              (at_barrier n c env request ranks i (p.made i) at).0
                (ap p.made (sym is) ∙ e ∙ ap before is)
        | inr apart ↦ o.between m (sym (if_false _ apart) ∙ h)
      ];
      created = o.created;
      oldest = o.oldest;
    }
    step_lem q (leave i k le at inside wait) =
        let (apart, low, asked) = at_barrier n c env request ranks i (p.made i) at in
        leave_lem i le inside apart low (λ j le'. leb→le _ _ (
          all_of n (λ j. leb (begun n c env request p i) (begun n c env request p j))
            (omega (arith, asked, workers i le, wait)) j le'))

  ordered : {p : Cluster} → Exchanges n c env request p → Ordered n p
  ordered start = record {
    first = λ j h. h;
    all = λ i j h le. absurd (omega arith);
    few = λ i. omega arith;
    between = λ i h. cc;
    created = λ i h. absurd (omega arith);
    oldest = inl (refl, refl);
  }
  ordered (after step r) = step_lem (ordered r) _ step

  -- In any interleaving of any number of workers, each of which has its place as its rank and the number
  -- of them in its configuration: when a worker has made its three calls of the controller, the
  -- controller has created the session of every worker, and the first that it created is that of
  -- worker 0.
  pub sessions_created :
      {p : Cluster} (i j : ℕ)
      → Exchanges n c env request p
      → p.made i ≡ 3
      → j < n
      → (elem j p.sessions ≡ true) × ((xs : List ℕ) × (p.sessions ≡ xs ++ 0 ∷ []))
  sessions_created i j r through le =
      let o = ordered r in
      let two = o.all i j through le in
      let zero_two = o.all i 0 through (omega (arith, le)) in
      (o.created j (omega (arith, two, before_le j)), ends_with_first o (omega (arith, zero_two)))
