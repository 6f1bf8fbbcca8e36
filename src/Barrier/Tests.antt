-- ===== src/Barrier/Tests.antt =====
-- Two threads at a barrier: one has come back from its first call, the other can.
use p4app_switch_ml.Prelude.{ℕ, ◌≡◌, refl, true, false, [], ◌∷◌, some, arith, get_elem?}
use p4app_switch_ml.Barrier.{Barrier, new_barrier, arrive}
use p4app_switch_ml.Barrier.Threads.{Thread, outside, asleep}
use p4app_switch_ml.Barrier.Rounds.{System, Reach, after, at_start, sleep, pass, start}
use p4app_switch_ml.Barrier.Safety.{Released, CanMove, no_overtaking, no_deadlock}

abbrev one_inside : Barrier
one_inside = record { num_participants = 2; count = some 1; flag = false }

abbrev flipped : Barrier
flipped = record { num_participants = 2; count = some 2; flag = true }

abbrev half_way : System
half_way = record { barrier = flipped; threads = asleep false 0 ∷ outside 1 ∷ [] }

half_way-Reach : Reach (start 2) half_way
unfolding new_barrier arrive
half_way-Reach =
    after (pass 1 0 flipped refl refl) (after (sleep 0 0 one_inside false refl refl) at_start)

no_overtaking_example : (◌≡◌ {A = ℕ} 1 1) × Released half_way (asleep false 0)
no_overtaking_example = no_overtaking 2 1 0 (omega arith) half_way-Reach refl refl (omega arith)

no_deadlock_example :
    (i : ℕ) × (t : Thread) × (get_elem? half_way.threads i ≡ some t) × CanMove half_way t
no_deadlock_example = no_deadlock 2 (omega arith) half_way-Reach
