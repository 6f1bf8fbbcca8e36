-- ===== src/Dummy/Totals.antt =====
-- The packets of a slice that were postprocessed, counted over all of them.
use p4app_switch_ml.Prelude.{
  sum_below, sum_add, sum_none, sum_same, ℕ, ◌+◌, ◌≡◌, arith, List, [], ◌∷◌,
}
use p4app_switch_ml.Dummy.{Call, preprocess, postprocess, process}
use p4app_switch_ml.Dummy.Bursts.{tally, posts, post_of}
use p4app_switch_ml.Dummy.Answers.{is_post, is_stray}

sum_post : (n : ℕ) (c : Call) → sum_below n (λ m. post_of m c) + is_stray n c ≡ is_post c
sum_post n (preprocess id entries extra) = omega (arith, sum_none n)
sum_post n (postprocess id entries extra) = sum_same n id
sum_post n (process p) = omega (arith, sum_none n)

-- Where only packets of the slice were postprocessed, the sum over them counts every call.
pub sum_posts :
    (n : ℕ) (calls : List Call)
    → tally (is_stray n) calls ≡ 0
    → sum_below n (λ m. posts m calls) ≡ tally is_post calls
sum_posts n [] h = sum_none n
sum_posts n (c ∷ cs) h = omega (
  arith,
  sum_add n (λ m. post_of m c) (λ m. posts m cs),
  sum_post n c,
  sum_posts n cs (omega (arith, h)),
)
