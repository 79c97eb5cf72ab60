-- ===== src/Sampling/Tests.antt =====
-- Runs of `argmax`, over numbers in place of floats.
use inferq.Prelude.{ℕ, ◌≡◌, refl, none, some, List, [], ◌∷◌, ltb, arith}
use inferq.Sampling.{LogitOps, IsOrdered, argmax}
use inferq.Sampling.Argmax.{Answers, argmax-Answers}

abbrev naturals : LogitOps
naturals = record { Logit = ℕ; is_finite = λ v. ltb v 100; greater = λ a b. ltb b a }

naturals-IsOrdered : IsOrdered naturals
naturals-IsOrdered = record {
  not_greater_trans = λ a b c fa fb fc ab bc. ground arith;
  greater_asymm = λ a b fa fb h. ground arith;
}

abbrev some_logits : List ℕ
some_logits = 3 ∷ 9 ∷ 100 ∷ 9 ∷ 4 ∷ []

argmax_last : argmax naturals some_logits ≡ some 3
unfolding argmax
argmax_last = refl

infinite_only : argmax naturals (100 ∷ 200 ∷ []) ≡ none
unfolding argmax
infinite_only = refl

argmax-Answers_example :
    Answers naturals naturals-IsOrdered some_logits (argmax naturals some_logits)
argmax-Answers_example = argmax-Answers naturals naturals-IsOrdered some_logits
