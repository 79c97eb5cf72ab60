-- ===== src/Sampling.antt =====
-- The greedy choice of src/sampling.rs, over logits whose comparison is an argument of the model.
pub mod Argmax
mod Tests
use inferq.Prelude.{
  ℕ, zero, suc, ◌+◌, ◌≤◌, ◌<◌, ◌≡◌, refl, Bool, true, false, Option, none, some, List, [], ◌∷◌,
  arith, get_elem?, if◌then◌else◌, Bool-cases, inl, inr,
}

-- What the program uses of `f32`: `is_finite`, and whether `a.partial_cmp(b)` is `Greater`.
pub record LogitOps : Type 1 where
  pub Logit : Type 0
  pub is_finite : Logit → Bool
  pub greater : Logit → Logit → Bool

module _ (L : LogitOps) where
  open L use {Logit, is_finite, greater}

  -- `max_by` over the finite values, which keeps the later of two that compare equal: `best` is
  -- the best index and value so far, `i` the index of the first value left.
  unfoldable pub argmax_from : ℕ → Option (ℕ × Logit) → List Logit → Option (ℕ × Logit)
  argmax_from i best [] = best
  argmax_from i best (v ∷ values) =
      argmax_from (i + 1)
        (if is_finite v
          then elim best [
            | none ↦ some (i, v)
            | some (j, b) ↦ if greater b v then some (j, b) else some (i, v)
          ]
          else best)
        values

  -- `none` is the error that all logits are non-finite.
  unfoldable pub argmax : List Logit → Option ℕ
  unfolding argmax_from
  argmax values = elim (argmax_from 0 none values) [ none ↦ none | some (i, v) ↦ some i ]

  -- IEEE comparison of finite values: what is not greater is transitive, and nothing is greater
  -- than itself.
  pub record IsOrdered : Type 0 where
    pub not_greater_trans :
        (a b c : Logit)
        → is_finite a ≡ true
        → is_finite b ≡ true
        → is_finite c ≡ true
        → greater a b ≡ false
        → greater b c ≡ false
        → greater a c ≡ false
    pub greater_asymm :
        (a b : Logit)
        → is_finite a ≡ true
        → is_finite b ≡ true
        → greater a b ≡ true
        → greater b a ≡ false
