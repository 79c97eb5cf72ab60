-- ===== src/PromptCache/Tests.antt =====
-- Runs of the boundaries of the prompt cache.
use inferq.Prelude.{◌≡◌, refl, arith, some, [], ◌∷◌, true}
use inferq.PromptCache.{boundaries, store_boundary, store_ceiling, validate, default_config}
use inferq.PromptCache.Boundaries.{IsStorable, IsGreatest, store_boundary-IsGreatest}

multiples_below : boundaries 1000 256 256 ≡ 768 ∷ 512 ∷ 256 ∷ []
unfolding boundaries
multiples_below = refl

block_of_none : boundaries 1000 0 256 ≡ []
unfolding boundaries
block_of_none = refl

default_is_valid : validate default_config ≡ true
unfolding validate default_config
default_is_valid = refl

store_boundary-IsGreatest_example :
    IsGreatest
      (IsStorable 1000 256 (store_ceiling 1000 (some 600)) 256 256)
      (store_boundary 1000 256 (some 600) 256 256)
store_boundary-IsGreatest_example =
    store_boundary-IsGreatest 1000 256 (some 600) 256 256 (omega arith)

stored_at : store_boundary 1000 256 (some 600) 256 256 ≡ some 512
unfolding store_boundary
stored_at = refl
