-- ===== src/PromptCache.antt =====
-- The persistent prompt cache of src/prompt_cache/mod.rs: the boundaries at which entries stand,
-- and the index of the entries on disk.
pub mod Boundaries
pub mod Index
pub mod Evict
pub mod Lookup
mod Tests
use mathlib.Core.Option
use inferq.Prelude.{
  ℕ, zero, suc, ◌+◌, ◌-◌, ◌*◌, ◌/◌, min, max, Bool, true, false, ◌&&◌, ◌||◌, not, Option, none,
  some, List, [], ◌∷◌, ◌++◌, map, ltb, leb, ◌==◌, if◌then◌else◌, saturating_add,
}
use inferq.Ngram.{Token}

abbrev pub default_block_tokens : ℕ
default_block_tokens = 256

abbrev pub default_min_tokens : ℕ
default_min_tokens = 512

-- `PromptCacheConfig` without its directory.
pub record PromptCacheConfig : Type 0 where
  pub budget_bytes : ℕ
  pub block_tokens : ℕ
  pub min_tokens : ℕ

unfoldable pub default_config : PromptCacheConfig
default_config = record {
  budget_bytes = 20 * 1024 * 1024 * 1024;
  block_tokens = default_block_tokens;
  min_tokens = default_min_tokens;
}

-- `validate`: whether it is `Ok`.
unfoldable pub validate : PromptCacheConfig → Bool
validate config = ltb 0 config.block_tokens && leb config.block_tokens config.min_tokens

-- The values of `(0..=value).rev().step_by(step)`, at `rounds` steps above zero.
unfoldable pub steps_down : ℕ → ℕ → ℕ → List ℕ
steps_down step zero value = value ∷ []
steps_down step (suc rounds) value = value ∷ steps_down step rounds (value - step)

unfoldable pub filter : (ℕ → Bool) → List ℕ → List ℕ
filter p [] = []
filter p (n ∷ ns) = let rest = filter p ns in if p n then n ∷ rest else rest

unfoldable pub find : (ℕ → Bool) → List ℕ → Option ℕ
find p [] = none
find p (n ∷ ns) = let rest = find p ns in if p n then some n else rest

-- `checked_div` is none at a block of no tokens, and `highest` is 0 then.
unfoldable pub highest_boundary : ℕ → ℕ → ℕ
highest_boundary len block = if block == 0 then 0 else (len - 1) / block * block

unfoldable pub boundaries : ℕ → ℕ → ℕ → List ℕ
unfolding steps_down filter highest_boundary
boundaries len block least =
    let highest = highest_boundary len block in
    let step = max block 1 in
    filter (λ boundary. leb least boundary && ltb 0 boundary)
      (steps_down step (highest / step) highest)

unfoldable pub store_ceiling : ℕ → Option ℕ → ℕ
store_ceiling len none = len
store_ceiling len (some stable) = min stable len

unfoldable pub store_boundary : ℕ → ℕ → Option ℕ → ℕ → ℕ → Option ℕ
unfolding boundaries find store_ceiling
store_boundary len reused stable block least =
    find (λ boundary. ltb reused boundary)
      (filter (λ boundary. leb boundary (store_ceiling len stable)) (boundaries len block least))
