-- ===== src/Server/RequestOptions.antt =====
-- What src/server/request.rs makes of the options of a request: `resolve_options`, over the defaults of
-- the server. `f32` is an argument, with no law assumed of its comparisons.
pub mod Bounds
pub mod Servable
mod Tests
use inferq.Prelude.{
  ℕ, ◌+◌, ◌≤◌, min, Bool, true, false, ◌&&◌, Option, none, some, List, leb, ltb, if◌then◌else◌,
}
use inferq.Ngram.{Token}
use inferq.Speculative.{SpeculativeMode, is_speculative}
use inferq.Speculative.Floats.{FloatOps}
use inferq.Runtime.Arms.{GenerationOptions, effective_speculative_mode}
use inferq.Server.Thinking.{ThinkingPlan, or_else}

pub data OptionError : Type 0 where
  no_tokens : OptionError
  bad_temperature : OptionError
  bad_top_p : OptionError
  no_top_k : OptionError
  bad_min_p : OptionError

pub data Checked {ℓ} (A : Type ℓ) : Type ℓ where
  ok : A → Checked A
  err : OptionError → Checked A

infixl 15 ◌>>=◌
abbrev pub ◌>>=◌ {ℓ κ} : {A : Type ℓ} {B : Type κ} → Checked A → (A → Checked B) → Checked B
Checked.ok a >>= k = k a
Checked.err e >>= k = Checked.err e

-- `ensure!`.
abbrev pub ensure {ℓ} : {A : Type ℓ} → Bool → OptionError → A → Checked A
ensure test error a = if test then Checked.ok a else Checked.err error

-- What the checks use of `f32`: the constants, `is_finite`, `a < b` and `a <= b`.
pub record SingleOps : Type 1 where
  pub Single : Type 0
  pub zero_f32 : Single
  pub one_f32 : Single
  pub is_finite : Single → Bool
  pub lt : Single → Single → Bool
  pub le : Single → Single → Bool

unfoldable pub max_output_tokens : ℕ
max_output_tokens = 32768

module _ (F : FloatOps) (S : SingleOps) where
  open S use {Single, zero_f32, one_f32, is_finite, lt, le}

  pub record SamplingConfig : Type 0 where
    pub temperature : Single
    pub top_k : Option ℕ
    pub top_p : Option Single
    pub min_p : Option Single
    pub seed : ℕ

  -- `GenerationOptions`, as far as a request or the thinking plan decides on it.
  pub record ServedOptions : Type 0 where
    pub generation : GenerationOptions F
    pub max_new_tokens : ℕ
    pub sampling : SamplingConfig
    pub thinking_budget : Option ℕ

  -- The fields of `ChatCompletionRequest` that `resolve_options` reads.
  pub record SamplingRequest : Type 0 where
    pub max_tokens : Option ℕ
    pub max_completion_tokens : Option ℕ
    pub temperature : Option Single
    pub top_p : Option Single
    pub top_k : Option ℕ
    pub min_p : Option Single
    pub seed : Option ℕ

  unfoldable pub requested_max_new_tokens : SamplingRequest → Option ℕ
  unfolding or_else
  requested_max_new_tokens request = or_else request.max_completion_tokens request.max_tokens

  unfoldable pub set_max_new_tokens : Option ℕ → ServedOptions → Checked ServedOptions
  set_max_new_tokens none options = Checked.ok options
  set_max_new_tokens (some n) options =
      ensure (ltb 0 n) OptionError.no_tokens (record options { max_new_tokens = n })

  unfoldable pub cap_max_new_tokens : ServedOptions → ServedOptions
  unfolding max_output_tokens
  cap_max_new_tokens options = record options {
    max_new_tokens = min options.max_new_tokens max_output_tokens;
  }

  unfoldable pub is_temperature : Single → Bool
  is_temperature t = is_finite t && le zero_f32 t

  unfoldable pub set_temperature : Option Single → ServedOptions → Checked ServedOptions
  unfolding is_temperature
  set_temperature none options = Checked.ok options
  set_temperature (some t) options =
      ensure (is_temperature t) OptionError.bad_temperature
        (record options { sampling = record options.sampling { temperature = t } })

  unfoldable pub is_top_p : Single → Bool
  is_top_p p = lt zero_f32 p && le p one_f32

  unfoldable pub set_top_p : Option Single → ServedOptions → Checked ServedOptions
  unfolding is_top_p
  set_top_p none options = Checked.ok options
  set_top_p (some p) options = ensure (is_top_p p) OptionError.bad_top_p (record options {
    sampling = record options.sampling { top_p = if lt p one_f32 then some p else none };
  })

  unfoldable pub set_top_k : Option ℕ → ServedOptions → Checked ServedOptions
  set_top_k none options = Checked.ok options
  set_top_k (some k) options =
      ensure (ltb 0 k) OptionError.no_top_k
        (record options { sampling = record options.sampling { top_k = some k } })

  unfoldable pub is_min_p : Single → Bool
  is_min_p p = le zero_f32 p && le p one_f32

  unfoldable pub set_min_p : Option Single → ServedOptions → Checked ServedOptions
  unfolding is_min_p
  set_min_p none options = Checked.ok options
  set_min_p (some p) options = ensure (is_min_p p) OptionError.bad_min_p (record options {
    sampling = record options.sampling { min_p = if lt zero_f32 p then some p else none };
  })

  unfoldable pub set_seed : Option ℕ → ServedOptions → ServedOptions
  set_seed none options = options
  set_seed (some seed) options = record options {
    sampling = record options.sampling { seed = seed };
  }

  -- A closed block carries no budget.
  unfoldable pub set_thinking : ThinkingPlan → ServedOptions → ServedOptions
  set_thinking thinking options = record options {
    thinking_budget = if thinking.open_block then thinking.budget else none;
  }

  unfoldable pub disable_speculation_for_sampling : ServedOptions → ServedOptions
  disable_speculation_for_sampling options =
      if lt zero_f32 options.sampling.temperature
        && is_speculative (effective_speculative_mode F options.generation)
      then record options {
        generation = record options.generation {
          speculative_mode = SpeculativeMode.off;
          speculative_mtp_draft_tokens = 0;
          speculative_ngram_draft_tokens = 0;
        };
      }
      else options

  unfoldable pub resolve_options :
      ServedOptions → SamplingRequest → ThinkingPlan → Checked ServedOptions
  unfolding requested_max_new_tokens set_max_new_tokens cap_max_new_tokens set_temperature set_top_p
      set_top_k set_min_p set_seed set_thinking disable_speculation_for_sampling
  resolve_options defaults request thinking = do
    sized ← set_max_new_tokens (requested_max_new_tokens request) defaults
    heated ← set_temperature request.temperature (cap_max_new_tokens sized)
    nucleus ← set_top_p request.top_p heated
    top ← set_top_k request.top_k nucleus
    tailed ← set_min_p request.min_p top
    Checked.ok
        (disable_speculation_for_sampling (set_thinking thinking (set_seed request.seed tailed)))
