-- ===== src/Server/RequestOptions/Tests.antt =====
-- Runs of `resolve_options`, over hundredths in place of floats.
use inferq.Prelude.{ℕ, ◌+◌, ◌-◌, ◌*◌, ◌/◌, ◌^◌, ◌≡◌, refl, arith, true, false, none, some, ltb, leb}
use inferq.Speculative.{SpeculativeMode, is_speculative}
use inferq.Runtime.Arms.{effective_speculative_mode}
use inferq.Speculative.Floats.{FloatOps}
use inferq.Server.Thinking.{ThinkingPlan, or_else}
use inferq.Server.RequestOptions.{
  OptionError, Checked, SingleOps, ServedOptions, SamplingRequest, resolve_options,
  requested_max_new_tokens, is_temperature, is_top_p,
}
use inferq.Server.RequestOptions.Bounds.{
  error_of, violation, first_violation, resolve_options-refuses,
}
use inferq.Server.RequestOptions.Servable.{IsServable, resolve_options-IsServable}

abbrev doubles : FloatOps
doubles = record {
  Float = ℕ;
  literal = λ m k. m * 100 / 10 ^ k;
  of_usize = λ n. n * 100;
  add = λ a b. a + b;
  sub = λ a b. a - b;
  mul = λ a b. a * b / 100;
  div = λ a b. a * 100 / b;
  lt = ltb;
  ge = λ a b. leb b a;
}

abbrev singles : SingleOps
singles = record {
  Single = ℕ;
  zero_f32 = 0;
  one_f32 = 100;
  is_finite = λ a. true;
  lt = ltb;
  le = leb;
}

abbrev defaults : ServedOptions doubles singles
defaults = record {
  generation = record {
    speculative_mode = SpeculativeMode.auto;
    policy = record {
      ngram_draft_floor = 2;
      mtp_depth_floor = 2;
      mtp_depth_start = 4;
      ngram_suspend_below = 40;
      mtp_suspend_below = 50;
      ewma_alpha = 20;
      backoff_tokens = 64;
      backoff_cap = 512;
      adaptive_length = true;
      ewma_backoff = true;
    };
    speculative_mtp_draft_tokens = 3;
    speculative_ngram_draft_tokens = 5;
  };
  max_new_tokens = 256;
  sampling = record { temperature = 0; top_k = none; top_p = none; min_p = none; seed = 0 };
  thinking_budget = none;
}

-- A client that samples, bounds the output by more than the server allows, and sends `top_p` 1.
abbrev sampled : SamplingRequest doubles singles
sampled = record {
  max_tokens = some 5;
  max_completion_tokens = some 100000;
  temperature = some 70;
  top_p = some 100;
  top_k = some 40;
  min_p = none;
  seed = some 9;
}

abbrev closed_block : ThinkingPlan
closed_block = record { open_block = false; budget = some 64 }

abbrev served : ServedOptions doubles singles
served = record {
  generation = record defaults.generation {
    speculative_mode = SpeculativeMode.off;
    speculative_mtp_draft_tokens = 0;
    speculative_ngram_draft_tokens = 0;
  };
  max_new_tokens = 32768;
  sampling = record { temperature = 70; top_k = some 40; top_p = none; min_p = none; seed = 9 };
  thinking_budget = none;
}

sampled_run : resolve_options doubles singles defaults sampled closed_block ≡ Checked.ok served
unfolding resolve_options is_speculative effective_speculative_mode
sampled_run = refl

resolve_options-IsServable_example : IsServable doubles singles closed_block served
resolve_options-IsServable_example =
    resolve_options-IsServable doubles singles defaults sampled closed_block served (omega arith)
      sampled_run

-- Two fields out of range: the first decides the error.
abbrev refused_twice : SamplingRequest doubles singles
refused_twice = record sampled { top_p = some 101; top_k = some 0 }

refused_twice_run : first_violation doubles singles refused_twice ≡ some OptionError.bad_top_p
unfolding first_violation or_else violation requested_max_new_tokens is_temperature is_top_p
refused_twice_run = refl

resolve_options-refuses_example :
    error_of (resolve_options doubles singles defaults refused_twice closed_block)
    ≡ first_violation doubles singles refused_twice
resolve_options-refuses_example =
    resolve_options-refuses doubles singles defaults refused_twice closed_block
