-- ===== src/Server/RequestOptions/Servable.antt =====
-- What `resolve_options` promises of the options it gives.
use inferq.Prelude.{
  ℕ, ◌≤◌, ◌≡◌, refl, false, Option, none, some, ltb, if◌then◌else◌, arith, tests, ◌⊎◌, inl, inr,
  Bool-cases,
}
use mathlib.Core.Path.{subst}
use inferq.Speculative.{is_speculative}
use inferq.Speculative.Floats.{FloatOps}
use inferq.Runtime.Arms.{effective_speculative_mode}
use inferq.Server.Thinking.{ThinkingPlan}
use inferq.Server.RequestOptions.{
  OptionError, Checked, SingleOps, max_output_tokens, ServedOptions, SamplingRequest,
  requested_max_new_tokens, set_max_new_tokens, cap_max_new_tokens, set_temperature, set_top_p,
  set_top_k, set_min_p, set_seed, set_thinking, disable_speculation_for_sampling, resolve_options,
}
use inferq.Server.RequestOptions.Bounds.{OkAll, bind-OkAll, ensure-OkAll}

OkAll-ok :
    {A : Type 0} (P : A → Type 0) {r : Checked A} {a : A} → r ≡ Checked.ok a → OkAll P r → P a
OkAll-ok P e h = subst (λ r. OkAll P r) e h

module _ (F : FloatOps) (S : SingleOps) where
  open S use {Single, zero_f32, lt}

  -- Speculative modes are asked for at temperature zero only.
  abbrev pub IsGreedyOrPlain : ServedOptions F S → Type 0
  IsGreedyOrPlain o =
      (lt zero_f32 o.sampling.temperature ≡ false)
      ⊎ (is_speculative (effective_speculative_mode F o.generation) ≡ false)

  abbrev pub IsServable : ThinkingPlan → ServedOptions F S → Type 0
  IsServable thinking o =
      (1 ≤ o.max_new_tokens)
      × (o.max_new_tokens ≤ max_output_tokens)
      × (o.thinking_budget ≡ (if thinking.open_block then thinking.budget else none))
      × IsGreedyOrPlain o

  abbrev IsSized : ServedOptions F S → Type 0
  IsSized o = (1 ≤ o.max_new_tokens) × (o.max_new_tokens ≤ max_output_tokens)

  set_max_new_tokens-All :
      (asked : Option ℕ) (o : ServedOptions F S)
      → 1 ≤ o.max_new_tokens
      → OkAll (λ sized. 1 ≤ sized.max_new_tokens) (set_max_new_tokens F S asked o)
  unfolding set_max_new_tokens
  set_max_new_tokens-All none o h = h
  set_max_new_tokens-All (some n) o h =
      ensure-OkAll (λ sized. 1 ≤ sized.max_new_tokens) (ltb 0 n) OptionError.no_tokens
        (λ e. omega tests)

  cap_max_new_tokens-IsSized :
      (o : ServedOptions F S) → 1 ≤ o.max_new_tokens → IsSized (cap_max_new_tokens F S o)
  unfolding cap_max_new_tokens max_output_tokens
  cap_max_new_tokens-IsSized o h = (omega arith, omega arith)

  set_temperature-IsSized :
      (asked : Option Single) (o : ServedOptions F S)
      → IsSized o
      → OkAll IsSized (set_temperature F S asked o)
  unfolding set_temperature
  set_temperature-IsSized none o h = h
  set_temperature-IsSized (some t) o h = ensure-OkAll IsSized _ _ (λ e. h)

  set_top_p-IsSized :
      (asked : Option Single) (o : ServedOptions F S)
      → IsSized o
      → OkAll IsSized (set_top_p F S asked o)
  unfolding set_top_p
  set_top_p-IsSized none o h = h
  set_top_p-IsSized (some p) o h = ensure-OkAll IsSized _ _ (λ e. h)

  set_top_k-IsSized :
      (asked : Option ℕ) (o : ServedOptions F S) → IsSized o → OkAll IsSized (set_top_k F S asked o)
  unfolding set_top_k
  set_top_k-IsSized none o h = h
  set_top_k-IsSized (some k) o h = ensure-OkAll IsSized _ _ (λ e. h)

  set_min_p-IsSized :
      (asked : Option Single) (o : ServedOptions F S)
      → IsSized o
      → OkAll IsSized (set_min_p F S asked o)
  unfolding set_min_p
  set_min_p-IsSized none o h = h
  set_min_p-IsSized (some p) o h = ensure-OkAll IsSized _ _ (λ e. h)

  set_seed-IsSized :
      (asked : Option ℕ) (o : ServedOptions F S) → IsSized o → IsSized (set_seed F S asked o)
  unfolding set_seed
  set_seed-IsSized none o h = h
  set_seed-IsSized (some seed) o h = h

  disable_speculation-IsServable :
      (thinking : ThinkingPlan) (o : ServedOptions F S)
      → IsSized o
      → IsServable thinking (disable_speculation_for_sampling F S (set_thinking F S thinking o))
  unfolding disable_speculation_for_sampling set_thinking effective_speculative_mode is_speculative
      max_output_tokens
  disable_speculation-IsServable thinking o h =
      elim (Bool-cases (lt zero_f32 o.sampling.temperature)) [
        | inr greedy ↦ rw greedy (h.0, h.1, refl, inl greedy)
        | inl samples ↦
            elim (Bool-cases (is_speculative (effective_speculative_mode F o.generation))) [
              | inl speculates ↦ rw (samples, speculates) (h.0, h.1, refl, inr refl)
              | inr plain ↦ rw (samples, plain) (h.0, h.1, refl, inr plain)
            ]
      ]

  resolve_options-OkAll :
      (defaults : ServedOptions F S) (request : SamplingRequest F S) (thinking : ThinkingPlan)
      → 1 ≤ defaults.max_new_tokens
      → OkAll (IsServable thinking) (resolve_options F S defaults request thinking)
  unfolding resolve_options
  resolve_options-OkAll defaults request thinking h =
      bind-OkAll (λ sized. 1 ≤ sized.max_new_tokens) (IsServable thinking) _ _
        (set_max_new_tokens-All (requested_max_new_tokens F S request) defaults h)
        (λ sized at_least.
          bind-OkAll IsSized (IsServable thinking) _ _
            (set_temperature-IsSized request.temperature (cap_max_new_tokens F S sized)
              (cap_max_new_tokens-IsSized sized at_least))
            (λ heated h1.
              bind-OkAll IsSized (IsServable thinking) _ _
                (set_top_p-IsSized request.top_p heated h1)
                (λ nucleus h2.
                  bind-OkAll IsSized (IsServable thinking) _ _
                    (set_top_k-IsSized request.top_k nucleus h2)
                    (λ top h3.
                      bind-OkAll IsSized (IsServable thinking) _ _
                        (set_min_p-IsSized request.min_p top h3)
                        (λ tailed h4.
                          disable_speculation-IsServable thinking (set_seed F S request.seed tailed)
                            (set_seed-IsSized request.seed tailed h4))))))

  -- Over defaults that allow at least one token, the options that `resolve_options` gives allow at
  -- least one and at most 32768, carry the budget of the plan if its block is open and none if it is
  -- closed, and ask for speculation only if the temperature is not above zero.
  pub resolve_options-IsServable :
      (defaults : ServedOptions F S) (request : SamplingRequest F S) (thinking : ThinkingPlan)
      (options : ServedOptions F S)
      → 1 ≤ defaults.max_new_tokens
      → resolve_options F S defaults request thinking ≡ Checked.ok options
      → IsServable thinking options
  resolve_options-IsServable defaults request thinking options h e =
      OkAll-ok (IsServable thinking) e (resolve_options-OkAll defaults request thinking h)
