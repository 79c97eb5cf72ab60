-- ===== src/Server/Tests.antt =====
-- Runs of the thinking plan.
use inferq.Prelude.{◌≡◌, refl, true, false, none, some, ◌⊎◌}
use inferq.Server.Thinking.{Request, ThinkingPolicy, default_policy, high, validate, plan}
use inferq.Server.Thinking.Bounds.{IsGranted, plan-budget_bounds}

abbrev capped : ThinkingPolicy
capped = record default_policy { max_budget = some 1000 }

abbrev hard : Request
hard = record {
  flat_thinking = none;
  kwargs_thinking = none;
  thinking_budget = none;
  effort = some high;
}

capped_run : plan hard capped true ≡ record { open_block = true; budget = some 1000 }
unfolding plan default_policy
capped_run = refl

capped-valid : validate capped ≡ true
unfolding validate default_policy
capped-valid = refl

plan-budget_bounds_example :
    let p = plan hard capped true in
    ((p.open_block ≡ false) × (p.budget ≡ none))
    ⊎ ((p.open_block ≡ true) × IsGranted p.budget capped.max_budget)
plan-budget_bounds_example = plan-budget_bounds hard capped true capped-valid
