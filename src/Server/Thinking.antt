-- ===== src/Server/Thinking.antt =====
-- How much a turn may think: src/server/thinking.rs, with the two accessors of src/server/api.rs
-- that it asks the request by.
pub mod Bounds
use inferq.Prelude.{
  ℕ, min, max, Bool, true, false, ◌&&◌, Option, none, some, List, [], ◌∷◌, ltb, if◌then◌else◌,
}

pub data ReasoningEffort : Type 0 where
  no_effort minimal low medium high xhigh : ReasoningEffort

unfoldable pub effort_eq : ReasoningEffort → ReasoningEffort → Bool
effort_eq no_effort no_effort = true
effort_eq minimal minimal = true
effort_eq low low = true
effort_eq medium medium = true
effort_eq high high = true
effort_eq xhigh xhigh = true
effort_eq a b = false

-- The fields of `ChatCompletionRequest` that the plan reads. `effort` is the level that
-- `reasoning_effort()` parses, `kwargs_thinking` the flag inside `chat_template_kwargs`.
pub record Request : Type 0 where
  pub flat_thinking : Option Bool
  pub kwargs_thinking : Option Bool
  pub thinking_budget : Option ℕ
  pub effort : Option ReasoningEffort

pub record ThinkingPolicy : Type 0 where
  pub default_budget : Option ℕ
  pub max_budget : Option ℕ
  pub effort_budgets : List (ReasoningEffort × ℕ)
  pub enabled_by_default : Bool

pub record ThinkingPlan : Type 0 where
  pub open_block : Bool
  pub budget : Option ℕ

unfoldable pub default_policy : ThinkingPolicy
default_policy = record {
  default_budget = none;
  max_budget = none;
  effort_budgets = (minimal, 64) ∷ (low, 256) ∷ (medium, 1024) ∷ (high, 4096) ∷ (xhigh, 16384) ∷ [];
  enabled_by_default = true;
}

-- `BTreeMap::get`, copied.
unfoldable pub budget_of : ReasoningEffort → List (ReasoningEffort × ℕ) → Option ℕ
unfolding effort_eq
budget_of wanted [] = none
budget_of wanted ((level, budget) ∷ budgets) =
    if effort_eq level wanted then some budget else budget_of wanted budgets

unfoldable pub positive : Option ℕ → Bool
positive none = true
positive (some budget) = ltb 0 budget

unfoldable pub all_positive : List (ReasoningEffort × ℕ) → Bool
all_positive [] = true
all_positive ((level, budget) ∷ budgets) = if ltb 0 budget then all_positive budgets else false

-- `validate`: whether it is `Ok`.
unfoldable pub validate : ThinkingPolicy → Bool
unfolding positive all_positive
validate policy =
    all_positive policy.effort_budgets
    && positive policy.default_budget
    && positive policy.max_budget

unfoldable pub or_else {ℓ} : {A : Type ℓ} → Option A → Option A → Option A
or_else none b = b
or_else (some a) b = some a

unfoldable pub asks_no_effort : Option ReasoningEffort → Bool
asks_no_effort none = false
asks_no_effort (some level) = effort_eq level no_effort

-- `ChatCompletionRequest::enable_thinking`.
unfoldable pub enable_thinking : Request → Option Bool
unfolding or_else asks_no_effort effort_eq
enable_thinking request =
    if asks_no_effort request.effort
    then some false
    else or_else request.flat_thinking request.kwargs_thinking

unfoldable pub unwrap_or {ℓ} : {A : Type ℓ} → Option A → A → A
unwrap_or none d = d
unwrap_or (some a) d = a

unfoldable pub effort_budget : Request → ThinkingPolicy → Option ℕ
unfolding budget_of
effort_budget request policy = elim request.effort [
  | none ↦ none
  | some level ↦ budget_of level policy.effort_budgets
]

unfoldable pub cap_budget : Option ℕ → Option ℕ → Option ℕ
cap_budget (some budget) (some limit) = some (min budget limit)
cap_budget (some budget) none = some budget
cap_budget none limit = limit

-- `budget.map(|budget| budget.max(1))`.
unfoldable pub at_least_one : Option ℕ → Option ℕ
at_least_one none = none
at_least_one (some budget) = some (max budget 1)

unfoldable pub plan : Request → ThinkingPolicy → Bool → ThinkingPlan
unfolding enable_thinking unwrap_or effort_budget cap_budget at_least_one or_else
plan request policy supports_thinking =
    if supports_thinking && unwrap_or (enable_thinking request) policy.enabled_by_default
    then record {
      open_block = true;
      budget = at_least_one (
          cap_budget
            (or_else (or_else request.thinking_budget (effort_budget request policy))
              policy.default_budget)
            policy.max_budget);
    }
    else record { open_block = false; budget = none }
