-- ===== src/Server/Thinking/Bounds.antt =====
-- What a thinking plan of src/server/thinking.rs promises.
use inferq.Prelude.{
  ℕ, ◌≤◌, ◌≡◌, refl, min, max, Bool, true, false, ◌&&◌, Option, none, some, arith, ◌⊎◌, inl, inr,
  Bool-cases, tests,
}
use inferq.Server.Thinking.{
  Request, ThinkingPolicy, validate, positive, enable_thinking, plan, unwrap_or, cap_budget,
  at_least_one,
}

-- Whether a budget keeps within an optional ceiling.
abbrev pub IsWithin : ℕ → Option ℕ → Type 0
IsWithin n limit = (limit ≡ none) ⊎ ((m : ℕ) × (limit ≡ some m) × (n ≤ m))

-- What an open block's budget may be under a ceiling.
abbrev pub IsGranted : Option ℕ → Option ℕ → Type 0
IsGranted budget limit =
    ((budget ≡ none) × (limit ≡ none)) ⊎ ((n : ℕ) × (budget ≡ some n) × (1 ≤ n) × IsWithin n limit)

cap_budget-IsGranted :
    (asked limit : Option ℕ)
    → positive limit ≡ true
    → IsGranted (at_least_one (cap_budget asked limit)) limit
unfolding cap_budget at_least_one positive
cap_budget-IsGranted none none valid = inl (refl, refl)
cap_budget-IsGranted none (some m) valid =
    inr (max m 1, refl, omega arith, inr (m, refl, omega tests))
cap_budget-IsGranted (some n) none valid = inr (max n 1, refl, omega arith, inl refl)
cap_budget-IsGranted (some n) (some m) valid =
    inr (max (min n m) 1, refl, omega arith, inr (m, refl, omega tests))

validate-max :
    (policy : ThinkingPolicy) → validate policy ≡ true → positive policy.max_budget ≡ true
unfolding validate
validate-max policy valid = ground arith

-- Under a validated policy a plan either leaves the block shut and gives no budget, or opens it;
-- an open block has no budget only where the operator set no ceiling, and otherwise a budget of at
-- least one token that does not exceed the ceiling.
pub plan-budget_bounds :
    (request : Request) (policy : ThinkingPolicy) (supports_thinking : Bool)
    → validate policy ≡ true
    → let p = plan request policy supports_thinking in
      ((p.open_block ≡ false) × (p.budget ≡ none))
      ⊎ ((p.open_block ≡ true) × IsGranted p.budget policy.max_budget)
unfolding plan
plan-budget_bounds request policy supports valid =
    elim (Bool-cases (supports && unwrap_or (enable_thinking request) policy.enabled_by_default)) [
      | inl e ↦
          inr
            (simp e, rw (e) (cap_budget-IsGranted _ policy.max_budget (validate-max policy valid)))
      | inr e ↦ inl (simp e, simp e)
    ]
