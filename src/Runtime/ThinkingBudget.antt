-- ===== src/Runtime/ThinkingBudget.antt =====
-- `ThinkingBudget` of src/runtime.rs: how many tokens a thinking block may take before it is closed
-- by force.
pub mod History
use inferq.Prelude.{
  ℕ, zero, suc, ◌+◌, ◌-◌, ◌≤◌, ◌<◌, ◌≡◌, refl, sym, ap, ◌∙◌, Bool, true, false, ◌&&◌, Option, none,
  some, List, [], ◌∷◌, ◌++◌, arith, length, drop, ltb, leb, ◌==◌, if◌then◌else◌,
}
use inferq.Ngram.{Token, tokens_eq}

pub data ThinkingBoundary : Type 0 where
  continue natural_closure force_closure : ThinkingBoundary

pub record ThinkingBudget : Type 0 where
  pub budget : ℕ
  pub committed : ℕ
  pub close_tokens : List Token
  pub forced_close_tokens : List Token
  pub recent : List Token
  pub active : Bool
  pub forced : Bool

-- `from_tokenizer`, from the two encodings of the closing tag; the outer `none` is its error.
unfoldable pub from_tokens : Option ℕ → List Token → List Token → Option (Option ThinkingBudget)
from_tokens none close_tokens forced_close_tokens = some none
from_tokens (some budget) [] forced_close_tokens = none
from_tokens (some budget) (t ∷ close_tokens) [] = none
from_tokens (some budget) (t ∷ close_tokens) (f ∷ forced_close_tokens) = some (
    some (record {
      budget = budget;
      committed = 0;
      close_tokens = t ∷ close_tokens;
      forced_close_tokens = f ∷ forced_close_tokens;
      recent = [];
      active = true;
      forced = false;
    }))

unfoldable pub should_force_before_sampling : ThinkingBudget → ThinkingBudget × Bool
should_force_before_sampling b =
    if b.active && b.budget == 0
    then (record b { active = false; forced = true }, true)
    else (b, false)

-- `recent.push(token)`, and `recent.remove(0)` when it is longer than the closing tag.
unfoldable pub slide : ℕ → List Token → Token → List Token
slide size recent token =
    let longer = recent ++ token ∷ [] in if ltb size (length longer) then drop 1 longer else longer

unfoldable pub observe_committed : ThinkingBudget → Token → Bool → ThinkingBudget × ThinkingBoundary
unfolding slide tokens_eq
observe_committed b token enforce_budget =
    if b.active
    then (let recent = slide (length b.close_tokens) b.recent token in
        let counted : ThinkingBudget = record b { committed = b.committed + 1; recent = recent } in
        if tokens_eq recent b.close_tokens
        then (record counted { active = false }, natural_closure)
        else if enforce_budget && leb b.budget (b.committed + 1)
        then (record counted { active = false; forced = true }, force_closure)
        else (counted, continue))
    else (b, continue)

unfoldable pub remaining : ThinkingBudget → Option ℕ
remaining b = if b.active then some (b.budget - b.committed) else none
