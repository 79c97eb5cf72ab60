-- ===== src/Runtime/Turn/Budget.antt =====
-- What a thinking budget of src/runtime.rs does as a turn observes its tokens.
use inferq.Prelude.{
  ℕ, suc, ◌-◌, ◌≤◌, ◌<◌, ◌≡◌, refl, Bool, true, false, Option, none, some, length, arith,
}
use inferq.Ngram.{Token}
use inferq.Runtime.ThinkingBudget.{ThinkingBudget, continue, observe_committed}
use inferq.Runtime.Turn.{observe_thinking, is_force_closure}

-- The block is closed, or there is no budget.
abbrev pub IsClosed : Option ThinkingBudget → Type 0
IsClosed none = Unit
IsClosed (some b) = b.active ≡ false

-- An open block has room for `n` tokens more.
abbrev pub HasRoom : Option ThinkingBudget → ℕ → Type 0
HasRoom none n = Unit
HasRoom (some b) n = (b.active ≡ true) → n ≤ b.budget - b.committed

-- A closure has at least one token.
abbrev pub IsClosable : Option ThinkingBudget → Type 0
IsClosable none = Unit
IsClosable (some b) = 0 < length b.forced_close_tokens

pub observe_thinking-closed :
    (thinking : Option ThinkingBudget) (token : Token) (enforce : Bool)
    → IsClosed thinking
    → observe_thinking thinking token enforce ≡ (thinking, continue)
unfolding observe_thinking observe_committed
observe_thinking-closed none token enforce h = refl
observe_thinking-closed (some b) token enforce h = rw (observe_committed, h) refl

-- A token at which the budget is not enforced forces nothing.
pub is_force_closure-unenforced :
    (thinking : Option ThinkingBudget) (token : Token)
    → is_force_closure (observe_thinking thinking token false).1 ≡ false
unfolding observe_thinking observe_committed is_force_closure
is_force_closure-unenforced none token = refl
is_force_closure-unenforced (some b) token = ground arith

pub observe_thinking-IsClosed :
    (thinking : Option ThinkingBudget) (token : Token) (enforce : Bool)
    → is_force_closure (observe_thinking thinking token enforce).1 ≡ true
    → IsClosed (observe_thinking thinking token enforce).0
unfolding observe_thinking observe_committed is_force_closure
observe_thinking-IsClosed none token enforce h = tt
observe_thinking-IsClosed (some b) token enforce h = ground arith

pub observe_thinking-IsClosable :
    (thinking : Option ThinkingBudget) (token : Token) (enforce : Bool)
    → IsClosable thinking
    → IsClosable (observe_thinking thinking token enforce).0
unfolding observe_thinking observe_committed
observe_thinking-IsClosable none token enforce h = tt
observe_thinking-IsClosable (some b) token enforce h = ground arith

-- The closure is forced at the last token there is room for.
pub force_closure-last :
    (thinking : Option ThinkingBudget) (token : Token) (enforce : Bool) (n : ℕ)
    → HasRoom thinking (suc n)
    → is_force_closure (observe_thinking thinking token enforce).1 ≡ true
    → n ≡ 0
unfolding observe_thinking observe_committed is_force_closure
force_closure-last none token enforce n room h = cc
force_closure-last (some b) token enforce n room h = ground arith

pub observe_thinking-HasRoom :
    (thinking : Option ThinkingBudget) (token : Token) (enforce : Bool) (n : ℕ)
    → HasRoom thinking (suc n)
    → HasRoom (observe_thinking thinking token enforce).0 n
unfolding observe_thinking observe_committed
observe_thinking-HasRoom none token enforce n room = tt
observe_thinking-HasRoom (some b) token enforce n room = ground arith
