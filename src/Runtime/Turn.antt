-- ===== src/Runtime/Turn.antt =====
-- One turn of generation in src/runtime.rs: what both decoding loops share.
--
-- The target's state is the list of tokens that it has evaluated, and its logits are a function of
-- that list. Whether a pass fits the model's positions is asked where it counts, of the pass over a
-- seed and its drafts; a single row or a prefill that does not fit is left out. The output callback is a function of all that was generated, the new token included:
-- whether it is `Ok`.
pub mod Budget
use inferq.Prelude.{
  ℕ, ◌+◌, Bool, true, false, not, Option, none, some, List, [], ◌∷◌, ◌++◌, if◌then◌else◌,
}
use inferq.Ngram.{Token}
use inferq.Runtime.ThinkingBudget.{
  ThinkingBoundary, continue, force_closure, ThinkingBudget, observe_committed,
}

-- What a turn is asked for: `max_new_tokens`, `is_stop_token` and the callback; and the model's
-- `max_position_embeddings`.
pub record TurnOptions : Type 0 where
  pub max_position : ℕ
  pub max_new_tokens : ℕ
  pub is_stop : Token → Bool
  pub on_token : List Token → Bool

-- The session and the turn's locals. `evaluated` is the target's state, `pending_token` the token
-- that was emitted and not evaluated.
pub record Turn : Type 0 where
  pub generated : List Token
  pub evaluated : List Token
  pub pending_token : Option Token
  pub thinking : Option ThinkingBudget

-- How a turn ends: with a result, by the callback's error, by an error of its own, or, in the model
-- only, for want of fuel.
pub data Ending : Type 0 where
  finished halted : Turn → Ending
  failed out_of_fuel : Ending

-- The result of a part of a turn: it goes on with a state, or the turn ends.
pub data Progress (S : Type 0) : Type 0 where
  go : S → Progress S
  stop : Ending → Progress S

infixl 5 ◌>>=◌
abbrev pub ◌>>=◌ : {S T : Type 0} → Progress S → (S → Progress T) → Progress T
go s >>= f = f s
stop o >>= f = stop o

-- The rest of a turn after a part of it.
abbrev pub carry_on : {S : Type 0} → (S → Ending) → Progress S → Ending
carry_on rest (go s) = rest s
carry_on rest (stop o) = o

-- `generated.push(token)`.
abbrev pub emitted : Turn → Token → Turn
emitted t token = record t { generated = t.generated ++ token ∷ [] }

-- A token goes through the target.
abbrev pub evaluate : Turn → Token → Turn
evaluate t token = record t { evaluated = t.evaluated ++ token ∷ [] }

-- `evaluate` of the token that is pending, if one is.
abbrev pub evaluate_pending : Turn → Option Token → Turn
evaluate_pending t none = t
evaluate_pending t (some token) = evaluate t token

-- `thinking.as_mut().map_or(Continue, |budget| budget.observe_committed(token, enforce))`.
unfoldable pub observe_thinking :
    Option ThinkingBudget → Token → Bool → Option ThinkingBudget × ThinkingBoundary
observe_thinking none token enforce = (none, continue)
observe_thinking (some b) token enforce =
    let (after, boundary) = observe_committed b token enforce in (some after, boundary)

unfoldable pub is_force_closure : ThinkingBoundary → Bool
is_force_closure force_closure = true
is_force_closure boundary = false

-- `forced_close_tokens()`, which is asked for only where there is a budget.
unfoldable pub closure_of : Option ThinkingBudget → List Token
closure_of none = []
closure_of (some b) = b.forced_close_tokens
