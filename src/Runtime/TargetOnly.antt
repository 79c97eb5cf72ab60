-- ===== src/Runtime/TargetOnly.antt =====
-- Decoding without speculation: the target-only path of `generate_tokens_with_callback` in
-- src/runtime.rs, at temperature zero.
pub mod Ends
pub mod Plain
pub mod Choice
use inferq.Prelude.{
  ℕ, zero, suc, ◌+◌, Bool, true, false, not, ◌||◌, Option, none, some, List, [], ◌∷◌, ◌++◌, length,
  leb, ltb, ◌==◌, if◌then◌else◌,
}
use inferq.Ngram.{Token}
use inferq.Sampling.{LogitOps}
use inferq.Runtime.Verify.{top_token}
use inferq.Runtime.ThinkingBudget.{ThinkingBudget, should_force_before_sampling}
use inferq.Runtime.Turn.{
  TurnOptions, Turn, Ending, finished, halted, failed, out_of_fuel, Progress, go, stop, ◌>>=◌,
  carry_on, emitted, evaluate, evaluate_pending, observe_thinking, is_force_closure, closure_of,
}

-- `continuation_input`.
unfoldable pub continuation_input : List Token → Option Token → List Token
continuation_input prompt none = prompt
continuation_input prompt (some pending) = pending ∷ prompt

-- `should_force_before_sampling` of the budget, where there is one.
unfoldable pub force_first : Option ThinkingBudget → Option ThinkingBudget × Bool
unfolding should_force_before_sampling
force_first none = (none, false)
force_first (some b) = let (after, forced) = should_force_before_sampling b in (some after, forced)

module _ (L : LogitOps) (logits : List Token → List L.Logit) (request : TurnOptions) where
  -- The loop of a forced closure: each token is emitted and evaluated.
  unfoldable pub close_tokens : List Token → Turn → Progress Turn
  close_tokens [] t = go t
  close_tokens (token ∷ tokens) t =
      let out = emitted t token in
      elim (request.on_token out.generated) [
        | true ↦ close_tokens tokens (evaluate out token)
        | false ↦ stop (halted (record out { pending_token = some token }))
      ]

  -- `force_close_thinking_target_only`; the error is that nothing was evaluated.
  unfoldable pub force_close_thinking_target_only : Option Token → List Token → Turn → Progress Turn
  unfolding close_tokens
  force_close_thinking_target_only none [] t = stop failed
  force_close_thinking_target_only pending closure t =
      close_tokens closure (evaluate_pending t pending)

  -- What follows the commit of a token in the loop, after the budget has observed it.
  unfoldable pub after_commit : Turn → Token → Bool → Progress Turn
  unfolding force_close_thinking_target_only closure_of
  after_commit t token forced =
      if request.is_stop token
      then stop (finished t)
      else if forced
      then force_close_thinking_target_only (some token) (closure_of t.thinking)
          (record t { pending_token = none })
        >>= (λ (closed : Turn).
            if leb request.max_new_tokens (length closed.generated)
            then stop (finished closed)
            else go closed)
      else if leb request.max_new_tokens (length t.generated)
      then stop (finished t)
      else go (evaluate (record t { pending_token = none }) token)

  -- A sampled token is emitted and observed.
  unfoldable pub commit : Turn → Token → Progress Turn
  unfolding after_commit observe_thinking is_force_closure
  commit t token =
      let out = record (emitted t token) { pending_token = some token } in
      if request.on_token out.generated
      then (let (thinking, boundary) =
            observe_thinking t.thinking token (not (request.is_stop token)) in
          after_commit (record out { thinking = thinking }) token (is_force_closure boundary))
      else stop (halted out)

  -- One round of the `while` loop.
  unfoldable pub target_step : Turn → Progress Turn
  unfolding commit top_token
  target_step t =
      if ltb (length t.generated) request.max_new_tokens
      then elim (top_token L (logits t.evaluated)) [
        | none ↦ stop failed
        | some token ↦ commit t token
      ]
      else stop (finished t)

  unfoldable pub target_loop : ℕ → Turn → Ending
  unfolding target_step
  target_loop zero t = out_of_fuel
  target_loop (suc fuel) t = carry_on (target_loop fuel) (target_step t)

  -- The turn from the prompt on. Each round emits a token, so one round more than the token limit
  -- is fuel enough.
  unfoldable pub generate_target_only :
      List Token → Option Token → List Token → Option ThinkingBudget → Ending
  unfolding continuation_input force_first force_close_thinking_target_only target_loop closure_of
  generate_target_only evaluated pending prompt thinking =
      if request.max_new_tokens == 0 || length prompt == 0
      then failed
      else let (budget, forced) = force_first thinking in
        let start : Turn = record {
          generated = [];
          evaluated = evaluated ++ continuation_input prompt pending;
          pending_token = none;
          thinking = budget;
        } in
        let opened : Progress Turn =
          if forced
          then force_close_thinking_target_only none (closure_of budget) start
          else go start in
        carry_on (target_loop (suc request.max_new_tokens)) opened
