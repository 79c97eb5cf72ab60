-- ===== src/Runtime/Policy.antt =====
-- Decoding under the speculative policy: `generate_speculative_policy` of src/runtime.rs, for any
-- source of drafts.
pub mod Outputs
pub mod Closing
pub mod Emission
pub mod Passes
pub mod Accepted
pub mod Opening
pub mod Equivalence
use inferq.Prelude.{
  ℕ, zero, suc, ◌+◌, ◌-◌, min, Bool, true, false, not, ◌||◌, Option, none, some, List, [], ◌∷◌,
  ◌++◌, length, take, get_elem?, leb, ltb, ◌==◌, if◌then◌else◌,
}
use inferq.Ngram.{Token}
use inferq.Sampling.{LogitOps}
use inferq.Runtime.Verify.{
  top_token, accepted_draft_prefix, speculative_committed_outputs, halted_pass_rows,
}
use inferq.Runtime.Greedy.{rows_after}
use inferq.Runtime.ThinkingBudget.{ThinkingBudget, remaining}
use inferq.Runtime.Turn.{
  TurnOptions, Turn, Ending, finished, halted, failed, out_of_fuel, Progress, go, stop, ◌>>=◌,
  carry_on, emitted, evaluate, evaluate_pending, observe_thinking, is_force_closure, closure_of,
}
use inferq.Runtime.TargetOnly.{continuation_input, force_first}

-- Where drafts come from, and what the loop tells that source: a proposal of at most the budget
-- after `seed`, how a pass ended, each token that is emitted, each that is evaluated alone, and
-- that a closure was forced.
pub record Drafter : Type 1 where
  pub State : Type 0
  -- The committed count, the seed and the budget.
  pub propose : ℕ → Token → ℕ → State → List Token × State
  -- The committed count, how many were accepted, and the authoritative token.
  pub settle : ℕ → ℕ → Token → State → State
  pub push : Token → State → State
  pub evaluated_alone : Token → State → State
  pub forced : State → State

-- How many drafts the rest of the turn and of the thinking block can absorb.
unfoldable pub draft_budget : ℕ → Turn → ℕ
draft_budget max_new_tokens t =
    let budget = max_new_tokens - length t.generated - 1 in
    elim t.thinking [
      | none ↦ budget
      | some b ↦ elim (remaining b) [ none ↦ budget | some left ↦ min budget left ]
    ]

-- `argmax(&verifier_logits[accepted])? as u32`.
unfoldable pub authoritative_of : (L : LogitOps) → List (List L.Logit) → ℕ → Option Token
unfolding top_token
authoritative_of L rows accepted = elim (get_elem? rows accepted) [
  | none ↦ none
  | some row ↦ top_token L row
]

module _ (L : LogitOps) (logits : List Token → List L.Logit) (request : TurnOptions)
    (S : Drafter) where
  open S use {State, propose, settle, push, evaluated_alone, forced}

  -- The session, the turn's locals and the source of drafts.
  abbrev pub Policy : Type 0
  Policy = Turn × State

  -- `evaluate_authoritative`.
  abbrev pub evaluate_authoritative : Policy → Token → Policy
  evaluate_authoritative (t, s) token = (evaluate t token, evaluated_alone token s)

  abbrev pub evaluate_authoritative_pending : Policy → Option Token → Policy
  evaluate_authoritative_pending p none = p
  evaluate_authoritative_pending p (some token) = evaluate_authoritative p token

  unfoldable pub close_tokens_policy : List Token → Policy → Progress Policy
  close_tokens_policy [] p = go p
  close_tokens_policy (token ∷ tokens) (t, s) =
      let out = emitted t token in
      elim (request.on_token out.generated) [
        | true ↦ close_tokens_policy tokens (evaluate_authoritative (out, push token s) token)
        | false ↦ stop (halted (record out { pending_token = some token }))
      ]

  unfoldable pub force_close_thinking_policy : Option Token → List Token → Policy → Progress Policy
  unfolding close_tokens_policy
  force_close_thinking_policy none [] p = stop failed
  force_close_thinking_policy pending closure p =
      close_tokens_policy closure (evaluate_authoritative_pending p pending)

  -- `sample_and_emit`: the pending token is none where the token limit is reached.
  unfoldable pub sample_and_emit : Policy → Progress Policy
  unfolding top_token
  sample_and_emit (t, s) =
      if leb request.max_new_tokens (length t.generated)
      then go (record t { pending_token = none }, s)
      else elim (top_token L (logits t.evaluated)) [
        | none ↦ stop failed
        | some token ↦
            let out = record (emitted t token) { pending_token = some token } in
            if request.on_token out.generated then go (out, push token s) else stop (halted out)
      ]

  -- A forced closure and the sample behind it, which says what is pending then.
  unfoldable pub close_and_sample : Option Token → Policy → Progress Policy
  unfolding force_close_thinking_policy sample_and_emit closure_of
  close_and_sample pending (t, s) =
      force_close_thinking_policy pending (closure_of t.thinking)
        (record t { pending_token = none }, s)
      >>= sample_and_emit

  -- The loop over the outputs of a pass, from the one at `index` on. `before` is the position of the
  -- target before the pass, and its state holds the committed rows.
  unfoldable pub emit_outputs : ℕ → ℕ → ℕ → List (Token × Bool) → Policy → Progress Policy
  unfolding close_and_sample observe_thinking is_force_closure halted_pass_rows
  emit_outputs before accepted index [] p = go p
  emit_outputs before accepted index ((token, accepted_draft) ∷ outputs) (t, s) =
      let out = emitted t token in
      let pushed = push token s in
      if request.on_token out.generated
      then (let (thinking, boundary) =
            observe_thinking t.thinking token (not (request.is_stop token)) in
          let pending : Option Token = if accepted_draft then none else some token in
          let next : Turn = record out { thinking = thinking; pending_token = pending } in
          elim (is_force_closure boundary) [
            | true ↦
                close_and_sample pending (next, pushed)
                >>= (λ (closed : Policy). go (closed.0, forced closed.1))
            | false ↦
                elim (length next.generated == request.max_new_tokens || request.is_stop token) [
                  | true ↦ stop (finished next)
                  | false ↦ emit_outputs before accepted (suc index) outputs (next, pushed)
                ]
          ])
      else stop (
          halted (record out {
            evaluated = take (before + halted_pass_rows index accepted) t.evaluated;
            pending_token = some token;
          }))

  -- The pass over the seed and the drafts, and its outputs. The target refuses a pass that goes beyond
  -- its positions, which ends the turn with an error. A rejection rolls the target's state back
  -- to the committed rows.
  unfoldable pub verify_pass : Token → List Token → Policy → Progress Policy
  unfolding accepted_draft_prefix authoritative_of rows_after speculative_committed_outputs
      emit_outputs
  verify_pass seed drafts (t, s) =
      let rows = rows_after L logits t.evaluated (seed ∷ drafts) in
      if ltb request.max_position (length t.evaluated + suc (length drafts))
      then stop failed
      else elim (accepted_draft_prefix L drafts rows) [
        | none ↦ stop failed
        | some accepted ↦ elim (authoritative_of L rows accepted) [
          | none ↦ stop failed
          | some authoritative ↦
              let settled = settle (length t.generated) accepted authoritative s in
              let committed : Turn = record t {
                evaluated = t.evaluated ++ seed ∷ take accepted drafts;
              } in
              emit_outputs (length t.evaluated) accepted 0
                (speculative_committed_outputs drafts accepted authoritative) (committed, settled)
        ]
      ]

  -- One round of the `'generation` loop, with a pending token.
  unfoldable pub seeded_step : Token → Policy → Progress Policy
  unfolding draft_budget verify_pass
  seeded_step seed (t, s) =
      if leb request.max_new_tokens (length t.generated) || request.is_stop seed
      then stop (finished t)
      else let (drafts, proposed) =
          propose (length t.generated) seed (draft_budget request.max_new_tokens t) s in
        verify_pass seed drafts (t, proposed)

  unfoldable pub policy_step : Policy → Progress Policy
  unfolding seeded_step
  policy_step (t, s) = elim t.pending_token [
    | none ↦ stop (finished t)
    | some seed ↦ seeded_step seed (t, s)
  ]

  unfoldable pub policy_loop : ℕ → Policy → Ending
  unfolding policy_step
  policy_loop zero p = out_of_fuel
  policy_loop (suc fuel) p = carry_on (policy_loop fuel) (policy_step p)

  -- The first token of the turn: it is observed, and may close the thinking block.
  unfoldable pub observe_first : Policy → Progress Policy
  unfolding close_and_sample observe_thinking is_force_closure
  observe_first (t, s) = elim t.pending_token [
    | none ↦ go (t, s)
    | some first ↦
        let (thinking, boundary) =
          observe_thinking t.thinking first (not (request.is_stop first)) in
        let next : Turn = record t { thinking = thinking } in
        if is_force_closure boundary then close_and_sample (some first) (next, s) else go (next, s)
  ]

  -- The turn from the prompt on, with a source of drafts that has read the prompt.
  unfoldable pub generate_speculative_policy :
      List Token → Option Token → List Token → Option ThinkingBudget → State → Ending
  unfolding continuation_input force_first force_close_thinking_policy sample_and_emit observe_first
      policy_loop closure_of
  generate_speculative_policy evaluated pending prompt thinking s =
      if request.max_new_tokens == 0 || length prompt == 0
      then failed
      else let (budget, forced_first) = force_first thinking in
        let start : Turn = record {
          generated = [];
          evaluated = evaluated ++ continuation_input prompt pending;
          pending_token = none;
          thinking = budget;
        } in
        let opened : Progress Policy =
          if forced_first
          then force_close_thinking_policy none (closure_of budget) (start, s)
          else go (start, s) in
        carry_on (policy_loop (suc request.max_new_tokens))
          (opened >>= sample_and_emit >>= observe_first)
