-- ===== src/Runtime/TargetOnly/Choice.antt =====
-- The target-only path of src/runtime.rs reads a row of logits only for its greedy choice.

use inferq.Prelude.{
  ℕ, zero, suc, ◌≡◌, refl, Bool, Option, none, some, List, [], ◌∷◌, ◌++◌, length, Bool-cases,
  Option-cases, inl, inr, ◌||◌, ◌==◌, ltb, not,
}
use inferq.Ngram.{Token}
use inferq.Sampling.{LogitOps}
use inferq.Runtime.Verify.{top_token}
use inferq.Runtime.ThinkingBudget.{ThinkingBudget}
use inferq.Runtime.Turn.{
  TurnOptions, Turn, Ending, Progress, go, stop, carry_on, emitted, evaluate, observe_thinking,
  is_force_closure, closure_of,
}
use inferq.Runtime.TargetOnly.{
  close_tokens, force_close_thinking_target_only, after_commit, commit, target_step, target_loop,
  generate_target_only, force_first, continuation_input,
}

module _ (L : LogitOps) (logits other : List Token → List L.Logit) (request : TurnOptions)
    (agree : (context : List Token)
      → top_token L (logits context) ≡ top_token L (other context)) where
  close_tokens-choice :
      (tokens : List Token) (t : Turn)
      → close_tokens L logits request tokens t ≡ close_tokens L other request tokens t
  unfolding close_tokens
  close_tokens-choice [] t = refl
  close_tokens-choice (token ∷ tokens) t =
      elim (Bool-cases (request.on_token (t.generated ++ token ∷ []))) [
        | inl accepts ↦
            rw (close_tokens, accepts)
              (close_tokens-choice tokens (evaluate (emitted t token) token))
        | inr refuses ↦ rw (close_tokens, refuses) refl
      ]

  force_close-choice :
      (pending : Option Token) (closure : List Token) (t : Turn)
      → force_close_thinking_target_only L logits request pending closure t
        ≡ force_close_thinking_target_only L other request pending closure t
  unfolding force_close_thinking_target_only
  force_close-choice none [] t = refl
  force_close-choice none (c ∷ closure) t = close_tokens-choice (c ∷ closure) t
  force_close-choice (some token) [] t = close_tokens-choice [] (evaluate t token)
  force_close-choice (some token) (c ∷ closure) t =
      close_tokens-choice (c ∷ closure) (evaluate t token)

  after_commit-choice :
      (t : Turn) (token : Token) (forced : Bool)
      → after_commit L logits request t token forced ≡ after_commit L other request t token forced
  unfolding after_commit
  after_commit-choice t token forced =
      rw
        (force_close-choice (some token) (closure_of t.thinking)
          (record t { pending_token = none }))
        refl

  commit-choice :
      (t : Turn) (token : Token) → commit L logits request t token ≡ commit L other request t token
  unfolding commit
  commit-choice t token =
      rw
        (after_commit-choice
          (record (emitted t token) {
            pending_token = some token;
            thinking = (observe_thinking t.thinking token (not (request.is_stop token))).0;
          })
          token
          (is_force_closure (observe_thinking t.thinking token (not (request.is_stop token))).1))
        refl

  target_step-choice : (t : Turn) → target_step L logits request t ≡ target_step L other request t
  unfolding target_step
  target_step-choice t = elim (Bool-cases (ltb (length t.generated) request.max_new_tokens)) [
    | inr full ↦ rw (target_step, full) refl
    | inl room ↦ elim (Option-cases (top_token L (other t.evaluated))) [
      | inl undecided ↦ rw (target_step, room, agree t.evaluated, undecided) refl
      | inr (token, chosen) ↦
          rw (target_step, room, agree t.evaluated, chosen) (commit-choice t token)
    ]
  ]

  carry_on-choice :
      (rest rest' : Turn → Ending) (p : Progress Turn)
      → ((t : Turn) → rest t ≡ rest' t)
      → carry_on rest p ≡ carry_on rest' p
  carry_on-choice rest rest' (go t) same = same t
  carry_on-choice rest rest' (stop o) same = refl

  target_loop-choice :
      (fuel : ℕ) (t : Turn)
      → target_loop L logits request fuel t ≡ target_loop L other request fuel t
  unfolding target_loop
  target_loop-choice zero t = refl
  target_loop-choice (suc fuel) t = rw (target_step-choice t) (
      carry_on-choice (target_loop L logits request fuel) (target_loop L other request fuel)
        (target_step L other request t) (target_loop-choice fuel))

  -- Rows that lead to the same choices lead to the same turn.
  pub generate_target_only-choice :
      (evaluated : List Token) (pending : Option Token) (prompt : List Token)
      (thinking : Option ThinkingBudget)
      → generate_target_only L logits request evaluated pending prompt thinking
        ≡ generate_target_only L other request evaluated pending prompt thinking
  unfolding generate_target_only
  generate_target_only-choice evaluated pending prompt thinking =
      let first = force_first thinking in
      let start : Turn = record {
        generated = [];
        evaluated = evaluated ++ continuation_input prompt pending;
        pending_token = none;
        thinking = first.0;
      } in
      let rounds = suc request.max_new_tokens in
      let same = λ (p : Progress Turn).
        carry_on-choice (target_loop L logits request rounds) (target_loop L other request rounds) p
          (target_loop-choice rounds) in
      elim (Bool-cases (request.max_new_tokens == 0 || length prompt == 0)) [
        | inl refused ↦ rw (generate_target_only, refused) refl
        | inr asked ↦
            rw (generate_target_only, asked)
              (elim (Bool-cases first.1) [
                | inl forced ↦
                    rw (forced, force_close-choice none (closure_of first.0) start)
                      (same (
                        force_close_thinking_target_only L other request none (closure_of first.0)
                          start))
                | inr sampled ↦ rw sampled (same (go start))
              ])
      ]
