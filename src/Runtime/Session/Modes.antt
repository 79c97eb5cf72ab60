-- ===== src/Runtime/Session/Modes.antt =====
-- The modes of speculation in src/runtime.rs against one another: what a turn gives does not depend on
-- them.
use inferq.Prelude.{
  ℕ, ◌+◌, ◌≤◌, ◌++◌, length, ◌≡◌, refl, Bool, true, false, not, ◌&&◌, ◌||◌, Option, none, some,
  List, [], ◌∷◌, arith, Bool-cases, Option-cases, inl, inr,
}
use inferq.Ngram.{Token}
use inferq.Sampling.{LogitOps}
use inferq.Speculative.{SpeculativeMode, is_speculative}
use inferq.Speculative.Floats.{FloatOps}
use inferq.Runtime.Arms.{effective_speculative_mode}
use inferq.Runtime.Verify.{top_token}
use inferq.Runtime.ThinkingBudget.{ThinkingBudget, from_tokens}
use inferq.Runtime.Turn.{Ending, failed, closure_of}
use inferq.Runtime.Turn.Budget.{IsClosable}
use inferq.Runtime.TargetOnly.{continuation_input, generate_target_only}
use inferq.Runtime.Policy.Opening.{generate_speculative_policy-eq-generate_target_only}
use inferq.Runtime.Selection.{Predictor, selection}
use inferq.Runtime.Selection.Within.{selection-IsBounded}
use inferq.Runtime.Session.{
  Session, Asked, turn_options, drafting_of, is_stop_of, source_of, allows_policy, combines_flags,
  decode_policy, generate_tokens,
}

from_tokens-IsClosable :
    (budget : Option ℕ) (close forced : List Token) (thinking : Option ThinkingBudget)
    → from_tokens budget close forced ≡ some thinking
    → IsClosable thinking
unfolding from_tokens
from_tokens-IsClosable none close forced none e = tt
from_tokens-IsClosable none close forced (some b) e = cc
from_tokens-IsClosable (some n) [] forced thinking e = cc
from_tokens-IsClosable (some n) (t ∷ close) [] thinking e = cc
from_tokens-IsClosable (some n) (t ∷ close) (c ∷ forced) none e = cc
from_tokens-IsClosable (some n) (t ∷ close) (c ∷ forced) (some b) e = ground arith

closure_of-le :
    (budget : Option ℕ) (close forced : List Token) (thinking : Option ThinkingBudget)
    → from_tokens budget close forced ≡ some thinking
    → length (closure_of thinking) ≤ length forced
unfolding from_tokens closure_of
closure_of-le none close forced none e = omega arith
closure_of-le none close forced (some b) e = cc
closure_of-le (some n) [] forced thinking e = cc
closure_of-le (some n) (t ∷ close) [] thinking e = cc
closure_of-le (some n) (t ∷ close) (c ∷ forced) none e = cc
closure_of-le (some n) (t ∷ close) (c ∷ forced) (some b) e = ground arith

module _ (F : FloatOps) (M : Predictor) (L : LogitOps)
    (policy_logits wide_logits : List Token → List L.Logit) (choice : List Token → Token)
    (chooses : (context : List Token) → top_token L (policy_logits context) ≡ some (choice context))
    (wide_chooses : (context : List Token)
      → top_token L (wide_logits context) ≡ some (choice context)) where
  -- What the options leave to decide: whether the turn is refused before anything is decoded.
  abbrev pub is_accepted : Session F M → Asked F M → Bool
  is_accepted session asked =
      let mode = effective_speculative_mode F asked.generation in
      not (combines_flags F M asked.generation)
      && (not (is_speculative mode) || allows_policy F M session asked mode)

  -- The input of the turn, what it may generate and a forced closure fit the positions of the model
  -- together.
  abbrev pub HasPositions : Session F M → Asked F M → List Token → Type 0
  HasPositions session asked prompt =
      length (session.evaluated ++ continuation_input prompt session.pending_token)
        + asked.max_new_tokens
        + length asked.forced_close_tokens
      ≤ asked.max_position

  decode_policy-eq :
      (session : Session F M) (asked : Asked F M) (on_token : List Token → Bool)
      (prompt : List Token) (mode : SpeculativeMode) (thinking : Option ThinkingBudget)
      → IsClosable thinking
      → allows_policy F M session asked mode ≡ true
      → HasPositions session asked prompt
      → length (closure_of thinking) ≤ length asked.forced_close_tokens
      → decode_policy F M L policy_logits wide_logits session asked on_token prompt mode thinking
        ≡ generate_target_only L wide_logits
            (turn_options F M asked on_token)
            session.evaluated
            session.pending_token
            prompt
            thinking
  unfolding decode_policy
  decode_policy-eq session asked on_token prompt mode thinking closable allowed placed closure =
      let drafting = drafting_of F M session asked mode in
      let is_stop = is_stop_of F M asked in
      let request = turn_options F M asked on_token in
      rw (decode_policy, allowed)
        (generate_speculative_policy-eq-generate_target_only L policy_logits wide_logits request
          (selection F M is_stop drafting) choice chooses wide_chooses
          (selection-IsBounded F M is_stop drafting request refl) session.evaluated
          session.pending_token prompt thinking (source_of F M session asked mode prompt) closable
          (omega arith))

  -- The same turn with speculation off.
  abbrev pub unspeculated : Asked F M → Asked F M
  unspeculated asked = record asked {
    generation = record asked.generation {
      speculative_mode = SpeculativeMode.off;
      speculative_mtp_draft_tokens = 0;
      speculative_ngram_draft_tokens = 0;
    };
  }

  generate_tokens-unspeculated :
      (session : Session F M) (asked : Asked F M) (on_token : List Token → Bool)
      (prompt : List Token)
      → generate_tokens F M L policy_logits wide_logits session (unspeculated asked) on_token prompt
        ≡ elim (from_tokens asked.thinking_budget asked.close_tokens asked.forced_close_tokens)
            as (λ x. Ending) [
              | none ↦ failed
              | some thinking ↦
                  generate_target_only L wide_logits
                    (turn_options F M asked on_token)
                    session.evaluated
                    session.pending_token
                    prompt
                    thinking
            ]
  unfolding generate_tokens
  generate_tokens-unspeculated session asked on_token prompt = refl

  -- Speculation changes speed, never output: a turn that is accepted, and whose input,
  -- `max_new_tokens` and forced closure fit the positions of the model together, ends as the same turn of
  -- the same session does with speculation off, in every mode, with every setting of both arms, for every predictor,
  -- index, callback, stop tokens and thinking budget. The ends are equal: a result, an error of the
  -- options or the refusal of the callback, with the tokens emitted and evaluated, the pending token
  -- and the budget. The decoding is greedy. The rows of logits that the passes of one path give may
  -- differ from those of the other; at every context both have a choice, and it is the same one.
  pub generate_tokens-eq-unspeculated :
      (session : Session F M) (asked : Asked F M) (on_token : List Token → Bool)
      (prompt : List Token)
      → is_accepted session asked ≡ true
      → HasPositions session asked prompt
      → generate_tokens F M L policy_logits wide_logits session asked on_token prompt
        ≡ generate_tokens F M L policy_logits wide_logits session
            (unspeculated asked)
            on_token
            prompt
  unfolding generate_tokens
  generate_tokens-eq-unspeculated session asked on_token prompt accepted placed =
      let mode = effective_speculative_mode F asked.generation in
      let flags : combines_flags F M asked.generation ≡ false = ground arith in
      rw (generate_tokens-unspeculated session asked on_token prompt)
        (elim (Option-cases
          (from_tokens asked.thinking_budget asked.close_tokens asked.forced_close_tokens)) [
            | inl unclosable ↦ rw (generate_tokens, flags, unclosable) refl
            | inr (thinking, closable) ↦
                rw (generate_tokens, flags, closable)
                  (elim (Bool-cases (is_speculative mode)) [
                    | inr plain ↦ rw plain refl
                    | inl speculative ↦ rw speculative (
                        decode_policy-eq session asked on_token prompt mode thinking
                          (from_tokens-IsClosable asked.thinking_budget asked.close_tokens
                            asked.forced_close_tokens thinking closable)
                          (ground arith) placed
                          (closure_of-le asked.thinking_budget asked.close_tokens
                            asked.forced_close_tokens thinking closable))
                  ])
          ])
