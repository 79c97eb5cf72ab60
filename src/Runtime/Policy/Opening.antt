-- ===== src/Runtime/Policy/Opening.antt =====
-- Whole turns of src/runtime.rs: `generate_speculative_policy` against the target-only path of
-- `generate_tokens_with_callback`.
use mathlib.Core.Path.{subst}
use inferq.Prelude.{
  ℕ, suc, ◌+◌, ◌≤◌, ◌<◌, ◌≡◌, refl, sym, ap, ◌∙◌, true, false, not, ◌||◌, Option, none, some, List,
  [], ◌∷◌, ◌++◌, length, arith, length-append, Bool-cases, inl, inr, leb, ltb, ◌==◌,
}
use inferq.Ngram.{Token}
use inferq.Sampling.{LogitOps}
use inferq.Runtime.Verify.{top_token}
use inferq.Runtime.ThinkingBudget.{ThinkingBudget, should_force_before_sampling}
use inferq.Runtime.Turn.{
  TurnOptions, Turn, Ending, Progress, go, stop, ◌>>=◌, carry_on, observe_thinking,
  is_force_closure, closure_of,
}
use inferq.Runtime.Turn.Budget.{
  IsClosed, IsClosable, observe_thinking-closed, observe_thinking-IsClosed,
  observe_thinking-IsClosable,
}
use inferq.Runtime.TargetOnly.{
  continuation_input, force_first, force_close_thinking_target_only, commit, target_step,
  target_loop, generate_target_only,
}
use inferq.Runtime.TargetOnly.Choice.{generate_target_only-choice}
use inferq.Runtime.Policy.{
  Drafter, Policy, force_close_thinking_policy, sample_and_emit, close_and_sample, policy_loop,
  observe_first, generate_speculative_policy,
}
use inferq.Runtime.Policy.Closing.{turns, IsAfter, force_close-turns, force_close-IsAfter}
use inferq.Runtime.Policy.Emission.{sampled, target_loop-choice, after_commit-resume_turn}
use inferq.Runtime.Policy.Passes.{
  after_closure, closure-Agrees, close_and_sample-Agrees, after_commit-forced,
}
use inferq.Runtime.Policy.Accepted.{stop-unforced}
use inferq.Runtime.Policy.Equivalence.{IsBounded, policy_loop-Agrees}

module _ (L : LogitOps) (logits : List Token → List L.Logit) (request : TurnOptions) (S : Drafter)
    (choice : List Token → Token)
    (chooses : (context : List Token) → top_token L (logits context) ≡ some (choice context))
    (bounded : IsBounded request S) where
  abbrev P : Type 0
  P = Policy L logits request S

  abbrev loop : ℕ → Turn → Ending
  loop = target_loop L logits request

  abbrev rounds : ℕ
  rounds = suc request.max_new_tokens

  abbrev same : P → Progress P
  same p = go (p.0, p.1)

  >>=-same : (p : Progress P) → (p >>= same) ≡ p
  >>=-same (go p) = refl
  >>=-same (stop o) = refl

  -- After a closed block the first token changes nothing.
  sample_and_emit-observe_first :
      (t : Turn) (s : S.State)
      → IsClosed t.thinking
      → (sample_and_emit L logits request S (t, s) >>= observe_first L logits request S)
        ≡ (sample_and_emit L logits request S (t, s) >>= same)
  unfolding sample_and_emit observe_first is_force_closure
  sample_and_emit-observe_first t s closed =
      let token = choice t.evaluated in
      elim (Bool-cases (leb request.max_new_tokens (length t.generated))) [
        | inl full ↦ rw (sample_and_emit, full) refl
        | inr room ↦
            rw (sample_and_emit, room, chooses t.evaluated)
              (elim (Bool-cases (request.on_token (t.generated ++ token ∷ []))) [
                | inl ok ↦
                    rw
                      (
                        ok,
                        observe_first,
                        observe_thinking-closed t.thinking token (not (request.is_stop token))
                            closed,
                      )
                      refl
                | inr refused ↦ rw refused refl
              ])
      ]

  target_loop-full :
      (fuel : ℕ) (t : Turn)
      → after_closure L logits request S choice chooses (suc fuel) t ≡ loop (suc fuel) t
  unfolding target_loop target_step
  target_loop-full fuel t = elim (Bool-cases (leb request.max_new_tokens (length t.generated))) [
    | inl full ↦
        let over : ltb (length t.generated) request.max_new_tokens ≡ false = ground arith in
        rw (full, target_loop, target_step, over) refl
    | inr room ↦ rw room refl
  ]

  carry_on-full :
      (p : Progress Turn)
      → carry_on (after_closure L logits request S choice chooses rounds) p
        ≡ carry_on (loop rounds) p
  carry_on-full (go t) = target_loop-full request.max_new_tokens t
  carry_on-full (stop o) = refl

  -- A turn that starts with the closure of its block.
  opening-forced :
      (t : Turn) (s : S.State)
      → IsClosed t.thinking
      → IsClosable t.thinking
      → t.pending_token ≡ none
      → length t.evaluated + request.max_new_tokens ≤ request.max_position + length t.generated
      → carry_on (policy_loop L logits request S rounds) (
          force_close_thinking_policy L logits request S none (closure_of t.thinking) (t, s)
          >>= sample_and_emit L logits request S
          >>= observe_first L logits request S)
        ≡ carry_on
            (loop rounds)
            (force_close_thinking_target_only L logits request none (closure_of t.thinking) t)
  opening-forced t s closed closable no_pending placed =
      let closure = closure_of t.thinking in
      let p = force_close_thinking_policy L logits request S none closure (t, s) in
      let turned = force_close-turns L logits request S none closure t s in
      let after = λ (u : Turn) (e : turns p ≡ go u).
        force_close-IsAfter L logits request S none closure t u (sym turned ∙ e) in
      ap (carry_on (policy_loop L logits request S rounds)) (observed p after)
      ∙ closure-Agrees L logits request S choice chooses request.max_new_tokens rounds 0 (λ s. s) t
          p (policy_loop-Agrees L logits request S choice chooses bounded rounds) closed closable
          no_pending (omega arith) (omega arith) (omega arith) after
      ∙ carry_on-full (turns p)
      ∙ ap (carry_on (loop rounds)) turned
    where
      observed :
          (p : Progress P)
          → ((u : Turn) → turns p ≡ go u → IsAfter 0 t u)
          → (p >>= sample_and_emit L logits request S >>= observe_first L logits request S)
            ≡ (p >>= sample_and_emit L logits request S >>= same)
      observed (stop o) after = refl
      observed (go (u, v)) after =
          sample_and_emit-observe_first u v (subst IsClosed (sym (after u refl).thinking) closed)

  -- A turn that starts with a sample.
  opening-sampled :
      (t : Turn) (s : S.State)
      → IsClosable t.thinking
      → t.pending_token ≡ none
      → length t.generated < request.max_new_tokens
      → length t.evaluated + request.max_new_tokens ≤ request.max_position + length t.generated
      → carry_on
          (policy_loop L logits request S rounds)
          (sample_and_emit L logits request S (t, s) >>= observe_first L logits request S)
        ≡ loop rounds t
  unfolding sample_and_emit observe_first commit
  opening-sampled t s closable no_pending room placed =
      let token = choice t.evaluated in
      let enforce = not (request.is_stop token) in
      let observation = observe_thinking t.thinking token enforce in
      let below : leb request.max_new_tokens (length t.generated) ≡ false = ground arith in
      let next : Turn = record {
        generated = t.generated ++ token ∷ [];
        evaluated = t.evaluated;
        pending_token = some token;
        thinking = observation.0;
      } in
      let more : length (t.generated ++ token ∷ []) ≡ suc (length t.generated) =
        omega (arith, length-append t.generated (token ∷ [])) in
      let pushed = S.push token s in
      let agree = policy_loop-Agrees L logits request S choice chooses bounded rounds in
      let closable' = observe_thinking-IsClosable t.thinking token enforce closable in
      let last = request.max_new_tokens in
      rw
        (
          target_loop-choice L logits request S choice chooses last t room,
          sample_and_emit,
          below,
          chooses t.evaluated,
        )
        (elim (Bool-cases (request.on_token (t.generated ++ token ∷ []))) [
          | inr refused ↦ rw (commit, refused) refl
          | inl ok ↦
              rw (commit, ok, observe_first)
                (elim (Bool-cases (is_force_closure observation.1)) [
                  | inl forced ↦
                      let running : request.is_stop token ≡ false =
                        stop-unforced L logits request S choice chooses t.thinking token forced in
                      rw forced (
                        ap (carry_on (policy_loop L logits request S rounds)) (
                          sym (
                            >>=-same
                              (close_and_sample L logits request S (some token) (next, pushed))))
                        ∙ close_and_sample-Agrees L logits request S choice chooses last last
                            (λ v. v) (some token) next pushed agree
                            (observe_thinking-IsClosed t.thinking token enforce forced) closable'
                            (omega arith) (omega arith) (omega arith)
                        ∙ sym (
                            after_commit-forced L logits request S choice chooses last next token
                              running))
                  | inr calm ↦ rw calm (
                      agree next pushed last closable' (omega arith) (omega arith) (omega arith)
                      ∙ sym (
                          after_commit-resume_turn L logits request S choice chooses last next
                            token))
                ])
        ])

  force_first-IsClosable :
      (thinking : Option ThinkingBudget) → IsClosable thinking → IsClosable (force_first thinking).0
  unfolding force_first should_force_before_sampling
  force_first-IsClosable none closable = tt
  force_first-IsClosable (some b) closable = ground arith

  force_first-IsClosed :
      (thinking : Option ThinkingBudget)
      → (force_first thinking).1 ≡ true
      → IsClosed (force_first thinking).0
  unfolding force_first should_force_before_sampling
  force_first-IsClosed none forced = tt
  force_first-IsClosed (some b) forced = ground arith

  -- Against the target-only path over the same rows.
  pub generate_speculative_policy-same_rows :
      (evaluated : List Token) (pending : Option Token) (prompt : List Token)
      (thinking : Option ThinkingBudget) (s : S.State)
      → IsClosable thinking
      → length (evaluated ++ continuation_input prompt pending) + request.max_new_tokens
        ≤ request.max_position
      → generate_speculative_policy L logits request S evaluated pending prompt thinking s
        ≡ generate_target_only L logits request evaluated pending prompt thinking
  unfolding generate_speculative_policy generate_target_only
  generate_speculative_policy-same_rows evaluated pending prompt thinking s closable placed =
      let first = force_first thinking in
      let start : Turn = record {
        generated = [];
        evaluated = evaluated ++ continuation_input prompt pending;
        pending_token = none;
        thinking = first.0;
      } in
      let closable' = force_first-IsClosable thinking closable in
      elim (Bool-cases (request.max_new_tokens == 0 || length prompt == 0)) [
        | inl refused ↦ rw (generate_speculative_policy, generate_target_only, refused) refl
        | inr asked ↦
            rw (generate_speculative_policy, generate_target_only, asked)
              (elim (Bool-cases first.1) [
                | inl forced ↦ rw forced (
                    opening-forced start s (force_first-IsClosed thinking forced) closable' refl
                      (omega arith))
                | inr sampled ↦
                    rw sampled (opening-sampled start s closable' refl (ground arith) (omega arith))
              ])
      ]

-- A turn under the speculative policy is the turn of the target-only path: the same tokens, emitted
-- and evaluated, the same pending token, the same thinking budget, and the same end, be it a result,
-- an error or the refusal of the callback. It holds for every source of drafts that keeps to the
-- budget it is given and proposes no stop token, and for every callback, limit and thinking budget
-- with a closure, where the input, `max_new_tokens` and the closure fit the target's positions
-- together. The rows of logits that the passes of one path give may differ from those of the other; at
-- every context both have a greedy choice, and it is the same one.
pub generate_speculative_policy-eq-generate_target_only :
    (L : LogitOps) (policy_logits wide_logits : List Token → List L.Logit) (request : TurnOptions)
    (S : Drafter) (choice : List Token → Token)
    → ((context : List Token) → top_token L (policy_logits context) ≡ some (choice context))
    → ((context : List Token) → top_token L (wide_logits context) ≡ some (choice context))
    → IsBounded request S
    → (evaluated : List Token) (pending : Option Token) (prompt : List Token)
      (thinking : Option ThinkingBudget) (s : S.State)
    → IsClosable thinking
    → length (evaluated ++ continuation_input prompt pending)
        + request.max_new_tokens
        + length (closure_of thinking)
      ≤ request.max_position
    → generate_speculative_policy L policy_logits request S evaluated pending prompt thinking s
      ≡ generate_target_only L wide_logits request evaluated pending prompt thinking
generate_speculative_policy-eq-generate_target_only L policy_logits wide_logits request S choice
      chooses wide_chooses bounded evaluated pending prompt thinking s closable placed =
    generate_speculative_policy-same_rows L policy_logits request S choice chooses bounded evaluated
      pending prompt thinking s closable (omega arith)
    ∙ generate_target_only-choice L policy_logits wide_logits request
        (λ context. chooses context ∙ sym (wide_chooses context)) evaluated pending prompt thinking
