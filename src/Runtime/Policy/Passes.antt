-- ===== src/Runtime/Policy/Passes.antt =====
-- The outputs of one pass under the policy of src/runtime.rs against the same tokens on the
-- target-only path.
use mathlib.Core.Path.{subst}
use inferq.Prelude.{
  ℕ, suc, ◌+◌, ◌-◌, ◌≤◌, ◌<◌, ◌≡◌, refl, sym, ap, ◌∙◌, true, false, Option, none, some, List,
  length, arith, Bool-cases, inl, inr, leb, if◌then◌else◌,
}
use inferq.Ngram.{Token}
use inferq.Sampling.{LogitOps}
use inferq.Runtime.Verify.{top_token}
use inferq.Runtime.Turn.{
  TurnOptions, Turn, Ending, finished, Progress, go, stop, ◌>>=◌, carry_on, closure_of,
}
use inferq.Runtime.Turn.Budget.{IsClosed, IsClosable}
use inferq.Runtime.TargetOnly.{force_close_thinking_target_only, after_commit, target_loop}
use inferq.Runtime.Policy.{
  Drafter, Policy, force_close_thinking_policy, sample_and_emit, close_and_sample, policy_loop,
}
use inferq.Runtime.Policy.Closing.{
  pending_rows, turns, IsAfter, force_close-turns, force_close-IsAfter,
}
use inferq.Runtime.Policy.Emission.{Agrees, sample_and_emit-Agrees}

module _ (L : LogitOps) (logits : List Token → List L.Logit) (request : TurnOptions) (S : Drafter)
    (choice : List Token → Token)
    (chooses : (context : List Token) → top_token L (logits context) ≡ some (choice context)) where
  abbrev P : Type 0
  P = Policy L logits request S

  abbrev loop : ℕ → Turn → Ending
  loop = target_loop L logits request

  -- How the target-only path goes on after a forced closure.
  abbrev pub after_closure : ℕ → Turn → Ending
  after_closure fuel closed =
      if leb request.max_new_tokens (length closed.generated)
      then finished closed
      else loop fuel closed

  pub closure-Agrees :
      (f fuel rows : ℕ) (mark : S.State → S.State) (start : Turn) (p : Progress P)
      → Agrees L logits request S choice chooses (suc f)
      → IsClosed start.thinking
      → IsClosable start.thinking
      → start.pending_token ≡ none
      → request.max_new_tokens - length start.generated ≤ suc f
      → request.max_new_tokens - length start.generated < fuel
      → length start.evaluated + rows + request.max_new_tokens
        ≤ request.max_position + length start.generated
      → ((u : Turn) → turns p ≡ go u → IsAfter rows start u)
      → carry_on (policy_loop L logits request S (suc f)) (
          p
          >>= sample_and_emit L logits request S
          >>= (λ (closed : P). go (closed.0, mark closed.1)))
        ≡ carry_on (after_closure fuel) (turns p)
  closure-Agrees f fuel rows mark start (stop o) agree closed closable no_pending le lt placed
        after =
      refl
  closure-Agrees f fuel rows mark start (go (u, s)) agree closed closable no_pending le lt placed
        after =
      let a = after u refl in
      sample_and_emit-Agrees L logits request S choice chooses (suc f) mark u s fuel agree
        (subst IsClosed (sym a.thinking) closed) (subst IsClosable (sym a.thinking) closable)
        (a.pending ∙ no_pending) (omega (arith, a.grown)) (omega arith) (omega (arith, a.grown))
        (omega (arith, a.placed, placed))

  pub close_and_sample-Agrees :
      (f fuel : ℕ) (mark : S.State → S.State) (pending : Option Token) (t : Turn) (s : S.State)
      → Agrees L logits request S choice chooses (suc f)
      → IsClosed t.thinking
      → IsClosable t.thinking
      → request.max_new_tokens - length t.generated ≤ suc f
      → request.max_new_tokens - length t.generated < fuel
      → length t.evaluated + pending_rows pending + request.max_new_tokens
        ≤ request.max_position + length t.generated
      → carry_on (policy_loop L logits request S (suc f)) (
          close_and_sample L logits request S pending (t, s)
          >>= (λ (closed : P). go (closed.0, mark closed.1)))
        ≡ carry_on (after_closure fuel) (
            force_close_thinking_target_only L logits request pending
              (closure_of t.thinking)
              (record t { pending_token = none }))
  unfolding close_and_sample
  close_and_sample-Agrees f fuel mark pending t s agree closed closable le lt placed =
      let start : Turn = record t { pending_token = none } in
      let closure = closure_of t.thinking in
      let same = force_close-turns L logits request S pending closure start s in
      closure-Agrees f fuel (pending_rows pending) mark start
        (force_close_thinking_policy L logits request S pending closure (start, s)) agree closed
        closable refl le lt placed
        (λ u e. force_close-IsAfter L logits request S pending closure start u (sym same ∙ e))
      ∙ ap (carry_on (after_closure fuel)) same

  -- A commit that forces a closure.
  pub after_commit-forced :
      (fuel : ℕ) (t : Turn) (token : Token)
      → request.is_stop token ≡ false
      → carry_on (loop fuel) (after_commit L logits request t token true)
        ≡ carry_on (after_closure fuel) (
            force_close_thinking_target_only L logits request
              (some token)
              (closure_of t.thinking)
              (record t { pending_token = none }))
  unfolding after_commit
  after_commit-forced fuel t token more =
      rw (after_commit, more)
        (cut (
          force_close_thinking_target_only L logits request (some token) (closure_of t.thinking)
            (record t { pending_token = none })))
    where
      cut :
          (p : Progress Turn)
          → carry_on (loop fuel) (
              p >>= (λ (closed : Turn).
                if leb request.max_new_tokens (length closed.generated)
                then stop (finished closed)
                else go closed))
            ≡ carry_on (after_closure fuel) p
      cut (stop o) = refl
      cut (go u) = elim (Bool-cases (leb request.max_new_tokens (length u.generated))) [
        | inl full ↦ rw full refl
        | inr room ↦ rw room refl
      ]
