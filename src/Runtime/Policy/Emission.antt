-- ===== src/Runtime/Policy/Emission.antt =====
-- The outputs of one pass under the policy of src/runtime.rs against the same tokens on the
-- target-only path.
use inferq.Prelude.{
  ℕ, zero, suc, ◌+◌, ◌-◌, ◌≤◌, ◌<◌, ◌≡◌, refl, sym, ap, true, false, not, ◌||◌, none, some, List,
  [], ◌∷◌, ◌++◌, length, arith, length-append, Bool-cases, inl, inr, leb, ltb, if◌then◌else◌,
}
use inferq.Ngram.{Token}
use inferq.Sampling.{LogitOps}
use inferq.Runtime.Verify.{top_token}
use inferq.Runtime.Turn.{
  TurnOptions, Turn, Ending, finished, halted, Progress, go, ◌>>=◌, carry_on, emitted, evaluate,
  is_force_closure,
}
use inferq.Runtime.Turn.Budget.{IsClosed, IsClosable, observe_thinking-closed}
use inferq.Runtime.TargetOnly.{after_commit, commit, target_step, target_loop}
use inferq.Runtime.Policy.Closing.{pending_rows}
use inferq.Runtime.Policy.{Drafter, sample_and_emit, policy_step, policy_loop}

module _ (L : LogitOps) (logits : List Token → List L.Logit) (request : TurnOptions) (S : Drafter)
    (choice : List Token → Token)
    (chooses : (context : List Token) → top_token L (logits context) ≡ some (choice context)) where
  abbrev loop : ℕ → Turn → Ending
  loop = target_loop L logits request

  -- How the target-only path goes on from a turn whose pending token was observed already.
  unfoldable pub resume_turn : ℕ → Turn → Ending
  resume_turn fuel t = elim t.pending_token [
    | none ↦ finished t
    | some seed ↦
        if leb request.max_new_tokens (length t.generated) || request.is_stop seed
        then finished t
        else loop fuel (evaluate (record t { pending_token = none }) seed)
  ]

  -- The policy agrees with the target-only path from any turn on that needs less fuel, where the
  -- target has a position for each token that the turn may still generate.
  abbrev pub Agrees : ℕ → Type 0
  Agrees f =
      (t : Turn) (s : S.State) (fuel : ℕ)
      → IsClosable t.thinking
      → request.max_new_tokens - length t.generated < f
      → request.max_new_tokens - length t.generated < fuel
      → length t.evaluated + pending_rows t.pending_token + request.max_new_tokens
        ≤ request.max_position + length t.generated
      → policy_loop L logits request S f (t, s) ≡ resume_turn fuel t

  abbrev run_policy : ℕ → Progress (Turn × S.State) → Ending
  run_policy f = carry_on (policy_loop L logits request S f)

  pub target_loop-choice :
      (fuel : ℕ) (t : Turn)
      → length t.generated < request.max_new_tokens
      → loop (suc fuel) t ≡ carry_on (loop fuel) (commit L logits request t (choice t.evaluated))
  unfolding target_loop target_step
  target_loop-choice fuel t lt =
      let room : ltb (length t.generated) request.max_new_tokens ≡ true = ground arith in
      rw (target_loop, target_step, room, chooses t.evaluated) refl

  -- A turn after a token that was sampled.
  abbrev pub sampled : Turn → Token → Turn
  sampled t token = record (emitted t token) { pending_token = some token }

  -- A commit whose budget does not force a closure goes on as a turn with that token pending.
  pub after_commit-resume_turn :
      (fuel : ℕ) (t : Turn) (token : Token)
      → let after : Turn = record t { pending_token = some token } in
        carry_on (loop fuel) (after_commit L logits request after token false)
        ≡ resume_turn fuel after
  unfolding after_commit resume_turn
  after_commit-resume_turn fuel t token =
      elim (Bool-cases (leb request.max_new_tokens (length t.generated))) [
        | inl full ↦ elim (Bool-cases (request.is_stop token)) [
          | inl last ↦ rw (resume_turn, after_commit, full, last) refl
          | inr more ↦ rw (resume_turn, after_commit, full, more) refl
        ]
        | inr room ↦ elim (Bool-cases (request.is_stop token)) [
          | inl last ↦ rw (resume_turn, after_commit, room, last) refl
          | inr more ↦ rw (resume_turn, after_commit, room, more) refl
        ]
      ]

  commit-closed :
      (fuel : ℕ) (t : Turn) (token : Token)
      → IsClosed t.thinking
      → carry_on (loop fuel) (commit L logits request t token) ≡ (
          if request.on_token (t.generated ++ token ∷ [])
          then resume_turn fuel (sampled t token)
          else halted (sampled t token))
  unfolding commit is_force_closure
  commit-closed fuel t token closed =
      elim (Bool-cases (request.on_token (t.generated ++ token ∷ []))) [
        | inl ok ↦
            rw
              (
                commit,
                ok,
                observe_thinking-closed t.thinking token (not (request.is_stop token)) closed,
              )
              (after_commit-resume_turn fuel (emitted t token) token)
        | inr refused ↦ rw (commit, refused) refl
      ]

  -- After a closed block, the token that the policy samples behind a closure is the one that the
  -- target-only path goes on with.
  pub sample_and_emit-Agrees :
      (f : ℕ) (mark : S.State → S.State) (t : Turn) (s : S.State) (fuel : ℕ)
      → Agrees f
      → IsClosed t.thinking
      → IsClosable t.thinking
      → t.pending_token ≡ none
      → request.max_new_tokens - length t.generated ≤ f
      → 0 < f
      → request.max_new_tokens - length t.generated < fuel
      → length t.evaluated + request.max_new_tokens ≤ request.max_position + length t.generated
      → carry_on (policy_loop L logits request S f) (
          sample_and_emit L logits request S (t, s)
          >>= (λ (closed : Turn × S.State). go (closed.0, mark closed.1)))
        ≡ (if leb request.max_new_tokens (length t.generated) then finished t else loop fuel t)
  unfolding sample_and_emit policy_loop policy_step
  sample_and_emit-Agrees f mark t s zero agree closed closable none_pending le pos lt placed =
      absurd (omega arith)
  sample_and_emit-Agrees zero mark t s fuel agree closed closable none_pending le pos lt placed =
      absurd (omega arith)
  sample_and_emit-Agrees (suc f) mark t s (suc fuel) agree closed closable none_pending le pos lt
        placed =
      elim (Bool-cases (leb request.max_new_tokens (length t.generated))) [
        | inl full ↦
            rw (sample_and_emit, full)
              (ap (λ p. finished (record t { pending_token = p })) (sym none_pending))
        | inr room ↦
            let more : length t.generated < request.max_new_tokens = ground arith in
            rw
              (
                room,
                target_loop-choice fuel t more,
                commit-closed fuel t (choice t.evaluated) closed,
                sample_and_emit,
                chooses t.evaluated,
              )
              (elim (Bool-cases (request.on_token (t.generated ++ choice t.evaluated ∷ []))) [
                | inl ok ↦ rw ok (
                    agree (sampled t (choice t.evaluated)) (mark (S.push (choice t.evaluated) s))
                      fuel closable
                      (omega (arith, length-append t.generated (choice t.evaluated ∷ [])))
                      (omega (arith, length-append t.generated (choice t.evaluated ∷ [])))
                      (omega (arith, length-append t.generated (choice t.evaluated ∷ []))))
                | inr refused ↦ rw refused refl
              ])
      ]
