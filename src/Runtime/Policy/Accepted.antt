-- ===== src/Runtime/Policy/Accepted.antt =====
-- The accepted drafts of a pass under the policy of src/runtime.rs, and the target's own token behind
-- them, against the same tokens on the target-only path.
use inferq.Prelude.{
  ℕ, zero, suc, ◌+◌, ◌-◌, ◌≤◌, ◌<◌, ◌≡◌, refl, sym, ap, ◌∙◌, Bool, true, false, not, ◌||◌, Option,
  none, some, List, [], ◌∷◌, ◌++◌, length, take, min, arith, length-append, append_assoc,
  append-nil, Bool-cases, inl, inr, leb, ◌==◌, All, take-append_le, take-all,
}
use inferq.Ngram.{Token}
use inferq.Sampling.{LogitOps}
use inferq.Runtime.Verify.{top_token, halted_pass_rows}
use inferq.Runtime.Greedy.{agreeing}
use inferq.Runtime.ThinkingBudget.{ThinkingBudget}
use inferq.Runtime.Turn.{
  TurnOptions, Turn, Ending, finished, go, ◌>>=◌, carry_on, evaluate, observe_thinking,
  is_force_closure, closure_of,
}
use inferq.Runtime.Turn.Budget.{
  HasRoom, IsClosable, is_force_closure-unenforced, observe_thinking-IsClosed,
  observe_thinking-IsClosable, force_closure-last, observe_thinking-HasRoom,
}
use inferq.Runtime.TargetOnly.{force_close_thinking_target_only, after_commit, commit, target_loop}
use inferq.Runtime.Policy.{Drafter, Policy, close_and_sample, emit_outputs, policy_loop}
use inferq.Runtime.Policy.Outputs.{outputs_from}
use inferq.Runtime.Policy.Emission.{
  resume_turn, Agrees, target_loop-choice, after_commit-resume_turn,
}
use inferq.Runtime.Policy.Passes.{after_closure, close_and_sample-Agrees, after_commit-forced}

module _ (L : LogitOps) (logits : List Token → List L.Logit) (request : TurnOptions) (S : Drafter)
    (choice : List Token → Token)
    (chooses : (context : List Token) → top_token L (logits context) ≡ some (choice context)) where
  abbrev P : Type 0
  P = Policy L logits request S

  abbrev loop : ℕ → Turn → Ending
  loop = target_loop L logits request

  -- A turn of the target-only path: it has evaluated a context, and nothing is pending.
  abbrev pub at : Turn → List Token → Turn
  at t context = record t { evaluated = context; pending_token = none }

  resume_turn-ended :
      (fuel : ℕ) (t : Turn) (token : Token)
      → (length t.generated == request.max_new_tokens || request.is_stop token) ≡ true
      → let ended : Turn = record t { pending_token = some token } in
        finished ended ≡ resume_turn L logits request S choice chooses fuel ended
  unfolding resume_turn
  resume_turn-ended fuel t token ended =
      let over : (leb request.max_new_tokens (length t.generated) || request.is_stop token) ≡ true =
        ground arith in
      rw (resume_turn, over) refl

  pub stop-unforced :
      (thinking : Option ThinkingBudget) (token : Token)
      → is_force_closure (observe_thinking thinking token (not (request.is_stop token))).1 ≡ true
      → request.is_stop token ≡ false
  stop-unforced thinking token forced = elim (Bool-cases (request.is_stop token)) [
    | inl last ↦
        let both : is_force_closure (observe_thinking thinking token false).1 ≡ true =
          rw last at forced in
        cc (is_force_closure-unenforced thinking token)
    | inr running ↦ running
  ]

  -- The target's own token at the end of a pass.
  emit_outputs-authoritative :
      (f fuel before i : ℕ) (t : Turn) (s : S.State) (context : List Token)
      → Agrees L logits request S choice chooses (suc f)
      → IsClosable t.thinking
      → length context ≡ before + (1 + i)
      → length t.generated < request.max_new_tokens
      → request.max_new_tokens - length t.generated ≤ suc f
      → request.max_new_tokens - length t.generated ≤ fuel
      → length context + request.max_new_tokens ≤ request.max_position + length t.generated
      → carry_on (policy_loop L logits request S (suc f)) (
          emit_outputs L logits request S before i i
            ((choice context, false) ∷ [])
            (record t { evaluated = context }, s))
        ≡ loop (suc fuel) (at t context)
  unfolding emit_outputs commit halted_pass_rows
  emit_outputs-authoritative f fuel before i t s context agree closable long room le lt placed =
      let token = choice context in
      let enforce = not (request.is_stop token) in
      let more : length (t.generated ++ token ∷ []) ≡ suc (length t.generated) =
        omega (arith, length-append t.generated (token ∷ [])) in
      let next : Turn = record {
        generated = t.generated ++ token ∷ [];
        evaluated = context;
        pending_token = some token;
        thinking = (observe_thinking t.thinking token enforce).0;
      } in
      let closable' = observe_thinking-IsClosable t.thinking token enforce closable in
      rw (target_loop-choice L logits request S choice chooses fuel (at t context) room)
        (elim (Bool-cases (request.on_token (t.generated ++ token ∷ []))) [
          | inr refused ↦
              let all : take (before + (1 + min i i)) context ≡ context =
                take-all _ context (ground arith) in
              rw (emit_outputs, commit, refused, halted_pass_rows, all) refl
          | inl ok ↦
              rw (emit_outputs, commit, ok)
                (elim (Bool-cases
                  (is_force_closure (observe_thinking t.thinking token enforce).1)) [
                    | inl forced ↦
                        let running : request.is_stop token ≡ false =
                          stop-unforced t.thinking token forced in
                        rw forced (
                          close_and_sample-Agrees L logits request S choice chooses f fuel S.forced
                            (some token) next (S.push token s) agree
                            (observe_thinking-IsClosed t.thinking token enforce forced) closable'
                            (omega arith) (omega arith) (omega arith)
                          ∙ sym (
                              after_commit-forced L logits request S choice chooses fuel next token
                                running))
                    | inr calm ↦
                        let same = sym (
                          after_commit-resume_turn L logits request S choice chooses fuel next
                            token) in
                        rw calm
                          (elim (Bool-cases (
                            length (t.generated ++ token ∷ []) == request.max_new_tokens
                            || request.is_stop token)) [
                              | inl ended ↦
                                  rw ended (resume_turn-ended fuel next token ended ∙ same)
                              | inr goes ↦ rw goes (
                                  agree next (S.push token s) fuel closable' (omega arith)
                                    (omega arith) (omega arith)
                                  ∙ same)
                            ])
                  ])
        ])

  -- A closure behind an accepted draft, which the pass has evaluated already.
  force_close-evaluated :
      (closure : List Token) (t : Turn) (draft : Token)
      → 0 < length closure
      → force_close_thinking_target_only L logits request none closure (evaluate t draft)
        ≡ force_close_thinking_target_only L logits request (some draft) closure t
  unfolding force_close_thinking_target_only
  force_close-evaluated [] t draft pos = absurd (omega arith)
  force_close-evaluated (c ∷ closure) t draft pos = refl

  closure_of-pos :
      (thinking : Option ThinkingBudget) (token : Token) (enforce : Bool)
      → IsClosable thinking
      → is_force_closure (observe_thinking thinking token enforce).1 ≡ true
      → 0 < length (closure_of (observe_thinking thinking token enforce).0)
  unfolding observe_thinking is_force_closure closure_of
  closure_of-pos none token enforce closable forced = cc
  closure_of-pos (some b) token enforce closable forced =
      observe_thinking-IsClosable (some b) token enforce closable

  after_commit-open :
      (fuel : ℕ) (t : Turn) (token : Token)
      → request.is_stop token ≡ false
      → length t.generated < request.max_new_tokens
      → carry_on (loop fuel) (after_commit L logits request t token false)
        ≡ loop fuel (evaluate (record t { pending_token = none }) token)
  unfolding after_commit
  after_commit-open fuel t token running room =
      let more : leb request.max_new_tokens (length t.generated) ≡ false = ground arith in
      rw (after_commit, running, more) refl

  -- One accepted draft, where the outputs behind it agree.
  emit_outputs-accepted :
      (f fuel before accepted i : ℕ) (t : Turn) (s : S.State) (context rest : List Token)
      (draft : Token) (outputs : List (Token × Bool))
      → let enforce = not (request.is_stop draft) in
        let next : Turn = record {
          generated = t.generated ++ draft ∷ [];
          evaluated = context ++ draft ∷ rest;
          pending_token = none;
          thinking = (observe_thinking t.thinking draft enforce).0;
        } in
        Agrees L logits request S choice chooses (suc f)
        → IsClosable t.thinking
        → request.is_stop draft ≡ false
        → length context ≡ before + (1 + i)
        → i ≤ accepted
        → suc (length t.generated) < request.max_new_tokens
        → request.max_new_tokens - length t.generated ≤ suc f
        → request.max_new_tokens - length t.generated ≤ fuel
        → length context + request.max_new_tokens ≤ request.max_position + length t.generated
        → (is_force_closure (observe_thinking t.thinking draft enforce).1 ≡ true → rest ≡ [])
        → carry_on
            (policy_loop L logits request S (suc f))
            (emit_outputs L logits request S before accepted (suc i) outputs (next, S.push draft s))
          ≡ loop fuel (at next (context ++ draft ∷ []))
        → carry_on (policy_loop L logits request S (suc f)) (
            emit_outputs L logits request S before accepted i
              ((draft, true) ∷ outputs)
              (record t { evaluated = context ++ draft ∷ rest }, s))
          ≡ carry_on (loop fuel) (commit L logits request (at t context) draft)
  unfolding emit_outputs commit halted_pass_rows
  emit_outputs-accepted f fuel before accepted i t s context rest draft outputs agree closable
        running long within room le lt placed last after =
      let enforce = not (request.is_stop draft) in
      let more : length (t.generated ++ draft ∷ []) ≡ suc (length t.generated) =
        omega (arith, length-append t.generated (draft ∷ [])) in
      let thinking : Option ThinkingBudget = (observe_thinking t.thinking draft enforce).0 in
      let before_it : Turn = record {
        generated = t.generated ++ draft ∷ [];
        evaluated = context;
        pending_token = some draft;
        thinking = thinking;
      } in
      elim (Bool-cases (request.on_token (t.generated ++ draft ∷ []))) [
        | inr refused ↦
            let rows : before + (1 + min i accepted) ≡ length context = ground arith in
            let kept : take (length context) (context ++ draft ∷ rest) ≡ context =
              take-append_le (length context) context (draft ∷ rest) (omega arith)
              ∙ take-all (length context) context (omega arith) in
            rw (emit_outputs, commit, refused, halted_pass_rows, rows, kept) refl
        | inl ok ↦
            rw (emit_outputs, commit, ok)
              (elim (Bool-cases (is_force_closure (observe_thinking t.thinking draft enforce).1)) [
                | inl forced ↦
                    let closable' = observe_thinking-IsClosable t.thinking draft enforce closable in
                    let open_turn : Turn = record before_it { pending_token = none } in
                    rw forced (
                      ap
                        (λ (r : List Token). carry_on (policy_loop L logits request S (suc f)) (
                          close_and_sample L logits request S none
                            (record open_turn { evaluated = context ++ draft ∷ r }, S.push draft s)
                          >>= (λ (closed : P). go (closed.0, S.forced closed.1))))
                        (last forced)
                      ∙ close_and_sample-Agrees L logits request S choice chooses f fuel S.forced
                          none (evaluate open_turn draft) (S.push draft s) agree
                          (observe_thinking-IsClosed t.thinking draft enforce forced) closable'
                          (omega arith) (omega arith)
                          (omega (arith, length-append context (draft ∷ [])))
                      ∙ ap (carry_on (after_closure L logits request S choice chooses fuel)) (
                          force_close-evaluated (closure_of thinking) open_turn draft
                            (closure_of-pos t.thinking draft enforce closable forced))
                      ∙ sym (
                          after_commit-forced L logits request S choice chooses fuel before_it draft
                            running))
                | inr calm ↦
                    let open_len : (length (t.generated ++ draft ∷ []) == request.max_new_tokens
                          || request.is_stop draft)
                        ≡ false =
                      ground arith in
                    rw (calm, open_len)
                      (after ∙ sym (after_commit-open fuel before_it draft running (omega arith)))
              ])
      ]

  take-none : (k : ℕ) (drafts : List Token) → length drafts ≡ 0 → take k drafts ≡ []
  take-none k [] none_left = take-all k [] (omega arith)
  take-none k (draft ∷ drafts) none_left = absurd (omega arith)

  -- The outputs of a pass over drafts none of which is a stop token, and that the turn and its open
  -- block have room for, go as the target-only path goes from the same context.
  pub emit_outputs-Agrees :
      (f fuel before accepted i : ℕ) (t : Turn) (s : S.State) (context drafts : List Token)
      → Agrees L logits request S choice chooses (suc f)
      → IsClosable t.thinking
      → All (λ draft. request.is_stop draft ≡ false) drafts
      → HasRoom t.thinking (length drafts)
      → length context ≡ before + (1 + i)
      → accepted ≡ i + agreeing choice context drafts
      → length t.generated + length drafts < request.max_new_tokens
      → request.max_new_tokens - length t.generated ≤ suc f
      → request.max_new_tokens - length t.generated < fuel
      → length context + request.max_new_tokens ≤ request.max_position + length t.generated
      → carry_on (policy_loop L logits request S (suc f)) (
          emit_outputs L logits request S before accepted i
            (outputs_from choice context drafts)
            (record t { evaluated = context ++ take (agreeing choice context drafts) drafts }, s))
        ≡ loop fuel (at t context)
  unfolding outputs_from agreeing
  emit_outputs-Agrees f zero before accepted i t s context drafts agree closable running open_room
        long count room le lt placed =
      absurd (omega arith)
  emit_outputs-Agrees f (suc fuel) before accepted i t s context [] agree closable running open_room
        long count room le lt placed =
      let same : accepted ≡ i = omega arith in
      rw (same, append-nil)
        (emit_outputs-authoritative f fuel before i t s context agree closable long (omega arith) le
          (omega arith) placed)
  emit_outputs-Agrees f (suc fuel) before accepted i t s context (draft ∷ drafts) agree closable
        running open_room long count room le lt placed =
      elim (Bool-cases (choice context == draft)) [
        | inr other ↦
            let same : accepted ≡ i = ground arith in
            rw (other, same, append-nil)
              (emit_outputs-authoritative f fuel before i t s context agree closable long
                (omega arith) le (omega arith) placed)
        | inl chosen ↦
            let e : choice context ≡ draft = ground arith in
            let k = agreeing choice (context ++ draft ∷ []) drafts in
            let enforce = not (request.is_stop draft) in
            let next : Turn = record {
              generated = t.generated ++ draft ∷ [];
              evaluated = context ++ draft ∷ take k drafts;
              pending_token = none;
              thinking = (observe_thinking t.thinking draft enforce).0;
            } in
            let more : length (t.generated ++ draft ∷ []) ≡ suc (length t.generated) =
              omega (arith, length-append t.generated (draft ∷ [])) in
            let longer : length (context ++ draft ∷ []) ≡ suc (length context) =
              omega (arith, length-append context (draft ∷ [])) in
            let suffix : accepted ≡ suc i + k = ground arith in
            let after =
              emit_outputs-Agrees f fuel before accepted (suc i) next (S.push draft s)
                (context ++ draft ∷ []) drafts agree
                (observe_thinking-IsClosable t.thinking draft enforce closable) running.1
                (observe_thinking-HasRoom t.thinking draft enforce (length drafts) open_room)
                (omega arith) suffix (omega arith) (omega arith) (omega arith) (omega arith) in
            rw
              (
                chosen,
                target_loop-choice L logits request S choice chooses fuel (at t context)
                    (omega arith),
                e,
              )
              (emit_outputs-accepted f fuel before accepted i t s context (take k drafts) draft
                (outputs_from choice (context ++ draft ∷ []) drafts) agree closable running.0 long
                (omega arith) (omega arith) le (omega arith) placed
                (λ forced.
                  take-none k drafts
                    (force_closure-last t.thinking draft enforce (length drafts) open_room forced))
                (rw (append_assoc context (draft ∷ []) (take k drafts)) at after))
      ]
