-- ===== src/Runtime/TargetOnly/Plain.antt =====
-- A turn of the target-only path in src/runtime.rs without a thinking budget, against plain greedy
-- decoding.
use inferq.Prelude.{
  ℕ, zero, suc, ◌+◌, ◌<◌, ◌≡◌, refl, sym, ap, ◌∙◌, Bool, true, false, Option, none, some, List, [],
  ◌∷◌, ◌++◌, length, leb, ltb, ◌==◌, if◌then◌else◌, arith, length-append, append_assoc, append-nil,
  Bool-cases, inl, inr, ◌||◌,
}
use inferq.Ngram.{Token}
use inferq.Sampling.{LogitOps}
use inferq.Runtime.Verify.{top_token}
use inferq.Runtime.Greedy.{greedy}
use inferq.Runtime.Turn.{
  TurnOptions, Turn, Ending, finished, out_of_fuel, go, stop, carry_on, emitted, evaluate,
  observe_thinking, is_force_closure,
}
use inferq.Runtime.TargetOnly.Ends.{target_step-full}
use inferq.Runtime.TargetOnly.{
  continuation_input, force_first, after_commit, commit, target_step, target_loop,
  generate_target_only,
}

-- A list up to its first stop token, that token included.
unfoldable pub through_stop : (Token → Bool) → List Token → List Token
through_stop is_stop [] = []
through_stop is_stop (token ∷ tokens) =
    let rest = through_stop is_stop tokens in token ∷ (if is_stop token then [] else rest)

module _ (L : LogitOps) (logits : List Token → List L.Logit) (request : TurnOptions)
    (choice : List Token → Token)
    (chooses : (context : List Token) → top_token L (logits context) ≡ some (choice context))
    (accepts : (generated : List Token) → request.on_token generated ≡ true) where
  -- The turn ends with a result that has emitted a list.
  abbrev pub Emits : Ending → List Token → Type 0
  Emits o tokens = (t : Turn) × (o ≡ finished t) × (t.generated ≡ tokens)

  abbrev after_plain : Turn → Turn
  after_plain t =
      let token = choice t.evaluated in record (emitted t token) { pending_token = some token }

  target_step-plain :
      (t : Turn)
      → t.thinking ≡ none
      → length t.generated < request.max_new_tokens
      → target_step L logits request t
        ≡ after_commit L logits request (after_plain t) (choice t.evaluated) false
  unfolding target_step commit observe_thinking is_force_closure
  target_step-plain t plain room =
      let more : ltb (length t.generated) request.max_new_tokens ≡ true = ground arith in
      simp
        (
          target_step,
          commit,
          more,
          chooses t.evaluated,
          accepts (t.generated ++ choice t.evaluated ∷ []),
          plain,
        )
        refl

  -- The turn that has emitted its last token.
  after_commit-last :
      (t : Turn) (token : Token)
      → (request.is_stop token || leb request.max_new_tokens (length t.generated)) ≡ true
      → after_commit L logits request t token false ≡ stop (finished t)
  unfolding after_commit
  after_commit-last t token last = ground arith

  after_commit-more :
      (t : Turn) (token : Token)
      → request.is_stop token ≡ false
      → length t.generated < request.max_new_tokens
      → after_commit L logits request t token false
        ≡ go (evaluate (record t { pending_token = none }) token)
  unfolding after_commit
  after_commit-more t token running room =
      let more : leb request.max_new_tokens (length t.generated) ≡ false = ground arith in
      rw (after_commit, running, more) refl

  target_loop-Emits :
      (n : ℕ) (t : Turn)
      → t.thinking ≡ none
      → n + length t.generated ≡ request.max_new_tokens
      → Emits
          (target_loop L logits request (suc n) t)
          (t.generated ++ through_stop request.is_stop (greedy choice t.evaluated n))
  unfolding target_loop greedy through_stop
  target_loop-Emits zero t plain left = (
    t,
    ap (carry_on (λ (u : Turn). out_of_fuel)) (target_step-full L logits request t (omega arith)),
    sym (append-nil t.generated),
  )
  target_loop-Emits (suc n) t plain left =
      let token = choice t.evaluated in
      let loop = target_loop L logits request (suc n) in
      let next = after_plain t in
      let longer : length next.generated ≡ suc (length t.generated) =
        omega (arith, length-append t.generated (token ∷ [])) in
      let step = target_step-plain t plain (omega arith) in
      elim (Bool-cases (request.is_stop token)) [
        | inl last ↦ (
          next,
          ap (carry_on loop) (step ∙ after_commit-last next token (rw last refl)),
          rw last refl,
        )
        | inr running ↦ elim (Bool-cases (leb request.max_new_tokens (length next.generated))) [
          | inl full ↦
              let none_left : n ≡ 0 = ground arith in
              (
                next,
                ap (carry_on loop) (step ∙ after_commit-last next token (ground arith)),
                rw (running, none_left) refl,
              )
          | inr room ↦
              let rest : Turn = evaluate (record next { pending_token = none }) token in
              let (u, ends, emits) = target_loop-Emits n rest plain (omega arith) in
              (
                u,
                ap (carry_on loop) (step ∙ after_commit-more next token running (ground arith))
                    ∙ ends,
                rw running (
                    emits
                    ∙ append_assoc t.generated (token ∷ []) (
                        through_stop request.is_stop
                          (greedy choice (t.evaluated ++ token ∷ []) n))),
              )
        ]
      ]

  -- With no thinking budget and a callback that accepts every token, a turn that may emit at least
  -- one token and has a prompt ends with a result, and has emitted exactly the greedy continuation of
  -- its input, through the first stop token or up to the token limit.
  pub generate_target_only-greedy :
      (evaluated : List Token) (pending : Option Token) (prompt : List Token)
      → 0 < request.max_new_tokens
      → 0 < length prompt
      → Emits (generate_target_only L logits request evaluated pending prompt none) (
          through_stop request.is_stop
            (greedy choice (evaluated ++ continuation_input prompt pending) request.max_new_tokens))
  unfolding generate_target_only force_first
  generate_target_only-greedy evaluated pending prompt asked given =
      let start : Turn = record {
        generated = [];
        evaluated = evaluated ++ continuation_input prompt pending;
        pending_token = none;
        thinking = none;
      } in
      let valid : (request.max_new_tokens == 0 || length prompt == 0) ≡ false = ground arith in
      rw (generate_target_only, valid)
        (target_loop-Emits request.max_new_tokens start refl (omega arith))
