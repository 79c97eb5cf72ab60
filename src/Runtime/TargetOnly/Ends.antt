-- ===== src/Runtime/TargetOnly/Ends.antt =====
-- How a turn of the target-only path in src/runtime.rs ends.
use inferq.Prelude.{
  ℕ, zero, suc, ◌-◌, ◌≤◌, ◌<◌, ◌≡◌, refl, sym, ap, ◌∙◌, Bool, false, not, Option, none, some, List,
  [], ◌∷◌, ◌++◌, length, leb, ltb, ◌==◌, if◌then◌else◌, arith, length-append, append_assoc,
  append-nil, Bool-cases, inl, inr, ◌||◌,
}
use inferq.Ngram.{Token}
use inferq.Sampling.{LogitOps}
use inferq.Runtime.Verify.{top_token}
use inferq.Runtime.ThinkingBudget.{ThinkingBudget}
use inferq.Runtime.Turn.{
  TurnOptions, Turn, Ending, finished, halted, failed, out_of_fuel, Progress, go, stop, ◌>>=◌,
  carry_on, emitted, evaluate, observe_thinking, is_force_closure, closure_of,
}
use inferq.Runtime.TargetOnly.{
  continuation_input, force_first, close_tokens, force_close_thinking_target_only, after_commit,
  commit, target_step, target_loop, generate_target_only,
}

-- The pending token, as the tokens that are left to evaluate.
abbrev pub left_over : Option Token → List Token
left_over none = []
left_over (some token) = token ∷ []

-- What was evaluated, and the token that is pending, is the input and all that was emitted since.
abbrev pub Ends : List Token → Ending → Type 0
Ends input (finished t) = t.evaluated ++ left_over t.pending_token ≡ input ++ t.generated
Ends input (halted t) = t.evaluated ++ left_over t.pending_token ≡ input ++ t.generated
Ends input failed = Unit
Ends input out_of_fuel = ⊥

-- Between rounds nothing is pending.
abbrev IsEvaluated : List Token → Turn → Type 0
IsEvaluated input t = (t.evaluated ≡ input ++ t.generated) × (t.pending_token ≡ none)

abbrev Goes : List Token → ℕ → Progress Turn → Type 0
Goes input n (go t) = IsEvaluated input t × (n ≤ length t.generated)
Goes input n (stop o) = Ends input o

one_more :
    (input evaluated generated : List Token) (token : Token)
    → evaluated ≡ input ++ generated
    → evaluated ++ token ∷ [] ≡ input ++ (generated ++ token ∷ [])
one_more input evaluated generated token h =
    ap (λ (e : List Token). e ++ token ∷ []) h ∙ append_assoc input generated (token ∷ [])

ended : (input : List Token) (t : Turn) → IsEvaluated input t → Ends input (finished t)
ended input t h = ap (λ p. t.evaluated ++ left_over p) h.1 ∙ append-nil t.evaluated ∙ h.0

Goes-le :
    (input : List Token) (m n : ℕ) (p : Progress Turn) → m ≤ n → Goes input n p → Goes input m p
Goes-le input m n (go t) le h = (h.0, omega arith)
Goes-le input m n (stop o) le h = h

module _ (L : LogitOps) (logits : List Token → List L.Logit) (request : TurnOptions) where
  close_tokens-Goes :
      (input tokens : List Token) (t : Turn)
      → IsEvaluated input t
      → Goes input (length t.generated) (close_tokens L logits request tokens t)
  unfolding close_tokens
  close_tokens-Goes input [] t h = (h, omega arith)
  close_tokens-Goes input (token ∷ tokens) t h =
      let more = one_more input t.evaluated t.generated token h.0 in
      elim (Bool-cases (request.on_token (t.generated ++ token ∷ []))) [
        | inl ok ↦
            rw (close_tokens, ok)
              (Goes-le input (length t.generated) (length (t.generated ++ token ∷ []))
                (close_tokens L logits request tokens (evaluate (emitted t token) token))
                (omega (arith, length-append t.generated (token ∷ [])))
                (close_tokens-Goes input tokens (evaluate (emitted t token) token) (more, h.1)))
        | inr refused ↦ rw (close_tokens, refused) more
      ]

  force_close-Goes :
      (input closure : List Token) (t : Turn)
      → IsEvaluated input t
      → Goes input
          (length t.generated)
          (force_close_thinking_target_only L logits request none closure t)
  unfolding force_close_thinking_target_only
  force_close-Goes input [] t h = tt
  force_close-Goes input (c ∷ closure) t h = close_tokens-Goes input (c ∷ closure) t h

  -- The token that is pending was emitted, and all before it was evaluated.
  after_commit-Goes :
      (input : List Token) (t : Turn) (token : Token) (forced : Bool)
      → t.evaluated ++ token ∷ [] ≡ input ++ t.generated
      → t.pending_token ≡ some token
      → Goes input (length t.generated) (after_commit L logits request t token forced)
  unfolding after_commit force_close_thinking_target_only
  after_commit-Goes input t token forced more pending =
      let ends : Ends input (finished t) = ap (λ p. t.evaluated ++ left_over p) pending ∙ more in
      let next : Turn = evaluate (record t { pending_token = none }) token in
      elim (Bool-cases (request.is_stop token)) [
        | inl last ↦ rw (after_commit, last) ends
        | inr running ↦ elim (Bool-cases forced) [
          | inl closes ↦
              rw (after_commit, running, closes)
                (cut (close_tokens L logits request (closure_of t.thinking) next)
                  (close_tokens-Goes input (closure_of t.thinking) next (more, refl)))
          | inr calm ↦ elim (Bool-cases (leb request.max_new_tokens (length t.generated))) [
            | inl full ↦ rw (after_commit, running, calm, full) ends
            | inr room ↦
                rw (after_commit, running, calm, room)
                  (
                    (more, refl),
                    let le : length t.generated ≤ length t.generated = omega arith in le,
                  )
          ]
        ]
      ]
    where
      cut :
          (p : Progress Turn)
          → Goes input (length t.generated) p
          → Goes input (length t.generated) (
              p >>= (λ (closed : Turn).
                if leb request.max_new_tokens (length closed.generated)
                then stop (finished closed)
                else go closed))
      cut (stop o) h = h
      cut (go u) h = elim (Bool-cases (leb request.max_new_tokens (length u.generated))) [
        | inl full ↦ rw full (ended input u h.0)
        | inr room ↦ rw room h
      ]

  commit-Goes :
      (input : List Token) (t : Turn) (token : Token)
      → IsEvaluated input t
      → Goes input (suc (length t.generated)) (commit L logits request t token)
  unfolding commit
  commit-Goes input t token h =
      let more = one_more input t.evaluated t.generated token h.0 in
      let enforce = not (request.is_stop token) in
      let observation = observe_thinking t.thinking token enforce in
      let next : Turn = record {
        generated = t.generated ++ token ∷ [];
        evaluated = t.evaluated;
        pending_token = some token;
        thinking = observation.0;
      } in
      elim (Bool-cases (request.on_token (t.generated ++ token ∷ []))) [
        | inl ok ↦
            rw (commit, ok)
              (Goes-le input (suc (length t.generated)) (length next.generated)
                (after_commit L logits request next token (is_force_closure observation.1))
                (omega (arith, length-append t.generated (token ∷ [])))
                (after_commit-Goes input next token (is_force_closure observation.1) more refl))
        | inr refused ↦ rw (commit, refused) more
      ]

  target_step-Goes :
      (input : List Token) (t : Turn)
      → IsEvaluated input t
      → Goes input (suc (length t.generated)) (target_step L logits request t)
  unfolding target_step
  target_step-Goes input t h = elim (Bool-cases (ltb (length t.generated) request.max_new_tokens)) [
    | inl room ↦ rw (target_step, room) (chosen (top_token L (logits t.evaluated)))
    | inr full ↦ rw (target_step, full) (ended input t h)
  ]
    where
      chosen :
          (token : Option Token)
          → Goes input
              (suc (length t.generated))
              (elim token [ none ↦ stop failed | some token ↦ commit L logits request t token ])
      chosen none = tt
      chosen (some token) = commit-Goes input t token h

  pub target_step-full :
      (t : Turn)
      → request.max_new_tokens ≤ length t.generated
      → target_step L logits request t ≡ stop (finished t)
  unfolding target_step
  target_step-full t full =
      let over : ltb (length t.generated) request.max_new_tokens ≡ false = ground arith in
      rw (target_step, over) refl

  -- Each round emits a token, so that more rounds than the turn has tokens left are fuel enough.
  pub target_loop-Ends :
      (input : List Token) (fuel : ℕ) (t : Turn)
      → IsEvaluated input t
      → request.max_new_tokens - length t.generated < fuel
      → Ends input (target_loop L logits request fuel t)
  unfolding target_loop
  target_loop-Ends input zero t h lt = absurd (omega arith)
  target_loop-Ends input (suc fuel) t h lt =
      elim (Bool-cases (leb request.max_new_tokens (length t.generated))) [
        | inl full ↦ rw (target_loop, target_step-full t (ground arith)) (ended input t h)
        | inr room ↦
            carried (λ u. target_loop-Ends input fuel u) (ground arith)
              (target_step L logits request t) (target_step-Goes input t h)
      ]
    where
      carried :
          ((u : Turn)
            → IsEvaluated input u
            → request.max_new_tokens - length u.generated < fuel
            → Ends input (target_loop L logits request fuel u))
          → length t.generated < request.max_new_tokens
          → (p : Progress Turn) → Goes input (suc (length t.generated)) p
          → Ends input (carry_on (target_loop L logits request fuel) p)
      carried ends room (go u) g = ends u g.0 (omega (arith, g.1))
      carried ends room (stop o) g = g

  opened-Ends :
      (input : List Token) (p : Progress Turn)
      → Goes input 0 p
      → Ends input (carry_on (target_loop L logits request (suc request.max_new_tokens)) p)
  opened-Ends input (go t) g =
      target_loop-Ends input (suc request.max_new_tokens) t g.0 (omega arith)
  opened-Ends input (stop o) g = g

  -- Every turn of the target-only path ends within one round more than its token limit, and where it
  -- ends with a result or by the refusal of the callback, what the target has evaluated and the token that is pending are together the state
  -- before the turn, its input, and all that the turn has emitted.
  pub generate_target_only-Ends :
      (evaluated : List Token) (pending : Option Token) (prompt : List Token)
      (thinking : Option ThinkingBudget)
      → Ends
          (evaluated ++ continuation_input prompt pending)
          (generate_target_only L logits request evaluated pending prompt thinking)
  unfolding generate_target_only
  generate_target_only-Ends evaluated pending prompt thinking =
      let first = force_first thinking in
      let input = evaluated ++ continuation_input prompt pending in
      let start : Turn = record {
        generated = [];
        evaluated = input;
        pending_token = none;
        thinking = first.0;
      } in
      let fresh : IsEvaluated input start = (sym (append-nil input), refl) in
      elim (Bool-cases (request.max_new_tokens == 0 || length prompt == 0)) [
        | inl refused ↦ rw (generate_target_only, refused) tt
        | inr asked ↦ elim (Bool-cases first.1) [
          | inl forced ↦
              rw (generate_target_only, asked, forced)
                (opened-Ends input
                  (force_close_thinking_target_only L logits request none (closure_of first.0)
                    start)
                  (force_close-Goes input (closure_of first.0) start fresh))
          | inr sampled ↦
              rw (generate_target_only, asked, sampled)
                (opened-Ends input (go start) (fresh, omega arith))
        ]
      ]
