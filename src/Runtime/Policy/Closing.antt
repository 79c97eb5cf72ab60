-- ===== src/Runtime/Policy/Closing.antt =====
-- A forced closure under the policy of src/runtime.rs and on the target-only path.
use inferq.Prelude.{
  ℕ, ◌+◌, ◌≤◌, ◌≡◌, refl, Option, none, some, List, [], ◌∷◌, ◌++◌, length, arith, length-append,
  Bool-cases, inl, inr,
}
use inferq.Ngram.{Token}
use inferq.Sampling.{LogitOps}
use inferq.Runtime.Turn.{TurnOptions, Turn, halted, Progress, go, stop, emitted, evaluate}
use inferq.Runtime.TargetOnly.{close_tokens, force_close_thinking_target_only}
use inferq.Runtime.Policy.{Drafter, close_tokens_policy, force_close_thinking_policy}

-- The target's side of the progress of a policy.
abbrev pub turns : {T : Type 0} → Progress (Turn × T) → Progress Turn
turns (go p) = go p.0
turns (stop o) = stop o

-- How many tokens are evaluated for the pending one.
abbrev pub pending_rows : Option Token → ℕ
pending_rows none = 0
pending_rows (some token) = 1

-- What a closure leaves alone, and that it emits as many tokens as it evaluates beyond `rows`.
pub record IsAfter (rows : ℕ) (t u : Turn) : Type 0 where
  pub pending : u.pending_token ≡ t.pending_token
  pub thinking : u.thinking ≡ t.thinking
  pub grown : length t.generated ≤ length u.generated
  pub placed :
      length u.evaluated + length t.generated ≡ length t.evaluated + rows + length u.generated

module _ (L : LogitOps) (logits : List Token → List L.Logit) (request : TurnOptions)
    (S : Drafter) where
  close_tokens_policy-turns :
      (tokens : List Token) (t : Turn) (s : S.State)
      → turns (close_tokens_policy L logits request S tokens (t, s))
        ≡ close_tokens L logits request tokens t
  unfolding close_tokens_policy close_tokens
  close_tokens_policy-turns [] t s = refl
  close_tokens_policy-turns (token ∷ tokens) t s =
      elim (Bool-cases (request.on_token (t.generated ++ token ∷ []))) [
        | inl ok ↦
            rw (turns, close_tokens_policy, close_tokens, ok)
              (close_tokens_policy-turns tokens (evaluate (emitted t token) token)
                (S.evaluated_alone token (S.push token s)))
        | inr refused ↦ rw (turns, close_tokens_policy, close_tokens, refused) refl
      ]

  pub force_close-turns :
      (pending : Option Token) (closure : List Token) (t : Turn) (s : S.State)
      → turns (force_close_thinking_policy L logits request S pending closure (t, s))
        ≡ force_close_thinking_target_only L logits request pending closure t
  unfolding force_close_thinking_policy force_close_thinking_target_only
  force_close-turns none [] t s = refl
  force_close-turns none (c ∷ closure) t s = close_tokens_policy-turns (c ∷ closure) t s
  force_close-turns (some token) [] t s =
      close_tokens_policy-turns [] (evaluate t token) (S.evaluated_alone token s)
  force_close-turns (some token) (c ∷ closure) t s =
      close_tokens_policy-turns (c ∷ closure) (evaluate t token) (S.evaluated_alone token s)

  close_tokens-IsAfter :
      (tokens : List Token) (t u : Turn)
      → close_tokens L logits request tokens t ≡ go u
      → IsAfter 0 t u
  unfolding close_tokens
  close_tokens-IsAfter [] t u h =
      let same : t ≡ u = cc in
      rw (← same)
        (record { pending = refl; thinking = refl; grown = omega arith; placed = omega arith })
  close_tokens-IsAfter (token ∷ tokens) t u h =
      elim (Bool-cases (request.on_token (t.generated ++ token ∷ []))) [
        | inl ok ↦
            let after =
              close_tokens-IsAfter tokens (evaluate (emitted t token) token) u
                (rw (close_tokens, ok) at h) in
            record {
              pending = after.pending;
              thinking = after.thinking;
              grown = omega (arith, after.grown, length-append t.generated (token ∷ []));
              placed = omega (
                arith,
                after.placed,
                length-append t.generated (token ∷ []),
                length-append t.evaluated (token ∷ []),
              );
            }
        | inr refused ↦
            let both : stop (
                  halted (record t {
                    generated = t.generated ++ token ∷ [];
                    pending_token = some token;
                  }))
                ≡ go u =
              rw (close_tokens, refused) at h in
            cc
      ]

  pub force_close-IsAfter :
      (pending : Option Token) (closure : List Token) (t u : Turn)
      → force_close_thinking_target_only L logits request pending closure t ≡ go u
      → IsAfter (pending_rows pending) t u
  unfolding force_close_thinking_target_only
  force_close-IsAfter none [] t u h = cc
  force_close-IsAfter none (c ∷ closure) t u h = close_tokens-IsAfter (c ∷ closure) t u h
  force_close-IsAfter (some token) [] t u h =
      let after = close_tokens-IsAfter [] (evaluate t token) u h in
      record {
        pending = after.pending;
        thinking = after.thinking;
        grown = after.grown;
        placed = omega (arith, after.placed, length-append t.evaluated (token ∷ []));
      }
  force_close-IsAfter (some token) (c ∷ closure) t u h =
      let after = close_tokens-IsAfter (c ∷ closure) (evaluate t token) u h in
      record {
        pending = after.pending;
        thinking = after.thinking;
        grown = after.grown;
        placed = omega (arith, after.placed, length-append t.evaluated (token ∷ []));
      }
