-- ===== src/Runtime/Policy/Equivalence.antt =====
-- Decoding under the speculative policy of src/runtime.rs against the target-only path.
use inferq.Prelude.{
  ℕ, zero, suc, ◌+◌, ◌-◌, ◌≤◌, ◌<◌, ◌≡◌, refl, false, ◌||◌, Option, none, some, List, [], ◌∷◌, ◌++◌,
  length, take, arith, length-append, ltb, append_assoc, Bool-cases, inl, inr, leb, if◌then◌else◌,
  All,
}
use inferq.Ngram.{Token}
use inferq.Sampling.{LogitOps}
use inferq.Runtime.Verify.{top_token}
use inferq.Runtime.Greedy.{agreeing, rows_after, accepted_draft_prefix-agreeing}
use inferq.Runtime.ThinkingBudget.{ThinkingBudget, remaining}
use inferq.Runtime.Turn.{TurnOptions, Turn, Ending, finished, carry_on, evaluate}
use inferq.Runtime.Turn.Budget.{HasRoom, IsClosable}
use inferq.Runtime.TargetOnly.{target_loop}
use inferq.Runtime.Policy.{
  Drafter, Policy, draft_budget, verify_pass, seeded_step, policy_step, policy_loop,
}
use inferq.Runtime.Policy.Outputs.{committed-eq-outputs_from, authoritative_of-agreeing}
use inferq.Runtime.Policy.Closing.{pending_rows}
use inferq.Runtime.Policy.Emission.{resume_turn, Agrees}
use inferq.Runtime.Policy.Accepted.{at, emit_outputs-Agrees}

-- What a source of drafts keeps to: the budget, and no stop token.
abbrev pub IsBounded : TurnOptions → Drafter → Type 0
IsBounded request S =
    (committed : ℕ) (seed : Token) (budget : ℕ) (s : S.State)
    → (length (S.propose committed seed budget s).0 ≤ budget)
      × All (λ draft. request.is_stop draft ≡ false) (S.propose committed seed budget s).0

draft_budget-lt :
    (max_new_tokens : ℕ) (t : Turn)
    → length t.generated < max_new_tokens
    → length t.generated + draft_budget max_new_tokens t < max_new_tokens
unfolding draft_budget remaining
draft_budget-lt max_new_tokens t room =
    elim t.thinking
      as (λ thinking.
        length t.generated + draft_budget max_new_tokens (record t { thinking = thinking })
        < max_new_tokens) [ none ↦ omega arith | some b ↦ ground arith ]

draft_budget-HasRoom :
    (max_new_tokens : ℕ) (t : Turn) (n : ℕ)
    → n ≤ draft_budget max_new_tokens t
    → HasRoom t.thinking n
unfolding draft_budget remaining
draft_budget-HasRoom max_new_tokens t n within = at_thinking t.thinking within
  where
    at_thinking :
        (thinking : Option ThinkingBudget)
        → n ≤ draft_budget max_new_tokens (record t { thinking = thinking })
        → HasRoom thinking n
    at_thinking none h = tt
    at_thinking (some b) h = ground arith

module _ (L : LogitOps) (logits : List Token → List L.Logit) (request : TurnOptions) (S : Drafter)
    (choice : List Token → Token)
    (chooses : (context : List Token) → top_token L (logits context) ≡ some (choice context))
    (bounded : IsBounded request S) where
  abbrev P : Type 0
  P = Policy L logits request S

  abbrev loop : ℕ → Turn → Ending
  loop = target_loop L logits request

  verify_pass-Agrees :
      (f fuel : ℕ) (t : Turn) (s : S.State) (seed : Token) (drafts : List Token)
      → Agrees L logits request S choice chooses (suc f)
      → IsClosable t.thinking
      → All (λ draft. request.is_stop draft ≡ false) drafts
      → HasRoom t.thinking (length drafts)
      → length t.generated + length drafts < request.max_new_tokens
      → request.max_new_tokens - length t.generated ≤ suc f
      → request.max_new_tokens - length t.generated < fuel
      → length t.evaluated + 1 + request.max_new_tokens ≤ request.max_position + length t.generated
      → carry_on
          (policy_loop L logits request S (suc f))
          (verify_pass L logits request S seed drafts (t, s))
        ≡ loop fuel (at L logits request S choice chooses t (t.evaluated ++ seed ∷ []))
  unfolding verify_pass rows_after
  verify_pass-Agrees f fuel t s seed drafts agree closable running open_room room le lt placed =
      let start = t.evaluated ++ seed ∷ [] in
      let k = agreeing choice start drafts in
      let long : length start ≡ length t.evaluated + (1 + 0) =
        omega (arith, length-append t.evaluated (seed ∷ [])) in
      let settled = S.settle (length t.generated) k (choice (start ++ take k drafts)) s in
      let emits =
        emit_outputs-Agrees L logits request S choice chooses f fuel (length t.evaluated) k 0 t
          settled start drafts agree closable running open_room long (omega arith) room le lt
          (omega arith) in
      let fits : ltb request.max_position (length t.evaluated + suc (length drafts)) ≡ false =
        ground arith in
      rw
        (
          verify_pass,
          fits,
          accepted_draft_prefix-agreeing L logits choice chooses start drafts,
          authoritative_of-agreeing L logits choice chooses start drafts,
          committed-eq-outputs_from choice start drafts,
          ← append_assoc t.evaluated (seed ∷ []) (take k drafts),
        )
        emits

  seeded_step-Agrees :
      (f fuel : ℕ) (t : Turn) (s : S.State) (seed : Token)
      → Agrees L logits request S choice chooses f
      → IsClosable t.thinking
      → request.max_new_tokens - length t.generated ≤ f
      → request.max_new_tokens - length t.generated < fuel
      → length t.evaluated + 1 + request.max_new_tokens ≤ request.max_position + length t.generated
      → carry_on (policy_loop L logits request S f) (seeded_step L logits request S seed (t, s)) ≡ (
          if leb request.max_new_tokens (length t.generated) || request.is_stop seed
          then finished t
          else loop fuel (evaluate (record t { pending_token = none }) seed))
  unfolding seeded_step
  seeded_step-Agrees f fuel t s seed agree closable le lt placed =
      elim (Bool-cases (leb request.max_new_tokens (length t.generated) || request.is_stop seed)) [
        | inl ended ↦ rw (seeded_step, ended) refl
        | inr goes ↦ rw (seeded_step, goes) (running f agree le (ground arith))
      ]
    where
      running :
          (g : ℕ)
          → Agrees L logits request S choice chooses g
          → request.max_new_tokens - length t.generated ≤ g
          → length t.generated < request.max_new_tokens
          → let budget = draft_budget request.max_new_tokens t in
            let proposal = S.propose (length t.generated) seed budget s in
            carry_on
              (policy_loop L logits request S g)
              (verify_pass L logits request S seed proposal.0 (t, proposal.1))
            ≡ loop fuel (evaluate (record t { pending_token = none }) seed)
      running zero agree le room = absurd (omega arith)
      running (suc g) agree le room =
          let budget = draft_budget request.max_new_tokens t in
          let proposal = S.propose (length t.generated) seed budget s in
          let keeps = bounded (length t.generated) seed budget s in
          verify_pass-Agrees g fuel t proposal.1 seed proposal.0 agree closable keeps.1
            (draft_budget-HasRoom request.max_new_tokens t (length proposal.0) keeps.0)
            (omega (arith, keeps.0, draft_budget-lt request.max_new_tokens t room)) le lt placed

  pub policy_loop-Agrees : (f : ℕ) → Agrees L logits request S choice chooses f
  unfolding policy_loop policy_step resume_turn
  policy_loop-Agrees zero t s fuel closable lt lt' placed = absurd (omega arith)
  policy_loop-Agrees (suc f) t s fuel closable lt lt' placed =
      from (policy_loop-Agrees f) t.pending_token placed
    where
      from :
          Agrees L logits request S choice chooses f
          → (pending : Option Token)
          → length t.evaluated + pending_rows pending + request.max_new_tokens
            ≤ request.max_position + length t.generated
          → policy_loop L logits request S (suc f) (record t { pending_token = pending }, s)
            ≡ resume_turn L logits request S choice chooses fuel
                (record t { pending_token = pending })
      from agree none room = refl
      from agree (some seed) room =
          seeded_step-Agrees f fuel (record t { pending_token = some seed }) s seed agree closable
            (omega arith) lt' room
