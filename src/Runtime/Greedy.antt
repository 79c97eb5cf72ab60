-- ===== src/Runtime/Greedy.antt =====
-- Verification in src/runtime.rs against plain greedy decoding: whatever was drafted, a pass commits
-- the tokens that the target would have chosen one at a time.
use native.Mathlib.Numerals.{add-one}
use inferq.Prelude.{
  ℕ, zero, suc, ◌+◌, ◌≤◌, ◌≡◌, ◌≢◌, refl, sym, ap, ◌∙◌, Bool, some, List, [], ◌∷◌, ◌++◌, map,
  length, take, get_elem?, ◌==◌, if◌then◌else◌, arith, append_assoc, append-nil, Bool-cases, inl,
  inr,
}
use inferq.Ngram.{Token}
use inferq.Sampling.{LogitOps}
use inferq.Runtime.Verify.{
  speculative_committed_outputs, top_token, accepted_from, accepted_draft_prefix, verify_outputs,
}

-- Plain decoding: `n` tokens, each the target's choice after all before it.
unfoldable pub greedy : (List Token → Token) → List Token → ℕ → List Token
greedy choice context zero = []
greedy choice context (suc n) =
    let token = choice context in token ∷ greedy choice (context ++ token ∷ []) n

-- How many drafts are what plain decoding would choose.
unfoldable pub agreeing : (List Token → Token) → List Token → List Token → ℕ
agreeing choice context [] = 0
agreeing choice context (draft ∷ drafts) =
    let rest = agreeing choice (context ++ draft ∷ []) drafts in
    if choice context == draft then suc rest else 0

abbrev pub tokens_of : List (Token × Bool) → List Token
tokens_of = map (λ (out : Token × Bool). out.0)

-- The accepted drafts and the target's choice behind them are the plain continuation.
committed-greedy :
    (choice : List Token → Token) (context drafts : List Token)
    → let k = agreeing choice context drafts in
      tokens_of (speculative_committed_outputs drafts k (choice (context ++ take k drafts)))
      ≡ greedy choice context (suc k)
unfolding agreeing greedy speculative_committed_outputs
committed-greedy choice context [] = rw append-nil refl
committed-greedy choice context (draft ∷ drafts) = elim (Bool-cases (choice context == draft)) [
  | inl same ↦
      let e : choice context ≡ draft = ground arith in
      let k = agreeing choice (context ++ draft ∷ []) drafts in
      rw (same, e)
        (ap (λ r. draft ∷ r)
          (ap (λ t. tokens_of (speculative_committed_outputs drafts k (choice t)))
              (sym (append_assoc context (draft ∷ []) (take k drafts)))
            ∙ committed-greedy choice (context ++ draft ∷ []) drafts))
  | inr other ↦ rw (other, append-nil) refl
]

pub agreeing-le :
    (choice : List Token → Token) (context drafts : List Token)
    → agreeing choice context drafts ≤ length drafts
unfolding agreeing
agreeing-le choice context [] = omega arith
agreeing-le choice context (draft ∷ drafts) =
    ground (arith, agreeing-le choice (context ++ draft ∷ []) drafts)

-- The first draft that is not accepted is one the target would not choose.
agreeing-maximal :
    (choice : List Token → Token) (context drafts : List Token) (draft : Token)
    → let k = agreeing choice context drafts in
      get_elem? drafts k ≡ some draft → choice (context ++ take k drafts) ≢ draft
unfolding agreeing
agreeing-maximal choice context [] draft h = cc
agreeing-maximal choice context (d ∷ drafts) draft h = elim (Bool-cases (choice context == d)) [
  | inl same ↦
      let k = agreeing choice (context ++ d ∷ []) drafts in
      rw (same, ← append_assoc context (d ∷ []) (take k drafts))
        (agreeing-maximal choice (context ++ d ∷ []) drafts draft (rw same at h))
  | inr other ↦ rw (other, append-nil) (ground arith)
]

module _ (L : LogitOps) (logits : List Token → List L.Logit) where
  -- The rows of a pass over some tokens after a context: each sees the context and the tokens up to
  -- its own, as the target computes them one at a time.
  unfoldable pub rows_after : List Token → List Token → List (List L.Logit)
  rows_after context [] = []
  rows_after context (token ∷ tokens) =
      logits (context ++ token ∷ []) ∷ rows_after (context ++ token ∷ []) tokens

  module _ (choice : List Token → Token)
      (chooses : (context : List Token)
        → top_token L (logits context) ≡ some (choice context)) where
    accepted_from-agreeing :
        (context drafts : List Token)
        → accepted_from L drafts (logits context ∷ rows_after context drafts)
          ≡ some (agreeing choice context drafts)
    unfolding accepted_from agreeing rows_after
    accepted_from-agreeing context [] = refl
    accepted_from-agreeing context (draft ∷ drafts) =
        rw (chooses context, accepted_from)
          (ground (arith, accepted_from-agreeing (context ++ draft ∷ []) drafts))

    pub row_of :
        (context drafts : List Token) (k : ℕ)
        → k ≤ length drafts
        → get_elem? (logits context ∷ rows_after context drafts) k
          ≡ some (logits (context ++ take k drafts))
    unfolding rows_after
    row_of context drafts zero le = rw append-nil refl
    row_of context [] (suc k) le = absurd (omega arith)
    row_of context (draft ∷ drafts) (suc k) le =
        row_of (context ++ draft ∷ []) drafts k (omega arith)
        ∙ ap (λ t. some (logits t)) (append_assoc context (draft ∷ []) (take k drafts))

    length-rows_after :
        (context tokens : List Token) → length (rows_after context tokens) ≡ length tokens
    unfolding rows_after
    length-rows_after context [] = refl
    length-rows_after context (token ∷ tokens) =
        ap suc (length-rows_after (context ++ token ∷ []) tokens)

    pub accepted_draft_prefix-agreeing :
        (start drafts : List Token)
        → accepted_draft_prefix L drafts (logits start ∷ rows_after start drafts)
          ≡ some (agreeing choice start drafts)
    unfolding accepted_draft_prefix
    accepted_draft_prefix-agreeing start drafts =
        rw (length-rows_after start drafts, accepted_from-agreeing start drafts) (ground arith)

    verify_outputs-start :
        (start drafts : List Token)
        → let k = agreeing choice start drafts in
          verify_outputs L drafts (logits start ∷ rows_after start drafts)
          ≡ some (speculative_committed_outputs drafts k (choice (start ++ take k drafts)))
    unfolding verify_outputs
    verify_outputs-start start drafts =
        let k = agreeing choice start drafts in
        rw
          (
            accepted_draft_prefix-agreeing start drafts,
            verify_outputs,
            row_of start drafts k (agreeing-le choice start drafts),
            chooses (start ++ take k drafts),
          )
          refl

    -- A pass over the pending token and any drafts succeeds where the target has a choice at every
    -- context. It commits `k` drafts and one more token, and these are exactly the `k + 1` tokens
    -- that plain greedy decoding would produce after the pending token; no further draft could have
    -- been kept, since the next one is not the target's choice.
    pub verify_outputs-greedy :
        (context drafts : List Token) (seed : Token)
        → let start = context ++ seed ∷ [] in
          let k = agreeing choice start drafts in
          let outputs = speculative_committed_outputs drafts k (choice (start ++ take k drafts)) in
          (verify_outputs L drafts (rows_after context (seed ∷ drafts)) ≡ some outputs)
          × (tokens_of outputs ≡ greedy choice start (k + 1))
          × (k ≤ length drafts)
          × (get_elem? drafts k ≢ some (choice (start ++ take k drafts)))
    unfolding rows_after
    verify_outputs-greedy context drafts seed =
        let start = context ++ seed ∷ [] in
        (
          verify_outputs-start start drafts,
          rw add-one (committed-greedy choice start drafts),
          agreeing-le choice start drafts,
          λ there.
              agreeing-maximal choice start drafts
                (choice (start ++ take (agreeing choice start drafts) drafts)) there refl,
        )
