-- ===== src/Runtime/Policy/Outputs.antt =====
-- The outputs of a verification pass in src/runtime.rs, one at a time: each draft is kept while it is
-- the target's choice.
use inferq.Prelude.{
  ◌≡◌, refl, sym, ap, ◌∙◌, Bool, true, false, some, List, [], ◌∷◌, ◌++◌, take, ◌==◌, if◌then◌else◌,
  append_assoc, append-nil, Bool-cases, inl, inr,
}
use inferq.Ngram.{Token}
use inferq.Sampling.{LogitOps}
use inferq.Runtime.Verify.{top_token, speculative_committed_outputs}
use inferq.Runtime.Greedy.{agreeing, agreeing-le, rows_after, row_of}
use inferq.Runtime.Policy.{authoritative_of}

unfoldable pub outputs_from : (List Token → Token) → List Token → List Token → List (Token × Bool)
outputs_from choice context [] = (choice context, false) ∷ []
outputs_from choice context (draft ∷ drafts) =
    let rest = outputs_from choice (context ++ draft ∷ []) drafts in
    if choice context == draft then (draft, true) ∷ rest else (choice context, false) ∷ []

pub committed-eq-outputs_from :
    (choice : List Token → Token) (context drafts : List Token)
    → let k = agreeing choice context drafts in
      speculative_committed_outputs drafts k (choice (context ++ take k drafts))
      ≡ outputs_from choice context drafts
unfolding agreeing outputs_from speculative_committed_outputs
committed-eq-outputs_from choice context [] = rw append-nil refl
committed-eq-outputs_from choice context (draft ∷ drafts) =
    elim (Bool-cases (choice context == draft)) [
      | inl same ↦
          let k = agreeing choice (context ++ draft ∷ []) drafts in
          rw same (
            ap (λ (r : List (Token × Bool)). (draft, true) ∷ r)
              (ap (λ c. speculative_committed_outputs drafts k (choice c))
                  (sym (append_assoc context (draft ∷ []) (take k drafts)))
                ∙ committed-eq-outputs_from choice (context ++ draft ∷ []) drafts))
      | inr other ↦ rw (other, append-nil) refl
    ]

module _ (L : LogitOps) (logits : List Token → List L.Logit) (choice : List Token → Token)
    (chooses : (context : List Token) → top_token L (logits context) ≡ some (choice context)) where
  -- What the pass computes from its rows.
  pub authoritative_of-agreeing :
      (start drafts : List Token)
      → let k = agreeing choice start drafts in
        authoritative_of L (logits start ∷ rows_after L logits start drafts) k
        ≡ some (choice (start ++ take k drafts))
  unfolding authoritative_of
  authoritative_of-agreeing start drafts =
      let k = agreeing choice start drafts in
      rw
        (
          authoritative_of,
          row_of L logits choice chooses start drafts k (agreeing-le choice start drafts),
        )
        (chooses (start ++ take k drafts))
