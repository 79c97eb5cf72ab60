-- ===== src/Runtime/Verify.antt =====
-- A verification pass of src/runtime.rs: how many drafts are accepted, and what is committed.
use mathlib.Core.Option
use inferq.Prelude.{
  ℕ, suc, ◌+◌, ◌%◌, ◌^◌, Bool, true, false, Option, none, some, List, [], ◌∷◌, ◌++◌, map, length,
  take, get_elem?, ltb, ◌==◌, if◌then◌else◌, min,
}
use inferq.Ngram.{Token}
use inferq.Sampling.{LogitOps, argmax}

-- `drafts[..accepted]`, each with the mark of an accepted draft, and the authoritative token.
unfoldable pub speculative_committed_outputs : List Token → ℕ → Token → List (Token × Bool)
speculative_committed_outputs drafts accepted authoritative =
    map (λ (token : Token). let out : Token × Bool = (token, true) in out) (take accepted drafts)
    ++ (authoritative, false) ∷ []

unfoldable pub halted_pass_rows : ℕ → ℕ → ℕ
halted_pass_rows output_index accepted = 1 + min output_index accepted

module _ (L : LogitOps) where
  open L use {Logit}

  -- `argmax(row)? as u32`.
  unfoldable pub top_token : List Logit → Option Token
  top_token row = Option.map (λ i. i % 2 ^ 32) (argmax L row)

  -- The loop of `accepted_draft_prefix`, at the drafts and rows that are left.
  unfoldable pub accepted_from : List Token → List (List Logit) → Option ℕ
  accepted_from [] rows = some 0
  accepted_from (draft ∷ drafts) [] = none
  accepted_from (draft ∷ drafts) (row ∷ rows) =
      let rest = accepted_from drafts rows in
      elim (top_token row) [
        | none ↦ none
        | some token ↦ if token == draft then Option.map suc rest else some 0
      ]

  unfoldable pub accepted_draft_prefix : List Token → List (List Logit) → Option ℕ
  unfolding accepted_from
  accepted_draft_prefix drafts rows =
      if ltb (length drafts) (length rows) then accepted_from drafts rows else none

  -- What one pass commits, from the drafts and the rows that the target computed.
  unfoldable pub verify_outputs : List Token → List (List Logit) → Option (List (Token × Bool))
  unfolding accepted_draft_prefix speculative_committed_outputs
  verify_outputs drafts rows = elim (accepted_draft_prefix drafts rows) [
    | none ↦ none
    | some accepted ↦ elim (get_elem? rows accepted) [
      | none ↦ none
      | some row ↦
          Option.map (λ authoritative. speculative_committed_outputs drafts accepted authoritative)
            (top_token row)
    ]
  ]
