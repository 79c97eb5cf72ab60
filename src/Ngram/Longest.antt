-- ===== src/Ngram/Longest.antt =====
-- The order in which `NgramIndex::draft` of src/ngram.rs tries its key lengths.
use inferq.Prelude.{
  ℕ, ◌+◌, ◌≤◌, ◌<◌, ◌≡◌, sym, ◌∙◌, Bool, true, false, none, some, List, [], ◌∷◌, arith, ltb,
  Bool-cases, Option-cases, inl, inr, All, min, length, ◌==◌, clamp,
}
use inferq.Ngram.{
  Token, NgramIndex, NgramDraft, draft_from, draft, most_recent_match, min_match_len, max_match_len,
  indexed_match_lengths,
}
use inferq.Ngram.Recent.{IsIndex, has_len}
use inferq.Ngram.Lookup.{most_recent_match_sound}
use inferq.Ngram.Cut.{propose_inv}
use inferq.Ngram.Draft.{draft_from-match, draft_from-skip}
use mathlib.Core.Option.{none-ne-some}

abbrev Descending : List ℕ → Type 0
Descending [] = Unit
Descending (l ∷ lens) = All (λ m. m < l) lens × Descending lens

has_len-lt : (n l : ℕ) (lens : List ℕ) → All (λ m. m < l) lens → has_len n lens ≡ true → n < l
has_len-lt n l [] h e = cc
has_len-lt n l (m ∷ lens) (lt, h) e = ground (arith, has_len-lt n l lens h)

module _ (index : NgramIndex) (draft_len min_match : ℕ) (is_stop : Token → Bool) (h : IsIndex index)
    (pos : 0 < draft_len) where
  -- The first length that is allowed and has a match is the one the proposal reports.
  draft_from-settles :
      (l p : ℕ) (lens : List ℕ) (d : NgramDraft)
      → ltb l min_match ≡ false
      → most_recent_match index l ≡ some p
      → draft_from index draft_len min_match is_stop (l ∷ lens) ≡ some d
      → d.match_len ≡ l
  draft_from-settles l p lens d allowed found e =
      let (inside, _, _) = most_recent_match_sound index l p h found in
      let (_, len, _) =
        propose_inv index.tokens draft_len p is_stop (min (p + 1 + draft_len) (length index.tokens))
          l d (omega arith) (omega arith) (omega arith)
          (sym (draft_from-match index draft_len min_match is_stop h pos l p lens allowed found)
            ∙ e) in
      len

  draft_from-longest :
      (lens : List ℕ) (d : NgramDraft) (n : ℕ)
      → Descending lens
      → draft_from index draft_len min_match is_stop lens ≡ some d
      → has_len n lens ≡ true
      → min_match ≤ n
      → d.match_len < n
      → most_recent_match index n ≡ none
  draft_from-longest [] d n desc e m le lt = cc
  draft_from-longest (l ∷ lens) d n (below, desc) e m le lt = elim (Bool-cases (ltb l min_match)) [
    | inl small ↦
        draft_from-longest lens d n desc
          (sym (draft_from-skip index draft_len min_match is_stop h pos l lens (inl small)) ∙ e)
          (ground arith) le lt
    | inr allowed ↦ elim (Option-cases (most_recent_match index l)) [
      | inl missing ↦ elim (Bool-cases (l == n)) [
        | inl here ↦ let same : l ≡ n = ground arith in rw same at missing
        | inr other ↦
            draft_from-longest lens d n desc
              (sym (draft_from-skip index draft_len min_match is_stop h pos l lens (inr missing))
                ∙ e)
              (rw other at m) le lt
      ]
      | inr (p, found) ↦
          absurd (
            ground
              (arith, draft_from-settles l p lens d allowed found e, has_len-lt n l lens below))
    ]
  ]

-- A draft comes from the longest key that has a match: no indexed length that is longer, and at
-- least the clamped minimum, has one.
pub draft-longest :
    (index : NgramIndex) (draft_len min_match : ℕ) (is_stop : Token → Bool) (d : NgramDraft) (n : ℕ)
    → IsIndex index
    → draft index draft_len min_match is_stop ≡ some d
    → has_len n indexed_match_lengths ≡ true
    → clamp min_match_len max_match_len min_match ≤ n
    → d.match_len < n
    → most_recent_match index n ≡ none
unfolding draft
draft-longest index draft_len min_match is_stop d n h e m le lt =
    elim (Bool-cases (draft_len == 0)) [
      | inl empty ↦ absurd (none-ne-some d (rw empty at e))
      | inr some_len ↦
          draft_from-longest index draft_len (clamp min_match_len max_match_len min_match) is_stop h
            (ground arith) indexed_match_lengths d n (omega arith) (rw some_len at e) m le lt
    ]
