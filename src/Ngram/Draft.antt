-- ===== src/Ngram/Draft.antt =====
-- The proposals of src/ngram.rs: `NgramIndex::draft` and `NgramIndex::continue_from`.
use mathlib.Core.Option.{none-ne-some}
use mathlib.Core.Path.{subst}
use inferq.Prelude.{
  ℕ, ◌+◌, ◌-◌, ◌≤◌, ◌<◌, min, ◌≡◌, refl, sym, ◌∙◌, Bool, true, false, ◌||◌, ◌⊎◌, none, some, List,
  [], ◌∷◌, arith, length, ltb, leb, ◌==◌, clamp, Bool-cases, Option-cases, inl, inr,
}
use inferq.Ngram.{
  Token, NgramIndex, NgramDraft, slice, propose, draft_from, draft, min_match_len, max_match_len,
  continue_from, most_recent_match, indexed_match_lengths, window,
}
use inferq.Ngram.Recent.{IsIndex, suffix}
use inferq.Ngram.Cut.{IsContinuation, propose_inv}
use inferq.Ngram.Lookup.{most_recent_match_sound}

-- How a proposal came about: the match at its key length, and the cut of what follows it.
record CameFrom (index : NgramIndex) (draft_len min_match : ℕ) (is_stop : Token → Bool)
    (d : NgramDraft) : Type 0 where
  allowed : min_match ≤ d.match_len
  matched : most_recent_match index d.match_len ≡ some d.source_position
  cut :
      propose is_stop
        (slice
          (d.source_position + 1)
          (min (d.source_position + 1 + draft_len) (length index.tokens))
          index.tokens)
        d.match_len
        d.source_position
      ≡ some d

module _ (index : NgramIndex) (draft_len min_match : ℕ) (is_stop : Token → Bool) (h : IsIndex index)
    (pos : 0 < draft_len) where
  -- One key length that is allowed and has a match settles the draft.
  pub draft_from-match :
      (match_len position : ℕ) (lens : List ℕ)
      → ltb match_len min_match ≡ false
      → most_recent_match index match_len ≡ some position
      → draft_from index draft_len min_match is_stop (match_len ∷ lens)
        ≡ propose is_stop
            (slice
              (position + 1)
              (min (position + 1 + draft_len) (length index.tokens))
              index.tokens)
            match_len
            position
  unfolding draft_from
  draft_from-match match_len position lens allowed found =
      let (inside, _, _) = most_recent_match_sound index match_len position h found in
      let room : leb (min (position + 1 + draft_len) (length index.tokens)) (position + 1) ≡ false =
        ground arith in
      rw (allowed, found, draft_from, room) refl

  pub draft_from-skip :
      (match_len : ℕ) (lens : List ℕ)
      → (ltb match_len min_match ≡ true) ⊎ (most_recent_match index match_len ≡ none)
      → draft_from index draft_len min_match is_stop (match_len ∷ lens)
        ≡ draft_from index draft_len min_match is_stop lens
  unfolding draft_from
  draft_from-skip match_len lens (inl small) = rw small refl
  draft_from-skip match_len lens (inr missing) = ground arith

  propose-CameFrom :
      (match_len position : ℕ) (d : NgramDraft)
      → ltb match_len min_match ≡ false
      → most_recent_match index match_len ≡ some position
      → propose is_stop
          (slice (position + 1) (min (position + 1 + draft_len) (length index.tokens)) index.tokens)
          match_len
          position
        ≡ some d
      → CameFrom index draft_len min_match is_stop d
  propose-CameFrom match_len position d allowed found e =
      let (inside, _, _) = most_recent_match_sound index match_len position h found in
      let (_, len, src) =
        propose_inv index.tokens draft_len position is_stop
          (min (position + 1 + draft_len) (length index.tokens)) match_len d (omega arith)
          (omega arith) (omega arith) e in
      record { allowed = ground arith; matched = rw (len, src) found; cut = simp (len, src) e }

  draft_from-CameFrom :
      (lens : List ℕ) (d : NgramDraft)
      → draft_from index draft_len min_match is_stop lens ≡ some d
      → CameFrom index draft_len min_match is_stop d
  draft_from-CameFrom [] d e = unfold draft_from in cc
  draft_from-CameFrom (l ∷ lens) d e = elim (Bool-cases (ltb l min_match)) [
    | inl small ↦ draft_from-CameFrom lens d (sym (draft_from-skip l lens (inl small)) ∙ e)
    | inr allowed ↦ elim (Option-cases (most_recent_match index l)) [
      | inl missing ↦ draft_from-CameFrom lens d (sym (draft_from-skip l lens (inr missing)) ∙ e)
      | inr (p, found) ↦
          propose-CameFrom l p d allowed found (sym (draft_from-match l p lens allowed found) ∙ e)
    ]
  ]

module _ (index : NgramIndex) (draft_len min_match : ℕ) (is_stop : Token → Bool) where
  draft-CameFrom :
      (d : NgramDraft)
      → IsIndex index
      → draft index draft_len min_match is_stop ≡ some d
      → (0 < draft_len)
        × CameFrom index draft_len (clamp min_match_len max_match_len min_match) is_stop d
  unfolding draft
  draft-CameFrom d h e = elim (Bool-cases (draft_len == 0)) [
    | inl empty ↦ absurd (none-ne-some d (rw empty at e))
    | inr some_len ↦
        let pos : 0 < draft_len = ground arith in
        (
          pos,
          draft_from-CameFrom index draft_len (clamp min_match_len max_match_len min_match) is_stop
              h pos indexed_match_lengths d (rw some_len at e),
        )
  ]

  -- Every draft of an index built by pushes copies the tokens behind an earlier occurrence of the
  -- last `match_len` tokens, with a key no shorter than the clamped minimum: at most `draft_len`
  -- of them, at least one, none a stop token; a proposal marked as cut is followed by a stop token.
  pub draft_sound :
      (d : NgramDraft)
      → IsIndex index
      → draft index draft_len min_match is_stop ≡ some d
      → IsContinuation index.tokens draft_len is_stop d
        × (window d.match_len d.source_position index.tokens ≡ suffix d.match_len index.tokens)
        × (d.source_position + 1 < length index.tokens)
        × (clamp min_match_len max_match_len min_match ≤ d.match_len)
  draft_sound d h e =
      let (pos, from) = draft-CameFrom d h e in
      let (inside, _, same) =
        most_recent_match_sound index d.match_len d.source_position h from.matched in
      let (good, _, _) =
        propose_inv index.tokens draft_len d.source_position is_stop
          (min (d.source_position + 1 + draft_len) (length index.tokens)) d.match_len d
          (omega arith) (omega arith) (omega arith) from.cut in
      (good, same, inside, from.allowed)

  -- Continuing a span right behind a draft's source position, at the draft's own length, proposes
  -- that draft again.
  pub continue_from-draft :
      (d : NgramDraft)
      → IsIndex index
      → draft index draft_len min_match is_stop ≡ some d
      → continue_from index (d.source_position + 1) draft_len d.match_len is_stop ≡ some d
  unfolding continue_from
  continue_from-draft d h e =
      let (pos, from) = draft-CameFrom d h e in
      let (inside, _, _) =
        most_recent_match_sound index d.match_len d.source_position h from.matched in
      let open_test : (draft_len == 0
            || d.source_position + 1 == 0
            || leb (length index.tokens) (d.source_position + 1))
          ≡ false =
        ground arith in
      let back : d.source_position + 1 - 1 ≡ d.source_position = omega arith in
      rw (open_test, back) from.cut

continue_from-shape :
    (index : NgramIndex) (next draft_len match_len : ℕ) (is_stop : Token → Bool) (d : NgramDraft)
    → continue_from index next draft_len match_len is_stop ≡ some d
    → (0 < draft_len)
      × (0 < next)
      × (next < length index.tokens)
      × (propose is_stop
            (slice next (min (next + draft_len) (length index.tokens)) index.tokens)
            match_len
            (next - 1)
          ≡ some d)
unfolding continue_from
continue_from-shape index next draft_len match_len is_stop d e = ground arith

-- A span continuation copies the tokens from `next` on, under the same rules as a draft, for any
-- index and any position.
pub continue_from_sound :
    (index : NgramIndex) (next draft_len match_len : ℕ) (is_stop : Token → Bool) (d : NgramDraft)
    → continue_from index next draft_len match_len is_stop ≡ some d
    → IsContinuation index.tokens draft_len is_stop d
      × (d.match_len ≡ match_len)
      × (d.source_position + 1 ≡ next)
continue_from_sound index next draft_len match_len is_stop d e =
    let (pos, later, inside, cut) =
      continue_from-shape index next draft_len match_len is_stop d e in
    let back : next ≡ next - 1 + 1 = omega arith in
    let (good, len, src) =
      propose_inv index.tokens draft_len (next - 1) is_stop
        (min (next + draft_len) (length index.tokens)) match_len d (omega arith) (omega arith)
        (omega arith)
        (subst
          (λ k.
            propose is_stop (slice k (min (next + draft_len) (length index.tokens)) index.tokens)
              match_len (next - 1)
            ≡ some d)
          back cut) in
    (good, len, omega arith)
