-- ===== src/Runtime/Selection/Within.antt =====
-- What the source of drafts of src/runtime.rs proposes stays within its budget and before any stop
-- token.
use inferq.Prelude.{
  ℕ, zero, suc, ◌+◌, ◌≤◌, ◌≡◌, refl, min, Bool, true, false, ◌&&◌, ◌||◌, Option, none, some, List,
  [], ◌∷◌, length, map, arith, leb, ltb, ◌==◌, Bool-cases, Option-cases, inl, inr, All, clamp,
}
use inferq.Ngram.{
  Token, NgramDraft, NgramIndex, most_recent_match, draft_from, draft, continue_from,
  indexed_match_lengths, min_match_len, max_match_len,
}
use inferq.Ngram.Cut.{propose_inv}
use inferq.Ngram.Draft.{continue_from_sound}
use inferq.Speculative.Controller
use inferq.Speculative.Floats.{FloatOps}
use inferq.Speculative.Span.{SpanCursor}
use inferq.Runtime.Turn.{TurnOptions}
use inferq.Runtime.Policy.Equivalence.{IsBounded}
use inferq.Runtime.Selection.{
  Predictor, MtpDraftCandidate, DraftOptions, Source, draft_mtp, above_margin, verified_drafts,
  requested, span_draft, select_ngram, ngram_step, tokens_of_draft, mtp_step, is_plain,
  propose_round, selection,
}

-- At most `n` tokens, none a stop token.
abbrev pub IsWithin : (Token → Bool) → ℕ → List Token → Type 0
IsWithin is_stop n tokens = (length tokens ≤ n) × All (λ token. is_stop token ≡ false) tokens

module _ (index : NgramIndex) (draft_len : ℕ) (is_stop : Token → Bool) where
  draft_from-IsWithin :
      (min_match : ℕ) (lens : List ℕ) (d : NgramDraft)
      → draft_from index draft_len min_match is_stop lens ≡ some d
      → IsWithin is_stop draft_len d.tokens
  unfolding draft_from
  draft_from-IsWithin min_match [] d e = cc
  draft_from-IsWithin min_match (l ∷ lens) d e = elim (Bool-cases (ltb l min_match)) [
    | inl small ↦ draft_from-IsWithin min_match lens d (rw (draft_from, small) at e)
    | inr allowed ↦ elim (Option-cases (most_recent_match index l)) [
      | inl missing ↦ draft_from-IsWithin min_match lens d (rw (draft_from, allowed, missing) at e)
      | inr (p, found) ↦
          let end = min (p + 1 + draft_len) (length index.tokens) in
          elim (Bool-cases (leb end (p + 1))) [
            | inl empty ↦
                draft_from-IsWithin min_match lens d (rw (draft_from, allowed, found, empty) at e)
            | inr room ↦
                let (good, _, _) =
                  propose_inv index.tokens draft_len p is_stop end l d (ground arith) (ground arith)
                    (ground arith) (rw (draft_from, allowed, found, room) at e) in
                (good.bounded, good.no_stop)
          ]
    ]
  ]

  draft-IsWithin :
      (min_match : ℕ) (d : NgramDraft)
      → draft index draft_len min_match is_stop ≡ some d
      → IsWithin is_stop draft_len d.tokens
  unfolding draft
  draft-IsWithin min_match d e = elim (Bool-cases (draft_len == 0)) [
    | inl empty ↦
        let none_left : ◌≡◌ {A = Option NgramDraft} none (some d) = rw (draft, empty) at e in cc
    | inr open_len ↦
        draft_from-IsWithin (clamp min_match_len max_match_len min_match) indexed_match_lengths d
          (rw (draft, open_len) at e)
  ]

IsWithin-le :
    (is_stop : Token → Bool) (m n : ℕ) (tokens : List Token)
    → m ≤ n
    → IsWithin is_stop m tokens
    → IsWithin is_stop n tokens
IsWithin-le is_stop m n tokens le (short, clean) = (omega arith, clean)

module _ (F : FloatOps) (M : Predictor) (is_stop : Token → Bool) (options : DraftOptions M) where
  draft_mtp-IsWithin :
      (n : ℕ) (state : M.State) (token : Token)
      → IsWithin is_stop n (
          map
            (λ (c : MtpDraftCandidate M). c.token)
            (draft_mtp F M is_stop options n state token).0)
  unfolding draft_mtp
  draft_mtp-IsWithin zero state token = (omega arith, tt)
  draft_mtp-IsWithin (suc n) state token =
      let (scored, next) = M.forward state token in
      let rest = draft_mtp-IsWithin n next scored.0 in
      elim (Bool-cases (is_stop scored.0 || M.lt scored.2 options.mtp_min_confidence)) [
        | inl ended ↦ rw ended (omega arith, tt)
        | inr goes ↦ rw goes (omega (arith, rest.0), (ground arith, rest.1))
      ]

  above_margin-IsWithin :
      (threshold : M.Score) (n : ℕ) (candidates : List (MtpDraftCandidate M))
      → IsWithin is_stop n (map (λ (c : MtpDraftCandidate M). c.token) candidates)
      → IsWithin is_stop n (
          map
            (λ (c : MtpDraftCandidate M). c.token)
            (above_margin F M is_stop options threshold candidates))
  unfolding above_margin
  above_margin-IsWithin threshold n [] within = within
  above_margin-IsWithin threshold zero (c ∷ candidates) within = absurd (omega arith)
  above_margin-IsWithin threshold (suc n) (c ∷ candidates) (short, (clean, rest_clean)) =
      let rest = above_margin-IsWithin threshold n candidates (omega arith, rest_clean) in
      elim (Bool-cases (M.ge c.logit_margin threshold)) [
        | inl above ↦ rw above (omega (arith, rest.0), (clean, rest.1))
        | inr below ↦ rw below (omega arith, tt)
      ]

  verified_drafts-IsWithin :
      (n : ℕ) (candidates : List (MtpDraftCandidate M))
      → IsWithin is_stop n (map (λ (c : MtpDraftCandidate M). c.token) candidates)
      → IsWithin is_stop n (verified_drafts F M is_stop options candidates)
  unfolding verified_drafts
  verified_drafts-IsWithin n candidates within =
      elim (Option-cases options.speculative_mtp_min_margin) [
        | inl ungated ↦ rw (verified_drafts, ungated) within
        | inr (threshold, gated) ↦
            rw (verified_drafts, gated) (above_margin-IsWithin threshold n candidates within)
      ]

  mtp_step-IsWithin :
      (s : Source F M is_stop options) (seed : Token) (budget : ℕ)
      → s.drafts ≡ []
      → IsWithin is_stop budget (mtp_step F M is_stop options s seed budget).drafts
  unfolding mtp_step
  mtp_step-IsWithin s seed budget no_drafts =
      let depth = min s.mtp_arm.len budget in
      elim (Bool-cases (depth == 0)) [
        | inl none_asked ↦ rw (none_asked, no_drafts) (omega arith, tt)
        | inr asked ↦
            let candidates =
              (draft_mtp F M is_stop options depth (M.catch_up s.predictor) seed).0 in
            rw asked (
              IsWithin-le is_stop depth budget (verified_drafts F M is_stop options candidates)
                (ground arith)
                (verified_drafts-IsWithin depth candidates
                  (draft_mtp-IsWithin depth (M.catch_up s.predictor) seed)))
      ]

  span_draft-IsWithin :
      (index : NgramIndex) (span : Option SpanCursor) (available : Bool) (draft_len budget : ℕ)
      (d : NgramDraft)
      → span_draft F M is_stop options index span available draft_len budget ≡ some d
      → IsWithin is_stop budget d.tokens
  unfolding span_draft
  span_draft-IsWithin index none available draft_len budget d e = ground arith
  span_draft-IsWithin index (some cursor) available draft_len budget d e =
      let continued : continue_from index cursor.next (min draft_len budget) cursor.match_len
            is_stop
          ≡ some d =
        ground arith in
      let (good, _, _) =
        continue_from_sound index cursor.next (min draft_len budget) cursor.match_len is_stop d
          continued in
      IsWithin-le is_stop (min draft_len budget) budget d.tokens (ground arith)
        (good.bounded, good.no_stop)

  select_ngram-IsWithin :
      (budget : ℕ) (span key : Option NgramDraft)
      → ((d : NgramDraft) → span ≡ some d → IsWithin is_stop budget d.tokens)
      → ((d : NgramDraft) → key ≡ some d → IsWithin is_stop budget d.tokens)
      → IsWithin is_stop budget
          (tokens_of_draft F M is_stop options (select_ngram F M is_stop options span key).1)
  unfolding select_ngram
  select_ngram-IsWithin budget (some d) key of_span of_key = of_span d refl
  select_ngram-IsWithin budget none (some d) of_span of_key = of_key d refl
  select_ngram-IsWithin budget none none of_span of_key = (omega arith, tt)

  ngram_step-IsWithin :
      (s : Source F M is_stop options) (available : Bool) (budget : ℕ)
      → IsWithin is_stop budget (
          tokens_of_draft F M is_stop options (ngram_step F M is_stop options s available budget).1)
  unfolding ngram_step requested
  ngram_step-IsWithin s available budget = elim (Bool-cases (available && ltb 0 budget)) [
    | inr closed ↦ rw (ngram_step, closed) (omega arith, tt)
    | inl opened ↦
        let asked = requested F M is_stop options available s.ngram_arm.len budget in
        rw (ngram_step, opened)
          (select_ngram-IsWithin budget
            (span_draft F M is_stop options s.index s.span available s.ngram_arm.len budget)
            (draft s.index asked options.ngram_min_match is_stop)
            (λ d e. span_draft-IsWithin s.index s.span available s.ngram_arm.len budget d e)
            (λ d e.
              IsWithin-le is_stop asked budget d.tokens (ground arith)
                (draft-IsWithin s.index asked is_stop options.ngram_min_match d e)))
  ]

  is_plain-select_ngram :
      (span key : Option NgramDraft)
      → is_plain F M is_stop options (select_ngram F M is_stop options span key).0 ≡ true
      → tokens_of_draft F M is_stop options (select_ngram F M is_stop options span key).1 ≡ []
  unfolding select_ngram is_plain
  is_plain-select_ngram (some d) key e = cc
  is_plain-select_ngram none (some d) e = cc
  is_plain-select_ngram none none e = refl

  is_plain-ngram_step :
      (s : Source F M is_stop options) (available : Bool) (budget : ℕ)
      → is_plain F M is_stop options (ngram_step F M is_stop options s available budget).0 ≡ true
      → tokens_of_draft F M is_stop options (ngram_step F M is_stop options s available budget).1
        ≡ []
  unfolding ngram_step
  is_plain-ngram_step s available budget e = elim (Bool-cases (available && ltb 0 budget)) [
    | inr closed ↦ rw (ngram_step, closed) refl
    | inl opened ↦
        rw (ngram_step, opened)
          (is_plain-select_ngram
            (span_draft F M is_stop options s.index s.span available s.ngram_arm.len budget)
            (draft s.index (requested F M is_stop options available s.ngram_arm.len budget)
              options.ngram_min_match is_stop)
            (rw (ngram_step, opened) at e))
  ]

  -- Whatever the state of the index, the arms, the span and the predictor, a round proposes at most
  -- its budget of drafts, and no stop token among them.
  pub propose_round-IsWithin :
      (committed : ℕ) (seed : Token) (budget : ℕ) (s : Source F M is_stop options)
      → IsWithin is_stop budget (propose_round F M is_stop options committed seed budget s).0
  unfolding propose_round
  propose_round-IsWithin committed seed budget s =
      let (ngram_arm, ngram_available) = Controller.poll F s.ngram_arm committed in
      let (mtp_arm, mtp_available) = Controller.poll F s.mtp_arm committed in
      let polled : Source F M is_stop options = record s {
        ngram_arm = ngram_arm;
        mtp_arm = mtp_arm;
        seed = seed;
      } in
      let chosen = ngram_step F M is_stop options polled ngram_available budget in
      let round : Source F M is_stop options = record polled {
        arm = chosen.0;
        proposal = chosen.1;
        drafts = tokens_of_draft F M is_stop options chosen.1;
      } in
      elim (Bool-cases (is_plain F M is_stop options chosen.0 && mtp_available && ltb 0 budget)) [
        | inl by_mtp ↦
            rw (propose_round, by_mtp)
              (mtp_step-IsWithin round seed budget
                (is_plain-ngram_step polled ngram_available budget (ground arith)))
        | inr by_ngram ↦
            rw (propose_round, by_ngram) (ngram_step-IsWithin polled ngram_available budget)
      ]

  pub selection-IsBounded :
      (request : TurnOptions)
      → request.is_stop ≡ is_stop
      → IsBounded request (selection F M is_stop options)
  unfolding selection
  selection-IsBounded request same committed seed budget s =
      rw same (propose_round-IsWithin committed seed budget s)
