-- ===== src/Runtime/Selection.antt =====
-- The source of drafts of src/runtime.rs: what one round of `generate_speculative_policy` proposes, and
-- what the round's end tells the two arms.
--
-- The predictor is not the code's of this file: one of its passes and what it is told of the target's
-- tokens are arguments, and its passes are taken to succeed.
pub mod Within
use mathlib.Core.Option
use inferq.Prelude.{
  ℕ, zero, suc, ◌+◌, min, max, Bool, true, false, not, ◌&&◌, ◌||◌, Option, none, some, List, [],
  ◌∷◌, length, take, get_elem?, map, leb, ltb, ◌==◌, if◌then◌else◌,
}
use inferq.Ngram.{Token, NgramDraft, NgramIndex, extend, clear, draft, continue_from}
use inferq.Ngram
use inferq.Speculative.{StepArm, ArmController, ArmConfig, is_ngram}
use inferq.Speculative.Controller
use inferq.Speculative.Floats.{FloatOps}
use inferq.Speculative.Span.{SpanCursor, chain_span}
use inferq.Runtime.Policy.{Drafter}

-- The predictor of the MTP arm: its passes, and how it follows the target.
pub record Predictor : Type 1 where
  pub State : Type 0
  pub Score : Type 0
  pub lt : Score → Score → Bool
  pub ge : Score → Score → Bool
  -- `forward_with_head` on a token, and `top1_with_scores` of its logits: the draft, its margin and its
  -- probability.
  pub forward : State → Token → (Token × Score × Score) × State
  pub catch_up : State → State
  -- `retain_mtp_gap` of the tokens that a pass committed.
  pub retain : List Token → State → State

pub record MtpDraftCandidate (M : Predictor) : Type 0 where
  pub token : Token
  pub logit_margin : M.Score
  pub probability : M.Score

-- What the choice of a draft reads of `GenerationOptions` and its `PolicyTuning`.
pub record DraftOptions (M : Predictor) : Type 0 where
  pub ngram_min_match : ℕ
  pub speculative_mtp_min_margin : Option M.Score
  pub mtp_min_confidence : M.Score
  pub span_continuation : Bool
  pub eager_mtp_resync : Bool
  pub track_mtp : Bool

module _ (F : FloatOps) (M : Predictor) (is_stop : Token → Bool) (options : DraftOptions M) where
  -- The turn's locals that choose drafts, the session's index and predictor, and what the round
  -- proposed.
  pub record Source : Type 0 where
    pub index : NgramIndex
    pub ngram_arm : ArmController F
    pub mtp_arm : ArmController F
    pub span : Option SpanCursor
    pub predictor : M.State
    pub seed : Token
    pub drafts : List Token
    pub arm : StepArm
    pub proposal : Option NgramDraft

  -- The loop of `draft_mtp`: no draft behind a stop token, nor from one that is not confident.
  unfoldable pub draft_mtp : ℕ → M.State → Token → List (MtpDraftCandidate M) × M.State
  draft_mtp zero state token = ([], state)
  draft_mtp (suc max_drafts) state token =
      let (scored, next) = M.forward state token in
      let rest = draft_mtp max_drafts next scored.0 in
      if is_stop scored.0 || M.lt scored.2 options.mtp_min_confidence then ([], next) else (
        record { token = scored.0; logit_margin = scored.1; probability = scored.2 } ∷ rest.0,
        rest.1,
      )

  -- `take_while(|draft| draft.logit_margin >= threshold)`.
  unfoldable pub above_margin : M.Score → List (MtpDraftCandidate M) → List (MtpDraftCandidate M)
  above_margin threshold [] = []
  above_margin threshold (candidate ∷ candidates) =
      let rest = above_margin threshold candidates in
      if M.ge candidate.logit_margin threshold then candidate ∷ rest else []

  unfoldable pub verified_drafts : List (MtpDraftCandidate M) → List Token
  unfolding above_margin
  verified_drafts candidates =
      let verified : List (MtpDraftCandidate M) = elim options.speculative_mtp_min_margin [
        | none ↦ candidates
        | some threshold ↦ above_margin threshold candidates
      ] in
      map (λ (candidate : MtpDraftCandidate M). candidate.token) verified

  -- The length that the index is asked for.
  unfoldable pub requested : Bool → ℕ → ℕ → ℕ
  requested available draft_len budget = if available then max (min draft_len budget) 1 else 1

  unfoldable pub span_draft : NgramIndex → Option SpanCursor → Bool → ℕ → ℕ → Option NgramDraft
  span_draft index span available draft_len budget =
      if options.span_continuation && available && ltb 0 budget
      then elim span [
        | none ↦ none
        | some cursor ↦
            continue_from index cursor.next (min draft_len budget) cursor.match_len is_stop
      ]
      else none

  -- An active span goes before a fresh key match.
  unfoldable pub select_ngram : Option NgramDraft → Option NgramDraft → StepArm × Option NgramDraft
  select_ngram (some d) key = (StepArm.ngram_span, some d)
  select_ngram none (some d) = (StepArm.ngram, some d)
  select_ngram none none = (StepArm.plain, none)

  -- What the n-gram arm proposes in a round.
  unfoldable pub ngram_step : Source → Bool → ℕ → StepArm × Option NgramDraft
  unfolding requested span_draft select_ngram
  ngram_step s available budget =
      let key_draft =
        draft s.index (requested available s.ngram_arm.len budget) options.ngram_min_match
          is_stop in
      if available && ltb 0 budget
      then select_ngram (span_draft s.index s.span available s.ngram_arm.len budget) key_draft
      else (StepArm.plain, none)

  abbrev pub tokens_of_draft : Option NgramDraft → List Token
  tokens_of_draft none = []
  tokens_of_draft (some d) = d.tokens

  -- A round that no n-gram draft claims, where the MTP arm may draft.
  unfoldable pub mtp_step : Source → Token → ℕ → Source
  unfolding draft_mtp verified_drafts
  mtp_step s seed budget =
      let depth = min s.mtp_arm.len budget in
      if depth == 0
      then s
      else let (candidates, predictor) = draft_mtp depth (M.catch_up s.predictor) seed in
        let drafts = verified_drafts candidates in
        record s {
          predictor = predictor;
          drafts = drafts;
          arm = if length drafts == 0 then StepArm.plain else StepArm.mtp;
        }

  unfoldable pub is_plain : StepArm → Bool
  is_plain StepArm.plain = true
  is_plain arm = false

  -- One round's proposal, from the polls on.
  unfoldable pub propose_round : ℕ → Token → ℕ → Source → List Token × Source
  unfolding ngram_step mtp_step is_plain
  propose_round committed seed budget s =
      let (ngram_arm, ngram_available) = Controller.poll F s.ngram_arm committed in
      let (mtp_arm, mtp_available) = Controller.poll F s.mtp_arm committed in
      let polled : Source = record s { ngram_arm = ngram_arm; mtp_arm = mtp_arm; seed = seed } in
      let (arm, proposal) = ngram_step polled ngram_available budget in
      let chosen : Source = record polled {
        arm = arm;
        proposal = proposal;
        drafts = tokens_of_draft proposal;
      } in
      let round =
        if is_plain arm && mtp_available && ltb 0 budget
        then mtp_step chosen seed budget
        else chosen in
      (round.drafts, round)

  -- The span behind a pass.
  unfoldable pub next_span : Source → ℕ → Token → Option SpanCursor
  unfolding is_ngram
  next_span s accepted authoritative =
      if is_ngram s.arm && options.span_continuation
      then elim s.proposal [
        | none ↦ none
        | some d ↦
            chain_span s.span d.source_position (length d.tokens) accepted d.match_len
              (get_elem? s.index.tokens (d.source_position + 1 + length d.tokens)) authoritative
      ]
      else none

  -- The end of a pass, before its tokens are emitted: `observe`, `retain_mtp_gap` and `chain_span`.
  unfoldable pub settle_round : ℕ → ℕ → Token → Source → Source
  unfolding next_span is_ngram
  settle_round committed accepted authoritative s =
      let proposed = length s.drafts in
      let committed_now = committed + (1 + accepted) in
      let retained =
        if options.track_mtp
        then M.retain (s.seed ∷ take accepted s.drafts) s.predictor
        else s.predictor in
      record s {
        ngram_arm =
            if is_ngram s.arm
            then Controller.observe F s.ngram_arm proposed accepted committed_now
            else s.ngram_arm;
        mtp_arm = elim s.arm [
          | StepArm.mtp ↦ Controller.observe F s.mtp_arm proposed accepted committed_now
          | StepArm.ngram ↦ s.mtp_arm
          | StepArm.ngram_span ↦ s.mtp_arm
          | StepArm.plain ↦ s.mtp_arm
        ];
        predictor =
            if options.track_mtp && options.eager_mtp_resync then M.catch_up retained else retained;
        span = next_span s accepted authoritative;
      }

  -- The source of drafts, as the decoding loop uses it.
  unfoldable pub selection : Drafter
  unfolding propose_round settle_round
  selection = record {
    State = Source;
    propose = propose_round;
    settle = settle_round;
    push = λ token (s : Source). record s { index = Ngram.push s.index token };
    evaluated_alone = λ token (s : Source). record s {
      predictor = if options.track_mtp then M.retain (token ∷ []) s.predictor else s.predictor;
    };
    forced = λ (s : Source). record s { span = none };
  }
