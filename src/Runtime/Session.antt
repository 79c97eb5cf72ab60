-- ===== src/Runtime/Session.antt =====
-- A turn of a session in src/runtime.rs: `generate_tokens_with_callback`, which decodes on the
-- target-only path or under the speculative policy, at temperature zero and with no routing trace.
pub mod Modes
mod Tests
use inferq.Prelude.{
  ℕ, zero, suc, ◌+◌, take, drop, Bool, true, false, not, ◌&&◌, ◌||◌, Option, none, some, List, [],
  ◌∷◌, ◌++◌, length, leb, ltb, ◌==◌, if◌then◌else◌,
}
use inferq.Ngram.{Token, NgramIndex, extend, clear, min_match_len, max_match_len}
use inferq.Sampling.{LogitOps}
use inferq.Speculative.{SpeculativeMode, StepArm, ArmConfig, is_speculative}
use inferq.Speculative.Controller
use inferq.Speculative.Floats.{FloatOps}
use inferq.Runtime.Arms.{GenerationOptions, effective_speculative_mode, arm_configs}
use inferq.Runtime.ThinkingBudget.{ThinkingBudget, from_tokens}
use inferq.Runtime.Turn.{TurnOptions, Ending, failed}
use inferq.Runtime.TargetOnly.{continuation_input, generate_target_only}
use inferq.Runtime.Policy.{generate_speculative_policy}
use inferq.Runtime.Selection.{Predictor, DraftOptions, Source, selection}

unfoldable pub contains : List Token → Token → Bool
contains [] token = false
contains (t ∷ tokens) token = t == token || contains tokens token

-- `is_stop_token`, from the model's end tokens, where it names any, and those of the turn.
unfoldable pub is_stop_token : Option (List Token) → List Token → Token → Bool
unfolding contains
is_stop_token none stop_tokens token = contains stop_tokens token
is_stop_token (some ids) stop_tokens token = contains ids token || contains stop_tokens token

unfoldable pub is_mtp : SpeculativeMode → Bool
is_mtp SpeculativeMode.mtp = true
is_mtp mode = false

unfoldable pub is_off : SpeculativeMode → Bool
is_off SpeculativeMode.off = true
is_off mode = false

unfoldable pub prefill_pass_rows : ℕ
prefill_pass_rows = 512

-- `tokens.chunks(rows)`; as much fuel as tokens is enough, since a pass has at least one.
unfoldable pub chunks : ℕ → ℕ → List Token → List (List Token)
chunks rows zero tokens = []
chunks rows (suc fuel) [] = []
chunks rows (suc fuel) (token ∷ tokens) =
    take rows (token ∷ tokens) ∷ chunks rows fuel (drop rows (token ∷ tokens))

unfoldable pub passes : List Token → List (List Token)
unfolding chunks prefill_pass_rows
passes tokens = chunks prefill_pass_rows (length tokens) tokens

module _ (F : FloatOps) (M : Predictor) where
  -- `prefill_in_passes`, as the predictor follows it.
  unfoldable pub retain_passes : List (List Token) → M.State → M.State
  retain_passes [] state = state
  retain_passes (pass ∷ rest) state = retain_passes rest (M.retain pass state)

  unfoldable pub prefill_in_passes : Bool → List Token → M.State → M.State
  unfolding passes retain_passes
  prefill_in_passes track_mtp tokens state =
      if track_mtp then retain_passes (passes tokens) state else state

  -- What a session keeps between turns. `predictor_ready` is `mtp_arm_ready()`, `has_predictor` whether
  -- the model has a predictor and the session a state for it.
  pub record Session : Type 0 where
    pub evaluated : List Token
    pub pending_token : Option Token
    pub ngram : NgramIndex
    pub predictor : M.State
    pub has_predictor : Bool
    pub predictor_ready : Bool

  -- What one turn is asked for, but the callback: `GenerationOptions`, and what the model gives for it,
  -- the tokens of the closing tag and `max_position_embeddings`.
  pub record Asked : Type 0 where
    pub generation : GenerationOptions F
    pub drafting : DraftOptions M
    pub max_new_tokens : ℕ
    pub max_position : ℕ
    pub eos_token_id : Option (List Token)
    pub stop_tokens : List Token
    pub thinking_budget : Option ℕ
    pub close_tokens : List Token
    pub forced_close_tokens : List Token

  abbrev pub turn_options : Asked → (List Token → Bool) → TurnOptions
  turn_options asked on_token = record {
    max_position = asked.max_position;
    max_new_tokens = asked.max_new_tokens;
    is_stop = is_stop_token asked.eos_token_id asked.stop_tokens;
    on_token = on_token;
  }

  -- The index follows the session, or starts anew from this turn's input.
  unfoldable pub follow_index : Session → List Token → NgramIndex
  unfolding continuation_input
  follow_index session prompt =
      let carried : ℕ = elim session.pending_token [ none ↦ 0 | some token ↦ 1 ] in
      if length session.ngram.tokens == length session.evaluated + carried
      then extend session.ngram prompt
      else extend (clear session.ngram) (continuation_input prompt session.pending_token)

  -- The checks of `generate_speculative_policy` on the options and the predictor.
  unfoldable pub allows_policy : Session → Asked → SpeculativeMode → Bool
  unfolding is_mtp
  allows_policy session asked mode =
      leb min_match_len asked.drafting.ngram_min_match
      && leb asked.drafting.ngram_min_match max_match_len
      && (session.has_predictor || not (is_mtp mode))
      && (session.predictor_ready || not (is_mtp mode))

  -- `--speculative-ngram` and `--speculative-mtp` together, with no mode.
  unfoldable pub combines_flags : GenerationOptions F → Bool
  unfolding is_off
  combines_flags options =
      is_off options.speculative_mode
      && not (options.speculative_mtp_draft_tokens == 0)
      && not (options.speculative_ngram_draft_tokens == 0)

  abbrev pub arms : Session → Asked → SpeculativeMode → ArmConfig F × ArmConfig F
  arms session asked mode =
      arm_configs F asked.generation mode (session.has_predictor && session.predictor_ready)

  -- The draft options of a turn: the predictor follows the target where its arm is enabled.
  abbrev pub drafting_of : Session → Asked → SpeculativeMode → DraftOptions M
  drafting_of session asked mode = record asked.drafting {
    track_mtp = (arms session asked mode).1.enabled;
  }

  abbrev pub is_stop_of : Asked → Token → Bool
  is_stop_of asked = is_stop_token asked.eos_token_id asked.stop_tokens

  -- The locals of the turn that choose drafts, as the loop begins.
  unfoldable pub source_of :
      (session : Session) (asked : Asked) (mode : SpeculativeMode)
      → List Token
      → Source F M (is_stop_of asked) (drafting_of session asked mode)
  unfolding follow_index arm_configs Controller.new prefill_in_passes continuation_input
  source_of session asked mode prompt = record {
    index = follow_index session prompt;
    ngram_arm = Controller.new F (arms session asked mode).0;
    mtp_arm = Controller.new F (arms session asked mode).1;
    span = none;
    predictor =
        prefill_in_passes (arms session asked mode).1.enabled
          (continuation_input prompt session.pending_token) session.predictor;
    seed = 0;
    drafts = [];
    arm = StepArm.plain;
    proposal = none;
  }

  -- The rows of logits that each path's passes give: `prefill_in_passes` and the verification passes of
  -- the policy, and the one wide pass and the single rows of the target-only path.
  module _ (L : LogitOps) (policy_logits wide_logits : List Token → List L.Logit) where
    -- `generate_speculative_policy` of a session.
    unfoldable pub decode_policy :
        Session
        → Asked
        → (List Token → Bool)
        → List Token
        → SpeculativeMode
        → Option ThinkingBudget
        → Ending
    unfolding allows_policy source_of generate_speculative_policy selection
    decode_policy session asked on_token prompt mode thinking =
        let is_stop = is_stop_of asked in
        let drafting = drafting_of session asked mode in
        if allows_policy session asked mode
        then generate_speculative_policy L policy_logits (turn_options asked on_token)
            (selection F M is_stop drafting) session.evaluated session.pending_token prompt thinking
            (source_of session asked mode prompt)
        else failed

    unfoldable pub generate_tokens : Session → Asked → (List Token → Bool) → List Token → Ending
    unfolding combines_flags effective_speculative_mode is_speculative decode_policy
        generate_target_only from_tokens
    generate_tokens session asked on_token prompt =
        let mode = effective_speculative_mode F asked.generation in
        if combines_flags asked.generation
        then failed
        else elim (from_tokens asked.thinking_budget asked.close_tokens asked.forced_close_tokens) [
          | none ↦ failed
          | some thinking ↦
              if is_speculative mode
              then decode_policy session asked on_token prompt mode thinking
              else generate_target_only L wide_logits (turn_options asked on_token)
                  session.evaluated session.pending_token prompt thinking
        ]
