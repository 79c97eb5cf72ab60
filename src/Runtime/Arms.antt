-- ===== src/Runtime/Arms.antt =====
-- The arms of one run in src/runtime.rs: the mode that the options come to, and the configuration of
-- both controllers.
use inferq.Prelude.{ℕ, ◌≤◌, ◌≡◌, arith, max, Bool, ◌&&◌, some, ltb, ◌==◌, if◌then◌else◌, clamp}
use inferq.Speculative.{
  SpeculativeMode, allows_ngram, allows_mtp, ArmConfig, ngram_config, mtp_config, effective_start,
  default_ngram_draft_cap, default_mtp_depth_cap,
}
use inferq.Speculative.Floats.{FloatOps}

module _ (F : FloatOps) where
  open F use {Float}

  -- The fields of `PolicyTuning` that the configurations read.
  pub record PolicyTuning : Type 0 where
    pub ngram_draft_floor : ℕ
    pub mtp_depth_floor : ℕ
    pub mtp_depth_start : ℕ
    pub ngram_suspend_below : Float
    pub mtp_suspend_below : Float
    pub ewma_alpha : Float
    pub backoff_tokens : ℕ
    pub backoff_cap : ℕ
    pub adaptive_length : Bool
    pub ewma_backoff : Bool

  -- The fields of `GenerationOptions` that choose and tune the arms.
  pub record GenerationOptions : Type 0 where
    pub speculative_mode : SpeculativeMode
    pub policy : PolicyTuning
    pub speculative_mtp_draft_tokens : ℕ
    pub speculative_ngram_draft_tokens : ℕ

  unfoldable pub effective_speculative_mode : GenerationOptions → SpeculativeMode
  effective_speculative_mode options = elim options.speculative_mode [
    | SpeculativeMode.off ↦
        if ltb 0 options.speculative_mtp_draft_tokens
        then SpeculativeMode.mtp
        else if ltb 0 options.speculative_ngram_draft_tokens
        then SpeculativeMode.ngram
        else SpeculativeMode.off
    | SpeculativeMode.auto ↦ SpeculativeMode.auto
    | SpeculativeMode.ngram ↦ SpeculativeMode.ngram
    | SpeculativeMode.mtp ↦ SpeculativeMode.mtp
  ]

  abbrev pub or_default : ℕ → ℕ → ℕ
  or_default asked default = if asked == 0 then default else asked

  unfoldable pub ngram_arm : GenerationOptions → SpeculativeMode → ArmConfig F
  unfolding ngram_config
  ngram_arm options mode =
      let tuning = options.policy in
      let cap = or_default options.speculative_ngram_draft_tokens default_ngram_draft_cap in
      let base : ArmConfig F = ngram_config F cap in
      record base {
        enabled = allows_ngram mode && ltb 0 cap;
        floor = clamp 1 (max cap 1) tuning.ngram_draft_floor;
        start = cap;
        adaptive = tuning.adaptive_length;
        backoff = tuning.ewma_backoff;
        alpha = tuning.ewma_alpha;
        suspend_below = tuning.ngram_suspend_below;
        backoff_tokens = tuning.backoff_tokens;
        backoff_cap = tuning.backoff_cap;
      }

  unfoldable pub mtp_arm : GenerationOptions → SpeculativeMode → Bool → ArmConfig F
  unfolding mtp_config
  mtp_arm options mode mtp_usable =
      let tuning = options.policy in
      let cap = or_default options.speculative_mtp_draft_tokens default_mtp_depth_cap in
      let floor = clamp 1 (max cap 1) tuning.mtp_depth_floor in
      let base : ArmConfig F = mtp_config F cap in
      record base {
        enabled = (allows_mtp mode && ltb 0 cap) && mtp_usable;
        floor = floor;
        start = tuning.mtp_depth_start;
        probe_len = some floor;
        adaptive = tuning.adaptive_length;
        backoff = tuning.ewma_backoff;
        alpha = tuning.ewma_alpha;
        suspend_below = tuning.mtp_suspend_below;
        backoff_tokens = tuning.backoff_tokens;
        backoff_cap = tuning.backoff_cap;
      }

  unfoldable pub arm_configs :
      GenerationOptions → SpeculativeMode → Bool → ArmConfig F × ArmConfig F
  unfolding ngram_arm mtp_arm
  arm_configs options mode mtp_usable = (ngram_arm options mode, mtp_arm options mode mtp_usable)

  -- Whatever the options, the floor of both configurations is at least one token and at most the cap;
  -- the n-gram arm starts at its cap and the predictor's arm between its floor and its cap. The
  -- n-gram arm is enabled exactly where the mode allows it, and the predictor's arm exactly where
  -- the mode allows it and it is usable.
  pub arm_configs-enabled :
      (options : GenerationOptions) (mode : SpeculativeMode) (mtp_usable : Bool)
      → let (ngram, mtp) = arm_configs options mode mtp_usable in
        (1 ≤ ngram.floor)
        × (ngram.floor ≤ ngram.cap)
        × (1 ≤ mtp.floor)
        × (mtp.floor ≤ mtp.cap)
        × (effective_start F ngram ≡ ngram.cap)
        × (mtp.floor ≤ effective_start F mtp)
        × (effective_start F mtp ≤ mtp.cap)
        × (ngram.enabled ≡ allows_ngram mode)
        × (mtp.enabled ≡ allows_mtp mode && mtp_usable)
  unfolding arm_configs effective_start
  arm_configs-enabled options mode mtp_usable = (
    ground arith,
    ground arith,
    ground arith,
    ground arith,
    ground arith,
    ground arith,
    ground arith,
    ground arith,
    ground arith,
  )
