-- ===== src/Speculative.antt =====
-- The draft-length and suspension control of src/speculative.rs: one controller for each draft
-- source, and the cursor of a copied span.
pub mod Floats
pub mod Controller
pub mod Span
pub mod Chain
pub mod Bounds
pub mod Backoff
mod Tests
use inferq.Prelude.{
  ℕ, zero, suc, ◌+◌, ◌-◌, ◌*◌, ◌/◌, min, max, Bool, true, false, not, ◌||◌, Option, none, some, ltb,
  leb, ◌==◌, if◌then◌else◌, clamp, saturating_mul,
}
use inferq.Speculative.Floats.{FloatOps}

pub data SpeculativeMode : Type 0 where
  off auto ngram mtp : SpeculativeMode

unfoldable pub is_speculative : SpeculativeMode → Bool
is_speculative SpeculativeMode.off = false
is_speculative mode = true

unfoldable pub allows_ngram : SpeculativeMode → Bool
allows_ngram SpeculativeMode.auto = true
allows_ngram SpeculativeMode.ngram = true
allows_ngram mode = false

unfoldable pub allows_mtp : SpeculativeMode → Bool
allows_mtp SpeculativeMode.auto = true
allows_mtp SpeculativeMode.mtp = true
allows_mtp mode = false

pub data StepArm : Type 0 where
  ngram ngram_span mtp plain : StepArm

unfoldable pub is_ngram : StepArm → Bool
is_ngram StepArm.ngram = true
is_ngram StepArm.ngram_span = true
is_ngram arm = false

abbrev pub default_ngram_draft_floor : ℕ
default_ngram_draft_floor = 4

abbrev pub default_ngram_draft_cap : ℕ
default_ngram_draft_cap = 7

abbrev pub default_mtp_depth_floor : ℕ
default_mtp_depth_floor = 2

abbrev pub default_mtp_depth_cap : ℕ
default_mtp_depth_cap = 7

abbrev pub default_mtp_depth_start : ℕ
default_mtp_depth_start = 4

abbrev pub default_backoff_tokens : ℕ
default_backoff_tokens = 64

abbrev pub default_backoff_cap : ℕ
default_backoff_cap = 512

pub record ArmConfig (F : FloatOps) : Type 0 where
  pub enabled : Bool
  pub floor : ℕ
  pub cap : ℕ
  pub start : ℕ
  pub grow : ℕ
  pub adaptive : Bool
  pub backoff : Bool
  pub alpha : F.Float
  pub suspend_below : F.Float
  pub backoff_tokens : ℕ
  pub backoff_cap : ℕ
  pub probe_len : Option ℕ
  pub initial_ewma : F.Float

pub record ArmStats : Type 0 where
  pub proposals : ℕ
  pub proposed_tokens : ℕ
  pub accepted_tokens : ℕ
  pub fully_accepted : ℕ
  pub rejected_immediately : ℕ
  pub suspensions : ℕ
  pub probes : ℕ
  pub probe_successes : ℕ
  pub suspended_steps : ℕ

abbrev pub no_stats : ArmStats
no_stats = record {
  proposals = 0;
  proposed_tokens = 0;
  accepted_tokens = 0;
  fully_accepted = 0;
  rejected_immediately = 0;
  suspensions = 0;
  probes = 0;
  probe_successes = 0;
  suspended_steps = 0;
}

pub record ArmController (F : FloatOps) : Type 0 where
  pub config : ArmConfig F
  pub len : ℕ
  pub ewma : F.Float
  pub suspended_until : Option ℕ
  pub backoff_window : ℕ
  pub probing : Bool
  pub stats : ArmStats

module _ (F : FloatOps) where
  open F use {Float, literal}

  unfoldable pub ngram_config : ℕ → ArmConfig F
  ngram_config cap = record {
    enabled = true;
    floor = default_ngram_draft_floor;
    cap = cap;
    start = cap;
    grow = 2;
    adaptive = true;
    backoff = true;
    alpha = literal 2 1;
    suspend_below = literal 4 1;
    backoff_tokens = default_backoff_tokens;
    backoff_cap = default_backoff_cap;
    probe_len = none;
    initial_ewma = literal 1 0;
  }

  unfoldable pub mtp_config : ℕ → ArmConfig F
  mtp_config cap = record {
    enabled = true;
    floor = default_mtp_depth_floor;
    cap = cap;
    start = default_mtp_depth_start;
    grow = 1;
    adaptive = true;
    backoff = true;
    alpha = literal 2 1;
    suspend_below = literal 5 1;
    backoff_tokens = default_backoff_tokens;
    backoff_cap = default_backoff_cap;
    probe_len = some default_mtp_depth_floor;
    initial_ewma = literal 1 0;
  }

  unfoldable pub disabled_config : ArmConfig F
  unfolding ngram_config
  disabled_config = let base : ArmConfig F = ngram_config 0 in record base { enabled = false }

  -- The range that the draft length moves in begins at `floor.min(cap)`.
  abbrev pub lowest : ArmConfig F → ℕ
  lowest config = min config.floor config.cap

  unfoldable pub effective_start : ArmConfig F → ℕ
  effective_start config = clamp (lowest config) config.cap config.start
