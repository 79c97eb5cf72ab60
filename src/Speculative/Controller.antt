-- ===== src/Speculative/Controller.antt =====
-- The operations of `ArmController` in src/speculative.rs.
use inferq.Prelude.{
  ℕ, ◌+◌, ◌*◌, ◌/◌, min, max, Bool, true, false, none, some, ltb, ◌==◌, if◌then◌else◌, clamp,
  saturating_mul,
}
use inferq.Speculative.{ArmConfig, ArmStats, ArmController, no_stats, lowest, effective_start}
use inferq.Speculative.Floats.{FloatOps}

module _ (F : FloatOps) where
  open F use {Float, literal, of_usize, add, sub, mul, div, lt, ge}

  unfoldable pub new : ArmConfig F → ArmController F
  unfolding effective_start
  new config = record {
    config = config;
    len = effective_start F config;
    ewma = config.initial_ewma;
    suspended_until = none;
    backoff_window = config.backoff_tokens;
    probing = false;
    stats = no_stats;
  }

  -- `len` as a probe begins.
  unfoldable pub probe_length : ArmController F → ℕ
  probe_length c = elim c.config.probe_len [
    | none ↦ c.len
    | some probe_len ↦ clamp (lowest F c.config) c.config.cap probe_len
  ]

  -- The end of a suspension, in `poll`.
  unfoldable pub resume : ArmController F → ArmController F
  unfolding probe_length
  resume c = record c { suspended_until = none; probing = true; len = probe_length c }

  unfoldable pub count_suspended_step : ArmController F → ArmController F
  count_suspended_step c =
      let stats = c.stats in
      record c { stats = record stats { suspended_steps = stats.suspended_steps + 1 } }

  unfoldable pub poll : ArmController F → ℕ → ArmController F × Bool
  unfolding resume count_suspended_step
  poll c committed_tokens =
      if c.config.enabled
      then elim c.suspended_until [
        | none ↦ (c, true)
        | some until ↦
            if ltb committed_tokens until then (count_suspended_step c, false) else (resume c, true)
      ]
      else (c, false)

  unfoldable pub suspend : ArmController F → ℕ → ArmController F
  suspend c committed_tokens =
      let stats = c.stats in
      record c {
        suspended_until = some (committed_tokens + c.backoff_window);
        stats = record stats { suspensions = stats.suspensions + 1 };
      }

  -- The counters that every proposal moves.
  unfoldable pub count_proposal : ArmStats → ℕ → ℕ → ArmStats
  count_proposal stats proposed accepted = record stats {
    proposals = stats.proposals + 1;
    proposed_tokens = stats.proposed_tokens + proposed;
    accepted_tokens = stats.accepted_tokens + accepted;
    fully_accepted =
        if accepted == proposed then stats.fully_accepted + 1 else stats.fully_accepted;
    rejected_immediately =
        if accepted == 0 then stats.rejected_immediately + 1 else stats.rejected_immediately;
  }

  abbrev pub fraction : ℕ → ℕ → Float
  fraction proposed accepted = div (of_usize accepted) (of_usize proposed)

  -- The counters and the moving average.
  unfoldable pub record_outcome : ArmController F → ℕ → ℕ → ArmController F
  unfolding count_proposal
  record_outcome c proposed accepted =
      let stats = count_proposal c.stats proposed accepted in
      if c.probing
      then record c {
        probing = false;
        stats = record stats { probes = stats.probes + 1 };
        ewma = fraction proposed accepted;
      }
      else record c {
        stats = stats;
        ewma =
            add (mul c.config.alpha (fraction proposed accepted))
              (mul (sub (literal 1 0) c.config.alpha) c.ewma);
      }

  unfoldable pub adapted_length : ArmController F → ℕ → ℕ → ℕ
  adapted_length c proposed accepted =
      if c.config.adaptive
      then (if accepted == proposed
          then min (c.len + c.config.grow) c.config.cap
          else if ltb (accepted * 2) proposed
          then max (c.len / 2) (lowest F c.config)
          else c.len)
      else c.len

  -- The part of `observe` that decides on a suspension.
  unfoldable pub decide_backoff : Bool → ArmController F → ℕ → ℕ → ℕ → ArmController F
  unfolding suspend
  decide_backoff was_probing c proposed accepted committed_tokens =
      let stats = c.stats in
      if was_probing
      then (if ge (fraction proposed accepted) c.config.suspend_below
          then record c {
            stats = record stats { probe_successes = stats.probe_successes + 1 };
            backoff_window = c.config.backoff_tokens;
          }
          else (let longer : ArmController F = record c {
            backoff_window = min (saturating_mul c.backoff_window 2) c.config.backoff_cap;
          } in
              suspend longer committed_tokens))
      else if lt c.ewma c.config.suspend_below
      then (let first : ArmController F = record c { backoff_window = c.config.backoff_tokens } in
          suspend first committed_tokens)
      else c

  -- The counters, the moving average and the draft length.
  unfoldable pub adapt : ArmController F → ℕ → ℕ → ArmController F
  unfolding record_outcome adapted_length
  adapt c proposed accepted =
      let recorded = record_outcome c proposed accepted in
      record recorded { len = adapted_length recorded proposed accepted }

  unfoldable pub observe : ArmController F → ℕ → ℕ → ℕ → ArmController F
  unfolding adapt decide_backoff
  observe c proposed accepted committed_tokens =
      if proposed == 0
      then c
      else let adapted = adapt c proposed accepted in
        if adapted.config.backoff
        then decide_backoff c.probing adapted proposed accepted committed_tokens
        else adapted
