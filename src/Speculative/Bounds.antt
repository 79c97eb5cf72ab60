-- ===== src/Speculative/Bounds.antt =====
-- What holds of a controller of src/speculative.rs through a whole run: the range of its draft
-- length, and the accounts that its counters keep.
use inferq.Prelude.{
  ℕ, ◌+◌, ◌≤◌, ◌<◌, ◌≡◌, refl, ◌∙◌, Bool, true, false, Option, none, some, arith, ◌==◌, Bool-cases,
  inl, inr,
}
use inferq.Speculative.{ArmConfig, ArmStats, ArmController, lowest, effective_start}
use inferq.Speculative.Floats.{FloatOps}
use inferq.Speculative.Controller.{
  new, poll, observe, resume, probe_length, count_suspended_step, suspend, count_proposal,
  record_outcome, adapted_length, adapt, decide_backoff,
}

abbrev flag : Bool → ℕ
flag true = 1
flag false = 0

abbrev is_set : Option ℕ → Bool
is_set none = false
is_set (some n) = true

-- The accounts of the counters.
pub record IsAccount (s : ArmStats) : Type 0 where
  pub accepted_proposed : s.accepted_tokens ≤ s.proposed_tokens
  pub proposals_tokens : s.proposals ≤ s.proposed_tokens
  pub extremes : s.fully_accepted + s.rejected_immediately ≤ s.proposals
  pub probes_proposals : s.probes ≤ s.proposals
  pub successes : s.probe_successes ≤ s.probes

module _ (F : FloatOps) where
  -- A controller in the range of its configuration, with its counters in balance: every
  -- suspension but the one that is running, or whose probe is due, has been probed.
  pub record IsControlled (c : ArmController F) : Type 0 where
    pub above : lowest F c.config ≤ c.len
    pub below : c.len ≤ c.config.cap
    pub account : IsAccount c.stats
    pub balance :
        c.stats.suspensions ≡ c.stats.probes + flag (is_set c.suspended_until) + flag c.probing
    pub exclusive : c.probing ≡ true → c.suspended_until ≡ none

  pub new-IsControlled : (config : ArmConfig F) → IsControlled (new F config)
  unfolding new effective_start
  new-IsControlled config = record {
    above = ground arith;
    below = ground arith;
    account = omega arith;
    balance = refl;
    exclusive = λ e. refl;
  }

  pub poll-IsControlled :
      (c : ArmController F) (n : ℕ) → IsControlled c → IsControlled (poll F c n).0
  unfolding poll resume probe_length count_suspended_step
  poll-IsControlled c n h = ground arith

  record_outcome-IsControlled :
      (c : ArmController F) (proposed accepted : ℕ)
      → c.suspended_until ≡ none
      → 0 < proposed
      → accepted ≤ proposed
      → IsControlled c
      → IsControlled (record_outcome F c proposed accepted)
  unfolding record_outcome count_proposal
  record_outcome-IsControlled c proposed accepted free pos le h = record {
    above = ground arith;
    below = ground arith;
    account = ground arith;
    balance = ground arith;
    exclusive = ground arith;
  }

  -- What the later stages of `observe` find.
  record_outcome-state :
      (c : ArmController F) (proposed accepted : ℕ)
      → c.suspended_until ≡ none
      → IsControlled c
      → ((record_outcome F c proposed accepted).suspended_until ≡ none)
        × ((record_outcome F c proposed accepted).probing ≡ false)
        × ((record_outcome F c proposed accepted).stats.probe_successes + flag c.probing
            ≤ (record_outcome F c proposed accepted).stats.probes)
  unfolding record_outcome count_proposal
  record_outcome-state c proposed accepted free h = ground arith

  adapted_length-range :
      (c : ArmController F) (proposed accepted : ℕ)
      → IsControlled c
      → (lowest F c.config ≤ adapted_length F c proposed accepted)
        × (adapted_length F c proposed accepted ≤ c.config.cap)
  unfolding adapted_length
  adapted_length-range c proposed accepted h = ground arith

  adapt-IsControlled :
      (c : ArmController F) (proposed accepted : ℕ)
      → c.suspended_until ≡ none
      → 0 < proposed
      → accepted ≤ proposed
      → IsControlled c
      → IsControlled (adapt F c proposed accepted)
  unfolding adapt
  adapt-IsControlled c proposed accepted free pos le h =
      let recorded = record_outcome-IsControlled c proposed accepted free pos le h in
      let (low, high) =
        adapted_length-range (record_outcome F c proposed accepted) proposed accepted recorded in
      record {
        above = low;
        below = high;
        account = recorded.account;
        balance = recorded.balance;
        exclusive = recorded.exclusive;
      }

  decide_backoff-IsControlled :
      (was_probing : Bool) (c : ArmController F) (proposed accepted n : ℕ)
      → c.suspended_until ≡ none
      → c.probing ≡ false
      → c.stats.probe_successes + flag was_probing ≤ c.stats.probes
      → IsControlled c
      → IsControlled (decide_backoff F was_probing c proposed accepted n)
  unfolding decide_backoff suspend
  decide_backoff-IsControlled was_probing c proposed accepted n free over room h = record {
    above = ground arith;
    below = ground arith;
    account = ground arith;
    balance = ground arith;
    exclusive = ground arith;
  }

  pub observe-IsControlled :
      (c : ArmController F) (proposed accepted n : ℕ)
      → c.suspended_until ≡ none
      → accepted ≤ proposed
      → IsControlled c
      → IsControlled (observe F c proposed accepted n)
  unfolding observe
  observe-IsControlled c proposed accepted n free le h = elim (Bool-cases (proposed == 0)) [
    | inl nothing ↦ rw nothing h
    | inr some_tokens ↦
        let adapted = adapt-IsControlled c proposed accepted free (ground arith) le h in
        rw some_tokens (elim (Bool-cases (adapt F c proposed accepted).config.backoff) [
          | inr off ↦ rw off adapted
          | inl on ↦
              let (free', over, room) = record_outcome-state c proposed accepted free h in
              rw on (
                decide_backoff-IsControlled c.probing (adapt F c proposed accepted) proposed
                  accepted n (unfold adapt in free') (unfold adapt in over) (unfold adapt in room)
                  adapted)
        ])
  ]

  -- The use of a controller in the generation loop: a poll each step, and an observation of a
  -- proposal only where the arm was available.
  pub data Reach (start : ArmController F) : ArmController F → Type 0 where
    here : Reach start start
    polled : {c : ArmController F} (n : ℕ) → Reach start c → Reach start (poll F c n).0
    observed :
        {c : ArmController F} (proposed accepted n : ℕ)
        → Reach start c
        → (poll F c n).1 ≡ true
        → accepted ≤ proposed
        → Reach start (observe F (poll F c n).0 proposed accepted n)

  poll-free :
      (c : ArmController F) (n : ℕ) → (poll F c n).1 ≡ true → (poll F c n).0.suspended_until ≡ none
  unfolding poll resume
  poll-free c n h = ground arith

  invariant : {start c : ArmController F} → IsControlled start → Reach start c → IsControlled c
  invariant h here = h
  invariant h (polled {c} n r) = poll-IsControlled c n (invariant h r)
  invariant h (observed {c} proposed accepted n r available le) =
      observe-IsControlled (poll F c n).0 proposed accepted n (poll-free c n available) le
        (poll-IsControlled c n (invariant h r))

  pub config-poll : (c : ArmController F) (n : ℕ) → (poll F c n).0.config ≡ c.config
  unfolding poll resume count_suspended_step
  config-poll c n = ground arith

  pub config-observe :
      (c : ArmController F) (proposed accepted n : ℕ)
      → (observe F c proposed accepted n).config ≡ c.config
  unfolding observe adapt record_outcome decide_backoff suspend
  config-observe c proposed accepted n = ground arith

  config-Reach : {start c : ArmController F} → Reach start c → c.config ≡ start.config
  config-Reach here = refl
  config-Reach (polled {c} n r) = config-poll c n ∙ config-Reach r
  config-Reach (observed {c} proposed accepted n r available le) =
      config-observe (poll F c n).0 proposed accepted n ∙ config-poll c n ∙ config-Reach r

  -- From a new controller on, through any polls and any observations of available arms, the
  -- configuration stays what it was, the draft length stays between its `floor.min(cap)` and `cap`,
  -- no counter of successes passes the counter it is part of, and the suspensions are the probes
  -- plus the one that is running or due.
  pub Reach-IsControlled :
      (config : ArmConfig F) (c : ArmController F)
      → Reach (new F config) c
      → (c.config ≡ config) × IsControlled c
  unfolding new
  Reach-IsControlled config c r = (config-Reach r, invariant (new-IsControlled config) r)
