-- ===== src/Speculative/Backoff.antt =====
-- Suspension and probing in src/speculative.rs: how long an arm rests, and how its rests grow.
use native.Mathlib.Nat.{pow-suc, mul-le-mul_right}
use inferq.Prelude.{
  ℕ, zero, suc, ◌+◌, ◌*◌, ◌^◌, ◌≤◌, ◌<◌, ◌≡◌, sym, ap, ap₂, ◌∙◌, refl, min, Bool, true, false, none,
  some, arith, List, [], ◌∷◌, length, All, replicate, Bool-cases, inl, inr, ltb, saturating_mul,
  u64_max,
}
use inferq.Speculative.{ArmConfig, ArmController}
use inferq.Speculative.Floats.{FloatOps}
use inferq.Speculative.Controller.{
  poll, observe, resume, count_suspended_step, suspend, record_outcome, adapt, decide_backoff,
  fraction,
}

module _ (F : FloatOps) where
  -- The polls of one arm at some committed-token counts, in order.
  unfoldable pub poll_each : ArmController F → List ℕ → ArmController F
  poll_each c [] = c
  poll_each c (n ∷ ns) = poll_each (poll F c n).0 ns

  -- Whether each of those polls finds the arm available.
  unfoldable pub poll_answers : ArmController F → List ℕ → List Bool
  poll_answers c [] = []
  poll_answers c (n ∷ ns) = (poll F c n).1 ∷ poll_answers (poll F c n).0 ns

  poll_before :
      (c : ArmController F) (until n : ℕ)
      → c.config.enabled ≡ true
      → c.suspended_until ≡ some until
      → n < until
      → ((poll F c n).0 ≡ count_suspended_step F c) × ((poll F c n).1 ≡ false)
  unfolding poll
  poll_before c until n on suspended lt = ground arith

  poll_after :
      (c : ArmController F) (until n : ℕ)
      → c.config.enabled ≡ true
      → c.suspended_until ≡ some until
      → until ≤ n
      → ((poll F c n).1 ≡ true)
        × ((poll F c n).0.probing ≡ true)
        × ((poll F c n).0.suspended_until ≡ none)
  unfolding poll resume
  poll_after c until n on suspended le = ground arith

  poll_each-refused :
      (c : ArmController F) (until m : ℕ) (ns : List ℕ)
      → c.config.enabled ≡ true
      → c.suspended_until ≡ some until
      → m < until
      → poll_each c (m ∷ ns) ≡ poll_each (count_suspended_step F c) ns
  unfolding poll_each
  poll_each-refused c until m ns on suspended lt =
      ap (λ r. poll_each r ns) (poll_before c until m on suspended lt).0

  poll_answers-refused :
      (c : ArmController F) (until m : ℕ) (ns : List ℕ)
      → c.config.enabled ≡ true
      → c.suspended_until ≡ some until
      → m < until
      → poll_answers c (m ∷ ns) ≡ false ∷ poll_answers (count_suspended_step F c) ns
  unfolding poll_answers
  poll_answers-refused c until m ns on suspended lt =
      let (counted, refused) = poll_before c until m on suspended lt in
      ap₂ (λ b r. b ∷ poll_answers r ns) refused counted

  -- A suspended arm that is enabled answers no to every poll below the count at which its suspension
  -- lifts, counting each, and the first poll at or above that count finds it available and probing.
  pub suspension_lasts :
      (c : ArmController F) (until : ℕ) (ns : List ℕ) (n : ℕ)
      → c.config.enabled ≡ true
      → c.suspended_until ≡ some until
      → All (λ m. m < until) ns
      → until ≤ n
      → (poll_answers c ns ≡ replicate (length ns) false)
        × ((poll_each c ns).stats.suspended_steps ≡ c.stats.suspended_steps + length ns)
        × ((poll F (poll_each c ns) n).1 ≡ true)
        × ((poll F (poll_each c ns) n).0.probing ≡ true)
        × ((poll F (poll_each c ns) n).0.suspended_until ≡ none)
  unfolding count_suspended_step
  suspension_lasts c until [] n on suspended below le =
      let (available, probing, free) = poll_after c until n on suspended le in
      unfold poll_each poll_answers in (refl, omega arith, available, probing, free)
  suspension_lasts c until (m ∷ ns) n on suspended (lt, below) le =
      let (refused, steps, available, probing, free) =
        suspension_lasts (count_suspended_step F c) until ns n on suspended below le in
      simp
        (
          poll_each-refused c until m ns on suspended lt,
          poll_answers-refused c until m ns on suspended lt,
        )
        (ap (λ l. false ∷ l) refused, steps ∙ omega arith, available, probing, free)

  -- A probe of a suspended arm, counted in committed tokens: how late after the suspension has lifted
  -- the arm is polled, how many rows the pass of the probe commits, and the drafts proposed and
  -- accepted in it.
  pub record Probe : Type 0 where
    pub late : ℕ
    pub committed_rows : ℕ
    pub proposed : ℕ
    pub accepted : ℕ

  unfoldable pub probe_round : ArmController F → Probe → ArmController F
  probe_round c p = elim c.suspended_until [
    | none ↦ c
    | some until ↦
        let polled = until + p.late in
        observe F (poll F c polled).0 p.proposed p.accepted (polled + p.committed_rows)
  ]

  unfoldable pub probe_rounds : ArmController F → List Probe → ArmController F
  probe_rounds c [] = c
  probe_rounds c (p ∷ rounds) = probe_rounds (probe_round c p) rounds

  -- A probe of at least one token whose acceptance does not reach the bar.
  abbrev pub Fails : ArmConfig F → Probe → Type 0
  Fails config p =
      (0 < p.proposed) × (F.ge (fraction F p.proposed p.accepted) config.suspend_below ≡ false)

  -- The count at which the last of the suspensions lifts, each resting twice the window before it, or
  -- the cap, from the count at which the probe is observed.
  unfoldable pub rests_until : ℕ → ℕ → ℕ → List Probe → ℕ
  rests_until cap until window [] = until
  rests_until cap until window (p ∷ rounds) =
      let longer = min (2 * window) cap in
      rests_until cap (until + p.late + p.committed_rows + longer) longer rounds

  probe_round_doubles :
      (c : ArmController F) (until : ℕ) (p : Probe)
      → c.config.enabled ≡ true
      → c.config.backoff ≡ true
      → c.suspended_until ≡ some until
      → Fails c.config p
      → ((probe_round c p).backoff_window
          ≡ min (saturating_mul c.backoff_window 2) c.config.backoff_cap)
        × ((probe_round c p).config ≡ c.config)
        × ((probe_round c p).suspended_until
            ≡ some (until + p.late + p.committed_rows + (probe_round c p).backoff_window))
  unfolding probe_round poll resume observe adapt record_outcome decide_backoff suspend
  probe_round_doubles c until p on backoff suspended (pos, fails) = ground arith

  doubled : (w cap : ℕ) → cap ≤ u64_max → w ≤ cap → min (saturating_mul w 2) cap ≡ min (2 * w) cap
  doubled w cap le bound = omega arith

  pow_pos : (k : ℕ) → 1 ≤ 2 ^ k
  pow_pos zero = omega arith
  pow_pos (suc k) = rw (pow-suc 2 k) (omega (arith, pow_pos k))

  capped_window : (p w cap : ℕ) → 1 ≤ p → min (p * min w cap) cap ≡ min (p * w) cap
  capped_window zero w cap pos = absurd (omega arith)
  capped_window (suc p) w cap pos =
      let at_cap : 1 * cap ≤ suc p * cap = mul-le-mul_right cap pos in
      let at_window : 1 * w ≤ suc p * w = mul-le-mul_right w pos in
      elim (Bool-cases (ltb w cap)) [
        | inl below ↦ (let is : min w cap ≡ w = ground arith in rw is refl)
        | inr above ↦ (let is : min w cap ≡ cap = ground arith in rw is (ground arith))
      ]

  -- When the probes that end the suspensions of an arm all fail, each of at least one token, it rests
  -- from the count at which each probe is observed, for twice the window before it or for the cap if
  -- that is less. It does so however late it is polled and however many rows the passes commit. After
  -- `k` failed probes the window is `2 ^ k` times the first one, or the cap. The arm is enabled with
  -- its backoff on, the first window is at most the cap, and the cap fits 64 bits.
  pub failed_probes_double :
      (c : ArmController F) (until : ℕ) (rounds : List Probe)
      → c.config.enabled ≡ true
      → c.config.backoff ≡ true
      → c.suspended_until ≡ some until
      → c.config.backoff_cap ≤ u64_max
      → c.backoff_window ≤ c.config.backoff_cap
      → All (Fails c.config) rounds
      → ((probe_rounds c rounds).suspended_until
          ≡ some (rests_until c.config.backoff_cap until c.backoff_window rounds))
        × ((probe_rounds c rounds).backoff_window
            ≡ min (2 ^ length rounds * c.backoff_window) c.config.backoff_cap)
  unfolding probe_rounds rests_until
  failed_probes_double c until [] on backoff suspended fits start fails = (suspended, omega arith)
  failed_probes_double c until (p ∷ rounds) on backoff suspended fits start (fail, fails) =
      let (window, config, again) = probe_round_doubles c until p on backoff suspended fail in
      let cap = c.config.backoff_cap in
      let same_cap : (probe_round c p).config.backoff_cap ≡ cap = ap (λ g. g.backoff_cap) config in
      let longer = min (2 * c.backoff_window) cap in
      let is : (probe_round c p).backoff_window ≡ longer =
        window ∙ doubled c.backoff_window cap fits start in
      let (rests, grows) =
        failed_probes_double (probe_round c p)
          (until + p.late + p.committed_rows + (probe_round c p).backoff_window) rounds
          (rw config on) (rw config backoff) again (rw config fits) (rw (config, is) (omega arith))
          (rw config fails) in
      let power : 2 ^ suc (length rounds) * c.backoff_window
          ≡ 2 ^ length rounds * (2 * c.backoff_window) =
        rw (pow-suc 2 (length rounds)) (omega arith) in
      (
        rests
            ∙ ap₂
                (λ k window.
                  some (rests_until k (until + p.late + p.committed_rows + window) window rounds))
                same_cap is,
        grows
            ∙ ap₂ (λ window k. min (2 ^ length rounds * window) k) is same_cap
            ∙ capped_window (2 ^ length rounds) (2 * c.backoff_window) cap (pow_pos (length rounds))
            ∙ ap (λ k. min k cap) (sym power),
      )
