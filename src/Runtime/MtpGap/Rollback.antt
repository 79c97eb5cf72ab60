-- ===== src/Runtime/MtpGap/Rollback.antt =====
-- The gap of src/runtime.rs under rollbacks of the target: it stays in step, and a pass that is rolled
-- back whole leaves it as it was.
use inferq.Prelude.{
  ℕ, ◌+◌, ◌-◌, ◌*◌, ◌/◌, ◌%◌, ◌≤◌, ◌<◌, ◌≡◌, refl, sym, ap, ◌∙◌, arith, true, false, Option, none,
  some, List, [], ◌∷◌, ◌++◌, length, take, ltb, leb, ◌==◌, if◌then◌else◌, length-take,
  length-append, take-append_le, take-all, Bool-cases, inl, inr, ◌⊎◌,
}
use native.Mathlib.Nat.{mul-le-mul_right, mul-div_cancel_left, mul-mod_right}
use inferq.Ngram.{Token}
use inferq.Runtime.MtpGap.{
  AttentionState, MtpGap, gap_after_rollback, clear_mtp_gap, truncate_state, truncate_mtp_gap,
  has_dims, concat_rows, retain_mtp_gap,
}

module _ {V : Type 0} where
  -- The gap reaches from the predictor's position to the target's, with a hidden row for each token.
  pub record IsAligned (hidden_size position : ℕ) (gap : MtpGap V) : Type 0 where
    pub reaches : gap.synced_position + length gap.gap_tokens ≡ position
    pub rows : length gap.gap_hidden ≡ length gap.gap_tokens * hidden_size
    pub valid : gap.gap_valid ≡ true

  -- A predictor's state stands at a position, with as many keys, and as many values, at each.
  abbrev pub StandsAt : ℕ → ℕ → ℕ → Option (AttentionState V) → Type 0
  StandsAt keys_per values_per position none = Unit
  StandsAt keys_per values_per position (some s) =
      (s.positions ≡ position)
      × (length s.keys ≡ position * keys_per)
      × (length s.values ≡ position * values_per)

  -- A predictor's state reaches a position, and may hold the rows of drafts beyond it.
  abbrev pub Covers : ℕ → ℕ → ℕ → Option (AttentionState V) → Type 0
  Covers keys_per values_per position state =
      (ahead : ℕ) × StandsAt keys_per values_per (position + ahead) state

  -- An array of `n` equal shares, cut to its first `p`.
  length-shares :
      (xs : List V) (n per p : ℕ)
      → length xs ≡ n * per
      → p < n
      → (length xs % n ≡ 0) × (length (take (p * (length xs / n)) xs) ≡ p * per)
  length-shares xs n per p size lt =
      let share : length xs / n ≡ per = rw size (mul-div_cancel_left per (omega arith)) in
      let fits : p * per ≤ n * per = mul-le-mul_right per (omega arith) in
      (rw size (mul-mod_right n per), rw share (omega (arith, length-take (p * per) xs)))

  truncate_state-StandsAt :
      (state : Option (AttentionState V)) (keys_per values_per synced position : ℕ)
      → StandsAt keys_per values_per synced state
      → position < synced
      → (after : Option (AttentionState V)) × (truncate_state state position ≡ some after)
        × StandsAt keys_per values_per position after
  unfolding truncate_state
  truncate_state-StandsAt none keys_per values_per synced position h lt = (none, refl, tt)
  truncate_state-StandsAt (some s) keys_per values_per synced position (at, keys, values) lt =
      let (even_keys, kept_keys) = length-shares s.keys synced keys_per position keys lt in
      let (even_values, kept_values) =
        length-shares s.values synced values_per position values lt in
      elim (Bool-cases (position == 0)) [
        | inl zero_position ↦
            let is : position ≡ 0 = ground arith in
            (some (record { positions = 0; keys = []; values = [] }), ground arith, ground arith)
        | inr some_position ↦ (
          some (record {
            positions = position;
            keys = take (position * (length s.keys / s.positions)) s.keys;
            values = take (position * (length s.values / s.positions)) s.values;
          }),
          ground arith,
          (refl, rw at kept_keys, rw at kept_values),
        )
      ]

  truncate_mtp_gap-ahead :
      (hidden_size position : ℕ) (gap : MtpGap V) (state : Option (AttentionState V))
      → position < gap.synced_position
      → truncate_state gap.mtp_state position ≡ some state
      → truncate_mtp_gap hidden_size gap position
        ≡ some (record gap {
          gap_tokens = [];
          gap_hidden = [];
          gap_prior_hidden = none;
          mtp_state = state;
          synced_position = position;
        })
  unfolding truncate_mtp_gap gap_after_rollback clear_mtp_gap
  truncate_mtp_gap-ahead hidden_size position gap state lt found =
      let ahead : ltb position gap.synced_position ≡ true = ground arith in
      rw (truncate_mtp_gap, gap_after_rollback, ahead, found) refl

  -- What is kept of a gap that reaches the position.
  abbrev kept : ℕ → ℕ → MtpGap V → MtpGap V
  kept hidden_size k gap = record gap {
    gap_tokens = take k gap.gap_tokens;
    gap_hidden = take (k * hidden_size) gap.gap_hidden;
    gap_prior_hidden = if k == 0 then none else gap.gap_prior_hidden;
  }

  truncate_mtp_gap-kept :
      (hidden_size position : ℕ) (gap : MtpGap V)
      → gap.synced_position ≤ position
      → position ≤ gap.synced_position + length gap.gap_tokens
      → truncate_mtp_gap hidden_size gap position
        ≡ some (kept hidden_size (position - gap.synced_position) gap)
  unfolding truncate_mtp_gap gap_after_rollback
  truncate_mtp_gap-kept hidden_size position gap le reach =
      let behind : ltb position gap.synced_position ≡ false = ground arith in
      let inside : leb (position - gap.synced_position) (length gap.gap_tokens) ≡ true =
        ground arith in
      rw (truncate_mtp_gap, gap_after_rollback, behind, inside) refl

  -- A rollback of the target to `position`, no further than where it stands, keeps an aligned gap
  -- aligned, also where the predictor holds the rows of drafts beyond the position it is synced to:
  -- it does not fail, and the gap reaches from the predictor to the new position with the tokens
  -- that led there. A position before the synced one brings the predictor's state back to exactly
  -- there, its draft rows dropped; any other leaves the state as it is.
  pub truncate_mtp_gap-IsAligned :
      (hidden_size target position keys_per values_per : ℕ) (gap : MtpGap V)
      → IsAligned hidden_size target gap
      → Covers keys_per values_per gap.synced_position gap.mtp_state
      → position ≤ target
      → (after : MtpGap V) × (truncate_mtp_gap hidden_size gap position ≡ some after)
        × IsAligned hidden_size position after
        × Covers keys_per values_per after.synced_position after.mtp_state
        × (after.gap_tokens ≡ take (position - gap.synced_position) gap.gap_tokens)
        × (((position < gap.synced_position)
              × StandsAt keys_per values_per position after.mtp_state)
            ⊎ ((gap.synced_position ≤ position) × (after.mtp_state ≡ gap.mtp_state)))
  truncate_mtp_gap-IsAligned hidden_size target position keys_per values_per gap h (more, stands)
        le =
      elim (Bool-cases (ltb position gap.synced_position)) [
        | inl ahead ↦
            let (state, found, there) =
              truncate_state-StandsAt gap.mtp_state keys_per values_per (gap.synced_position + more)
                position stands (ground arith) in
            (
              record gap {
                gap_tokens = [];
                gap_hidden = [];
                gap_prior_hidden = none;
                mtp_state = state;
                synced_position = position;
              },
              truncate_mtp_gap-ahead hidden_size position gap state (ground arith) found,
              record { reaches = omega arith; rows = omega arith; valid = h.valid },
              (0, (let still : position + 0 ≡ position = omega arith in rw still there)),
              (let gone : position - gap.synced_position ≡ 0 = ground arith in rw gone refl),
              inl (ground arith, there),
            )
        | inr behind ↦
            let k = position - gap.synced_position in
            let fits : k * hidden_size ≤ length gap.gap_tokens * hidden_size =
              mul-le-mul_right hidden_size (ground (arith, h.reaches)) in
            (
              kept hidden_size k gap,
              truncate_mtp_gap-kept hidden_size position gap (ground arith)
                  (omega (arith, h.reaches)),
              record {
                reaches = ground (arith, h.reaches, length-take k gap.gap_tokens);
                rows =
                    let size : length (take k gap.gap_tokens) ≡ k =
                      ground (arith, h.reaches, length-take k gap.gap_tokens) in
                    rw size (omega (arith, h.rows, length-take (k * hidden_size) gap.gap_hidden));
                valid = h.valid;
              },
              (more, stands),
              refl,
              inr (ground arith, refl),
            )
      ]

  same_fields :
      (gap : MtpGap V) (tokens : List Token) (hidden : List V) (prior : Option (List V))
      → tokens ≡ gap.gap_tokens
      → hidden ≡ gap.gap_hidden
      → prior ≡ gap.gap_prior_hidden
      → record gap { gap_tokens = tokens; gap_hidden = hidden; gap_prior_hidden = prior } ≡ gap
  same_fields gap tokens hidden prior et eh ep = rw (et, eh, ep) refl

  prior_kept :
      (gap : MtpGap V) (prior : Option (List V)) (k : ℕ)
      → k ≡ length gap.gap_tokens
      → (0 < length gap.gap_tokens) ⊎ (gap.gap_prior_hidden ≡ none)
      → (if k == 0
          then none
          else if length gap.gap_tokens == 0
          then prior
          else gap.gap_prior_hidden)
        ≡ gap.gap_prior_hidden
  prior_kept gap prior k is (inl some_token) = ground arith
  prior_kept gap prior k is (inr absent) = ground arith

  prior_unchanged :
      (gap : MtpGap V) (k : ℕ)
      → k ≡ length gap.gap_tokens
      → (0 < length gap.gap_tokens) ⊎ (gap.gap_prior_hidden ≡ none)
      → (if k == 0 then none else gap.gap_prior_hidden) ≡ gap.gap_prior_hidden
  prior_unchanged gap k is (inl some_token) = ground arith
  prior_unchanged gap k is (inr absent) = ground arith

  -- Cutting back to the old length what an aligned gap grew to gives the gap back.
  kept-append :
      (hidden_size target : ℕ) (gap : MtpGap V) (tokens : List Token) (rows : List V)
      (prior : Option (List V))
      → IsAligned hidden_size target gap
      → (0 < length gap.gap_tokens) ⊎ (gap.gap_prior_hidden ≡ none)
      → kept hidden_size (target - gap.synced_position) (record gap {
        gap_prior_hidden = if length gap.gap_tokens == 0 then prior else gap.gap_prior_hidden;
        gap_tokens = gap.gap_tokens ++ tokens;
        gap_hidden = gap.gap_hidden ++ rows;
      })
        ≡ gap
  kept-append hidden_size target gap tokens rows prior h start =
      let k = target - gap.synced_position in
      let is : k ≡ length gap.gap_tokens = omega (arith, h.reaches) in
      let size : k * hidden_size ≡ length gap.gap_hidden = rw is (sym h.rows) in
      same_fields gap (take k (gap.gap_tokens ++ tokens))
        (take (k * hidden_size) (gap.gap_hidden ++ rows)) _
        (take-append_le k gap.gap_tokens tokens (omega arith)
          ∙ take-all k gap.gap_tokens (omega arith))
        (take-append_le (k * hidden_size) gap.gap_hidden rows (omega arith)
          ∙ take-all (k * hidden_size) gap.gap_hidden (omega arith))
        (prior_kept gap prior k is start)

  -- A pass that is rolled back whole leaves the gap as it was: retaining the tokens and rows of a
  -- pass and truncating to the position before it gives back the aligned gap, whose prior row is
  -- absent while it holds no token.
  pub truncate_mtp_gap-retain_mtp_gap :
      (hidden_size target : ℕ) (gap grown : MtpGap V) (tokens : List Token) (hidden : List (List V))
      (prior : Option (List V))
      → IsAligned hidden_size target gap
      → (0 < length gap.gap_tokens) ⊎ (gap.gap_prior_hidden ≡ none)
      → retain_mtp_gap hidden_size gap tokens hidden prior ≡ some grown
      → truncate_mtp_gap hidden_size grown target ≡ some gap
  unfolding retain_mtp_gap
  truncate_mtp_gap-retain_mtp_gap hidden_size target gap grown [] hidden prior h start e =
      let same : gap ≡ grown = cc in
      let k = target - gap.synced_position in
      let is : k ≡ length gap.gap_tokens = omega (arith, h.reaches) in
      let size : k * hidden_size ≡ length gap.gap_hidden = rw is (sym h.rows) in
      rw (← same) (
        truncate_mtp_gap-kept hidden_size target gap (omega (arith, h.reaches))
          (omega (arith, h.reaches))
        ∙ ap some (
            same_fields gap (take k gap.gap_tokens) (take (k * hidden_size) gap.gap_hidden) _
              (take-all k gap.gap_tokens (omega arith))
              (take-all (k * hidden_size) gap.gap_hidden (omega arith))
              (prior_unchanged gap k is start)))
  truncate_mtp_gap-retain_mtp_gap hidden_size target gap grown (t ∷ tokens) hidden prior h start e =
      elim (Bool-cases (has_dims (length (t ∷ tokens)) hidden_size hidden)) [
        | inl good ↦
            let longer : MtpGap V = record gap {
              gap_prior_hidden = if length gap.gap_tokens == 0 then prior else gap.gap_prior_hidden;
              gap_tokens = gap.gap_tokens ++ t ∷ tokens;
              gap_hidden = gap.gap_hidden ++ concat_rows hidden;
            } in
            let same : longer ≡ grown = let both : some longer ≡ some grown = rw good at e in cc in
            rw (← same) (
              truncate_mtp_gap-kept hidden_size target longer (omega (arith, h.reaches))
                (omega (arith, h.reaches, length-append gap.gap_tokens (t ∷ tokens)))
              ∙ ap some (
                  kept-append hidden_size target gap (t ∷ tokens) (concat_rows hidden) prior h
                    start))
        | inr bad ↦ let both : none ≡ some grown = rw bad at e in cc
      ]
