-- ===== src/Runtime/MtpGap/Tests.antt =====
-- Runs of the retained gap, with numbers for the values of hidden rows.
use inferq.Prelude.{ℕ, ◌-◌, ◌≡◌, ◌≤◌, ◌<◌, ◌⊎◌, inl, refl, arith, none, some, [], ◌∷◌, true, take}
use inferq.Runtime.MtpGap.{MtpGap, truncate_mtp_gap, retain_mtp_gap}
use inferq.Runtime.MtpGap.Rollback.{
  IsAligned, StandsAt, Covers, truncate_mtp_gap-IsAligned, truncate_mtp_gap-retain_mtp_gap,
}

-- The predictor holds the row of one draft beyond the position it is synced to.
abbrev gap : MtpGap ℕ
gap = record {
  mtp_state =
      some (record { positions = 3; keys = 1 ∷ 2 ∷ 3 ∷ 4 ∷ 11 ∷ 12 ∷ []; values = 5 ∷ 6 ∷ 7 ∷ [] });
  synced_position = 2;
  gap_tokens = 30 ∷ 31 ∷ [];
  gap_hidden = 7 ∷ 8 ∷ 9 ∷ 10 ∷ [];
  gap_prior_hidden = some (0 ∷ 0 ∷ []);
  gap_valid = true;
}

gap-IsAligned : IsAligned 2 4 gap
gap-IsAligned = record { reaches = omega arith; rows = omega arith; valid = refl }

truncate_mtp_gap-IsAligned_example :
    (after : MtpGap ℕ) × (truncate_mtp_gap 2 gap 1 ≡ some after)
    × IsAligned 2 1 after
    × Covers 2 1 after.synced_position after.mtp_state
    × (after.gap_tokens ≡ take (1 - gap.synced_position) gap.gap_tokens)
    × (((1 < gap.synced_position) × StandsAt 2 1 1 after.mtp_state)
        ⊎ ((gap.synced_position ≤ 1) × (after.mtp_state ≡ gap.mtp_state)))
truncate_mtp_gap-IsAligned_example =
    truncate_mtp_gap-IsAligned 2 4 1 2 1 gap gap-IsAligned (1, (refl, refl, refl)) (omega arith)

abbrev grown : MtpGap ℕ
grown = record gap { gap_tokens = 30 ∷ 31 ∷ 32 ∷ []; gap_hidden = 7 ∷ 8 ∷ 9 ∷ 10 ∷ 11 ∷ 12 ∷ [] }

grows : retain_mtp_gap 2 gap (32 ∷ []) ((11 ∷ 12 ∷ []) ∷ []) none ≡ some grown
unfolding retain_mtp_gap
grows = refl

truncate_mtp_gap-retain_mtp_gap_example : truncate_mtp_gap 2 grown 4 ≡ some gap
truncate_mtp_gap-retain_mtp_gap_example =
    truncate_mtp_gap-retain_mtp_gap 2 4 gap grown (32 ∷ []) ((11 ∷ 12 ∷ []) ∷ []) none gap-IsAligned
      (inl (omega arith)) grows
