-- ===== src/Runtime/MtpGap.antt =====
-- The retained gap between the predictor's position and the target's: the `mtp_*` fields of a session
-- in src/runtime.rs and their operations, and `truncate` of the predictor's attention state in
-- src/qwen/quantized_attention.rs. A tensor is the list of its rows.
pub mod Rollback
mod Tests
use inferq.Prelude.{
  ℕ, zero, suc, ◌+◌, ◌-◌, ◌*◌, ◌/◌, ◌%◌, Bool, true, false, not, ◌&&◌, ◌||◌, Option, none, some,
  List, [], ◌∷◌, ◌++◌, map, length, take, ltb, leb, ◌==◌, if◌then◌else◌,
}
use inferq.Ngram.{Token}

pub data GapAfterRollback : Type 0 where
  retain : ℕ → GapAfterRollback
  truncate_predictor unrecoverable : GapAfterRollback

unfoldable pub gap_after_rollback : ℕ → ℕ → ℕ → GapAfterRollback
gap_after_rollback synced_position gap_len position =
    if ltb position synced_position
    then truncate_predictor
    else if leb (position - synced_position) gap_len
    then retain (position - synced_position)
    else unrecoverable

pub record AttentionState (V : Type 0) : Type 0 where
  pub positions : ℕ
  pub keys : List V
  pub values : List V

pub record MtpGap (V : Type 0) : Type 0 where
  pub mtp_state : Option (AttentionState V)
  pub synced_position : ℕ
  pub gap_tokens : List Token
  pub gap_hidden : List V
  pub gap_prior_hidden : Option (List V)
  pub gap_valid : Bool

module _ {V : Type 0} where
  -- `QuantizedAttentionState::truncate`; the outer `none` is an error.
  unfoldable pub truncate_attention : AttentionState V → ℕ → Option (AttentionState V)
  truncate_attention s positions =
      if not (leb positions s.positions)
      then none
      else if positions == s.positions
      then some s
      else if positions == 0
      then some (record { positions = 0; keys = []; values = [] })
      else if not (length s.keys % s.positions == 0 && length s.values % s.positions == 0)
      then none
      else some (record {
        positions = positions;
        keys = take (positions * (length s.keys / s.positions)) s.keys;
        values = take (positions * (length s.values / s.positions)) s.values;
      })

  unfoldable pub clear_mtp_gap : MtpGap V → MtpGap V
  clear_mtp_gap gap = record gap { gap_tokens = []; gap_hidden = []; gap_prior_hidden = none }

  -- `state.truncate(position)?` where there is a predictor.
  unfoldable pub truncate_state : Option (AttentionState V) → ℕ → Option (Option (AttentionState V))
  unfolding truncate_attention
  truncate_state none position = some none
  truncate_state (some s) position = elim (truncate_attention s position) [
    | none ↦ none
    | some t ↦ some (some t)
  ]

  unfoldable pub truncate_mtp_gap : ℕ → MtpGap V → ℕ → Option (MtpGap V)
  unfolding gap_after_rollback truncate_state clear_mtp_gap
  truncate_mtp_gap hidden_size gap position =
      elim (gap_after_rollback gap.synced_position (length gap.gap_tokens) position) [
        | retain retained ↦ some (record gap {
          gap_tokens = take retained gap.gap_tokens;
          gap_hidden = take (retained * hidden_size) gap.gap_hidden;
          gap_prior_hidden = if retained == 0 then none else gap.gap_prior_hidden;
        })
        | truncate_predictor ↦ elim (truncate_state gap.mtp_state position) [
          | none ↦ none
          | some state ↦
              let cleared : MtpGap V = clear_mtp_gap gap in
              some (record cleared { mtp_state = state; synced_position = position })
        ]
        | unrecoverable ↦
            let cleared : MtpGap V = clear_mtp_gap gap in
            some (record cleared { gap_valid = false })
      ]

  -- `hidden.dims() == [tokens.len(), hidden_size]`.
  unfoldable pub has_dims : ℕ → ℕ → List (List V) → Bool
  has_dims zero size [] = true
  has_dims zero size (row ∷ rows) = false
  has_dims (suc n) size [] = false
  has_dims (suc n) size (row ∷ rows) = let rest = has_dims n size rows in length row == size && rest

  unfoldable pub concat_rows : List (List V) → List V
  concat_rows [] = []
  concat_rows (row ∷ rows) = row ++ concat_rows rows

  unfoldable pub retain_mtp_gap :
      ℕ → MtpGap V → List Token → List (List V) → Option (List V) → Option (MtpGap V)
  unfolding has_dims concat_rows
  retain_mtp_gap hidden_size gap [] hidden prior_hidden = some gap
  retain_mtp_gap hidden_size gap (token ∷ tokens) hidden prior_hidden =
      if has_dims (length (token ∷ tokens)) hidden_size hidden
      then some (record gap {
        gap_prior_hidden =
            if length gap.gap_tokens == 0 then prior_hidden else gap.gap_prior_hidden;
        gap_tokens = gap.gap_tokens ++ token ∷ tokens;
        gap_hidden = gap.gap_hidden ++ concat_rows hidden;
      })
      else none

  -- `mtp_arm_ready`, at the target's position and whether it has a last hidden row.
  unfoldable pub mtp_arm_ready : MtpGap V → ℕ → Bool → Bool
  mtp_arm_ready gap position has_last_hidden =
      (gap.gap_valid && gap.synced_position + length gap.gap_tokens == position)
      && (position == 0 || has_last_hidden)
