-- ===== src/ToolCalls/Enough.antt =====
-- The loops of src/tool_calls.rs end: the length of a text is fuel enough for them.
use inferq.Prelude.{
  ℕ, zero, suc, ◌+◌, ◌≤◌, ◌<◌, ◌≡◌, refl, ap, Option, none, some, List, [], ◌∷◌, length, take, drop,
  arith, length-drop, Option-cases, inl, inr,
}
use inferq.Stop.{Bytes, starts_with, find}
use inferq.ToolCalls.{
  parameter_open, parameter_close, trim, split_on, strip_newline, strip_last_newline,
  parse_parameters,
}

-- What is left behind a marker is shorter.
split_on-shorter :
    (x : ℕ) (p text before after : Bytes)
    → split_on (x ∷ p) text ≡ some (before, after)
    → length after < length text
unfolding split_on find starts_with
split_on-shorter x p [] before after e = cc
split_on-shorter x p (c ∷ text) before after e = elim (Option-cases (find (x ∷ p) (c ∷ text))) [
  | inl missing ↦
      let both : ◌≡◌ {A = Option (Bytes × Bytes)} none (some (before, after)) =
        rw (split_on, missing) at e in
      cc
  | inr (at, found) ↦
      let both : some (take at (c ∷ text), drop (at + suc (length p)) (c ∷ text))
          ≡ some (before, after) =
        rw (split_on, found) at e in
      let same : drop (at + suc (length p)) (c ∷ text) ≡ after = cc both in
      omega (arith, ap length same, length-drop (at + suc (length p)) (c ∷ text))
]

-- Any two amounts of fuel that are at least the length of the text find the same parameters.
pub parse_parameters-enough :
    (f g : ℕ) (cursor : Bytes)
    → length cursor ≤ f
    → length cursor ≤ g
    → parse_parameters f cursor ≡ parse_parameters g cursor
unfolding parse_parameters
parse_parameters-enough zero zero cursor lf lg = refl
parse_parameters-enough zero (suc g) [] lf lg = unfold split_on find starts_with in refl
parse_parameters-enough (suc f) zero [] lf lg = unfold split_on find starts_with in refl
parse_parameters-enough zero (suc g) (c ∷ cursor) lf lg = absurd (omega arith)
parse_parameters-enough (suc f) zero (c ∷ cursor) lf lg = absurd (omega arith)
parse_parameters-enough (suc f) (suc g) cursor lf lg =
    elim (Option-cases (split_on parameter_open cursor)) [
      | inl missing ↦ rw (parse_parameters, missing) refl
      | inr ((before, after), opened) ↦ elim (Option-cases (split_on (62 ∷ []) after)) [
        | inl unkeyed ↦ rw (parse_parameters, opened, unkeyed) refl
        | inr ((key, value_text), keyed) ↦
            elim (Option-cases (split_on parameter_close value_text)) [
              | inl unclosed ↦ rw (parse_parameters, opened, keyed, unclosed) refl
              | inr ((value, rest), closed) ↦
                  let after_shorter =
                    split_on-shorter 60 (drop 1 parameter_open) cursor before after opened in
                  let text_shorter = split_on-shorter 62 [] after key value_text keyed in
                  let rest_shorter =
                    split_on-shorter 60 (drop 1 parameter_close) value_text value rest closed in
                  let parameter : Bytes × Bytes =
                    (trim key, strip_last_newline (strip_newline value)) in
                  rw (parse_parameters, opened, keyed, closed)
                    (ap (λ (r : List (Bytes × Bytes)). parameter ∷ r)
                      (parse_parameters-enough f g rest (omega arith) (omega arith)))
            ]
      ]
    ]
