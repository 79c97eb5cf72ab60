-- ===== src/ToolCalls/Scan/Enough.antt =====
-- The loops over a JSON object in src/tool_calls.rs end: the length of a text is fuel enough for them.
use mathlib.Core.Path.{fun_ext}
use inferq.Prelude.{
  ℕ, zero, suc, ◌≤◌, ◌<◌, ◌≡◌, refl, ap, ◌||◌, none, some, List, [], ◌∷◌, length, ◌==◌, arith,
  length-append, Bool-cases, inl, inr,
}
use inferq.Stop.{Bytes}
use inferq.ToolCalls.Scan.{Scanned, behind, scan_string, close_bracket, scan_container_from}
use inferq.ToolCalls.Scan.Prefix.{IsPrefix, scan_string-IsPrefix}

-- What a scan leaves is shorter.
IsPrefix-shorter : (s text rest : Bytes) → IsPrefix s (some (text, rest)) → length rest < length s
IsPrefix-shorter s text rest (whole, pos) = omega (arith, ap length whole, length-append text rest)

-- Any two amounts of fuel that are at least the length of the text scan the same container.
pub scan_container_from-enough :
    (f g : ℕ) (expected : List ℕ) (s : Bytes)
    → length s ≤ f
    → length s ≤ g
    → scan_container_from f expected s ≡ scan_container_from g expected s
unfolding scan_container_from
scan_container_from-enough zero zero expected s lf lg = refl
scan_container_from-enough zero (suc g) expected [] lf lg = refl
scan_container_from-enough (suc f) zero expected [] lf lg = refl
scan_container_from-enough zero (suc g) expected (b ∷ s) lf lg = absurd (omega arith)
scan_container_from-enough (suc f) zero expected (b ∷ s) lf lg = absurd (omega arith)
scan_container_from-enough (suc f) (suc g) expected [] lf lg = refl
scan_container_from-enough (suc f) (suc g) expected (b ∷ s) lf lg =
    let after = λ (e : List ℕ).
      ap (behind (b ∷ [])) (scan_container_from-enough f g e s (omega arith) (omega arith)) in
    elim (Bool-cases (b == 34)) [
      | inl quote ↦ rw quote (
          in_string (λ rest lf' lg'. scan_container_from-enough f g expected rest lf' lg')
            (scan_string (b ∷ s)) (scan_string-IsPrefix (b ∷ s)))
      | inr ordinary ↦ elim (Bool-cases (b == 123)) [
        | inl brace ↦ rw (ordinary, brace) (after (125 ∷ expected))
        | inr other ↦ elim (Bool-cases (b == 91)) [
          | inl bracket ↦ rw (ordinary, other, bracket) (after (93 ∷ expected))
          | inr inner ↦ elim (Bool-cases (b == 125 || b == 93)) [
            | inl closing ↦
                rw (ordinary, other, inner, closing)
                  (ap (close_bracket b s expected) (fun_ext after))
            | inr plain ↦ rw (ordinary, other, inner, plain) (after expected)
          ]
        ]
      ]
    ]
  where
    in_string :
        ((rest : Bytes)
          → length rest ≤ f
          → length rest ≤ g
          → scan_container_from f expected rest ≡ scan_container_from g expected rest)
        → (scanned : Scanned) → IsPrefix (b ∷ s) scanned
        → ◌≡◌ {A = Scanned}
            (elim scanned [
              | none ↦ none
              | some (text, rest) ↦ behind text (scan_container_from f expected rest)
            ])
            (elim scanned [
              | none ↦ none
              | some (text, rest) ↦ behind text (scan_container_from g expected rest)
            ])
    in_string further none h = refl
    in_string further (some (text, rest)) h =
        let shorter = IsPrefix-shorter (b ∷ s) text rest h in
        ap (behind text) (further rest (omega arith) (omega arith))
