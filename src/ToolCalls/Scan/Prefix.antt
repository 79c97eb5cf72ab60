-- ===== src/ToolCalls/Scan/Prefix.antt =====
-- What the scans of src/tool_calls.rs pass over.
use inferq.Prelude.{
  ℕ, zero, suc, ◌<◌, ◌≡◌, refl, ap, ◌∙◌, ◌||◌, none, some, List, [], ◌∷◌, ◌++◌, length, ◌==◌,
  if◌then◌else◌, arith, append_assoc, length-append, Bool-cases, inl, inr,
}
use inferq.Stop.{Bytes, is_empty}
use inferq.ToolCalls.Scan.{
  Scanned, behind, scan_string_body, scan_string, scan_container_from, close_bracket,
  scan_container, scan_scalar, ends_scalar, scan_value,
}

-- A scan that succeeds passes over at least one byte, and over exactly what it gives.
abbrev pub IsPrefix : Bytes → Scanned → Type 0
IsPrefix s none = Unit
IsPrefix s (some (text, rest)) = (text ++ rest ≡ s) × (0 < length text)

behind-IsPrefix :
    (passed s : Bytes) (scanned : Scanned)
    → IsPrefix s scanned
    → IsPrefix (passed ++ s) (behind passed scanned)
behind-IsPrefix passed s none h = tt
behind-IsPrefix passed s (some (text, rest)) (whole, pos) = (
  append_assoc passed text rest ∙ ap (λ (r : Bytes). passed ++ r) whole,
  omega (arith, length-append passed text),
)

scan_string_body-IsPrefix : (s : Bytes) → IsPrefix s (scan_string_body s)
unfolding scan_string_body
scan_string_body-IsPrefix [] = tt
scan_string_body-IsPrefix (b ∷ []) = elim (Bool-cases (b == 34)) [
  | inl quote ↦ rw quote (refl, omega arith)
  | inr other ↦ rw other tt
]
scan_string_body-IsPrefix (b ∷ c ∷ s) =
    let escaped =
      behind-IsPrefix (b ∷ c ∷ []) s (scan_string_body s) (scan_string_body-IsPrefix s) in
    let plain =
      behind-IsPrefix (b ∷ []) (c ∷ s) (scan_string_body (c ∷ s))
        (scan_string_body-IsPrefix (c ∷ s)) in
    elim (Bool-cases (b == 92)) [
      | inl escape ↦ rw escape escaped
      | inr ordinary ↦ elim (Bool-cases (b == 34)) [
        | inl quote ↦ rw (ordinary, quote) (refl, omega arith)
        | inr other ↦ rw (ordinary, other) plain
      ]
    ]

pub scan_string-IsPrefix : (s : Bytes) → IsPrefix s (scan_string s)
unfolding scan_string
scan_string-IsPrefix [] = tt
scan_string-IsPrefix (b ∷ s) =
    behind-IsPrefix (b ∷ []) s (scan_string_body s) (scan_string_body-IsPrefix s)

scan_container_from-IsPrefix :
    (fuel : ℕ) (expected : List ℕ) (s : Bytes) → IsPrefix s (scan_container_from fuel expected s)
unfolding scan_container_from
scan_container_from-IsPrefix zero expected s = tt
scan_container_from-IsPrefix (suc fuel) expected [] = tt
scan_container_from-IsPrefix (suc fuel) expected (b ∷ s) =
    let after = λ (e : List ℕ).
      behind-IsPrefix (b ∷ []) s (scan_container_from fuel e s)
        (scan_container_from-IsPrefix fuel e s) in
    elim (Bool-cases (b == 34)) [
      | inl quote ↦ rw quote (
          in_string (scan_container_from-IsPrefix fuel expected) (scan_string (b ∷ s))
            (scan_string-IsPrefix (b ∷ s)))
      | inr ordinary ↦ elim (Bool-cases (b == 123)) [
        | inl brace ↦ rw (ordinary, brace) (after (125 ∷ expected))
        | inr other ↦ elim (Bool-cases (b == 91)) [
          | inl bracket ↦ rw (ordinary, other, bracket) (after (93 ∷ expected))
          | inr inner ↦ elim (Bool-cases (b == 125 || b == 93)) [
            | inl closing ↦ rw (ordinary, other, inner, closing) (closes expected after)
            | inr plain ↦ rw (ordinary, other, inner, plain) (after expected)
          ]
        ]
      ]
    ]
  where
    in_string :
        ((rest : Bytes) → IsPrefix rest (scan_container_from fuel expected rest))
        → (scanned : Scanned) → IsPrefix (b ∷ s) scanned
        → IsPrefix (b ∷ s) (elim scanned [
          | none ↦ none
          | some (text, rest) ↦ behind text (scan_container_from fuel expected rest)
        ])
    in_string further none h = tt
    in_string further (some (text, rest)) (whole, pos) =
        let both =
          behind-IsPrefix text rest (scan_container_from fuel expected rest) (further rest) in
        rw whole at both

    closes :
        (e : List ℕ)
        → ((o : List ℕ) → IsPrefix (b ∷ s) (behind (b ∷ []) (scan_container_from fuel o s)))
        → IsPrefix
            (b ∷ s)
            (close_bracket b s e (λ (o : List ℕ). behind (b ∷ []) (scan_container_from fuel o s)))
    closes [] after = tt
    closes (c ∷ []) after = elim (Bool-cases (c == b)) [
      | inl same ↦ rw same (refl, omega arith)
      | inr other ↦ rw other tt
    ]
    closes (c ∷ o ∷ outer) after = elim (Bool-cases (c == b)) [
      | inl same ↦ rw same (after (o ∷ outer))
      | inr other ↦ rw other tt
    ]

scan_container-IsPrefix : (s : Bytes) → IsPrefix s (scan_container s)
unfolding scan_container
scan_container-IsPrefix s = scan_container_from-IsPrefix (length s) [] s

scan_scalar_lem : (s : Bytes) → (scan_scalar s).0 ++ (scan_scalar s).1 ≡ s
unfolding scan_scalar
scan_scalar_lem [] = refl
scan_scalar_lem (b ∷ s) = elim (Bool-cases (ends_scalar b)) [
  | inl ends ↦ rw ends refl
  | inr goes ↦ rw goes (ap (λ (r : Bytes). b ∷ r) (scan_scalar_lem s))
]

-- The scan of a JSON value, be it a string, a container or a scalar, passes over exactly the text
-- that it gives, which is at least one byte.
pub scan_value-IsPrefix : (s : Bytes) → IsPrefix s (scan_value s)
unfolding scan_value
scan_value-IsPrefix [] = tt
scan_value-IsPrefix (b ∷ s) = elim (Bool-cases (b == 34)) [
  | inl quote ↦ rw quote (scan_string-IsPrefix (b ∷ s))
  | inr ordinary ↦ elim (Bool-cases (b == 123 || b == 91)) [
    | inl opens ↦ rw (ordinary, opens) (scan_container-IsPrefix (b ∷ s))
    | inr other ↦ rw (ordinary, other) (scalar (scan_scalar (b ∷ s)) (scan_scalar_lem (b ∷ s)))
  ]
]
  where
    scalar :
        (both : Bytes × Bytes)
        → both.0 ++ both.1 ≡ b ∷ s
        → IsPrefix (b ∷ s) (if is_empty both.0 then none else some both)
    scalar ([], rest) whole = tt
    scalar (c ∷ text, rest) whole = (whole, omega arith)
