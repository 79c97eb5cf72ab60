-- ===== src/Stop/Hold.antt =====
-- `StopBuffer::longest_partial_suffix` of src/server/stop.rs: how much text has to be held back.
use mathlib.Core.Bool.{false≢true}
use inferq.Prelude.{
  ℕ, zero, suc, ◌+◌, ◌-◌, ◌≤◌, ◌<◌, ◌≡◌, refl, sym, ◌∙◌, Bool, true, false, ◌&&◌, List, [], ◌∷◌,
  arith, length, take, drop, get_elem?-none, All, Any, ◌==◌, Bool-cases, inl, inr, ◌⊎◌, min,
  length-take,
}
use inferq.Stop.{
  Bytes, is_char_boundary, starts_with, ends_with, partial_from, longest_partial_from,
}
use inferq.Stop.Text.{IsStop, starts_with-boundary}

-- The buffer ends with the first `len` bytes of the stop, cut at a character boundary.
abbrev pub is_partial : Bytes → Bytes → ℕ → Bool
is_partial stop held len = is_char_boundary stop len && ends_with (take len stop) held

-- How the search for one stop ends: at the old hold, or at a longer one that the stop explains.
partial_from-result :
    (stop held : Bytes) (hold rounds : ℕ)
    → (partial_from stop held hold rounds ≡ hold)
      ⊎ (is_partial stop held (partial_from stop held hold rounds) ≡ true)
        × (hold < partial_from stop held hold rounds)
        × (partial_from stop held hold rounds ≤ hold + rounds)
unfolding partial_from
partial_from-result stop held hold zero = inl refl
partial_from-result stop held hold (suc rounds) =
    elim (Bool-cases (is_partial stop held (hold + suc rounds))) [
      | inl fits ↦ rw fits (inr (fits, omega arith, omega arith))
      | inr misses ↦ rw misses (elim (partial_from-result stop held hold rounds) [
        | inl same ↦ inl same
        | inr (fits, above, below) ↦ inr (fits, above, omega arith)
      ])
    ]

shorter :
    (stop held : Bytes) (hold rounds len : ℕ)
    → len ≤ hold + suc rounds
    → is_partial stop held len ≡ true
    → is_partial stop held (hold + suc rounds) ≡ false
    → len ≤ hold + rounds
shorter stop held hold rounds len le h no_fit = elim (Bool-cases (len == hold + suc rounds)) [
  | inl last ↦
      let same : len ≡ hold + suc rounds = ground arith in
      absurd (false≢true (sym no_fit ∙ rw same at h))
  | inr less ↦ ground arith
]

-- No length that the stop explains is missed.
partial_from-longest :
    (stop held : Bytes) (hold rounds len : ℕ)
    → len ≤ hold + rounds
    → is_partial stop held len ≡ true
    → len ≤ partial_from stop held hold rounds
unfolding partial_from
partial_from-longest stop held hold zero len le h = omega arith
partial_from-longest stop held hold (suc rounds) len le h =
    elim (Bool-cases (is_partial stop held (hold + suc rounds))) [
      | inl fits ↦ rw fits le
      | inr misses ↦ rw misses (
          partial_from-longest stop held hold rounds len
            (shorter stop held hold rounds len le h misses) h)
    ]

-- A hold is none at all, or a cut of the buffer at a character boundary.
abbrev pub IsHold : Bytes → ℕ → Type 0
IsHold held n = (n ≤ length held) × (is_char_boundary held (length held - n) ≡ true)

pub nothing_kept : (held : Bytes) → IsHold held 0
unfolding is_char_boundary
nothing_kept held = (
  omega arith,
  rw (get_elem?-none held (length held - 0) (omega arith), is_char_boundary) (ground arith),
)

take-IsStop : (len : ℕ) (stop : Bytes) → IsStop stop → 0 < len → IsStop (take len stop)
take-IsStop zero stop h pos = absurd (omega arith)
take-IsStop (suc len) [] h pos = h
take-IsStop (suc len) (b ∷ stop) (_, text) pos = (omega arith, text)

ends_with_partial :
    (stop held : Bytes) (len : ℕ)
    → len ≤ length stop
    → is_partial stop held len ≡ true
    → starts_with (take len stop) (drop (length held - len) held) ≡ true
unfolding ends_with
ends_with_partial stop held len le h =
    let size : length (take len stop) ≡ len = omega (arith, length-take len stop) in
    let tail : ends_with (take len stop) held ≡ true = ground arith in
    ground (arith, rw size at tail)

is_partial-IsHold :
    (stop held : Bytes) (len : ℕ)
    → IsStop stop
    → 0 < len
    → len ≤ length stop
    → len ≤ length held
    → is_partial stop held len ≡ true
    → IsHold held len
unfolding ends_with
is_partial-IsHold stop held len is_stop pos le_stop le h = (
  le,
  starts_with-boundary (take len stop) held (length held - len) (take-IsStop len stop is_stop pos)
      (ends_with_partial stop held len le_stop h),
)

partial_from-IsHold :
    (stop held : Bytes) (hold : ℕ)
    → IsStop stop
    → IsHold held hold
    → IsHold held (partial_from stop held hold (min (length stop - 1) (length held) - hold))
partial_from-IsHold stop held hold is_stop h =
    elim (partial_from-result stop held hold (min (length stop - 1) (length held) - hold)) [
      | inl same ↦ rw same h
      | inr (fits, above, below) ↦
          is_partial-IsHold stop held
            (partial_from stop held hold (min (length stop - 1) (length held) - hold)) is_stop
            (omega arith) (omega arith) (omega arith) fits
    ]

pub longest_partial_from-IsHold :
    (stops : List Bytes) (held : Bytes) (hold : ℕ)
    → All IsStop stops
    → IsHold held hold
    → IsHold held (longest_partial_from stops held hold)
unfolding longest_partial_from
longest_partial_from-IsHold [] held hold are_stops h = h
longest_partial_from-IsHold (stop ∷ stops) held hold (is_stop, are_stops) h =
    longest_partial_from-IsHold stops held
      (partial_from stop held hold (min (length stop - 1) (length held) - hold)) are_stops
      (partial_from-IsHold stop held hold is_stop h)

partial_from-ge : (stop held : Bytes) (hold rounds : ℕ) → hold ≤ partial_from stop held hold rounds
partial_from-ge stop held hold rounds = elim (partial_from-result stop held hold rounds) [
  | inl same ↦ omega arith
  | inr (_, above, _) ↦ omega arith
]

longest_partial_from-ge :
    (stops : List Bytes) (held : Bytes) (hold : ℕ) → hold ≤ longest_partial_from stops held hold
unfolding longest_partial_from
longest_partial_from-ge [] held hold = omega arith
longest_partial_from-ge (stop ∷ stops) held hold =
    let next = partial_from stop held hold (min (length stop - 1) (length held) - hold) in
    omega (
      arith,
      partial_from-ge stop held hold (min (length stop - 1) (length held) - hold),
      longest_partial_from-ge stops held next,
    )

-- `len` bytes at the end of the buffer are the beginning of one of the stops, which is longer.
abbrev pub Pending : Bytes → ℕ → Bytes → Type 0
Pending held len stop =
    (len < length stop) × (len ≤ length held) × (is_partial stop held len ≡ true)

-- Nothing that one of the stops could still take up is released.
pub longest_partial_from-longest :
    (stops : List Bytes) (held : Bytes) (hold len : ℕ)
    → Any (Pending held len) stops
    → len ≤ longest_partial_from stops held hold
unfolding longest_partial_from
longest_partial_from-longest [] held hold len h = absurd h
longest_partial_from-longest (stop ∷ stops) held hold len (inl (lt, le, fits)) =
    let rounds = min (length stop - 1) (length held) - hold in
    omega (
      arith,
      partial_from-longest stop held hold rounds len (omega arith) fits,
      longest_partial_from-ge stops held (partial_from stop held hold rounds),
    )
longest_partial_from-longest (stop ∷ stops) held hold len (inr h) =
    longest_partial_from-longest stops held
      (partial_from stop held hold (min (length stop - 1) (length held) - hold)) len h
