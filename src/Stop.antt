-- ===== src/Stop.antt =====
-- The stop-sequence buffer of src/server/stop.rs. A `str` is the list of its UTF-8 bytes; a slice
-- at a place that is no character boundary panics, which is `none`.
pub mod Text
pub mod Hold
pub mod Settled
pub mod Stream
mod Tests
use mathlib.Core.Option
use inferq.Prelude.{
  ℕ, zero, suc, ◌+◌, ◌-◌, min, Bool, true, false, not, ◌||◌, ◌&&◌, Option, none, some, List, [],
  ◌∷◌, ◌++◌, length, take, drop, get_elem?, ltb, leb, ◌==◌, if◌then◌else◌,
}

abbrev pub Bytes : Type 0
Bytes = List ℕ

-- A byte that does not begin a character, `0b10xxxxxx`.
unfoldable pub is_continuation : ℕ → Bool
is_continuation b = if ltb b 128 then false else ltb b 192

-- `str::is_char_boundary`.
unfoldable pub is_char_boundary : Bytes → ℕ → Bool
unfolding is_continuation
is_char_boundary s i = elim (get_elem? s i) [
  | none ↦ i == length s
  | some b ↦ i == 0 || not (is_continuation b)
]

unfoldable pub starts_with : Bytes → Bytes → Bool
starts_with [] s = true
starts_with (x ∷ p) [] = false
starts_with (x ∷ p) (y ∷ s) = if x == y then starts_with p s else false

-- `str::find`: the first place where the pattern begins.
unfoldable pub find : Bytes → Bytes → Option ℕ
unfolding starts_with
find p [] = if starts_with p [] then some 0 else none
find p (c ∷ s) = if starts_with p (c ∷ s) then some 0 else Option.map suc (find p s)

-- `s.ends_with(p)`.
unfoldable pub ends_with : Bytes → Bytes → Bool
unfolding starts_with
ends_with p s =
    if ltb (length s) (length p) then false else starts_with p (drop (length s - length p) s)

-- `(s[..at], s[at..])`, which panics off a character boundary.
unfoldable pub split_at : Bytes → ℕ → Option (Bytes × Bytes)
unfolding is_char_boundary
split_at s at = if is_char_boundary s at then some (take at s, drop at s) else none

pub record StopStep : Type 0 where
  pub emit : Bytes
  pub matched : Bool

pub record StopBuffer : Type 0 where
  pub stops : List Bytes
  pub held : Bytes

unfoldable pub is_empty : Bytes → Bool
is_empty [] = true
is_empty (b ∷ s) = false

unfoldable pub nonempty_stops : List Bytes → List Bytes
unfolding is_empty
nonempty_stops [] = []
nonempty_stops (stop ∷ stops) =
    let rest = nonempty_stops stops in if is_empty stop then rest else stop ∷ rest

unfoldable pub new : List Bytes → StopBuffer
unfolding nonempty_stops
new stops = record { stops = nonempty_stops stops; held = [] }

unfoldable pub min_option : Option ℕ → Option ℕ → Option ℕ
min_option none b = b
min_option (some a) none = some a
min_option (some a) (some b) = some (min a b)

-- `stops.iter().filter_map(|stop| held.find(stop)).min()`.
unfoldable pub earliest : List Bytes → Bytes → Option ℕ
unfolding find min_option
earliest [] held = none
earliest (stop ∷ stops) held = min_option (find stop held) (earliest stops held)

-- `for len in (hold + 1..=longest).rev()`, with `rounds = longest - hold` rounds left: the first
-- `len` at which the buffer ends with that much of the stop.
unfoldable pub partial_from : Bytes → Bytes → ℕ → ℕ → ℕ
unfolding is_char_boundary ends_with
partial_from stop held hold zero = hold
partial_from stop held hold (suc rounds) =
    let shorter = partial_from stop held hold rounds in
    let len = hold + suc rounds in
    if is_char_boundary stop len && ends_with (take len stop) held then len else shorter

unfoldable pub longest_partial_from : List Bytes → Bytes → ℕ → ℕ
unfolding partial_from
longest_partial_from [] held hold = hold
longest_partial_from (stop ∷ stops) held hold =
    longest_partial_from stops held
      (partial_from stop held hold (min (length stop - 1) (length held) - hold))

unfoldable pub longest_partial_suffix : StopBuffer → ℕ
unfolding longest_partial_from
longest_partial_suffix buffer = longest_partial_from buffer.stops buffer.held 0

-- `push`; `none` is a panic.
unfoldable pub push : StopBuffer → Bytes → Option (StopStep × StopBuffer)
unfolding earliest longest_partial_suffix split_at
push buffer chunk = elim buffer.stops [
  | [] ↦ some (record { emit = chunk; matched = false }, buffer)
  | _ ∷ _ ↦
      let grown : StopBuffer = record buffer { held = buffer.held ++ chunk } in
      elim (earliest buffer.stops grown.held) [
        | some at ↦
            Option.map
              (λ (parts : Bytes × Bytes).
                let step : StopStep = record { emit = parts.0; matched = true } in
                let cleared : StopBuffer = record buffer { held = [] } in (step, cleared))
              (split_at grown.held at)
        | none ↦
            Option.map
              (λ (parts : Bytes × Bytes).
                let step : StopStep = record { emit = parts.0; matched = false } in
                let kept : StopBuffer = record buffer { held = parts.1 } in (step, kept))
              (split_at grown.held (length grown.held - longest_partial_suffix grown))
      ]
]

-- `flush`: what is still held, and the buffer emptied.
unfoldable pub flush : StopBuffer → Bytes × StopBuffer
flush buffer = (buffer.held, record buffer { held = [] })
