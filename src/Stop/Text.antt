-- ===== src/Stop/Text.antt =====
-- Searching in texts that grow: the facts on `starts_with` and `find` behind src/server/stop.rs.
use mathlib.Core.Bool.{false≢true}
use inferq.Prelude.{
  ℕ, zero, suc, ◌+◌, ◌≤◌, ◌<◌, ◌≡◌, refl, true, false, none, some, [], ◌∷◌, ◌++◌, arith, length,
  take, drop, get_elem?, ◌==◌, Bool-cases, inl, inr,
}
use mathlib.Core.Option
use inferq.Stop.{Bytes, is_continuation, is_char_boundary, starts_with, find}

-- A `str` begins with a byte that begins a character.
abbrev pub IsText : Bytes → Type 0
IsText [] = Unit
IsText (b ∷ s) = is_continuation b ≡ false

pub IsText-append : (s t : Bytes) → IsText s → IsText t → IsText (s ++ t)
IsText-append [] t hs ht = ht
IsText-append (b ∷ s) t hs ht = hs

-- A stop sequence: a text with at least one byte.
abbrev pub IsStop : Bytes → Type 0
IsStop s = (0 < length s) × IsText s

pub starts_with-append_short :
    (p s t : Bytes) → starts_with p (s ++ t) ≡ true → length p ≤ length s → starts_with p s ≡ true
unfolding starts_with
starts_with-append_short [] s t h le = refl
starts_with-append_short (x ∷ p) [] t h le = absurd (omega arith)
starts_with-append_short (x ∷ p) (y ∷ s) t h le = ground (arith, starts_with-append_short p s t)

pub starts_with-length : (p s : Bytes) → starts_with p s ≡ true → length p ≤ length s
unfolding starts_with
starts_with-length [] s h = omega arith
starts_with-length (x ∷ p) [] h = cc
starts_with-length (x ∷ p) (y ∷ s) h = ground (arith, starts_with-length p s)

-- A pattern that runs past the end of `s` into a text splits at a character boundary.
pub starts_with-overlap :
    (p s t : Bytes)
    → starts_with p (s ++ t) ≡ true
    → length s < length p
    → IsText t
    → (starts_with (take (length s) p) s ≡ true)
      × ((b : ℕ) × (get_elem? p (length s) ≡ some b) × (is_continuation b ≡ false))
unfolding starts_with
starts_with-overlap [] s t h lt text = absurd (omega arith)
starts_with-overlap (x ∷ p) [] [] h lt text = cc
starts_with-overlap (x ∷ p) [] (y ∷ t) h lt text = (refl, (x, refl, ground arith))
starts_with-overlap (x ∷ p) (y ∷ s) t h lt text = elim (Bool-cases (x == y)) [
  | inl same ↦ rw same (starts_with-overlap p s t (rw same at h) (omega arith) text)
  | inr other ↦ absurd (false≢true (rw other at h))
]

pub starts_with-head :
    (x : ℕ) (p s : Bytes) (i : ℕ) → starts_with (x ∷ p) (drop i s) ≡ true → get_elem? s i ≡ some x
unfolding starts_with
starts_with-head x p [] zero h = cc
starts_with-head x p [] (suc i) h = cc
starts_with-head x p (b ∷ s) zero h = ground arith
starts_with-head x p (b ∷ s) (suc i) h = starts_with-head x p s i h

-- Where a stop sequence begins there is a character boundary.
pub starts_with-boundary :
    (p s : Bytes) (i : ℕ) → IsStop p → starts_with p (drop i s) ≡ true → is_char_boundary s i ≡ true
unfolding is_char_boundary
starts_with-boundary [] s i (some_byte, text) h = absurd (omega arith)
starts_with-boundary (x ∷ p) s i (some_byte, text) h =
    rw (starts_with-head x p s i h, is_char_boundary) (ground arith)

module _ (p : Bytes) where
  pub find-starts_with : (s : Bytes) (i : ℕ) → find p s ≡ some i → starts_with p (drop i s) ≡ true
  unfolding find
  find-starts_with [] zero h = ground arith
  find-starts_with [] (suc i) h = ground arith
  find-starts_with (c ∷ s) zero h = ground arith
  find-starts_with (c ∷ s) (suc i) h = find-starts_with s i (ground arith)

  pub find-none : (s : Bytes) (i : ℕ) → find p s ≡ none → starts_with p (drop i s) ≡ false
  unfolding find
  find-none [] zero h = ground arith
  find-none [] (suc i) h = ground arith
  find-none (c ∷ s) zero h = ground arith
  find-none (c ∷ s) (suc i) h = find-none s i (ground arith)

  -- Where the pattern does not begin in the first part, it is found in the second.
  pub find-append :
      (e g : Bytes)
      → ((i : ℕ) → i < length e → starts_with p (drop i (e ++ g)) ≡ false)
      → find p (e ++ g) ≡ Option.map (λ k. length e + k) (find p g)
  unfolding find
  find-append [] g h = ground arith
  find-append (c ∷ e) g h =
      let rest = find-append e g (λ i lt. h (suc i) (omega arith)) in
      rw (h 0 (omega arith), rest) (ground arith)
