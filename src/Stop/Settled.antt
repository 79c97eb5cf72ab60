-- ===== src/Stop/Settled.antt =====
-- What src/server/stop.rs may release: text in which no stop sequence can begin any more, whatever
-- is decoded later.
use mathlib.Core.Bool.{false≢true}
use mathlib.Core.Option
use mathlib.Core.Path.{subst}
use inferq.Prelude.{
  ℕ, zero, suc, ◌+◌, ◌-◌, ◌≤◌, ◌<◌, ◌≡◌, refl, sym, ap, ◌∙◌, true, false, Option, none, some, List,
  [], ◌∷◌, ◌++◌, arith, length, take, drop, get_elem?, All, Any, ltb, leb, Bool-cases, inl, inr,
  ◌⊎◌, min, drop-append_le, length-drop, length-take, append_assoc,
}
use inferq.Stop.{
  Bytes, is_continuation, is_char_boundary, starts_with, ends_with, find, min_option, earliest,
  longest_partial_from,
}
use inferq.Stop.Text.{
  IsText, IsText-append, IsStop, starts_with-append_short, starts_with-overlap,
  starts_with-boundary, find-none, find-starts_with, find-append,
}
use inferq.Stop.Hold.{Pending, longest_partial_from-longest}

-- After `e` was released and `h` is held, the stop begins nowhere in `e`, whatever text follows.
abbrev pub Settled : Bytes → Bytes → Bytes → Type 0
Settled e h stop =
    (i : ℕ) (c : Bytes)
    → i < length e
    → IsText c
    → starts_with stop (drop i ((e ++ h) ++ c)) ≡ false

drop-append_ge :
    (i : ℕ) (xs ys : Bytes) → length xs ≤ i → drop i (xs ++ ys) ≡ drop (i - length xs) ys
drop-append_ge i [] ys h = ap (λ k. drop k ys) (omega arith)
drop-append_ge zero (x ∷ xs) ys h = absurd (omega arith)
drop-append_ge (suc i) (x ∷ xs) ys h =
    drop-append_ge i xs ys (omega arith) ∙ ap (λ k. drop k ys) (omega arith)

boundary_at :
    (s : Bytes) (i b : ℕ)
    → get_elem? s i ≡ some b
    → is_continuation b ≡ false
    → is_char_boundary s i ≡ true
unfolding is_char_boundary
boundary_at s i b there ok = rw (there, is_char_boundary) (ground arith)

ends_with-tail :
    (p s : Bytes) (j : ℕ)
    → length p + j ≡ length s
    → starts_with p (drop j s) ≡ true
    → ends_with p s ≡ true
unfolding ends_with
ends_with-tail p s j size h =
    let at_tail : j ≡ length s - length p = omega arith in
    let begins : starts_with p (drop (length s - length p) s) ≡ true = rw at_tail at h in
    ground arith

-- A stop that runs past the end of the buffer leaves a partial stop there.
overlap-Pending :
    (stop g c : Bytes) (j : ℕ)
    → j < length g
    → IsText c
    → length g - j < length stop
    → starts_with stop (drop j g ++ c) ≡ true
    → Pending g (length g - j) stop
overlap-Pending stop g c j lt text long h =
    let size : length (drop j g) ≡ length g - j = length-drop j g in
    let (begins, (b, there, ok)) = starts_with-overlap stop (drop j g) c h (omega arith) text in
    let cut : ends_with (take (length g - j) stop) g ≡ true =
      ends_with-tail (take (length g - j) stop) g j (omega (arith, length-take (length g - j) stop))
        (rw size at begins) in
    let edge : is_char_boundary stop (length g - j) ≡ true =
      boundary_at stop (length g - j) b (rw size at there) ok in
    (long, omega arith, ground arith)

-- No stop begins in the buffer before the part that is held back.
begins_nowhere :
    (stop g c : Bytes) (hold j : ℕ)
    → ((len : ℕ) → Pending g len stop → len ≤ hold)
    → find stop g ≡ none
    → j + hold < length g
    → IsText c
    → starts_with stop (drop j (g ++ c)) ≡ false
begins_nowhere stop g c hold j bound missing lt text =
    rw (drop-append_le j g c (omega arith)) (elim (Bool-cases (starts_with stop (drop j g ++ c))) [
      | inr no_match ↦ no_match
      | inl begins ↦ elim (Bool-cases (ltb (length g - j) (length stop))) [
        | inl long ↦ absurd (
            omega (
              arith,
              bound (length g - j)
                  (overlap-Pending stop g c j (omega arith) text (ground arith) begins),
            ))
        | inr fits ↦ absurd (
            false≢true (
              sym (find-none stop g j missing)
              ∙ starts_with-append_short stop (drop j g) c begins
                  (ground (arith, length-drop j g))))
      ]
    ])

-- One stop after one chunk: `e'` is what has been released in all, `g` the buffer that was searched.
Settled-grow :
    (stop e h chunk e' h' : Bytes) (hold : ℕ)
    → Settled e h stop
    → IsText chunk
    → ((len : ℕ) → Pending (h ++ chunk) len stop → len ≤ hold)
    → find stop (h ++ chunk) ≡ none
    → e' ++ h' ≡ e ++ (h ++ chunk)
    → length e' + hold ≤ length e + length (h ++ chunk)
    → Settled e' h' stop
Settled-grow stop e h chunk e' h' hold old text bound missing same size i c lt ctext =
    rw same (elim (Bool-cases (ltb i (length e))) [
      | inl before ↦
          subst (λ t. starts_with stop (drop i t) ≡ false) (regroup e h chunk c)
            (old i (chunk ++ c) (ground arith) (IsText-append chunk c text ctext))
      | inr after ↦
          rw (append_assoc e (h ++ chunk) c, drop-append_ge i e ((h ++ chunk) ++ c) (ground arith))
            (begins_nowhere stop (h ++ chunk) c hold (i - length e) bound missing (ground arith)
              ctext)
    ])
  where
    regroup : (a b c' d : Bytes) → (a ++ b) ++ (c' ++ d) ≡ (a ++ (b ++ c')) ++ d
    regroup a b c' d = simp append_assoc

All-Pending :
    (stops : List Bytes) (g : Bytes) (n : ℕ)
    → ((len : ℕ) → Any (Pending g len) stops → len ≤ n)
    → All (λ stop. (len : ℕ) → Pending g len stop → len ≤ n) stops
All-Pending [] g n h = tt
All-Pending (stop ∷ stops) g n h =
    (λ len p. h len (inl p), All-Pending stops g n (λ len p. h len (inr p)))

min_option-none : (a b : Option ℕ) → min_option a b ≡ none → (a ≡ none) × (b ≡ none)
unfolding min_option
min_option-none a b h = ground arith

-- When no stop is found in the grown buffer, all stay settled behind the part that is held back.
pub All-Settled :
    (stops : List Bytes) (e h chunk e' h' : Bytes) (hold : ℕ)
    → All (Settled e h) stops
    → IsText chunk
    → All (λ stop. (len : ℕ) → Pending (h ++ chunk) len stop → len ≤ hold) stops
    → earliest stops (h ++ chunk) ≡ none
    → e' ++ h' ≡ e ++ (h ++ chunk)
    → length e' + hold ≤ length e + length (h ++ chunk)
    → All (Settled e' h') stops
unfolding earliest
All-Settled [] e h chunk e' h' hold old text bound missing same size = tt
All-Settled (stop ∷ stops) e h chunk e' h' hold (old, olds) text (bound, bounds) missing same size =
    let (here, rest) =
      min_option-none (find stop (h ++ chunk)) (earliest stops (h ++ chunk)) missing in
    (
      Settled-grow stop e h chunk e' h' hold old text bound here same size,
      All-Settled stops e h chunk e' h' hold olds text bounds rest same size,
    )

pub longest-Pending :
    (stops : List Bytes) (g : Bytes)
    → All (λ stop. (len : ℕ) → Pending g len stop → len ≤ longest_partial_from stops g 0) stops
longest-Pending stops g =
    All-Pending stops g (longest_partial_from stops g 0)
      (λ len p. longest_partial_from-longest stops g 0 len p)

min_option-map :
    (n : ℕ) (a b : Option ℕ)
    → min_option (Option.map (λ k. n + k) a) (Option.map (λ k. n + k) b)
      ≡ Option.map (λ k. n + k) (min_option a b)
unfolding min_option
min_option-map n none b = refl
min_option-map n (some a) none = refl
min_option-map n (some a) (some b) = ap some (omega arith)

-- A search of all the text finds what a search of the buffer finds.
pub earliest-append :
    (stops : List Bytes) (e h chunk : Bytes)
    → All (Settled e h) stops
    → IsText chunk
    → earliest stops (e ++ (h ++ chunk))
      ≡ Option.map (λ k. length e + k) (earliest stops (h ++ chunk))
unfolding earliest
earliest-append [] e h chunk olds text = refl
earliest-append (stop ∷ stops) e h chunk (old, olds) text =
    rw
      (
        find-append stop e (h ++ chunk)
            (λ i lt. rw (← append_assoc e h chunk) (old i chunk lt text)),
        earliest-append stops e h chunk olds text,
      )
      (min_option-map (length e) (find stop (h ++ chunk)) (earliest stops (h ++ chunk)))

min_option-some : (a b : Option ℕ) (n : ℕ) → min_option a b ≡ some n → (a ≡ some n) ⊎ (b ≡ some n)
unfolding min_option
min_option-some none b n h = inr h
min_option-some (some a) none n h = inl h
min_option-some (some a) (some b) n h =
    let least : min a b ≡ n = ground arith in
    elim (Bool-cases (leb a b)) [
      | inl left ↦ let same : a ≡ n = ground arith in inl (ap some same)
      | inr right ↦ let same : b ≡ n = ground arith in inr (ap some same)
    ]

-- A stop is found at a character boundary.
pub earliest-boundary :
    (stops : List Bytes) (g : Bytes) (i : ℕ)
    → All IsStop stops
    → earliest stops g ≡ some i
    → is_char_boundary g i ≡ true
unfolding earliest
earliest-boundary [] g i h found = cc
earliest-boundary (stop ∷ stops) g i (is_stop, are_stops) found =
    elim (min_option-some (find stop g) (earliest stops g) i found) [
      | inl here ↦ starts_with-boundary stop g i is_stop (find-starts_with stop g i here)
      | inr later ↦ earliest-boundary stops g i are_stops later
    ]

pub Settled-start : (stops : List Bytes) → All (Settled [] []) stops
Settled-start [] = tt
Settled-start (stop ∷ stops) = (λ i c lt text. absurd (omega arith), Settled-start stops)
