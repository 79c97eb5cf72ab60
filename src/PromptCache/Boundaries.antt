-- ===== src/PromptCache/Boundaries.antt =====
-- The boundaries of src/prompt_cache/mod.rs: what `boundaries` lists, and which of them
-- `store_boundary` picks.
use mathlib.Core.Option
use mathlib.Core.Option.{none-ne-some}
use inferq.Prelude.{
  ℕ, zero, suc, ◌-◌, ◌*◌, ◌/◌, ◌≤◌, ◌<◌, ◌≡◌, refl, sym, ◌∙◌, max, Bool, true, false, ◌&&◌, Option,
  none, some, List, [], ◌∷◌, arith, ltb, leb, ◌==◌, Bool-cases, inl, inr,
}
use native.Mathlib.Nat.{suc-mul, mul-div_cancel, mul-le-mul_right, le-div_iff_mul-le}
use inferq.Ngram.Recent.{latest, latest-lt}
use inferq.PromptCache.{
  steps_down, filter, find, highest_boundary, boundaries, store_ceiling, store_boundary,
}

find-filter : (p q : ℕ → Bool) (ns : List ℕ) → find p (filter q ns) ≡ find (λ n. q n && p n) ns
unfolding find filter
find-filter p q [] = refl
find-filter p q (n ∷ ns) = elim (Bool-cases (q n)) [
  | inl e ↦ simp (e, find-filter p q ns)
  | inr e ↦ simp (e, find-filter p q ns)
]

-- The search from the top over the multiples of the block.
find-steps_down :
    (p : ℕ → Bool) (block k : ℕ)
    → find p (steps_down block k (k * block))
      ≡ Option.map (λ j. j * block) (latest (λ j. p (j * block)) (suc k))
unfolding find steps_down latest
find-steps_down p block zero = elim (Bool-cases (p (0 * block))) [ inl e ↦ simp e | inr e ↦ simp e ]
find-steps_down p block (suc k) =
    let less : suc k * block - block ≡ k * block = rw (suc-mul k block) (omega arith) in
    elim (Bool-cases (p (suc k * block))) [
      | inl e ↦ simp e
      | inr e ↦ rw (e, less) (find-steps_down p block k)
    ]

unfoldable pub usable : ℕ → ℕ → ℕ → ℕ → Bool
usable reused ceiling least boundary =
    (leb least boundary && ltb 0 boundary) && (leb boundary ceiling && ltb reused boundary)

store_boundary-eq-latest :
    (len reused : ℕ) (stable : Option ℕ) (block least : ℕ)
    → 0 < block
    → store_boundary len reused stable block least
      ≡ Option.map
          (λ j. j * block)
          (latest
            (λ j. usable reused (store_ceiling len stable) least (j * block))
            (suc ((len - 1) / block)))
unfolding store_boundary boundaries highest_boundary usable
store_boundary-eq-latest len reused stable block least pos =
    let some_block : (block == 0) ≡ false = ground arith in
    let step : max block 1 ≡ block = omega arith in
    let rounds : (len - 1) / block * block / block ≡ (len - 1) / block =
      mul-div_cancel ((len - 1) / block) pos in
    rw
      (
        some_block,
        step,
        rounds,
        find-filter (λ boundary. ltb reused boundary)
            (λ boundary. leb boundary (store_ceiling len stable))
            (filter (λ boundary. leb least boundary && ltb 0 boundary)
              (steps_down block ((len - 1) / block) ((len - 1) / block * block))),
        find-filter (λ boundary. leb boundary (store_ceiling len stable) && ltb reused boundary)
            (λ boundary. leb least boundary && ltb 0 boundary)
            (steps_down block ((len - 1) / block) ((len - 1) / block * block)),
      )
      (find-steps_down (usable reused (store_ceiling len stable) least) block ((len - 1) / block))

-- No number that passes the test is above the latest one.
latest_bounds :
    (p : ℕ → Bool) (k e : ℕ) → e < k → p e ≡ true → (m : ℕ) × (latest p k ≡ some m) × (e ≤ m)
unfolding latest
latest_bounds p zero e lt h = absurd (omega arith)
latest_bounds p (suc k) e lt h = elim (Bool-cases (p k)) [
  | inl last ↦ (k, simp last, omega arith)
  | inr skip ↦ elim (Bool-cases (e == k)) [
    | inl same ↦ let is : e ≡ k = ground arith in absurd (ground arith)
    | inr other ↦ rw skip (latest_bounds p k e (ground arith) h)
  ]
]

-- A boundary that an entry of the request can be stored at.
pub record IsStorable (len reused ceiling block least boundary : ℕ) : Type 0 where
  pub multiple : (j : ℕ) × (boundary ≡ j * block)
  pub long_enough : least ≤ boundary
  pub below : boundary < len
  pub stable_part : boundary ≤ ceiling
  pub beyond : reused < boundary

-- The greatest number with a property, or none where none has it.
abbrev pub IsGreatest : (ℕ → Type 0) → Option ℕ → Type 0
IsGreatest P none = (n : ℕ) → ¬ P n
IsGreatest P (some m) = P m × ((n : ℕ) → P n → n ≤ m)

usable-IsStorable :
    (len reused ceiling block least j : ℕ)
    → 0 < block
    → j < suc ((len - 1) / block)
    → usable reused ceiling least (j * block) ≡ true
    → IsStorable len reused ceiling block least (j * block)
unfolding usable
usable-IsStorable len reused ceiling block least j pos lt h =
    let inside : j * block ≤ len - 1 = (le-div_iff_mul-le pos).0 (omega arith) in
    record {
      multiple = (j, refl);
      long_enough = ground arith;
      below = ground arith;
      stable_part = ground arith;
      beyond = ground arith;
    }

IsStorable-usable :
    (len reused ceiling block least j : ℕ)
    → 0 < block
    → IsStorable len reused ceiling block least (j * block)
    → (j < suc ((len - 1) / block)) × (usable reused ceiling least (j * block) ≡ true)
unfolding usable
IsStorable-usable len reused ceiling block least j pos h =
    let inside : j ≤ (len - 1) / block = (le-div_iff_mul-le pos).1 (omega (arith, h.below)) in
    (omega arith, ground (arith, h.long_enough, h.stable_part, h.beyond))

latest-IsGreatest :
    (len reused ceiling block least : ℕ)
    → 0 < block
    → (best : Option ℕ)
    → latest (λ j. usable reused ceiling least (j * block)) (suc ((len - 1) / block)) ≡ best
    → IsGreatest (IsStorable len reused ceiling block least) (Option.map (λ j. j * block) best)
latest-IsGreatest len reused ceiling block least pos none e = λ n h.
    let (j, is) = h.multiple in
    let (lt, good) = IsStorable-usable len reused ceiling block least j pos (rw is at h) in
    let (m, found, _) =
      latest_bounds (λ j. usable reused ceiling least (j * block)) (suc ((len - 1) / block)) j lt
        good in
    none-ne-some m (sym e ∙ found)
latest-IsGreatest len reused ceiling block least pos (some best) e =
    let p : ℕ → Bool = λ j. usable reused ceiling least (j * block) in
    let (lt, good) = latest-lt p (suc ((len - 1) / block)) best e in
    (
      usable-IsStorable len reused ceiling block least best pos lt good,
      λ n h.
          let (j, is) = h.multiple in
          let (below, also) = IsStorable-usable len reused ceiling block least j pos (rw is at h) in
          let (m, found, le) = latest_bounds p (suc ((len - 1) / block)) j below also in
          let same : m ≡ best = let both : some m ≡ some best = sym found ∙ e in cc in
          rw is (mul-le-mul_right block (rw same at le)),
    )

-- The boundary that a request leaves an entry at is the greatest multiple of the block that is
-- shorter than the prompt, at least the shortest prefix worth an entry, inside the part that is
-- expected to recur, and beyond what was reused; there is none only where no multiple is all of
-- that. The block has at least one token.
pub store_boundary-IsGreatest :
    (len reused : ℕ) (stable : Option ℕ) (block least : ℕ)
    → 0 < block
    → IsGreatest
        (IsStorable len reused (store_ceiling len stable) block least)
        (store_boundary len reused stable block least)
store_boundary-IsGreatest len reused stable block least pos =
    rw (store_boundary-eq-latest len reused stable block least pos)
      (latest-IsGreatest len reused (store_ceiling len stable) block least pos _ refl)
