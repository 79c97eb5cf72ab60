-- ===== src/Sampling/Argmax.antt =====
-- `argmax` of src/sampling.rs finds the last of the greatest finite values.
use mathlib.Core.Bool.{false≢true}
use mathlib.Core.Option.{none-ne-some}
use mathlib.Core.Path.{subst}
use inferq.Prelude.{
  ℕ, zero, suc, ◌+◌, ◌<◌, ◌≡◌, refl, sym, ◌∙◌, true, false, Option, none, some, List, [], ◌∷◌, ◌++◌,
  arith, length, length-append, get_elem?, get_elem?-append_left, get_elem?-append_last,
  get_elem?-none, if◌then◌else◌, Bool-cases, inl, inr, ◌⊎◌, append_assoc, append-nil, ltb,
}
use inferq.Sampling.{LogitOps, IsOrdered, argmax_from, argmax}

module _ (L : LogitOps) (o : IsOrdered L) where
  open L use {Logit, is_finite, greater}

  -- `v`, at place `m`, is finite, no finite value is greater, and it is greater than each finite
  -- value behind it.
  pub record IsLastMax (values : List Logit) (m : ℕ) (v : Logit) : Type 0 where
    pub there : get_elem? values m ≡ some v
    pub finite : is_finite v ≡ true
    pub maximal :
        (j : ℕ) (w : Logit) → get_elem? values j ≡ some w → is_finite w ≡ true → greater w v ≡ false
    pub last :
        (j : ℕ) (w : Logit)
        → get_elem? values j ≡ some w
        → is_finite w ≡ true
        → m < j
        → greater v w ≡ true

  abbrev pub NoneFinite : List Logit → Type 0
  NoneFinite values = (j : ℕ) (w : Logit) → get_elem? values j ≡ some w → is_finite w ≡ false

  -- What `best` is of the values that were seen.
  abbrev IsBest : List Logit → Option (ℕ × Logit) → Type 0
  IsBest seen none = NoneFinite seen
  IsBest seen (some (m, v)) = IsLastMax seen m v

  snoc_cases :
      (seen : List Logit) (x w : Logit) (j : ℕ)
      → get_elem? (seen ++ x ∷ []) j ≡ some w
      → ((j < length seen) × (get_elem? seen j ≡ some w)) ⊎ ((j ≡ length seen) × (x ≡ w))
  snoc_cases [] x w zero h = inr (refl, cc)
  snoc_cases [] x w (suc j) h = cc
  snoc_cases (y ∷ seen) x w zero h = inl (omega arith, h)
  snoc_cases (y ∷ seen) x w (suc j) h = elim (snoc_cases seen x w j h) [
    | inl (lt, there) ↦ inl (omega arith, there)
    | inr (at, same) ↦ inr (omega arith, same)
  ]

  irrefl : (x : Logit) → is_finite x ≡ true → greater x x ≡ false
  irrefl x f = elim (Bool-cases (greater x x)) [ inl g ↦ o.greater_asymm x x f f g | inr g ↦ g ]

  -- A finite value that no earlier one beats takes the lead.
  take_lead :
      (seen : List Logit) (x : Logit)
      → is_finite x ≡ true
      → ((j : ℕ) (w : Logit) → get_elem? seen j ≡ some w → is_finite w ≡ true → greater w x ≡ false)
      → IsLastMax (seen ++ x ∷ []) (length seen) x
  take_lead seen x f beats = record {
    there = get_elem?-append_last seen x;
    finite = f;
    maximal = λ j w there fw. elim (snoc_cases seen x w j there) [
      | inl (lt, before) ↦ beats j w before fw
      | inr (at, same) ↦ rw (← same) (irrefl x f)
    ];
    last = λ j w there fw lt. elim (snoc_cases seen x w j there) [
      | inl (lt', before) ↦ absurd (omega arith)
      | inr (at, same) ↦ absurd (omega arith)
    ];
  }

  keep_lead :
      (seen : List Logit) (x v : Logit) (m : ℕ)
      → IsLastMax seen m v
      → m < length seen
      → (is_finite x ≡ true → greater v x ≡ true)
      → IsLastMax (seen ++ x ∷ []) m v
  keep_lead seen x v m h inside wins = record {
    there = get_elem?-append_left seen (x ∷ []) m inside ∙ h.there;
    finite = h.finite;
    maximal = λ j w there fw. elim (snoc_cases seen x w j there) [
      | inl (lt, before) ↦ h.maximal j w before fw
      | inr (at, same) ↦ o.greater_asymm v w h.finite fw (rw same at (wins (rw same fw)))
    ];
    last = λ j w there fw lt. elim (snoc_cases seen x w j there) [
      | inl (_, before) ↦ h.last j w before fw lt
      | inr (at, same) ↦ rw same at (wins (rw same fw))
    ];
  }

  inside_seen :
      (seen : List Logit) (m : ℕ) (v : Logit) → get_elem? seen m ≡ some v → m < length seen
  inside_seen seen m v there = elim (Bool-cases (ltb m (length seen))) [
    | inl lt ↦ ground arith
    | inr ge ↦ absurd (none-ne-some v (sym (get_elem?-none seen m (ground arith)) ∙ there))
  ]

  beaten :
      (seen : List Logit) (x v : Logit) (m : ℕ)
      → IsLastMax seen m v
      → is_finite x ≡ true
      → greater v x ≡ false
      → (j : ℕ) (w : Logit) → get_elem? seen j ≡ some w
      → is_finite w ≡ true
      → greater w x ≡ false
  beaten seen x v m h fx loses j w there fw =
      o.not_greater_trans w v x fw h.finite fx (h.maximal j w there fw) loses

  abbrev step : ℕ → Option (ℕ × Logit) → Logit → Option (ℕ × Logit)
  step i best v =
      if is_finite v
      then elim best [
        | none ↦ some (i, v)
        | some (j, b) ↦ if greater b v then some (j, b) else some (i, v)
      ]
      else best

  step-IsBest :
      (seen : List Logit) (best : Option (ℕ × Logit)) (x : Logit)
      → IsBest seen best
      → IsBest (seen ++ x ∷ []) (step (length seen) best x)
  step-IsBest seen none x h = elim (Bool-cases (is_finite x)) [
    | inl f ↦
        rw f (take_lead seen x f (λ j w there fw. absurd (false≢true (sym (h j w there) ∙ fw))))
    | inr f ↦ rw f (λ j w there. elim (snoc_cases seen x w j there) [
      | inl (_, before) ↦ h j w before
      | inr (_, same) ↦ rw (← same) f
    ])
  ]
  step-IsBest seen (some (m, v)) x h = elim (Bool-cases (is_finite x)) [
    | inl f ↦ elim (Bool-cases (greater v x)) [
      | inl wins ↦ rw (f, wins) (keep_lead seen x v m h (inside_seen seen m v h.there) (λ _. wins))
      | inr loses ↦ rw (f, loses) (take_lead seen x f (beaten seen x v m h f loses))
    ]
    | inr f ↦ rw f (
        keep_lead seen x v m h (inside_seen seen m v h.there)
          (λ e. absurd (false≢true (sym f ∙ e))))
  ]

  argmax_from-IsBest :
      (values seen : List Logit) (i : ℕ) (best : Option (ℕ × Logit))
      → i ≡ length seen
      → IsBest seen best
      → IsBest (seen ++ values) (argmax_from L i best values)
  unfolding argmax_from
  argmax_from-IsBest [] seen i best at h = rw append-nil h
  argmax_from-IsBest (x ∷ values) seen i best at h = rw (← append_assoc seen (x ∷ []) values) (
      argmax_from-IsBest values (seen ++ x ∷ []) (i + 1) (step i best x)
        (omega (arith, length-append seen (x ∷ [])))
        (subst (λ k. IsBest (seen ++ x ∷ []) (step k best x)) (sym at) (step-IsBest seen best x h)))

  -- What the answer of `argmax` says of the logits.
  abbrev pub Answers : List Logit → Option ℕ → Type 0
  Answers values none = NoneFinite values
  Answers values (some m) = (v : Logit) × IsLastMax values m v

  best-Answers :
      (values : List Logit) (best : Option (ℕ × Logit))
      → IsBest values best
      → Answers values (elim best [ none ↦ none | some (i, v) ↦ some i ])
  best-Answers values none h = h
  best-Answers values (some (m, v)) h = (v, h)

  -- `argmax` fails exactly when no logit is finite, and otherwise answers the place of a finite
  -- logit that none is greater than, the last of those: it is greater than each finite one behind.
  -- The comparison orders the finite logits.
  pub argmax-Answers : (values : List Logit) → Answers values (argmax L values)
  unfolding argmax
  argmax-Answers values =
      best-Answers values (argmax_from L 0 none values)
        (argmax_from-IsBest values [] 0 none refl (λ j w h. absurd (none-ne-some w h)))
