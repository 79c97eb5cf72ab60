-- ===== src/Server/RequestOptions/Bounds.antt =====
-- What `resolve_options` promises of the options it gives, and which requests it refuses.
use inferq.Prelude.{
  ℕ, ◌≡◌, refl, Bool, true, false, Option, none, some, ltb, if◌then◌else◌, inl, inr, Bool-cases,
}
use inferq.Speculative.Floats.{FloatOps}
use inferq.Server.Thinking.{ThinkingPlan, or_else}
use inferq.Server.RequestOptions.{
  OptionError, Checked, ◌>>=◌, ensure, SingleOps, ServedOptions, SamplingRequest,
  requested_max_new_tokens, set_max_new_tokens, cap_max_new_tokens, is_temperature, set_temperature,
  is_top_p, set_top_p, set_top_k, is_min_p, set_min_p, resolve_options,
}

abbrev pub OkAll {ℓ} : {A : Type ℓ} → (A → Type 0) → Checked A → Type 0
OkAll P (Checked.ok a) = P a
OkAll P (Checked.err e) = Unit

abbrev pub error_of {ℓ} : {A : Type ℓ} → Checked A → Option OptionError
error_of (Checked.ok a) = none
error_of (Checked.err e) = some e

pub bind-OkAll {ℓ κ} :
    {A : Type ℓ} {B : Type κ} (P : A → Type 0) (Q : B → Type 0) (r : Checked A) (k : A → Checked B)
    → OkAll P r
    → ((a : A) → P a → OkAll Q (k a))
    → OkAll Q (r >>= k)
bind-OkAll P Q (Checked.ok a) k h next = next a h
bind-OkAll P Q (Checked.err e) k h next = tt

error_of-bind {ℓ κ} :
    {A : Type ℓ} {B : Type κ} (r : Checked A) (k : A → Checked B) {first rest : Option OptionError}
    → error_of r ≡ first
    → ((a : A) → error_of (k a) ≡ rest)
    → error_of (r >>= k) ≡ or_else first rest
unfolding or_else
error_of-bind (Checked.ok a) k e next = rw (← e) (next a)
error_of-bind (Checked.err x) k e next = rw (← e) refl

pub ensure-OkAll {ℓ} :
    {A : Type ℓ} (P : A → Type 0) (test : Bool) (error : OptionError) {a : A}
    → (test ≡ true → P a)
    → OkAll P (ensure test error a)
ensure-OkAll P true error h = h refl
ensure-OkAll P false error h = tt

-- A given field that fails its test.
unfoldable pub violation {ℓ} :
    {A : Type ℓ} → (A → Bool) → OptionError → Option A → Option OptionError
violation test error none = none
violation test error (some a) = if test a then none else some error

module _ (F : FloatOps) (S : SingleOps) where
  open S use {Single, zero_f32, one_f32, is_finite, lt, le}

  -- The first field of a request, in the order of the source, that is given and out of its range.
  unfoldable pub first_violation : SamplingRequest F S → Option OptionError
  first_violation request =
      or_else (violation (ltb 0) OptionError.no_tokens (requested_max_new_tokens F S request)) (
        or_else (violation (is_temperature F S) OptionError.bad_temperature request.temperature) (
          or_else (violation (is_top_p F S) OptionError.bad_top_p request.top_p) (
            or_else (violation (ltb 0) OptionError.no_top_k request.top_k)
              (or_else (violation (is_min_p F S) OptionError.bad_min_p request.min_p) none))))

  error_of-ensure :
      {A B : Type 0} (test : A → Bool) (error : OptionError) (a : A) (b : B)
      → error_of (ensure (test a) error b) ≡ violation test error (some a)
  unfolding violation
  error_of-ensure test error a b = elim (Bool-cases (test a)) [
    | inl valid ↦ simp valid
    | inr invalid ↦ simp invalid
  ]

  error_of-set_max_new_tokens :
      (asked : Option ℕ) (o : ServedOptions F S)
      → error_of (set_max_new_tokens F S asked o) ≡ violation (ltb 0) OptionError.no_tokens asked
  unfolding set_max_new_tokens violation
  error_of-set_max_new_tokens none o = refl
  error_of-set_max_new_tokens (some a) o = error_of-ensure (ltb 0) OptionError.no_tokens a _

  error_of-set_temperature :
      (asked : Option Single) (o : ServedOptions F S)
      → error_of (set_temperature F S asked o)
        ≡ violation (is_temperature F S) OptionError.bad_temperature asked
  unfolding set_temperature violation
  error_of-set_temperature none o = refl
  error_of-set_temperature (some a) o =
      error_of-ensure (is_temperature F S) OptionError.bad_temperature a _

  error_of-set_top_p :
      (asked : Option Single) (o : ServedOptions F S)
      → error_of (set_top_p F S asked o) ≡ violation (is_top_p F S) OptionError.bad_top_p asked
  unfolding set_top_p violation
  error_of-set_top_p none o = refl
  error_of-set_top_p (some a) o = error_of-ensure (is_top_p F S) OptionError.bad_top_p a _

  error_of-set_top_k :
      (asked : Option ℕ) (o : ServedOptions F S)
      → error_of (set_top_k F S asked o) ≡ violation (ltb 0) OptionError.no_top_k asked
  unfolding set_top_k violation
  error_of-set_top_k none o = refl
  error_of-set_top_k (some a) o = error_of-ensure (ltb 0) OptionError.no_top_k a _

  error_of-set_min_p :
      (asked : Option Single) (o : ServedOptions F S)
      → error_of (set_min_p F S asked o) ≡ violation (is_min_p F S) OptionError.bad_min_p asked
  unfolding set_min_p violation
  error_of-set_min_p none o = refl
  error_of-set_min_p (some a) o = error_of-ensure (is_min_p F S) OptionError.bad_min_p a _

  -- Whatever the defaults and the plan, `resolve_options` refuses a request exactly where a field
  -- that it gives is out of range, and the error is that of the first such field.
  pub resolve_options-refuses :
      (defaults : ServedOptions F S) (request : SamplingRequest F S) (thinking : ThinkingPlan)
      → error_of (resolve_options F S defaults request thinking) ≡ first_violation request
  unfolding resolve_options first_violation
  resolve_options-refuses defaults request thinking =
      error_of-bind (set_max_new_tokens F S (requested_max_new_tokens F S request) defaults) _
        (error_of-set_max_new_tokens (requested_max_new_tokens F S request) defaults)
        (λ sized.
          error_of-bind (set_temperature F S request.temperature (cap_max_new_tokens F S sized)) _
            (error_of-set_temperature request.temperature (cap_max_new_tokens F S sized))
            (λ heated.
              error_of-bind (set_top_p F S request.top_p heated) _
                (error_of-set_top_p request.top_p heated)
                (λ nucleus.
                  error_of-bind (set_top_k F S request.top_k nucleus) _
                    (error_of-set_top_k request.top_k nucleus)
                    (λ top.
                      error_of-bind (set_min_p F S request.min_p top) _
                        (error_of-set_min_p request.min_p top) (λ tailed. refl)))))
