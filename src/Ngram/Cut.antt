-- ===== src/Ngram/Cut.antt =====
-- What a proposal of src/ngram.rs is: a copy of the tokens behind its source position, cut at the
-- first stop token.
use inferq.Prelude.{
  ℕ, ◌+◌, ◌-◌, ◌≤◌, ◌<◌, ◌≡◌, refl, sym, ap, ◌∙◌, Bool, true, false, some, List, [], ◌∷◌, arith,
  length, take, drop, if◌then◌else◌, Bool-cases, get_elem?, inl, inr, All, length-take, take-take,
  get_elem?-take, get_elem?-drop,
}
use inferq.Ngram.{Token, NgramDraft, slice, stop_position, before_stop, propose, is_some}

-- `d` is a proposal of at most `draft_len` tokens: it repeats the tokens that follow its source
-- position, none of them a stop token, and says whether a stop token comes next.
pub record IsContinuation (tokens : List Token) (draft_len : ℕ) (is_stop : Token → Bool)
    (d : NgramDraft) : Type 0 where
  pub nonempty : 0 < length d.tokens
  pub bounded : length d.tokens ≤ draft_len
  pub inside : d.source_position + 1 + length d.tokens ≤ length tokens
  pub copied : take (length d.tokens) (drop (d.source_position + 1) tokens) ≡ d.tokens
  pub no_stop : All (λ t. is_stop t ≡ false) d.tokens
  pub stopped :
      d.truncated_at_stop ≡ true
      → (t : Token) × (get_elem? tokens (d.source_position + 1 + length d.tokens) ≡ some t)
        × (is_stop t ≡ true)

-- The cut at the first stop token, by recursion on the tokens.
before_stop-cons :
    (is_stop : Token → Bool) (t : Token) (ts : List Token)
    → before_stop (stop_position is_stop (t ∷ ts)) (t ∷ ts)
      ≡ (if is_stop t then [] else t ∷ before_stop (stop_position is_stop ts) ts)
unfolding before_stop stop_position
before_stop-cons is_stop t ts = ground arith

before_stop_prefix :
    (is_stop : Token → Bool) (ts : List Token)
    → (length (before_stop (stop_position is_stop ts) ts) ≤ length ts)
      × (take (length (before_stop (stop_position is_stop ts) ts)) ts
          ≡ before_stop (stop_position is_stop ts) ts)
      × All (λ t. is_stop t ≡ false) (before_stop (stop_position is_stop ts) ts)
before_stop_prefix is_stop [] = unfold before_stop stop_position in (omega arith, refl, tt)
before_stop_prefix is_stop (t ∷ ts) =
    let (shorter, cut, clean) = before_stop_prefix is_stop ts in
    elim (Bool-cases (is_stop t)) [
      | inl stop ↦ rw (before_stop-cons is_stop t ts, stop) (omega arith, refl, tt)
      | inr go ↦
          rw (before_stop-cons is_stop t ts, go) (omega arith, ap (λ r. t ∷ r) cut, (go, clean))
    ]

-- What stands behind the cut, if a stop token made it.
stop_after_cut :
    (is_stop : Token → Bool) (ts : List Token)
    → is_some (stop_position is_stop ts) ≡ true
    → (t : Token) × (get_elem? ts (length (before_stop (stop_position is_stop ts) ts)) ≡ some t)
      × (is_stop t ≡ true)
stop_after_cut is_stop [] h = unfold stop_position is_some in cc
stop_after_cut is_stop (t ∷ ts) h = elim (Bool-cases (is_stop t)) [
  | inl stop ↦ rw (before_stop-cons is_stop t ts, stop) (t, refl, stop)
  | inr go ↦
      rw (before_stop-cons is_stop t ts, go)
        (stop_after_cut is_stop ts (unfold stop_position is_some in ground arith))
]

propose_fields :
    (is_stop : Token → Bool) (candidate : List Token) (match_len source : ℕ) (d : NgramDraft)
    → propose is_stop candidate match_len source ≡ some d
    → (0 < length d.tokens)
      × (d.tokens ≡ before_stop (stop_position is_stop candidate) candidate)
      × (d.match_len ≡ match_len)
      × (d.source_position ≡ source)
      × (d.truncated_at_stop ≡ is_some (stop_position is_stop candidate))
unfolding propose
propose_fields is_stop candidate match_len source d h = ground arith

module _ (tokens : List Token) (draft_len source : ℕ) (is_stop : Token → Bool) where
  abbrev stop_here : ℕ → ℕ
  stop_here end = end - (source + 1)

  abbrev cut_of : ℕ → List Token
  cut_of end =
      before_stop (stop_position is_stop (slice (source + 1) end tokens))
        (slice (source + 1) end tokens)

  cut_copied :
      (end : ℕ)
      → end ≤ length tokens
      → (length (cut_of end) ≤ end - (source + 1))
        × (take (length (cut_of end)) (drop (source + 1) tokens) ≡ cut_of end)
  cut_copied end h =
      let (shorter, cut, _) = before_stop_prefix is_stop (slice (source + 1) end tokens) in
      let fits : length (slice (source + 1) end tokens) ≤ end - (source + 1) =
        omega (arith, length-take (end - (source + 1)) (drop (source + 1) tokens)) in
      (
        omega arith,
        rw
            (take-take (length (cut_of end)) (end - (source + 1)) (drop (source + 1) tokens)
              (omega arith))
            at cut,
      )

  stop_follows :
      (end : ℕ)
      → is_some (stop_position is_stop (slice (source + 1) end tokens)) ≡ true
      → (t : Token) × (get_elem? tokens (source + 1 + length (cut_of end)) ≡ some t)
        × (is_stop t ≡ true)
  stop_follows end h =
      let (t, there, stop) = stop_after_cut is_stop (slice (source + 1) end tokens) h in
      (
        t,
        sym (get_elem?-drop (source + 1) (length (cut_of end)) tokens)
            ∙ get_elem?-take (end - (source + 1)) (length (cut_of end)) (drop (source + 1) tokens) t
                there,
        stop,
      )

  pub propose_inv :
      (end match_len : ℕ) (d : NgramDraft)
      → source + 1 < end
      → end ≤ length tokens
      → end ≤ source + 1 + draft_len
      → propose is_stop (slice (source + 1) end tokens) match_len source ≡ some d
      → IsContinuation tokens draft_len is_stop d
        × (d.match_len ≡ match_len)
        × (d.source_position ≡ source)
  propose_inv end match_len d lt le short h =
      let (some_token, cut, len, src, flag) =
        propose_fields is_stop (slice (source + 1) end tokens) match_len source d h in
      let (bound, copied) = cut_copied end le in
      let (_, _, clean) = before_stop_prefix is_stop (slice (source + 1) end tokens) in
      let bound' : length d.tokens ≤ end - (source + 1) = rw cut bound in
      (
        record {
          nonempty = some_token;
          bounded = omega arith;
          inside = omega arith;
          copied = rw (src, cut) copied;
          no_stop = rw cut clean;
          stopped = λ e. rw (src, cut) (stop_follows end (sym flag ∙ e));
        },
        len,
        src,
      )
