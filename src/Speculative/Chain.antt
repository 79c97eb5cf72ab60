-- ===== src/Speculative/Chain.antt =====
-- A span that `chain_span` of src/speculative.rs chains, on the tokens it was copied from.
use native.Mathlib.Numerals.{add-one}
use inferq.Prelude.{
  ℕ, zero, suc, ◌+◌, ◌-◌, ◌<◌, ◌≡◌, refl, ap, ◌∙◌, Bool, true, Option, none, some, List, [], ◌∷◌,
  ◌++◌, arith, length, take, drop, get_elem?, get_elem?-drop, Bool-cases, inl, inr,
}
use inferq.Ngram.{Token, NgramDraft}
use inferq.Ngram.Cut.{IsContinuation}
use inferq.Speculative.Span.{SpanCursor, after, follows, next_links, chain_span}

take-next :
    (n : ℕ) (tokens : List Token) (token : Token)
    → get_elem? tokens n ≡ some token
    → take (suc n) tokens ≡ take n tokens ++ token ∷ []
take-next n [] token h = cc
take-next zero (t ∷ tokens) token h = let same : t ≡ token = cc in ap (λ r. r ∷ []) same
take-next (suc n) (t ∷ tokens) token h = ap (λ r. t ∷ r) (take-next n tokens token h)

follows-eq : (follow : Option ℕ) (token : ℕ) → follows follow token ≡ true → follow ≡ some token
unfolding follows
follows-eq none token h = cc
follows-eq (some t) token h = ground arith

chain_span-inv :
    (previous : Option SpanCursor) (source_position proposed accepted match_len : ℕ)
    (follow : Option ℕ) (authoritative : ℕ) (c : SpanCursor)
    → chain_span previous source_position proposed accepted match_len follow authoritative ≡ some c
    → (0 < proposed)
      × (accepted ≡ proposed)
      × (follow ≡ some authoritative)
      × (c ≡ after source_position (proposed + 1) match_len (next_links previous))
unfolding chain_span
chain_span-inv previous source_position proposed accepted match_len follow authoritative c h =
    elim (Bool-cases (follows follow authoritative)) [
      | inl same ↦ let is = follows-eq follow authoritative same in ground arith
      | inr other ↦ ground arith
    ]

-- A span is chained after a proposal `d` of the indexed tokens only if every token of it was
-- accepted, and then the tokens from behind `d`'s source position up to the cursor are the ones
-- the pass committed: the proposal, and the token that the target chose after it. The cursor
-- keeps the key length, with one more link than the one before, or one.
pub chain_span-committed :
    (tokens : List Token) (draft_len : ℕ) (is_stop : Token → Bool) (d : NgramDraft)
    (previous : Option SpanCursor) (accepted : ℕ) (authoritative : Token) (c : SpanCursor)
    → IsContinuation tokens draft_len is_stop d
    → chain_span previous d.source_position
        (length d.tokens)
        accepted
        d.match_len
        (get_elem? tokens (d.source_position + 1 + length d.tokens))
        authoritative
      ≡ some c
    → (accepted ≡ length d.tokens)
      × (take (c.next - (d.source_position + 1)) (drop (d.source_position + 1) tokens)
          ≡ d.tokens ++ authoritative ∷ [])
      × (c.match_len ≡ d.match_len)
      × (c.links ≡ next_links previous)
unfolding after
chain_span-committed tokens draft_len is_stop d previous accepted authoritative c good h =
    let follow = get_elem? tokens (d.source_position + 1 + length d.tokens) in
    let (pos, all, there, is) =
      chain_span-inv previous d.source_position (length d.tokens) accepted d.match_len follow
        authoritative c h in
    let size : d.source_position + 1 + (length d.tokens + 1) - (d.source_position + 1)
        ≡ length d.tokens + 1 =
      omega arith in
    let next =
      take-next (length d.tokens) (drop (d.source_position + 1) tokens) authoritative
        (get_elem?-drop (d.source_position + 1) (length d.tokens) tokens ∙ there) in
    (
      all,
      rw (is, size, add-one) (next ∙ ap (λ r. r ++ authoritative ∷ []) good.copied),
      rw is refl,
      rw is refl,
    )
