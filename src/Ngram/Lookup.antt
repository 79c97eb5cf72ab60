-- ===== src/Ngram/Lookup.antt =====
-- `NgramIndex::most_recent_match` of src/ngram.rs against a search through the tokens.
use inferq.Prelude.{
  ℕ, zero, suc, ◌+◌, ◌-◌, ◌≤◌, ◌<◌, ◌≡◌, refl, Bool, true, ◌&&◌, none, some, List, arith, length,
  ltb, leb, if◌then◌else◌, Bool-cases, Option-cases, inl, inr,
}
use inferq.Ngram.{
  Token, TokenHasher, NgramIndex, window, tokens_eq, verify_candidate, most_recent_match,
  indexed_match_lengths,
}
use inferq.Ngram.Windows.{tokens_eq_iff}
use inferq.Ngram.Recent.{
  latest, latest_cong, latest-lt, ends_with_key, suffix, recent_by_hash, IsIndex, has_len,
  slot_last_match-eq-recent, slot_last_match-ne_indexed,
}

-- The suffix of `n` tokens occurs ending at `e`.
abbrev pub occurs : List Token → ℕ → ℕ → Bool
occurs tokens n e = leb n (e + 1) && tokens_eq (window n e tokens) (suffix n tokens)

latest-restrict :
    (p q : ℕ → Bool) (k e : ℕ)
    → ((i : ℕ) → q i ≡ true → p i ≡ true)
    → latest p k ≡ some e
    → q e ≡ true
    → latest q k ≡ some e
unfolding latest
latest-restrict p q zero e imp h hq = cc
latest-restrict p q (suc k) e imp h hq = elim (Bool-cases (p k)) [
  | inl now ↦ let same : k ≡ e = ground arith in rw (same, hq) refl
  | inr later ↦ ground (arith, imp k, latest-restrict p q k e imp (rw later at h) hq)
]

occurs-has_key :
    (hasher : TokenHasher) (tokens : List Token) (n i : ℕ)
    → occurs tokens n i ≡ true
    → ends_with_key hasher tokens n (hasher (suffix n tokens)) i ≡ true
occurs-has_key hasher tokens n i h =
    let same : window n i tokens ≡ suffix n tokens =
      (tokens_eq_iff (window n i tokens) (suffix n tokens)).0 (ground arith) in
    rw same (ground arith)

verify_candidate_inv :
    (tokens : List Token) (n c : ℕ) {p : ℕ}
    → verify_candidate tokens n c ≡ some p
    → (c ≡ p) × (n ≤ length tokens) × (occurs tokens n p ≡ true)
unfolding verify_candidate
verify_candidate_inv tokens n c h = ground arith

verify_candidate-occurs :
    (tokens : List Token) (n c : ℕ)
    → c < length tokens
    → occurs tokens n c ≡ true
    → verify_candidate tokens n c ≡ some c
unfolding verify_candidate
verify_candidate-occurs tokens n c lt h = ground arith

most_recent_match_indexed :
    (index : NgramIndex) (n p : ℕ)
    → IsIndex index
    → most_recent_match index n ≡ some p
    → (recent_by_hash index.hasher index.tokens n ≡ some p)
      × (verify_candidate index.tokens n p ≡ some p)
unfolding most_recent_match
most_recent_match_indexed index n p h found = elim (Bool-cases (has_len n indexed_match_lengths)) [
  | inl len ↦ ground (
    arith,
    slot_last_match-eq-recent index n h len,
    λ (c : ℕ). verify_candidate_inv index.tokens n c {p = p},
  )
  | inr other ↦ ground (arith, slot_last_match-ne_indexed index n h other)
]

-- Whatever the hash, a match that is reported is the last earlier occurrence of the suffix.
pub most_recent_match-IsLast :
    (index : NgramIndex) (n p : ℕ)
    → IsIndex index
    → most_recent_match index n ≡ some p
    → latest (occurs index.tokens n) (length index.tokens - 1) ≡ some p
unfolding recent_by_hash
most_recent_match-IsLast index n p h found =
    let (recent, verified) = most_recent_match_indexed index n p h found in
    let (_, long, here) = verify_candidate_inv index.tokens n p verified in
    latest-restrict
      (ends_with_key index.hasher index.tokens n (index.hasher (suffix n index.tokens)))
      (occurs index.tokens n) (length index.tokens - 1) p
      (occurs-has_key index.hasher index.tokens n) (ground arith) here

-- No window of `n` tokens has the hash of the suffix without being equal to it.
unfoldable pub CollisionFree : NgramIndex → ℕ → Type 0
CollisionFree index n =
    (e : ℕ)
    → e < length index.tokens
    → n ≤ e + 1
    → index.hasher (window n e index.tokens) ≡ index.hasher (suffix n index.tokens)
    → window n e index.tokens ≡ suffix n index.tokens

key-eq-occurs :
    (index : NgramIndex) (n e : ℕ)
    → CollisionFree index n
    → e < length index.tokens - 1
    → ends_with_key index.hasher index.tokens n (index.hasher (suffix n index.tokens)) e
      ≡ occurs index.tokens n e
unfolding CollisionFree
key-eq-occurs index n e free lt = ground (
  arith,
  occurs-has_key index.hasher index.tokens n e,
  tokens_eq_iff (window n e index.tokens) (suffix n index.tokens),
  free e (omega arith),
)

-- Where no other window shares the hash of the suffix, the lookup of an indexed length gives the
-- same answer as a search for the last earlier occurrence of the suffix, and gives nothing while
-- the sequence is shorter than the key.
pub most_recent_match-eq-latest :
    (index : NgramIndex) (n : ℕ)
    → IsIndex index
    → has_len n indexed_match_lengths ≡ true
    → CollisionFree index n
    → most_recent_match index n ≡ (
        if ltb (length index.tokens) n
        then none
        else latest (occurs index.tokens n) (length index.tokens - 1))
unfolding most_recent_match recent_by_hash
most_recent_match-eq-latest index n h len free = elim (Bool-cases (ltb (length index.tokens) n)) [
  | inl short ↦ rw (slot_last_match-eq-recent index n h len, most_recent_match, short) refl
  | inr long ↦
      rw
        (
          slot_last_match-eq-recent index n h len,
          most_recent_match,
          long,
          latest_cong
              (ends_with_key index.hasher index.tokens n (index.hasher (suffix n index.tokens)))
              (occurs index.tokens n) (length index.tokens - 1)
              (λ e lt. key-eq-occurs index n e free lt),
        )
        (elim (Option-cases (latest (occurs index.tokens n) (length index.tokens - 1))) [
          | inl missing ↦ rw missing refl
          | inr (c, found) ↦
              let (lt, here) =
                latest-lt (occurs index.tokens n) (length index.tokens - 1) c found in
              rw found (verify_candidate-occurs index.tokens n c (omega arith) here)
        ])
]

-- What a reported match is: an earlier place where the last `n` tokens stand already.
pub most_recent_match_sound :
    (index : NgramIndex) (n p : ℕ)
    → IsIndex index
    → most_recent_match index n ≡ some p
    → (p + 1 < length index.tokens)
      × (n ≤ p + 1)
      × (window n p index.tokens ≡ suffix n index.tokens)
most_recent_match_sound index n p h found =
    let (lt, here) =
      latest-lt (occurs index.tokens n) (length index.tokens - 1) p
        (most_recent_match-IsLast index n p h found) in
    (
      omega arith,
      ground arith,
      (tokens_eq_iff (window n p index.tokens) (suffix n index.tokens)).0 (ground arith),
    )
