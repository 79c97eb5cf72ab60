-- ===== src/Ngram/Recent.antt =====
-- What the index of src/ngram.rs holds after any sequence of pushes: for each key length the
-- positions that a search through the whole sequence would find.
use mathlib.Core.Bool.{false≢true}
use inferq.Prelude.{
  ℕ, zero, suc, ◌+◌, ◌-◌, ◌<◌, ◌≡◌, refl, sym, ap, ap₂, ◌∙◌, Bool, true, false, ◌&&◌, Option, none,
  some, List, [], ◌∷◌, ◌++◌, map, arith, length, drop, length-append, ltb, leb, ◌==◌, if◌then◌else◌,
  Bool-cases, inl, inr, append-nil, append_assoc, All,
}
use inferq.Ngram.{
  Token, TokenHasher, Slot, NgramIndex, empty_slot, push_slot, push, extend, with_hasher, window,
  indexed_match_lengths, insert_key, clear, slot_last_match,
}
use inferq.Ngram.Windows.{window-append, window-last}

-- The largest number below the bound that passes the test.
unfoldable pub latest : (ℕ → Bool) → ℕ → Option ℕ
latest p zero = none
latest p (suc k) = if p k then some k else latest p k

pub latest_cong : (p q : ℕ → Bool) (k : ℕ) → ((e : ℕ) → e < k → p e ≡ q e) → latest p k ≡ latest q k
unfolding latest
latest_cong p q zero h = refl
latest_cong p q (suc k) h =
    rw (h k (omega arith), latest_cong p q k (λ e lt. h e (omega arith))) refl

pub latest-lt : (p : ℕ → Bool) (k e : ℕ) → latest p k ≡ some e → (e < k) × (p e ≡ true)
unfolding latest
latest-lt p zero e h = cc
latest-lt p (suc k) e h = ground (arith, latest-lt p k e)

-- An occurrence ending at `e` of a key of `n` tokens, by its hash.
abbrev pub ends_with_key : TokenHasher → List Token → ℕ → ℕ → ℕ → Bool
ends_with_key hasher tokens n key e = leb n (e + 1) && hasher (window n e tokens) == key

abbrev pub suffix : ℕ → List Token → List Token
suffix n tokens = drop (length tokens - n) tokens

-- The last place before the end where a window has the hash of the suffix.
unfoldable pub recent_by_hash : TokenHasher → List Token → ℕ → Option ℕ
recent_by_hash hasher tokens n =
    if ltb (length tokens) n
    then none
    else latest (ends_with_key hasher tokens n (hasher (suffix n tokens))) (length tokens - 1)

pub record IsIndexed (hasher : TokenHasher) (tokens : List Token) (slot : Slot) : Type 0 where
  pub mapped :
      (key : ℕ)
      → slot.map key ≡ latest (ends_with_key hasher tokens slot.match_len key) (length tokens)
  pub recent : slot.last_match ≡ recent_by_hash hasher tokens slot.match_len

module _ (hasher : TokenHasher) (tokens : List Token) (token : Token) where
  abbrev grown : List Token
  grown = tokens ++ token ∷ []

  length-grown : length grown ≡ suc (length tokens)
  length-grown = omega (arith, length-append tokens (token ∷ []))

  ends_with_key-append :
      (n key e : ℕ)
      → e < length tokens
      → ends_with_key hasher tokens n key e ≡ ends_with_key hasher grown n key e
  ends_with_key-append n key e lt = elim (Bool-cases (leb n (e + 1))) [
    | inl long ↦ rw (window-append n e tokens (token ∷ []) (ground arith) lt) refl
    | inr short ↦ rw short refl
  ]

  latest-grown :
      (n key : ℕ)
      → latest (ends_with_key hasher tokens n key) (length tokens)
        ≡ latest (ends_with_key hasher grown n key) (length tokens)
  latest-grown n key =
      latest_cong (ends_with_key hasher tokens n key) (ends_with_key hasher grown n key)
        (length tokens) (ends_with_key-append n key)

  -- A search through the longer sequence looks at its end first.
  latest-append :
      (n key : ℕ)
      → latest (ends_with_key hasher grown n key) (length grown) ≡ (
          if ends_with_key hasher grown n key (length tokens)
          then some (length tokens)
          else latest (ends_with_key hasher tokens n key) (length tokens))
  unfolding latest
  latest-append n key = rw (length-grown, latest-grown n key) refl

  end_too_short :
      (n key : ℕ)
      → ltb (length grown) n ≡ true
      → ends_with_key hasher grown n key (length tokens) ≡ false
  end_too_short n key h = ground (arith, length-grown)

  end_has_key :
      (n key : ℕ)
      → ltb (length grown) n ≡ false
      → ends_with_key hasher grown n key (length tokens) ≡ (hasher (suffix n grown) == key)
  end_has_key n key h =
      rw
        (window-last n (length tokens) grown (omega (arith, length-grown))
          (ground (arith, length-grown)))
        (ground (arith, length-grown))

  mapped_short :
      (slot : Slot) (key : ℕ)
      → IsIndexed hasher tokens slot
      → ltb (length grown) slot.match_len ≡ true
      → slot.map key ≡ latest (ends_with_key hasher grown slot.match_len key) (length grown)
  mapped_short slot key h short =
      rw (latest-append slot.match_len key, end_too_short slot.match_len key short) (h.mapped key)

  mapped_long :
      (slot : Slot) (key : ℕ)
      → IsIndexed hasher tokens slot
      → ltb (length grown) slot.match_len ≡ false
      → insert_key (hasher (suffix slot.match_len grown)) (length grown - 1) slot.map key
        ≡ latest (ends_with_key hasher grown slot.match_len key) (length grown)
  mapped_long slot key h long =
      rw (latest-append slot.match_len key, end_has_key slot.match_len key long)
        (ground (arith, h.mapped key, length-grown))

  recent_long :
      (slot : Slot)
      → IsIndexed hasher tokens slot
      → ltb (length grown) slot.match_len ≡ false
      → slot.map (hasher (suffix slot.match_len grown)) ≡ recent_by_hash hasher grown slot.match_len
  unfolding recent_by_hash
  recent_long slot h long =
      let shorter : length grown - 1 ≡ length tokens = omega (arith, length-grown) in
      rw (long, shorter, ← latest-grown slot.match_len (hasher (suffix slot.match_len grown)))
        (h.mapped (hasher (suffix slot.match_len grown)))

  push_slot-IsIndexed :
      (slot : Slot)
      → IsIndexed hasher tokens slot
      → IsIndexed hasher grown (push_slot hasher grown slot)
  unfolding push_slot recent_by_hash
  push_slot-IsIndexed slot h = elim (Bool-cases (ltb (length grown) slot.match_len)) [
    | inl short ↦
        rw short (record { mapped = λ key. mapped_short slot key h short; recent = rw short refl })
    | inr long ↦
        rw long
          (record { mapped = λ key. mapped_long slot key h long; recent = recent_long slot h long })
  ]

-- Each slot of the index holds what a search through the tokens gives, one slot for each length.
pub record IsIndex (index : NgramIndex) : Type 0 where
  pub indexed : All (IsIndexed index.hasher index.tokens) index.slots
  pub lengths : map (λ (s : Slot). s.match_len) index.slots ≡ indexed_match_lengths

map_push_slot-IsIndexed :
    (hasher : TokenHasher) (tokens : List Token) (token : Token) (slots : List Slot)
    → All (IsIndexed hasher tokens) slots
    → All
        (IsIndexed hasher (tokens ++ token ∷ []))
        (map (push_slot hasher (tokens ++ token ∷ [])) slots)
map_push_slot-IsIndexed hasher tokens token [] h = tt
map_push_slot-IsIndexed hasher tokens token (s ∷ slots) (h, hs) = (
  push_slot-IsIndexed hasher tokens token s h,
  map_push_slot-IsIndexed hasher tokens token slots hs,
)

match_len-push_slot :
    (hasher : TokenHasher) (tokens : List Token) (slot : Slot)
    → (push_slot hasher tokens slot).match_len ≡ slot.match_len
unfolding push_slot
match_len-push_slot hasher tokens slot = ground arith

map_push_slot-lengths :
    (hasher : TokenHasher) (tokens : List Token) (slots : List Slot)
    → map (λ (s : Slot). s.match_len) (map (push_slot hasher tokens) slots)
      ≡ map (λ (s : Slot). s.match_len) slots
map_push_slot-lengths hasher tokens [] = refl
map_push_slot-lengths hasher tokens (s ∷ slots) =
    ap₂ ◌∷◌ (match_len-push_slot hasher tokens s) (map_push_slot-lengths hasher tokens slots)

empty_slot-IsIndexed : (hasher : TokenHasher) (n : ℕ) → 0 < n → IsIndexed hasher [] (empty_slot n)
unfolding latest recent_by_hash
empty_slot-IsIndexed hasher n h = record { mapped = λ key. refl; recent = ground arith }

-- A new index is one.
pub with_hasher-IsIndex : (hasher : TokenHasher) → IsIndex (with_hasher hasher)
unfolding with_hasher
with_hasher-IsIndex hasher = record {
  indexed = (
    empty_slot-IsIndexed hasher 4 (omega arith),
    (
      empty_slot-IsIndexed hasher 3 (omega arith),
      (empty_slot-IsIndexed hasher 2 (omega arith), tt),
    ),
  );
  lengths = refl;
}

pub push-IsIndex : (index : NgramIndex) (token : Token) → IsIndex index → IsIndex (push index token)
unfolding push
push-IsIndex index token h = record {
  indexed = map_push_slot-IsIndexed index.hasher index.tokens token index.slots h.indexed;
  lengths = map_push_slot-lengths index.hasher (index.tokens ++ token ∷ []) index.slots ∙ h.lengths;
}

pub extend-IsIndex :
    (index : NgramIndex) (tokens : List Token) → IsIndex index → IsIndex (extend index tokens)
unfolding extend
extend-IsIndex index [] h = h
extend-IsIndex index (token ∷ tokens) h =
    extend-IsIndex (push index token) tokens (push-IsIndex index token h)

pub tokens-extend :
    (index : NgramIndex) (tokens : List Token)
    → (extend index tokens).tokens ≡ index.tokens ++ tokens
unfolding extend push
tokens-extend index [] = sym (append-nil index.tokens)
tokens-extend index (token ∷ tokens) =
    tokens-extend (push index token) tokens ∙ append_assoc index.tokens (token ∷ []) tokens

pub hasher-extend :
    (index : NgramIndex) (tokens : List Token) → (extend index tokens).hasher ≡ index.hasher
unfolding extend push
hasher-extend index [] = refl
hasher-extend index (token ∷ tokens) = hasher-extend (push index token) tokens

abbrev pub has_len : ℕ → List ℕ → Bool
has_len n [] = false
has_len n (m ∷ lens) = if m == n then true else has_len n lens

slot_last_match-found :
    (hasher : TokenHasher) (tokens : List Token) (slots : List Slot) (n : ℕ)
    → All (IsIndexed hasher tokens) slots
    → has_len n (map (λ (s : Slot). s.match_len) slots) ≡ true
    → slot_last_match n slots ≡ recent_by_hash hasher tokens n
unfolding slot_last_match
slot_last_match-found hasher tokens [] n h m = cc
slot_last_match-found hasher tokens (s ∷ slots) n (h, hs) m = elim (Bool-cases (s.match_len == n)) [
  | inl e ↦ let same : s.match_len ≡ n = ground arith in rw e (rw same at h.recent)
  | inr e ↦ rw e (slot_last_match-found hasher tokens slots n hs (rw e at m))
]

-- For the lengths that are indexed the cached match is the one that a search finds.
pub slot_last_match-eq-recent :
    (index : NgramIndex) (n : ℕ)
    → IsIndex index
    → has_len n indexed_match_lengths ≡ true
    → slot_last_match n index.slots ≡ recent_by_hash index.hasher index.tokens n
slot_last_match-eq-recent index n h m =
    slot_last_match-found index.hasher index.tokens index.slots n h.indexed (rw h.lengths m)

slot_last_match-missing :
    (slots : List Slot) (n : ℕ)
    → has_len n (map (λ (s : Slot). s.match_len) slots) ≡ false
    → slot_last_match n slots ≡ none
unfolding slot_last_match
slot_last_match-missing [] n m = refl
slot_last_match-missing (s ∷ slots) n m = elim (Bool-cases (s.match_len == n)) [
  | inl e ↦ absurd (false≢true (sym (rw e at m)))
  | inr e ↦ rw e (slot_last_match-missing slots n (rw e at m))
]

pub slot_last_match-ne_indexed :
    (index : NgramIndex) (n : ℕ)
    → IsIndex index
    → has_len n indexed_match_lengths ≡ false
    → slot_last_match n index.slots ≡ none
slot_last_match-ne_indexed index n h m = slot_last_match-missing index.slots n (rw h.lengths m)

map-empty_slot :
    (slots : List Slot)
    → map (λ (s : Slot). empty_slot s.match_len) slots
      ≡ map empty_slot (map (λ (s : Slot). s.match_len) slots)
map-empty_slot [] = refl
map-empty_slot (s ∷ slots) = ap (λ r. empty_slot s.match_len ∷ r) (map-empty_slot slots)

-- `clear` gives back a new index with the same hash: nothing indexed before is found again.
pub clear-eq-with_hasher :
    (index : NgramIndex) → IsIndex index → clear index ≡ with_hasher index.hasher
unfolding clear with_hasher
clear-eq-with_hasher index h = rw (map-empty_slot index.slots, h.lengths) refl
