-- ===== src/Ngram.antt =====
-- The prompt-lookup drafter of src/ngram.rs: the index over the token sequence, its lookup and
-- its two ways to propose a continuation.
pub mod Windows
pub mod Recent
pub mod Lookup
pub mod Cut
pub mod Draft
pub mod Longest
mod Tests
use Prim.Native.Nat.{bit_xor}
use mathlib.Core.Option
use inferq.Prelude.{
  ℕ, suc, ◌+◌, ◌-◌, ◌*◌, ◌%◌, ◌^◌, min, Bool, true, false, ◌||◌, Option, none, some, List, [], ◌∷◌,
  ◌++◌, map, length, take, drop, ltb, leb, ◌==◌, if◌then◌else◌, clamp,
}

abbrev pub Token : Type 0
Token = ℕ

abbrev pub indexed_match_lengths : List ℕ
indexed_match_lengths = 4 ∷ 3 ∷ 2 ∷ []

abbrev pub max_match_len : ℕ
max_match_len = 4

abbrev pub min_match_len : ℕ
min_match_len = 2

abbrev pub TokenHasher : Type 0
TokenHasher = List Token → ℕ

-- One round of the hash: `hash ^= token; hash = hash.wrapping_mul(prime)` on 64 bits.
unfoldable pub fnv1a_step : ℕ → Token → ℕ
fnv1a_step hash token = bit_xor hash token * 0x0000_0100_0000_01b3 % 2 ^ 64

unfoldable pub fnv1a_from : ℕ → List Token → ℕ
unfolding fnv1a_step
fnv1a_from hash [] = hash
fnv1a_from hash (token ∷ tokens) = fnv1a_from (fnv1a_step hash token) tokens

unfoldable pub fnv1a_tokens : List Token → ℕ
unfolding fnv1a_from
fnv1a_tokens tokens = fnv1a_from 0xcbf2_9ce4_8422_2325 tokens

pub record NgramDraft : Type 0 where
  pub tokens : List Token
  pub match_len : ℕ
  pub source_position : ℕ
  pub truncated_at_stop : Bool

-- `HashMap<u64, usize>`, by what a read of a key gives.
abbrev pub KeyMap : Type 0
KeyMap = ℕ → Option ℕ

abbrev pub empty_map : KeyMap
empty_map key = none

-- `HashMap::insert`: the map afterwards; the value replaced is the old map's read of the key.
abbrev pub insert_key : ℕ → ℕ → KeyMap → KeyMap
insert_key key position map k = if k == key then some position else map k

-- The `maps[slot]` and `last_match[slot]` of one indexed key length.
pub record Slot : Type 0 where
  pub match_len : ℕ
  pub map : KeyMap
  pub last_match : Option ℕ

pub record NgramIndex : Type 0 where
  pub tokens : List Token
  pub slots : List Slot
  pub hasher : TokenHasher

abbrev pub empty_slot : ℕ → Slot
empty_slot match_len = record { match_len = match_len; map = empty_map; last_match = none }

unfoldable pub with_hasher : TokenHasher → NgramIndex
with_hasher hasher = record {
  tokens = [];
  slots = map empty_slot indexed_match_lengths;
  hasher = hasher;
}

unfoldable pub new : NgramIndex
unfolding with_hasher fnv1a_tokens
new = with_hasher fnv1a_tokens

unfoldable pub clear : NgramIndex → NgramIndex
clear index = record index { tokens = []; slots = map (λ s. empty_slot s.match_len) index.slots }

-- The body of the loop of `push`, at one key length; `tokens` holds the new token already.
unfoldable pub push_slot : TokenHasher → List Token → Slot → Slot
push_slot hasher tokens slot =
    if ltb (length tokens) slot.match_len
    then record slot { last_match = none }
    else let key = hasher (drop (length tokens - slot.match_len) tokens) in
      record slot { map = insert_key key (length tokens - 1) slot.map; last_match = slot.map key }

unfoldable pub push : NgramIndex → Token → NgramIndex
unfolding push_slot
push index token =
    let tokens = index.tokens ++ token ∷ [] in
    record index { tokens = tokens; slots = map (push_slot index.hasher tokens) index.slots }

unfoldable pub extend : NgramIndex → List Token → NgramIndex
unfolding push
extend index [] = index
extend index (token ∷ tokens) = extend (push index token) tokens

-- `INDEXED_MATCH_LENGTHS.iter().position(..)` and the read of `last_match` there.
unfoldable pub slot_last_match : ℕ → List Slot → Option ℕ
slot_last_match match_len [] = none
slot_last_match match_len (slot ∷ slots) =
    if slot.match_len == match_len then slot.last_match else slot_last_match match_len slots

-- Equality of two token slices.
unfoldable pub tokens_eq : List Token → List Token → Bool
tokens_eq [] [] = true
tokens_eq (x ∷ xs) (y ∷ ys) = if x == y then tokens_eq xs ys else false
tokens_eq xs ys = false

-- The `match_len` tokens that end at `end`, `tokens[end + 1 - match_len..=end]`.
abbrev pub window : ℕ → ℕ → List Token → List Token
window match_len end tokens = take match_len (drop (end + 1 - match_len) tokens)

unfoldable pub verify_candidate : List Token → ℕ → ℕ → Option ℕ
unfolding tokens_eq
verify_candidate tokens match_len candidate =
    if ltb (candidate + 1) match_len || leb (length tokens) candidate
    then none
    else let suffix = drop (length tokens - match_len) tokens in
      let earlier = window match_len candidate tokens in
      if tokens_eq earlier suffix then some candidate else none

unfoldable pub most_recent_match : NgramIndex → ℕ → Option ℕ
unfolding slot_last_match verify_candidate
most_recent_match index match_len = elim (slot_last_match match_len index.slots) [
  | none ↦ none
  | some candidate ↦ verify_candidate index.tokens match_len candidate
]

-- `candidate.iter().position(|&token| is_stop(token))`.
unfoldable pub stop_position : (Token → Bool) → List Token → Option ℕ
stop_position is_stop [] = none
stop_position is_stop (token ∷ tokens) =
    if is_stop token then some 0 else Option.map suc (stop_position is_stop tokens)

-- `candidate[..stop.unwrap_or(candidate.len())]`.
unfoldable pub before_stop : Option ℕ → List Token → List Token
before_stop none candidate = candidate
before_stop (some stop) candidate = take stop candidate

unfoldable pub is_some {ℓ} : {A : Type ℓ} → Option A → Bool
is_some none = false
is_some (some a) = true

-- The end of `draft` and of `continue_from`: the proposal cut out of the tokens from `start` on.
unfoldable pub propose : (Token → Bool) → List Token → ℕ → ℕ → Option NgramDraft
unfolding stop_position before_stop is_some
propose is_stop candidate match_len source_position =
    let stop = stop_position is_stop candidate in
    elim (before_stop stop candidate) [
      | [] ↦ none
      | token ∷ tokens ↦ some (record {
        tokens = token ∷ tokens;
        match_len = match_len;
        source_position = source_position;
        truncated_at_stop = is_some stop;
      })
    ]

-- `tokens[start..end]`.
abbrev pub slice : ℕ → ℕ → List Token → List Token
slice start end tokens = take (end - start) (drop start tokens)

-- The loop of `draft` over the key lengths that are left; `min_match` is clamped already.
unfoldable pub draft_from : NgramIndex → ℕ → ℕ → (Token → Bool) → List ℕ → Option NgramDraft
unfolding propose most_recent_match
draft_from index draft_len min_match is_stop [] = none
draft_from index draft_len min_match is_stop (match_len ∷ lens) =
    let rest = draft_from index draft_len min_match is_stop lens in
    if ltb match_len min_match then rest else elim (most_recent_match index match_len) [
      | none ↦ rest
      | some position ↦
          let start = position + 1 in
          let end = min (start + draft_len) (length index.tokens) in
          if leb end start
          then rest
          else propose is_stop (slice start end index.tokens) match_len position
    ]

unfoldable pub draft : NgramIndex → ℕ → ℕ → (Token → Bool) → Option NgramDraft
unfolding draft_from
draft index draft_len min_match is_stop =
    if draft_len == 0
    then none
    else draft_from index draft_len (clamp min_match_len max_match_len min_match) is_stop
        indexed_match_lengths

unfoldable pub continue_from : NgramIndex → ℕ → ℕ → ℕ → (Token → Bool) → Option NgramDraft
unfolding propose
continue_from index next draft_len match_len is_stop =
    if draft_len == 0 || next == 0 || leb (length index.tokens) next
    then none
    else let end = min (next + draft_len) (length index.tokens) in
      propose is_stop (slice next end index.tokens) match_len (next - 1)
