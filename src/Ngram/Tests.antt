-- ===== src/Ngram/Tests.antt =====
-- Runs of the n-gram index.
use inferq.Prelude.{
  ℕ, zero, suc, ◌+◌, ◌-◌, ◌≤◌, ◌<◌, ◌≡◌, refl, arith, none, some, List, [], ◌∷◌, false, length, ltb,
  if◌then◌else◌, clamp,
}
use inferq.Ngram.{
  NgramIndex, NgramDraft, with_hasher, extend, clear, most_recent_match, draft, continue_from,
  window, fnv1a_tokens, min_match_len, max_match_len,
}
use inferq.Ngram.Recent.{
  IsIndex, with_hasher-IsIndex, extend-IsIndex, suffix, latest, clear-eq-with_hasher,
}
use inferq.Ngram.Lookup.{
  occurs, CollisionFree, most_recent_match-eq-latest, most_recent_match-IsLast,
}
use inferq.Ngram.Cut.{IsContinuation}
use inferq.Ngram.Draft.{draft_sound, continue_from-draft, continue_from_sound}
use inferq.Ngram.Longest.{draft-longest}

abbrev repeated : List ℕ
repeated = 1 ∷ 2 ∷ 3 ∷ 40 ∷ 41 ∷ 42 ∷ 9 ∷ 1 ∷ 2 ∷ 3 ∷ 50 ∷ 51 ∷ 52 ∷ 1 ∷ 2 ∷ 3 ∷ []

abbrev index : NgramIndex
index = extend (with_hasher fnv1a_tokens) repeated

index-IsIndex : IsIndex index
index-IsIndex =
    extend-IsIndex (with_hasher fnv1a_tokens) repeated (with_hasher-IsIndex fnv1a_tokens)

abbrev found : NgramDraft
found = record {
  tokens = 50 ∷ 51 ∷ 52 ∷ [];
  match_len = 3;
  source_position = 9;
  truncated_at_stop = false;
}

draft_repeated : draft index 3 3 (λ _. false) ≡ some found
unfolding draft extend with_hasher fnv1a_tokens
draft_repeated = refl

match_repeated : most_recent_match index 3 ≡ some 9
unfolding most_recent_match extend with_hasher fnv1a_tokens
match_repeated = refl

collision :
    most_recent_match (extend (with_hasher (λ _. 0)) (1 ∷ 2 ∷ 3 ∷ 40 ∷ 41 ∷ 1 ∷ 2 ∷ 3 ∷ [])) 3
    ≡ none
unfolding most_recent_match extend with_hasher
collision = refl

draft_sound_example :
    IsContinuation index.tokens 3 (λ _. false) found
    × (window 3 9 index.tokens ≡ suffix 3 index.tokens)
    × (10 < length index.tokens)
    × (clamp min_match_len max_match_len 3 ≤ 3)
draft_sound_example = draft_sound index 3 3 (λ _. false) found index-IsIndex draft_repeated

continue_from-draft_example : continue_from index 10 3 3 (λ _. false) ≡ some found
continue_from-draft_example =
    continue_from-draft index 3 3 (λ _. false) found index-IsIndex draft_repeated

continues : continue_from index 10 3 3 (λ _. false) ≡ some found
unfolding continue_from extend with_hasher
continues = refl

continue_from_sound_example :
    IsContinuation index.tokens 3 (λ _. false) found
    × (found.match_len ≡ 3)
    × (found.source_position + 1 ≡ 10)
continue_from_sound_example = continue_from_sound index 10 3 3 (λ _. false) found continues

draft-longest_example : most_recent_match index 4 ≡ none
draft-longest_example =
    draft-longest index 3 3 (λ _. false) found 4 index-IsIndex draft_repeated refl (omega arith)
      (omega arith)

most_recent_match-IsLast_example : latest (occurs index.tokens 3) (length index.tokens - 1) ≡ some 9
most_recent_match-IsLast_example = most_recent_match-IsLast index 3 9 index-IsIndex match_repeated

clear-eq-with_hasher_example : clear index ≡ with_hasher index.hasher
clear-eq-with_hasher_example = clear-eq-with_hasher index index-IsIndex

abbrev short_index : NgramIndex
short_index = extend (with_hasher fnv1a_tokens) (1 ∷ 2 ∷ 1 ∷ 2 ∷ [])

short_index-CollisionFree : CollisionFree short_index 2
unfolding CollisionFree extend with_hasher fnv1a_tokens
short_index-CollisionFree zero lt le same = absurd (omega arith)
short_index-CollisionFree (suc zero) lt le same = refl
short_index-CollisionFree (suc (suc zero)) lt le same =
    let differ : fnv1a_tokens (2 ∷ 1 ∷ []) ≡ fnv1a_tokens (1 ∷ 2 ∷ []) = same in
    absurd (ground arith)
short_index-CollisionFree (suc (suc (suc zero))) lt le same = refl
short_index-CollisionFree (suc (suc (suc (suc e)))) lt le same =
    let below : suc (suc (suc (suc e))) < 4 = lt in absurd (omega arith)

most_recent_match-eq-latest_example : most_recent_match short_index 2 ≡ (
    if ltb (length short_index.tokens) 2
    then none
    else latest (occurs short_index.tokens 2) (length short_index.tokens - 1))
most_recent_match-eq-latest_example =
    most_recent_match-eq-latest short_index 2
      (extend-IsIndex (with_hasher fnv1a_tokens) (1 ∷ 2 ∷ 1 ∷ 2 ∷ [])
        (with_hasher-IsIndex fnv1a_tokens))
      refl short_index-CollisionFree
