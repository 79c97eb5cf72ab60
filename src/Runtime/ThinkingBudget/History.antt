-- ===== src/Runtime/ThinkingBudget/History.antt =====
-- `ThinkingBudget` of src/runtime.rs against the whole history of a thinking block.
use inferq.Prelude.{
  ℕ, ◌+◌, ◌-◌, ◌<◌, ◌≡◌, refl, sym, ap, Bool, true, false, ◌&&◌, List, [], ◌∷◌, ◌++◌, arith, length,
  drop, ltb, leb, if◌then◌else◌, map, Bool-cases, inl, inr, length-append, length-drop,
  drop-append_le, drop-drop, drop-nil, some,
}
use inferq.Ngram.{Token, tokens_eq}
use inferq.Runtime.ThinkingBudget.{
  ThinkingBoundary, continue, natural_closure, force_closure, ThinkingBudget, from_tokens, slide,
  observe_committed,
}

-- A commit: the token, and whether the budget is enforced at it.
abbrev pub Commit : Type 0
Commit = Token × Bool

unfoldable pub observe_all : ThinkingBudget → List Commit → List ThinkingBoundary
observe_all b [] = []
observe_all b ((token, enforce) ∷ commits) =
    let (b', boundary) = observe_committed b token enforce in boundary ∷ observe_all b' commits

-- The history ends with the closing tag.
unfoldable pub closes : List Token → List Token → Bool
closes close_tokens seen = tokens_eq (drop (length seen - length close_tokens) seen) close_tokens

-- The boundaries by the whole history: the block closes of itself where the history ends with the
-- closing tag, by force where its length reaches the budget, and nothing happens after that.
unfoldable pub boundaries : ℕ → List Token → List Token → List Commit → List ThinkingBoundary
boundaries budget close_tokens seen [] = []
boundaries budget close_tokens seen ((token, enforce) ∷ commits) =
    let later = boundaries budget close_tokens (seen ++ token ∷ []) commits in
    let done = map (λ (c : Commit). continue) commits in
    if closes close_tokens (seen ++ token ∷ [])
    then natural_closure ∷ done
    else if enforce && leb budget (length seen + 1)
    then force_closure ∷ done
    else continue ∷ later

-- A budget whose block is open after the tokens seen.
pub record IsOpen (b : ThinkingBudget) (seen : List Token) : Type 0 where
  pub counted : b.committed ≡ length seen
  pub window : b.recent ≡ drop (length seen - length b.close_tokens) seen
  pub tagged : 0 < length b.close_tokens
  pub open_block : b.active ≡ true

slide-window :
    (size : ℕ) (seen : List Token) (token : Token)
    → 0 < size
    → slide size (drop (length seen - size) seen) token
      ≡ drop (length (seen ++ token ∷ []) - size) (seen ++ token ∷ [])
unfolding slide
slide-window size seen token pos =
    let k = length seen - size in
    let kept : drop k (seen ++ token ∷ []) ≡ drop k seen ++ token ∷ [] =
      drop-append_le k seen (token ∷ []) (omega arith) in
    let longer = length-append (drop k seen) (token ∷ []) in
    let total = length-append seen (token ∷ []) in
    let part = length-drop k seen in
    elim (Bool-cases (ltb size (length (drop k seen ++ token ∷ [])))) [
      | inl full ↦
          let next : length (seen ++ token ∷ []) - size ≡ k + 1 = ground arith in
          rw (full, next, ← drop-drop 1 k (seen ++ token ∷ []), kept) refl
      | inr room ↦
          let none_yet : length (seen ++ token ∷ []) - size ≡ k = ground arith in
          rw (room, none_yet, kept) refl
    ]

observe_all-closed :
    (b : ThinkingBudget) (commits : List Commit)
    → b.active ≡ false
    → observe_all b commits ≡ map (λ (c : Commit). continue) commits
unfolding observe_all observe_committed
observe_all-closed b [] h = refl
observe_all-closed b ((token, enforce) ∷ commits) h =
    simp h (ap (λ r. continue ∷ r) (observe_all-closed b commits h))

-- The budget after one more token.
abbrev with_token : ThinkingBudget → List Token → Token → ThinkingBudget
with_token b seen token = record b {
  committed = length seen + 1;
  recent = drop (length (seen ++ token ∷ []) - length b.close_tokens) (seen ++ token ∷ []);
}

observe_committed-open :
    (b : ThinkingBudget) (seen : List Token) (token : Token) (enforce : Bool)
    → IsOpen b seen
    → let next = with_token b seen token in
      let natural : ThinkingBudget × ThinkingBoundary =
        (record next { active = false }, natural_closure) in
      let force : ThinkingBudget × ThinkingBoundary =
        (record next { active = false; forced = true }, force_closure) in
      let onward : ThinkingBudget × ThinkingBoundary = (next, continue) in
      observe_committed b token enforce ≡ (
        if closes b.close_tokens (seen ++ token ∷ [])
        then natural
        else if enforce && leb b.budget (length seen + 1)
        then force
        else onward)
unfolding observe_committed closes
observe_committed-open b seen token enforce h =
    let recent : slide (length b.close_tokens) b.recent token
        ≡ drop (length (seen ++ token ∷ []) - length b.close_tokens) (seen ++ token ∷ []) =
      rw h.window (slide-window (length b.close_tokens) seen token h.tagged) in
    simp (h.open_block, recent, h.counted)

with_token-IsOpen :
    (b : ThinkingBudget) (seen : List Token) (token : Token)
    → IsOpen b seen
    → IsOpen (with_token b seen token) (seen ++ token ∷ [])
with_token-IsOpen b seen token h = record {
  counted = omega (arith, length-append seen (token ∷ []));
  window = refl;
  tagged = h.tagged;
  open_block = h.open_block;
}

observe_all-open :
    (b : ThinkingBudget) (seen : List Token) (commits : List Commit)
    → IsOpen b seen
    → observe_all b commits ≡ boundaries b.budget b.close_tokens seen commits
unfolding observe_all boundaries
observe_all-open b seen [] h = refl
observe_all-open b seen ((token, enforce) ∷ commits) h =
    let next = with_token b seen token in
    rw (observe_committed-open b seen token enforce h)
      (elim (Bool-cases (closes b.close_tokens (seen ++ token ∷ []))) [
        | inl closed ↦ rw closed (
            ap (λ r. natural_closure ∷ r)
              (observe_all-closed (record next { active = false }) commits refl))
        | inr not_closed ↦ elim (Bool-cases (enforce && leb b.budget (length seen + 1))) [
          | inl spent ↦
              rw (not_closed, spent)
                (ap (λ r. force_closure ∷ r)
                  (observe_all-closed (record next { active = false; forced = true }) commits refl))
          | inr left ↦
              rw (not_closed, left)
                (ap (λ r. continue ∷ r)
                  (observe_all-open next (seen ++ token ∷ []) commits
                    (with_token-IsOpen b seen token h)))
        ]
      ])

-- A budget made for a turn reports the boundaries that its whole history gives, for any committed
-- tokens: the few recent tokens that it keeps are enough to see the closing tag, the block is
-- closed by force exactly at the first enforced token that brings the count to the budget, and
-- after either closure nothing is reported.
pub observe_all-from_tokens :
    (budget : ℕ) (close_tokens forced_close_tokens : List Token) (b : ThinkingBudget)
    (commits : List Commit)
    → from_tokens (some budget) close_tokens forced_close_tokens ≡ some (some b)
    → observe_all b commits ≡ boundaries budget close_tokens [] commits
unfolding from_tokens
observe_all-from_tokens budget [] forced b commits h = cc
observe_all-from_tokens budget (t ∷ close) [] b commits h = cc
observe_all-from_tokens budget (t ∷ close) (f ∷ forced) b commits h =
    let fresh : ThinkingBudget = record {
      budget = budget;
      committed = 0;
      close_tokens = t ∷ close;
      forced_close_tokens = f ∷ forced;
      recent = [];
      active = true;
      forced = false;
    } in
    let same : fresh ≡ b = cc in
    rw (← same) (
      observe_all-open fresh [] commits (record {
        counted = refl;
        window = sym (drop-nil _);
        tagged = omega arith;
        open_block = refl;
      }))
