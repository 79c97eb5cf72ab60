-- ===== src/Runtime/Tests.antt =====
-- Runs of the verification pass and of the thinking budget.
use inferq.Prelude.{
  ◌-◌, ◌*◌, ◌/◌, ◌^◌, ◌&&◌, ℕ, ◌+◌, ◌≤◌, ◌≡◌, ◌≢◌, refl, true, false, some, List, [], ◌∷◌, ◌++◌,
  ltb, length, take, get_elem?, leb, if◌then◌else◌, Bool-cases, inl, inr,
}
use inferq.Ngram.{Token}
use inferq.Sampling.{LogitOps, argmax}
use inferq.Speculative.{SpeculativeMode, allows_ngram, allows_mtp, effective_start}
use inferq.Speculative.Floats.{FloatOps}
use inferq.Runtime.Arms.{
  GenerationOptions, effective_speculative_mode, arm_configs, arm_configs-enabled,
}
use inferq.Runtime.Verify.{top_token, verify_outputs, speculative_committed_outputs}
use inferq.Runtime.Greedy.{rows_after, greedy, agreeing, tokens_of, verify_outputs-greedy}
use inferq.Runtime.ThinkingBudget.{
  ThinkingBudget, from_tokens, observe_committed, continue, natural_closure,
}
use inferq.Runtime.ThinkingBudget.History.{observe_all, boundaries, observe_all-from_tokens, Commit}

abbrev pub naturals : LogitOps
naturals = record { Logit = ℕ; is_finite = λ v. ltb v 100; greater = λ a b. ltb b a }

-- A target that answers token 1 after at most three tokens, and token 0 after more.
abbrev pub logits : List Token → List ℕ
logits context = if leb (length context) 3 then 0 ∷ 5 ∷ [] else 7 ∷ 5 ∷ []

abbrev pub choice : List Token → Token
choice context = if leb (length context) 3 then 1 else 0

pub chooses : (context : List Token) → top_token naturals (logits context) ≡ some (choice context)
unfolding top_token argmax
chooses context = elim (Bool-cases (leb (length context) 3)) [
  | inl e ↦ rw e refl
  | inr e ↦ rw e refl
]

-- Other rows, with the same choices.
abbrev pub wide_logits : List Token → List ℕ
wide_logits context = if leb (length context) 3 then 1 ∷ 6 ∷ [] else 8 ∷ 3 ∷ []

pub wide_chooses :
    (context : List Token) → top_token naturals (wide_logits context) ≡ some (choice context)
unfolding top_token argmax
wide_chooses context = elim (Bool-cases (leb (length context) 3)) [
  | inl e ↦ rw e refl
  | inr e ↦ rw e refl
]

abbrev three_drafts : List Token
three_drafts = 1 ∷ 1 ∷ 1 ∷ []

two_accepted :
    verify_outputs naturals
      (1 ∷ 1 ∷ 1 ∷ [])
      (rows_after naturals logits (8 ∷ []) (9 ∷ 1 ∷ 1 ∷ 1 ∷ []))
    ≡ some ((1, true) ∷ (1, true) ∷ (0, false) ∷ [])
unfolding verify_outputs rows_after top_token argmax
two_accepted = refl

abbrev prompt : List Token
prompt = 8 ∷ []

verify_outputs-greedy_example :
    let start = prompt ++ 9 ∷ [] in
    let k = agreeing choice start three_drafts in
    let outputs =
      speculative_committed_outputs three_drafts k (choice (start ++ take k three_drafts)) in
    (verify_outputs naturals three_drafts (rows_after naturals logits prompt (9 ∷ three_drafts))
      ≡ some outputs)
    × (tokens_of outputs ≡ greedy choice start (k + 1))
    × (k ≤ length three_drafts)
    × (get_elem? three_drafts k ≢ some (choice (start ++ take k three_drafts)))
verify_outputs-greedy_example =
    verify_outputs-greedy naturals logits choice chooses prompt three_drafts 9

abbrev turn : ThinkingBudget
turn = record {
  budget = 3;
  committed = 0;
  close_tokens = 7 ∷ 8 ∷ [];
  forced_close_tokens = 6 ∷ [];
  recent = [];
  active = true;
  forced = false;
}

turn-from_tokens : from_tokens (some 3) (7 ∷ 8 ∷ []) (6 ∷ []) ≡ some (some turn)
unfolding from_tokens
turn-from_tokens = refl

abbrev commits : List Commit
commits = (1, true) ∷ (7, true) ∷ (2, false) ∷ (7, false) ∷ (8, true) ∷ (9, true) ∷ []

closed_by_the_tag :
    observe_all turn commits
    ≡ continue ∷ continue ∷ continue ∷ continue ∷ natural_closure ∷ continue ∷ []
unfolding observe_all observe_committed
closed_by_the_tag = refl

observe_all-from_tokens_example : observe_all turn commits ≡ boundaries 3 (7 ∷ 8 ∷ []) [] commits
observe_all-from_tokens_example =
    observe_all-from_tokens 3 (7 ∷ 8 ∷ []) (6 ∷ []) turn commits turn-from_tokens

-- Hundredths in place of floats.
abbrev pub hundredths : FloatOps
hundredths = record {
  Float = ℕ;
  literal = λ m k. m * 100 / 10 ^ k;
  of_usize = λ n. n * 100;
  add = λ a b. a + b;
  sub = λ a b. a - b;
  mul = λ a b. a * b / 100;
  div = λ a b. a * 100 / b;
  lt = ltb;
  ge = λ a b. leb b a;
}

abbrev pub ngram_only : GenerationOptions hundredths
ngram_only = record {
  speculative_mode = SpeculativeMode.off;
  policy = record {
    ngram_draft_floor = 9;
    mtp_depth_floor = 0;
    mtp_depth_start = 4;
    ngram_suspend_below = 40;
    mtp_suspend_below = 50;
    ewma_alpha = 20;
    backoff_tokens = 64;
    backoff_cap = 512;
    adaptive_length = true;
    ewma_backoff = true;
  };
  speculative_mtp_draft_tokens = 0;
  speculative_ngram_draft_tokens = 5;
}

deprecated_flag_is_a_mode : effective_speculative_mode hundredths ngram_only ≡ SpeculativeMode.ngram
unfolding effective_speculative_mode
deprecated_flag_is_a_mode = refl

arm_configs-enabled_example :
    let (ngram, mtp) = arm_configs hundredths ngram_only SpeculativeMode.ngram true in
    (1 ≤ ngram.floor)
    × (ngram.floor ≤ ngram.cap)
    × (1 ≤ mtp.floor)
    × (mtp.floor ≤ mtp.cap)
    × (effective_start hundredths ngram ≡ ngram.cap)
    × (mtp.floor ≤ effective_start hundredths mtp)
    × (effective_start hundredths mtp ≤ mtp.cap)
    × (ngram.enabled ≡ allows_ngram SpeculativeMode.ngram)
    × (mtp.enabled ≡ allows_mtp SpeculativeMode.ngram && true)
arm_configs-enabled_example = arm_configs-enabled hundredths ngram_only SpeculativeMode.ngram true
