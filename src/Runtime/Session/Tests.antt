-- ===== src/Runtime/Session/Tests.antt =====
-- Runs of whole turns, with and without speculation.
use inferq.Prelude.{
  ℕ, ◌+◌, ◌≡◌, refl, arith, Bool, true, false, none, some, List, [], ◌∷◌, length, ltb, leb, ◌==◌,
}
use inferq.Ngram
use inferq.Ngram.{Token}
use inferq.Sampling.{argmax}
use inferq.Speculative.{SpeculativeMode, allows_ngram, allows_mtp, is_speculative, effective_start}
use inferq.Speculative.Span.{chain_span}
use inferq.Speculative.Controller
use inferq.Runtime.Arms.{effective_speculative_mode}
use inferq.Runtime.Verify.{top_token}
use inferq.Runtime.Greedy.{greedy}
use inferq.Runtime.ThinkingBudget.{ThinkingBudget, observe_committed, remaining}
use inferq.Runtime.Turn.{TurnOptions, finished, failed, closure_of}
use inferq.Runtime.TargetOnly.{continuation_input, generate_target_only}
use inferq.Runtime.TargetOnly.Ends.{Ends, generate_target_only-Ends}
use inferq.Runtime.TargetOnly.Plain.{through_stop, Emits, generate_target_only-greedy}
use inferq.Runtime.Policy.{Drafter, generate_speculative_policy}
use inferq.Runtime.Policy.Equivalence.{IsBounded}
use inferq.Runtime.Policy.Opening.{generate_speculative_policy-eq-generate_target_only}
use inferq.Runtime.Selection.{Predictor, Source, propose_round, selection}
use inferq.Runtime.Selection.Within.{IsWithin, propose_round-IsWithin, selection-IsBounded}
use inferq.Runtime.Session.{
  Session, Asked, turn_options, drafting_of, is_stop_of, source_of, is_stop_token, combines_flags,
  allows_policy, generate_tokens,
}
use inferq.Runtime.Session.Modes.{is_accepted, unspeculated, generate_tokens-eq-unspeculated}
use inferq.Runtime.Tests.{
  naturals, logits, choice, chooses, wide_logits, wide_chooses, hundredths, ngram_only,
}

-- A predictor that always drafts token 1, less sure from draft to draft.
abbrev ones : Predictor
ones = record {
  State = ℕ;
  Score = ℕ;
  lt = ltb;
  ge = λ a b. leb b a;
  forward = λ state token. ((1, 9, 9), state + 1);
  catch_up = λ state. state;
  retain = λ tokens state. state + length tokens;
}

abbrev session : Session hundredths ones
session = record {
  evaluated = 8 ∷ [];
  pending_token = some 9;
  ngram = Ngram.new;
  predictor = 0;
  has_predictor = true;
  predictor_ready = true;
}

abbrev asked : Asked hundredths ones
asked = record {
  generation = record ngram_only { speculative_mode = SpeculativeMode.auto };
  drafting = record {
    ngram_min_match = 2;
    speculative_mtp_min_margin = some 3;
    mtp_min_confidence = 5;
    span_continuation = true;
    eager_mtp_resync = false;
    track_mtp = false;
  };
  max_new_tokens = 6;
  max_position = 12;
  eos_token_id = some (2 ∷ []);
  stop_tokens = 3 ∷ [];
  thinking_budget = some 2;
  close_tokens = 7 ∷ 8 ∷ [];
  forced_close_tokens = 7 ∷ 8 ∷ 5 ∷ [];
}

abbrev accepts : List Token → Bool
accepts generated = ltb (length generated) 40

abbrev prompt : List Token
prompt = 4 ∷ []

-- One draft is right, then the budget of two tokens closes the block.
a_closed_turn :
    generate_tokens hundredths ones naturals logits wide_logits session asked accepts prompt
    ≡ finished (record {
      generated = 1 ∷ 0 ∷ 7 ∷ 8 ∷ 5 ∷ 0 ∷ [];
      evaluated = 8 ∷ 9 ∷ 4 ∷ 1 ∷ 0 ∷ 7 ∷ 8 ∷ 5 ∷ [];
      pending_token = some 0;
      thinking = some (record {
        budget = 2;
        committed = 2;
        close_tokens = 7 ∷ 8 ∷ [];
        forced_close_tokens = 7 ∷ 8 ∷ 5 ∷ [];
        recent = 1 ∷ 0 ∷ [];
        active = false;
        forced = true;
      });
    })
unfolding generate_tokens top_token argmax observe_committed is_stop_token Controller.poll
    allows_ngram allows_mtp remaining Ngram.draft Ngram.continue_from Ngram.push Ngram.extend
    Ngram.clear Ngram.new Controller.observe chain_span effective_start
a_closed_turn = refl

-- With positions for the input and one token, a pass over the pending token and a draft goes beyond
-- them: the turn ends with an error.
beyond_the_positions :
    generate_tokens hundredths ones naturals logits wide_logits session
      (record asked { max_position = 4 })
      accepts
      prompt
    ≡ failed
unfolding generate_tokens top_token argmax observe_committed is_stop_token Controller.poll
    allows_ngram allows_mtp remaining Ngram.draft Ngram.continue_from Ngram.push Ngram.extend
    Ngram.clear Ngram.new Controller.observe chain_span effective_start
beyond_the_positions = refl

asked-is_accepted :
    is_accepted hundredths ones naturals logits wide_logits choice chooses wide_chooses session
      asked
    ≡ true
unfolding combines_flags effective_speculative_mode is_speculative allows_policy
asked-is_accepted = refl

generate_tokens-eq-unspeculated_example :
    generate_tokens hundredths ones naturals logits wide_logits session asked accepts prompt
    ≡ generate_tokens hundredths ones naturals logits wide_logits session
        (unspeculated hundredths ones naturals logits wide_logits choice chooses wide_chooses asked)
        accepts
        prompt
generate_tokens-eq-unspeculated_example =
    generate_tokens-eq-unspeculated hundredths ones naturals logits wide_logits choice chooses
      wide_chooses session asked accepts prompt asked-is_accepted
      (unfold continuation_input in omega arith)

abbrev auto_source :
    Source hundredths ones
      (is_stop_of hundredths ones asked)
      (drafting_of hundredths ones session asked SpeculativeMode.auto)
auto_source = source_of hundredths ones session asked SpeculativeMode.auto prompt

abbrev auto_drafter : Drafter
auto_drafter =
    selection hundredths ones (is_stop_of hundredths ones asked)
      (drafting_of hundredths ones session asked SpeculativeMode.auto)

auto_state : auto_drafter.State
unfolding selection
auto_state = auto_source

auto_drafter-IsBounded : IsBounded (turn_options hundredths ones asked accepts) auto_drafter
auto_drafter-IsBounded =
    selection-IsBounded hundredths ones (is_stop_of hundredths ones asked)
      (drafting_of hundredths ones session asked SpeculativeMode.auto)
      (turn_options hundredths ones asked accepts) refl

abbrev open_block : ThinkingBudget
open_block = record {
  budget = 2;
  committed = 0;
  close_tokens = 7 ∷ 8 ∷ [];
  forced_close_tokens = 7 ∷ 8 ∷ 5 ∷ [];
  recent = [];
  active = true;
  forced = false;
}

generate_speculative_policy-eq_example :
    generate_speculative_policy naturals logits
      (turn_options hundredths ones asked accepts)
      auto_drafter
      (8 ∷ [])
      (some 9)
      prompt
      (some open_block)
      auto_state
    ≡ generate_target_only naturals wide_logits
        (turn_options hundredths ones asked accepts)
        (8 ∷ [])
        (some 9)
        prompt
        (some open_block)
generate_speculative_policy-eq_example =
    generate_speculative_policy-eq-generate_target_only naturals logits wide_logits
      (turn_options hundredths ones asked accepts) auto_drafter choice chooses wide_chooses
      auto_drafter-IsBounded (8 ∷ []) (some 9) prompt (some open_block) auto_state (omega arith)
      (unfold continuation_input closure_of in omega arith)

propose_round-IsWithin_example :
    IsWithin
      (is_stop_of hundredths ones asked)
      3
      (propose_round hundredths ones
        (is_stop_of hundredths ones asked)
        (drafting_of hundredths ones session asked SpeculativeMode.auto)
        1
        1
        3
        auto_source).0
propose_round-IsWithin_example =
    propose_round-IsWithin hundredths ones (is_stop_of hundredths ones asked)
      (drafting_of hundredths ones session asked SpeculativeMode.auto) 1 1 3 auto_source

generate_target_only-Ends_example : Ends (8 ∷ 9 ∷ 4 ∷ []) (
    generate_target_only naturals logits
      (turn_options hundredths ones asked accepts)
      (8 ∷ [])
      (some 9)
      prompt
      (some open_block))
unfolding continuation_input
generate_target_only-Ends_example =
    generate_target_only-Ends naturals logits (turn_options hundredths ones asked accepts) (8 ∷ [])
      (some 9) prompt (some open_block)

abbrev plain_options : TurnOptions
plain_options = record {
  max_position = 7;
  max_new_tokens = 5;
  is_stop = λ token. token == 0;
  on_token = λ generated. true;
}

generate_target_only-greedy_example :
    Emits naturals logits plain_options choice chooses
      (λ generated. refl)
      (generate_target_only naturals logits plain_options (8 ∷ []) none (9 ∷ []) none)
      (through_stop plain_options.is_stop (greedy choice (8 ∷ 9 ∷ []) 5))
unfolding continuation_input
generate_target_only-greedy_example =
    generate_target_only-greedy naturals logits plain_options choice chooses (λ generated. refl)
      (8 ∷ []) none (9 ∷ []) (omega arith) (omega arith)
