-- ===== src/Speculative/Tests.antt =====
-- Runs of the arm controllers, over hundredths in place of floats.
use inferq.Prelude.{
  ℕ, ◌+◌, ◌-◌, ◌*◌, ◌/◌, ◌^◌, ◌≤◌, ◌≡◌, refl, arith, min, true, false, none, some, List, [], ◌∷◌,
  ◌++◌, ltb, leb, length, take, drop, All, u64_max, get_elem?,
}
use inferq.Ngram.{Token, NgramDraft}
use inferq.Ngram.Cut.{IsContinuation}
use inferq.Speculative.{ArmController, ngram_config}
use inferq.Speculative.Floats.{FloatOps}
use inferq.Speculative.Controller.{new, poll, observe}
use inferq.Speculative.Span.{SpanCursor, chain_span, next_links}
use inferq.Speculative.Chain.{chain_span-committed}
use inferq.Speculative.Bounds.{Reach, here, observed, IsControlled, Reach-IsControlled}
use inferq.Speculative.Backoff.{
  poll_each, poll_answers, Probe, probe_rounds, rests_until, Fails, suspension_lasts,
  failed_probes_double,
}

abbrev hundredths : FloatOps
hundredths = record {
  Float = ℕ;
  literal = λ m k. m * 100 / 10 ^ k;
  of_usize = λ n. n * 100;
  add = λ a b. a + b;
  sub = λ a b. a - b;
  mul = λ a b. a * b / 100;
  div = λ a b. a * 100 / b;
  lt = ltb;
  ge = λ a b. leb b a;
}

abbrev fresh : ArmController hundredths
fresh = new hundredths (ngram_config hundredths 7)

-- Rejected drafts until the moving average falls below the bar.
abbrev rejected : ArmController hundredths
rejected =
    observe hundredths
      (observe hundredths
        (observe hundredths (observe hundredths (observe hundredths fresh 4 0 1) 4 0 2) 4 0 3) 4 0
        4)
      4 0 5

suspended : rejected.suspended_until ≡ some 69
unfolding observe new ngram_config
suspended = refl

rejected-enabled : rejected.config.enabled ≡ true
unfolding observe new ngram_config
rejected-enabled = refl

suspension_lasts_example :
    (poll_answers hundredths rejected (6 ∷ 7 ∷ 68 ∷ []) ≡ false ∷ false ∷ false ∷ [])
    × ((poll_each hundredths rejected (6 ∷ 7 ∷ 68 ∷ [])).stats.suspended_steps
        ≡ rejected.stats.suspended_steps + 3)
    × ((poll hundredths (poll_each hundredths rejected (6 ∷ 7 ∷ 68 ∷ [])) 70).1 ≡ true)
    × ((poll hundredths (poll_each hundredths rejected (6 ∷ 7 ∷ 68 ∷ [])) 70).0.probing ≡ true)
    × ((poll hundredths (poll_each hundredths rejected (6 ∷ 7 ∷ 68 ∷ [])) 70).0.suspended_until
        ≡ none)
suspension_lasts_example =
    suspension_lasts hundredths rejected 69 (6 ∷ 7 ∷ 68 ∷ []) 70 rejected-enabled suspended
      (omega arith, (omega arith, (omega arith, tt))) (omega arith)

reached : Reach hundredths fresh (observe hundredths (poll hundredths fresh 1).0 4 0 1)
unfolding poll new ngram_config
reached = observed 4 0 1 here refl (omega arith)

Reach-IsControlled_example :
    ((observe hundredths (poll hundredths fresh 1).0 4 0 1).config ≡ ngram_config hundredths 7)
    × IsControlled hundredths (observe hundredths (poll hundredths fresh 1).0 4 0 1)
Reach-IsControlled_example =
    Reach-IsControlled hundredths (ngram_config hundredths 7)
      (observe hundredths (poll hundredths fresh 1).0 4 0 1) reached

-- The first probe comes one token late and commits one row, the second on time with two rows.
abbrev failures : List (Probe hundredths)
failures =
    record { late = 1; committed_rows = 1; proposed = 4; accepted = 0 }
    ∷ record { late = 0; committed_rows = 2; proposed = 4; accepted = 1 }
    ∷ []

failures-Fails : All (Fails hundredths rejected.config) failures
unfolding observe new ngram_config
failures-Fails = ((omega arith, refl), ((omega arith, refl), tt))

rejected-window :
    (rejected.config.backoff ≡ true)
    × (rejected.config.backoff_cap ≤ u64_max)
    × (rejected.backoff_window ≤ rejected.config.backoff_cap)
unfolding observe new ngram_config
rejected-window = (refl, omega arith, omega arith)

failed_probes_double_example :
    ((probe_rounds hundredths rejected failures).suspended_until
      ≡ some
          (rests_until hundredths rejected.config.backoff_cap 69 rejected.backoff_window failures))
    × ((probe_rounds hundredths rejected failures).backoff_window
        ≡ min (2 ^ length failures * rejected.backoff_window) rejected.config.backoff_cap)
failed_probes_double_example =
    failed_probes_double hundredths rejected 69 failures rejected-enabled rejected-window.0
      suspended rejected-window.1 rejected-window.2 failures-Fails

rests_run : rests_until hundredths 512 69 64 failures ≡ 69 + 2 + 128 + 2 + 256
unfolding rests_until
rests_run = refl

abbrev source : List Token
source = 1 ∷ 2 ∷ 3 ∷ 4 ∷ 5 ∷ 1 ∷ 2 ∷ []

abbrev proposal : NgramDraft
proposal = record {
  tokens = 3 ∷ 4 ∷ [];
  match_len = 2;
  source_position = 1;
  truncated_at_stop = false;
}

proposal-IsContinuation : IsContinuation source 2 (λ _. false) proposal
proposal-IsContinuation = record {
  nonempty = omega arith;
  bounded = omega arith;
  inside = omega arith;
  copied = refl;
  no_stop = (refl, (refl, tt));
  stopped = λ e. ground arith;
}

abbrev chained : SpanCursor
chained = record { next = 5; match_len = 2; links = 1 }

chains : chain_span none 1 2 2 2 (get_elem? source (1 + 1 + 2)) 5 ≡ some chained
unfolding chain_span
chains = refl

chain_span-committed_example :
    (2 ≡ length proposal.tokens)
    × (take
          (chained.next - (proposal.source_position + 1))
          (drop (proposal.source_position + 1) source)
        ≡ proposal.tokens ++ 5 ∷ [])
    × (chained.match_len ≡ proposal.match_len)
    × (chained.links ≡ next_links none)
chain_span-committed_example =
    chain_span-committed source 2 (λ _. false) proposal none 2 5 chained proposal-IsContinuation
      chains
