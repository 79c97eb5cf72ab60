-- ===== src/Lib.antt =====
-- A verification library for inferq, a CPU inference program for Qwen models with speculative
-- decoding and an OpenAI-compatible server.
--
-- The program. A session (src/runtime.rs) owns the token sequence and asks the target model for rows
-- of logits. Each decode step takes a draft, either copied from the sequence itself by the n-gram
-- index (src/ngram.rs) or computed by the model's predictor block, and verifies it in one pass: the
-- greedy choice (src/sampling.rs) of each row decides how many drafts are accepted, and the choice
-- behind the last accepted one is committed as well. One controller for each source of drafts
-- (src/speculative.rs) sets the length of the next draft and suspends a source whose drafts fail; a
-- cursor lets an accepted n-gram draft be continued where it was copied from. A thinking budget
-- (src/runtime.rs), which the server plans from the request (src/server/thinking.rs), closes a
-- thinking block by force. The server streams the decoded text through a buffer that holds back
-- what a stop sequence could still consume (src/server/stop.rs). A request enters through a bounded
-- queue that all connections share (src/server/engine.rs), with its options resolved over those of
-- the server (src/server/request.rs). Tool calls are read out of the text
-- and written back into the next prompt in the model's own markup (src/tool_calls.rs).
--
-- Files and code:
--   Prelude, Prelude/Tests, Prelude/Lists: names passed on, Boolean tests, list functions.
--   Ngram: `NgramIndex`, `NgramDraft`, `fnv1a_tokens` of src/ngram.rs, operation by operation;
--     Ngram/Windows and Ngram/Recent: what the index holds after pushes; Ngram/Lookup: the match;
--     Ngram/Cut, Ngram/Draft, Ngram/Longest: the proposals.
--   Stop: `StopBuffer` of src/server/stop.rs; Stop/Text: searches in byte strings; Stop/Hold and
--     Stop/Settled: what is held back; Stop/Stream: a whole stream.
--   Speculative: modes and configurations of src/speculative.rs; Speculative/Controller:
--     `ArmController`; Speculative/Span: `SpanCursor` and `chain_span`; Speculative/Bounds,
--     Speculative/Backoff, Speculative/Chain: their properties.
--   Sampling: `argmax` of src/sampling.rs; Sampling/Argmax: its property.
--   Runtime/Verify: `accepted_draft_prefix`, `speculative_committed_outputs` and the verification
--     step of `generate_speculative_policy` in src/runtime.rs; Runtime/Greedy: against plain greedy
--     decoding; Runtime/ThinkingBudget: `ThinkingBudget`, with Runtime/ThinkingBudget/History.
--   Runtime/Arms: `effective_speculative_mode` and `arm_configs` of src/runtime.rs.
--   Runtime/Turn: the state of one turn and how it ends, shared by both decoding loops;
--     Runtime/Turn/Budget: the thinking budget as the turn observes its tokens.
--   Runtime/TargetOnly: the target-only path of `generate_tokens_with_callback` and
--     `force_close_thinking_target_only`; Runtime/TargetOnly/Ends: how a turn ends;
--     Runtime/TargetOnly/Plain: against plain greedy decoding; Runtime/TargetOnly/Choice: what it
--     reads of a row.
--   Runtime/Policy: the loop of `generate_speculative_policy` for any source of drafts, with
--     `sample_and_emit`, `evaluate_authoritative` and `force_close_thinking_policy`; its children, from
--     Runtime/Policy/Outputs to Runtime/Policy/Opening: against the target-only path, output by
--     output, pass by pass and turn by turn.
--   Runtime/Selection: the code's source of drafts: the polls, the lookup, the choice of an arm,
--     `draft_mtp`, what `observe`, `retain_mtp_gap` and `chain_span` are told; Runtime/Selection/Within:
--     its bounds.
--   Runtime/Session: `generate_tokens_with_callback` and what `generate_speculative_policy` checks and
--     sets up, with `is_stop_token` and `prefill_in_passes`; Runtime/Session/Modes: the modes against
--     one another.
--   Runtime/MtpGap: the retained gap of the predictor in src/runtime.rs (`gap_after_rollback`,
--     `truncate_mtp_gap`, `retain_mtp_gap`), with `truncate` of src/qwen/quantized_attention.rs;
--     Runtime/MtpGap/Rollback: its properties.
--   PromptCache: the configuration, `boundaries` and `store_boundary` of src/prompt_cache/mod.rs;
--     PromptCache/Boundaries: their property; PromptCache/Index: `EntryKey`, `EntryMeta` and `Index`,
--     with PromptCache/Index/Accounts; PromptCache/Evict: `evict`, with PromptCache/Evict/Keep and
--     PromptCache/Evict/Budget; PromptCache/Lookup: `lookup` and `discard`, with what reading an
--     entry's file (src/prompt_cache/format.rs) gives as an argument, and PromptCache/Lookup/Prefix.
--   Server/Thinking: `ThinkingPolicy::validate` and `plan` of src/server/thinking.rs with the
--     accessors of src/server/api.rs; Server/Thinking/Bounds: its property.
--   Server/Queue: `EngineHandle::submit`, `reserve_slot` and `QueueSlot` of src/server/engine.rs as
--     steps of interleaved callers; Server/Queue/Invariant: the count; Server/Queue/Admission: how a
--     call returns.
--   Server/RequestOptions: `resolve_options` of src/server/request.rs and
--     `disable_speculation_for_sampling` of src/server/engine.rs; Server/RequestOptions/Bounds: what it
--     refuses; Server/RequestOptions/Servable: what it gives.
--   ToolCalls: parsing and `render` of src/tool_calls.rs, its texts as bytes; ToolCalls/Free and
--     ToolCalls/RoundTrip: a rendered call read back; ToolCalls/Scan: `object_members`, the scans, the
--     typing of arguments and `python_json`; ToolCalls/Scan/Prefix: what a scan passes
--     over; ToolCalls/Scan/Texts: arguments written and scanned back; ToolCalls/Enough and ToolCalls/Scan/Enough: that their fuel is enough.
--   The Tests modules hold runs and the instances of the theorems.
--
-- Conventions. A `usize` is a natural number without the limit of 2^64, since the counts are of tokens
-- and bytes in memory; wrapping and saturating operations are written out. A subtraction that the
-- code guards stops at 0. The hash maps of the n-gram index are the functions that a read of them
-- computes, and the one of the prompt cache is the list of its pairs. A string is the list of its
-- UTF-8 bytes, and a slice off a character boundary, which panics, gives `none`. An
-- operation on `&mut self` returns the new state. Floating-point numbers are an argument: for the
-- controllers and a request's options with no law at all, for `argmax` with an order on the finite
-- values. The target model is an argument as well: a function from the tokens so far to a row of logits,
-- one for the passes of the policy and one for those of the target-only path, since a prompt in
-- passes of 512 rows and one wide pass give rows that differ numerically (src/runtime.rs,
-- `prefill_in_passes`). Where both paths are compared, a hypothesis says that the greedy choice of
-- both rows is the same. A verification pass that goes beyond `max_position_embeddings`
-- (src/qwen/quantized_model.rs) is an error of the turn; where the paths are compared, a hypothesis
-- says that the input, the token limit and a forced closure fit the positions, so that no pass of
-- either path meets the limit. The output
-- callback is a function of all that a turn has emitted. A loop is a recursion on a list or on a count
-- of rounds, but for two kinds, which take fuel: the decoding loops take `max_new_tokens + 1`
-- rounds, which is enough since each emits a token or ends the turn, and the loops over a text of
-- tool calls take its length, which is enough since each round takes a byte or more. Any other
-- error of the target or of the predictor inside a pass is left out, the position limit of a prefill or
-- of a single row included, and so are the counters and clocks of the run
-- report.
--
-- Not modelled: tensor kernels, the predictor block and the models themselves (src/qwen,
-- src/qgemm.rs), which compute on floats through a third-party library; the random sampler; file
-- formats, the tokenizer, the prompt cache's files and writer thread, JSON itself, HTTP, the worker's
-- thread and its channel; command-line programs; reports.
pub mod Prelude
pub mod Ngram
pub mod Stop
pub mod Speculative
pub mod Sampling
pub mod Runtime
pub mod Server
pub mod PromptCache
pub mod ToolCalls
