-- ===== src/Speculative/Span.antt =====
-- `SpanCursor` and `chain_span` of src/speculative.rs.
use inferq.Prelude.{ℕ, ◌+◌, Bool, false, not, ◌||◌, Option, none, some, ◌==◌, if◌then◌else◌}

pub record SpanCursor : Type 0 where
  pub next : ℕ
  pub match_len : ℕ
  pub links : ℕ

unfoldable pub after : ℕ → ℕ → ℕ → ℕ → SpanCursor
after source_position len match_len links = record {
  next = source_position + 1 + len;
  match_len = match_len;
  links = links;
}

-- `follow_token != Some(authoritative)`, turned round.
unfoldable pub follows : Option ℕ → ℕ → Bool
follows none authoritative = false
follows (some token) authoritative = token == authoritative

unfoldable pub next_links : Option SpanCursor → ℕ
next_links none = 1
next_links (some cursor) = cursor.links + 1

unfoldable pub chain_span : Option SpanCursor → ℕ → ℕ → ℕ → ℕ → Option ℕ → ℕ → Option SpanCursor
unfolding after follows next_links
chain_span previous source_position proposed accepted match_len follow_token authoritative =
    if proposed == 0 || not (accepted == proposed)
    then none
    else if not (follows follow_token authoritative)
    then none
    else some (after source_position (proposed + 1) match_len (next_links previous))
