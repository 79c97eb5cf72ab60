-- ===== src/Stop/Stream.antt =====
-- The stop buffer of src/server/stop.rs over a whole stream, against a search of all the text.
use Prim.Native.Nat.add
use mathlib.Core.Option
use inferq.Prelude.{
  ℕ, ◌+◌, ◌-◌, ◌≡◌, refl, sym, ap, ◌∙◌, Bool, true, false, Option, none, some, List, [], ◌∷◌, ◌++◌,
  arith, length, take, drop, All, inl, inr, length-append, length-take, append_assoc, append-nil,
  take-append-drop, Option-cases,
}
use inferq.Stop.{
  Bytes, StopBuffer, split_at, earliest, longest_partial_from, longest_partial_suffix, push, flush,
  new, nonempty_stops, is_empty,
}
use inferq.Stop.Text.{IsText, IsStop}
use inferq.Stop.Hold.{nothing_kept, longest_partial_from-IsHold}
use inferq.Stop.Settled.{
  Settled, All-Settled, longest-Pending, earliest-append, earliest-boundary, Settled-start,
}

abbrev pub emit_before : Bytes → Bytes × Bool → Bytes × Bool
emit_before e (text, ended) = (e ++ text, ended)

-- A stream as its consumer sees it: chunks are pushed until one completes a stop, and what is held
-- at the end of the stream is flushed. The text that came out, and whether a stop ended it.
unfoldable pub feed : StopBuffer → List Bytes → Option (Bytes × Bool)
feed buffer [] = some ((flush buffer).0, false)
feed buffer (chunk ∷ chunks) = elim (push buffer chunk) [
  | none ↦ none
  | some (step, rest) ↦ elim step.matched [
    | true ↦ some (step.emit, true)
    | false ↦ Option.map (emit_before step.emit) (feed rest chunks)
  ]
]

-- The same by keeping all the text: after each chunk everything is searched again, and the first
-- stop cuts the text where it begins.
unfoldable pub search_all : List Bytes → Bytes → List Bytes → Bytes × Bool
search_all stops seen [] = (seen, false)
search_all stops seen (chunk ∷ chunks) = elim (earliest stops (seen ++ chunk)) [
  | some at ↦ (take at (seen ++ chunk), true)
  | none ↦ search_all stops (seen ++ chunk) chunks
]

nonempty_stops-IsStop : (stops : List Bytes) → All IsText stops → All IsStop (nonempty_stops stops)
unfolding nonempty_stops is_empty
nonempty_stops-IsStop [] h = tt
nonempty_stops-IsStop ([] ∷ stops) (h, hs) = nonempty_stops-IsStop stops hs
nonempty_stops-IsStop ((b ∷ s) ∷ stops) (h, hs) = ((omega arith, h), nonempty_stops-IsStop stops hs)

abbrev buffer_of : List Bytes → Bytes → StopBuffer
buffer_of stops held = record { stops = stops; held = held }

-- `push` when a stop is complete, and when none is.
push-matched :
    (stop : Bytes) (stops : List Bytes) (held chunk : Bytes) (at : ℕ)
    → All IsStop (stop ∷ stops)
    → earliest (stop ∷ stops) (held ++ chunk) ≡ some at
    → push (buffer_of (stop ∷ stops) held) chunk
      ≡ some
          (record { emit = take at (held ++ chunk); matched = true }, buffer_of (stop ∷ stops) [])
unfolding push split_at
push-matched stop stops held chunk at h found =
    rw (found, push, earliest-boundary (stop ∷ stops) (held ++ chunk) at h found) refl

push-held :
    (stop : Bytes) (stops : List Bytes) (held chunk : Bytes)
    → All IsStop (stop ∷ stops)
    → earliest (stop ∷ stops) (held ++ chunk) ≡ none
    → let cut = length (held ++ chunk) - longest_partial_from (stop ∷ stops) (held ++ chunk) 0 in
      push (buffer_of (stop ∷ stops) held) chunk
      ≡ some (
        record { emit = take cut (held ++ chunk); matched = false },
        buffer_of (stop ∷ stops) (drop cut (held ++ chunk)),
      )
unfolding push split_at longest_partial_suffix
push-held stop stops held chunk h missing =
    rw
      (
        missing,
        push,
        (longest_partial_from-IsHold (stop ∷ stops) (held ++ chunk) 0 h
            (nothing_kept (held ++ chunk))).1,
      )
      refl

map-emit_before :
    (e t : Bytes) (o : Option (Bytes × Bool))
    → Option.map (emit_before e) (Option.map (emit_before t) o)
      ≡ Option.map (emit_before (e ++ t)) o
map-emit_before e t none = refl
map-emit_before e t (some (text, ended)) = rw (append_assoc e t text) refl

take-append_add : (e g : Bytes) (n : ℕ) → take (length e + n) (e ++ g) ≡ e ++ take n g
take-append_add [] g n = rw add.zero refl
take-append_add (b ∷ e) g n = rw (add.suc, take-append_add e g n) refl

feed-search_all_from :
    (stop : Bytes) (stops : List Bytes) (e held : Bytes) (chunks : List Bytes)
    → All IsStop (stop ∷ stops)
    → All IsText chunks
    → All (Settled e held) (stop ∷ stops)
    → Option.map (emit_before e) (feed (buffer_of (stop ∷ stops) held) chunks)
      ≡ some (search_all (stop ∷ stops) (e ++ held) chunks)
unfolding feed search_all
feed-search_all_from stop stops e held [] are_stops texts old = unfold flush in refl
feed-search_all_from stop stops e held (chunk ∷ chunks) are_stops (text, texts) old =
    elim (Option-cases (earliest (stop ∷ stops) (held ++ chunk))) [
      | inl missing ↦
          let g = held ++ chunk in
          let hold = longest_partial_from (stop ∷ stops) g 0 in
          let cut = length g - hold in
          let fits =
            (longest_partial_from-IsHold (stop ∷ stops) g 0 are_stops (nothing_kept g)).0 in
          let whole : (e ++ take cut g) ++ drop cut g ≡ e ++ g =
            append_assoc e (take cut g) (drop cut g) ∙ ap (λ t. e ++ t) (take-append-drop cut g) in
          let settled =
            All-Settled (stop ∷ stops) e held chunk (e ++ take cut g) (drop cut g) hold old text
              (longest-Pending (stop ∷ stops) g) missing whole
              (omega (arith, length-append e (take cut g), length-take cut g)) in
          rw
            (
              push-held stop stops held chunk are_stops missing,
              feed,
              append_assoc e held chunk,
              earliest-append (stop ∷ stops) e held chunk old text,
              search_all,
              missing,
            )
            (map-emit_before e (take cut g) (feed (buffer_of (stop ∷ stops) (drop cut g)) chunks)
              ∙ feed-search_all_from stop stops (e ++ take cut g) (drop cut g) chunks are_stops
                  texts settled
              ∙ ap (λ t. some (search_all (stop ∷ stops) t chunks))
                  (whole ∙ sym (append_assoc e held chunk)))
      | inr (at, found) ↦
          rw
            (
              push-matched stop stops held chunk at are_stops found,
              feed,
              append_assoc e held chunk,
              earliest-append (stop ∷ stops) e held chunk old text,
              search_all,
              found,
            )
            (rw (append_assoc e held chunk) (
              ap (λ t. let r : Bytes × Bool = (t, true) in some r)
                (sym (take-append_add e (held ++ chunk) at))))
    ]

feed-no_stops :
    (chunks : List Bytes) (e : Bytes)
    → Option.map (emit_before e) (feed (buffer_of [] []) chunks) ≡ some (search_all [] e chunks)
unfolding feed search_all push earliest flush
feed-no_stops [] e = rw append-nil refl
feed-no_stops (chunk ∷ chunks) e =
    map-emit_before e chunk (feed (buffer_of [] []) chunks) ∙ feed-no_stops chunks (e ++ chunk)

map-emit_nothing : (o : Option (Bytes × Bool)) → Option.map (emit_before []) o ≡ o
map-emit_nothing none = refl
map-emit_nothing (some r) = refl

feed-eq-search_all :
    (stops chunks : List Bytes)
    → All IsStop stops
    → All IsText chunks
    → feed (buffer_of stops []) chunks ≡ some (search_all stops [] chunks)
feed-eq-search_all [] chunks are_stops texts =
    sym (map-emit_nothing (feed (buffer_of [] []) chunks)) ∙ feed-no_stops chunks []
feed-eq-search_all (stop ∷ stops) chunks are_stops texts =
    sym (map-emit_nothing (feed (buffer_of (stop ∷ stops) []) chunks))
    ∙ feed-search_all_from stop stops [] [] chunks are_stops texts (Settled-start (stop ∷ stops))

-- However a text is cut into chunks, a new stop buffer never panics and lets out exactly what a
-- search of all the text so far after each chunk would: everything if no stop sequence occurs,
-- and otherwise what stands before the earliest stop in the text of the chunk that completes one.
-- The stop sequences and the chunks are texts, so they begin with a byte that begins a character.
pub feed-new :
    (stops chunks : List Bytes)
    → All IsText stops
    → All IsText chunks
    → feed (new stops) chunks ≡ some (search_all (nonempty_stops stops) [] chunks)
unfolding new
feed-new stops chunks texts chunk_texts =
    feed-eq-search_all (nonempty_stops stops) chunks (nonempty_stops-IsStop stops texts) chunk_texts
