-- ===== src/ToolCalls/RoundTrip.antt =====
-- A call that src/tool_calls.rs renders, read back.
use inferq.Prelude.{
  ℕ, zero, suc, ◌≤◌, ◌<◌, ◌≡◌, refl, sym, ap, ◌∙◌, false, none, some, List, [], ◌∷◌, ◌++◌, length,
  drop, ◌==◌, arith, append_assoc, length-append, All,
}
use inferq.Stop.{Bytes, starts_with, find, is_empty}
use inferq.ToolCalls.{
  call_open, call_close, function_open, function_close, parameter_open, parameter_close, trim,
  trim_end, split_on, strip_newline, strip_last_newline, parse_parameters, parse_call, parse_calls,
  parse, render_parameters, render_call,
}
use inferq.ToolCalls.Free.{
  IsFree, IsFree-append, split_on-IsFree, IsFree-All, IsFree-without, IsFree-cut, find-IsFree,
  find-IsFree_before, take-length, drop-front,
}

-- A name or a key as the code writes it: neither bracket in it, and no space around it.
pub record IsName (s : Bytes) : Type 0 where
  pub no_open : All (λ c. (c == 60) ≡ false) s
  pub no_close : All (λ c. (c == 62) ≡ false) s
  pub trimmed : trim s ≡ s

-- A value that holds none of the closing marks.
pub record IsValue (s : Bytes) : Type 0 where
  pub no_call : find call_close s ≡ none
  pub no_function : find function_close s ≡ none
  pub no_parameter : find parameter_close s ≡ none

abbrev pub IsParameter : Bytes × Bytes → Type 0
IsParameter (key, value) = IsName key × IsValue value

-- A closing mark of a block, which no piece of a parameter begins but the value's text may.
record IsMark (p : Bytes) : Type 0 where
  one_line : All (λ c. (c == 10) ≡ false) (60 ∷ p)
  no_open : (w : Bytes) → IsFree (60 ∷ p) parameter_open w
  no_close : (w : Bytes) → IsFree (60 ∷ p) parameter_close w

render_parameters-IsFree :
    (p : Bytes) (parameters : List (Bytes × Bytes)) (w : Bytes)
    → IsMark p
    → All
        (λ (parameter : Bytes × Bytes). IsName parameter.0 × (find (60 ∷ p) parameter.1 ≡ none))
        parameters
    → IsFree (60 ∷ p) (render_parameters parameters) w
unfolding render_parameters starts_with
render_parameters-IsFree p [] w mark clean = tt
render_parameters-IsFree p ((key, value) ∷ parameters) w mark ((name, missing), clean) =
    let rest = render_parameters parameters in
    let closing : IsFree (60 ∷ p) (parameter_close ++ 10 ∷ rest) w =
      IsFree-append (60 ∷ p) parameter_close (10 ∷ rest) w (mark.no_close ((10 ∷ rest) ++ w))
        (refl, render_parameters-IsFree p parameters w mark clean) in
    let body : IsFree (60 ∷ p) (value ++ 10 ∷ (parameter_close ++ 10 ∷ rest)) w =
      IsFree-cut (60 ∷ p) value (parameter_close ++ 10 ∷ rest) w 10 mark.one_line missing closing in
    IsFree-append (60 ∷ p) parameter_open _ w (mark.no_open _)
      (IsFree-without 60 p key _ w name.no_open (refl, (refl, body)))

strip_last_newline-append : (s : Bytes) → strip_last_newline (s ++ 10 ∷ []) ≡ s
unfolding strip_last_newline
strip_last_newline-append [] = refl
strip_last_newline-append (b ∷ []) = refl
strip_last_newline-append (b ∷ c ∷ s) = ap (λ r. b ∷ r) (strip_last_newline-append (c ∷ s))

length-render_parameters :
    (parameters : List (Bytes × Bytes)) → length parameters ≤ length (render_parameters parameters)
unfolding render_parameters
length-render_parameters [] = omega arith
length-render_parameters ((key, value) ∷ parameters) =
    let rest = render_parameters parameters in
    omega (
      arith,
      length-render_parameters parameters,
      length-append key (62 ∷ 10 ∷ (value ++ 10 ∷ (parameter_close ++ 10 ∷ rest))),
      length-append value (10 ∷ (parameter_close ++ 10 ∷ rest)),
    )

parameter_close_on_a_line : All (λ c. (c == 10) ≡ false) parameter_close
parameter_close_on_a_line = ground arith

-- The parameters of a block, read back.
parse_parameters-render_parameters :
    (fuel : ℕ) (parameters : List (Bytes × Bytes))
    → length parameters < fuel
    → All IsParameter parameters
    → parse_parameters fuel (10 ∷ render_parameters parameters) ≡ parameters
unfolding parse_parameters render_parameters starts_with strip_newline
parse_parameters-render_parameters zero parameters lt clean = absurd (omega arith)
parse_parameters-render_parameters (suc fuel) [] lt clean = unfold split_on find in refl
parse_parameters-render_parameters (suc fuel) ((key, value) ∷ parameters) lt ((name, text), clean) =
    let rest = render_parameters parameters in
    let value_text : Bytes = 10 ∷ (value ++ 10 ∷ (parameter_close ++ 10 ∷ rest)) in
    let opened =
      split_on-IsFree 60 (drop 1 parameter_open) (10 ∷ []) (key ++ 62 ∷ value_text) (refl, tt) in
    let keyed =
      split_on-IsFree 62 [] key value_text (IsFree-All 62 [] key (62 ∷ value_text) name.no_close) in
    let framed : (value ++ 10 ∷ []) ++ (parameter_close ++ 10 ∷ rest)
        ≡ value ++ 10 ∷ (parameter_close ++ 10 ∷ rest) =
      append_assoc value (10 ∷ []) (parameter_close ++ 10 ∷ rest) in
    let valued = split_on-IsFree 60 (drop 1 parameter_close) (10 ∷ (value ++ 10 ∷ [])) (10 ∷ rest) (
      refl,
      IsFree-cut parameter_close value [] (parameter_close ++ 10 ∷ rest) 10
          parameter_close_on_a_line text.no_parameter tt,
    ) in
    let valued' : split_on parameter_close value_text ≡ some (10 ∷ (value ++ 10 ∷ []), 10 ∷ rest) =
      rw framed at valued in
    rw (parse_parameters, opened, keyed, valued', name.trimmed, strip_last_newline-append value)
      (ap (λ (r : List (Bytes × Bytes)). (key, value) ∷ r)
        (parse_parameters-render_parameters fuel parameters (omega arith) clean))

call_close-IsMark : IsMark (drop 1 call_close)
unfolding starts_with
call_close-IsMark = record {
  one_line = ground arith;
  no_open = λ w. ground arith;
  no_close = λ w. ground arith;
}

function_close-IsMark : IsMark (drop 1 function_close)
unfolding starts_with
function_close-IsMark = record {
  one_line = ground arith;
  no_open = λ w. ground arith;
  no_close = λ w. ground arith;
}

-- The block of a rendered call, between its two tags.
abbrev block : Bytes → List (Bytes × Bytes) → Bytes
block name parameters =
    10
    ∷ (function_open
        ++ (name ++ 62 ∷ 10 ∷ (render_parameters parameters ++ (function_close ++ 10 ∷ []))))

parse_calls-nil : (n : ℕ) → parse_calls n [] ≡ []
unfolding parse_calls split_on find starts_with
parse_calls-nil zero = refl
parse_calls-nil (suc n) = refl

length-suc : (a b : Bytes) → 0 < length b → (n : ℕ) × (length (a ++ b) ≡ suc n)
length-suc [] [] h = absurd (omega arith)
length-suc [] (x ∷ b) h = (length b, refl)
length-suc (c ∷ a) b h = (length (a ++ b), refl)

module _ (name : Bytes) (parameters : List (Bytes × Bytes)) (named : IsName name)
    (some_byte : 0 < length name) (clean : All IsParameter parameters) where
  without_mark :
      (p : Bytes)
      → ((value : Bytes) → IsValue value → find (60 ∷ p) value ≡ none)
      → All
          (λ (parameter : Bytes × Bytes). IsName parameter.0 × (find (60 ∷ p) parameter.1 ≡ none))
          parameters
  without_mark p missing = All-map parameters clean
    where
      All-map :
          (l : List (Bytes × Bytes))
          → All IsParameter l
          → All
              (λ (parameter : Bytes × Bytes).
                IsName parameter.0 × (find (60 ∷ p) parameter.1 ≡ none))
              l
      All-map [] h = tt
      All-map ((key, value) ∷ l) ((name, text), h) = ((name, missing value text), All-map l h)

  parse_call-block :
      parse_call (block name parameters) ≡ some (record { name = name; parameters = parameters })
  unfolding parse_call starts_with
  parse_call-block =
      let text = render_parameters parameters in
      let inner : Bytes = 10 ∷ (text ++ (function_close ++ 10 ∷ [])) in
      let opened =
        split_on-IsFree 60 (drop 1 function_open) (10 ∷ []) (name ++ 62 ∷ inner) (refl, tt) in
      let keyed =
        split_on-IsFree 62 [] name inner (IsFree-All 62 [] name (62 ∷ inner) named.no_close) in
      let closed = split_on-IsFree 60 (drop 1 function_close) (10 ∷ text) (10 ∷ []) (
        refl,
        render_parameters-IsFree (drop 1 function_close) parameters (function_close ++ 10 ∷ [])
            function_close-IsMark (without_mark (drop 1 function_close) (λ value h. h.no_function)),
      ) in
      let full : is_empty name ≡ false = not_empty name some_byte in
      rw (parse_call, opened, keyed, named.trimmed, full, closed, named.trimmed)
        (ap (λ (ps : List (Bytes × Bytes)). some (record { name = name; parameters = ps }))
          (parse_parameters-render_parameters (length (10 ∷ text)) parameters
            (omega (arith, length-render_parameters parameters)) clean))
    where
      not_empty : (s : Bytes) → 0 < length s → is_empty s ≡ false
      not_empty [] h = absurd (omega arith)
      not_empty (b ∷ s) h = refl

  render_call-eq : render_call name parameters ≡ call_open ++ (block name parameters ++ call_close)
  unfolding render_call
  render_call-eq =
      let text = render_parameters parameters in
      let ends = append_assoc text (function_close ++ 10 ∷ []) call_close in
      let inner : Bytes = 62 ∷ 10 ∷ (text ++ (function_close ++ 10 ∷ [])) in
      ap (λ (r : Bytes). call_open ++ 10 ∷ (function_open ++ r))
        (sym (append_assoc name inner call_close ∙ ap (λ (r : Bytes). name ++ 62 ∷ 10 ∷ r) ends))

  block-IsFree : (w : Bytes) → IsFree call_close (block name parameters) w
  unfolding starts_with
  block-IsFree w =
      let text = render_parameters parameters in
      let closing : IsFree call_close (text ++ (function_close ++ 10 ∷ [])) w =
        IsFree-append call_close text (function_close ++ 10 ∷ []) w
          (render_parameters-IsFree (drop 1 call_close) parameters _ call_close-IsMark
            (without_mark (drop 1 call_close) (λ value h. h.no_call)))
          (ground arith) in
      let opening : (v : Bytes) → IsFree call_close function_open v = λ v. ground arith in
      let named_part : IsFree call_close (name ++ 62 ∷ 10 ∷ (text ++ (function_close ++ 10 ∷ [])))
          w =
        IsFree-without 60 (drop 1 call_close) name _ w named.no_open (refl, (refl, closing)) in
      (
        refl,
        IsFree-append call_close function_open
            (name ++ 62 ∷ 10 ∷ (text ++ (function_close ++ 10 ∷ []))) w
            (opening ((name ++ 62 ∷ 10 ∷ (text ++ (function_close ++ 10 ∷ []))) ++ w)) named_part,
      )

  parse_calls-block :
      (n : ℕ)
      → parse_calls (suc n) (call_open ++ (block name parameters ++ call_close))
        ≡ record { name = name; parameters = parameters } ∷ []
  unfolding parse_calls
  parse_calls-block n =
      let opened =
        split_on-IsFree 60 (drop 1 call_open) [] (block name parameters ++ call_close) tt in
      let closed =
        split_on-IsFree 60 (drop 1 call_close) (block name parameters) []
          (block-IsFree (call_close ++ [])) in
      rw (parse_calls, opened, closed, parse_call-block, parse_calls-nil n) refl

  -- Text and a rendered call behind it are read back as that text without the space at its end, and
  -- the one call, name and parameters byte for byte. The name and the keys hold no angle bracket and no
  -- space at their ends, and the name is not empty; the values are any texts without the three
  -- closing tags; the first opening tag is the one behind the text.
  pub parse-render_call :
      (content : Bytes)
      → find call_open (content ++ call_open) ≡ some (length content)
      → parse (content ++ render_call name parameters)
        ≡ (trim_end content, record { name = name; parameters = parameters } ∷ [])
  unfolding parse parse_calls
  parse-render_call content first =
      let body = block name parameters ++ call_close in
      let text = content ++ (call_open ++ body) in
      let before = find-IsFree_before call_open content body first in
      let found = find-IsFree 60 (drop 1 call_open) content body before in
      let taken = take-length content (call_open ++ body) in
      let dropped = drop-front content (call_open ++ body) in
      let (n, long) = length-suc content (call_open ++ body) (omega arith) in
      let read : parse text
          ≡ (trim_end content, record { name = name; parameters = parameters } ∷ []) =
        rw (parse, found, taken, dropped, long, parse_calls-block n) refl in
      ap (λ (r : Bytes). parse (content ++ r)) render_call-eq ∙ read
