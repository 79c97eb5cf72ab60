-- ===== src/ToolCalls/Tests.antt =====
-- Runs of the tool-call syntax, on short texts.
use inferq.Prelude.{
  ℕ, ◌≡◌, refl, ap, ◌∙◌, arith, false, none, some, List, [], ◌∷◌, ◌++◌, length, ◌==◌, if◌then◌else◌,
  Bool-cases, inl, inr,
}
use inferq.Stop.{Bytes, find, starts_with, ends_with}
use inferq.ToolCalls.{
  ParsedToolCall, call_open, call_close, trim, trim_end, trim_start_from, trim_end_from, leading,
  trailing, split_on, parse_parameters, parse_call, parse_calls, parse, render_call,
}
use inferq.ToolCalls.RoundTrip.{IsName, IsValue, parse-render_call}
use inferq.ToolCalls.Scan.{
  Json, scan_value, scan_string, scan_container, arguments_json, render, encode,
}
use inferq.ToolCalls.Scan.Texts.{IsEscaped, WritesStrings, IsTexts, render-arguments_json}

-- `read`, with the parameter `path` whose text is `a<b` and a line break.
abbrev read : Bytes
read = 114 ∷ 101 ∷ 97 ∷ 100 ∷ []

abbrev path : Bytes
path = 112 ∷ 97 ∷ 116 ∷ 104 ∷ []

abbrev text : Bytes
text = 97 ∷ 60 ∷ 98 ∷ 10 ∷ []

-- `ok`, and a space.
abbrev content : Bytes
content = 111 ∷ 107 ∷ 32 ∷ []

abbrev parameters : List (Bytes × Bytes)
parameters = (path, text) ∷ []

read-IsName : IsName read
unfolding trim trim_start_from trim_end_from leading trailing starts_with ends_with
read-IsName = record { no_open = ground arith; no_close = ground arith; trimmed = refl }

path-IsName : IsName path
unfolding trim trim_start_from trim_end_from leading trailing starts_with ends_with
path-IsName = record { no_open = ground arith; no_close = ground arith; trimmed = refl }

text-IsValue : IsValue text
unfolding find
text-IsValue = record { no_call = refl; no_function = refl; no_parameter = refl }

content-first : find call_open (content ++ call_open) ≡ some (length content)
unfolding find
content-first = refl

parse-render_call_example :
    parse (content ++ render_call read parameters)
    ≡ (trim_end content, record { name = read; parameters = parameters } ∷ [])
parse-render_call_example =
    parse-render_call read parameters read-IsName (omega arith) ((path-IsName, text-IsValue), tt)
      content content-first

-- A block with no function in it is skipped, and does not take the next block's.
empty_block_skipped :
    (parse (call_open ++ (call_close ++ render_call read []))).1
    ≡ record { name = read; parameters = [] } ∷ []
unfolding parse parse_calls parse_call parse_parameters split_on find trim render_call
empty_block_skipped = refl

-- `[1, "]"]` and a comma.
abbrev array : Bytes
array = 91 ∷ 49 ∷ 44 ∷ 32 ∷ 34 ∷ 93 ∷ 34 ∷ 93 ∷ 44 ∷ []

a_bracket_in_a_string :
    scan_value array ≡ some (91 ∷ 49 ∷ 44 ∷ 32 ∷ 34 ∷ 93 ∷ 34 ∷ 93 ∷ [], 44 ∷ [])
unfolding scan_value scan_container scan_string
a_bracket_in_a_string = refl

-- Strings as JSON writes them, and no other values.
escape : Bytes → Bytes
escape [] = []
escape (b ∷ s) =
    let rest = escape s in
    if b == 34 then 92 ∷ 34 ∷ rest else if b == 92 then 92 ∷ 92 ∷ rest else b ∷ rest

unescape : Bytes → Bytes
unescape [] = []
unescape (b ∷ []) = []
unescape (b ∷ c ∷ s) =
    let escaped = unescape s in
    let plain = unescape (c ∷ s) in if b == 92 then c ∷ escaped else b ∷ plain

abbrev strings : Json
strings = record {
  from_str = λ s. none;
  string_from_str = λ s. elim s [ [] ↦ none | b ∷ inside ↦ some (unescape inside) ];
  json_string = λ s. 34 ∷ (escape s ++ 34 ∷ []);
}

plain-IsEscaped :
    (b : ℕ) (s : Bytes) → (b == 92) ≡ false → (b == 34) ≡ false → IsEscaped s → IsEscaped (b ∷ s)
plain-IsEscaped b [] plain bare h = (plain, bare)
plain-IsEscaped b (c ∷ s) plain bare h = inr (plain, bare, h)

escape-IsEscaped : (s : Bytes) → IsEscaped (escape s)
unfolding escape
escape-IsEscaped [] = tt
escape-IsEscaped (b ∷ s) = elim (Bool-cases (b == 34)) [
  | inl quote ↦ rw quote (inl (refl, escape-IsEscaped s))
  | inr bare ↦ elim (Bool-cases (b == 92)) [
    | inl slash ↦ rw (bare, slash) (inl (refl, escape-IsEscaped s))
    | inr plain ↦ rw (bare, plain) (plain-IsEscaped b (escape s) plain bare (escape-IsEscaped s))
  ]
]

unescape-plain :
    (b : ℕ) (s : Bytes)
    → (b == 92) ≡ false
    → unescape (b ∷ (s ++ 34 ∷ [])) ≡ b ∷ unescape (s ++ 34 ∷ [])
unfolding unescape
unescape-plain b [] plain = rw plain refl
unescape-plain b (c ∷ s) plain = rw plain refl

unescape-escape : (s : Bytes) → unescape (escape s ++ 34 ∷ []) ≡ s
unfolding escape unescape
unescape-escape [] = refl
unescape-escape (b ∷ s) = elim (Bool-cases (b == 34)) [
  | inl quote ↦
      let e : b ≡ 34 = ground arith in
      rw (quote, e) (ap (λ (r : Bytes). 34 ∷ r) (unescape-escape s))
  | inr bare ↦ elim (Bool-cases (b == 92)) [
    | inl slash ↦
        let e : b ≡ 92 = ground arith in
        rw (bare, slash, e) (ap (λ (r : Bytes). 92 ∷ r) (unescape-escape s))
    | inr plain ↦
        rw (bare, plain)
          (unescape-plain b (escape s) plain ∙ ap (λ (r : Bytes). b ∷ r) (unescape-escape s))
  ]
]

strings-WritesStrings : WritesStrings strings
strings-WritesStrings = record {
  escape = escape;
  written = λ s. refl;
  escaped = escape-IsEscaped;
  reads = λ s. ap some (unescape-escape s);
}

abbrev call : ParsedToolCall
call = record { name = read; parameters = (path, 97 ∷ 34 ∷ 92 ∷ []) ∷ (text, []) ∷ [] }

texts : IsTexts strings strings-WritesStrings (λ name. false) call.parameters
unfolding encode
texts = (refl, (refl, tt))

render-arguments_json_example :
    render strings call.name (arguments_json strings (λ name. false) call)
    ≡ render_call call.name call.parameters
render-arguments_json_example =
    render-arguments_json strings strings-WritesStrings (λ name. false) call texts

-- `"a": 1}`
abbrev member_text : Bytes
member_text = 34 ∷ 97 ∷ 34 ∷ 58 ∷ 32 ∷ 49 ∷ 125 ∷ []
