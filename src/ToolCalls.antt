-- ===== src/ToolCalls.antt =====
-- The tool-call syntax of src/tool_calls.rs: reading calls out of generated text and writing them back
-- into a prompt. A text is its UTF-8 bytes; each slice is made where an ASCII marker begins or ends,
-- so none can panic. Parsing and printing JSON is an argument.
pub mod Scan
pub mod Free
pub mod RoundTrip
pub mod Enough
mod Tests
use inferq.Prelude.{
  ℕ, zero, suc, ◌+◌, ◌-◌, Bool, true, false, not, ◌&&◌, ◌||◌, Option, none, some, List, [], ◌∷◌,
  ◌++◌, length, take, drop, ltb, ◌==◌, if◌then◌else◌,
}
use inferq.Stop.{Bytes, starts_with, find, ends_with, is_empty}

abbrev pub call_open : Bytes
call_open = 60 ∷ 116 ∷ 111 ∷ 111 ∷ 108 ∷ 95 ∷ 99 ∷ 97 ∷ 108 ∷ 108 ∷ 62 ∷ []

abbrev pub call_close : Bytes
call_close = 60 ∷ 47 ∷ 116 ∷ 111 ∷ 111 ∷ 108 ∷ 95 ∷ 99 ∷ 97 ∷ 108 ∷ 108 ∷ 62 ∷ []

abbrev pub function_open : Bytes
function_open = 60 ∷ 102 ∷ 117 ∷ 110 ∷ 99 ∷ 116 ∷ 105 ∷ 111 ∷ 110 ∷ 61 ∷ []

abbrev pub function_close : Bytes
function_close = 60 ∷ 47 ∷ 102 ∷ 117 ∷ 110 ∷ 99 ∷ 116 ∷ 105 ∷ 111 ∷ 110 ∷ 62 ∷ []

abbrev pub parameter_open : Bytes
parameter_open = 60 ∷ 112 ∷ 97 ∷ 114 ∷ 97 ∷ 109 ∷ 101 ∷ 116 ∷ 101 ∷ 114 ∷ 61 ∷ []

abbrev pub parameter_close : Bytes
parameter_close = 60 ∷ 47 ∷ 112 ∷ 97 ∷ 114 ∷ 97 ∷ 109 ∷ 101 ∷ 116 ∷ 101 ∷ 114 ∷ 62 ∷ []

pub record ParsedToolCall : Type 0 where
  pub name : Bytes
  pub parameters : List (Bytes × Bytes)

-- The encodings of the characters that `str::trim` removes, `White_Space` of Unicode.
abbrev pub whitespace : List Bytes
whitespace =
    (9 ∷ [])
    ∷ (10 ∷ [])
    ∷ (11 ∷ [])
    ∷ (12 ∷ [])
    ∷ (13 ∷ [])
    ∷ (32 ∷ [])
    ∷ (194 ∷ 133 ∷ [])
    ∷ (194 ∷ 160 ∷ [])
    ∷ (225 ∷ 154 ∷ 128 ∷ [])
    ∷ (226 ∷ 128 ∷ 128 ∷ [])
    ∷ (226 ∷ 128 ∷ 129 ∷ [])
    ∷ (226 ∷ 128 ∷ 130 ∷ [])
    ∷ (226 ∷ 128 ∷ 131 ∷ [])
    ∷ (226 ∷ 128 ∷ 132 ∷ [])
    ∷ (226 ∷ 128 ∷ 133 ∷ [])
    ∷ (226 ∷ 128 ∷ 134 ∷ [])
    ∷ (226 ∷ 128 ∷ 135 ∷ [])
    ∷ (226 ∷ 128 ∷ 136 ∷ [])
    ∷ (226 ∷ 128 ∷ 137 ∷ [])
    ∷ (226 ∷ 128 ∷ 138 ∷ [])
    ∷ (226 ∷ 128 ∷ 168 ∷ [])
    ∷ (226 ∷ 128 ∷ 169 ∷ [])
    ∷ (226 ∷ 128 ∷ 175 ∷ [])
    ∷ (226 ∷ 129 ∷ 159 ∷ [])
    ∷ (227 ∷ 128 ∷ 128 ∷ [])
    ∷ []

-- How many bytes the first of some encodings takes that begins the text, or that ends it.
unfoldable pub leading : List Bytes → Bytes → ℕ
unfolding starts_with
leading [] s = 0
leading (c ∷ cs) s = if starts_with c s then length c else leading cs s

unfoldable pub trailing : List Bytes → Bytes → ℕ
unfolding ends_with
trailing [] s = 0
trailing (c ∷ cs) s = if ends_with c s then length c else trailing cs s

-- `str::trim_start` and `str::trim_end`; a text has no more characters than bytes.
unfoldable pub trim_start_from : ℕ → Bytes → Bytes
unfolding leading
trim_start_from zero s = s
trim_start_from (suc fuel) s =
    let n = leading whitespace s in
    let rest = trim_start_from fuel (drop n s) in if n == 0 then s else rest

unfoldable pub trim_end_from : ℕ → Bytes → Bytes
unfolding trailing
trim_end_from zero s = s
trim_end_from (suc fuel) s =
    let n = trailing whitespace s in
    let rest = trim_end_from fuel (take (length s - n) s) in if n == 0 then s else rest

unfoldable pub trim_end : Bytes → Bytes
unfolding trim_end_from
trim_end s = trim_end_from (length s) s

unfoldable pub trim : Bytes → Bytes
unfolding trim_start_from trim_end
trim s = trim_end (trim_start_from (length s) s)

-- What stands before the first occurrence of a marker, and behind it.
unfoldable pub split_on : Bytes → Bytes → Option (Bytes × Bytes)
unfolding find
split_on marker text = elim (find marker text) [
  | none ↦ none
  | some at ↦ some (take at text, drop (at + length marker) text)
]

-- `strip_prefix('\n')` and `strip_suffix('\n')`, or the text itself.
unfoldable pub strip_newline : Bytes → Bytes
strip_newline [] = []
strip_newline (b ∷ s) = if b == 10 then s else b ∷ s

unfoldable pub strip_last_newline : Bytes → Bytes
strip_last_newline [] = []
strip_last_newline (b ∷ []) = if b == 10 then [] else b ∷ []
strip_last_newline (b ∷ c ∷ s) = b ∷ strip_last_newline (c ∷ s)

-- The loop over the parameters; each takes more than a byte, so the length of the text is fuel
-- enough.
unfoldable pub parse_parameters : ℕ → Bytes → List (Bytes × Bytes)
unfolding strip_newline strip_last_newline
parse_parameters zero cursor = []
parse_parameters (suc fuel) cursor = elim (split_on parameter_open cursor) [
  | none ↦ []
  | some (before, after) ↦ elim (split_on (62 ∷ []) after) [
    | none ↦ []
    | some (key, value_text) ↦ elim (split_on parameter_close value_text) [
      | none ↦ []
      | some (value, rest) ↦
          (trim key, strip_last_newline (strip_newline value)) ∷ parse_parameters fuel rest
    ]
  ]
]

unfoldable pub parse_call : Bytes → Option ParsedToolCall
unfolding is_empty
parse_call body = elim (split_on function_open body) [
  | none ↦ none
  | some (before, after_open) ↦ elim (split_on (62 ∷ []) after_open) [
    | none ↦ none
    | some (raw_name, inner) ↦
        if is_empty (trim raw_name) then none else elim (split_on function_close inner) [
          | none ↦ none
          | some (parameters, behind) ↦ some (record {
            name = trim raw_name;
            parameters = parse_parameters (length parameters) parameters;
          })
        ]
  ]
]

-- `if let Some(call) = .. { calls.push(call) }`, seen from the first call on.
abbrev pub and_call : Option ParsedToolCall → List ParsedToolCall → List ParsedToolCall
and_call none calls = calls
and_call (some call) calls = call ∷ calls

-- The loop over the blocks, with the length of the text as fuel.
unfoldable pub parse_calls : ℕ → Bytes → List ParsedToolCall
parse_calls zero rest = []
parse_calls (suc fuel) rest = elim (split_on call_open rest) [
  | none ↦ []
  | some (before, body) ↦ elim (split_on call_close body) [
    | none ↦ and_call (parse_call body) []
    | some (block, after) ↦ and_call (parse_call block) (parse_calls fuel after)
  ]
]

unfoldable pub has_calls : List ParsedToolCall → Bool
has_calls [] = false
has_calls (call ∷ calls) = true

unfoldable pub parse : Bytes → Bytes × List ParsedToolCall
unfolding has_calls
parse text = elim (find call_open text) [
  | none ↦ (text, [])
  | some first ↦
      let calls = parse_calls (length text) (drop first text) in
      if has_calls calls then (trim_end (take first text), calls) else (text, [])
]

-- The loop of `render`, from members whose texts are known.
unfoldable pub render_parameters : List (Bytes × Bytes) → Bytes
render_parameters [] = []
render_parameters ((key, value) ∷ parameters) =
    parameter_open
    ++ (key ++ 62 ∷ 10 ∷ (value ++ 10 ∷ (parameter_close ++ 10 ∷ render_parameters parameters)))

-- What `render` appends for a name and the texts of its parameters.
unfoldable pub render_call : Bytes → List (Bytes × Bytes) → Bytes
unfolding render_parameters
render_call name parameters =
    call_open
    ++ 10
      ∷ (function_open
          ++ (name
              ++ 62 ∷ 10 ∷ (render_parameters parameters ++ (function_close ++ 10 ∷ call_close))))
