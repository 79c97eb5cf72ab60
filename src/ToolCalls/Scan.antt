-- ===== src/ToolCalls/Scan.antt =====
-- The members of a JSON object in src/tool_calls.rs, each value kept as its own text, and the texts of
-- parameters. A scan at a position takes the text from there on, and gives what it passes over and what
-- is left, in place of the end position.
pub mod Prefix
pub mod Enough
pub mod Texts
use mathlib.Core.Option
use inferq.Prelude.{
  ℕ, zero, suc, Bool, true, false, not, ◌&&◌, ◌||◌, Option, none, some, List, [], ◌∷◌, ◌++◌, length,
  map, ◌==◌, if◌then◌else◌,
}
use inferq.Stop.{Bytes, is_empty}
use inferq.ToolCalls.{ParsedToolCall, trim, render_call}

abbrev pub Scanned : Type 0
Scanned = Option (Bytes × Bytes)

-- The bytes passed over before a scan goes on.
abbrev pub behind : Bytes → Scanned → Scanned
behind passed none = none
behind passed (some (text, rest)) = some (passed ++ text, rest)

-- The loop of `scan_string`, behind the opening quote; an escape passes over one byte more.
unfoldable pub scan_string_body : Bytes → Scanned
scan_string_body [] = none
scan_string_body (b ∷ []) = if b == 34 then some (b ∷ [], []) else none
scan_string_body (b ∷ c ∷ s) =
    let escaped = behind (b ∷ c ∷ []) (scan_string_body s) in
    let plain = behind (b ∷ []) (scan_string_body (c ∷ s)) in
    if b == 92 then escaped else if b == 34 then some (b ∷ [], c ∷ s) else plain

unfoldable pub scan_string : Bytes → Scanned
unfolding scan_string_body
scan_string [] = none
scan_string (b ∷ s) = behind (b ∷ []) (scan_string_body s)

-- A closing bracket: it is the one expected, and ends the container or goes on with the outer ones.
unfoldable pub close_bracket : ℕ → Bytes → List ℕ → (List ℕ → Scanned) → Scanned
close_bracket b s [] further = none
close_bracket b s (closing ∷ []) further = if closing == b then some (b ∷ [], s) else none
close_bracket b s (closing ∷ next ∷ outer) further =
    if closing == b then further (next ∷ outer) else none

-- `scan_container`, with the closing brackets that are expected; a round passes over a byte or more, so
-- the length of the text is fuel enough.
unfoldable pub scan_container_from : ℕ → List ℕ → Bytes → Scanned
unfolding close_bracket
scan_container_from zero expected s = none
scan_container_from (suc fuel) expected [] = none
scan_container_from (suc fuel) expected (b ∷ s) =
    let further = λ (e : List ℕ). behind (b ∷ []) (scan_container_from fuel e s) in
    let in_string : Scanned = elim (scan_string (b ∷ s)) [
      | none ↦ none
      | some (text, rest) ↦ behind text (scan_container_from fuel expected rest)
    ] in
    if b == 34
    then in_string
    else if b == 123
    then further (125 ∷ expected)
    else if b == 91
    then further (93 ∷ expected)
    else if b == 125 || b == 93
    then close_bracket b s expected further
    else further expected

unfoldable pub scan_container : Bytes → Scanned
unfolding scan_container_from
scan_container s = scan_container_from (length s) [] s

unfoldable pub is_json_space : ℕ → Bool
is_json_space b = b == 32 || b == 9 || b == 10 || b == 13

unfoldable pub ends_scalar : ℕ → Bool
unfolding is_json_space
ends_scalar b = b == 44 || b == 125 || b == 93 || is_json_space b

-- The bytes up to the first that cannot be part of a number, `true`, `false` or `null`.
unfoldable pub scan_scalar : Bytes → Bytes × Bytes
unfolding ends_scalar
scan_scalar [] = ([], [])
scan_scalar (b ∷ s) =
    let rest = scan_scalar s in if ends_scalar b then ([], b ∷ s) else (b ∷ rest.0, rest.1)

unfoldable pub scan_value : Bytes → Scanned
unfolding is_empty
scan_value [] = none
scan_value (b ∷ s) =
    if b == 34
    then scan_string (b ∷ s)
    else if b == 123 || b == 91
    then scan_container (b ∷ s)
    else if is_empty (scan_scalar (b ∷ s)).0
    then none
    else some (scan_scalar (b ∷ s))

unfoldable pub skip_whitespace : Bytes → Bytes
unfolding is_json_space
skip_whitespace [] = []
skip_whitespace (b ∷ s) = let rest = skip_whitespace s in if is_json_space b then rest else b ∷ s

-- `bytes.get(at) == Some(&byte)`: what is behind it, if it stands there.
unfoldable pub expect : ℕ → Bytes → Option Bytes
expect byte [] = none
expect byte (b ∷ s) = if b == byte then some s else none

-- A value of `serde_json`; a number, a Boolean or `null` is the text that it is written as.
mutual
  pub data Value : Type 0 where
    string scalar : Bytes → Value
    array : Items → Value
    object : Fields → Value

  pub data Items : Type 0 where
    nil : Items
    cons : Value → Items → Items

  pub data Fields : Type 0 where
    end : Fields
    field : Bytes → Value → Fields → Fields

unfoldable pub is_string : Value → Bool
is_string (string text) = true
is_string value = false

-- What the code uses of `serde_json`: how it reads any value and a string, and how it writes a string,
-- `Value::String(text).to_string()`.
pub record Json : Type 0 where
  pub from_str : Bytes → Option Value
  pub string_from_str : Bytes → Option Bytes
  pub json_string : Bytes → Bytes

module _ (J : Json) where
  unfoldable mutual
    pub python_json : Value → Bytes
    python_json (string text) = J.json_string text
    python_json (scalar text) = text
    python_json (array items) = 91 ∷ (python_items items ++ 93 ∷ [])
    python_json (object fields) = 123 ∷ (python_fields fields ++ 125 ∷ [])

    pub python_items : Items → Bytes
    python_items nil = []
    python_items (cons value nil) = python_json value
    python_items (cons value (cons next items)) =
        python_json value ++ 44 ∷ 32 ∷ python_items (cons next items)

    pub python_fields : Fields → Bytes
    python_fields end = []
    python_fields (field key value end) = J.json_string key ++ 58 ∷ 32 ∷ python_json value
    python_fields (field key value (field next other fields)) =
        (J.json_string key ++ 58 ∷ 32 ∷ python_json value)
        ++ 44 ∷ 32 ∷ python_fields (field next other fields)

  -- One member, from its key on, and what is left.
  unfoldable pub member : Bytes → Option ((Bytes × Bytes) × Bytes)
  unfolding expect skip_whitespace scan_string scan_value
  member s = elim (expect 34 s) [
    | none ↦ none
    | some inside ↦ elim (scan_string s) [
      | none ↦ none
      | some (key_text, behind_key) ↦ elim (J.string_from_str key_text) [
        | none ↦ none
        | some key ↦ elim (expect 58 (skip_whitespace behind_key)) [
          | none ↦ none
          | some colon ↦ elim (scan_value (skip_whitespace colon)) [
            | none ↦ none
            | some (value, rest) ↦ some ((key, value), rest)
          ]
        ]
      ]
    ]
  ]

  -- The loop over the members; each takes more than a byte.
  unfoldable pub members : ℕ → Bytes → Option (List (Bytes × Bytes) × Bytes)
  members zero s = none
  members (suc fuel) s = elim (member s) [
    | none ↦ none
    | some (found, rest) ↦
        let behind_value = skip_whitespace rest in
        elim (expect 44 behind_value) [
          | some comma ↦ elim (members fuel (skip_whitespace comma)) [
            | none ↦ none
            | some (others, left) ↦ some (found ∷ others, left)
          ]
          | none ↦ elim (expect 125 behind_value) [
            | none ↦ none
            | some left ↦ some (found ∷ [], left)
          ]
        ]
  ]

  unfoldable pub object_members : Bytes → Option (List (Bytes × Bytes))
  unfolding expect skip_whitespace is_empty members
  object_members text = elim (expect 123 (skip_whitespace text)) [
    | none ↦ none
    | some opened ↦
        let s = skip_whitespace opened in
        let found : Option (List (Bytes × Bytes) × Bytes) = elim (expect 125 s) [
          | some left ↦ some ([], left)
          | none ↦ members (length s) s
        ] in
        elim found [
          | none ↦ none
          | some (list, left) ↦ if is_empty (skip_whitespace left) then some list else none
        ]
  ]

  -- The text that a JSON value stands for.
  unfoldable pub parameter_text : Bytes → Bytes
  unfolding python_json
  parameter_text [] = []
  parameter_text (b ∷ value) =
      if b == 34
      then elim (J.string_from_str (b ∷ value)) [ none ↦ b ∷ value | some text ↦ text ]
      else if b == 123 || b == 91
      then elim (J.from_str (b ∷ value)) [ none ↦ b ∷ value | some parsed ↦ python_json parsed ]
      else b ∷ value

  -- One parameter's text as JSON; `declared_string` is whether its schema says `string`.
  unfoldable pub encode : Bool → Bytes → Bytes
  unfolding is_string
  encode declared_string raw =
      if declared_string then J.json_string raw else elim (J.from_str raw) [
        | none ↦ J.json_string raw
        | some value ↦ if is_string value then J.json_string raw else trim raw
      ]

  -- The members between the braces of `arguments_json`, with a comma before each but the first.
  unfoldable pub argument_members : (Bytes → Bool) → Bool → List (Bytes × Bytes) → Bytes
  unfolding encode
  argument_members declared_string later [] = []
  argument_members declared_string later ((name, raw) ∷ parameters) =
      (if later then 44 ∷ [] else [])
      ++ (J.json_string name
          ++ 58
            ∷ (encode (declared_string name) raw
                ++ argument_members declared_string true parameters))

  unfoldable pub arguments_json : (Bytes → Bool) → ParsedToolCall → Bytes
  unfolding argument_members
  arguments_json declared_string call =
      123 ∷ (argument_members declared_string false call.parameters ++ 125 ∷ [])

  abbrev pub or_empty : Option (List (Bytes × Bytes)) → List (Bytes × Bytes)
  or_empty none = []
  or_empty (some list) = list

  -- `render`: what it appends.
  unfoldable pub render : Bytes → Bytes → Bytes
  unfolding object_members parameter_text render_call
  render name arguments =
      render_call name (
        map (λ (m : Bytes × Bytes). (m.0, parameter_text m.1))
          (or_empty (object_members arguments)))
