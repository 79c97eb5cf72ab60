-- ===== src/ToolCalls/Scan/Texts.antt =====
-- The arguments of a call of src/tool_calls.rs whose parameters are texts, read back member by member.
use inferq.Prelude.{
  ℕ, zero, suc, ◌≤◌, ◌<◌, ◌≡◌, refl, sym, ap, ◌∙◌, Bool, true, false, none, some, List, [], ◌∷◌,
  ◌++◌, length, map, ◌==◌, if◌then◌else◌, arith, append_assoc, length-append, ◌⊎◌, inl, inr, All,
}
use inferq.Stop.{Bytes}
use inferq.ToolCalls.{ParsedToolCall, render_call}
use inferq.ToolCalls.Scan.{
  scan_string_body, scan_string, scan_value, skip_whitespace, expect, Json, member, members,
  object_members, parameter_text, encode, argument_members, arguments_json, render,
}

-- The inside of a JSON string: each backslash takes a byte with it, and no other quote stands there.
abbrev pub IsEscaped : Bytes → Type 0
IsEscaped [] = Unit
IsEscaped (b ∷ []) = ((b == 92) ≡ false) × ((b == 34) ≡ false)
IsEscaped (b ∷ c ∷ s) =
    (((b == 92) ≡ true) × IsEscaped s)
    ⊎ (((b == 92) ≡ false) × ((b == 34) ≡ false) × IsEscaped (c ∷ s))

-- What is documented of `serde_json`: a text is written between quotes with its quotes and backslashes
-- escaped, and is read back as it was.
pub record WritesStrings (J : Json) : Type 0 where
  pub escape : Bytes → Bytes
  pub written : (text : Bytes) → J.json_string text ≡ 34 ∷ (escape text ++ 34 ∷ [])
  pub escaped : (text : Bytes) → IsEscaped (escape text)
  pub reads : (text : Bytes) → J.string_from_str (J.json_string text) ≡ some text

scan_string_body-IsEscaped :
    (s rest : Bytes) → IsEscaped s → scan_string_body (s ++ 34 ∷ rest) ≡ some (s ++ 34 ∷ [], rest)
unfolding scan_string_body
scan_string_body-IsEscaped [] [] h = refl
scan_string_body-IsEscaped [] (c ∷ rest) h = refl
scan_string_body-IsEscaped (b ∷ []) rest (plain, bare) =
    rw (plain, bare, scan_string_body-IsEscaped [] rest tt) refl
scan_string_body-IsEscaped (b ∷ c ∷ s) rest (inl (escape, h)) =
    rw (escape, scan_string_body-IsEscaped s rest h) refl
scan_string_body-IsEscaped (b ∷ c ∷ s) rest (inr (plain, bare, h)) =
    let later = scan_string_body-IsEscaped (c ∷ s) rest h in rw (plain, bare, later) refl

scan_value-quote : (s : Bytes) → scan_value (34 ∷ s) ≡ scan_string (34 ∷ s)
unfolding scan_value
scan_value-quote s = refl

module _ (J : Json) (laws : WritesStrings J) where
  scan_string-json_string :
      (text rest : Bytes)
      → scan_string (J.json_string text ++ rest) ≡ some (J.json_string text, rest)
  unfolding scan_string
  scan_string-json_string text rest =
      let inside = laws.escape text in
      let body = scan_string_body-IsEscaped inside rest (laws.escaped text) in
      let framed : (inside ++ 34 ∷ []) ++ rest ≡ inside ++ 34 ∷ rest =
        append_assoc inside (34 ∷ []) rest in
      rw (laws.written text, framed, scan_string, body) refl

  -- A string begins with its quote.
  skip_whitespace-json_string :
      (text rest : Bytes)
      → skip_whitespace (J.json_string text ++ rest) ≡ J.json_string text ++ rest
  unfolding skip_whitespace
  skip_whitespace-json_string text rest = rw (laws.written text) refl

  expect-json_string :
      (byte : ℕ) (text rest : Bytes)
      → expect byte (J.json_string text ++ rest)
        ≡ (if 34 == byte then some (laws.escape text ++ 34 ∷ [] ++ rest) else none)
  unfolding expect
  expect-json_string byte text rest = rw (laws.written text) refl

  scan_value-json_string :
      (text rest : Bytes)
      → scan_value (J.json_string text ++ rest) ≡ some (J.json_string text, rest)
  unfolding scan_value
  scan_value-json_string text rest =
      let e = laws.written text in
      ap (λ (j : Bytes). scan_value (j ++ rest)) e
      ∙ scan_value-quote ((laws.escape text ++ 34 ∷ []) ++ rest)
      ∙ ap (λ (j : Bytes). scan_string (j ++ rest)) (sym e)
      ∙ scan_string-json_string text rest

  member-json_string :
      (key text rest : Bytes)
      → member J (J.json_string key ++ 58 ∷ (J.json_string text ++ rest))
        ≡ some ((key, J.json_string text), rest)
  unfolding member expect
  member-json_string key text rest =
      let behind_key : Bytes = 58 ∷ (J.json_string text ++ rest) in
      rw
        (
          member,
          expect-json_string 34 key behind_key,
          scan_string-json_string key behind_key,
          laws.reads key,
          skip_whitespace-json_string text rest,
          scan_value-json_string text rest,
        )
        refl

  -- The members of a call's text parameters, as they are written and as they are read.
  abbrev pub written_members : List (Bytes × Bytes) → List (Bytes × Bytes)
  written_members = map (λ (p : Bytes × Bytes). (p.0, J.json_string p.1))

  abbrev pub IsTexts : (Bytes → Bool) → List (Bytes × Bytes) → Type 0
  IsTexts declared_string =
      All (λ (p : Bytes × Bytes). encode J (declared_string p.0) p.1 ≡ J.json_string p.1)

  members-last :
      (fuel : ℕ) (key raw : Bytes)
      → members J (suc fuel) (J.json_string key ++ 58 ∷ (J.json_string raw ++ 125 ∷ []))
        ≡ some ((key, J.json_string raw) ∷ [], [])
  unfolding members skip_whitespace expect
  members-last fuel key raw = rw (members, member-json_string key raw (125 ∷ [])) refl

  members-more :
      (fuel : ℕ) (key raw next rest : Bytes) (others : List (Bytes × Bytes))
      → members J fuel (J.json_string next ++ rest) ≡ some (others, [])
      → members J
          (suc fuel)
          (J.json_string key ++ 58 ∷ (J.json_string raw ++ 44 ∷ (J.json_string next ++ rest)))
        ≡ some ((key, J.json_string raw) ∷ others, [])
  unfolding members expect
  members-more fuel key raw next rest others found =
      let comma : skip_whitespace (44 ∷ (J.json_string next ++ rest))
          ≡ 44 ∷ (J.json_string next ++ rest) =
        unfold skip_whitespace in refl in
      rw
        (
          members,
          member-json_string key raw (44 ∷ (J.json_string next ++ rest)),
          comma,
          skip_whitespace-json_string next rest,
          found,
        )
        refl

  framed_member :
      (key raw : Bytes) (declared : Bool) (others : Bytes)
      → encode J declared raw ≡ J.json_string raw
      → (J.json_string key ++ 58 ∷ (encode J declared raw ++ others)) ++ 125 ∷ []
        ≡ J.json_string key ++ 58 ∷ (J.json_string raw ++ (others ++ 125 ∷ []))
  framed_member key raw declared others text =
      append_assoc (J.json_string key) (58 ∷ (encode J declared raw ++ others)) (125 ∷ [])
      ∙ ap (λ (r : Bytes). J.json_string key ++ 58 ∷ r)
          (append_assoc (encode J declared raw) others (125 ∷ [])
            ∙ ap (λ (r : Bytes). r ++ (others ++ 125 ∷ [])) text)

  members-argument_members :
      (fuel : ℕ) (declared_string : Bytes → Bool) (key raw : Bytes)
      (parameters : List (Bytes × Bytes))
      → IsTexts declared_string ((key, raw) ∷ parameters)
      → length parameters < fuel
      → members J fuel
          (argument_members J declared_string false ((key, raw) ∷ parameters) ++ 125 ∷ [])
        ≡ some (written_members ((key, raw) ∷ parameters), [])
  unfolding argument_members
  members-argument_members zero declared_string key raw parameters texts lt = absurd (omega arith)
  members-argument_members (suc fuel) declared_string key raw [] (text, texts) lt =
      rw (framed_member key raw (declared_string key) [] text) (members-last fuel key raw)
  members-argument_members (suc fuel) declared_string key raw ((key', raw') ∷ parameters)
        (text, texts) lt =
      let others = argument_members J declared_string false ((key', raw') ∷ parameters) in
      let next : Bytes =
        58
        ∷ (encode J (declared_string key') raw'
            ++ argument_members J declared_string true parameters) in
      let found =
        members-argument_members fuel declared_string key' raw' parameters texts (omega arith) in
      let split : others ++ 125 ∷ [] ≡ J.json_string key' ++ (next ++ 125 ∷ []) =
        append_assoc (J.json_string key') next (125 ∷ []) in
      rw (framed_member key raw (declared_string key) (44 ∷ others) text, split)
        (members-more fuel key raw key' (next ++ 125 ∷ [])
          (written_members ((key', raw') ∷ parameters)) (rw split at found))

  length-argument_members :
      (declared_string : Bytes → Bool) (later : Bool) (parameters : List (Bytes × Bytes))
      → length parameters ≤ length (argument_members J declared_string later parameters)
  unfolding argument_members
  length-argument_members declared_string later [] = omega arith
  length-argument_members declared_string later ((key, raw) ∷ parameters) =
      let others = argument_members J declared_string true parameters in
      let comma : Bytes = if later then 44 ∷ [] else [] in
      let value : Bytes = encode J (declared_string key) raw in
      omega (
        arith,
        length-argument_members declared_string true parameters,
        length-append comma (J.json_string key ++ 58 ∷ (value ++ others)),
        length-append (J.json_string key) (58 ∷ (value ++ others)),
        length-append value others,
      )

  object_members-arguments_json :
      (declared_string : Bytes → Bool) (call : ParsedToolCall) (parameters : List (Bytes × Bytes))
      → IsTexts declared_string parameters
      → object_members J
          (arguments_json J declared_string (record call { parameters = parameters }))
        ≡ some (written_members parameters)
  unfolding object_members arguments_json
  object_members-arguments_json declared_string call [] texts = unfold members in refl
  object_members-arguments_json declared_string call ((key, raw) ∷ parameters) texts =
      let s = argument_members J declared_string false ((key, raw) ∷ parameters) ++ 125 ∷ [] in
      let others : Bytes =
        encode J (declared_string key) raw ++ argument_members J declared_string true parameters in
      let split : s ≡ J.json_string key ++ (58 ∷ others ++ 125 ∷ []) =
        unfold argument_members in append_assoc (J.json_string key) (58 ∷ others) (125 ∷ []) in
      let spaced : skip_whitespace s ≡ s =
        ap skip_whitespace split
        ∙ skip_whitespace-json_string key (58 ∷ others ++ 125 ∷ [])
        ∙ sym split in
      let opens : expect 125 s ≡ none =
        ap (expect 125) split ∙ expect-json_string 125 key (58 ∷ others ++ 125 ∷ []) in
      let enough : length parameters < length s = omega (
        arith,
        length-argument_members declared_string false ((key, raw) ∷ parameters),
        length-append (argument_members J declared_string false ((key, raw) ∷ parameters))
            (125 ∷ []),
      ) in
      let found =
        members-argument_members (length s) declared_string key raw parameters texts enough in
      rw (object_members, spaced, opens, spaced, found) refl

  parameter_text-json_string : (text : Bytes) → parameter_text J (J.json_string text) ≡ text
  unfolding parameter_text
  parameter_text-json_string text =
      let read : J.string_from_str (34 ∷ (laws.escape text ++ 34 ∷ [])) ≡ some text =
        ap J.string_from_str (sym (laws.written text)) ∙ laws.reads text in
      rw (laws.written text, parameter_text, read) refl

  texts_of_written :
      (parameters : List (Bytes × Bytes))
      → map (λ (m : Bytes × Bytes). (m.0, parameter_text J m.1)) (written_members parameters)
        ≡ parameters
  texts_of_written [] = refl
  texts_of_written ((key, raw) ∷ parameters) =
      rw (parameter_text-json_string raw)
        (ap (λ (r : List (Bytes × Bytes)). (key, raw) ∷ r) (texts_of_written parameters))

  -- A call is rendered from its own arguments with the texts of its parameters as they were: where each
  -- parameter is written as a JSON string, for its schema says so, or its text is no JSON, or is a
  -- JSON string itself. The laws are those of the JSON library's strings.
  pub render-arguments_json :
      (declared_string : Bytes → Bool) (call : ParsedToolCall)
      → IsTexts declared_string call.parameters
      → render J call.name (arguments_json J declared_string call)
        ≡ render_call call.name call.parameters
  unfolding render
  render-arguments_json declared_string call texts =
      rw
        (
          render,
          object_members-arguments_json declared_string call call.parameters texts,
          texts_of_written call.parameters,
        )
        refl
