-- ===== src/Json.antt =====
-- src/json_utils.h, and parse_json_string of src/model.cpp, over lists of bytes. A position in a text
-- is the rest of the text from there on. Printing and reading numbers are library calls, so they
-- are parameters.
pub mod Strings
pub mod Lookup
use vllm_cpp.Prelude.{
  ℕ, zero, suc, ◌+◌, ◌-◌, ◌*◌, ◌/◌, ◌%◌, ◌==◌, leb, ltb, is_empty, Bool, true, false, not, ◌&&◌,
  ◌||◌, if◌then◌else◌, List, [], ◌∷◌, ◌++◌, length, take, drop, ℤ, Option, none, some,
}
use vllm_cpp.Prelude.Texts.{bytes, same}
use vllm_cpp.Tokenizer.{utf8_encode}

unfoldable pub escape_byte : ℕ → List ℕ
escape_byte c =
    if c == 34
    then 92 ∷ 34 ∷ []
    else if c == 92
    then 92 ∷ 92 ∷ []
    else if c == 10
    then 92 ∷ b'n' ∷ []
    else if c == 13
    then 92 ∷ b'r' ∷ []
    else if c == 9
    then 92 ∷ b't' ∷ []
    else c ∷ []

unfoldable pub json_escape : List ℕ → List ℕ
unfolding escape_byte
json_escape [] = []
json_escape (c ∷ s) = escape_byte c ++ json_escape s

-- The byte that `\` and a byte stand for.
unfoldable pub unescape_byte : ℕ → ℕ
unescape_byte c = if c == b'n' then 10 else if c == b't' then 9 else if c == b'r' then 13 else c

-- `Number` is double.
module _ (Number : Type 0) where
  mutual
    pub data JsonValue : Type 0 where
      json_null : JsonValue
      json_bool : Bool → JsonValue
      json_int : ℤ → JsonValue
      json_float : Number → JsonValue
      json_string : List ℕ → JsonValue
      json_array : JsonValues → JsonValue
      json_object : JsonFields → JsonValue

    pub data JsonValues : Type 0 where
      no_values : JsonValues
      value : JsonValue → JsonValues → JsonValues

    pub data JsonFields : Type 0 where
      no_fields : JsonFields
      field : List ℕ → JsonValue → JsonFields → JsonFields

module _ {Number : Type 0} (show_int : ℤ → List ℕ) (show_float : Number → List ℕ) where
  unfoldable mutual
    unfolding json_escape

    pub json_render : JsonValue Number → List ℕ
    json_render json_null = bytes "null"
    json_render (json_bool b) = if b then bytes "true" else bytes "false"
    json_render (json_int i) = show_int i
    json_render (json_float x) = show_float x
    json_render (json_string s) = 34 ∷ json_escape s ++ (34 ∷ [])
    json_render (json_array vs) = 91 ∷ render_values vs ++ (93 ∷ [])
    json_render (json_object fs) = 123 ∷ render_fields fs ++ (125 ∷ [])

    pub render_values : JsonValues Number → List ℕ
    render_values no_values = []
    render_values (value v no_values) = json_render v
    render_values (value v (value w vs)) = json_render v ++ (44 ∷ render_values (value w vs))

    -- A key is printed as it is.
    pub render_fields : JsonFields Number → List ℕ
    render_fields no_fields = []
    render_fields (field key v no_fields) = 34 ∷ key ++ (34 ∷ 58 ∷ json_render v)
    render_fields (field key v (field key' w fs)) =
        34 ∷ key ++ (34 ∷ 58 ∷ json_render v) ++ (44 ∷ render_fields (field key' w fs))

-- The rest of a text from the first place where `needle` stands.
unfoldable pub starts_with : List ℕ → List ℕ → Bool
starts_with [] s = true
starts_with (c ∷ needle) [] = false
starts_with (c ∷ needle) (d ∷ s) = (c == d) && starts_with needle s

unfoldable pub find_text : List ℕ → List ℕ → Option (List ℕ)
unfolding starts_with
find_text needle [] = if is_empty needle then some [] else none
find_text needle (c ∷ s) = if starts_with needle (c ∷ s) then some (c ∷ s) else find_text needle s

-- The text up to the next quote, with its escapes undone.
unfoldable pub read_quoted : List ℕ → List ℕ
unfolding unescape_byte
read_quoted [] = []
read_quoted (c ∷ []) = if c == 34 then [] else c ∷ []
read_quoted (c ∷ d ∷ s) = elim (c == 34) [
  | true ↦ []
  | false ↦ elim (c == 92) [
    | true ↦ unescape_byte d ∷ read_quoted s
    | false ↦ c ∷ read_quoted (d ∷ s)
  ]
]

unfoldable pub quoted : List ℕ → List ℕ
quoted key = 34 ∷ key ++ (34 ∷ [])

unfoldable pub json_get_string : List ℕ → List ℕ → List ℕ
unfolding quoted find_text read_quoted
json_get_string json key = elim (find_text (quoted key) json) [
  | none ↦ []
  | some at ↦ elim (find_text (34 ∷ []) (drop (length (quoted key) + 2) at)) [
    | none ↦ []
    | some [] ↦ []
    | some (c ∷ s) ↦ read_quoted s
  ]
]

unfoldable pub skip_blanks : List ℕ → List ℕ
skip_blanks [] = []
skip_blanks (c ∷ s) = if c == 32 || c == 9 then skip_blanks s else c ∷ s

unfoldable pub is_digit : ℕ → Bool
is_digit c = leb 48 c && leb c 57

unfoldable pub number_text : List ℕ → List ℕ
unfolding is_digit
number_text [] = []
number_text (c ∷ s) = if is_digit c || c == b'.' || c == b'-' then c ∷ number_text s else []

-- `stof` reads the digits, or throws, which is `none`. A text without any is the default's turn.
module _ {Float : Type 0} (stof : List ℕ → Option Float) where
  unfoldable pub json_get_number : List ℕ → List ℕ → Float → Option Float
  unfolding quoted find_text skip_blanks number_text
  json_get_number json key def = elim (find_text (quoted key) json) [
    | none ↦ some def
    | some at ↦ elim (find_text (b':' ∷ []) (drop (length (quoted key)) at)) [
      | none ↦ some def
      | some rest ↦
          let num = number_text (skip_blanks (drop 1 rest)) in
          if is_empty num then some def else stof num
    ]
  ]

  unfoldable pub json_get_int : (ℤ → Float) → (Float → ℤ) → List ℕ → List ℕ → ℤ → Option ℤ
  unfolding json_get_number
  json_get_int of_int to_int json key def = elim (json_get_number json key (of_int def)) [
    | none ↦ none
    | some x ↦ some (to_int x)
  ]

-- `c - '0'` and its like for a hexadecimal digit, 0 for another byte.
unfoldable pub hex_digit : ℕ → ℕ
hex_digit c =
    if leb 48 c && leb c 57
    then c - 48
    else if leb 97 c && leb c 102
    then c - 97 + 10
    else if leb 65 c && leb c 70
    then c - 65 + 10
    else 0

unfoldable pub hex_number : List ℕ → ℕ → ℕ
unfolding hex_digit
hex_number [] cp = cp
hex_number (c ∷ s) cp = hex_number s (cp * 16 + hex_digit c)

-- What an escape puts out, and the text after it: `\u` with four bytes behind it is a code point,
-- with fewer it is nothing.
unfoldable pub parse_escape : ℕ → List ℕ → List ℕ × List ℕ
unfolding unescape_byte hex_number utf8_encode
parse_escape d s =
    if d == b'u'
    then if leb 4 (length s) then (utf8_encode (hex_number (take 4 s) 0), drop 4 s) else ([], s)
    else (unescape_byte d ∷ [], s)

unfoldable pub first_byte : List ℕ → ℕ
first_byte [] = 0
first_byte (d ∷ s) = d

-- The loop of parse_json_string: the output and the rest after the closing quote.
unfoldable pub string_loop : ℕ → List ℕ → List ℕ → List ℕ × List ℕ
unfolding parse_escape first_byte
string_loop zero s out = (out, s)
string_loop (suc rounds) [] out = (out, [])
string_loop (suc rounds) (c ∷ s) out = elim (c == 34) [
  | true ↦ (out, s)
  | false ↦ elim (c == 92 && not (is_empty s)) [
    | true ↦ let e = parse_escape (first_byte s) (drop 1 s) in string_loop rounds e.1 (out ++ e.0)
    | false ↦ string_loop rounds s (out ++ (c ∷ []))
  ]
]

-- A round takes a byte at least, so as many rounds as bytes are enough.
unfoldable pub parse_json_string : List ℕ → Option (List ℕ × List ℕ)
unfolding string_loop
parse_json_string [] = none
parse_json_string (c ∷ s) = if c == 34 then some (string_loop (length s) s []) else none
