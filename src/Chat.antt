-- ===== src/Chat.antt =====
-- src/chat_prompt.h: the tokens of a chat or of a text prompt, from the JSON of a request. A text is
-- a list of bytes, and a position in it is the rest of the text from there on.
pub mod Template
use vllm_cpp.Prelude.{
  ℕ, zero, suc, ◌==◌, is_empty, Bool, true, false, not, ◌&&◌, ◌||◌, if◌then◌else◌, List, [], ◌∷◌,
  ◌++◌, length, drop, Option, none, some,
}
use vllm_cpp.Prelude.Texts.{bytes, same}
use vllm_cpp.Config.{im_start_token_id, im_end_token_id}
use vllm_cpp.Tokenizer.{TokenizerConfig, tokenize}
use vllm_cpp.Json.{find_text, json_get_string}

pub record Msg : Type 0 where
  pub role : List ℕ
  pub content : List ℕ

-- The text up to the first `}`, that one included, and the text after it.
unfoldable pub cut_brace : List ℕ → Option (List ℕ × List ℕ)
cut_brace [] = none
cut_brace (c ∷ s) =
    if c == 125
    then some (c ∷ [], s)
    else elim (cut_brace s) [ none ↦ none | some (piece, rest) ↦ some (c ∷ piece, rest) ]

unfoldable pub add_message : List ℕ → List Msg → List Msg
unfolding json_get_string
add_message piece messages =
    let role = json_get_string piece (bytes "role") in
    let content = json_get_string piece (bytes "content") in
    if not (is_empty role) && not (is_empty content)
    then messages ++ (record { role = role; content = content } ∷ [])
    else messages

-- Every round passes a brace, so as many rounds as bytes are enough.
unfoldable pub read_messages : ℕ → List ℕ → List Msg → List Msg
unfolding cut_brace add_message find_text
read_messages zero json messages = messages
read_messages (suc rounds) json messages = elim (find_text (123 ∷ []) json) [
  | none ↦ messages
  | some at ↦ elim (cut_brace at) [
    | none ↦ messages
    | some (piece, rest) ↦ read_messages rounds rest (add_message piece messages)
  ]
]

unfoldable pub parse_messages : List ℕ → List Msg
unfolding read_messages find_text
parse_messages json = elim (find_text (bytes "\"messages\"") json) [
  | none ↦ []
  | some at ↦ elim (find_text (91 ∷ []) at) [
    | none ↦ []
    | some list ↦ read_messages (length list) list []
  ]
]

-- Each of the roles that the source tells apart is followed by a newline, and so is any other.
unfoldable pub role_text : List ℕ → List ℕ
unfolding same
role_text role =
    if same role (bytes "system")
    then bytes "system\n"
    else if same role (bytes "user")
    then bytes "user\n"
    else if same role (bytes "assistant")
    then bytes "assistant\n"
    else role ++ bytes "\n"

unfoldable pub message_tokens : TokenizerConfig → List Msg → List ℕ
message_tokens tok [] = []
message_tokens tok (m ∷ messages) =
    im_start_token_id ∷ tokenize tok (role_text m.role ++ m.content)
    ++ (im_end_token_id ∷ tokenize tok (bytes "\n") ++ message_tokens tok messages)

unfoldable pub build_chat_prompt_tokens : TokenizerConfig → List ℕ → List ℕ
build_chat_prompt_tokens tok json =
    let messages = parse_messages json in
    if is_empty messages
    then []
    else message_tokens tok messages ++ (im_start_token_id ∷ tokenize tok (bytes "assistant\n"))

unfoldable pub text_prompt : List ℕ → List ℕ
unfolding json_get_string
text_prompt json =
    let prompt = json_get_string json (bytes "prompt") in
    let sys = json_get_string json (bytes "system") in
    let usr = json_get_string json (bytes "user") in
    if not (is_empty prompt)
    then prompt
    else if not (is_empty sys) && not (is_empty usr)
    then sys ++ (bytes "\n" ++ usr)
    else usr

unfoldable pub build_text_prompt_tokens : TokenizerConfig → List ℕ → List ℕ
build_text_prompt_tokens tok json =
    let prompt = text_prompt json in if is_empty prompt then [] else tokenize tok prompt
