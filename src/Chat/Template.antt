-- ===== src/Chat/Template.antt =====
-- The prompt of src/chat_prompt.h, decoded, is the chat template.
use vllm_cpp.Prelude.{
  ℕ, ◌<◌, true, false, is_empty, List, [], ◌∷◌, ◌++◌, All, ◌≡◌, refl, ap, sym, ◌∙◌, Bool-cases, inl,
  inr, append_assoc, arith,
}
use mathlib.Core.List.{flatten}
use vllm_cpp.Prelude.Texts.{bytes, same, same→eq}
use vllm_cpp.Config.{im_start_token_id, im_end_token_id}
use vllm_cpp.Tokenizer.{TokenizerConfig, tokenize, decode_id, decode_tokens}
use vllm_cpp.Tokenizer.Chars.{IsBytes}
use vllm_cpp.Tokenizer.Words.{All-append}
use vllm_cpp.Tokenizer.RoundTrip.{has_bytes, knows_all, inverts, decode_tokens-tokenize}
use vllm_cpp.Chat.{Msg, parse_messages, role_text, message_tokens, build_chat_prompt_tokens}

abbrev pub IsMsg : Msg → Type 0
IsMsg m = IsBytes m.role × IsBytes m.content

-- The special cases of the source add a newline like the general one.
role_text_lem : (role : List ℕ) → role_text role ≡ role ++ bytes "\n"
unfolding role_text
role_text_lem role = elim (Bool-cases (same role (bytes "system"))) [
  | inl e ↦ rw (e, role_text) (ap (λ r. r ++ bytes "\n") (sym (same→eq role (bytes "system") e)))
  | inr e ↦ elim (Bool-cases (same role (bytes "user"))) [
    | inl f ↦ rw (e, f, role_text) (ap (λ r. r ++ bytes "\n") (sym (same→eq role (bytes "user") f)))
    | inr f ↦ elim (Bool-cases (same role (bytes "assistant"))) [
      | inl g ↦
          rw (e, f, g, role_text)
            (ap (λ r. r ++ bytes "\n") (sym (same→eq role (bytes "assistant") g)))
      | inr g ↦ rw (e, f, g, role_text) refl
    ]
  ]
]

-- The chat template: each message between its two special tokens.
unfoldable pub template : List ℕ → List ℕ → List Msg → List ℕ
template start end [] = []
template start end (m ∷ messages) =
    start
    ++ (m.role
        ++ (bytes "\n" ++ (m.content ++ (end ++ (bytes "\n" ++ template start end messages)))))

module _ (to_string : ℕ → List ℕ) (tok : TokenizerConfig) where
  decoded : List ℕ → List ℕ
  decoded tokens = flatten (decode_tokens to_string tok tokens)

  decoded-append : (xs ys : List ℕ) → decoded (xs ++ ys) ≡ decoded xs ++ decoded ys
  unfolding decoded decode_tokens flatten
  decoded-append [] ys = refl
  decoded-append (x ∷ xs) ys =
      ap (λ r. decode_id to_string tok x ++ r) (decoded-append xs ys)
      ∙ sym (append_assoc (decode_id to_string tok x) (decoded xs) (decoded ys))

  decoded-cons : (x : ℕ) (xs : List ℕ) → decoded (x ∷ xs) ≡ decode_id to_string tok x ++ decoded xs
  unfolding decoded decode_tokens flatten
  decoded-cons x xs = refl

  decoded-message :
      (s e : ℕ) (text newline rest : List ℕ)
      → decoded (s ∷ text ++ (e ∷ newline ++ rest))
        ≡ decode_id to_string tok s
          ++ (decoded text ++ (decode_id to_string tok e ++ (decoded newline ++ decoded rest)))
  unfolding decoded decode_tokens flatten
  decoded-message s e text newline rest =
      ap (λ r. decode_id to_string tok s ++ r)
        (decoded-append text (e ∷ newline ++ rest)
          ∙ ap (λ r. decoded text ++ (decode_id to_string tok e ++ r))
              (decoded-append newline rest))

  module _ (known : has_bytes tok ≡ true) (merged : knows_all tok tok.merges ≡ true)
      (inv : inverts tok tok.vocab ≡ true) where
    text_back : (text : List ℕ) → IsBytes text → decoded (tokenize tok text) ≡ text
    unfolding decoded
    text_back text h = decode_tokens-tokenize tok to_string text h known merged inv

    newline : IsBytes (bytes "\n")
    newline = (omega arith, tt)

    decoded-message_tokens :
        (messages : List Msg)
        → All IsMsg messages
        → decoded (message_tokens tok messages)
          ≡ template
              (decode_id to_string tok im_start_token_id)
              (decode_id to_string tok im_end_token_id)
              messages
    unfolding template message_tokens
    decoded-message_tokens [] h = unfold decoded decode_tokens flatten in refl
    decoded-message_tokens (m ∷ messages) h =
        let role_bytes : IsBytes (role_text m.role) =
          rw (role_text_lem m.role) (All-append (λ b. b < 256) m.role (bytes "\n") h.0.0 newline) in
        let text_bytes = All-append (λ b. b < 256) (role_text m.role) m.content role_bytes h.0.1 in
        decoded-message im_start_token_id im_end_token_id
          (tokenize tok (role_text m.role ++ m.content)) (tokenize tok (bytes "\n"))
          (message_tokens tok messages)
        ∙ rw
            (
              text_back (role_text m.role ++ m.content) text_bytes,
              text_back (bytes "\n") newline,
              decoded-message_tokens messages h.1,
              role_text_lem m.role,
            )
            (ap (λ r. decode_id to_string tok im_start_token_id ++ r)
              (append_assoc (m.role ++ bytes "\n") m.content _
                ∙ append_assoc m.role (bytes "\n") _))

    -- The tokens of a chat request with a message decode to the template of its messages and the
    -- opening of the assistant's turn.
    pub decode_tokens-build_chat_prompt_tokens :
        (json : List ℕ)
        → is_empty (parse_messages json) ≡ false
        → All IsMsg (parse_messages json)
        → flatten (decode_tokens to_string tok (build_chat_prompt_tokens tok json))
          ≡ template
              (decode_id to_string tok im_start_token_id)
              (decode_id to_string tok im_end_token_id)
              (parse_messages json)
            ++ (decode_id to_string tok im_start_token_id ++ bytes "assistant\n")
    unfolding decoded build_chat_prompt_tokens
    decode_tokens-build_chat_prompt_tokens json some_messages h =
        rw (some_messages, build_chat_prompt_tokens)
          (decoded-append (message_tokens tok (parse_messages json))
              (im_start_token_id ∷ tokenize tok (bytes "assistant\n"))
            ∙ ap (λ r. decoded (message_tokens tok (parse_messages json)) ++ r)
                (decoded-cons im_start_token_id (tokenize tok (bytes "assistant\n")))
            ∙ ap
                (λ r.
                  decoded (message_tokens tok (parse_messages json))
                  ++ (decode_id to_string tok im_start_token_id ++ r))
                (text_back (bytes "assistant\n") (
                  omega arith,
                  (
                    omega arith,
                    (
                      omega arith,
                      (
                        omega arith,
                        (
                          omega arith,
                          (
                            omega arith,
                            (omega arith, (omega arith, (omega arith, (omega arith, tt)))),
                          ),
                        ),
                      ),
                    ),
                  ),
                ))
            ∙ ap (λ r. r ++ (decode_id to_string tok im_start_token_id ++ bytes "assistant\n"))
                (decoded-message_tokens (parse_messages json) h))
