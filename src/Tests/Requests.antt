-- ===== src/Tests/Requests.antt =====
-- Requests at concrete texts: src/json_utils.h, src/chat_prompt.h and src/http_utils.h.
use vllm_cpp.Prelude.{
  Option, none, pos, if◌then◌else◌, ℕ, List, [], ◌∷◌, ◌++◌, ℤ, some, ◌≡◌, refl, arith,
}
use mathlib.Core.List.{flatten}
use vllm_cpp.Prelude.Texts.{bytes, same, assign, entry?}
use vllm_cpp.Http.{content_length, parse_http}
use vllm_cpp.Http.Requests.{Lacks, assign_all, request_text, parse_http-request_text}
use vllm_cpp.Config.{im_start_token_id, im_end_token_id}
use vllm_cpp.Tokenizer.{decode_id, decode_tokens}
use vllm_cpp.Json.{
  json_escape, json_render, json_string, json_get_string, parse_json_string, read_quoted, find_text,
  starts_with, escape_byte,
}
use vllm_cpp.Json.Strings.{parse_json_string-json_render}
use vllm_cpp.Json.Lookup.{object_text, json_get_string_lem}
use vllm_cpp.Chat.{parse_messages, build_chat_prompt_tokens}
use vllm_cpp.Chat.Template.{template, decode_tokens-build_chat_prompt_tokens}
use vllm_cpp.Tests.Texts.{sample_tok, no_digits, sample-has_bytes, sample-knows_all, sample-inverts}

abbrev show_int : ℤ → List ℕ
show_int i = []

abbrev show_float : ℕ → List ℕ
show_float x = []

parse_json_string-json_render_example :
    parse_json_string (json_render show_int show_float (json_string (bytes "a\"b\n")) ++ bytes ",1")
    ≡ some (bytes "a\"b\n", bytes ",1")
parse_json_string-json_render_example =
    parse_json_string-json_render show_int show_float (bytes "a\"b\n") (bytes ",1")

json_get_string_lem_example :
    (json_get_string
        (object_text (bytes "role") (58 ∷ 32 ∷ []) (bytes "user") (bytes ",\"x\"}"))
        (bytes "role")
      ≡ bytes "user")
    × (json_get_string
          (object_text (bytes "role") (58 ∷ []) (bytes "user") (bytes ",\"x\"}"))
          (bytes "role")
        ≡ read_quoted (bytes ",\"x\"}"))
json_get_string_lem_example =
    json_get_string_lem (bytes "role") (bytes "user") (bytes ",\"x\"}")
      (unfold json_escape escape_byte find_text starts_with in refl)

abbrev chat_json : List ℕ
chat_json = bytes "{\"messages\": [{\"role\": \"user\", \"content\": \"hey\"}]}"

chat_messages :
    parse_messages chat_json ≡ record { role = bytes "user"; content = bytes "hey" } ∷ []
unfolding parse_messages
chat_messages = refl

decode_tokens-build_chat_prompt_tokens_example :
    flatten (decode_tokens no_digits sample_tok (build_chat_prompt_tokens sample_tok chat_json))
    ≡ template
        (decode_id no_digits sample_tok im_start_token_id)
        (decode_id no_digits sample_tok im_end_token_id)
        (parse_messages chat_json)
      ++ (decode_id no_digits sample_tok im_start_token_id ++ bytes "assistant\n")
unfolding parse_messages
decode_tokens-build_chat_prompt_tokens_example =
    decode_tokens-build_chat_prompt_tokens no_digits sample_tok sample-has_bytes sample-knows_all
      sample-inverts chat_json refl
      (
        (
          (omega arith, (omega arith, (omega arith, (omega arith, tt)))),
          (omega arith, (omega arith, (omega arith, tt))),
        ),
        tt,
      )

abbrev stoi_sample : List ℕ → Option ℤ
stoi_sample s = if same s (bytes "3") then some (pos 3) else none

abbrev post_headers : List (List ℕ × List ℕ)
post_headers = (bytes "Host", bytes "localhost") ∷ (bytes "Content-Length", bytes "3") ∷ []

parse_http-request_text_example :
    parse_http stoi_sample (
      request_text
        (bytes "POST")
        (bytes "/chat")
        (bytes "HTTP/1.1\r")
        post_headers
        (bytes "hey" ++ bytes "GET"))
    ≡ some (record {
      method = bytes "POST";
      path = bytes "/chat";
      body = bytes "hey";
      headers = assign_all post_headers [];
    })
parse_http-request_text_example =
    parse_http-request_text stoi_sample (bytes "POST") (bytes "/chat") (bytes "HTTP/1.1\r")
      post_headers (bytes "3") (bytes "hey") (bytes "GET")
      (unfold Lacks in ((refl, (refl, (refl, (refl, tt)))), (refl, (refl, (refl, (refl, tt))))))
      (unfold Lacks in
        ((refl, (refl, (refl, (refl, (refl, tt))))), (refl, (refl, (refl, (refl, (refl, tt)))))))
      (unfold Lacks in (refl, (refl, (refl, (refl, (refl, (refl, (refl, (refl, (refl, tt))))))))))
      (unfold Lacks in
        (
          (
            (refl, (refl, (refl, (refl, tt)))),
            (refl, (refl, (refl, (refl, tt)))),
            (refl, (refl, (refl, (refl, (refl, (refl, (refl, (refl, (refl, tt))))))))),
          ),
          (
            (
              (
                refl,
                (
                  refl,
                  (
                    refl,
                    (
                      refl,
                      (
                        refl,
                        (refl, (refl, (refl, (refl, (refl, (refl, (refl, (refl, (refl, tt))))))))),
                      ),
                    ),
                  ),
                ),
              ),
              (
                refl,
                (
                  refl,
                  (
                    refl,
                    (
                      refl,
                      (
                        refl,
                        (refl, (refl, (refl, (refl, (refl, (refl, (refl, (refl, (refl, tt))))))))),
                      ),
                    ),
                  ),
                ),
              ),
              (refl, tt),
            ),
            tt,
          ),
        ))
      (unfold content_length assign_all assign entry? same in refl) (unfold same in refl)
