-- ===== src/Tests/Texts.antt =====
-- Runs of the tokenizer of src/model.cpp, and its theorems at a small vocabulary.
use vllm_cpp.Prelude.{ℕ, zero, suc, ◌+◌, List, [], ◌∷◌, none, some, ◌≡◌, refl, true, arith, ◌⊎◌}
use mathlib.Core.List.{flatten}
use vllm_cpp.Prelude.Texts.{bytes, same}
use vllm_cpp.Tokenizer.{
  TokenizerConfig, byte_to_unicode, utf8_chars, best_merge, bpe_encode, tokenize, decode_tokens,
}
use vllm_cpp.Tokenizer.Merges.{pair_rank, IsFirstLeast, best_merge_cases}
use vllm_cpp.Tokenizer.RoundTrip.{has_bytes, knows_all, inverts, decode_tokens-tokenize}
use vllm_cpp.Tokenizer.Pieces.{best_merge-bpe_encode}

-- The characters of the bytes from `b` on, each with its byte as id.
abbrev byte_entries : ℕ → ℕ → List (List ℕ × ℕ)
byte_entries zero b = (bytes "he", 256) ∷ (bytes "hey", 257) ∷ []
byte_entries (suc n) b = (byte_to_unicode b, b) ∷ byte_entries n (b + 1)

abbrev byte_texts : ℕ → ℕ → List (ℕ × List ℕ)
byte_texts zero b = (256, bytes "he") ∷ (257, bytes "hey") ∷ []
byte_texts (suc n) b = (b, byte_to_unicode b) ∷ byte_texts n (b + 1)

abbrev pub sample_tok : TokenizerConfig
sample_tok = record {
  vocab = byte_entries 256 0;
  inv_vocab = byte_texts 256 0;
  merges = (bytes "h", bytes "e") ∷ (bytes "he", bytes "y") ∷ [];
  unk_token_id = 0;
  bos_token_id = 998;
  eos_token_id = 999;
}

abbrev greeting : List ℕ
greeting = bytes "hey he\nis"

abbrev pub no_digits : ℕ → List ℕ
no_digits n = []

tokens_of_greeting : tokenize sample_tok greeting ≡ 257 ∷ 32 ∷ 256 ∷ 10 ∷ 105 ∷ 115 ∷ []
unfolding tokenize byte_to_unicode
tokens_of_greeting = refl

pub sample-has_bytes : has_bytes sample_tok ≡ true
unfolding has_bytes byte_to_unicode same
sample-has_bytes = refl

pub sample-knows_all : knows_all sample_tok sample_tok.merges ≡ true
unfolding knows_all byte_to_unicode same
sample-knows_all = refl

pub sample-inverts : inverts sample_tok sample_tok.vocab ≡ true
unfolding inverts byte_to_unicode
sample-inverts = refl

decode_tokens-tokenize_example :
    flatten (decode_tokens no_digits sample_tok (tokenize sample_tok greeting)) ≡ greeting
decode_tokens-tokenize_example =
    decode_tokens-tokenize sample_tok no_digits greeting
      (
        omega arith,
        (
          omega arith,
          (
            omega arith,
            (
              omega arith,
              (omega arith, (omega arith, (omega arith, (omega arith, (omega arith, tt))))),
            ),
          ),
        ),
      )
      sample-has_bytes sample-knows_all sample-inverts

best_merge-bpe_encode_example :
    best_merge sample_tok.merges (bpe_encode sample_tok (bytes "hey")) ≡ none
best_merge-bpe_encode_example =
    best_merge-bpe_encode sample_tok (bytes "hey") (unfold utf8_chars in omega arith)

abbrev three_tokens : List (List ℕ)
three_tokens = bytes "h" ∷ bytes "e" ∷ bytes "y" ∷ []

best_merge_cases_example :
    ((best_merge sample_tok.merges three_tokens ≡ none)
      × ((k : ℕ) → pair_rank sample_tok.merges three_tokens k ≡ none))
    ⊎ ((k : ℕ) × (best_merge sample_tok.merges three_tokens ≡ some k)
        × ((m : ℕ) × IsFirstLeast sample_tok.merges three_tokens k m))
best_merge_cases_example = best_merge_cases sample_tok.merges three_tokens (omega arith)
