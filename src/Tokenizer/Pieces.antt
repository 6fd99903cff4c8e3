-- ===== src/Tokenizer/Pieces.antt =====
-- The subtokens of the tokenizer of src/model.cpp: no byte is lost, and each stands for bytes.
use vllm_cpp.Prelude.{
  ℕ, ◌<◌, ◌≤◌, List, [], ◌∷◌, ◌++◌, map, length, All, ◌≡◌, refl, ap, sym, ◌∙◌, none, append-nil,
  append_assoc,
}
use mathlib.Core.List.{flatten}
use vllm_cpp.Prelude.Texts.{flatten-append}
use vllm_cpp.Tokenizer.{
  TokenizerConfig, byte_to_unicode, to_unicode, utf8_chars, best_merge, bpe_encode, split_words,
  subtokens, decode_piece,
}
use vllm_cpp.Tokenizer.Chars.{
  IsBytes, utf8_chars-to_unicode, decode_piece-to_unicode, flatten-utf8_chars,
}
use vllm_cpp.Tokenizer.Merging.{flatten-apply_merges, merges_end}
use vllm_cpp.Tokenizer.Words.{All-append, All-split_words, flatten-split_words}

-- No byte is lost on the way to subtokens.
flatten-bpe_encode : (tok : TokenizerConfig) (word : List ℕ) → flatten (bpe_encode tok word) ≡ word
unfolding bpe_encode
flatten-bpe_encode tok word =
    flatten-apply_merges tok.merges 200 (utf8_chars word) ∙ flatten-utf8_chars word

flatten_words :
    (tok : TokenizerConfig) (words : List (List ℕ))
    → flatten (flatten (map (bpe_encode tok) words)) ≡ flatten words
unfolding flatten
flatten_words tok [] = refl
flatten_words tok (w ∷ words) =
    flatten-append (bpe_encode tok w) (flatten (map (bpe_encode tok) words))
    ∙ ap (λ r. r ++ flatten (flatten (map (bpe_encode tok) words))) (flatten-bpe_encode tok w)
    ∙ ap (λ r. w ++ r) (flatten_words tok words)

-- The subtokens of any text put together are the converted text.
pub flatten-subtokens :
    (tok : TokenizerConfig) (text : List ℕ) → flatten (subtokens tok text) ≡ to_unicode text
unfolding subtokens
flatten-subtokens tok text =
    flatten_words tok (split_words (to_unicode text)) ∙ flatten-split_words (to_unicode text)

-- A word of at most 201 characters is merged until no merge applies to it.
pub best_merge-bpe_encode :
    (tok : TokenizerConfig) (word : List ℕ)
    → length (utf8_chars word) ≤ 201
    → best_merge tok.merges (bpe_encode tok word) ≡ none
unfolding bpe_encode
best_merge-bpe_encode tok word h = merges_end tok.merges 200 (utf8_chars word) h

unfoldable pub Encoded : List ℕ → Type 0
Encoded piece = (text : List ℕ) × IsBytes text × (piece ≡ to_unicode text)

to_unicode-append : (s t : List ℕ) → to_unicode (s ++ t) ≡ to_unicode s ++ to_unicode t
unfolding to_unicode flatten
to_unicode-append [] t = refl
to_unicode-append (b ∷ s) t =
    ap (λ r. byte_to_unicode b ++ r) (to_unicode-append s t)
    ∙ sym (append_assoc (byte_to_unicode b) (to_unicode s) (to_unicode t))

pub Encoded-append : (x y : List ℕ) → Encoded x → Encoded y → Encoded (x ++ y)
unfolding Encoded
Encoded-append x y (s, hs, es) (t, ht, et) =
    (s ++ t, All-append (λ b. b < 256) s t hs ht, rw (es, et) (sym (to_unicode-append s t)))

-- Pieces that stand for bytes decode one by one to the bytes of the whole.
pub decode_pieces :
    (pieces : List (List ℕ))
    → All Encoded pieces
    → (text : List ℕ) × IsBytes text
      × (flatten pieces ≡ to_unicode text)
      × (flatten (map decode_piece pieces) ≡ text)
unfolding flatten Encoded
decode_pieces [] a = ([], tt, unfold to_unicode in refl, refl)
decode_pieces (p ∷ pieces) a =
    let (s, hs, es) = a.0 in
    let (t, ht, et, d) = decode_pieces pieces a.1 in
    (
      s ++ t,
      All-append (λ b. b < 256) s t hs ht,
      rw (es, et) (sym (to_unicode-append s t)),
      rw (es, d) (ap (λ r. r ++ t) (decode_piece-to_unicode s hs)),
    )

pub byte-Encoded : (b : ℕ) → b < 256 → Encoded (byte_to_unicode b)
unfolding Encoded to_unicode flatten
byte-Encoded b h = (b ∷ [], (h, tt), sym (append-nil (byte_to_unicode b)))

pub All-bytes :
    (P : List ℕ → Type 0)
    → ((b : ℕ) → b < 256 → P (byte_to_unicode b))
    → (text : List ℕ) → IsBytes text
    → All P (map byte_to_unicode text)
All-bytes P each [] h = tt
All-bytes P each (b ∷ text) h = (each b h.0, All-bytes P each text h.1)

pub words-Encoded : (text : List ℕ) → IsBytes text → All Encoded (split_words (to_unicode text))
words-Encoded text h =
    All-split_words Encoded Encoded-append (to_unicode text)
      (rw (utf8_chars-to_unicode text h) (All-bytes Encoded byte-Encoded text h))
