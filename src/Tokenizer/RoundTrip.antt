-- ===== src/Tokenizer/RoundTrip.antt =====
-- Encoding and decoding of the tokenizer of src/model.cpp, one after the other.
use vllm_cpp.Prelude.{
  ℕ, ◌+◌, Bool, true, false, ◌&&◌, List, [], ◌∷◌, ◌++◌, map, All, is_empty, ◌≡◌, refl, ap, sym,
  subst, ◌∙◌, inl, inr, none, some, Option-cases, some-injective, Bool-cases, arith,
}
use mathlib.Core.List.{flatten}
use vllm_cpp.Prelude.Assoc.{find?}
use vllm_cpp.Prelude.Texts.{same, same→eq, entry?}
use vllm_cpp.Tokenizer.{
  TokenizerConfig, byte_to_unicode, to_unicode, utf8_chars, merge_rank, bpe_encode, split_words,
  subtokens, token_id, tokenize, decode_piece, decode_id, decode_tokens,
}
use vllm_cpp.Tokenizer.Chars.{
  IsBytes, test_all, test_all_lt, utf8_chars-to_unicode, decode_piece-to_unicode,
}
use vllm_cpp.Tokenizer.Merging.{All-merge_at, apply_merges_inv}
use vllm_cpp.Tokenizer.Words.{All-append}
use vllm_cpp.Tokenizer.Pieces.{
  Encoded, Encoded-append, decode_pieces, byte-Encoded, All-bytes, words-Encoded, flatten-subtokens,
}

unfoldable pub is_known : TokenizerConfig → List ℕ → Bool
unfolding entry?
is_known tok piece = elim (entry? piece tok.vocab) [ none ↦ false | some id ↦ true ]

-- The vocabulary has the character of every byte.
unfoldable pub has_bytes : TokenizerConfig → Bool
unfolding is_known test_all
has_bytes tok = test_all (λ b. is_known tok (byte_to_unicode b)) 256

-- It has what each merge makes.
unfoldable pub knows_all : TokenizerConfig → List (List ℕ × List ℕ) → Bool
unfolding is_known
knows_all tok [] = true
knows_all tok (merge ∷ merges) = is_known tok (merge.0 ++ merge.1) && knows_all tok merges

unfoldable pub gives_back : TokenizerConfig → ℕ × List ℕ → Bool
unfolding find? same
gives_back tok entry = elim (find? entry.0 tok.inv_vocab) [
  | none ↦ false
  | some piece ↦ same piece entry.1
]

-- The inverse vocabulary gives every entry's text back.
unfoldable pub inverts : TokenizerConfig → List (List ℕ × ℕ) → Bool
unfolding gives_back
inverts tok [] = true
inverts tok (entry ∷ entries) = gives_back tok (entry.1, entry.0) && inverts tok entries

module _ (tok : TokenizerConfig) where
  merge-known :
      (merges : List (List ℕ × List ℕ)) (n m : ℕ) (pair : List ℕ)
      → knows_all tok merges ≡ true
      → merge_rank merges n pair ≡ some m
      → is_known tok pair ≡ true
  unfolding merge_rank knows_all
  merge-known [] n m pair h e = absurd (cc)
  merge-known (merge ∷ merges) n m pair h e = elim (Bool-cases (same (merge.0 ++ merge.1) pair)) [
    | inl found ↦
        subst (λ p. is_known tok p ≡ true) {x = merge.0 ++ merge.1} (same→eq _ _ found)
          (ground arith)
    | inr other ↦ merge-known merges (n + 1) m pair (ground arith) (rw (other, merge_rank) at e)
  ]

  Good : List ℕ → Type 0
  Good piece = (is_known tok piece ≡ true) × Encoded piece

  bpe-Good :
      has_bytes tok ≡ true
      → knows_all tok tok.merges ≡ true
      → (word : List ℕ) → Encoded word
      → All Good (bpe_encode tok word)
  unfolding bpe_encode Good Encoded has_bytes
  bpe-Good known merged word (text, h, e) =
      apply_merges_inv tok.merges (All Good)
        (λ k m ts at a.
          All-merge_at tok.merges Good
            (λ x y n r gx gy.
              (merge-known tok.merges 0 n (x ++ y) merged r, Encoded-append x y gx.1 gy.1))
            k m ts at a)
        200 (utf8_chars word)
        (rw (e, utf8_chars-to_unicode text h)
          (All-bytes Good
            (λ b lt. (
              test_all_lt (λ c. is_known tok (byte_to_unicode c)) 256 b known lt,
              byte-Encoded b lt,
            ))
            text h))

  words-Good :
      has_bytes tok ≡ true
      → knows_all tok tok.merges ≡ true
      → (words : List (List ℕ)) → All Encoded words
      → All Good (flatten (map (bpe_encode tok) words))
  unfolding flatten
  words-Good known merged [] a = tt
  words-Good known merged (w ∷ words) a =
      All-append Good (bpe_encode tok w) (flatten (map (bpe_encode tok) words))
        (bpe-Good known merged w a.0) (words-Good known merged words a.1)

  find?-gives_back :
      (piece : List ℕ) (id : ℕ)
      → gives_back tok (id, piece) ≡ true
      → find? id tok.inv_vocab ≡ some piece
  unfolding gives_back
  find?-gives_back piece id h = elim (Option-cases (find? id tok.inv_vocab)) [
    | inl e ↦ absurd (let f = rw (e, gives_back) at h in cc)
    | inr (found, e) ↦ e ∙ ap some (same→eq found piece (rw (e, gives_back) at h))
  ]

  find-entry :
      (entries : List (List ℕ × ℕ)) (piece : List ℕ) (id : ℕ)
      → inverts tok entries ≡ true
      → entry? piece entries ≡ some id
      → find? id tok.inv_vocab ≡ some piece
  unfolding inverts entry? gives_back
  find-entry [] piece id h e = absurd (cc)
  find-entry ((key, v) ∷ entries) piece id h e = elim (Bool-cases (same key piece)) [
    | inl equal ↦
        let id_eq : v ≡ id = some-injective _ _ (rw (equal, entry?) at e) in
        let key_eq : key ≡ piece = same→eq _ _ equal in
        find?-gives_back piece id (rw (← key_eq, ← id_eq) (ground arith))
    | inr other ↦ find-entry entries piece id (ground arith) (rw (other, entry?) at e)
  ]

  known_entry :
      (piece : List ℕ) → is_known tok piece ≡ true → (id : ℕ) × (entry? piece tok.vocab ≡ some id)
  unfolding is_known
  known_entry piece known = elim (Option-cases (entry? piece tok.vocab)) [
    | inl e ↦ absurd (let f = rw (e, is_known) at known in cc)
    | inr (id, e) ↦ (id, e)
  ]

  decode_id-token_id :
      (to_string : ℕ → List ℕ) (piece : List ℕ)
      → inverts tok tok.vocab ≡ true
      → is_known tok piece ≡ true
      → decode_id to_string tok (token_id tok piece) ≡ decode_piece piece
  unfolding decode_id token_id is_known
  decode_id-token_id to_string piece inv known =
      let (id, e) = known_entry piece known in
      rw (e, token_id) (rw (find-entry tok.vocab piece id inv e, decode_id) refl)

  decode_tokens-subtokens :
      (to_string : ℕ → List ℕ) (pieces : List (List ℕ))
      → inverts tok tok.vocab ≡ true
      → All Good pieces
      → decode_tokens to_string tok (map (token_id tok) pieces) ≡ map decode_piece pieces
  unfolding decode_tokens Good
  decode_tokens-subtokens to_string [] inv a = refl
  decode_tokens-subtokens to_string (p ∷ pieces) inv a =
      rw (decode_id-token_id to_string p inv a.0.0)
        (ap (λ r. decode_piece p ∷ r) (decode_tokens-subtokens to_string pieces inv a.1))

  All-Encoded : (pieces : List (List ℕ)) → All Good pieces → All Encoded pieces
  unfolding Good
  All-Encoded [] a = tt
  All-Encoded (p ∷ pieces) a = (a.0.1, All-Encoded pieces a.1)

  not_empty :
      (vocab : List (List ℕ × ℕ)) (piece : List ℕ) (id : ℕ)
      → entry? piece vocab ≡ some id
      → is_empty vocab ≡ false
  unfolding entry?
  not_empty [] piece id e = absurd (cc)
  not_empty (entry ∷ vocab) piece id e = refl

  vocab-not_empty : has_bytes tok ≡ true → is_empty tok.vocab ≡ false
  unfolding has_bytes
  vocab-not_empty known =
      let zero_known =
        test_all_lt (λ c. is_known tok (byte_to_unicode c)) 256 0 known (omega arith) in
      let (id, e) = known_entry (byte_to_unicode 0) zero_known in
      not_empty tok.vocab (byte_to_unicode 0) id e

  -- A tokenizer that knows the bytes and what its merges make, and whose inverse vocabulary gives
  -- each entry back, decodes the tokens of any text to the text.
  pub decode_tokens-tokenize :
      (to_string : ℕ → List ℕ) (text : List ℕ)
      → IsBytes text
      → has_bytes tok ≡ true
      → knows_all tok tok.merges ≡ true
      → inverts tok tok.vocab ≡ true
      → flatten (decode_tokens to_string tok (tokenize tok text)) ≡ text
  unfolding tokenize subtokens
  decode_tokens-tokenize to_string text h known merged inv =
      let good = words-Good known merged (split_words (to_unicode text)) (words-Encoded text h) in
      let (s, hs, es, d) =
        decode_pieces (subtokens tok text) (All-Encoded (subtokens tok text) good) in
      let equal : to_unicode s ≡ to_unicode text = sym es ∙ flatten-subtokens tok text in
      rw (vocab-not_empty known) (
        ap flatten (decode_tokens-subtokens to_string (subtokens tok text) inv good)
        ∙ d
        ∙ sym (decode_piece-to_unicode s hs)
        ∙ ap decode_piece equal
        ∙ decode_piece-to_unicode text h)
