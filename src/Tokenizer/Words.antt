-- ===== src/Tokenizer/Words.antt =====
-- How the tokenizer of src/model.cpp cuts a converted text into words.
use vllm_cpp.Prelude.{
  ℕ, false, List, [], ◌∷◌, ◌++◌, All, is_empty, ◌≡◌, refl, ap, sym, ◌∙◌, inl, inr, Bool-cases,
  append-nil, append_assoc,
}
use mathlib.Core.List.{flatten}
use vllm_cpp.Prelude.Texts.{same, flatten-append}
use vllm_cpp.Tokenizer.{
  Splitting, close_word, split_char, split_loop, split_words, utf8_chars, byte_to_unicode,
}
use vllm_cpp.Tokenizer.Chars.{flatten-utf8_chars}

pub All-append {ℓ κ} :
    {A : Type ℓ} (P : A → Type κ) (xs ys : List A) → All P xs → All P ys → All P (xs ++ ys)
All-append P [] ys a b = b
All-append P (x ∷ xs) ys a b = (a.0, All-append P xs ys a.1 b)

flatten_closed :
    (ws : List (List ℕ)) (current : List ℕ)
    → flatten (close_word (record { words = ws; current = current })) ≡ flatten ws ++ current
unfolding close_word flatten
flatten_closed ws [] = sym (append-nil (flatten ws))
flatten_closed ws (c ∷ cs) =
    flatten-append ws ((c ∷ cs) ∷ []) ∙ ap (λ r. flatten ws ++ r) (append-nil (c ∷ cs))

flatten-close_word : (s : Splitting) → flatten (close_word s) ≡ flatten s.words ++ s.current
flatten-close_word s = flatten_closed s.words s.current

-- The text that has been read.
read : Splitting → List ℕ
read s = flatten s.words ++ s.current

read-split_char : (ch : List ℕ) (s : Splitting) → read (split_char ch s) ≡ read s ++ ch
unfolding read split_char flatten
read-split_char ch s = elim (Bool-cases (same ch (byte_to_unicode 32))) [
  | inl space ↦ rw (space, split_char) (ap (λ r. r ++ ch) (flatten-close_word s))
  | inr other ↦ elim (Bool-cases (same ch (byte_to_unicode 10))) [
    | inl newline ↦
        rw (other, newline, split_char)
          (append-nil _
            ∙ flatten-append (close_word s) (ch ∷ [])
            ∙ ap (λ r. flatten (close_word s) ++ r) (append-nil ch)
            ∙ ap (λ r. r ++ ch) (flatten-close_word s))
    | inr plain ↦ rw (other, plain, split_char) (sym (append_assoc (flatten s.words) s.current ch))
  ]
]

read-split_loop :
    (chs : List (List ℕ)) (s : Splitting) → read (split_loop chs s) ≡ read s ++ flatten chs
unfolding split_loop flatten
read-split_loop [] s = sym (append-nil (read s))
read-split_loop (ch ∷ chs) s =
    read-split_loop chs (split_char ch s)
    ∙ ap (λ r. r ++ flatten chs) (read-split_char ch s)
    ∙ append_assoc (read s) ch (flatten chs)

-- The words put together are the text.
pub flatten-split_words : (text : List ℕ) → flatten (split_words text) ≡ text
unfolding split_words
flatten-split_words text =
    flatten-close_word (split_loop (utf8_chars text) (record { words = []; current = [] }))
    ∙ unfold read in
      (read-split_loop (utf8_chars text) (record { words = []; current = [] }))
      ∙ unfold read flatten in (flatten-utf8_chars text)

-- A predicate of the words that hold whole characters.
module _ (P : List ℕ → Type 0) (append : (x y : List ℕ) → P x → P y → P (x ++ y)) where
  Keeps : Splitting → Type 0
  Keeps s = All P s.words × (is_empty s.current ≡ false → P s.current)

  All-closed :
      (ws : List (List ℕ)) (current : List ℕ)
      → All P ws
      → (is_empty current ≡ false → P current)
      → All P (close_word (record { words = ws; current = current }))
  unfolding close_word
  All-closed ws [] a p = a
  All-closed ws (c ∷ cs) a p = All-append P ws ((c ∷ cs) ∷ []) a (p refl, tt)

  All-close_word : (s : Splitting) → Keeps s → All P (close_word s)
  unfolding Keeps
  All-close_word s k = All-closed s.words s.current k.0 k.1

  extend : (current ch : List ℕ) → (is_empty current ≡ false → P current) → P ch → P (current ++ ch)
  extend [] ch h p = p
  extend (c ∷ current) ch h p = append (c ∷ current) ch (h refl) p

  split_char-Keeps : (ch : List ℕ) (s : Splitting) → P ch → Keeps s → Keeps (split_char ch s)
  unfolding Keeps split_char
  split_char-Keeps ch s p k = elim (Bool-cases (same ch (byte_to_unicode 32))) [
    | inl space ↦ rw (space, split_char) (All-close_word s k, λ _. p)
    | inr other ↦ elim (Bool-cases (same ch (byte_to_unicode 10))) [
      | inl newline ↦
          rw (other, newline, split_char)
            (All-append P (close_word s) (ch ∷ []) (All-close_word s k) (p, tt), λ e. absurd (cc))
      | inr plain ↦ rw (other, plain, split_char) (k.0, λ _. extend s.current ch k.1 p)
    ]
  ]

  split_loop-Keeps :
      (chs : List (List ℕ)) (s : Splitting) → All P chs → Keeps s → Keeps (split_loop chs s)
  unfolding split_loop
  split_loop-Keeps [] s a k = k
  split_loop-Keeps (ch ∷ chs) s a k =
      split_loop-Keeps chs (split_char ch s) a.1 (split_char-Keeps ch s a.0 k)

  -- What holds of every character and of texts put together holds of every word.
  pub All-split_words : (text : List ℕ) → All P (utf8_chars text) → All P (split_words text)
  unfolding split_words Keeps
  All-split_words text a =
      All-close_word _ (split_loop-Keeps (utf8_chars text) _ a (tt, λ e. absurd (cc)))
