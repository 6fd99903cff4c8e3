-- ===== src/Tokenizer/Chars.antt =====
-- The characters that stand for bytes: the table of src/model.cpp and the split into characters.
use vllm_cpp.Prelude.{
  ℕ, zero, suc, ◌<◌, ◌≤◌, ◌==◌, Bool, true, false, ◌&&◌, List, [], ◌∷◌, ◌++◌, map, length, take,
  drop, All, length-append, ◌≡◌, refl, ap, ◌∙◌, inl, inr, length-drop, ==→eq, arith,
}
use mathlib.Core.List.{flatten}
use vllm_cpp.Prelude.Texts.{same, same→eq}
use vllm_cpp.Prelude.Loops.{last_or}
use vllm_cpp.Tokenizer.{
  byte_to_unicode, decode_char, char_width, chars_loop, utf8_chars, to_unicode, decode_piece,
}

abbrev pub IsBytes : List ℕ → Type 0
IsBytes text = All (λ b. b < 256) text

-- A test of all numbers below `n`.
unfoldable pub test_all : (ℕ → Bool) → ℕ → Bool
test_all test zero = true
test_all test (suc n) = test n && test_all test n

pub test_all_lt : (test : ℕ → Bool) (n b : ℕ) → test_all test n ≡ true → b < n → test b ≡ true
unfolding test_all
test_all_lt test zero b h lt = elim lt [ ]
test_all_lt test (suc n) b h lt = elim (last_or b n (omega arith)) [
  | inl e ↦ rw e (ground arith)
  | inr l ↦ test_all_lt test n b (ground arith) l
]

decodes : ℕ → Bool
decodes b = same (decode_char (byte_to_unicode b)) (b ∷ [])

all_decode : test_all decodes 256 ≡ true
unfolding test_all decodes decode_char byte_to_unicode same
all_decode = refl

-- Each byte is recovered from the character that stands for it.
pub decode_char-byte_to_unicode : (b : ℕ) → b < 256 → decode_char (byte_to_unicode b) ≡ b ∷ []
unfolding decodes
decode_char-byte_to_unicode b h = same→eq _ _ (test_all_lt decodes 256 b all_decode h)

-- One character: its first byte tells how many there are.
is_char : List ℕ → Bool
unfolding char_width
is_char [] = false
is_char (c ∷ s) = char_width c == suc (length s)

all_chars : test_all (λ b. is_char (byte_to_unicode b)) 256 ≡ true
unfolding test_all byte_to_unicode is_char
all_chars = refl

byte_to_unicode-is_char : (b : ℕ) → b < 256 → is_char (byte_to_unicode b) ≡ true
byte_to_unicode-is_char b h = test_all_lt (λ b. is_char (byte_to_unicode b)) 256 b all_chars h

take-append : (s t : List ℕ) → take (length s) (s ++ t) ≡ s
take-append [] t = refl
take-append (c ∷ s) t = ap (λ r. c ∷ r) (take-append s t)

drop-append : (s t : List ℕ) → drop (length s) (s ++ t) ≡ t
drop-append [] t = refl
drop-append (c ∷ s) t = drop-append s t

chars_loop-append :
    (n : ℕ) (ch s : List ℕ) → is_char ch ≡ true → chars_loop (suc n) (ch ++ s) ≡ ch ∷ chars_loop n s
unfolding chars_loop is_char
chars_loop-append n [] s h = absurd (cc)
chars_loop-append n (c ∷ ch) s h = rw (==→eq _ _ h, take-append ch s, drop-append ch s) refl

length_pos : (ch : List ℕ) → is_char ch ≡ true → 0 < length ch
unfolding is_char
length_pos [] h = ground arith
length_pos (c ∷ ch) h = omega arith

chars_loop-to_unicode :
    (n : ℕ) (text : List ℕ)
    → IsBytes text
    → length text ≤ n
    → chars_loop n (to_unicode text) ≡ map byte_to_unicode text
unfolding to_unicode flatten
chars_loop-to_unicode zero [] h le = unfold chars_loop in refl
chars_loop-to_unicode (suc n) [] h le = unfold chars_loop in refl
chars_loop-to_unicode zero (b ∷ text) h le = elim le [ ]
chars_loop-to_unicode (suc n) (b ∷ text) h le =
    chars_loop-append n (byte_to_unicode b) (to_unicode text) (byte_to_unicode-is_char b h.0)
    ∙ ap (λ r. byte_to_unicode b ∷ r) (chars_loop-to_unicode n text h.1 (omega arith))

length-to_unicode : (text : List ℕ) → IsBytes text → length text ≤ length (to_unicode text)
unfolding to_unicode flatten
length-to_unicode [] h = omega arith
length-to_unicode (b ∷ text) h = omega (
  arith,
  length-append (byte_to_unicode b) (to_unicode text),
  length_pos (byte_to_unicode b) (byte_to_unicode-is_char b h.0),
  length-to_unicode text h.1,
)

-- The characters of a converted text are those of its bytes.
pub utf8_chars-to_unicode :
    (text : List ℕ) → IsBytes text → utf8_chars (to_unicode text) ≡ map byte_to_unicode text
unfolding utf8_chars
utf8_chars-to_unicode text h =
    chars_loop-to_unicode (length (to_unicode text)) text h (length-to_unicode text h)

decode_all :
    (text : List ℕ) → IsBytes text → flatten (map decode_char (map byte_to_unicode text)) ≡ text
unfolding flatten
decode_all [] h = refl
decode_all (b ∷ text) h =
    rw (decode_char-byte_to_unicode b h.0) (ap (λ r. b ∷ r) (decode_all text h.1))

pub decode_piece-to_unicode : (text : List ℕ) → IsBytes text → decode_piece (to_unicode text) ≡ text
unfolding decode_piece
decode_piece-to_unicode text h = rw (utf8_chars-to_unicode text h) (decode_all text h)

take-drop : (n : ℕ) (s : List ℕ) → take n s ++ drop n s ≡ s
take-drop zero s = refl
take-drop (suc n) [] = refl
take-drop (suc n) (c ∷ s) = ap (λ r. c ∷ r) (take-drop n s)

char_width_pos : (c : ℕ) → 1 ≤ char_width c
unfolding char_width
char_width_pos c = ground arith

flatten-chars_loop : (n : ℕ) (s : List ℕ) → length s ≤ n → flatten (chars_loop n s) ≡ s
unfolding flatten chars_loop
flatten-chars_loop zero [] h = refl
flatten-chars_loop (suc n) [] h = refl
flatten-chars_loop zero (c ∷ s) h = elim h [ ]
flatten-chars_loop (suc n) (c ∷ s) h =
    ap (λ r. take (char_width c) (c ∷ s) ++ r)
      (flatten-chars_loop n (drop (char_width c) (c ∷ s))
        (omega (arith, length-drop (char_width c) (c ∷ s), char_width_pos c)))
    ∙ take-drop (char_width c) (c ∷ s)

-- The characters of any text put together are the text.
pub flatten-utf8_chars : (s : List ℕ) → flatten (utf8_chars s) ≡ s
unfolding utf8_chars
flatten-utf8_chars s = flatten-chars_loop (length s) s (omega arith)
