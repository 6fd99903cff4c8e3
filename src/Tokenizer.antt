-- ===== src/Tokenizer.antt =====
-- The byte-level BPE tokenizer of src/model.cpp. Texts are lists of bytes, the maps between texts
-- and ids are lists of entries, and `std::to_string` is a parameter.
pub mod Chars
pub mod Merges
pub mod Merging
pub mod Pieces
pub mod Words
pub mod RoundTrip
use vllm_cpp.Prelude.{
  ℕ, zero, suc, ◌+◌, ◌-◌, ◌*◌, ◌/◌, ◌%◌, ◌==◌, ltb, leb, Bool, true, false, ◌&&◌, ◌||◌,
  if◌then◌else◌, List, [], ◌∷◌, ◌++◌, map, length, take, drop, is_empty, get_elem?, Option, none,
  some,
}
use mathlib.Core.List.{flatten}
use vllm_cpp.Prelude.Assoc.{find?}
use vllm_cpp.Prelude.Texts.{bytes, same, entry?, assign}

unfoldable pub is_printable : ℕ → Bool
is_printable b = (leb 33 b && leb b 126) || (leb 161 b && leb b 172) || (leb 174 b && leb b 255)

-- The bits that `|` joins do not overlap, so it is a sum.
unfoldable pub utf8_encode : ℕ → List ℕ
utf8_encode codepoint =
    if ltb codepoint 0x80
    then codepoint ∷ []
    else if ltb codepoint 0x800
    then (0xC0 + codepoint / 64) ∷ (0x80 + codepoint % 64) ∷ []
    else (0xE0 + codepoint / 4096) ∷ (0x80 + codepoint / 64 % 64) ∷ (0x80 + codepoint % 64) ∷ []

-- The rows from byte `b` on, after `n` bytes that are not printable.
unfoldable pub table_rows : ℕ → ℕ → ℕ → List (List ℕ)
unfolding is_printable utf8_encode
table_rows zero b n = []
table_rows (suc rounds) b n =
    let printable = is_printable b in
    utf8_encode (if printable then b else 256 + n)
    ∷ table_rows rounds (b + 1) (if printable then n else n + 1)

unfoldable pub build_byte_to_unicode : List (List ℕ)
unfolding table_rows
build_byte_to_unicode = table_rows 256 0 0

unfoldable pub byte_to_unicode : ℕ → List ℕ
unfolding build_byte_to_unicode
byte_to_unicode c = elim (get_elem? build_byte_to_unicode c) [ none ↦ [] | some row ↦ row ]

unfoldable pub to_unicode : List ℕ → List ℕ
unfolding byte_to_unicode flatten
to_unicode text = flatten (map byte_to_unicode text)

-- The bytes that a character takes, from its first one.
unfoldable pub char_width : ℕ → ℕ
char_width c = if ltb c 0x80 then 1 else if ltb c 0xE0 then 2 else if ltb c 0xF0 then 3 else 4

unfoldable pub chars_loop : ℕ → List ℕ → List (List ℕ)
unfolding char_width
chars_loop zero s = []
chars_loop (suc rounds) [] = []
chars_loop (suc rounds) (c ∷ s) =
    take (char_width c) (c ∷ s) ∷ chars_loop rounds (drop (char_width c) (c ∷ s))

-- Every round takes a byte at least, so as many rounds as bytes are enough.
unfoldable pub utf8_chars : List ℕ → List (List ℕ)
unfolding chars_loop
utf8_chars s = chars_loop (length s) s

-- Without the path, which nothing here reads.
pub record TokenizerConfig : Type 0 where
  pub vocab : List (List ℕ × ℕ)
  pub inv_vocab : List (ℕ × List ℕ)
  pub merges : List (List ℕ × List ℕ)
  pub unk_token_id : ℕ
  pub bos_token_id : ℕ
  pub eos_token_id : ℕ

-- The first merge from number `m` on that makes `pair`.
unfoldable pub merge_rank : List (List ℕ × List ℕ) → ℕ → List ℕ → Option ℕ
unfolding same
merge_rank [] m pair = none
merge_rank (merge ∷ merges) m pair =
    if same (merge.0 ++ merge.1) pair then some m else merge_rank merges (m + 1) pair

-- best_rank and best_pos, where `none` stands for -1.
pub record Best : Type 0 where
  pub best_rank : ℕ
  pub best_pos : Option ℕ

unfoldable pub consider : Option ℕ → ℕ → Best → Best
consider none i best = best
consider (some m) i best =
    if ltb m best.best_rank then record { best_rank = m; best_pos = some i } else best

unfoldable pub scan_pairs : List (List ℕ × List ℕ) → List (List ℕ) → ℕ → Best → Best
unfolding consider merge_rank
scan_pairs merges [] i best = best
scan_pairs merges (x ∷ []) i best = best
scan_pairs merges (x ∷ y ∷ tokens) i best =
    scan_pairs merges (y ∷ tokens) (i + 1) (consider (merge_rank merges 0 (x ++ y)) i best)

unfoldable pub best_merge : List (List ℕ × List ℕ) → List (List ℕ) → Option ℕ
unfolding scan_pairs
best_merge merges tokens =
    (scan_pairs merges tokens 0 (record { best_rank = 0x7FFFFFFF; best_pos = none })).best_pos

unfoldable pub merge_at : ℕ → List (List ℕ) → List (List ℕ)
merge_at zero (x ∷ y ∷ tokens) = (x ++ y) ∷ tokens
merge_at (suc i) (x ∷ tokens) = x ∷ merge_at i tokens
merge_at _ tokens = tokens

unfoldable pub apply_merges : ℕ → List (List ℕ × List ℕ) → List (List ℕ) → List (List ℕ)
unfolding best_merge merge_at
apply_merges zero merges tokens = tokens
apply_merges (suc rounds) merges tokens = elim (ltb 1 (length tokens)) [
  | false ↦ tokens
  | true ↦ elim (best_merge merges tokens) [
    | none ↦ tokens
    | some pos ↦ apply_merges rounds merges (merge_at pos tokens)
  ]
]

unfoldable pub bpe_encode : TokenizerConfig → List ℕ → List (List ℕ)
unfolding apply_merges utf8_chars
bpe_encode tok word = apply_merges 200 tok.merges (utf8_chars word)

-- The words so far and the one that is being read.
pub record Splitting : Type 0 where
  pub words : List (List ℕ)
  pub current : List ℕ

unfoldable pub close_word : Splitting → List (List ℕ)
close_word s = if is_empty s.current then s.words else s.words ++ (s.current ∷ [])

-- A space starts the next word, a newline is a word of its own.
unfoldable pub split_char : List ℕ → Splitting → Splitting
unfolding close_word byte_to_unicode same
split_char ch s =
    if same ch (byte_to_unicode 32)
    then record { words = close_word s; current = ch }
    else if same ch (byte_to_unicode 10)
    then record { words = close_word s ++ (ch ∷ []); current = [] }
    else record s { current = s.current ++ ch }

unfoldable pub split_loop : List (List ℕ) → Splitting → Splitting
unfolding split_char
split_loop [] s = s
split_loop (ch ∷ chs) s = split_loop chs (split_char ch s)

unfoldable pub split_words : List ℕ → List (List ℕ)
unfolding split_loop close_word utf8_chars
split_words unicode_text =
    close_word (split_loop (utf8_chars unicode_text) (record { words = []; current = [] }))

-- `iss >> word` for a text without a vocabulary: the runs between white space.
unfoldable pub is_space : ℕ → Bool
is_space c = (c == 32) || (leb 9 c && leb c 13)

unfoldable pub stream_words : List ℕ → Splitting → List (List ℕ)
unfolding is_space close_word
stream_words [] s = close_word s
stream_words (c ∷ text) s = stream_words text (
    if is_space c
    then record { words = close_word s; current = [] }
    else record s { current = s.current ++ (c ∷ []) })

unfoldable pub token_id : TokenizerConfig → List ℕ → ℕ
unfolding entry?
token_id tok piece = elim (entry? piece tok.vocab) [ none ↦ tok.unk_token_id | some id ↦ id ]

unfoldable pub subtokens : TokenizerConfig → List ℕ → List (List ℕ)
unfolding bpe_encode split_words to_unicode flatten
subtokens tok text = flatten (map (bpe_encode tok) (split_words (to_unicode text)))

unfoldable pub tokenize : TokenizerConfig → List ℕ → List ℕ
unfolding stream_words token_id subtokens
tokenize tok text =
    if is_empty tok.vocab
    then map (token_id tok) (stream_words text (record { words = []; current = [] }))
    else map (token_id tok) (subtokens tok text)

-- The map from characters back to bytes, filled in the order of the bytes.
unfoldable pub fill_bytes : ℕ → ℕ → List (List ℕ × ℕ) → List (List ℕ × ℕ)
unfolding byte_to_unicode assign
fill_bytes zero b filled = filled
fill_bytes (suc rounds) b filled = fill_bytes rounds (b + 1) (assign (byte_to_unicode b) b filled)

unfoldable pub unicode_to_byte : List (List ℕ × ℕ)
unfolding fill_bytes
unicode_to_byte = fill_bytes 256 0 []

-- A character of the table stands for its byte, any other for itself.
unfoldable pub decode_char : List ℕ → List ℕ
unfolding unicode_to_byte entry?
decode_char uni = elim (entry? uni unicode_to_byte) [ none ↦ uni | some b ↦ b ∷ [] ]

unfoldable pub decode_piece : List ℕ → List ℕ
unfolding decode_char utf8_chars flatten
decode_piece token = flatten (map decode_char (utf8_chars token))

module _ (to_string : ℕ → List ℕ) where
  unfoldable pub decode_id : TokenizerConfig → ℕ → List ℕ
  unfolding decode_piece find?
  decode_id tok id = elim (find? id tok.inv_vocab) [
    | none ↦ bytes "<" ++ (to_string id ++ bytes ">")
    | some token ↦ decode_piece token
  ]

  unfoldable pub decode_tokens : TokenizerConfig → List ℕ → List (List ℕ)
  unfolding decode_id
  decode_tokens tok ids = map (decode_id tok) ids

  unfoldable pub decode_token : TokenizerConfig → ℕ → List ℕ
  unfolding decode_tokens
  decode_token tok id = elim (decode_tokens tok (id ∷ [])) [ [] ↦ [] | text ∷ rest ↦ text ]
