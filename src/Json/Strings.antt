-- ===== src/Json/Strings.antt =====
-- What src/json_utils.h escapes is read back by both readers of strings.
use vllm_cpp.Prelude.{
  ℕ, ℤ, is_empty, ==→eq, zero, suc, ◌<◌, ◌≤◌, ◌==◌, false, List, [], ◌∷◌, ◌++◌, length, some,
  Bool-cases, ◌≡◌, refl, sym, ap, ◌∙◌, ◌⊎◌, inl, inr, append-nil, append_assoc, length-append,
  arith,
}
use vllm_cpp.Json.{
  escape_byte, json_escape, unescape_byte, read_quoted, string_loop, parse_escape, first_byte,
  parse_json_string, json_string, json_render,
}

-- A byte is printed as itself, or as a backslash and a byte that stands for it.
escape_cases :
    (c : ℕ)
    → ((escape_byte c ≡ c ∷ []) × ((c == 34) ≡ false) × ((c == 92) ≡ false))
      ⊎ ((d : ℕ) × (escape_byte c ≡ 92 ∷ d ∷ []) × ((d == b'u') ≡ false) × (unescape_byte d ≡ c))
unfolding escape_byte unescape_byte
escape_cases c = elim (Bool-cases (c == 34)) [
  | inl e ↦ inr (34, rw (e, escape_byte) refl, refl, sym (==→eq _ _ e))
  | inr e ↦ elim (Bool-cases (c == 92)) [
    | inl f ↦ inr (92, rw (e, f, escape_byte) refl, refl, sym (==→eq _ _ f))
    | inr f ↦ elim (Bool-cases (c == 10)) [
      | inl g ↦ inr (b'n', rw (e, f, g, escape_byte) refl, refl, sym (==→eq _ _ g))
      | inr g ↦ elim (Bool-cases (c == 13)) [
        | inl h ↦ inr (b'r', rw (e, f, g, h, escape_byte) refl, refl, sym (==→eq _ _ h))
        | inr h ↦ elim (Bool-cases (c == 9)) [
          | inl k ↦ inr (b't', rw (e, f, g, h, k, escape_byte) refl, refl, sym (==→eq _ _ k))
          | inr k ↦ inl (rw (e, f, g, h, k, escape_byte) refl, e, f)
        ]
      ]
    ]
  ]
]

read_quoted-plain :
    (c : ℕ) (t : List ℕ)
    → (c == 34) ≡ false
    → (c == 92) ≡ false
    → is_empty t ≡ false
    → read_quoted (c ∷ t) ≡ c ∷ read_quoted t
unfolding read_quoted
read_quoted-plain c [] e f h = absurd (cc)
read_quoted-plain c (d ∷ t) e f h = rw (e, f, read_quoted) refl

read_quoted-escape_byte :
    (c : ℕ) (t : List ℕ) → is_empty t ≡ false → read_quoted (escape_byte c ++ t) ≡ c ∷ read_quoted t
unfolding read_quoted
read_quoted-escape_byte c t h = elim (escape_cases c) [
  | inl (e, q, b) ↦ rw e (read_quoted-plain c t q b h)
  | inr (d, e, u, back) ↦ rw e (ap (λ x. x ∷ read_quoted t) back)
]

closed_nonempty : (s rest : List ℕ) → is_empty (json_escape s ++ (34 ∷ rest)) ≡ false
unfolding json_escape
closed_nonempty [] rest = refl
closed_nonempty (c ∷ s) rest = elim (escape_cases c) [
  | inl (e, q, b) ↦ rw e refl
  | inr (d, e, u, back) ↦ rw e refl
]

-- json_get_string reads an escaped text back, whatever follows its closing quote.
pub read_quoted-json_escape : (s rest : List ℕ) → read_quoted (json_escape s ++ (34 ∷ rest)) ≡ s
unfolding json_escape
read_quoted-json_escape [] [] = unfold read_quoted in refl
read_quoted-json_escape [] (d ∷ rest) = unfold read_quoted in refl
read_quoted-json_escape (c ∷ s) rest =
    rw (append_assoc (escape_byte c) (json_escape s) (34 ∷ rest)) (
      read_quoted-escape_byte c _ (closed_nonempty s rest)
      ∙ ap (λ r. c ∷ r) (read_quoted-json_escape s rest))

string_loop-escape_byte :
    (n c : ℕ) (t out : List ℕ)
    → string_loop (suc n) (escape_byte c ++ t) out ≡ string_loop n t (out ++ (c ∷ []))
unfolding parse_escape string_loop
string_loop-escape_byte n c t out = elim (escape_cases c) [
  | inl (e, q, b) ↦ rw e (rw (q, b, string_loop) refl)
  | inr (d, e, u, back) ↦ rw e (
      unfold string_loop first_byte in
      rw (u, parse_escape) (ap (λ x. string_loop n t (out ++ (x ∷ []))) back))
]

string_loop-json_escape :
    (n : ℕ) (s rest out : List ℕ)
    → length s < n
    → string_loop n (json_escape s ++ (34 ∷ rest)) out ≡ (out ++ s, rest)
unfolding json_escape
string_loop-json_escape zero s rest out h = elim h [ ]
string_loop-json_escape (suc n) [] rest out h = unfold string_loop in rw (append-nil out) refl
string_loop-json_escape (suc n) (c ∷ s) rest out h =
    rw (append_assoc (escape_byte c) (json_escape s) (34 ∷ rest)) (
      string_loop-escape_byte n c _ out
      ∙ string_loop-json_escape n s rest (out ++ (c ∷ [])) (omega arith)
      ∙ rw (append_assoc out (c ∷ []) s) refl)

length-json_escape : (s : List ℕ) → length s ≤ length (json_escape s)
unfolding json_escape
length-json_escape [] = omega arith
length-json_escape (c ∷ s) = elim (escape_cases c) [
  | inl (e, q, b) ↦ rw e (omega (arith, length-json_escape s))
  | inr (d, e, u, back) ↦ rw e (omega (arith, length-json_escape s))
]

-- parse_json_string reads a rendered string back, with the text behind it as the rest.
pub parse_json_string-json_render :
    {Number : Type 0} (show_int : ℤ → List ℕ) (show_float : Number → List ℕ) (s rest : List ℕ)
    → parse_json_string (json_render show_int show_float (json_string s) ++ rest) ≡ some (s, rest)
unfolding parse_json_string json_render
parse_json_string-json_render show_int show_float s rest =
    rw (append_assoc (json_escape s) (34 ∷ []) rest) (
      ap some (
        string_loop-json_escape (length (json_escape s ++ (34 ∷ rest))) s rest []
          (omega (arith, length-append (json_escape s) (34 ∷ rest), length-json_escape s))))
