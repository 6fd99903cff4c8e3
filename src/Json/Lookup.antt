-- ===== src/Json/Lookup.antt =====
-- json_get_string of src/json_utils.h on an object whose first field it looks for.
use vllm_cpp.Prelude.{
  ℕ, suc, ◌+◌, true, List, [], ◌∷◌, ◌++◌, length, drop, none, some, ◌≡◌, refl, ◌∙◌, arith,
}
use vllm_cpp.Json.{json_escape, read_quoted, quoted, starts_with, find_text, json_get_string}
use vllm_cpp.Json.Strings.{read_quoted-json_escape}

-- An object that begins with a string field. `sep` stands between the key and the value.
unfoldable pub object_text : List ℕ → List ℕ → List ℕ → List ℕ → List ℕ
unfolding quoted json_escape
object_text key sep v rest = 123 ∷ quoted key ++ (sep ++ (34 ∷ json_escape v ++ (34 ∷ rest)))

starts_with-append : (needle t : List ℕ) → starts_with needle (needle ++ t) ≡ true
unfolding starts_with
starts_with-append [] t = refl
starts_with-append (c ∷ needle) t = ground (arith, starts_with-append needle t)

find_key :
    (key t : List ℕ) → find_text (quoted key) (123 ∷ quoted key ++ t) ≡ some (quoted key ++ t)
unfolding quoted find_text
find_key key t = rw (starts_with-append (34 ∷ key ++ (34 ∷ [])) t) refl

drop_past : (q : List ℕ) (a b : ℕ) (t : List ℕ) → drop (length q + 2) (q ++ (a ∷ b ∷ t)) ≡ t
drop_past [] a b t = refl
drop_past (c ∷ q) a b t =
    let e : suc (length q) + 2 ≡ suc (length q + 2) = omega arith in rw e (drop_past q a b t)

find_quote :
    (w rest : List ℕ)
    → find_text (34 ∷ []) w ≡ none
    → find_text (34 ∷ []) (w ++ (34 ∷ rest)) ≡ some (34 ∷ rest)
unfolding find_text starts_with
find_quote [] rest h = refl
find_quote (c ∷ w) rest h = ground (arith, find_quote w rest)

-- The value's text, where the search for its quote begins.
get_after :
    (key : List ℕ) (a b : ℕ) (t : List ℕ)
    → json_get_string (123 ∷ quoted key ++ (a ∷ b ∷ t)) key
      ≡ elim (find_text (34 ∷ []) t) as (λ _. List ℕ) [
        | none ↦ []
        | some found ↦ elim found as (λ _. List ℕ) [ [] ↦ [] | c ∷ s ↦ read_quoted s ]
      ]
unfolding json_get_string
get_after key a b t =
    rw (find_key key (a ∷ b ∷ t), json_get_string) (rw (drop_past (quoted key) a b t) refl)

-- With a blank after the colon, json_get_string gives the value back. Without one, and where the
-- printed value has no quote, it gives the text from the closing quote on to the next quote.
pub json_get_string_lem :
    (key v rest : List ℕ)
    → find_text (34 ∷ []) (json_escape v) ≡ none
    → (json_get_string (object_text key (58 ∷ 32 ∷ []) v rest) key ≡ v)
      × (json_get_string (object_text key (58 ∷ []) v rest) key ≡ read_quoted rest)
unfolding object_text
json_get_string_lem key v rest h = (
  get_after key 58 32 _ ∙ unfold find_text starts_with in (read_quoted-json_escape v rest),
  get_after key 58 34 _ ∙ rw (find_quote (json_escape v) rest h) refl,
)
