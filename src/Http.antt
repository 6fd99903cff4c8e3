-- ===== src/Http.antt =====
-- src/http_utils.h over lists of bytes. The stream is the text that is left to read, and std::stoi
-- and the printing of numbers are parameters.
pub mod Requests
use vllm_cpp.Prelude.{
  ℕ, zero, suc, ◌==◌, is_empty, Bool, true, false, ◌||◌, if◌then◌else◌, List, [], ◌∷◌, ◌++◌, length,
  ℤ, pos, negsuc, Option, none, some,
}
use vllm_cpp.Prelude.Texts.{bytes, same, entry?, assign}

pub record HttpRequest : Type 0 where
  pub method : List ℕ
  pub path : List ℕ
  pub body : List ℕ
  pub headers : List (List ℕ × List ℕ)

-- The text before the first byte `c`, and the text after it.
unfoldable pub cut : ℕ → List ℕ → Option (List ℕ × List ℕ)
cut c [] = none
cut c (d ∷ s) =
    if d == c
    then some ([], s)
    else elim (cut c s) [ none ↦ none | some (before, after) ↦ some (d ∷ before, after) ]

-- std::getline, which fails at the end of the stream.
unfoldable pub get_line : List ℕ → Option (List ℕ × List ℕ)
unfolding cut
get_line [] = none
get_line (c ∷ s) = elim (cut 10 (c ∷ s)) [ none ↦ some (c ∷ s, []) | some r ↦ some r ]

unfoldable pub drop_blank : List ℕ → List ℕ
drop_blank [] = []
drop_blank (c ∷ v) = if c == 32 then v else c ∷ v

unfoldable pub pop_return : List ℕ → List ℕ
pop_return [] = []
pop_return (c ∷ []) = if c == 13 then [] else c ∷ []
pop_return (c ∷ d ∷ v) = c ∷ pop_return (d ∷ v)

unfoldable pub add_header : List ℕ → List (List ℕ × List ℕ) → List (List ℕ × List ℕ)
unfolding cut drop_blank pop_return
add_header line headers = elim (cut 58 line) [
  | none ↦ headers
  | some (k, v) ↦ assign k (pop_return (drop_blank v)) headers
]

unfoldable pub ends_headers : List ℕ → Bool
ends_headers line = same line (13 ∷ []) || is_empty line

-- The headers, and what the stream still has. A line takes a byte at least, so as many rounds as
-- bytes are enough.
unfoldable pub read_headers : ℕ → List ℕ → List (List ℕ × List ℕ) → List (List ℕ × List ℕ) × List ℕ
unfolding get_line ends_headers add_header
read_headers zero s headers = (headers, s)
read_headers (suc rounds) s headers = elim (get_line s) [
  | none ↦ (headers, s)
  | some (line, rest) ↦ elim (ends_headers line) [
    | true ↦ (headers, rest)
    | false ↦ read_headers rounds rest (add_header line headers)
  ]
]

-- The first line, and the rest of the stream; an empty stream has an empty one.
unfoldable pub first_line : List ℕ → List ℕ × List ℕ
unfolding get_line
first_line raw = elim (get_line raw) [ none ↦ ([], []) | some r ↦ r ]

-- The method and the path. Without a blank the search for the second one starts at 0 and fails too.
unfoldable pub request_line : List ℕ → List ℕ × List ℕ
unfolding cut
request_line first = elim (cut 32 first) [
  | none ↦ ([], [])
  | some (method, after) ↦ elim (cut 32 after) [
    | none ↦ (method, [])
    | some (path, version) ↦ (method, path)
  ]
]

-- `resize` fills the body with zeros, `read` overwrites what the stream has.
unfoldable pub read_body : ℕ → List ℕ → List ℕ
read_body zero s = []
read_body (suc len) [] = 0 ∷ read_body len []
read_body (suc len) (c ∷ s) = c ∷ read_body len s

unfoldable pub content_length : List (List ℕ × List ℕ) → Option (List ℕ)
content_length headers = elim (entry? (bytes "Content-Length") headers) [
  | some v ↦ some v
  | none ↦ entry? (bytes "content-length") headers
]

-- `none` is an exception: of std::stoi, or of `resize` with a negative length.
module _ (stoi : List ℕ → Option ℤ) where
  unfoldable pub sized_body : List ℕ → List ℕ → Option (List ℕ)
  unfolding read_body
  sized_body v rest = elim (stoi v) [
    | none ↦ none
    | some (negsuc n) ↦ none
    | some (pos len) ↦ some (read_body len rest)
  ]

  unfoldable pub body_of : List (List ℕ × List ℕ) → List ℕ → Option (List ℕ)
  unfolding content_length sized_body
  body_of headers rest = elim (content_length headers) [
    | none ↦ some []
    | some v ↦ sized_body v rest
  ]

  unfoldable pub assemble : List ℕ × List ℕ → List (List ℕ × List ℕ) × List ℕ → Option HttpRequest
  unfolding body_of
  assemble (method, path) (headers, rest) = elim (body_of headers rest) [
    | none ↦ none
    | some body ↦ some (record { method = method; path = path; body = body; headers = headers })
  ]

  unfoldable pub read_request : List ℕ × List ℕ → Option HttpRequest
  unfolding request_line read_headers assemble
  read_request (first, rest) = assemble (request_line first) (read_headers (length rest) rest [])

  unfoldable pub parse_http : List ℕ → Option HttpRequest
  unfolding first_line read_request
  parse_http raw = read_request (first_line raw)

unfoldable pub reason : ℤ → List ℕ
reason (negsuc n) = bytes "Not Found"
reason (pos code) =
    if code == 200
    then bytes "OK"
    else if code == 400
    then bytes "Bad Request"
    else bytes "Not Found"

module _ (show : ℤ → List ℕ) where
  unfoldable pub http_resp : ℤ → List ℕ → List ℕ → List ℕ
  unfolding reason
  http_resp code body ct =
      bytes "HTTP/1.1 "
      ++ show code
      ++ bytes " "
      ++ reason code
      ++ bytes "\r\n"
      ++ (bytes "Content-Type: "
          ++ ct
          ++ bytes "\r\nContent-Length: "
          ++ show (pos (length body))
          ++ bytes "\r\nConnection: keep-alive\r\nAccess-Control-Allow-Origin: *\r\n\r\n"
          ++ body)

unfoldable pub sse : List ℕ → List ℕ
sse json = bytes "data: " ++ json ++ bytes "\n\n"
