-- ===== src/Http/Requests.antt =====
-- parse_http of src/http_utils.h on a request that is written out as HTTP wants it.
use vllm_cpp.Prelude.{
  ℕ, zero, suc, ◌<◌, ◌≤◌, ◌==◌, false, List, [], ◌∷◌, ◌++◌, All, length, ℤ, pos, Option, some, ◌≡◌,
  refl, ap, ◌∙◌, append_assoc, length-append, arith,
}
use vllm_cpp.Prelude.Texts.{same, assign}
use vllm_cpp.Http.{
  cut, get_line, drop_blank, pop_return, add_header, ends_headers, read_headers, first_line,
  request_line, read_body, content_length, sized_body, body_of, parse_http, read_request, assemble,
}

-- A text without the byte `c`.
unfoldable pub Lacks : ℕ → List ℕ → Type 0
Lacks c [] = Unit
Lacks c (d ∷ s) = ((d == c) ≡ false) × Lacks c s

abbrev pub IsHeader : List ℕ × List ℕ → Type 0
IsHeader h = Lacks 58 h.0 × Lacks 10 h.0 × Lacks 10 h.1

unfoldable pub header_text : List (List ℕ × List ℕ) → List ℕ
header_text [] = []
header_text ((k, v) ∷ headers) = k ++ (58 ∷ 32 ∷ v ++ (13 ∷ 10 ∷ header_text headers))

unfoldable pub assign_all : List (List ℕ × List ℕ) → List (List ℕ × List ℕ) → List (List ℕ × List ℕ)
assign_all [] m = m
assign_all ((k, v) ∷ headers) m = assign_all headers (assign k v m)

cut-append : (c : ℕ) (s t : List ℕ) → Lacks c s → cut c (s ++ (c ∷ t)) ≡ some (s, t)
unfolding cut Lacks
cut-append c [] t h = ground arith
cut-append c (d ∷ s) t h = rw (h.0, cut) (rw (cut-append c s t h.1) refl)

Lacks-append : (c : ℕ) (s t : List ℕ) → Lacks c s → Lacks c t → Lacks c (s ++ t)
unfolding Lacks
Lacks-append c [] t h k = k
Lacks-append c (d ∷ s) t h k = (h.0, Lacks-append c s t h.1 k)

get_line-append :
    (line rest : List ℕ) → Lacks 10 line → get_line (line ++ (10 ∷ rest)) ≡ some (line, rest)
unfolding get_line
get_line-append [] rest h = rw (cut-append 10 [] rest h) refl
get_line-append (c ∷ line) rest h = rw (cut-append 10 (c ∷ line) rest h, get_line) refl

pop_return-append : (v : List ℕ) → pop_return (v ++ (13 ∷ [])) ≡ v
unfolding pop_return
pop_return-append [] = refl
pop_return-append (c ∷ []) = refl
pop_return-append (c ∷ d ∷ v) = ap (λ s. c ∷ s) (pop_return-append (d ∷ v))

add_header_lem :
    (k v : List ℕ) (m : List (List ℕ × List ℕ))
    → Lacks 58 k
    → add_header (k ++ (58 ∷ 32 ∷ v ++ (13 ∷ []))) m ≡ assign k v m
unfolding add_header
add_header_lem k v m h =
    rw (cut-append 58 k (32 ∷ v ++ (13 ∷ [])) h, add_header)
      (unfold drop_blank in rw (pop_return-append v) refl)

ends_headers-header : (k v : List ℕ) → ends_headers (k ++ (58 ∷ v)) ≡ false
unfolding ends_headers same
ends_headers-header [] v = refl
ends_headers-header (c ∷ []) v = ground arith
ends_headers-header (c ∷ d ∷ k) v = ground arith

-- A header in the stream, its line and what follows.
header_line :
    (k v rest : List ℕ)
    → IsHeader (k, v)
    → get_line (k ++ (58 ∷ 32 ∷ v ++ (13 ∷ 10 ∷ rest)))
      ≡ some (k ++ (58 ∷ 32 ∷ v ++ (13 ∷ [])), rest)
header_line k v rest h =
    let line = k ++ (58 ∷ 32 ∷ v ++ (13 ∷ [])) in
    let e : line ++ (10 ∷ rest) ≡ k ++ (58 ∷ 32 ∷ v ++ (13 ∷ 10 ∷ rest)) =
      append_assoc k (58 ∷ 32 ∷ v ++ (13 ∷ [])) (10 ∷ rest)
      ∙ ap (λ t. k ++ (58 ∷ 32 ∷ t)) (append_assoc v (13 ∷ []) (10 ∷ rest)) in
    let lacks : Lacks 10 line =
      Lacks-append 10 k (58 ∷ 32 ∷ v ++ (13 ∷ [])) h.1
        (unfold Lacks in (refl, (refl, Lacks-append 10 v (13 ∷ []) h.2 (refl, tt)))) in
    rw⁻¹ e (get_line-append line rest lacks)

read_headers-header_text :
    (n : ℕ) (headers m : List (List ℕ × List ℕ)) (rest : List ℕ)
    → All IsHeader headers
    → length headers < n
    → read_headers n (header_text headers ++ (13 ∷ 10 ∷ rest)) m ≡ (assign_all headers m, rest)
unfolding read_headers header_text assign_all
read_headers-header_text zero headers m rest h l = elim l [ ]
read_headers-header_text (suc n) [] m rest h l =
    unfold read_headers get_line cut ends_headers same in refl
read_headers-header_text (suc n) ((k, v) ∷ headers) m rest h l =
    let tail = header_text headers ++ (13 ∷ 10 ∷ rest) in
    let e : (k ++ (58 ∷ 32 ∷ v ++ (13 ∷ 10 ∷ header_text headers))) ++ (13 ∷ 10 ∷ rest)
        ≡ k ++ (58 ∷ 32 ∷ v ++ (13 ∷ 10 ∷ tail)) =
      append_assoc k _ (13 ∷ 10 ∷ rest)
      ∙ ap (λ t. k ++ (58 ∷ 32 ∷ t)) (append_assoc v _ (13 ∷ 10 ∷ rest)) in
    rw e (
      rw (header_line k v tail h.0, read_headers)
        (rw (ends_headers-header k (32 ∷ v ++ (13 ∷ []))) (
          rw (add_header_lem k v m h.0.0)
            (read_headers-header_text n headers (assign k v m) rest h.1 (omega arith)))))

read_body-append : (body rest : List ℕ) → read_body (length body) (body ++ rest) ≡ body
unfolding read_body
read_body-append [] rest = refl
read_body-append (c ∷ body) rest = ap (λ s. c ∷ s) (read_body-append body rest)

length-header_text :
    (headers : List (List ℕ × List ℕ)) → length headers ≤ length (header_text headers)
unfolding header_text
length-header_text [] = omega arith
length-header_text ((k, v) ∷ headers) = omega (
  arith,
  length-header_text headers,
  length-append k (58 ∷ 32 ∷ v ++ (13 ∷ 10 ∷ header_text headers)),
  length-append v (13 ∷ 10 ∷ header_text headers),
)

unfoldable request_line_text : List ℕ → List ℕ → List ℕ → List ℕ
request_line_text method path version = method ++ (32 ∷ path ++ (32 ∷ version))

request_line_lem :
    (method path version : List ℕ)
    → Lacks 32 method
    → Lacks 32 path
    → request_line (request_line_text method path version) ≡ (method, path)
unfolding request_line request_line_text
request_line_lem method path version h k =
    rw (cut-append 32 method (path ++ (32 ∷ version)) h, request_line)
      (rw (cut-append 32 path version k) refl)

Lacks-request_line :
    (method path version : List ℕ)
    → Lacks 10 method
    → Lacks 10 path
    → Lacks 10 version
    → Lacks 10 (request_line_text method path version)
unfolding request_line_text
Lacks-request_line method path version h k l =
    Lacks-append 10 method (32 ∷ path ++ (32 ∷ version)) h
      (unfold Lacks in (refl, Lacks-append 10 path (32 ∷ version) k (refl, l)))

unfoldable pub request_text : List ℕ → List ℕ → List ℕ → List (List ℕ × List ℕ) → List ℕ → List ℕ
unfolding request_line_text header_text
request_text method path version headers after =
    request_line_text method path version ++ (10 ∷ header_text headers ++ (13 ∷ 10 ∷ after))

first_line-request_text :
    (method path version : List ℕ) (headers : List (List ℕ × List ℕ)) (after : List ℕ)
    → Lacks 10 (request_line_text method path version)
    → first_line (request_text method path version headers after)
      ≡ (request_line_text method path version, header_text headers ++ (13 ∷ 10 ∷ after))
unfolding first_line request_text
first_line-request_text method path version headers after h =
    rw
      (
        get_line-append (request_line_text method path version)
            (header_text headers ++ (13 ∷ 10 ∷ after)) h,
        first_line,
      )
      refl

body_of-sized :
    (stoi : List ℕ → Option ℤ) (headers : List (List ℕ × List ℕ)) (v body rest : List ℕ)
    → content_length headers ≡ some v
    → stoi v ≡ some (pos (length body))
    → body_of stoi headers (body ++ rest) ≡ some body
unfolding body_of sized_body
body_of-sized stoi headers v body rest c s =
    rw (c, body_of) (rw (s, sized_body) (rw (read_body-append body rest) refl))

parse_http_steps :
    (stoi : List ℕ → Option ℤ) (raw line rest method path after body : List ℕ)
    (headers : List (List ℕ × List ℕ))
    → first_line raw ≡ (line, rest)
    → request_line line ≡ (method, path)
    → read_headers (length rest) rest [] ≡ (headers, after)
    → body_of stoi headers after ≡ some body
    → parse_http stoi raw
      ≡ some (record { method = method; path = path; body = body; headers = headers })
unfolding parse_http read_request
parse_http_steps stoi raw line rest method path after body headers f r h b =
    ap (read_request stoi) f
    ∙ ap (λ l. assemble stoi l (read_headers (length rest) rest [])) r
    ∙ ap (λ read. assemble stoi (method, path) read) h
    ∙ unfold assemble in rw (b, assemble) refl

-- A request whose line has the method, the path and a version between blanks, whose headers stand
-- on a line each, and whose Content-Length is the length of the body: parse_http gives the method,
-- the path, the headers as a map, and the body, whatever stands behind it.
pub parse_http-request_text :
    (stoi : List ℕ → Option ℤ) (method path version : List ℕ) (headers : List (List ℕ × List ℕ))
    (v body rest : List ℕ)
    → Lacks 32 method × Lacks 10 method
    → Lacks 32 path × Lacks 10 path
    → Lacks 10 version
    → All IsHeader headers
    → content_length (assign_all headers []) ≡ some v
    → stoi v ≡ some (pos (length body))
    → parse_http stoi (request_text method path version headers (body ++ rest))
      ≡ some (record { method = method; path = path; body = body; headers = assign_all headers [] })
parse_http-request_text stoi method path version headers v body rest hm hp hv hh c s =
    let tail = header_text headers ++ (13 ∷ 10 ∷ body ++ rest) in
    let enough : length headers < length tail = omega (
      arith,
      length-header_text headers,
      length-append (header_text headers) (13 ∷ 10 ∷ body ++ rest),
    ) in
    parse_http_steps stoi _ _ tail method path (body ++ rest) body (assign_all headers [])
      (first_line-request_text method path version headers (body ++ rest)
        (Lacks-request_line method path version hm.1 hp.1 hv))
      (request_line_lem method path version hm.0 hp.0)
      (read_headers-header_text (length tail) headers [] (body ++ rest) hh enough)
      (body_of-sized stoi (assign_all headers []) v body rest c s)
