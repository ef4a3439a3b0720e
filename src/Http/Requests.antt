-- ===== src/Http/Requests.antt =====
-- What a request that src/server/http_parser.cpp accepts is like.
use sovranx.Dict.{lookup}
use sovranx.Http.{
  HttpRequest, split_on, split_head, head_lines, path_of, check_target, second_word, first_word,
  request_line, headers_of, strtoull, read_body, with_body, after_line, parse_lines, after_head,
  parse_http_request,
}
use sovranx.Prelude.{
  ℕ, ◌≤◌, ◌≡◌, ◌≢◌, refl, subst, inl, inr, false, Bool-cases, List, [], ◌∷◌, Option, none, some,
  Option-cases, All, Bytes, codes, length, length-take, get_or, take, ltb, ◌==◌, arith,
}

-- The length that the headers announce; 0 without one.
abbrev pub announced : Option Bytes → ℕ
announced none = 0
announced (some text) = strtoull text

-- A method, a path that starts with a slash and has no query, and a body as long as announced.
pub record IsAccepted (r : HttpRequest) : Type 0 where
  pub some_method : r.method ≢ []
  pub slash : get_or r.target 0 0 ≡ b'/'
  pub no_query : All (λ c. (c == b'?') ≡ false) r.target
  pub sized : length r.body ≡ announced (lookup (codes "content-length") r.headers)

-- A parse that fails or gives such a request.
abbrev Accepted : Option HttpRequest → Type 0
Accepted none = Unit
Accepted (some r) = IsAccepted r

path_of-no_query : (s : Bytes) → All (λ c. (c == b'?') ≡ false) (path_of s)
unfolding path_of
path_of-no_query [] = tt
path_of-no_query (c ∷ s) = elim (Bool-cases (c == b'?')) [
  | inl query ↦ rw query tt
  | inr path ↦ rw path (path, path_of-no_query s)
]

abbrev Line : Option (Bytes × Bytes) → Type 0
Line none = Unit
Line (some (method, target)) =
    (method ≢ []) × (get_or target 0 0 ≡ b'/') × All (λ c. (c == b'?') ≡ false) target

check_target-Line : (method target : Bytes) → Line (check_target method target)
unfolding check_target path_of
check_target-Line [] target = tt
check_target-Line (m ∷ method) [] = tt
check_target-Line (m ∷ method) (c ∷ target) = elim (Bool-cases (c == b'/')) [
  | inl slash ↦
      let no_mark : (c == b'?') ≡ false = ground arith in
      let is_slash : c ≡ b'/' = ground arith in
      let first : get_or (path_of (c ∷ target)) 0 0 ≡ b'/' = rw no_mark is_slash in
      rw slash (cons-ne-nil, first, path_of-no_query (c ∷ target))
  | inr other ↦ rw other tt
]
  where
    cons-ne-nil : (m ∷ method) ≢ []
    cons-ne-nil h = ground arith

request_line-Line : (line : Bytes) → Line (request_line line)
unfolding request_line first_word second_word
request_line-Line line = first (split_on 32 line)
  where
    second : (method : Bytes) (o : Option (Bytes × Bytes)) → Line (second_word method o)
    second method none = tt
    second method (some (target, version)) = check_target-Line method target

    first : (o : Option (Bytes × Bytes)) → Line (first_word o)
    first none = tt
    first (some (method, rest)) = second method (split_on 32 rest)

read_body-length :
    (o : Option Bytes) (rest body : Bytes)
    → read_body o rest ≡ some body
    → length body ≡ announced o
unfolding read_body
read_body-length none rest body h =
    let e : [] ≡ body = ground arith in subst (λ b. length b ≡ 0) e refl
read_body-length (some text) rest body h = elim (Bool-cases (ltb (length rest) (strtoull text))) [
  | inl short ↦ absurd (let e = rw short at h in ground arith)
  | inr enough ↦
      let e : some (take (strtoull text) rest) ≡ some body = rw enough at h in
      let e' : take (strtoull text) rest ≡ body = cc in
      let bound : strtoull text ≤ length rest = ground arith in
      subst (λ b. length b ≡ strtoull text) e' (omega (arith, length-take (strtoull text) rest))
]

after_line-Accepted :
    (o : Option (Bytes × Bytes)) (header_lines : List Bytes) (rest : Bytes)
    → Line o
    → Accepted (after_line o header_lines rest)
unfolding after_line with_body
after_line-Accepted none header_lines rest h = tt
after_line-Accepted (some (method, target)) header_lines rest (named, slash, plain) =
    let headers = headers_of header_lines [] in
    let o = lookup (codes "content-length") headers in
    elim (Option-cases (read_body o rest)) [
      | inl missing ↦ rw (missing, with_body) tt
      | inr (body, found) ↦
          rw (found, with_body)
            (record {
              some_method = named;
              slash = slash;
              no_query = plain;
              sized = read_body-length o rest body found;
            })
    ]

parse-Accepted : (message : Bytes) → Accepted (parse_http_request message)
unfolding parse_http_request after_head parse_lines
parse-Accepted message = head (split_head message)
  where
    first_line : (ls : List Bytes) (rest : Bytes) → Accepted (parse_lines ls rest)
    first_line [] rest = tt
    first_line (l ∷ ls) rest = after_line-Accepted (request_line l) ls rest (request_line-Line l)

    head : (o : Option (Bytes × Bytes)) → Accepted (after_head o)
    head none = tt
    head (some (h, rest)) = first_line (head_lines h) rest

-- A request that is accepted has a method, a target that starts with a slash and holds no query, and a
-- body of exactly as many bytes as its Content-Length announces, or none without that header.
pub parse_http_request-IsAccepted :
    (message : Bytes) (r : HttpRequest) → parse_http_request message ≡ some r → IsAccepted r
parse_http_request-IsAccepted message r h = rw h at (parse-Accepted message)
