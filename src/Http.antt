-- ===== src/Http.antt =====
-- Requests and responses of the HTTP server, src/server/http_parser.cpp. Header names are kept in lower
-- case, since the source's map compares them without regard to case.
pub mod Requests
use sovranx.Decimal.{to_string, is_digit, value}
use sovranx.Dict.{lookup, insert}
use sovranx.Prelude.{
  ℕ, zero, suc, ◌+◌, ◌-◌, ◌*◌, ◌^◌, ◌%◌, min, Bool, true, false, ◌&&◌, ◌||◌, List, [], ◌∷◌, ◌++◌,
  map, Option, none, some, Bytes, codes, length, take, leb, ltb, ◌==◌, ◌===◌, if◌then◌else◌,
}

pub record HttpRequest : Type 0 where
  pub method : Bytes
  pub target : Bytes
  pub headers : List (Bytes × Bytes)
  pub body : Bytes

-- find_first_not_of and find_last_not_of of " \t".
abbrev is_space : ℕ → Bool
is_space c = c == 32 || c == 9

unfoldable pub drop_space : Bytes → Bytes
drop_space [] = []
drop_space (c ∷ s) = if is_space c then drop_space s else c ∷ s

unfoldable pub cons_unless_space : ℕ → Bytes → Bytes
cons_unless_space c [] = if is_space c then [] else c ∷ []
cons_unless_space c (d ∷ s) = c ∷ d ∷ s

unfoldable pub drop_space_end : Bytes → Bytes
drop_space_end [] = []
drop_space_end (c ∷ s) = cons_unless_space c (drop_space_end s)

unfoldable pub trim : Bytes → Bytes
trim s = drop_space_end (drop_space s)

abbrev lower_char : ℕ → ℕ
lower_char c = if leb b'A' c && leb c b'Z' then c + 32 else c

unfoldable pub lower : Bytes → Bytes
lower s = map lower_char s

-- What stands before and behind the first byte `sep`.
unfoldable pub put_front : ℕ → Option (Bytes × Bytes) → Option (Bytes × Bytes)
put_front c none = none
put_front c (some (a, b)) = some (c ∷ a, b)

unfoldable pub split_on : ℕ → Bytes → Option (Bytes × Bytes)
split_on sep [] = none
split_on sep (c ∷ s) = if c == sep then some ([], s) else put_front c (split_on sep s)

-- The head of the message and what follows the first blank line.
unfoldable pub split_head : Bytes → Option (Bytes × Bytes)
split_head (a ∷ b ∷ c ∷ d ∷ s) =
    if (a == 13 && b == 10) && (c == 13 && d == 10)
    then some ([], s)
    else put_front a (split_head (b ∷ c ∷ d ∷ s))
split_head s = none

-- The lines of the head, without their CRLF.
unfoldable pub put_char : ℕ → List Bytes → List Bytes
put_char c [] = (c ∷ []) ∷ []
put_char c (l ∷ ls) = (c ∷ l) ∷ ls

unfoldable pub head_lines : Bytes → List Bytes
head_lines [] = [] ∷ []
head_lines (c ∷ []) = (c ∷ []) ∷ []
head_lines (c ∷ d ∷ s) =
    if c == 13 && d == 10 then [] ∷ head_lines s else put_char c (head_lines (d ∷ s))

-- The path: the target up to its query.
unfoldable pub path_of : Bytes → Bytes
path_of [] = []
path_of (c ∷ s) = if c == b'?' then [] else c ∷ path_of s

-- METHOD SP TARGET SP VERSION, with a target that is a path.
unfoldable pub check_target : Bytes → Bytes → Option (Bytes × Bytes)
check_target [] target = none
check_target (m ∷ method) [] = none
check_target (m ∷ method) (c ∷ target) =
    if c == b'/' then some (m ∷ method, path_of (c ∷ target)) else none

unfoldable pub second_word : Bytes → Option (Bytes × Bytes) → Option (Bytes × Bytes)
second_word method none = none
second_word method (some (target, version)) = check_target method target

unfoldable pub first_word : Option (Bytes × Bytes) → Option (Bytes × Bytes)
first_word none = none
first_word (some (method, rest)) = second_word method (split_on 32 rest)

unfoldable pub request_line : Bytes → Option (Bytes × Bytes)
request_line line = first_word (split_on 32 line)

-- A header line; a line without a colon is passed over.
unfoldable pub add_header : Option (Bytes × Bytes) → List (Bytes × Bytes) → List (Bytes × Bytes)
add_header none headers = headers
add_header (some (name, text)) headers = insert (lower (trim name)) (trim text) headers

unfoldable pub headers_of : List Bytes → List (Bytes × Bytes) → List (Bytes × Bytes)
headers_of [] headers = headers
headers_of (line ∷ rest) headers = headers_of rest (add_header (split_on b':' line) headers)

-- std::strtoull in base ten: white space, a sign, digits; ULLONG_MAX if they are too large.
unfoldable pub skip_white : Bytes → Bytes
skip_white [] = []
skip_white (c ∷ s) = if c == 32 || leb 9 c && leb c 13 then skip_white s else c ∷ s

unfoldable pub number_prefix : Bytes → Bytes
number_prefix [] = []
number_prefix (c ∷ s) = if is_digit c then c ∷ number_prefix s else []

abbrev capped : Bytes → ℕ
capped digits = min (value 0 digits) (2 ^ 64 - 1)

-- A minus sign negates modulo 2 ^ 64, unless the digits are too large.
abbrev negated : Bytes → ℕ
negated digits =
    if ltb (2 ^ 64 - 1) (value 0 digits) then 2 ^ 64 - 1 else (2 ^ 64 - value 0 digits) % 2 ^ 64

unfoldable pub signed_number : Bytes → ℕ
signed_number [] = 0
signed_number (c ∷ s) =
    if c == b'-'
    then negated (number_prefix s)
    else if c == b'+'
    then capped (number_prefix s)
    else capped (number_prefix (c ∷ s))

unfoldable pub strtoull : Bytes → ℕ
strtoull s = signed_number (skip_white s)

-- The body: as many bytes as Content-Length says, none without it.
unfoldable pub read_body : Option Bytes → Bytes → Option Bytes
read_body none rest = some []
read_body (some text) rest =
    if ltb (length rest) (strtoull text) then none else some (take (strtoull text) rest)

unfoldable pub with_body : Bytes → Bytes → List (Bytes × Bytes) → Option Bytes → Option HttpRequest
with_body method target headers none = none
with_body method target headers (some body) =
    some (record { method = method; target = target; headers = headers; body = body })

unfoldable pub after_line : Option (Bytes × Bytes) → List Bytes → Bytes → Option HttpRequest
after_line none header_lines rest = none
after_line (some (method, target)) header_lines rest =
    let headers = headers_of header_lines [] in
    with_body method target headers (read_body (lookup (codes "content-length") headers) rest)

unfoldable pub parse_lines : List Bytes → Bytes → Option HttpRequest
parse_lines [] rest = none
parse_lines (line ∷ header_lines) rest = after_line (request_line line) header_lines rest

unfoldable pub after_head : Option (Bytes × Bytes) → Option HttpRequest
after_head none = none
after_head (some (head, rest)) = parse_lines (head_lines head) rest

unfoldable pub parse_http_request : Bytes → Option HttpRequest
parse_http_request message = after_head (split_head message)

pub record HttpResponse : Type 0 where
  pub status : ℕ
  pub headers : List (Bytes × Bytes)
  pub body : Bytes

unfoldable pub status_reason : ℕ → Bytes
status_reason status =
    if status == 200
    then codes "OK"
    else if status == 204
    then codes "No Content"
    else if status == 400
    then codes "Bad Request"
    else if status == 401
    then codes "Unauthorized"
    else if status == 404
    then codes "Not Found"
    else if status == 405
    then codes "Method Not Allowed"
    else if status == 413
    then codes "Payload Too Large"
    else if status == 429
    then codes "Too Many Requests"
    else if status == 500
    then codes "Internal Server Error"
    else if status == 503
    then codes "Service Unavailable"
    else codes "Unknown"

abbrev crlf : Bytes
crlf = 13 ∷ 10 ∷ []

unfoldable pub header_block : List (Bytes × Bytes) → Bytes
header_block [] = []
header_block ((name, text) ∷ headers) =
    name ++ (codes ": " ++ (text ++ (crlf ++ header_block headers)))

-- The names of a response's headers, compared without regard to case.
unfoldable pub has_header : Bytes → List (Bytes × Bytes) → Bool
has_header name [] = false
has_header name ((other, text) ∷ headers) = lower other === lower name || has_header name headers

unfoldable pub content_length : HttpResponse → Bytes
content_length r =
    if has_header (codes "Content-Length") r.headers
    then []
    else codes "Content-Length: " ++ (to_string (length r.body) ++ crlf)

unfoldable pub serialize_http_response : HttpResponse → Bytes
serialize_http_response r =
    codes "HTTP/1.1 "
    ++ (to_string r.status
        ++ (32
            ∷ (status_reason r.status
                ++ (crlf ++ (header_block r.headers ++ (content_length r ++ (crlf ++ r.body)))))))
