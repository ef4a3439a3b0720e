-- ===== src/Arca/Resp.antt =====
-- The RESP2 layer, src/arca/resp.cpp and include/reame/arca/resp.hpp: the incremental request
-- parser and the reply serializers. An offset into `buf_` is the suffix of the buffer from there on.
pub mod Stable
pub mod Feed
pub mod RoundTrip
pub mod Sequence
use sovranx.Decimal.{to_string, is_digit, all_digits, value}
use sovranx.Prelude.{
  ℕ, zero, suc, ◌+◌, ◌-◌, ◌*◌, ◌^◌, Bool, true, false, ◌&&◌, List, [], ◌∷◌, ◌++◌, Option, none,
  some, Bytes, codes, length, take, drop, ltb, leb, ◌==◌, if◌then◌else◌,
}

-- constexpr long kMaxElements, kMaxBulkBytes, and LONG_MAX of the 64-bit target.
abbrev pub max_elements : ℕ
max_elements = 1024

abbrev pub max_bulk_bytes : ℕ
max_bulk_bytes = 64 * 1024 * 1024

abbrev pub long_max : ℕ
long_max = 2 ^ 63 - 1

-- What a call of the parser can throw: RespError with its message, or std::out_of_range.
pub data Exception : Type 0 where
  resp_error : Bytes → Exception
  out_of_range : Exception

-- A `long`: `minus n` is -(n + 1).
pub data Long : Type 0 where
  plus : ℕ → Long
  minus : ℕ → Long

-- std::to_string of a long.
abbrev pub long_to_string : Long → Bytes
long_to_string (plus n) = to_string n
long_to_string (minus n) = b'-' ∷ to_string (suc n)

-- A parse is complete and leaves a rest, needs more bytes, or throws.
pub data Parse {ℓ} (A : Type ℓ) : Type ℓ where
  done : A → Bytes → Parse A
  more : Parse A
  threw : Exception → Parse A

infixl 5 ◌>>=◌
abbrev pub ◌>>=◌ {ℓ κ} : {A : Type ℓ} {B : Type κ} → Parse A → (A → Bytes → Parse B) → Parse B
done a s >>= f = f a s
more >>= f = more
threw e >>= f = threw e

abbrev pub crlf : Bytes
crlf = 13 ∷ 10 ∷ []

starts_with_lf : Bytes → Bool
starts_with_lf [] = false
starts_with_lf (c ∷ s) = c == 10

abbrev tail : Bytes → Bytes
tail [] = []
tail (c ∷ s) = s

abbrev put_front : ℕ → Option (Bytes × Bytes) → Option (Bytes × Bytes)
put_front c none = none
put_front c (some (l, r)) = some (c ∷ l, r)

-- buf.find("\r\n", pos) together with the text before and the position after the mark.
pub split_crlf : Bytes → Option (Bytes × Bytes)
unfolding starts_with_lf
split_crlf [] = none
split_crlf (c ∷ s) =
    if c == 13 && starts_with_lf s then some ([], tail s) else put_front c (split_crlf s)

-- std::stol on digits that may have a sign in front.
stol_nonneg : ℕ → Bytes → Parse Long
stol_nonneg v rest = if leb v long_max then done (plus v) rest else threw out_of_range

stol_neg : ℕ → Bytes → Parse Long
stol_neg zero rest = done (plus 0) rest
stol_neg (suc v) rest =
    if leb (suc v) (long_max + 1) then done (minus v) rest else threw out_of_range

-- The checks on the digits, after the optional sign.
pub number_of : Bytes → Bytes → Parse Long
unfolding stol_nonneg stol_neg
number_of [] rest = threw (resp_error (codes "empty length in RESP input"))
number_of (c ∷ s) rest =
    if c == b'-'
    then elim s [
      | [] ↦ threw (resp_error (codes "bare minus in RESP length"))
      | d ∷ ds ↦
          if all_digits (d ∷ ds)
          then stol_neg (value 0 (d ∷ ds)) rest
          else threw (resp_error (codes "non-numeric RESP length: " ++ (c ∷ d ∷ ds)))
    ]
    else if all_digits (c ∷ s)
    then stol_nonneg (value 0 (c ∷ s)) rest
    else threw (resp_error (codes "non-numeric RESP length: " ++ (c ∷ s)))

pub parse_number_line : Bytes → Parse Long
unfolding number_of
parse_number_line s = elim (split_crlf s) [ none ↦ more | some (l, r) ↦ number_of l r ]

-- The guard on the length of an array or of a bulk: `n < 0 || n > limit`.
in_range : ℕ → Bytes → Long → Bytes → Parse ℕ
in_range limit what (minus n) s = threw (resp_error (what ++ long_to_string (minus n)))
in_range limit what (plus n) s =
    if ltb limit n then threw (resp_error (what ++ long_to_string (plus n))) else done n s

-- A length and its guard.
parse_length : ℕ → Bytes → Bytes → Parse ℕ
parse_length limit what s = parse_number_line s >>= in_range limit what

-- buf_.compare(pos, 2, "\r\n") behind the payload `part`.
close_bulk : Bytes → Bytes → Parse Bytes
close_bulk part (c ∷ d ∷ rest) =
    if c == 13 && d == 10
    then done part rest
    else threw (resp_error (codes "bulk payload not terminated by CRLF"))
close_bulk part (c ∷ []) = more
close_bulk part [] = more

-- The payload of `len` bytes with its CRLF.
bulk_payload : ℕ → Bytes → Parse Bytes
bulk_payload len s = if ltb (length s) (len + 2) then more else close_bulk (take len s) (drop len s)

pub parse_bulk : Bytes → Parse Bytes
parse_bulk [] = more
parse_bulk (c ∷ s) =
    if c == b'$'
    then parse_length max_bulk_bytes (codes "unreasonable RESP bulk length: ") s >>= bulk_payload
    else threw (resp_error (codes "expected bulk string marker '$'"))

-- The loop over the `n` bulks of a multibulk command.
pub parse_bulks : ℕ → Bytes → Parse (List Bytes)
parse_bulks zero s = done [] s
parse_bulks (suc n) s =
    parse_bulk s >>= λ part s'. parse_bulks n s' >>= λ parts s''. done (part ∷ parts) s''

-- The words of an inline command: split on spaces, empty words dropped. `word` is the word so far.
push_word : Bytes → List Bytes → List Bytes
push_word [] out = out
push_word (c ∷ w) out = (c ∷ w) ∷ out

pub words : Bytes → Bytes → List Bytes
unfolding push_word
words word [] = push_word word []
words word (c ∷ s) = if c == b' ' then push_word word (words [] s) else words (word ++ (c ∷ [])) s

parse_inline : Bytes → Parse (List Bytes)
parse_inline s = elim (split_crlf s) [ none ↦ more | some (l, r) ↦ done (words [] l) r ]

-- RespParser::parse_one.
pub parse_one : Bytes → Parse (List Bytes)
unfolding parse_inline
parse_one [] = more
parse_one (c ∷ s) =
    if c == b'*'
    then parse_length max_elements (codes "unreasonable RESP array size: ") s >>= parse_bulks
    else parse_inline (c ∷ s)

pub record RespParser : Type 0 where
  pub buf : Bytes
  pub ready : List (List Bytes)

-- How a run of feed() ends: normally, or by an exception that leaves the parser.
pub data Fed : Type 0 where
  fed : RespParser → Fed
  failed : Exception → RespParser → Fed
  stuck : Fed

pub push_command : List Bytes → List (List Bytes) → List (List Bytes)
push_command [] ready = ready
push_command (w ∷ ws) ready = ready ++ ((w ∷ ws) ∷ [])

-- `while (parse_one(offset, cmd))` of feed(): `s` is the buffer from `offset` on, `buf` the whole of
-- it, which is cut only when the loop has ended. A round takes two bytes at least.
pub feed_loop : ℕ → Bytes → Bytes → List (List Bytes) → Fed
unfolding push_command
feed_loop zero buf s ready = stuck
feed_loop (suc fuel) buf s ready = elim (parse_one s) [
  | done cmd rest ↦ feed_loop fuel buf rest (push_command cmd ready)
  | more ↦ fed (record { buf = s; ready = ready })
  | threw e ↦ failed e (record { buf = buf; ready = ready })
]

pub feed : RespParser → Bytes → Fed
feed p bytes = let buf = p.buf ++ bytes in feed_loop (suc (length buf)) buf buf p.ready

unfoldable pub take_ready : RespParser → List (List Bytes) × RespParser
take_ready p = (p.ready, record p { ready = [] })

-- The reply serializers.
unfoldable pub resp_simple : Bytes → Bytes
resp_simple s = b'+' ∷ (s ++ crlf)

unfoldable pub resp_error_reply : Bytes → Bytes
resp_error_reply s = b'-' ∷ (s ++ crlf)

unfoldable pub resp_integer : Long → Bytes
resp_integer v = b':' ∷ (long_to_string v ++ crlf)

unfoldable pub resp_bulk : Bytes → Bytes
resp_bulk s = b'$' ∷ (to_string (length s) ++ (crlf ++ (s ++ crlf)))

unfoldable pub resp_nil : Bytes
resp_nil = b'$' ∷ b'-' ∷ b'1' ∷ crlf
