-- ===== src/Arca/Resp/RoundTrip.antt =====
-- A command as clients send it is read back, whole and only when whole; and which lengths make the
-- parser throw something other than RespError.
use sovranx.Arca.Resp.{
  Parse, done, more, threw, out_of_range, long_max, max_elements, max_bulk_bytes, crlf, split_crlf,
  number_of, stol_nonneg, parse_number_line, in_range, parse_length, close_bulk, bulk_payload,
  parse_bulk, parse_bulks, parse_one, fed, push_command, feed, resp_bulk,
}
use sovranx.Arca.Resp.Stable.{extend, split_crlf_step, parse_number_line-some, parse_one-Agrees}
use sovranx.Arca.Resp.Feed.{feed_loop_done, feed_loop_more}
use sovranx.Decimal.{to_string, all_digits, value}
use sovranx.Decimal.RoundTrip.{value-to_string, all_digits-to_string, to_string-ne-nil}
use sovranx.Prelude.{
  ℕ, ◌≤◌, ◌<◌, ◌≡◌, refl, sym, ap, ◌∙◌, ◌≢◌, inl, inr, true, List, [], ◌∷◌, ◌++◌, append-nil,
  append_assoc, Bytes, some, length, length-append, All, take-length-append, drop-length-append,
  arith,
}

-- Digits hold no CRLF.
pub split_crlf-digits :
    (d rest : Bytes) → all_digits d ≡ true → split_crlf (d ++ (crlf ++ rest)) ≡ some (d, rest)
unfolding all_digits
split_crlf-digits [] rest h = split_crlf_step 13 10 rest
split_crlf-digits (c ∷ []) rest h =
    ground (arith, split_crlf_step c 13 (10 ∷ rest), split_crlf_step 13 10 rest)
split_crlf-digits (c ∷ d ∷ ds) rest h =
    ground (arith, split_crlf_step c d (ds ++ (crlf ++ rest)), split_crlf-digits (d ∷ ds) rest)

number_of-digits :
    (d rest : Bytes)
    → all_digits d ≡ true
    → d ≢ []
    → number_of d rest ≡ stol_nonneg (value 0 d) rest
unfolding number_of
number_of-digits [] rest h k = absurd (k refl)
number_of-digits (c ∷ []) rest h k = unfold all_digits in ground arith
number_of-digits (c ∷ d ∷ ds) rest h k = unfold all_digits in ground arith

parse_number_line-digits :
    (d rest : Bytes)
    → all_digits d ≡ true
    → d ≢ []
    → parse_number_line (d ++ (crlf ++ rest)) ≡ stol_nonneg (value 0 d) rest
parse_number_line-digits d rest h k =
    parse_number_line-some _ d rest (split_crlf-digits d rest h) ∙ number_of-digits d rest h k

parse_length-to_string :
    (limit : ℕ) (what : Bytes) (n : ℕ) (rest : Bytes)
    → n ≤ limit
    → limit ≤ long_max
    → parse_length limit what (to_string n ++ (crlf ++ rest)) ≡ done n rest
unfolding parse_length in_range stol_nonneg
parse_length-to_string limit what n rest h k =
    rw
      (
        parse_number_line-digits (to_string n) rest (all_digits-to_string n) (to_string-ne-nil n),
        value-to_string n,
      )
      (ground arith)

bulk_payload-crlf : (s rest : Bytes) → bulk_payload (length s) (s ++ (crlf ++ rest)) ≡ done s rest
unfolding bulk_payload close_bulk
bulk_payload-crlf s rest =
    rw (take-length-append s (crlf ++ rest), drop-length-append s (crlf ++ rest))
      (ground (arith, length-append s (crlf ++ rest)))

-- A bulk as `resp_bulk` writes it, within the 64 MB that the parser takes.
pub parse_bulk-resp_bulk :
    (s rest : Bytes) → length s ≤ max_bulk_bytes → parse_bulk (resp_bulk s ++ rest) ≡ done s rest
unfolding parse_bulk resp_bulk
parse_bulk-resp_bulk s rest h =
    rw
      (
        append_assoc (to_string (length s)) (crlf ++ (s ++ crlf)) rest,
        append_assoc s crlf rest,
        parse_length-to_string max_bulk_bytes _ (length s) (s ++ (crlf ++ rest)) h (omega arith),
      )
      (bulk_payload-crlf s rest)

abbrev bulks : List Bytes → Bytes
bulks [] = []
bulks (s ∷ ss) = resp_bulk s ++ bulks ss

parse_bulks-bulks :
    (args : List Bytes) (rest : Bytes)
    → All (λ s. length s ≤ max_bulk_bytes) args
    → parse_bulks (length args) (bulks args ++ rest) ≡ done args rest
unfolding parse_bulks
parse_bulks-bulks [] rest h = refl
parse_bulks-bulks (s ∷ ss) rest (hs, hss) = rw (
  append_assoc (resp_bulk s) (bulks ss) rest,
  parse_bulk-resp_bulk s (bulks ss ++ rest) hs,
  parse_bulks-bulks ss rest hss,
)

-- A multibulk request: `*N`, then each argument as a bulk.
abbrev pub encode : List Bytes → Bytes
encode args = b'*' ∷ (to_string (length args) ++ (crlf ++ bulks args))

-- Requests within the parser's two limits.
pub record IsRequest (args : List Bytes) : Type 0 where
  pub count : length args ≤ max_elements
  pub sizes : All (λ s. length s ≤ max_bulk_bytes) args

-- A request within the limits is parsed to its arguments, byte for byte, and the bytes behind it are left
-- as they are.
pub parse_one-encode :
    (args : List Bytes) (rest : Bytes)
    → IsRequest args
    → parse_one (encode args ++ rest) ≡ done args rest
unfolding parse_one
parse_one-encode args rest h =
    rw
      (
        append_assoc (to_string (length args)) (crlf ++ bulks args) rest,
        parse_length-to_string max_elements _ (length args) (bulks args ++ rest) h.count
            (omega arith),
      )
      (parse_bulks-bulks args rest h.sizes)

long_ne_nil : (d : Bytes) → long_max < value 0 d → d ≢ []
unfolding value
long_ne_nil [] big e = absurd (omega arith)
long_ne_nil (c ∷ d) big e = cc

waits :
    (x : Parse (List Bytes)) (args : List Bytes) (b : ℕ) (back : Bytes)
    → extend (b ∷ back) x ≡ done args []
    → x ≡ more
waits more args b back e = refl
waits (threw y) args b back e = cc
waits (done a r) args b back e =
    let rest : r ++ (b ∷ back) ≡ [] = cc in
    absurd (omega (arith, ap length rest, length-append r (b ∷ back)))

-- The front of a request that lacks its last bytes is neither taken for a command nor refused: the
-- parser waits. The request keeps the parser's limits.
pub parse_one_truncated :
    (args : List Bytes) (front back : Bytes) (b : ℕ)
    → IsRequest args
    → encode args ≡ front ++ (b ∷ back)
    → parse_one front ≡ more
parse_one_truncated args front back b h e = elim (parse_one-Agrees front (b ∷ back)) [
  | inl w ↦ w
  | inr k ↦ waits (parse_one front) args b back (sym k ∙ whole)
]
  where
    whole : parse_one (front ++ (b ∷ back)) ≡ done args []
    whole = rw (append-nil, e) at (parse_one-encode args [] h)

-- A request of one word at least within the limits, fed to a parser with nothing unread, becomes ready
-- as exactly that command, behind those that were ready before, and nothing stays unread.
pub feed-encode :
    (ready : List (List Bytes)) (first : Bytes) (args : List Bytes)
    → IsRequest (first ∷ args)
    → feed (record { buf = []; ready = ready }) (encode (first ∷ args))
      ≡ fed (record { buf = []; ready = ready ++ ((first ∷ args) ∷ []) })
unfolding feed push_command
feed-encode ready first args h =
    let cmd = first ∷ args in
    feed_loop_done _ (encode cmd) (encode cmd) ready cmd []
      (rw append-nil at (parse_one-encode cmd [] h))
    ∙ feed_loop_more _ (encode cmd) [] (ready ++ (cmd ∷ [])) (unfold parse_one in refl)

-- A length in decimal digits that no `long` holds makes the parse throw std::out_of_range, which is
-- not the RespError that the header announces for malformed input.
pub parse_one_out_of_range :
    (d rest : Bytes)
    → all_digits d ≡ true
    → long_max < value 0 d
    → parse_one (b'*' ∷ (d ++ (crlf ++ rest))) ≡ threw out_of_range
unfolding parse_one parse_length stol_nonneg
parse_one_out_of_range d rest h big =
    rw (parse_number_line-digits d rest h (long_ne_nil d big)) (ground arith)
