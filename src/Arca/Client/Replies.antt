-- ===== src/Arca/Client/Replies.antt =====
-- What the client of src/arca/client.cpp makes of the daemon's replies, however the socket cuts them, and
-- that its requests are commands.
use sovranx.Arca.Archive.{skip_space, leading_digits}
use sovranx.Arca.Client.{
  get_request, set_request, answer, has_crlf, fill_until_crlf, fill_until, stol_magnitude, positive,
  stol_signed, stol, payload, read_bulk, read_line, line_of, read_reply,
}
use sovranx.Arca.Resp.{plus, long_max, crlf, split_crlf, resp_bulk}
use sovranx.Arca.Resp.RoundTrip.{encode, split_crlf-digits}
use sovranx.Arca.Resp.Stable.{split_crlf-append, split_crlf_step}
use sovranx.Decimal.{to_string, is_digit, all_digits, value}
use sovranx.Decimal.RoundTrip.{value-to_string, all_digits-to_string, to_string-ne-nil}
use sovranx.Prelude.{
  ℕ, ◌+◌, ◌≤◌, ◌<◌, ◌≡◌, ◌≢◌, refl, sym, ap, ap₂, ◌∙◌, subst, inl, inr, true, false, Bool-cases,
  ◌&&◌, ◌||◌, List, [], ◌∷◌, ◌++◌, append-nil, append_assoc, some, Option-cases, Bytes, codes, All,
  concat, length, length-append, take, take-length-append, drop, drop-length-append, ltb, leb, ◌==◌,
  arith,
}

-- No slice is empty: every read succeeds.
abbrev pub Arrives : List Bytes → Type 0
Arrives slices = All (λ slice. 0 < length slice) slices

-- Enough slices fill the buffer up to a line's end, and nothing is lost.
fill_until_crlf_lem :
    (buf : Bytes) (slices : List Bytes)
    → Arrives slices
    → has_crlf (split_crlf (buf ++ concat slices)) ≡ true
    → (more : Bytes) × (rest : List Bytes) × (fill_until_crlf buf slices ≡ some (more, rest))
      × (more ++ concat rest ≡ buf ++ concat slices)
      × (has_crlf (split_crlf more) ≡ true)
      × Arrives rest
unfolding fill_until_crlf
fill_until_crlf_lem buf [] h e =
    let here : has_crlf (split_crlf buf) ≡ true =
      subst (λ xs. has_crlf (split_crlf xs) ≡ true) (append-nil buf) e in
    (buf, [], rw here refl, refl, here, tt)
fill_until_crlf_lem buf (slice ∷ slices) (some_bytes, h) e =
    elim (Bool-cases (has_crlf (split_crlf buf))) [
      | inl here ↦ (buf, slice ∷ slices, rw here refl, refl, here, (some_bytes, h))
      | inr missing ↦
          let not_empty : (length slice == 0) ≡ false = ground arith in
          let joined = append_assoc buf slice (concat slices) in
          let (more, rest, filled, same, mark, k) =
            fill_until_crlf_lem (buf ++ slice) slices h
              (subst (λ xs. has_crlf (split_crlf xs) ≡ true) (sym joined) e) in
          (more, rest, rw (missing, not_empty) filled, same ∙ joined, mark, k)
    ]

-- Enough slices fill the buffer up to a size, and nothing is lost.
fill_until_lem :
    (need : ℕ) (buf : Bytes) (slices : List Bytes)
    → Arrives slices
    → need ≤ length (buf ++ concat slices)
    → (more : Bytes) × (rest : Bytes) × (fill_until need buf slices ≡ some more)
      × (more ++ rest ≡ buf ++ concat slices)
      × (need ≤ length more)
unfolding fill_until
fill_until_lem need buf [] h l =
    let same : length (buf ++ []) ≡ length buf = ap length (append-nil buf) in
    let enough : ltb (length buf) need ≡ false = ground arith in
    (buf, [], rw enough refl, refl, omega (arith, l, same))
fill_until_lem need buf (slice ∷ slices) (some_bytes, h) l =
    elim (Bool-cases (ltb (length buf) need)) [
      | inr enough ↦ (buf, slice ++ concat slices, rw enough refl, refl, ground arith)
      | inl short ↦
          let not_empty : (length slice == 0) ≡ false = ground arith in
          let joined = append_assoc buf slice (concat slices) in
          let size : length ((buf ++ slice) ++ concat slices)
              ≡ length (buf ++ (slice ++ concat slices)) =
            ap length joined in
          let (more, rest, filled, same, k) =
            fill_until_lem need (buf ++ slice) slices h (omega (arith, size, l)) in
          (more, rest, rw (short, not_empty) filled, same ∙ joined, k)
    ]

leading_digits_all : (ds : Bytes) → all_digits ds ≡ true → leading_digits ds ≡ ds
unfolding leading_digits all_digits
leading_digits_all [] h = refl
leading_digits_all (d ∷ ds) h =
    let digit : is_digit d ≡ true = ground arith in
    let rest : all_digits ds ≡ true = ground arith in
    rw digit (ap (◌∷◌ d) (leading_digits_all ds rest))

stol-digits :
    (ds : Bytes)
    → all_digits ds ≡ true
    → ds ≢ []
    → value 0 ds ≤ long_max
    → stol ds ≡ some (plus (value 0 ds))
unfolding stol stol_signed skip_space positive stol_magnitude all_digits
stol-digits [] h some_digit l = absurd (some_digit refl)
stol-digits (d ∷ ds) h some_digit l =
    let blank : (d == 32 || leb 9 d && leb d 13) ≡ false = ground arith in
    let no_minus : (d == b'-') ≡ false = ground arith in
    let no_plus : (d == b'+') ≡ false = ground arith in
    let fits : ltb long_max (value 0 (d ∷ ds)) ≡ false = ground arith in
    rw (blank, stol_signed, no_minus, no_plus, leading_digits_all (d ∷ ds) h, stol_magnitude, fits)
      refl

split_crlf-line :
    (ds rest : Bytes)
    → all_digits ds ≡ true
    → ds ≢ []
    → split_crlf (b'$' ∷ (ds ++ (crlf ++ rest))) ≡ some (b'$' ∷ ds, rest)
split_crlf-line [] rest h some_digit = absurd (some_digit refl)
split_crlf-line (d ∷ ds) rest h some_digit =
    rw (split_crlf_step b'$' d (ds ++ (crlf ++ rest)), split_crlf-digits (d ∷ ds) rest h) refl

-- The payload stands behind the line and its end.
payload-resp_bulk :
    (v : Bytes)
    → take (length v) (drop (length (b'$' ∷ to_string (length v)) + 2) (resp_bulk v)) ≡ v
unfolding resp_bulk
payload-resp_bulk v =
    let front = (b'$' ∷ to_string (length v)) ++ crlf in
    let size = length-append (b'$' ∷ to_string (length v)) crlf in
    let eol : length (b'$' ∷ to_string (length v)) + 2 ≡ length front = omega (arith, size) in
    let whole : resp_bulk v ≡ front ++ (v ++ crlf) =
      sym (append_assoc (b'$' ∷ to_string (length v)) crlf (v ++ crlf)) in
    ap₂ (λ n xs. take (length v) (drop n xs)) eol whole
    ∙ ap (take (length v)) (drop-length-append front (v ++ crlf))
    ∙ take-length-append v crlf

empty : (xs : Bytes) → length xs ≡ 0 → xs ≡ []
empty [] h = refl
empty (x ∷ xs) h = absurd (omega (arith, h))

-- The client reads the payload of a bulk reply, byte for byte, however the reply is cut into slices that
-- arrive. The payload's length is a long.
pub read_reply-resp_bulk :
    (v : Bytes) (slices : List Bytes)
    → length v ≤ long_max
    → Arrives slices
    → concat slices ≡ resp_bulk v
    → read_reply slices ≡ answer (some v)
unfolding read_reply read_line read_bulk payload has_crlf line_of resp_bulk
read_reply-resp_bulk v slices small arrives e =
    let ds = to_string (length v) in
    let digits = all_digits-to_string (length v) in
    let some_digit = to_string-ne-nil (length v) in
    let whole = split_crlf-line ds (v ++ crlf) digits some_digit in
    let mark : has_crlf (split_crlf (concat slices)) ≡ true =
      ap (λ xs. has_crlf (split_crlf xs)) e ∙ ap has_crlf whole in
    let (more, rest, filled, same, here, k) = fill_until_crlf_lem [] slices arrives mark in
    let number : stol ds ≡ some (plus (length v)) =
      let spelled = value-to_string (length v) in
      stol-digits ds digits some_digit (omega (arith, spelled, small))
      ∙ ap (λ n. some (plus n)) spelled in
    let line : line_of (split_crlf more) ≡ b'$' ∷ ds = elim (Option-cases (split_crlf more)) [
      | inl missing ↦ absurd (let x = rw missing at here in ground arith)
      | inr ((l, r), found) ↦
          let longer = split_crlf-append more (concat rest) l r found in
          let both : some (l, r ++ concat rest) ≡ some (b'$' ∷ ds, v ++ crlf) =
            sym longer ∙ ap split_crlf (same ∙ e) ∙ whole in
          ap line_of found ∙ ap line_of both
    ] in
    let need = length (b'$' ∷ ds) + 2 + length v + 2 in
    let size : length (resp_bulk v) ≡ need =
      let a = length-append ds (crlf ++ (v ++ crlf)) in
      let b = length-append v crlf in omega (arith, a, b) in
    let total : length (more ++ concat rest) ≡ length (resp_bulk v) = ap length (same ∙ e) in
    let (all, left, filled', same', k') =
      fill_until_lem need more rest k (omega (arith, total, size)) in
    let nothing : left ≡ [] =
      let joined : length (all ++ left) ≡ length (resp_bulk v) = ap length (same' ∙ same ∙ e) in
      let sum = length-append all left in empty left (omega (arith, joined, sum, size, k')) in
    let complete : all ≡ resp_bulk v =
      sym (append-nil all) ∙ ap (λ xs. all ++ xs) (sym nothing) ∙ same' ∙ same ∙ e in
    rw (read_reply, filled, line, number, filled')
      (ap (λ xs. answer (some (take (length v) (drop (length (b'$' ∷ ds) + 2) xs)))) complete
        ∙ ap (λ xs. answer (some xs)) (payload-resp_bulk v))

pub get_request-encode : (key : Bytes) → get_request key ≡ encode (codes "GET" ∷ key ∷ [])
unfolding get_request resp_bulk to_string
get_request-encode key =
    ap (λ xs. codes "*2" ++ (crlf ++ (codes "$3" ++ (crlf ++ (codes "GET" ++ (crlf ++ xs))))))
      (sym (append-nil (resp_bulk key)))

pub set_request-encode :
    (key value_in : Bytes) → set_request key value_in ≡ encode (codes "SET" ∷ key ∷ value_in ∷ [])
unfolding set_request resp_bulk to_string
set_request-encode key value_in =
    ap
      (λ xs.
        codes "*3"
        ++ (crlf ++ (codes "$3" ++ (crlf ++ (codes "SET" ++ (crlf ++ (resp_bulk key ++ xs)))))))
      (sym (append-nil (resp_bulk value_in)))
