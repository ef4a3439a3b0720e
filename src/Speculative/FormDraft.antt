-- ===== src/Speculative/FormDraft.antt =====
-- Drafts from the form of a list, src/speculative/form_draft.cpp.
use sovranx.Decimal.{to_string, is_digit, all_digits, value}
use sovranx.Decimal.RoundTrip.{value-to_string, all_digits-to_string, to_string-ne-nil}
use sovranx.Prelude.{
  ℕ, ◌+◌, ◌-◌, ◌≤◌, ◌<◌, ◌≡◌, ◌≢◌, refl, sym, ap, ◌∙◌, ◌⊎◌, inl, inr, true, false, ◌&&◌, ◌||◌,
  Bool-cases, [], ◌∷◌, ◌++◌, append-nil, append_assoc, All, All-append, Bytes, length,
  length-append, take, take-length-append, drop, drop-length-append, get_or, get_or-last, ltb, ◌==◌,
  if◌then◌else◌, arith,
}

-- The text behind the last '\n', where `cur` is the line so far.
unfoldable pub last_line : Bytes → Bytes → Bytes
last_line cur [] = cur
last_line cur (c ∷ s) = if c == 10 then last_line [] s else last_line (cur ++ (c ∷ [])) s

unfoldable pub last_completed_line : Bytes → Bytes
last_completed_line tail =
    if get_or tail (length tail - 1) 0 == 10 then last_line [] (take (length tail - 1) tail) else []

unfoldable pub digits_of : Bytes → Bytes
digits_of [] = []
digits_of (c ∷ s) = if is_digit c then c ∷ digits_of s else []

-- What stands behind the digits: the separator and a space, or nothing of use.
unfoldable pub separator : Bytes → ℕ
separator (sep ∷ space ∷ s) = if (sep == b'.' || sep == b')') && space == 32 then sep else 0
separator s = 0

-- parse_numbered_item: the number and the separator, or 0 and the default.
unfoldable pub parse_numbered_item : Bytes → ℕ × ℕ
parse_numbered_item line =
    let digits = digits_of line in
    let sep = separator (drop (length digits) line) in
    if length digits == 0 || ltb 9 (length digits)
    then (0, b'.')
    else if sep == 0
    then (0, b'.')
    else (value 0 digits, sep)

unfoldable pub bullet : Bytes → Bytes
bullet (marker ∷ space ∷ s) =
    if (marker == b'-' || marker == b'*') && space == 32 then marker ∷ 32 ∷ [] else []
bullet s = []

unfoldable pub propose_for : Bytes → Bytes
propose_for [] = []
propose_for (c ∷ s) =
    let (n, sep) = parse_numbered_item (c ∷ s) in
    if ltb 0 n then to_string (n + 1) ++ (sep ∷ 32 ∷ []) else bullet (c ∷ s)

-- FormDraft::propose.
unfoldable pub propose : Bytes → Bytes
propose tail = propose_for (last_completed_line tail)

abbrev pub NoNewline : Bytes → Type 0
NoNewline s = All (λ c. (c == 10) ≡ false) s

last_line_lem : (cur s : Bytes) → NoNewline s → last_line cur s ≡ cur ++ s
unfolding last_line
last_line_lem cur [] h = sym (append-nil cur)
last_line_lem cur (c ∷ s) (p, h) =
    rw p (last_line_lem (cur ++ (c ∷ [])) s h ∙ append_assoc cur (c ∷ []) s)

last_line-newline : (cur before s : Bytes) → NoNewline s → last_line cur (before ++ (10 ∷ s)) ≡ s
unfolding last_line
last_line-newline cur [] s h = last_line_lem [] s h
last_line-newline cur (c ∷ before) s h = elim (Bool-cases (c == 10)) [
  | inl newline ↦ rw newline (last_line-newline [] before s h)
  | inr other ↦ rw other (last_line-newline (cur ++ (c ∷ [])) before s h)
]

-- What a line may stand behind: nothing, or a text that ends with a newline.
abbrev pub EndsLine : Bytes → Type 0
EndsLine before = (before ≡ []) ⊎ ((text : Bytes) × (before ≡ text ++ (10 ∷ [])))

last_line-EndsLine :
    (before line : Bytes) → EndsLine before → NoNewline line → last_line [] (before ++ line) ≡ line
last_line-EndsLine before line (inl e) h =
    ap (λ xs. last_line [] (xs ++ line)) e ∙ last_line_lem [] line h
last_line-EndsLine before line (inr (text, e)) h =
    ap (λ xs. last_line [] (xs ++ line)) e
    ∙ ap (last_line []) (append_assoc text (10 ∷ []) line)
    ∙ last_line-newline [] text line h

last_completed_line_lem :
    (before line : Bytes)
    → EndsLine before
    → NoNewline line
    → last_completed_line ((before ++ line) ++ (10 ∷ [])) ≡ line
unfolding last_completed_line
last_completed_line_lem before line opens h =
    let text = before ++ line in
    let size : length (text ++ (10 ∷ [])) - 1 ≡ length text =
      omega (arith, length-append text (10 ∷ [])) in
    rw (size, get_or-last text 10 0, take-length-append text (10 ∷ []))
      (last_line-EndsLine before line opens h)

digits_of-append :
    (d : Bytes) (sep : ℕ) (s : Bytes)
    → all_digits d ≡ true
    → is_digit sep ≡ false
    → digits_of (d ++ (sep ∷ s)) ≡ d
unfolding digits_of all_digits
digits_of-append [] sep s h k = rw k
digits_of-append (c ∷ d) sep s h k = elim (Bool-cases (is_digit c)) [
  | inl digit ↦ rw digit (ap (◌∷◌ c) (digits_of-append d sep s (rw digit at h) k))
  | inr other ↦ absurd (let e = rw other at h in ground arith)
]

all_digits-NoNewline : (d : Bytes) → all_digits d ≡ true → NoNewline d
unfolding all_digits
all_digits-NoNewline [] h = tt
all_digits-NoNewline (c ∷ d) h = (ground arith, all_digits-NoNewline d (ground arith))

-- A separator that a list item has.
abbrev pub IsSeparator : ℕ → Type 0
IsSeparator sep = (sep ≡ b'.') ⊎ (sep ≡ b')')

separator_lem : (sep : ℕ) (s : Bytes) → IsSeparator sep → separator (sep ∷ 32 ∷ s) ≡ sep
unfolding separator
separator_lem sep s (inl e) = ground arith
separator_lem sep s (inr e) = ground arith

parse_numbered_item_lem :
    (n sep : ℕ) (s : Bytes)
    → length (to_string n) ≤ 9
    → IsSeparator sep
    → parse_numbered_item (to_string n ++ (sep ∷ 32 ∷ s)) ≡ (n, sep)
unfolding parse_numbered_item
parse_numbered_item_lem n sep s short is_sep =
    let not_digit : is_digit sep ≡ false = elim is_sep [
      | inl e ↦ ground arith
      | inr e ↦ ground arith
    ] in
    let digits = digits_of-append (to_string n) sep (32 ∷ s) (all_digits-to_string n) not_digit in
    let some_digits : (length (to_string n) == 0) ≡ false =
      nonempty (to_string n) (to_string-ne-nil n) in
    let few : ltb 9 (length (to_string n)) ≡ false = ground arith in
    let not_zero : (sep == 0) ≡ false = elim is_sep [
      | inl e ↦ ground arith
      | inr e ↦ ground arith
    ] in
    rw (
      digits,
      drop-length-append (to_string n) (sep ∷ 32 ∷ s),
      separator_lem sep s is_sep,
      some_digits,
      few,
      not_zero,
      value-to_string n,
    )
  where
    nonempty : (d : Bytes) → d ≢ [] → (length d == 0) ≡ false
    nonempty [] h = absurd (h refl)
    nonempty (c ∷ d) h = ground arith

propose_for_lem :
    (line : Bytes) (n sep : ℕ)
    → line ≢ []
    → 0 < n
    → parse_numbered_item line ≡ (n, sep)
    → propose_for line ≡ to_string (n + 1) ++ (sep ∷ 32 ∷ [])
unfolding propose_for
propose_for_lem [] n sep some_text pos item = absurd (some_text refl)
propose_for_lem (c ∷ s) n sep some_text pos item =
    let above : ltb 0 n ≡ true = ground arith in rw (item, above)

append-ne-nil : (d s : Bytes) → d ≢ [] → (d ++ s) ≢ []
append-ne-nil [] s h e = h refl
append-ne-nil (c ∷ d) s h e = ground arith

-- Behind a completed list item with number n, which opens the text or a line of it, the draft opens the
-- item with number n + 1 and the same separator. The number is positive and has nine digits at most, and
-- the item is one line.
pub propose-next_item :
    (before item : Bytes) (n sep : ℕ)
    → 0 < n
    → length (to_string n) ≤ 9
    → IsSeparator sep
    → NoNewline item
    → EndsLine before
    → propose ((before ++ (to_string n ++ (sep ∷ 32 ∷ item))) ++ (10 ∷ []))
      ≡ to_string (n + 1) ++ (sep ∷ 32 ∷ [])
unfolding propose
propose-next_item before item n sep pos short is_sep one_line opens =
    let line = to_string n ++ (sep ∷ 32 ∷ item) in
    let sep_line : (sep == 10) ≡ false = elim is_sep [
      | inl e ↦ ground arith
      | inr e ↦ ground arith
    ] in
    let no_newline : NoNewline line =
      All-append (λ c. (c == 10) ≡ false) (to_string n) (sep ∷ 32 ∷ item)
        (all_digits-NoNewline (to_string n) (all_digits-to_string n))
        (sep_line, (refl, one_line)) in
    rw (last_completed_line_lem before line opens no_newline) (
      propose_for_lem line n sep
        (append-ne-nil (to_string n) (sep ∷ 32 ∷ item) (to_string-ne-nil n)) pos
        (parse_numbered_item_lem n sep item short is_sep))
