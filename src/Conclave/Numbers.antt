-- ===== src/Conclave/Numbers.antt =====
-- What final_number of src/core/conclave.cpp finds.
use sovranx.Conclave.{Place, outside, inside, start_number, scan_byte, scan, final_number}
use sovranx.Decimal.{is_digit, all_digits, to_string}
use sovranx.Decimal.RoundTrip.{all_digits-to_string, to_string-ne-nil}
use sovranx.Prelude.{
  ℕ, ◌≡◌, ◌≢◌, refl, ◌∙◌, sym, Bool, true, false, [], ◌∷◌, ◌++◌, append-nil, append_assoc, Option,
  none, some, Bytes, arith,
}

-- Digits to the end of the text belong to the number that they stand in.
scan-digits :
    (cur : Bytes) (dot : Bool) (before : Option ℕ) (ds last : Bytes)
    → all_digits ds ≡ true
    → scan (inside cur dot) before ds last ≡ cur ++ ds
unfolding scan scan_byte all_digits
scan-digits cur dot before [] last h = sym (append-nil cur)
scan-digits cur dot before (d ∷ ds) last h =
    let digit : is_digit d ≡ true = ground arith in
    let rest : all_digits ds ≡ true = ground arith in
    rw digit
      (scan-digits (cur ++ (d ∷ [])) dot (some d) ds last rest ∙ append_assoc cur (d ∷ []) ds)

-- Digits behind a blank are a number of their own.
scan-blank :
    (place : Place) (before : Option ℕ) (ds last : Bytes)
    → all_digits ds ≡ true
    → ds ≢ []
    → scan place before (32 ∷ ds) last ≡ ds
unfolding scan scan_byte start_number all_digits
scan-blank place before [] last h some_digit = absurd (some_digit refl)
scan-blank outside before (d ∷ ds) last h some_digit =
    let digit : is_digit d ≡ true = ground arith in
    let rest : all_digits ds ≡ true = ground arith in
    rw digit (scan-digits (d ∷ []) false (some d) ds last rest)
scan-blank (inside cur dot) before (d ∷ ds) last h some_digit =
    let digit : is_digit d ≡ true = ground arith in
    let rest : all_digits ds ≡ true = ground arith in
    rw digit (scan-digits (d ∷ []) false (some d) ds cur rest)

scan_last :
    (place : Place) (before : Option ℕ) (text ds last : Bytes)
    → all_digits ds ≡ true
    → ds ≢ []
    → scan place before (text ++ (32 ∷ ds)) last ≡ ds
unfolding scan
scan_last place before [] ds last h some_digit = scan-blank place before ds last h some_digit
scan_last outside before (c ∷ text) ds last h some_digit =
    let next = scan_byte outside before c (text ++ (32 ∷ ds)) last in
    scan_last next.0 (some c) text ds next.1 h some_digit
scan_last (inside cur dot) before (c ∷ text) ds last h some_digit =
    let next = scan_byte (inside cur dot) before c (text ++ (32 ∷ ds)) last in
    scan_last next.0 (some c) text ds next.1 h some_digit

-- An answer that ends in a number in decimal digits behind a blank concludes with that number, whatever
-- stands before it, other numbers, signs and points included.
pub final_number-to_string :
    (text : Bytes) (n : ℕ) → final_number (text ++ (32 ∷ to_string n)) ≡ to_string n
unfolding final_number
final_number-to_string text n =
    scan_last outside none text (to_string n) [] (all_digits-to_string n) (to_string-ne-nil n)
