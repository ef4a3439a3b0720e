-- ===== src/Decimal/RoundTrip.antt =====
-- Decimal text is read back: what `to_string` prints is digits that spell the number.
use mathlib.Core.Logic.{ite, dite}
use mathlib.Core.WellFounded
use mathlib.Core.WellFounded.{Acc, Acc-prop}
use native.Mathlib.Decide.{dec_lt}
use sovranx.Decimal.{lt_wf, tenth_lt, emit, digits, to_string, all_digits, value}
use sovranx.Prelude.{
  zero, suc, ◌*◌, ◌^◌, ◌≤◌, length, ℕ, ◌+◌, ◌/◌, ◌%◌, ◌<◌, ◌≡◌, ◌≢◌, true, [], ◌∷◌, Bytes, refl,
  arith,
}

emit_step :
    (n : ℕ) (w : Acc ◌<◌ n) (w' : Acc ◌<◌ (n / 10)) (out : Bytes)
    → emit n w out ≡ ite (dec_lt 9 n) (emit (n / 10) w' ((b'0' + n % 10) ∷ out)) ((b'0' + n) ∷ out)
unfolding emit
emit_step n (Acc.intro _ smaller) w' out = λ i.
    dite (dec_lt 9 n)
      (λ h. emit (n / 10) (Acc-prop (smaller (n / 10) (tenth_lt n h)) w' i) ((b'0' + n % 10) ∷ out))
      (λ _. (b'0' + n) ∷ out)

digits_step :
    (n : ℕ) (out : Bytes)
    → digits n out ≡ ite (dec_lt 9 n) (digits (n / 10) ((b'0' + n % 10) ∷ out)) ((b'0' + n) ∷ out)
unfolding digits
digits_step n = emit_step n _ _

value_last : (n : ℕ) (out : Bytes) → value (n / 10) ((b'0' + n % 10) ∷ out) ≡ value n out
unfolding value
value_last n out = ground arith

value_head : (m : ℕ) (out : Bytes) → value 0 ((b'0' + m) ∷ out) ≡ value m out
unfolding value
value_head m out = ground arith

value-digits : (n : ℕ) (out : Bytes) → value 0 (digits n out) ≡ value n out
value-digits n =
    WellFounded.induction lt_wf {C = λ m. (out : Bytes) → value 0 (digits m out) ≡ value m out} n
      λ m ih out. grind (arith, digits_step m out, value_last m out, ih (m / 10), value_head m out)

all_digits_low :
    (m : ℕ) (out : Bytes) → all_digits out ≡ true → all_digits ((b'0' + m % 10) ∷ out) ≡ true
unfolding all_digits
all_digits_low m out h = ground arith

all_digits_head :
    (m : ℕ) (out : Bytes) → all_digits out ≡ true → m < 10 → all_digits ((b'0' + m) ∷ out) ≡ true
unfolding all_digits
all_digits_head m out h lt = ground arith

all_digits-digits : (n : ℕ) (out : Bytes) → all_digits out ≡ true → all_digits (digits n out) ≡ true
all_digits-digits n =
    WellFounded.induction lt_wf
      {C = λ m. (out : Bytes) → all_digits out ≡ true → all_digits (digits m out) ≡ true} n
      λ m ih out h.
        grind
          (arith, digits_step m out, ih (m / 10), all_digits_low m out h, all_digits_head m out h)

pub value-to_string : (n : ℕ) → value 0 (to_string n) ≡ n
unfolding to_string value
value-to_string n = value-digits n []

pub all_digits-to_string : (n : ℕ) → all_digits (to_string n) ≡ true
unfolding to_string all_digits
all_digits-to_string n = all_digits-digits n [] refl

digits-ne-nil : (n : ℕ) (out : Bytes) → digits n out ≢ []
digits-ne-nil n =
    WellFounded.induction lt_wf {C = λ m. (out : Bytes) → digits m out ≢ []} n
      λ m ih out. grind (arith, digits_step m out, ih (m / 10))

pub to_string-ne-nil : (n : ℕ) → to_string n ≢ []
unfolding to_string
to_string-ne-nil n = digits-ne-nil n []

-- The least number of more than `k` digits, for `k` from 1 on.
abbrev ten_to : ℕ → ℕ
ten_to zero = 1
ten_to (suc k) = ten_to k * 10

length-digits :
    (k n : ℕ) (out : Bytes) → n < ten_to (suc k) → length (digits n out) ≤ suc k + length out
length-digits zero n out small = grind (arith, digits_step n out)
length-digits (suc k) n out small =
    grind (arith, digits_step n out, length-digits k (n / 10) ((b'0' + n % 10) ∷ out))

-- A 64-bit number has 20 digits at most.
pub length-to_string_u64 : (n : ℕ) → n < 2 ^ 64 → length (to_string n) ≤ 20
unfolding to_string
length-to_string_u64 n small = let l = length-digits 19 n [] (omega arith) in omega (arith, l)
