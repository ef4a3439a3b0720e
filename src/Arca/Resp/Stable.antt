-- ===== src/Arca/Resp/Stable.antt =====
-- What more input does to a parse that has ended, and how much of its input a parse takes.
use sovranx.Arca.Resp.{
  Parse, done, more, threw, Long, plus, minus, ◌>>=◌, put_front, split_crlf, number_of,
  parse_number_line, in_range, parse_length, close_bulk, bulk_payload, parse_bulk, parse_bulks,
  parse_inline, parse_one,
}
use sovranx.Prelude.{
  ℕ, zero, suc, ◌+◌, ◌≤◌, ◌≡◌, refl, sym, subst, ◌⊎◌, inl, inr, Bool-cases, ◌&&◌, [], ◌∷◌, ◌++◌,
  none, some, Option-cases, Bytes, length, length-append, length-drop, take, drop,
  take-append_of_le, drop-append_of_le, ◌==◌, ltb, if◌then◌else◌, arith,
}

-- The same parse with `t` behind the rest.
abbrev pub extend {ℓ} : {A : Type ℓ} → Bytes → Parse A → Parse A
extend t (done a r) = done a (r ++ t)
extend t more = more
extend t (threw e) = threw e

-- Either the first parse waits for input, or the second ends as it does.
abbrev pub Agrees {ℓ} : {A : Type ℓ} → Bytes → Parse A → Parse A → Type ℓ
Agrees t x y = (x ≡ more) ⊎ (y ≡ extend t x)

-- At most `n` bytes are left.
abbrev pub Leaves {ℓ} : {A : Type ℓ} → ℕ → Parse A → Type 0
Leaves n (done a r) = length r ≤ n
Leaves n more = Unit {0}
Leaves n (threw e) = Unit {0}

Leaves-mono {ℓ} : {A : Type ℓ} (m n : ℕ) (x : Parse A) → Leaves m x → m ≤ n → Leaves n x
Leaves-mono m n (done a r) l h = omega arith
Leaves-mono m n more l h = tt
Leaves-mono m n (threw e) l h = tt

module _ {ℓ κ} {A : Type ℓ} {B : Type κ} (f : A → Bytes → Parse B) where
  >>=-Agrees :
      (t : Bytes) (x y : Parse A)
      → Agrees t x y
      → ((a : A) (r : Bytes) → Agrees t (f a r) (f a (r ++ t)))
      → Agrees t (x >>= f) (y >>= f)
  >>=-Agrees t (done a r) y (inl e) h = cc
  >>=-Agrees t (done a r) y (inr e) h = rw e (h a r)
  >>=-Agrees t more y g h = inl refl
  >>=-Agrees t (threw x) y (inl e) h = cc
  >>=-Agrees t (threw x) y (inr e) h = inr (rw e)

  >>=-Leaves :
      (n : ℕ) (x : Parse A)
      → Leaves n x
      → ((a : A) (r : Bytes) → Leaves (length r) (f a r))
      → Leaves n (x >>= f)
  >>=-Leaves n (done a r) l h = Leaves-mono (length r) n (f a r) (h a r) l
  >>=-Leaves n more l h = tt
  >>=-Leaves n (threw e) l h = tt

pub split_crlf_step :
    (c d : ℕ) (s : Bytes)
    → split_crlf (c ∷ d ∷ s)
      ≡ (if c == 13 && d == 10 then some ([], s) else put_front c (split_crlf (d ∷ s)))
unfolding split_crlf
split_crlf_step c d s = refl

split_crlf_one : (c : ℕ) → split_crlf (c ∷ []) ≡ none
unfolding split_crlf
split_crlf_one c = ground arith

-- The first CRLF stays where it is.
pub split_crlf-append :
    (s t l r : Bytes) → split_crlf s ≡ some (l, r) → split_crlf (s ++ t) ≡ some (l, r ++ t)
split_crlf-append [] t l r e = unfold split_crlf in cc
split_crlf-append (c ∷ []) t l r e = cc (split_crlf_one c)
split_crlf-append (c ∷ d ∷ s) t l r e = elim (Option-cases (split_crlf (d ∷ s))) [
  | inl no_mark ↦ ground (arith, no_mark, split_crlf_step c d s, split_crlf_step c d (s ++ t))
  | inr ((l', r'), mark) ↦ ground (
    arith,
    mark,
    split_crlf-append (d ∷ s) t l' r' mark,
    split_crlf_step c d s,
    split_crlf_step c d (s ++ t),
  )
]

split_crlf-length : (s l r : Bytes) → split_crlf s ≡ some (l, r) → length r + 2 ≤ length s
split_crlf-length [] l r e = unfold split_crlf in cc
split_crlf-length (c ∷ []) l r e = cc (split_crlf_one c)
split_crlf-length (c ∷ d ∷ s) l r e = elim (Option-cases (split_crlf (d ∷ s))) [
  | inl no_mark ↦ ground (arith, no_mark, split_crlf_step c d s)
  | inr ((l', r'), mark) ↦
      ground (arith, mark, split_crlf-length (d ∷ s) l' r' mark, split_crlf_step c d s)
]

number_of-Agrees : (l t r : Bytes) → number_of l (r ++ t) ≡ extend t (number_of l r)
unfolding number_of
number_of-Agrees [] t r = refl
number_of-Agrees (c ∷ []) t r = ground arith
number_of-Agrees (c ∷ d ∷ l) t r = ground arith

number_of-Leaves : (l r : Bytes) → Leaves (length r) (number_of l r)
unfolding number_of
number_of-Leaves [] r = tt
number_of-Leaves (c ∷ []) r = ground arith
number_of-Leaves (c ∷ d ∷ l) r = ground arith

parse_number_line-none : (s : Bytes) → split_crlf s ≡ none → parse_number_line s ≡ more
unfolding parse_number_line
parse_number_line-none s e = rw (e, parse_number_line)

pub parse_number_line-some :
    (s l r : Bytes) → split_crlf s ≡ some (l, r) → parse_number_line s ≡ number_of l r
unfolding parse_number_line
parse_number_line-some s l r e = rw (e, parse_number_line)

parse_number_line-Agrees :
    (s t : Bytes) → Agrees t (parse_number_line s) (parse_number_line (s ++ t))
parse_number_line-Agrees s t = elim (Option-cases (split_crlf s)) [
  | inl e ↦ inl (parse_number_line-none s e)
  | inr ((l, r), e) ↦
      rw
        (
          parse_number_line-some s l r e,
          parse_number_line-some (s ++ t) l (r ++ t) (split_crlf-append s t l r e),
        )
        (inr (number_of-Agrees l t r))
]

parse_number_line-Leaves : (s : Bytes) → Leaves (length s) (parse_number_line s)
parse_number_line-Leaves s = elim (Option-cases (split_crlf s)) [
  | inl e ↦ subst (Leaves (length s)) (sym (parse_number_line-none s e)) tt
  | inr ((l, r), e) ↦ subst (Leaves (length s)) (sym (parse_number_line-some s l r e)) (
      Leaves-mono (length r) (length s) (number_of l r) (number_of-Leaves l r)
        (omega (arith, split_crlf-length s l r e)))
]

in_range-Agrees :
    (limit : ℕ) (what : Bytes) (n : Long) (r t : Bytes)
    → in_range limit what n (r ++ t) ≡ extend t (in_range limit what n r)
unfolding in_range
in_range-Agrees limit what (plus n) r t = ground arith
in_range-Agrees limit what (minus n) r t = refl

in_range-Leaves :
    (limit : ℕ) (what : Bytes) (n : Long) (r : Bytes) → Leaves (length r) (in_range limit what n r)
unfolding in_range
in_range-Leaves limit what (plus n) r = ground arith
in_range-Leaves limit what (minus n) r = tt

close_bulk-Agrees :
    (part s t : Bytes) → 2 ≤ length s → close_bulk part (s ++ t) ≡ extend t (close_bulk part s)
unfolding close_bulk
close_bulk-Agrees part [] t h = absurd (omega arith)
close_bulk-Agrees part (c ∷ []) t h = absurd (omega arith)
close_bulk-Agrees part (c ∷ d ∷ s) t h = ground arith

close_bulk-Leaves : (part s : Bytes) → Leaves (length s) (close_bulk part s)
unfolding close_bulk
close_bulk-Leaves part [] = tt
close_bulk-Leaves part (c ∷ []) = tt
close_bulk-Leaves part (c ∷ d ∷ s) = ground arith

bulk_payload-Agrees :
    (len : ℕ) (s t : Bytes) → Agrees t (bulk_payload len s) (bulk_payload len (s ++ t))
unfolding bulk_payload
bulk_payload-Agrees len s t = elim (Bool-cases (ltb (length s) (len + 2))) [
  | inl short ↦ inl (rw short)
  | inr long ↦
      let fits : len + 2 ≤ length s = ground arith in
      inr (
        rw
          (
            take-append_of_le len s t (omega arith),
            drop-append_of_le len s t (omega arith),
            close_bulk-Agrees (take len s) (drop len s) t (omega (arith, length-drop len s)),
          )
          (ground (arith, length-append s t)))
]

bulk_payload-Leaves : (len : ℕ) (s : Bytes) → Leaves (length s) (bulk_payload len s)
unfolding bulk_payload
bulk_payload-Leaves len s = elim (Bool-cases (ltb (length s) (len + 2))) [
  | inl short ↦ rw short tt
  | inr long ↦ rw long (
      Leaves-mono (length (drop len s)) (length s) (close_bulk (take len s) (drop len s))
        (close_bulk-Leaves (take len s) (drop len s)) (omega (arith, length-drop len s)))
]

parse_length-Agrees :
    (limit : ℕ) (what s t : Bytes)
    → Agrees t (parse_length limit what s) (parse_length limit what (s ++ t))
unfolding parse_length
parse_length-Agrees limit what s t =
    >>=-Agrees (in_range limit what) t _ _ (parse_number_line-Agrees s t)
      λ n r. inr (in_range-Agrees limit what n r t)

parse_length-Leaves : (limit : ℕ) (what s : Bytes) → Leaves (length s) (parse_length limit what s)
unfolding parse_length
parse_length-Leaves limit what s =
    >>=-Leaves (in_range limit what) (length s) (parse_number_line s) (parse_number_line-Leaves s)
      (in_range-Leaves limit what)

pub parse_bulk-Agrees : (s t : Bytes) → Agrees t (parse_bulk s) (parse_bulk (s ++ t))
unfolding parse_bulk
parse_bulk-Agrees [] t = inl refl
parse_bulk-Agrees (c ∷ s) t = elim (Bool-cases (c == b'$')) [
  | inl dollar ↦ rw dollar (
      >>=-Agrees bulk_payload t _ _ (parse_length-Agrees _ _ s t)
        (λ len u. bulk_payload-Agrees len u t))
  | inr other ↦ rw other (inr refl)
]

parse_bulk-Leaves : (s : Bytes) → Leaves (length s) (parse_bulk s)
unfolding parse_bulk
parse_bulk-Leaves [] = tt
parse_bulk-Leaves (c ∷ s) = elim (Bool-cases (c == b'$')) [
  | inl dollar ↦ rw dollar (
      Leaves-mono (length s) (suc (length s)) _
        (>>=-Leaves bulk_payload (length s) _ (parse_length-Leaves _ _ s) bulk_payload-Leaves)
        (omega arith))
  | inr other ↦ rw other tt
]

parse_bulks-Agrees : (n : ℕ) (s t : Bytes) → Agrees t (parse_bulks n s) (parse_bulks n (s ++ t))
unfolding parse_bulks
parse_bulks-Agrees zero s t = inr refl
parse_bulks-Agrees (suc n) s t = >>=-Agrees _ t _ _ (parse_bulk-Agrees s t) λ part u.
    >>=-Agrees (λ parts v. done (part ∷ parts) v) t _ _ (parse_bulks-Agrees n u t)
      λ parts v. inr refl

parse_bulks-Leaves : (n : ℕ) (s : Bytes) → Leaves (length s) (parse_bulks n s)
unfolding parse_bulks
parse_bulks-Leaves zero s = omega arith
parse_bulks-Leaves (suc n) s =
    >>=-Leaves _ (length s) (parse_bulk s) (parse_bulk-Leaves s) λ part u.
      >>=-Leaves (λ parts v. done (part ∷ parts) v) (length u) (parse_bulks n u)
        (parse_bulks-Leaves n u) λ parts v. omega arith

parse_inline-Agrees : (s t : Bytes) → Agrees t (parse_inline s) (parse_inline (s ++ t))
unfolding parse_inline
parse_inline-Agrees s t = elim (Option-cases (split_crlf s)) [
  | inl e ↦ inl (rw (e, parse_inline))
  | inr ((l, r), e) ↦ inr (rw (e, split_crlf-append s t l r e, parse_inline))
]

parse_inline-Leaves : (c : ℕ) (s : Bytes) → Leaves (length s) (parse_inline (c ∷ s))
unfolding parse_inline
parse_inline-Leaves c s = elim (Option-cases (split_crlf (c ∷ s))) [
  | inl e ↦ ground (arith, e)
  | inr ((l, r), e) ↦ ground (arith, e, split_crlf-length (c ∷ s) l r e)
]

-- A command that is complete, or malformed, stays so whatever follows it.
pub parse_one-Agrees : (s t : Bytes) → Agrees t (parse_one s) (parse_one (s ++ t))
unfolding parse_one
parse_one-Agrees [] t = inl refl
parse_one-Agrees (c ∷ s) t = elim (Bool-cases (c == b'*')) [
  | inl star ↦
      rw star (
        >>=-Agrees parse_bulks t _ _ (parse_length-Agrees _ _ s t)
          (λ n u. parse_bulks-Agrees n u t))
  | inr other ↦ rw other (parse_inline-Agrees (c ∷ s) t)
]

-- A complete command takes at least one byte.
pub parse_one-Leaves : (c : ℕ) (s : Bytes) → Leaves (length s) (parse_one (c ∷ s))
unfolding parse_one
parse_one-Leaves c s = elim (Bool-cases (c == b'*')) [
  | inl star ↦
      rw star (>>=-Leaves parse_bulks (length s) _ (parse_length-Leaves _ _ s) parse_bulks-Leaves)
  | inr other ↦ rw other (parse_inline-Leaves c s)
]
