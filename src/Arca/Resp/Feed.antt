-- ===== src/Arca/Resp/Feed.antt =====
-- RespParser::feed: the loop ends, and the cuts that TCP makes in the input do not matter.
use sovranx.Arca.Resp.{
  Parse, done, more, threw, Exception, RespParser, Fed, fed, failed, stuck, parse_one, push_command,
  feed_loop, feed,
}
use sovranx.Arca.Resp.Stable.{Leaves, extend, parse_one-Agrees, parse_one-Leaves}
use sovranx.Prelude.{
  concat, ℕ, zero, suc, ◌≤◌, ◌<◌, ◌≡◌, refl, sym, subst, ap, ◌∙◌, ◌≢◌, ◌⊎◌, inl, inr, List, [], ◌∷◌,
  ◌++◌, append-nil, append_assoc, Bytes, length, length-append, arith,
}

Parse-cases {ℓ} :
    {A : Type ℓ} (x : Parse A)
    → (x ≡ more) ⊎ (((a : A) × (r : Bytes) × (x ≡ done a r)) ⊎ ((e : Exception) × (x ≡ threw e)))
Parse-cases more = inl refl
Parse-cases (done a r) = inr (inl (a, r, refl))
Parse-cases (threw e) = inr (inr (e, refl))

-- What a caller sees: after an exception the buffer is never read again.
abbrev pub observe : Fed → Fed
observe (fed p) = fed p
observe (failed e p) = failed e (record p { buf = [] })
observe stuck = stuck

pub parse_one-length :
    (s r : Bytes) (cmd : List Bytes) → parse_one s ≡ done cmd r → length r < length s
parse_one-length [] r cmd e = unfold parse_one in cc
parse_one-length (c ∷ s) r cmd e =
    let left : length r ≤ length s = subst (Leaves (length s)) e (parse_one-Leaves c s) in
    omega arith

parse_one-append :
    (s t r : Bytes) (cmd : List Bytes)
    → parse_one s ≡ done cmd r
    → parse_one (s ++ t) ≡ done cmd (r ++ t)
parse_one-append s t r cmd e = elim (parse_one-Agrees s t) [
  | inl w ↦ cc
  | inr h ↦ h ∙ ap (extend t) e
]

pub parse_one-append_threw :
    (s t : Bytes) (x : Exception) → parse_one s ≡ threw x → parse_one (s ++ t) ≡ threw x
parse_one-append_threw s t x e = elim (parse_one-Agrees s t) [
  | inl w ↦ cc
  | inr h ↦ h ∙ ap (extend t) e
]

module _ (f : ℕ) (buf s : Bytes) (ready : List (List Bytes)) where
  pub feed_loop_more :
      parse_one s ≡ more → feed_loop (suc f) buf s ready ≡ fed (record { buf = s; ready = ready })
  unfolding feed_loop
  feed_loop_more e = rw (e, feed_loop)

  pub feed_loop_done :
      (cmd : List Bytes) (r : Bytes)
      → parse_one s ≡ done cmd r
      → feed_loop (suc f) buf s ready ≡ feed_loop f buf r (push_command cmd ready)
  unfolding feed_loop
  feed_loop_done cmd r e = rw (e, feed_loop)

  pub feed_loop_threw :
      (x : Exception)
      → parse_one s ≡ threw x
      → feed_loop (suc f) buf s ready ≡ failed x (record { buf = buf; ready = ready })
  unfolding feed_loop
  feed_loop_threw x e = rw (e, feed_loop)

feed_loop-ne-stuck :
    (f : ℕ) (buf s : Bytes) (ready : List (List Bytes))
    → length s < f
    → feed_loop f buf s ready ≢ stuck
feed_loop-ne-stuck zero buf s ready h = absurd (omega arith)
feed_loop-ne-stuck (suc f) buf s ready h = elim (Parse-cases (parse_one s)) [
  | inl e ↦ rw (feed_loop_more f buf s ready e) (λ p. cc)
  | inr (inl (cmd, r, e)) ↦ rw (feed_loop_done f buf s ready cmd r e) (
      feed_loop-ne-stuck f buf r (push_command cmd ready)
        (omega (arith, parse_one-length s r cmd e)))
  | inr (inr (x, e)) ↦ rw (feed_loop_threw f buf s ready x e) (λ p. cc)
]

-- The loop of feed() always ends: by running out of complete commands, or by an exception.
pub feed-ne-stuck : (p : RespParser) (bytes : Bytes) → feed p bytes ≢ stuck
unfolding feed
feed-ne-stuck p bytes = feed_loop-ne-stuck _ _ (p.buf ++ bytes) p.ready (omega arith)

feed_loop_fuel :
    (f g : ℕ) (buf buf' s : Bytes) (ready : List (List Bytes))
    → length s < f
    → length s < g
    → observe (feed_loop f buf s ready) ≡ observe (feed_loop g buf' s ready)
feed_loop_fuel zero g buf buf' s ready h k = absurd (omega arith)
feed_loop_fuel (suc f) zero buf buf' s ready h k = absurd (omega arith)
feed_loop_fuel (suc f) (suc g) buf buf' s ready h k = elim (Parse-cases (parse_one s)) [
  | inl e ↦ rw (feed_loop_more f buf s ready e, feed_loop_more g buf' s ready e)
  | inr (inl (cmd, r, e)) ↦
      rw (feed_loop_done f buf s ready cmd r e, feed_loop_done g buf' s ready cmd r e)
        (feed_loop_fuel f g buf buf' r (push_command cmd ready)
          (omega (arith, parse_one-length s r cmd e)) (omega (arith, parse_one-length s r cmd e)))
  | inr (inr (x, e)) ↦ rw (feed_loop_threw f buf s ready x e, feed_loop_threw g buf' s ready x e)
]

-- A run over `s` that waits in `q` goes on from `q` when `t` arrives.
feed_loop-append :
    (f : ℕ) (buf s : Bytes) (ready : List (List Bytes)) (q : RespParser)
    → length s < f
    → feed_loop f buf s ready ≡ fed q
    → (t : Bytes) (g h : ℕ) (buf1 buf2 : Bytes) → length (s ++ t) < g
    → length (q.buf ++ t) < h
    → observe (feed_loop g buf1 (s ++ t) ready) ≡ observe (feed_loop h buf2 (q.buf ++ t) q.ready)
feed_loop-append zero buf s ready q l e t g h b c m n = absurd (omega arith)
feed_loop-append (suc f) buf s ready q l e t zero h b c m n = absurd (omega arith)
feed_loop-append (suc f) buf s ready q l e t (suc g) h b c m n = elim (Parse-cases (parse_one s)) [
  | inl w ↦
      let same : record { buf = s; ready = ready } ≡ q = cc (feed_loop_more f buf s ready w) in
      subst
        (λ u.
          observe (feed_loop (suc g) b (s ++ t) ready)
          ≡ observe (feed_loop h c (u.buf ++ t) u.ready))
        same
        (feed_loop_fuel (suc g) h b c (s ++ t) ready m
          (omega (arith, ap (λ (u : RespParser). length (u.buf ++ t)) same)))
  | inr (inl (cmd, r, w)) ↦
      rw (feed_loop_done g b (s ++ t) ready cmd (r ++ t) (parse_one-append s t r cmd w)) (
        feed_loop-append f buf r (push_command cmd ready) q
          (omega (arith, parse_one-length s r cmd w))
          (sym (feed_loop_done f buf s ready cmd r w) ∙ e) t g h b c
          (omega (arith, parse_one-length s r cmd w, length-append s t, length-append r t)) n)
  | inr (inr (x, w)) ↦ cc (feed_loop_threw f buf s ready x w)
]

feed_loop-append_failed :
    (f : ℕ) (buf s : Bytes) (ready : List (List Bytes)) (x : Exception) (q : RespParser)
    → length s < f
    → feed_loop f buf s ready ≡ failed x q
    → (t : Bytes) (g : ℕ) (buf' : Bytes) → length (s ++ t) < g
    → observe (feed_loop g buf' (s ++ t) ready) ≡ observe (failed x q)
feed_loop-append_failed zero buf s ready x q l e t g b m = absurd (omega arith)
feed_loop-append_failed (suc f) buf s ready x q l e t zero b m = absurd (omega arith)
feed_loop-append_failed (suc f) buf s ready x q l e t (suc g) b m =
    elim (Parse-cases (parse_one s)) [
      | inl w ↦ cc (feed_loop_more f buf s ready w)
      | inr (inl (cmd, r, w)) ↦
          rw (feed_loop_done g b (s ++ t) ready cmd (r ++ t) (parse_one-append s t r cmd w)) (
            feed_loop-append_failed f buf r (push_command cmd ready) x q
              (omega (arith, parse_one-length s r cmd w))
              (sym (feed_loop_done f buf s ready cmd r w) ∙ e) t g b
              (omega (arith, parse_one-length s r cmd w, length-append s t, length-append r t)))
      | inr (inr (y, w)) ↦
          rw (feed_loop_threw g b (s ++ t) ready y (parse_one-append_threw s t y w))
            (ap observe (sym (again y w) ∙ e))
    ]
  where
    again :
        (y : Exception)
        → parse_one s ≡ threw y
        → feed_loop (suc f) buf s ready ≡ failed y (record { buf = buf; ready = ready })
    again y w = feed_loop_threw f buf s ready y w

-- Two calls of feed() leave what one call with both slices leaves.
feed-append :
    (p q : RespParser) (a b : Bytes)
    → feed p a ≡ fed q
    → observe (feed p (a ++ b)) ≡ observe (feed q b)
unfolding feed
feed-append p q a b e = rw (sym (append_assoc p.buf a b)) (
    feed_loop-append _ (p.buf ++ a) (p.buf ++ a) p.ready q (omega arith) e b _ _ _ _ (omega arith)
      (omega arith))

feed-append_failed :
    (p q : RespParser) (x : Exception) (a b : Bytes)
    → feed p a ≡ failed x q
    → observe (feed p (a ++ b)) ≡ observe (failed x q)
unfolding feed
feed-append_failed p q x a b e = rw (sym (append_assoc p.buf a b)) (
    feed_loop-append_failed _ (p.buf ++ a) (p.buf ++ a) p.ready x q (omega arith) e b _ _
      (omega arith))

-- The slices that TCP delivers, fed one after the other until one throws.
pub feed_slices : RespParser → List Bytes → Fed
feed_slices p [] = fed p
feed_slices p (c ∷ cs) = elim (feed p c) [
  | fed q ↦ feed_slices q cs
  | failed x q ↦ failed x q
  | stuck ↦ stuck
]

Fed-cases :
    (r : Fed)
    → ((q : RespParser) × (r ≡ fed q))
      ⊎ (((x : Exception) × (q : RespParser) × (r ≡ failed x q)) ⊎ (r ≡ stuck))
Fed-cases (fed q) = inl (q, refl)
Fed-cases (failed x q) = inr (inl (x, q, refl))
Fed-cases stuck = inr (inr refl)

feed_slices_fed :
    (p q : RespParser) (c : Bytes) (cs : List Bytes)
    → feed p c ≡ fed q
    → feed_slices p (c ∷ cs) ≡ feed_slices q cs
unfolding feed_slices
feed_slices_fed p q c cs e = rw (e, feed_slices)

feed_slices_failed :
    (p q : RespParser) (x : Exception) (c : Bytes) (cs : List Bytes)
    → feed p c ≡ failed x q
    → feed_slices p (c ∷ cs) ≡ failed x q
unfolding feed_slices
feed_slices_failed p q x c cs e = rw (e, feed_slices)

-- However the bytes of a connection are cut into slices, feeding the slices one by one ends as
-- feeding all the bytes at once does: the same commands in the same order, the same unread rest, or
-- the same exception after the same commands. At least one slice has arrived.
pub feed_slices-concat :
    (p : RespParser) (c : Bytes) (cs : List Bytes)
    → observe (feed_slices p (c ∷ cs)) ≡ observe (feed p (c ++ concat cs))
feed_slices-concat p c [] = elim (Fed-cases (feed p c)) [
  | inl (q, e) ↦ rw (append-nil c, feed_slices_fed p q c [] e, e) (unfold feed_slices in refl)
  | inr (inl (x, q, e)) ↦ rw (append-nil c, feed_slices_failed p q x c [] e, e)
  | inr (inr e) ↦ absurd (feed-ne-stuck p c e)
]
feed_slices-concat p c (d ∷ cs) = elim (Fed-cases (feed p c)) [
  | inl (q, e) ↦
      ap observe (feed_slices_fed p q c (d ∷ cs) e)
      ∙ feed_slices-concat q d cs
      ∙ sym (feed-append p q c (d ++ concat cs) e)
  | inr (inl (x, q, e)) ↦
      ap observe (feed_slices_failed p q x c (d ∷ cs) e)
      ∙ sym (feed-append_failed p q x c (d ++ concat cs) e)
  | inr (inr e) ↦ absurd (feed-ne-stuck p c e)
]
