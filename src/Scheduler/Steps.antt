-- ===== src/Scheduler/Steps.antt =====
-- How a property of the scheduler is carried through a step of src/core/scheduler.cpp: what one round of
-- each of its loops has to keep.
use sovranx.Scheduler.{
  Services, Request, Scheduler, vacate, finish, place, donor_for, admissible, admit_from, admit,
  slice_of, settle, after_callback, after_sample, advance, retire, fail_all, is_empty, after_decode,
  decoded, step,
}
use sovranx.Prelude.{
  ℕ, suc, ◌+◌, ◌%◌, ◌^◌, ◌<◌, ◌≡◌, refl, sym, subst, inl, inr, Bool, true, false, Bool-cases, List,
  [], ◌∷◌, ◌++◌, Option, none, some, Option-cases, Outcome, ok, throw, length, leb, arith,
}

module _ (b : Services) where
  -- `r'` is `r` one token later.
  pub record Advanced (n_ctx : ℕ) (r r' : Request b) : Type 0 where
    pub same_id : r'.id ≡ r.id
    pub same_seq : r'.seq_id ≡ r.seq_id
    pub same_gen : r'.gen ≡ r.gen
    pub same_prompt : r'.prompt_len ≡ r.prompt_len
    pub longer : (next : ℕ) × (r'.history ≡ r.history ++ (next ∷ []))
    pub counted : r'.emitted ≡ suc r.emitted
    pub prefilled : r'.needs_prefill ≡ false
    pub past : r'.n_past ≡ (r.n_past + length (slice_of b r).tokens % 2 ^ 32) % 2 ^ 32
    pub below_max : r'.emitted < b.max_tokens r.gen
    pub below_ctx : length r'.history < n_ctx

  settle_cases {ℓ} :
      (P : Scheduler b → Type ℓ) (keep_going : Bool) (r : Request b) (s : Scheduler b)
      → P (finish b r none s)
      → (r.emitted < b.max_tokens r.gen
          → length r.history < s.n_ctx
          → P (record s { active = s.active ++ (r ∷ []) }))
      → P (settle b keep_going r s)
  unfolding settle
  settle_cases P false r s done stay = done
  settle_cases P true r s done stay = elim (Bool-cases (leb (b.max_tokens r.gen) r.emitted)) [
    | inl enough ↦ rw enough done
    | inr fewer ↦ elim (Bool-cases (leb s.n_ctx (length r.history))) [
      | inl full ↦ rw (fewer, full) done
      | inr room ↦ rw (fewer, room) (stay (ground arith) (ground arith))
    ]
  ]

  -- A round of the loop after the forward pass finishes the request or keeps it, one token later.
  pub advance_cases {ℓ} :
      (P : Scheduler b → Type ℓ) (l : b.Logits) (r : Request b) (s : Scheduler b)
      → ((r' : Request b) (e : Option b.Error)
          → r'.id ≡ r.id
          → r'.seq_id ≡ r.seq_id
          → P (finish b r' e s))
      → ((r' : Request b) → Advanced s.n_ctx r r' → P (record s { active = s.active ++ (r' ∷ []) }))
      → P (advance b l r s)
  unfolding advance after_callback after_sample
  advance_cases P l r s done stay = sampled (b.sample l r.history r.sampler)
    where
      past : ℕ
      past = (r.n_past + length (slice_of b r).tokens % 2 ^ 32) % 2 ^ 32

      with_sampler : b.Sampler → Request b
      with_sampler m = record r { n_past = past; needs_prefill = false; sampler = m }

      called :
          (next : ℕ) (m : b.Sampler) (o : Outcome b.Error (Bool × b.Callback))
          → P (after_callback b next o (with_sampler m) s)
      called next m (throw e) = done (with_sampler m) (some e) refl refl
      called next m (ok (keep_going, cb)) =
          let r' = record (with_sampler m) {
            history = r.history ++ (next ∷ []);
            emitted = suc r.emitted;
            on_token = cb;
          } in
          settle_cases P keep_going r' s (done r' none refl refl) λ more room. stay r' (record {
            same_id = refl;
            same_seq = refl;
            same_gen = refl;
            same_prompt = refl;
            longer = (next, refl);
            counted = refl;
            prefilled = refl;
            past = refl;
            below_max = more;
            below_ctx = room;
          })

      sampled :
          (o : Outcome b.Error (ℕ × b.Sampler))
          → P (after_sample b o (record r { n_past = past; needs_prefill = false }) s)
      sampled (throw e) =
          done (record r { n_past = past; needs_prefill = false }) (some e) refl refl
      sampled (ok (next, m)) = elim (Bool-cases (b.is_eog next)) [
        | inl stop ↦
            rw stop (done (record r { n_past = past; needs_prefill = false }) none refl refl)
        | inr go ↦ rw go (called next m (b.on_token next r.on_token))
      ]

  -- What a property of a scheduler, with the requests that wait and those still to be advanced given
  -- apart, has to keep for a step to keep it.
  pub record IsKept {ℓ} (I : List (Request b) → List (Request b) → Scheduler b → Type ℓ)
      : Type ℓ where
    pub any_pending :
        {ws fs : List (Request b)} {s : Scheduler b} (ps : List (Request b))
        → I ws fs s
        → I ws fs (record s { pending = ps })
    pub placed :
        {ws : List (Request b)} {r : Request b} {s : Scheduler b}
        → admissible b r s ≡ true
        → I (r ∷ ws) [] s
        → I ws [] (place b (donor_for b r s) r s)
    pub taken :
        {ws : List (Request b)} {s : Scheduler b} (backend : b.State)
        → I ws [] s
        → I ws s.active (record s { backend = backend; active = [] })
    pub finished :
        {ws fs : List (Request b)} {s : Scheduler b} {r : Request b} (r' : Request b)
        (e : Option b.Error)
        → r'.id ≡ r.id
        → r'.seq_id ≡ r.seq_id
        → I ws (r ∷ fs) s
        → I ws fs (finish b r' e s)
    pub stays :
        {ws fs : List (Request b)} {s : Scheduler b} {r : Request b} (r' : Request b)
        → Advanced s.n_ctx r r'
        → I ws (r ∷ fs) s
        → I ws fs (record s { active = s.active ++ (r' ∷ []) })

  finish-pending :
      (r : Request b) (e : Option b.Error) (s : Scheduler b) → (finish b r e s).pending ≡ s.pending
  unfolding finish vacate
  finish-pending r e s = elim (Option-cases r.seq_id) [
    | inl h ↦ rw (h, vacate)
    | inr (k, h) ↦ rw (h, vacate)
  ]

  advance-pending :
      (l : b.Logits) (r : Request b) (s : Scheduler b) → (advance b l r s).pending ≡ s.pending
  advance-pending l r s =
      advance_cases (λ t. t.pending ≡ s.pending) l r s (λ r' e _ _. finish-pending r' e s)
        (λ _ _. refl)

  retire-pending :
      (i : ℕ) (logits : ℕ → b.Logits) (rs : List (Request b)) (s : Scheduler b)
      → (retire b i logits rs s).pending ≡ s.pending
  unfolding retire
  retire-pending i logits [] s = refl
  retire-pending i logits (r ∷ rs) s =
      cc (
        retire-pending (suc i) logits rs (advance b (logits i) r s),
        advance-pending (logits i) r s,
      )

  fail_all-pending :
      (e : b.Error) (rs : List (Request b)) (s : Scheduler b)
      → (fail_all b e rs s).pending ≡ s.pending
  unfolding fail_all
  fail_all-pending e [] s = refl
  fail_all-pending e (r ∷ rs) s =
      cc (fail_all-pending e rs (finish b r (some e) s), finish-pending r (some e) s)

  pub after_decode-pending :
      (o : Outcome b.Error (ℕ → b.Logits) × b.State) (s : Scheduler b)
      → (after_decode b o s).pending ≡ s.pending
  unfolding after_decode
  after_decode-pending (throw e, x) s = fail_all-pending e s.active _
  after_decode-pending (ok l, x) s = retire-pending 0 l s.active _

  module _ {ℓ} (I : List (Request b) → List (Request b) → Scheduler b → Type ℓ) (k : IsKept I) where
    admit_from-keeps :
        (rs : List (Request b)) (s : Scheduler b)
        → I rs [] s
        → I (admit_from b rs s).pending [] (admit_from b rs s)
    unfolding admit_from
    admit_from-keeps [] s h = k.any_pending [] h
    admit_from-keeps (r ∷ rs) s h = elim (Bool-cases (admissible b r s)) [
      | inl ok_now ↦
          rw ok_now (admit_from-keeps rs (place b (donor_for b r s) r s) (k.placed ok_now h))
      | inr wait ↦ rw wait (k.any_pending (r ∷ rs) h)
    ]

    pub admit-keeps : (s : Scheduler b) → I s.pending [] s → I (admit b s).pending [] (admit b s)
    unfolding admit
    admit-keeps s h = admit_from-keeps s.pending s h

    retire-keeps :
        (ws : List (Request b)) (i : ℕ) (logits : ℕ → b.Logits) (rs : List (Request b))
        (s : Scheduler b)
        → I ws rs s
        → I ws [] (retire b i logits rs s)
    unfolding retire
    retire-keeps ws i logits [] s h = h
    retire-keeps ws i logits (r ∷ rs) s h =
        retire-keeps ws (suc i) logits rs (advance b (logits i) r s) (
          advance_cases (I ws rs) (logits i) r s (λ r' e same seq. k.finished r' e same seq h)
            λ r' later. k.stays r' later h)

    fail_all-keeps :
        (ws : List (Request b)) (e : b.Error) (rs : List (Request b)) (s : Scheduler b)
        → I ws rs s
        → I ws [] (fail_all b e rs s)
    unfolding fail_all
    fail_all-keeps ws e [] s h = h
    fail_all-keeps ws e (r ∷ rs) s h =
        fail_all-keeps ws e rs (finish b r (some e) s) (k.finished r (some e) refl refl h)

    pub after_decode-keeps :
        (o : Outcome b.Error (ℕ → b.Logits) × b.State) (s : Scheduler b)
        → I s.pending [] s
        → I (after_decode b o s).pending [] (after_decode b o s)
    unfolding after_decode
    after_decode-keeps o s h =
        subst (λ ps. I ps [] (after_decode b o s)) (sym (after_decode-pending o s)) (kept o)
      where
        kept : (o : Outcome b.Error (ℕ → b.Logits) × b.State) → I s.pending [] (after_decode b o s)
        kept (throw e, x) = fail_all-keeps s.pending e s.active _ (k.taken x h)
        kept (ok l, x) = retire-keeps s.pending 0 l s.active _ (k.taken x h)

    -- A step keeps what each round of its loops keeps.
    pub step-keeps : (s : Scheduler b) → I s.pending [] s → I (step b s).1.pending [] (step b s).1
    unfolding step decoded
    step-keeps s h = elim (Bool-cases (is_empty b (admit b s).active)) [
      | inl idle ↦ rw idle (admit-keeps s h)
      | inr busy ↦ rw busy (after_decode-keeps _ (admit b s) (admit-keeps s h))
    ]
