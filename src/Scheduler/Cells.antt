-- ===== src/Scheduler/Cells.antt =====
-- The positions of src/core/scheduler.cpp: what a step decodes continues each sequence where its cache
-- ends, whether the cache was prefilled, cloned or grown token by token.
use sovranx.Scheduler.{
  Services, Request, Scheduler, enqueue, seat, place, donor_for, first_free, slice_of, admit,
}
use sovranx.Scheduler.Steps.{IsKept, Advanced, step-keeps, admit-keeps}
use sovranx.Scheduler.Requests.{
  Reachable, made, submitted, stepped, submit-ok, make-ok, make-config, finish-active,
  finish-config, place-config,
}
use sovranx.Prelude.{
  All, All-append, length-append, ℕ, suc, ◌+◌, ◌-◌, ◌%◌, ◌^◌, ◌≤◌, ◌<◌, ◌≡◌, refl, sym, subst, inl,
  inr, true, false, List, [], ◌∷◌, ◌++◌, Option, none, some, Option-cases, length, ◌∙◌, ap, arith,
}

module _ (b : Services) where
  -- The slice of a request starts at its n_past and reaches to the end of its history.
  abbrev pub Continues : ℕ → Request b → Type 0
  Continues c r =
      (1 ≤ length r.history)
      × (length r.history ≤ c)
      × ((slice_of b r).pos_start ≡ r.n_past)
      × (r.n_past + length (slice_of b r).tokens ≡ length r.history)

  -- A request in line.
  abbrev pub Waits : ℕ → Request b → Type 0
  Waits c r =
      (1 ≤ length r.history)
      × (length r.history ≤ c)
      × (r.prompt_len ≡ length r.history)
      × (r.needs_prefill ≡ true)
      × (r.n_past ≡ 0)

  pub record Positions (c : ℕ) (ws fs : List (Request b)) (s : Scheduler b) : Type 0 where
    pub waiting : All (Waits c) ws
    pub active : All (Continues c) s.active
    pub flying : All (Continues c) fs
    pub same_ctx : s.n_ctx ≡ c

  prefill-Continues :
      (c : ℕ) (r : Request b)
      → 1 ≤ length r.history
      → length r.history ≤ c
      → r.needs_prefill ≡ true
      → r.n_past ≡ 0
      → Continues c r
  unfolding slice_of
  prefill-Continues c r one short p z = (one, short, rw (p, z), rw (p, z) (omega arith))

  decode-Continues :
      (c : ℕ) (r : Request b)
      → length r.history ≤ c
      → r.needs_prefill ≡ false
      → suc r.n_past ≡ length r.history
      → Continues c r
  unfolding slice_of
  decode-Continues c r short p next = (omega arith, short, rw p, rw p (omega arith))

  -- What is placed: the waiting request as it is, or with its prompt but the last token in the cache.
  place-cache :
      (c : ℕ) (d : Option (Request b)) (r : Request b) (s : Scheduler b)
      → c < 2 ^ 32
      → Waits c r
      → (r' : Request b) × ((place b d r s).active ≡ s.active ++ (r' ∷ [])) × Continues c r'
  unfolding place seat
  place-cache c none r s bound (one, short, _, p, z) =
      elim (Option-cases (first_free s.slot_used)) [
        | inl full ↦
            let e : seat b (first_free s.slot_used) r s ≡ seat b none r s = rw full in
            (r, ap (λ q. q.1.active ++ (q.0 ∷ [])) e, prefill-Continues c r one short p z)
        | inr (k, free) ↦
            let e : seat b (first_free s.slot_used) r s ≡ seat b (some k) r s = rw free in
            let r' = record r { seq_id = some k } in
            (r', ap (λ q. q.1.active ++ (q.0 ∷ [])) e, prefill-Continues c r' one short p z)
      ]
  place-cache c (some d) r s bound (one, short, whole, p, z) =
      let shared = (r.prompt_len - 1) % 2 ^ 32 in
      let next : suc ((r.prompt_len - 1) % 2 ^ 32) ≡ length r.history = omega arith in
      elim (Option-cases (first_free s.slot_used)) [
        | inl full ↦
            let e : seat b (first_free s.slot_used) r s ≡ seat b none r s = rw full in
            let r' = record r { n_past = shared; needs_prefill = false } in
            (r', ap (λ q. q.1.active ++ (cloned q.0 ∷ [])) e, decode-Continues c r' short refl next)
        | inr (k, free) ↦
            let e : seat b (first_free s.slot_used) r s ≡ seat b (some k) r s = rw free in
            let r' = record r { seq_id = some k; n_past = shared; needs_prefill = false } in
            (r', ap (λ q. q.1.active ++ (cloned q.0 ∷ [])) e, decode-Continues c r' short refl next)
      ]
    where
      cloned : Request b → Request b
      cloned q = record q { n_past = (q.prompt_len - 1) % 2 ^ 32; needs_prefill = false }

  later-Continues :
      (c : ℕ) (r r' : Request b) → c < 2 ^ 32 → Continues c r → Advanced b c r r' → Continues c r'
  later-Continues c r r' bound (one, short, start, whole) later =
      let (next, longer) = later.longer in
      let size : length r'.history ≡ length r.history + 1 =
        rw longer (length-append r.history (next ∷ [])) in
      let past : suc r'.n_past ≡ length r'.history = omega (arith, later.past, whole, size) in
      decode-Continues c r' (omega (arith, later.below_ctx)) later.prefilled past

  Positions-IsKept : (c : ℕ) → c < 2 ^ 32 → IsKept b (Positions c)
  Positions-IsKept c bound = record {
    any_pending = λ ps v. record {
      waiting = v.waiting;
      active = v.active;
      flying = v.flying;
      same_ctx = v.same_ctx;
    };
    placed = λ {ws} {r} {s} _ v.
        let (r', active, cached) = place-cache c (donor_for b r s) r s bound v.waiting.0 in
        record {
          waiting = v.waiting.1;
          active = rw active (All-append (Continues c) s.active (r' ∷ []) v.active (cached, tt));
          flying = tt;
          same_ctx = ap (λ q. q.2) (place-config b (donor_for b r s) r s) ∙ v.same_ctx;
        };
    taken = λ x v. record {
      waiting = v.waiting;
      active = tt;
      flying = v.active;
      same_ctx = v.same_ctx;
    };
    finished = λ {ws} {fs} {s} {r} r' e _ _ v. record {
      waiting = v.waiting;
      active = rw (finish-active b r' e s) v.active;
      flying = v.flying.1;
      same_ctx = ap (λ q. q.2) (finish-config b r' e s) ∙ v.same_ctx;
    };
    stays = λ {ws} {fs} {s} {r} r' later v.
        let later' = subst (λ n. Advanced b n r r') v.same_ctx later in
        record {
          waiting = v.waiting;
          active =
              All-append (Continues c) s.active (r' ∷ []) v.active
                (later-Continues c r r' bound v.flying.0 later', tt);
          flying = v.flying.1;
          same_ctx = v.same_ctx;
        };
  }

  Reachable-Positions :
      (x : b.State) (n_parallel n_ctx : ℕ) (s : Scheduler b)
      → n_ctx < 2 ^ 32
      → Reachable b x n_parallel n_ctx s
      → Positions n_ctx s.pending [] s
  Reachable-Positions x n_parallel n_ctx s bound (made s' h) =
      let (_, c, _, none_yet) = make-config b x n_parallel n_ctx s h in
      let (none_active, _, _) = make-ok b x n_parallel n_ctx s h in
      record { waiting = rw none_yet tt; active = rw none_active tt; flying = tt; same_ctx = c }
  Reachable-Positions x n_parallel n_ctx t bound (submitted s t' prompt gen cb i reach h) =
      let (_, e, some_tokens, short) = submit-ok b prompt gen cb s t i h in
      let v = Reachable-Positions x n_parallel n_ctx s bound reach in
      let short' : length prompt ≤ n_ctx = omega (arith, short, v.same_ctx) in
      let w : Positions n_ctx (enqueue b prompt gen cb s).pending [] (enqueue b prompt gen cb s) =
        record {
          waiting =
              All-append (Waits n_ctx) s.pending _ v.waiting
                ((omega arith, short', refl, refl, refl), tt);
          active = v.active;
          flying = tt;
          same_ctx = v.same_ctx;
        } in
      subst (λ t. Positions n_ctx t.pending [] t) (sym e) w
  Reachable-Positions x n_parallel n_ctx t bound (stepped s reach) =
      step-keeps b (Positions n_ctx) (Positions-IsKept n_ctx bound) s
        (Reachable-Positions x n_parallel n_ctx s bound reach)

  -- In every scheduler that can come about, the slice that the next step decodes for a request starts at
  -- the request's n_past and ends with its history, for each request that is active once the step has
  -- admitted from the line. The context length is a 32-bit number.
  pub admit-Continues :
      (x : b.State) (n_parallel n_ctx : ℕ) (s : Scheduler b)
      → n_ctx < 2 ^ 32
      → Reachable b x n_parallel n_ctx s
      → All (Continues n_ctx) (admit b s).active
  admit-Continues x n_parallel n_ctx s bound reach =
      let v = Reachable-Positions x n_parallel n_ctx s bound reach in
      (admit-keeps b (Positions n_ctx) (Positions-IsKept n_ctx bound) s v).active
