-- ===== src/Scheduler/Progress.antt =====
-- run_until_idle of src/core/scheduler.cpp ends, and every request has ended by then.
use sovranx.Scheduler.{
  Services, Request, Scheduler, finish, place, donor_for, find_donor, donor_waits, cells_used,
  cells_of, admissible, admit_from, admit, retire, advance, fail_all, is_empty, after_decode,
  decoded, slices, step, run_until_idle, lookup_done, finished, idle,
}
use sovranx.Scheduler.Steps.{IsKept, step-keeps, advance_cases, after_decode-pending}
use sovranx.Scheduler.Requests.{
  bit, Reachable, made, submitted, stepped, submit-ok, make-config, step-config, place_lem,
  finish-active, completions, Reachable-tally,
}
use sovranx.Prelude.{
  All, All-append, length-append, ℕ, zero, suc, ◌+◌, ◌-◌, ◌%◌, ◌^◌, ◌≤◌, ◌<◌, ◌≡◌, refl, ◌⊎◌, inl,
  inr, true, false, Bool-cases, List, [], ◌∷◌, ◌++◌, Option, some, Outcome, ok, throw, length, ltb,
  leb, ◌==◌, not, ◌&&◌, ◌||◌, ◌∙◌, ap, arith,
}

module _ (b : Services) where
  -- An upper bound on the steps that a request still takes part in.
  abbrev pub weight : Request b → ℕ
  weight r = suc (b.max_tokens r.gen - r.emitted)

  abbrev pub weights : List (Request b) → ℕ
  weights [] = 0
  weights (r ∷ rs) = weight r + weights rs

  abbrev pub load : Scheduler b → ℕ
  load s = weights s.pending + weights s.active

  weights-append : (rs ts : List (Request b)) → weights (rs ++ ts) ≡ weights rs + weights ts
  weights-append [] ts = omega arith
  weights-append (r ∷ rs) ts = omega (arith, weights-append rs ts)

  -- One round after the forward pass costs the request at least one of its steps.
  advance-weights :
      (l : b.Logits) (r : Request b) (s : Scheduler b)
      → suc (weights (advance b l r s).active) ≤ weight r + weights s.active
  advance-weights l r s =
      advance_cases b (λ t. suc (weights t.active) ≤ weight r + weights s.active) l r s
        (λ r' e _ _. rw (finish-active b r' e s) (omega arith))
        λ r' later.
          let same : b.max_tokens r'.gen ≡ b.max_tokens r.gen = ap b.max_tokens later.same_gen in
          rw (weights-append s.active (r' ∷ []))
            (omega (arith, same, later.counted, later.below_max))

  retire-weights :
      (i : ℕ) (logits : ℕ → b.Logits) (rs : List (Request b)) (s : Scheduler b)
      → weights (retire b i logits rs s).active + length rs ≤ weights s.active + weights rs
  unfolding retire
  retire-weights i logits [] s = omega arith
  retire-weights i logits (r ∷ rs) s = omega (
    arith,
    advance-weights (logits i) r s,
    retire-weights (suc i) logits rs (advance b (logits i) r s),
  )

  fail_all-active :
      (e : b.Error) (rs : List (Request b)) (s : Scheduler b)
      → (fail_all b e rs s).active ≡ s.active
  unfolding fail_all
  fail_all-active e [] s = refl
  fail_all-active e (r ∷ rs) s =
      fail_all-active e rs (finish b r (some e) s) ∙ finish-active b r (some e) s

  length-le-weights : (rs : List (Request b)) → length rs ≤ weights rs
  length-le-weights [] = omega arith
  length-le-weights (r ∷ rs) = omega (arith, length-le-weights rs)

  after_decode-weights :
      (o : Outcome b.Error (ℕ → b.Logits) × b.State) (s : Scheduler b)
      → weights (after_decode b o s).active + length s.active ≤ weights s.active
  unfolding after_decode
  after_decode-weights (throw e, x) s =
      rw (fail_all-active e s.active (record s { backend = x; active = [] }))
        (omega (arith, length-le-weights s.active))
  after_decode-weights (ok l, x) s =
      omega (arith, retire-weights 0 l s.active (record s { backend = x; active = [] }))

  admit_from-weights :
      (rs : List (Request b)) (s : Scheduler b)
      → load (admit_from b rs s) ≡ weights rs + weights s.active
  unfolding admit_from
  admit_from-weights [] s = refl
  admit_from-weights (r ∷ rs) s = elim (Bool-cases (admissible b r s)) [
    | inl ok_now ↦
        let (r', seated, active, _) = place_lem b (donor_for b r s) r s in
        let same : weight r' ≡ weight r = rw (seated.same_gen, seated.same_emitted) in
        let rest = admit_from-weights rs (place b (donor_for b r s) r s) in
        let whole : weights (place b (donor_for b r s) r s).active ≡ weights s.active + weight r =
          rw active (omega (arith, weights-append s.active (r' ∷ []), same)) in
        rw ok_now (omega (arith, rest, whole))
    | inr wait ↦ rw wait refl
  ]

  admit_from-length :
      (rs : List (Request b)) (s : Scheduler b)
      → length s.active ≤ length (admit_from b rs s).active
  unfolding admit_from
  admit_from-length [] s = omega arith
  admit_from-length (r ∷ rs) s = elim (Bool-cases (admissible b r s)) [
    | inl ok_now ↦
        let (r', _, active, _) = place_lem b (donor_for b r s) r s in
        let rest = admit_from-length rs (place b (donor_for b r s) r s) in
        let one_more : length (place b (donor_for b r s) r s).active ≡ length s.active + 1 =
          rw active (length-append s.active (r' ∷ [])) in
        rw ok_now (omega (arith, rest, one_more))
    | inr wait ↦ rw wait (omega arith)
  ]

  -- With nothing active, a request that fits the context is admitted.
  admissible_idle :
      (r : Request b) (s : Scheduler b)
      → s.active ≡ []
      → 1 ≤ s.n_parallel
      → length r.history ≤ s.n_ctx
      → admissible b r s ≡ true
  unfolding admissible donor_for find_donor donor_waits cells_used cells_of
  admissible_idle r s none_active slots fits =
      let room : ltb 0 s.n_parallel ≡ true = ground arith in
      let small : (0 + length r.history % 2 ^ 32) % 2 ^ 32 ≤ s.n_ctx = omega arith in
      let cells : ltb s.n_ctx ((0 + length r.history % 2 ^ 32) % 2 ^ 32) ≡ false = ground arith in
      elim (Bool-cases (ltb 1 (length r.history))) [
        | inl longer ↦ rw (none_active, longer, room, cells)
        | inr single ↦ rw (none_active, single, room, cells)
      ]

  -- Every waiting request fits the context.
  abbrev pub Fits : ℕ → List (Request b) → List (Request b) → Scheduler b → Type 0
  Fits c ws fs s = All (λ r. length r.history ≤ c) ws

  Fits-IsKept : (c : ℕ) → IsKept b (Fits c)
  Fits-IsKept c = record {
    any_pending = λ ps h. h;
    placed = λ _ h. h.1;
    taken = λ x h. h;
    finished = λ r' e _ _ h. h;
    stays = λ r' _ h. h;
  }

  -- What every scheduler that can come about was configured with, and that its line fits.
  pub Reachable-Fits :
      (x : b.State) (n_parallel n_ctx : ℕ) (s : Scheduler b)
      → Reachable b x n_parallel n_ctx s
      → (s.n_parallel ≡ n_parallel)
        × (s.n_ctx ≡ n_ctx)
        × (1 ≤ n_parallel)
        × Fits n_ctx s.pending [] s
  Reachable-Fits x n_parallel n_ctx s (made s' h) =
      let (n, c, p, none_yet) = make-config b x n_parallel n_ctx s h in (n, c, p, rw none_yet tt)
  Reachable-Fits x n_parallel n_ctx t (submitted s t' prompt gen cb i reach h) =
      let (n, c, p, fits) = Reachable-Fits x n_parallel n_ctx s reach in
      let (_, e, _, short) = submit-ok b prompt gen cb s t i h in
      let short' : length prompt ≤ n_ctx = omega (arith, short, c) in
      rw e (n, c, p, All-append (λ r. length r.history ≤ n_ctx) s.pending _ fits (short', tt))
  Reachable-Fits x n_parallel n_ctx t (stepped s reach) =
      let (n, c, p, fits) = Reachable-Fits x n_parallel n_ctx s reach in
      (
        ap (λ q. q.1) (step-config b s) ∙ n,
        ap (λ q. q.2) (step-config b s) ∙ c,
        p,
        step-keeps b (Fits n_ctx) (Fits-IsKept n_ctx) s fits,
      )

  is_empty_iff : (rs : List (Request b)) → is_empty b rs ≡ true → rs ≡ []
  unfolding is_empty
  is_empty_iff [] h = refl
  is_empty_iff (r ∷ rs) h = absurd (ground arith)

  length-ne-zero : (rs : List (Request b)) → is_empty b rs ≡ false → 1 ≤ length rs
  unfolding is_empty
  length-ne-zero [] h = absurd (ground arith)
  length-ne-zero (r ∷ rs) h = omega arith

  -- If admission leaves nothing active, nothing waits.
  admit_idle :
      (rs : List (Request b)) (s : Scheduler b)
      → 1 ≤ s.n_parallel
      → Fits s.n_ctx rs [] s
      → (admit_from b rs s).active ≡ []
      → (admit_from b rs s).pending ≡ []
  unfolding admit_from
  admit_idle [] s slots fits h = refl
  admit_idle (r ∷ rs) s slots fits h = elim (Bool-cases (is_empty b s.active)) [
    | inl none_active ↦
        let front = admissible_idle r s (is_empty_iff s.active none_active) slots fits.0 in
        let (r', _, active, _) = place_lem b (donor_for b r s) r s in
        let one_more : length (place b (donor_for b r s) r s).active ≡ length s.active + 1 =
          rw active (length-append s.active (r' ∷ [])) in
        let grown = admit_from-length rs (place b (donor_for b r s) r s) in
        let none_left : (admit_from b rs (place b (donor_for b r s) r s)).active ≡ [] =
          rw front at h in
        let zero_left : length (admit_from b rs (place b (donor_for b r s) r s)).active ≡ 0 =
          rw none_left in
        absurd (omega (arith, grown, one_more, zero_left))
    | inr busy ↦
        let zero_left : length (admit_from b (r ∷ rs) s).active ≡ 0 = ap length h in
        absurd
          (omega (arith, admit_from-length (r ∷ rs) s, length-ne-zero s.active busy, zero_left))
  ]

  step_idle :
      (s : Scheduler b)
      → is_empty b (admit b s).active ≡ true
      → step b s ≡ (not (is_empty b (admit b s).pending), admit b s)
  unfolding step
  step_idle s h = rw h

  step_busy :
      (s : Scheduler b)
      → is_empty b (admit b s).active ≡ false
      → step b s ≡ (
        not (is_empty b (decoded b (admit b s)).active)
            || not (is_empty b (decoded b (admit b s)).pending),
        decoded b (admit b s),
      )
  unfolding step
  step_busy s h = rw h

  load-admit : (s : Scheduler b) → load (admit b s) ≡ load s
  unfolding admit
  load-admit s = admit_from-weights s.pending s

  load-decoded : (s : Scheduler b) → is_empty b s.active ≡ false → load (decoded b s) < load s
  unfolding decoded
  load-decoded s busy =
      let o = b.decode_seqs (slices b s.active) s.backend in
      let same : weights (after_decode b o s).pending ≡ weights s.pending =
        rw (after_decode-pending b o s) in
      omega (arith, same, after_decode-weights o s, length-ne-zero s.active busy)

  -- A step that asks for another one has brought the load down; one that does not leaves nothing to do.
  step_lem :
      (s : Scheduler b)
      → 1 ≤ s.n_parallel
      → Fits s.n_ctx s.pending [] s
      → (((step b s).0 ≡ true) × (load (step b s).1 < load s))
        ⊎ (((step b s).0 ≡ false) × ((step b s).1.active ≡ []) × ((step b s).1.pending ≡ []))
  step_lem s slots fits = elim (Bool-cases (is_empty b (admit b s).active)) [
    | inl idle_now ↦
        let none_active = is_empty_iff (admit b s).active idle_now in
        let none_pending : (admit b s).pending ≡ [] =
          unfold admit in admit_idle s.pending s slots fits none_active in
        rw (step_idle s idle_now)
          (inr (rw none_pending (unfold is_empty in refl), none_active, none_pending))
    | inr busy ↦
        let less : load (decoded b (admit b s)) < load s =
          omega (arith, load-decoded (admit b s) busy, load-admit s) in
        elim (Bool-cases (is_empty b (decoded b (admit b s)).active)) [
          | inl none_active ↦ elim (Bool-cases (is_empty b (decoded b (admit b s)).pending)) [
            | inl none_pending ↦
                rw (step_busy s busy, none_active, none_pending)
                  (inr (refl, is_empty_iff _ none_active, is_empty_iff _ none_pending))
            | inr waiting ↦ rw (step_busy s busy, none_active, waiting) (inl (refl, less))
          ]
          | inr active ↦ rw (step_busy s busy, active) (inl (refl, less))
        ]
  ]

  lookup_done-completions :
      (i : ℕ) (d : List (ℕ × Option b.Error))
      → 1 ≤ completions b i d
      → (e : Option b.Error) × (lookup_done b i d ≡ some e)
  unfolding lookup_done
  lookup_done-completions i [] h = absurd (omega arith)
  lookup_done-completions i ((j, e) ∷ d) h = elim (Bool-cases (j == i)) [
    | inl same ↦ rw same (e, refl)
    | inr other ↦
        let more : 1 ≤ completions b i d = ground arith in
        rw other (lookup_done-completions i d more)
  ]

  finished-completions :
      (i : ℕ) (s : Scheduler b) → 1 ≤ completions b i s.done → finished b i s ≡ true
  unfolding finished
  finished-completions i s h =
      let (e, found) = lookup_done-completions i s.done h in rw (found, finished)

  -- With nothing to do, the ids given out are those that have ended.
  finished-idle :
      (x : b.State) (n_parallel n_ctx : ℕ) (s : Scheduler b)
      → Reachable b x n_parallel n_ctx s
      → s.active ≡ []
      → s.pending ≡ []
      → (i : ℕ) → 1 ≤ i
      → i < s.next_id
      → finished b i s ≡ true
  finished-idle x n_parallel n_ctx s reach none_active none_pending i given below =
      let (_, held) = Reachable-tally b x n_parallel n_ctx s reach i in
      let counted : 0 + 0 + completions b i s.done ≡ bit (leb 1 i && ltb i s.next_id) =
        rw (none_pending, none_active) at held in
      let one : bit (leb 1 i && ltb i s.next_id) ≡ 1 = ground arith in
      finished-completions i s (omega (arith, counted, one))

  run_until_idle_lem :
      (x : b.State) (n_parallel n_ctx : ℕ) (s : Scheduler b)
      → Reachable b x n_parallel n_ctx s
      → (fuel : ℕ) → load s < fuel
      → (t : Scheduler b) × (run_until_idle b fuel s ≡ some t)
        × (idle b t ≡ true)
        × ((i : ℕ) → 1 ≤ i → i < s.next_id → finished b i t ≡ true)
  unfolding run_until_idle
  run_until_idle_lem x n_parallel n_ctx s reach zero enough = absurd (omega arith)
  run_until_idle_lem x n_parallel n_ctx s reach (suc fuel) enough =
      let (n, c, slots, fits) = Reachable-Fits x n_parallel n_ctx s reach in
      let slots' : 1 ≤ s.n_parallel = omega (arith, n, slots) in
      let fits' : Fits s.n_ctx s.pending [] s = rw c fits in
      let later = stepped s reach in
      elim (step_lem s slots' fits') [
        | inl (more, less) ↦
            let (t, run, idle_t, all_done) =
              run_until_idle_lem x n_parallel n_ctx (step b s).1 later fuel (omega arith) in
            let all_done' : (i : ℕ) → 1 ≤ i → i < s.next_id → finished b i t ≡ true =
              λ i given below. all_done i given (rw (ap (λ q. q.0) (step-config b s)) below) in
            (t, rw more run, idle_t, all_done')
        | inr (stop, none_active, none_pending) ↦
            let idle_t : idle b (step b s).1 ≡ true =
              unfold idle is_empty in rw (none_active, none_pending) in
            (
              (step b s).1,
              rw stop refl,
              idle_t,
              λ i given below.
                  finished-idle x n_parallel n_ctx (step b s).1 later none_active none_pending i
                    given (rw (ap (λ q. q.0) (step-config b s)) below),
            )
      ]

  -- run_until_idle comes to an end, in as many steps as the load and one more, and leaves a scheduler in
  -- which nothing waits, nothing is active and any request that was submitted has ended.
  pub run_until_idle-finished :
      (x : b.State) (n_parallel n_ctx fuel i : ℕ) (s : Scheduler b)
      → Reachable b x n_parallel n_ctx s
      → load s < fuel
      → 1 ≤ i
      → i < s.next_id
      → (t : Scheduler b) × (run_until_idle b fuel s ≡ some t)
        × (idle b t ≡ true)
        × (finished b i t ≡ true)
  run_until_idle-finished x n_parallel n_ctx fuel i s reach enough given below =
      let (t, run, idle_t, all_done) = run_until_idle_lem x n_parallel n_ctx s reach fuel enough in
      (t, run, idle_t, all_done i given below)
