-- ===== src/Scheduler/Requests.antt =====
-- No request of src/core/scheduler.cpp is lost or completed twice.
use sovranx.Scheduler.{
  Services, Request, Scheduler, SubmitError, make, enqueue, vacate, finish, first_free, seat, place,
  donor_for, submit, step,
}
use sovranx.Scheduler.Steps.{IsKept, step-keeps}
use sovranx.Prelude.{
  ℕ, suc, ◌+◌, ◌-◌, ◌%◌, ◌^◌, ◌≤◌, ◌<◌, ◌≡◌, refl, inl, inr, Bool, true, false, Bool-cases, List,
  [], ◌∷◌, ◌++◌, Option, none, some, Option-cases, Outcome, ok, length, replicate, ltb, leb, ◌==◌,
  ◌&&◌, ◌∙◌, ap, arith,
}

abbrev pub bit : Bool → ℕ
bit true = 1
bit false = 0

module _ (b : Services) where
  -- How many requests of a list, and how many completions, carry an id.
  abbrev pub occurs : ℕ → List (Request b) → ℕ
  occurs i [] = 0
  occurs i (r ∷ rs) = bit (r.id == i) + occurs i rs

  abbrev pub completions : ℕ → List (ℕ × Option b.Error) → ℕ
  completions i [] = 0
  completions i ((j, e) ∷ d) = bit (j == i) + completions i d

  -- How often an id is waiting, active or done.
  abbrev pub tally : ℕ → Scheduler b → ℕ
  tally i s = occurs i s.pending + occurs i s.active + completions i s.done

  pub occurs-append :
      (i : ℕ) (rs ts : List (Request b)) → occurs i (rs ++ ts) ≡ occurs i rs + occurs i ts
  occurs-append i [] ts = omega arith
  occurs-append i (r ∷ rs) ts = omega (arith, occurs-append i rs ts)

  -- The count with the requests that wait and those to be advanced given apart.
  abbrev Tallies : ℕ → ℕ → List (Request b) → List (Request b) → Scheduler b → Type 0
  Tallies i n ws fs s = occurs i ws + occurs i s.active + occurs i fs + completions i s.done ≡ n

  finish-completions :
      (i : ℕ) (r : Request b) (e : Option b.Error) (s : Scheduler b)
      → completions i (finish b r e s).done ≡ bit (r.id == i) + completions i s.done
  unfolding finish vacate
  finish-completions i r e s = elim (Option-cases r.seq_id) [
    | inl h ↦ rw (h, vacate)
    | inr (k, h) ↦ rw (h, vacate)
  ]

  pub finish-active :
      (r : Request b) (e : Option b.Error) (s : Scheduler b) → (finish b r e s).active ≡ s.active
  unfolding finish vacate
  finish-active r e s = elim (Option-cases r.seq_id) [
    | inl h ↦ rw (h, vacate)
    | inr (k, h) ↦ rw (h, vacate)
  ]

  -- A seated request is the one from the line, but for its slot and its place in the cache.
  pub record Seated (r r' : Request b) : Type 0 where
    pub same_id : r'.id ≡ r.id
    pub same_gen : r'.gen ≡ r.gen
    pub same_history : r'.history ≡ r.history
    pub same_prompt : r'.prompt_len ≡ r.prompt_len
    pub same_emitted : r'.emitted ≡ r.emitted

  Seated-refl : (r : Request b) → Seated r r
  Seated-refl r = record {
    same_id = refl;
    same_gen = refl;
    same_history = refl;
    same_prompt = refl;
    same_emitted = refl;
  }

  seat_lem :
      (o : Option ℕ) (r : Request b) (s : Scheduler b)
      → Seated r (seat b o r s).0
        × ((seat b o r s).1.active ≡ s.active)
        × ((seat b o r s).1.done ≡ s.done)
  unfolding seat
  seat_lem none r s = (Seated-refl r, refl, refl)
  seat_lem (some k) r s = (
    record {
      same_id = refl;
      same_gen = refl;
      same_history = refl;
      same_prompt = refl;
      same_emitted = refl;
    },
    refl,
    refl,
  )

  pub place_lem :
      (d : Option (Request b)) (r : Request b) (s : Scheduler b)
      → (r' : Request b) × Seated r r'
        × ((place b d r s).active ≡ s.active ++ (r' ∷ []))
        × ((place b d r s).done ≡ s.done)
  unfolding place
  place_lem none r s =
      let (seated, active, done) = seat_lem (first_free s.slot_used) r s in
      ((seat b (first_free s.slot_used) r s).0, seated, rw active, done)
  place_lem (some d) r s =
      let (seated, active, done) = seat_lem (first_free s.slot_used) r s in
      let r' = (seat b (first_free s.slot_used) r s).0 in
      (
        record r' { n_past = (r'.prompt_len - 1) % 2 ^ 32; needs_prefill = false },
        record {
          same_id = seated.same_id;
          same_gen = seated.same_gen;
          same_history = seated.same_history;
          same_prompt = seated.same_prompt;
          same_emitted = seated.same_emitted;
        },
        rw active,
        done,
      )

  Tallies-IsKept : (i n : ℕ) → IsKept b (Tallies i n)
  Tallies-IsKept i n = record {
    any_pending = λ ps h. h;
    placed = λ {ws} {r} {s} _ h.
        let (r', seated, active, done) = place_lem (donor_for b r s) r s in
        rw (active, done, occurs-append i s.active (r' ∷ []), seated.same_id) (omega (arith, h));
    taken = λ {ws} {s} x h. omega (arith, h);
    finished = λ {ws} {fs} {s} {r} r' e same _ h.
        rw (finish-completions i r' e s, finish-active r' e s, same) (omega (arith, h));
    stays = λ {ws} {fs} {s} {r} r' later h.
        rw (occurs-append i s.active (r' ∷ []), later.same_id) (omega (arith, h));
  }

  -- What no step changes.
  abbrev pub config : Scheduler b → ℕ × ℕ × ℕ
  config s = (s.next_id, s.n_parallel, s.n_ctx)

  pub finish-config :
      (r : Request b) (e : Option b.Error) (s : Scheduler b) → config (finish b r e s) ≡ config s
  unfolding finish vacate
  finish-config r e s = elim (Option-cases r.seq_id) [
    | inl h ↦ rw (h, vacate)
    | inr (k, h) ↦ rw (h, vacate)
  ]

  seat-config :
      (o : Option ℕ) (r : Request b) (s : Scheduler b) → config (seat b o r s).1 ≡ config s
  unfolding seat
  seat-config none r s = refl
  seat-config (some k) r s = refl

  pub place-config :
      (d : Option (Request b)) (r : Request b) (s : Scheduler b) → config (place b d r s) ≡ config s
  unfolding place
  place-config none r s = seat-config (first_free s.slot_used) r s
  place-config (some d) r s = seat-config (first_free s.slot_used) r s

  config-IsKept : (c : ℕ × ℕ × ℕ) → IsKept b (λ _ _ s. config s ≡ c)
  config-IsKept c = record {
    any_pending = λ ps h. h;
    placed = λ {ws} {r} {s} _ h. place-config (donor_for b r s) r s ∙ h;
    taken = λ x h. h;
    finished = λ {ws} {fs} {s} r' e _ _ h. finish-config r' e s ∙ h;
    stays = λ r' _ h. h;
  }

  pub step-config : (s : Scheduler b) → config (step b s).1 ≡ config s
  step-config s = step-keeps b (λ _ _ t. config t ≡ config s) (config-IsKept (config s)) s refl

  -- A step neither loses, duplicates nor completes twice a request: every id is waiting, active or done
  -- as often after it as before.
  pub step-tally : (i : ℕ) (s : Scheduler b) → tally i (step b s).1 ≡ tally i s
  step-tally i s =
      let kept =
        step-keeps b (Tallies i (tally i s)) (Tallies-IsKept i (tally i s)) s (omega arith) in
      omega (arith, kept)

  -- The schedulers that clients and the worker can bring about.
  pub data Reachable (x : b.State) (n_parallel n_ctx : ℕ) : Scheduler b → Type 0 where
    made : (s : Scheduler b) → make b x n_parallel n_ctx ≡ ok s → Reachable x n_parallel n_ctx s
    submitted :
        (s t : Scheduler b) (prompt : List ℕ) (gen : b.Gen) (cb : b.Callback) (i : ℕ)
        → Reachable x n_parallel n_ctx s
        → submit b prompt gen cb s ≡ ok (i, t)
        → Reachable x n_parallel n_ctx t
    stepped :
        (s : Scheduler b)
        → Reachable x n_parallel n_ctx s
        → Reachable x n_parallel n_ctx (step b s).1

  pub make-ok :
      (x : b.State) (n_parallel n_ctx : ℕ) (s : Scheduler b)
      → make b x n_parallel n_ctx ≡ ok s
      → (s.active ≡ []) × (s.slot_used ≡ replicate n_parallel false) × (s.n_parallel ≡ n_parallel)
  unfolding make
  make-ok x n_parallel n_ctx s h = ground arith

  pub make-config :
      (x : b.State) (n_parallel n_ctx : ℕ) (s : Scheduler b)
      → make b x n_parallel n_ctx ≡ ok s
      → (s.n_parallel ≡ n_parallel) × (s.n_ctx ≡ n_ctx) × (1 ≤ n_parallel) × (s.pending ≡ [])
  unfolding make
  make-config x n_parallel n_ctx s h = ground arith

  make-tally :
      (x : b.State) (n_parallel n_ctx i : ℕ) (s : Scheduler b)
      → make b x n_parallel n_ctx ≡ ok s
      → (s.next_id ≡ 1) × (tally i s ≡ 0)
  unfolding make
  make-tally x n_parallel n_ctx i s h = ground arith

  pub submit-ok :
      (prompt : List ℕ) (gen : b.Gen) (cb : b.Callback) (s t : Scheduler b) (j : ℕ)
      → submit b prompt gen cb s ≡ ok (j, t)
      → (j ≡ s.next_id)
        × (t ≡ enqueue b prompt gen cb s)
        × (0 < length prompt)
        × (length prompt ≤ s.n_ctx)
  unfolding submit
  submit-ok prompt gen cb s t j h = elim (Bool-cases (length prompt == 0)) [
    | inl none_given ↦ absurd (ground arith)
    | inr given ↦ elim (Bool-cases (ltb s.n_ctx (length prompt))) [
      | inl long ↦ absurd (ground arith)
      | inr fits ↦
          let e : accepted (s.next_id, enqueue b prompt gen cb s) ≡ accepted (j, t) =
            rw (given, fits) at h in
          (cc, cc, ground arith, ground arith)
    ]
  ]
    where
      accepted : ℕ × Scheduler b → Outcome SubmitError (ℕ × Scheduler b)
      accepted q = ok q

  submit-tally :
      (prompt : List ℕ) (gen : b.Gen) (cb : b.Callback) (s t : Scheduler b) (i j : ℕ)
      → submit b prompt gen cb s ≡ ok (j, t)
      → (j ≡ s.next_id)
        × (t.next_id ≡ suc s.next_id)
        × (tally i t ≡ tally i s + bit (s.next_id == i))
  submit-tally prompt gen cb s t i j h =
      let (id, next, _, _) = submit-ok prompt gen cb s t j h in
      (id, rw next, rw next (omega (arith, occurs-append i s.pending _)))

  -- Of the ids from 1 on, those given out each stand for exactly one request, which is waiting, active
  -- or done; no other id is in use.
  pub Reachable-tally :
      (x : b.State) (n_parallel n_ctx : ℕ) (s : Scheduler b)
      → Reachable x n_parallel n_ctx s
      → (i : ℕ) → (1 ≤ s.next_id) × (tally i s ≡ bit (leb 1 i && ltb i s.next_id))
  Reachable-tally x n_parallel n_ctx s (made s' h) i =
      let (next, none_yet) = make-tally x n_parallel n_ctx i s h in
      rw (next, none_yet) (ground arith)
  Reachable-tally x n_parallel n_ctx t (submitted s t' prompt gen cb j reach h) i =
      let (given, held) = Reachable-tally x n_parallel n_ctx s reach i in
      let (_, next, count) = submit-tally prompt gen cb s t i j h in
      rw (next, count, held) (ground arith)
  Reachable-tally x n_parallel n_ctx t (stepped s reach) i =
      let (given, held) = Reachable-tally x n_parallel n_ctx s reach i in
      let next : (step b s).1.next_id ≡ s.next_id = ap (λ c. c.0) (step-config s) in
      rw (next, step-tally i s) (given, held)
