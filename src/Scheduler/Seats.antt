-- ===== src/Scheduler/Seats.antt =====
-- The slots of src/core/scheduler.cpp: slot_used says which sequence ids are held, and no two active
-- requests hold the same one.
use sovranx.Scheduler.{
  Services, Request, Scheduler, enqueue, vacate, finish, first_free, set_at, seat, place, donor_for,
  admissible,
}
use sovranx.Scheduler.Steps.{IsKept, step-keeps}
use sovranx.Scheduler.Requests.{bit, Reachable, made, submitted, stepped, submit-ok, make-ok}
use sovranx.Prelude.{
  All, All-append, length-append, ℕ, zero, suc, ◌+◌, ◌-◌, ◌%◌, ◌^◌, ◌≤◌, ◌<◌, ◌≡◌, refl, sym, subst,
  inl, inr, Bool, true, false, Bool-cases, List, [], ◌∷◌, ◌++◌, Option, none, some, Option-cases,
  length, get_or, replicate, ◌==◌, if◌then◌else◌, ◌∙◌, ap, arith,
}

-- How many slots are in use, and whether one of them is.
abbrev pub in_use : List Bool → ℕ
in_use [] = 0
in_use (u ∷ us) = bit u + in_use us

abbrev pub used : ℕ → List Bool → ℕ
used k slots = bit (get_or slots k false)

in_use-le-length : (slots : List Bool) → in_use slots ≤ length slots
in_use-le-length [] = omega arith
in_use-le-length (true ∷ us) = omega (arith, in_use-le-length us)
in_use-le-length (false ∷ us) = omega (arith, in_use-le-length us)

-- A free slot is found as long as there is one.
first_free-none : (slots : List Bool) → first_free slots ≡ none → in_use slots ≡ length slots
unfolding first_free
first_free-none [] h = refl
first_free-none (false ∷ us) h = absurd (ground arith)
first_free-none (true ∷ us) h = elim (Option-cases (first_free us)) [
  | inl no_more ↦ omega (arith, first_free-none us no_more)
  | inr (s, found) ↦ absurd (let e = rw found at h in ground arith)
]

first_free-some :
    (slots : List Bool) (k : ℕ)
    → first_free slots ≡ some k
    → (used k slots ≡ 0) × (k < length slots)
unfolding first_free
first_free-some [] k h = absurd (ground arith)
first_free-some (false ∷ us) k h =
    let e : 0 ≡ k = ground arith in
    subst (λ k. (used k (false ∷ us) ≡ 0) × (k < suc (length us))) e (refl, omega arith)
first_free-some (true ∷ us) k h = elim (Option-cases (first_free us)) [
  | inl no_more ↦ absurd (let e = rw no_more at h in ground arith)
  | inr (j, found) ↦
      let e : some (suc j) ≡ some k = rw found at h in
      let e' : suc j ≡ k = ground arith in
      let (free, below) = first_free-some us j found in
      subst (λ k. (used k (true ∷ us) ≡ 0) × (k < suc (length us))) e' (free, omega arith)
]

length-set_at : (k : ℕ) (u : Bool) (slots : List Bool) → length (set_at k u slots) ≡ length slots
unfolding set_at
length-set_at k u [] = refl
length-set_at zero u (v ∷ us) = refl
length-set_at (suc k) u (v ∷ us) = omega (arith, length-set_at k u us)

in_use-set_at :
    (k : ℕ) (u : Bool) (slots : List Bool)
    → k < length slots
    → in_use (set_at k u slots) + used k slots ≡ in_use slots + bit u
unfolding set_at
in_use-set_at k u [] h = absurd (omega arith)
in_use-set_at zero u (v ∷ us) h = omega arith
in_use-set_at (suc k) u (v ∷ us) h = omega (arith, in_use-set_at k u us (omega arith))

used-set_at :
    (k j : ℕ) (u : Bool) (slots : List Bool)
    → k < length slots
    → used j (set_at k u slots) ≡ (if k == j then bit u else used j slots)
unfolding set_at
used-set_at k j u [] h = absurd (omega arith)
used-set_at zero zero u (v ∷ us) h = refl
used-set_at zero (suc j) u (v ∷ us) h = ground arith
used-set_at (suc k) zero u (v ∷ us) h = ground arith
used-set_at (suc k) (suc j) u (v ∷ us) h = ground (arith, used-set_at k j u us (omega arith))

length-replicate : (n : ℕ) → length (replicate n false) ≡ n
length-replicate zero = refl
length-replicate (suc n) = omega (arith, length-replicate n)

in_use-replicate : (n : ℕ) → in_use (replicate n false) ≡ 0
in_use-replicate zero = refl
in_use-replicate (suc n) = omega (arith, in_use-replicate n)

used-replicate : (k n : ℕ) → used k (replicate n false) ≡ 0
used-replicate k zero = refl
used-replicate zero (suc n) = refl
used-replicate (suc k) (suc n) = used-replicate k n

module _ (b : Services) where
  -- How many requests hold a sequence id.
  abbrev pub holds : ℕ → Option ℕ → ℕ
  holds k none = 0
  holds k (some j) = bit (j == k)

  abbrev pub holders : ℕ → List (Request b) → ℕ
  holders k [] = 0
  holders k (r ∷ rs) = holds k r.seq_id + holders k rs

  abbrev pub IsSeated : ℕ → Request b → Type 0
  IsSeated n r = (k : ℕ) × (r.seq_id ≡ some k) × (k < n)

  holders-append :
      (k : ℕ) (rs ts : List (Request b)) → holders k (rs ++ ts) ≡ holders k rs + holders k ts
  holders-append k [] ts = omega arith
  holders-append k (r ∷ rs) ts = omega (arith, holders-append k rs ts)

  -- With the requests still to be advanced given apart.
  pub record Slots (ws fs : List (Request b)) (s : Scheduler b) : Type 0 where
    pub held : (k : ℕ) → holders k s.active + holders k fs ≡ used k s.slot_used
    pub counted : length s.active + length fs ≡ in_use s.slot_used
    pub many : length s.slot_used ≡ s.n_parallel
    pub active_seated : All (IsSeated s.n_parallel) s.active
    pub flying_seated : All (IsSeated s.n_parallel) fs

  place-slots :
      (d : Option (Request b)) (r : Request b) (s : Scheduler b) (k : ℕ)
      → first_free s.slot_used ≡ some k
      → ((place b d r s).slot_used ≡ set_at k true s.slot_used)
        × ((place b d r s).n_parallel ≡ s.n_parallel)
        × (r' : Request b) × ((place b d r s).active ≡ s.active ++ (r' ∷ []))
        × (r'.seq_id ≡ some k)
  unfolding place seat
  place-slots none r s k h =
      let e : seat b (first_free s.slot_used) r s ≡ seat b (some k) r s = rw h in
      (
        ap (λ q. q.1.slot_used) e,
        ap (λ q. q.1.n_parallel) e,
        record r { seq_id = some k },
        ap (λ q. q.1.active ++ (q.0 ∷ [])) e,
        refl,
      )
  place-slots (some d) r s k h =
      let e : seat b (first_free s.slot_used) r s ≡ seat b (some k) r s = rw h in
      let shared = (r.prompt_len - 1) % 2 ^ 32 in
      (
        ap (λ q. q.1.slot_used) e,
        ap (λ q. q.1.n_parallel) e,
        record r { seq_id = some k; n_past = shared; needs_prefill = false },
        ap
            (λ q.
              q.1.active
              ++ (record (q.0) { n_past = (q.0.prompt_len - 1) % 2 ^ 32; needs_prefill = false }
                  ∷ []))
            e,
        refl,
      )

  placed-Slots :
      (ws : List (Request b)) (r : Request b) (s : Scheduler b)
      → admissible b r s ≡ true
      → Slots (r ∷ ws) [] s
      → Slots ws [] (place b (donor_for b r s) r s)
  placed-Slots ws r s allowed v = elim (Option-cases (first_free s.slot_used)) [
    | inl full ↦ absurd (omega (arith, first_free-none s.slot_used full, v.counted, v.many, room))
    | inr (k, free) ↦
        let (slots, same, r', active, seat_k) = place-slots (donor_for b r s) r s k free in
        let (unused, below) = first_free-some s.slot_used k free in
        let below_n : k < s.n_parallel = omega (arith, v.many) in
        record {
          held = λ j.
              rw
                (
                  slots,
                  active,
                  holders-append j s.active (r' ∷ []),
                  seat_k,
                  used-set_at k j true s.slot_used below,
                )
                (taken k j unused (v.held j));
          counted =
              rw (slots, active)
                (omega (
                  arith,
                  length-append s.active (r' ∷ []),
                  v.counted,
                  in_use-set_at k true s.slot_used below,
                  unused,
                ));
          many = rw (slots, same) (length-set_at k true s.slot_used ∙ v.many);
          active_seated =
              rw (active, same)
                (All-append (IsSeated s.n_parallel) s.active (r' ∷ []) v.active_seated
                  ((k, seat_k, below_n), tt));
          flying_seated = tt;
        }
  ]
    where
      room : length s.active < s.n_parallel
      room = unfold admissible in ground arith

      taken :
          (k j : ℕ)
          → used k s.slot_used ≡ 0
          → holders j s.active + 0 ≡ used j s.slot_used
          → holders j s.active + (bit (k == j) + 0) + 0 ≡ (if k == j then 1 else used j s.slot_used)
      taken k j unused h = elim (Bool-cases (k == j)) [
        | inl same ↦
            let e : k ≡ j = ground arith in
            let u : used j s.slot_used ≡ 0 = subst (λ j. used j s.slot_used ≡ 0) e unused in
            rw same (omega arith)
        | inr other ↦ rw other (omega arith)
      ]

  finish-slots :
      (r : Request b) (e : Option b.Error) (s : Scheduler b) (k : ℕ)
      → r.seq_id ≡ some k
      → ((finish b r e s).slot_used ≡ set_at k false s.slot_used)
        × ((finish b r e s).n_parallel ≡ s.n_parallel)
        × ((finish b r e s).active ≡ s.active)
  unfolding finish vacate
  finish-slots r e s k h = rw (h, vacate) (refl, refl, refl)

  finished-Slots :
      (ws fs : List (Request b)) (r r' : Request b) (e : Option b.Error) (s : Scheduler b)
      → r'.seq_id ≡ r.seq_id
      → Slots ws (r ∷ fs) s
      → Slots ws fs (finish b r' e s)
  finished-Slots ws fs r r' e s same v =
      let ((k, seat_k, below_n), rest) = v.flying_seated in
      let (slots, n, active) = finish-slots r' e s k (same ∙ seat_k) in
      let below : k < length s.slot_used = omega (arith, v.many) in
      let held_k : (j : ℕ)
          → holders j s.active + (bit (k == j) + holders j fs) ≡ used j s.slot_used =
        λ j.
          subst (λ q. holders j s.active + (holds j q + holders j fs) ≡ used j s.slot_used) seat_k
            (v.held j) in
      record {
        held =
            λ j. rw (slots, active, used-set_at k j false s.slot_used below) (left k j (held_k j));
        counted =
            rw (slots, active)
              (omega
                (arith, v.counted, in_use-set_at k false s.slot_used below, last_one k (held_k k)));
        many = rw (slots, n) (length-set_at k false s.slot_used ∙ v.many);
        active_seated = rw (active, n) v.active_seated;
        flying_seated = rw n rest;
      }
    where
      last_one :
          (k : ℕ)
          → holders k s.active + (bit (k == k) + holders k fs) ≡ used k s.slot_used
          → used k s.slot_used ≡ 1
      last_one k h = ground arith

      left :
          (k j : ℕ)
          → holders j s.active + (bit (k == j) + holders j fs) ≡ used j s.slot_used
          → holders j s.active + holders j fs ≡ (if k == j then 0 else used j s.slot_used)
      left k j h = ground arith

  Slots-IsKept : IsKept b Slots
  Slots-IsKept = record {
    any_pending = λ ps v. record {
      held = v.held;
      counted = v.counted;
      many = v.many;
      active_seated = v.active_seated;
      flying_seated = v.flying_seated;
    };
    placed = λ {ws} {r} {s} allowed v. placed-Slots ws r s allowed v;
    taken = λ x v. record {
      held = λ k. omega (arith, v.held k);
      counted = omega (arith, v.counted);
      many = v.many;
      active_seated = tt;
      flying_seated = v.active_seated;
    };
    finished = λ {ws} {fs} {s} {r} r' e _ same v. finished-Slots ws fs r r' e s same v;
    stays = λ {ws} {fs} {s} {r} r' later v.
        let (seated, rest) = v.flying_seated in
        record {
          held = λ k.
              rw (holders-append k s.active (r' ∷ []), later.same_seq) (omega (arith, v.held k));
          counted = omega (arith, v.counted, length-append s.active (r' ∷ []));
          many = v.many;
          active_seated =
              All-append (IsSeated s.n_parallel) s.active (r' ∷ []) v.active_seated
                ((seated.0, later.same_seq ∙ seated.1, seated.2), tt);
          flying_seated = rest;
        };
  }

  Slots-fresh :
      (n : ℕ) (s : Scheduler b)
      → s.active ≡ []
      → s.slot_used ≡ replicate n false
      → s.n_parallel ≡ n
      → Slots s.pending [] s
  Slots-fresh n s none_active free same = record {
    held = λ k. rw (none_active, free) (sym (used-replicate k n));
    counted = rw (none_active, free) (sym (in_use-replicate n));
    many = rw (free, same) (length-replicate n);
    active_seated = rw none_active tt;
    flying_seated = tt;
  }

  -- In every scheduler that can come about each active request holds a slot of its own, and exactly
  -- those slots are marked as used; so at most n_parallel requests are active.
  pub Reachable-Slots :
      (x : b.State) (n_parallel n_ctx : ℕ) (s : Scheduler b)
      → Reachable b x n_parallel n_ctx s
      → Slots s.pending [] s × (length s.active ≤ s.n_parallel)
  Reachable-Slots x n_parallel n_ctx s reach =
      let v = slots s reach in (v, omega (arith, v.counted, v.many, in_use-le-length s.slot_used))
    where
      slots : (s : Scheduler b) → Reachable b x n_parallel n_ctx s → Slots s.pending [] s
      slots s (made s' h) =
          let (none_active, free, same) = make-ok b x n_parallel n_ctx s h in
          Slots-fresh n_parallel s none_active free same
      slots t (submitted s t' prompt gen cb i reach h) =
          let (_, e, _, _) = submit-ok b prompt gen cb s t i h in
          let v = slots s reach in
          let w : Slots (enqueue b prompt gen cb s).pending [] (enqueue b prompt gen cb s) =
            record {
              held = v.held;
              counted = v.counted;
              many = v.many;
              active_seated = v.active_seated;
              flying_seated = tt;
            } in
          subst (λ t. Slots t.pending [] t) (sym e) w
      slots t (stepped s reach) = step-keeps b Slots Slots-IsKept s (slots s reach)
