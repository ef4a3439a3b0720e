-- ===== src/Speculative/Decoder/Pieces.antt =====
-- How a property passes through the delivery of tokens, the roll-back and the loop of
-- src/speculative/speculative_decoder.cpp.
use sovranx.Prelude.{
  ℕ, zero, suc, ◌+◌, ◌<◌, ◌≡◌, refl, ◌⊎◌, inl, inr, Bool, true, false, Bool-cases, not, ◌&&◌, List,
  [], ◌∷◌, ◌++◌, Option, none, some, length, ok, Outcome-cases, ltb, if◌then◌else◌, arith,
}
use sovranx.Speculative.Decoder.{
  Config, Calls, Decoder, Flow, going, returned, raised, is_model, is_some, acceptance_below,
  Result, maybe_auto_disable,
}
use sovranx.Speculative.Decoder.Rounds.{
  unfinished, deliver, emit, truncate_draft, truncate_both, kv_sync, new_tokens, adapt, settle,
  round, rounds,
}
use sovranx.Speculative.Decoder.Steps.{After, and_then-After, Throws, truncate_throws}
use sovranx.Speculative.Verify.{
  Models, VerificationResult, VerifyError, decode_failed, adapt_draft_length,
}

module _ (m : Models) (s : Calls m) (cfg : Config) (max_tokens : ℕ) where
  abbrev pub told : ℕ → Decoder m → Decoder m
  told t r = record r { delivered = r.delivered ++ (t ∷ []) }

  abbrev pub pushed : ℕ → Decoder m → Decoder m
  pushed t r = record r {
    history = r.history ++ (t ∷ []);
    emitted = suc r.emitted;
    generated_tokens = suc r.generated_tokens;
    cur = t;
    delivered = r.delivered ++ (t ∷ []);
  }

  pub deliver-After :
      (G : Decoder m → Type 0) (Q : Flow (VerifyError m.Error) → Decoder m → Type 0) (t : ℕ)
      (r : Decoder m)
      → (s.is_eog t ≡ true → Q returned r)
      → (s.is_eog t ≡ false → s.callback (r.delivered ++ (t ∷ [])) ≡ false → Q returned (told t r))
      → (s.is_eog t ≡ false → s.callback (r.delivered ++ (t ∷ [])) ≡ true → G (pushed t r))
      → After m G Q (deliver m s cfg max_tokens t r)
  unfolding deliver
  deliver-After G Q t r ended refused taken =
      choose (s.is_eog t) (s.callback (r.delivered ++ (t ∷ []))) refl refl
    where
      choose :
          (eog more : Bool)
          → s.is_eog t ≡ eog
          → s.callback (r.delivered ++ (t ∷ [])) ≡ more
          → After m G Q (
              if eog
              then (returned, r)
              else if not more
              then (returned, told t r)
              else (going, pushed t r))
      choose true more e c = ended e
      choose false false e c = refused e c
      choose false true e c = taken e c

  pub emit-After :
      (I : List ℕ → Decoder m → Type 0) (G : Decoder m → Type 0)
      (Q : Flow (VerifyError m.Error) → Decoder m → Type 0)
      → ((t : ℕ) (ts : List ℕ) (r : Decoder m)
          → I (t ∷ ts) r
          → unfinished m s cfg max_tokens r ≡ true
          → After m (I ts) Q (deliver m s cfg max_tokens t r))
      → ((ts : List ℕ) (r : Decoder m)
          → I ts r
          → (ts ≡ []) ⊎ (unfinished m s cfg max_tokens r ≡ false)
          → G r)
      → (ts : List ℕ) (r : Decoder m) → I ts r
      → unfinished m s cfg max_tokens r ≡ true
      → After m G Q (emit m s cfg max_tokens ts r)
  unfolding emit
  emit-After I G Q step done [] r h more = done [] r h (inl refl)
  emit-After I G Q step done (t ∷ ts) r h more =
      and_then-After m (I ts) G Q (deliver m s cfg max_tokens t r) _ (step t ts r h more) (λ r h.
        elim (Bool-cases (unfinished m s cfg max_tokens r)) [
          | inl more ↦ rw more (emit-After I G Q step done ts r h more)
          | inr full ↦ rw full (done ts r h (inr full))
        ])

  -- What the roll-back leaves: nothing to cut, both sequences cut, or an error.
  pub data SyncCase (drafted : ℕ) (v : VerificationResult) (r : Decoder m) : Result m → Type 0 where
    kept :
        v.corrected_token ≡ none
        → SyncCase drafted v r (going, record r { base = r.base + drafted })
    cut :
        (t : ℕ) (st dst : m.State)
        → v.corrected_token ≡ some t
        → s.truncate_to (r.base + 1 + length v.accepted_tokens) r.target ≡ ok st
        → SyncCase drafted v r (
          going,
          record r { target = st; draft_model = dst; base = r.base + 1 + length v.accepted_tokens },
        )
    cut_fails :
        (e : m.Error) (st : m.State)
        → Throws m s e
        → SyncCase drafted v r (raised (decode_failed e), record r { target = st })

  truncate_both-SyncCase :
      (drafted : ℕ) (v : VerificationResult) (r : Decoder m) (t : ℕ)
      → v.corrected_token ≡ some t
      → SyncCase drafted v r
          (truncate_both m s cfg max_tokens (r.base + 1 + length v.accepted_tokens) r)
  unfolding truncate_both truncate_draft
  truncate_both-SyncCase drafted v r t rejected =
      let keep = r.base + 1 + length v.accepted_tokens in
      elim (Outcome-cases (s.truncate_to keep r.target)) [
        | inr (e, h) ↦ rw (truncate_both, h) (cut_fails e r.target (truncate_throws _ _ h))
        | inl (st, h) ↦ elim (Bool-cases (is_model cfg.mode && is_some s.draft_vocab_size)) [
          | inr alone ↦
              rw (truncate_both, h, truncate_draft, alone) (cut t st r.draft_model rejected h)
          | inl both ↦ elim (Outcome-cases (s.truncate_to keep r.draft_model)) [
            | inr (e, k) ↦
                rw (truncate_both, h, truncate_draft, both, k)
                  (cut_fails e st (truncate_throws _ _ k))
            | inl (dst, k) ↦
                rw (truncate_both, h, truncate_draft, both, k) (cut t st dst rejected h)
          ]
        ]
      ]

  pub kv_sync-SyncCase :
      (drafted : ℕ) (v : VerificationResult) (r : Decoder m)
      → SyncCase drafted v r (kv_sync m s cfg max_tokens drafted v r)
  unfolding kv_sync
  kv_sync-SyncCase drafted v r = choose v.corrected_token refl
    where
      choose :
          (corrected : Option ℕ)
          → v.corrected_token ≡ corrected
          → SyncCase drafted v r (elim corrected [
            | none ↦ (going, record r { base = r.base + drafted })
            | some t ↦ truncate_both m s cfg max_tokens (r.base + 1 + length v.accepted_tokens) r
          ])
      choose none e = kept e
      choose (some t) e = truncate_both-SyncCase drafted v r t e

  -- What adapting leaves: another draft length, and perhaps no speculation any more.
  abbrev pub adapted : ℕ → ℕ → Bool → Decoder m → Decoder m
  adapted accepted drafted active r = record r {
    current_draft_tokens =
        adapt_draft_length cfg.min_draft_tokens cfg.max_draft_tokens r.current_draft_tokens accepted
          drafted;
    speculative_active = active;
  }

  pub adapt_lem :
      (P : Decoder m → Type 0) (accepted drafted : ℕ) (r : Decoder m)
      → P (adapted accepted drafted r.speculative_active r)
      → P (adapted accepted drafted false r)
      → P (adapt m s cfg max_tokens accepted drafted r)
  unfolding adapt maybe_auto_disable
  adapt_lem P accepted drafted r same off =
      choose (not r.speculative_active) (ltb r.total_draft_tokens cfg.disable_after_drafted)
        (acceptance_below r.total_draft_tokens r.total_accepted_tokens cfg.disable_below_acceptance)
    where
      choose :
          (a b c : Bool)
          → P (
              if a
              then adapted accepted drafted r.speculative_active r
              else if b
              then adapted accepted drafted r.speculative_active r
              else if c
              then adapted accepted drafted false r
              else adapted accepted drafted r.speculative_active r)
      choose true b c = same
      choose false true c = same
      choose false false true = off
      choose false false false = same

  pub settle-After :
      (I : List ℕ → Decoder m → Type 0) (G : Decoder m → Type 0)
      (Q : Flow (VerifyError m.Error) → Decoder m → Type 0) (drafted : ℕ) (v : VerificationResult)
      (r : Decoder m)
      → After m
          (λ r. I (new_tokens m s cfg max_tokens v) r × (unfinished m s cfg max_tokens r ≡ true))
          Q
          (kv_sync m s cfg max_tokens drafted v r)
      → ((t : ℕ) (ts : List ℕ) (r : Decoder m)
          → I (t ∷ ts) r
          → unfinished m s cfg max_tokens r ≡ true
          → After m (I ts) Q (deliver m s cfg max_tokens t r))
      → ((ts : List ℕ) (r : Decoder m) (active : Bool)
          → I ts r
          → (ts ≡ []) ⊎ (unfinished m s cfg max_tokens r ≡ false)
          → (active ≡ r.speculative_active) ⊎ (active ≡ false)
          → G (adapted (length v.accepted_tokens) drafted active r))
      → After m G Q (settle m s cfg max_tokens drafted v r)
  unfolding settle
  settle-After I G Q drafted v r synced step done =
      let tokens = new_tokens m s cfg max_tokens v in
      let accepted = length v.accepted_tokens in
      let H : Decoder m → Type 0 = λ r. G (adapt m s cfg max_tokens accepted drafted r) in
      let adapting : (ts : List ℕ) (r : Decoder m)
          → I ts r
          → (ts ≡ []) ⊎ (unfinished m s cfg max_tokens r ≡ false)
          → H r =
        λ ts r h stop.
          adapt_lem G accepted drafted r (done ts r r.speculative_active h stop (inl refl))
            (done ts r false h stop (inr refl)) in
      and_then-After m _ G Q (kv_sync m s cfg max_tokens drafted v r) _ synced (λ r (h, more).
        and_then-After m H G Q (emit m s cfg max_tokens tokens r) _
          (emit-After I H Q step adapting tokens r h more) (λ r k. k))

  pub rounds-After :
      (I : Decoder m → Type 0) (Q : Flow (VerifyError m.Error) → Decoder m → Type 0)
      (load : Decoder m → ℕ)
      → ((r : Decoder m)
          → I r
          → unfinished m s cfg max_tokens r ≡ true
          → After m (λ next. I next × (load next < load r)) Q (round m s cfg max_tokens r))
      → ((r : Decoder m) → I r → unfinished m s cfg max_tokens r ≡ false → Q returned r)
      → (fuel : ℕ) (r : Decoder m) → load r < fuel
      → I r
      → After m (λ r. ⊥) Q (rounds m s cfg max_tokens fuel r)
  unfolding rounds
  rounds-After I Q load step done zero r enough h = absurd (omega arith)
  rounds-After I Q load step done (suc fuel) r enough h =
      elim (Bool-cases (unfinished m s cfg max_tokens r)) [
        | inr full ↦ rw full (done r h full)
        | inl more ↦ rw more (
            and_then-After m (λ next. I next × (load next < load r)) (λ r. ⊥) Q
              (round m s cfg max_tokens r) _ (step r h more)
              (λ next (k, less).
                rounds-After I Q load step done fuel next (omega (arith, enough, less)) k))
      ]
