-- ===== src/Speculative/Decoder/Bounds.antt =====
-- What every round of src/speculative/speculative_decoder.cpp keeps, and that the rounds come to an end.
use sovranx.Prelude.{
  ℕ, suc, ◌+◌, ◌-◌, ◌*◌, ◌≤◌, ◌<◌, ◌≡◌, sym, ap, ◌∙◌, ◌⊎◌, inl, inr, Bool, true, false, not, List,
  [], ◌∷◌, ◌++◌, append_assoc, length, length-append, All, All-append, Option, none, some, ok,
  arith,
}
use sovranx.Speculative.Decoder.{Config, Calls, Decoder, Flow, returned, raised, Result}
use sovranx.Speculative.Decoder.Pieces.{
  told, pushed, deliver-After, SyncCase, kept, cut, cut_fails, kv_sync-SyncCase, adapted,
  settle-After, rounds-After,
}
use sovranx.Speculative.Decoder.Rounds.{unfinished, deliver, new_tokens, check_vocab, round, rounds}
use sovranx.Speculative.Decoder.Steps.{
  After, After-imp, after_pass, verified, drafted_by_model, check_vocab_lem, RoundCase, gives_up,
  misses, fails, fails_drafted, decodes, verifies, round-RoundCase,
}
use sovranx.Speculative.Verify.{
  decode_failed, Models, Draft, VerificationResult, VerifyError, verify_batch, verify_batch-ok,
  tokens_of, length-tokens_of, IsVerdict, adapt_draft_length-bounds,
}

module _ (m : Models) (s : Calls m) (cfg : Config) (max_tokens : ℕ) (prompt : List ℕ) where
  -- What holds between the rounds: the history is the prompt and what was delivered, nothing of that
  -- ends generation, the limits hold, and the counters of drafted tokens add up.
  pub record IsSound (r : Decoder m) : Type 0 where
    pub grown : prompt ++ r.delivered ≡ r.history
    pub spoken : All (λ t. s.is_eog t ≡ false) r.delivered
    pub counted : length r.delivered ≡ r.emitted
    pub asked : r.emitted ≤ max_tokens
    pub fits : length r.history ≤ s.context_length
    pub adds_up : r.total_accepted_tokens + r.total_rejected_tokens ≡ r.total_draft_tokens
    pub at_least : cfg.min_draft_tokens ≤ r.current_draft_tokens
    pub at_most : r.current_draft_tokens ≤ cfg.max_draft_tokens

  -- What is left of that at the end: the last token delivered may be one that the callback refused, and
  -- the history goes without it.
  pub record IsEnded (flow : Flow (VerifyError m.Error)) (r : Decoder m) : Type 0 where
    pub known :
        (prompt ++ r.delivered ≡ r.history)
        ⊎ ((t : ℕ) × (prompt ++ r.delivered ≡ r.history ++ (t ∷ [])))
    pub spoken : All (λ t. s.is_eog t ≡ false) r.delivered
    pub asked : length r.delivered ≤ max_tokens
    pub fits : length r.history ≤ s.context_length
    pub adds_up : r.total_accepted_tokens + r.total_rejected_tokens ≡ r.total_draft_tokens

  abbrev bit : Bool → ℕ
  bit true = 1
  bit false = 0

  -- What there is still to do: each token takes a missed draft and a pass, and giving up takes a round.
  abbrev pub load : Decoder m → ℕ
  load r = 3 * (max_tokens - r.emitted) + bit r.speculative_active + bit (not r.lookup_skip)

  pub load_le : (r : Decoder m) → load r ≤ 3 * max_tokens + 2
  load_le r =
      let active = bit_le r.speculative_active in
      let armed = bit_le (not r.lookup_skip) in omega (arith, active, armed)
    where
      bit_le : (b : Bool) → bit b ≤ 1
      bit_le true = omega arith
      bit_le false = omega arith

  pub IsSound-IsEnded :
      (flow : Flow (VerifyError m.Error)) (r : Decoder m) → IsSound r → IsEnded flow r
  IsSound-IsEnded flow r h = record {
    known = inl h.grown;
    spoken = h.spoken;
    asked = let e = h.counted in let l = h.asked in omega (arith, e, l);
    fits = h.fits;
    adds_up = h.adds_up;
  }

  pub unfinished-lt :
      (r : Decoder m)
      → unfinished m s cfg max_tokens r ≡ true
      → (r.emitted < max_tokens) × (length r.history < s.context_length)
  unfolding unfinished
  unfinished-lt r h = (ground arith, ground arith)

  pushed-IsSound :
      (t : ℕ) (r : Decoder m)
      → IsSound r
      → unfinished m s cfg max_tokens r ≡ true
      → s.is_eog t ≡ false
      → IsSound (pushed m s cfg max_tokens t r)
  pushed-IsSound t r h more said =
      let (below, room) = unfinished-lt r more in
      let size = length-append r.history (t ∷ []) in
      let told_size = length-append r.delivered (t ∷ []) in
      let e = h.counted in
      record {
        grown = sym (append_assoc prompt r.delivered (t ∷ [])) ∙ ap (λ xs. xs ++ (t ∷ [])) h.grown;
        spoken = All-append (λ t. s.is_eog t ≡ false) r.delivered (t ∷ []) h.spoken (said, tt);
        counted = omega (arith, told_size, e);
        asked = below;
        fits = omega (arith, size, room);
        adds_up = h.adds_up;
        at_least = h.at_least;
        at_most = h.at_most;
      }

  refused-IsEnded :
      (t : ℕ) (r : Decoder m)
      → IsSound r
      → unfinished m s cfg max_tokens r ≡ true
      → s.is_eog t ≡ false
      → IsEnded returned (told m s cfg max_tokens t r)
  refused-IsEnded t r h more said =
      let next = pushed-IsSound t r h more said in
      record {
        known = inr (t, next.grown);
        spoken = next.spoken;
        asked = let e = next.counted in let l = next.asked in omega (arith, e, l);
        fits = h.fits;
        adds_up = h.adds_up;
      }

  -- Between the tokens of a round that starts with this load: some of them are left, or it is less.
  Emitting : ℕ → List ℕ → Decoder m → Type 0
  Emitting start ts r =
      IsSound r
      × (((0 < length ts) × (unfinished m s cfg max_tokens r ≡ true) × (load r ≤ suc start))
          ⊎ (load r < start))

  deliver-Emitting :
      (start : ℕ) (t : ℕ) (ts : List ℕ) (r : Decoder m)
      → Emitting start (t ∷ ts) r
      → unfinished m s cfg max_tokens r ≡ true
      → After m (Emitting start ts) IsEnded (deliver m s cfg max_tokens t r)
  unfolding Emitting
  deliver-Emitting start t ts r (h, more_left) more =
      deliver-After m s cfg max_tokens (Emitting start ts) IsEnded t r
        (λ eog. IsSound-IsEnded returned r h) (λ said refused. refused-IsEnded t r h more said)
        (λ said taken. (pushed-IsSound t r h more said, inr (less more_left)))
    where
      less :
          ((0 < length (t ∷ ts)) × (unfinished m s cfg max_tokens r ≡ true) × (load r ≤ suc start))
            ⊎ (load r < start)
          → load (pushed m s cfg max_tokens t r) < start
      less (inl (some_left, going_on, l)) =
          let (below, room) = unfinished-lt r more in omega (arith, below, l)
      less (inr l) = omega (arith, l)

  pub kept-IsSound :
      (r : Decoder m) (target dst : m.State) (g h : m.Rng) (base : ℕ) (active skip : Bool)
      → IsSound r
      → IsSound (record r {
        target = target;
        draft_model = dst;
        sampler_rng = g;
        accept_rng = h;
        base = base;
        speculative_active = active;
        lookup_skip = skip;
      })
  kept-IsSound r target dst g h base active skip k = record {
    grown = k.grown;
    spoken = k.spoken;
    counted = k.counted;
    asked = k.asked;
    fits = k.fits;
    adds_up = k.adds_up;
    at_least = k.at_least;
    at_most = k.at_most;
  }

  verified-IsSound :
      (draft : Draft m) (v : VerificationResult × m.Rng × m.State) (r : Decoder m)
      → 0 < length draft
      → verify_batch m r.cur draft r.history r.accept_rng r.target ≡ ok v
      → IsSound r
      → IsSound (verified m s cfg max_tokens r (length draft) v)
        × (0 < length (new_tokens m s cfg max_tokens v.0))
  unfolding new_tokens
  verified-IsSound draft v r some_draft e h =
      let (logits, decoded, accepted, corrected, verdict, total) =
        verify_batch-ok m r.cur draft r.history r.accept_rng r.target v some_draft e in
      (
        record {
          grown = h.grown;
          spoken = h.spoken;
          counted = h.counted;
          asked = h.asked;
          fits = h.fits;
          adds_up = let before = h.adds_up in omega (arith, before, total);
          at_least = h.at_least;
          at_most = h.at_most;
        },
        some_new v.0.accepted_tokens v.0.corrected_token verdict,
      )
    where
      some_new :
          (accepted : List ℕ) (corrected : Option ℕ)
          → IsVerdict m (tokens_of m draft) accepted corrected
          → 0 < length (elim corrected [ none ↦ accepted | some t ↦ accepted ++ (t ∷ []) ])
      some_new accepted none same =
          let size : length accepted ≡ length (tokens_of m draft) = ap length same in
          let drafted = length-tokens_of m draft in omega (arith, size, drafted, some_draft)
      some_new accepted (some t) verdict =
          let size = length-append accepted (t ∷ []) in omega (arith, size)

  synced-Emitting :
      (start : ℕ) (drafted : ℕ) (v : VerificationResult) (r : Decoder m) (x : Result m)
      → SyncCase m s cfg max_tokens drafted v r x
      → IsSound r
      → 0 < length (new_tokens m s cfg max_tokens v)
      → unfinished m s cfg max_tokens r ≡ true
      → load r ≤ suc start
      → After m
          (λ r.
            Emitting start (new_tokens m s cfg max_tokens v) r
            × (unfinished m s cfg max_tokens r ≡ true))
          IsEnded
          x
  unfolding Emitting unfinished
  synced-Emitting start drafted v r x (kept none_left) h some_new more l = (
    (
      kept-IsSound r r.target r.draft_model r.sampler_rng r.accept_rng (r.base + drafted)
          r.speculative_active r.lookup_skip h,
      inl (some_new, more, l),
    ),
    more,
  )
  synced-Emitting start drafted v r x (cut t st dst some_left truncated) h some_new more l = (
    (
      kept-IsSound r st dst r.sampler_rng r.accept_rng (r.base + 1 + length v.accepted_tokens)
          r.speculative_active r.lookup_skip h,
      inl (some_new, more, l),
    ),
    more,
  )
  synced-Emitting start drafted v r x (cut_fails e st broken) h some_new more l =
      IsSound-IsEnded (raised (decode_failed e)) _ (
        kept-IsSound r st r.draft_model r.sampler_rng r.accept_rng r.base r.speculative_active
          r.lookup_skip h)

  abbrev Progress : Decoder m → Decoder m → Type 0
  Progress r next = IsSound next × (load next < load r)

  plain-Progress :
      (t : ℕ) (r r' : Decoder m)
      → IsSound r'
      → unfinished m s cfg max_tokens r' ≡ true
      → load r' ≤ suc (load r)
      → After m (Progress r) IsEnded (deliver m s cfg max_tokens t r')
  plain-Progress t r r' h more l =
      let (below, room) = unfinished-lt r' more in
      deliver-After m s cfg max_tokens (Progress r) IsEnded t r'
        (λ eog. IsSound-IsEnded returned r' h) (λ said refused. refused-IsEnded t r' h more said)
        (λ said taken. (pushed-IsSound t r' h more said, omega (arith, below, l)))

  adapted-Progress :
      (r : Decoder m) (drafted : ℕ) (v : VerificationResult) (ts : List ℕ) (r' : Decoder m)
      (active : Bool)
      → Emitting (load r) ts r'
      → (ts ≡ []) ⊎ (unfinished m s cfg max_tokens r' ≡ false)
      → (active ≡ r'.speculative_active) ⊎ (active ≡ false)
      → Progress r (adapted m s cfg max_tokens (length v.accepted_tokens) drafted active r')
  unfolding Emitting
  adapted-Progress r drafted v ts r' active (h, inl (some_left, more, l)) (inl none_left) change =
      let size : length ts ≡ 0 = ap length none_left in absurd (omega (arith, size, some_left))
  adapted-Progress r drafted v ts r' active (h, inl (some_left, more, l)) (inr full) change =
      absurd (let e = sym more ∙ full in ground arith)
  adapted-Progress r drafted v ts r' active (h, inr l) stop change =
      let (low, high) =
        adapt_draft_length-bounds cfg.min_draft_tokens cfg.max_draft_tokens r'.current_draft_tokens
          (length v.accepted_tokens) drafted h.at_least h.at_most in
      let fewer = less change in
      (
        record {
          grown = h.grown;
          spoken = h.spoken;
          counted = h.counted;
          asked = h.asked;
          fits = h.fits;
          adds_up = h.adds_up;
          at_least = low;
          at_most = high;
        },
        omega (arith, fewer, l),
      )
    where
      less :
          (active ≡ r'.speculative_active) ⊎ (active ≡ false)
          → bit active ≤ bit r'.speculative_active
      less (inl same) =
          let e : bit active ≡ bit r'.speculative_active = ap bit same in omega (arith, e)
      less (inr off) = let e : bit active ≡ 0 = ap bit off in omega (arith, e)

  case-Progress :
      (r : Decoder m) (x : Result m)
      → RoundCase m s cfg max_tokens r x
      → IsSound r
      → unfinished m s cfg max_tokens r ≡ true
      → After m (Progress r) IsEnded x
  unfolding unfinished
  case-Progress r x (gives_up g st active) h more =
      let e : bit r.speculative_active ≡ 1 = ap bit active in
      (kept-IsSound r r.target st g r.accept_rng r.base false r.lookup_skip h, omega (arith, e))
  case-Progress r x (misses armed) h more =
      let e : bit (not r.lookup_skip) ≡ 1 = ap (λ b. bit (not b)) armed in
      (
        kept-IsSound r r.target r.draft_model r.sampler_rng r.accept_rng r.base r.speculative_active
            true h,
        omega (arith, e),
      )
  case-Progress r x (fails e skip broken) h more = IsSound-IsEnded (raised (decode_failed e)) _ (
      kept-IsSound r r.target r.draft_model r.sampler_rng r.accept_rng r.base r.speculative_active
        skip h)
  case-Progress r x (fails_drafted e g st broken) h more =
      IsSound-IsEnded (raised (decode_failed e)) _
        (kept-IsSound r r.target st g r.accept_rng r.base r.speculative_active r.lookup_skip h)
  case-Progress r x (decodes d e) h more =
      plain-Progress (s.sample d.0 r.history r.sampler_rng).0 r (after_pass m s cfg max_tokens r d)
        (kept-IsSound r d.1 r.draft_model (s.sample d.0 r.history r.sampler_rng).1 r.accept_rng
          (r.base + 1) r.speculative_active false h)
        more (omega arith)
  case-Progress r x (verifies draft g st v some_draft e) h more =
      let r' = drafted_by_model m s cfg max_tokens r g st in
      let (h', some_new) =
        verified-IsSound draft v r' some_draft e
          (kept-IsSound r r.target st g r.accept_rng r.base r.speculative_active r.lookup_skip h) in
      let r'' = verified m s cfg max_tokens r' (length draft) v in
      settle-After m s cfg max_tokens (Emitting (load r)) (Progress r) IsEnded (length draft) v.0
        r''
        (synced-Emitting (load r) (length draft) v.0 r'' _
          (kv_sync-SyncCase m s cfg max_tokens (length draft) v.0 r'') h' some_new more
          (omega arith))
        (deliver-Emitting (load r)) (adapted-Progress r (length draft) v.0)

  pub round-Progress :
      (r : Decoder m)
      → IsSound r
      → unfinished m s cfg max_tokens r ≡ true
      → After m (Progress r) IsEnded (round m s cfg max_tokens r)
  unfolding unfinished
  round-Progress r h more =
      let Ready : Decoder m → Type 0 =
        λ r'. IsSound r' × (unfinished m s cfg max_tokens r' ≡ true) × (load r' ≤ load r) in
      let off =
        kept-IsSound r r.target r.draft_model r.sampler_rng r.accept_rng r.base false r.lookup_skip
          h in
      let (h', more', l) =
        check_vocab_lem m s cfg max_tokens Ready r (h, more, omega arith)
          (off, more, omega arith) in
      let r' = check_vocab m s cfg max_tokens r in
      After-imp m (Progress r') (Progress r) IsEnded IsEnded (round m s cfg max_tokens r)
        (case-Progress r' (round m s cfg max_tokens r) (round-RoundCase m s cfg max_tokens r) h'
          more')
        (λ next (k, less). (k, omega (arith, l, less))) (λ flow next k. k)

  -- The rounds end before the fuel does.
  pub rounds-IsEnded :
      (fuel : ℕ) (r : Decoder m)
      → load r < fuel
      → IsSound r
      → After m (λ r. ⊥) IsEnded (rounds m s cfg max_tokens fuel r)
  rounds-IsEnded =
      rounds-After m s cfg max_tokens IsSound IsEnded load round-Progress
        (λ r h full. IsSound-IsEnded returned r h)
