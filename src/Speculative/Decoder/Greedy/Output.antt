-- ===== src/Speculative/Decoder/Greedy/Output.antt =====
-- Each round of src/speculative/speculative_decoder.cpp under greedy sampling delivers what plain decoding
-- delivers.
use sovranx.Prelude.{
  ℕ, ◌+◌, ◌-◌, ◌<◌, ◌≡◌, sym, ap, ap₂, ◌∙◌, subst, Bool, true, false, List, [], ◌∷◌, ◌++◌,
  append-nil, ok, length, length-append, take, length-take, arith,
}
use sovranx.Speculative.Decoder.{Config, Calls, Decoder, Flow, Result}
use sovranx.Speculative.Decoder.Bounds.{IsSound, IsEnded, load, round-Progress}
use sovranx.Speculative.Decoder.Greedy.{IsGreedyModel, next, Preferred}
use sovranx.Speculative.Decoder.Greedy.Rounds.{
  InSync, IsPlain, IsFaithful, IsReference, finished-IsReference, deliver-IsPlain, Yielding,
  deliver-Yielding, adapted-IsFaithful, newest_missing,
}
use sovranx.Speculative.Decoder.Greedy.Batch.{
  regroup, rolled_back, yield_of, split_last, verify_loop-Preferred, batch_scores,
}
use sovranx.Speculative.Decoder.Pieces.{
  SyncCase, kept, cut, cut_fails, kv_sync-SyncCase, settle-After, rounds-After,
}
use sovranx.Speculative.Decoder.Rounds.{
  unfinished, deliver, new_tokens, check_vocab, round, rounds, settle,
}
use sovranx.Speculative.Decoder.Steps.{
  After, After-imp, After-both, after_pass, verified, drafted_by_model, check_vocab_lem, RoundCase,
  gives_up, misses, fails, fails_drafted, decodes, verifies, round-RoundCase,
}
use sovranx.Speculative.Verify.{
  Models, Draft, VerificationResult, VerifyError, verify_batch, verify_loop, verify_batch-ok,
  tokens_of, length-tokens_of, IsVerdict,
}

module _ (m : Models) (s : Calls m) (cfg : Config) (max_tokens : ℕ) (prompt : List ℕ)
    (Holds : m.State → List ℕ → Type 0) (scores : List ℕ → m.Logits) (best : m.Probs → ℕ)
    (laws : IsGreedyModel m s Holds scores best) where
  abbrev Faithful : Decoder m → Type 0
  Faithful = IsFaithful m s cfg max_tokens prompt Holds scores best

  abbrev Reference : Flow (VerifyError m.Error) → Decoder m → Type 0
  Reference = IsReference m s cfg max_tokens prompt Holds scores best

  abbrev Synced : List ℕ → Decoder m → Type 0
  Synced = InSync m s cfg max_tokens prompt Holds scores best

  -- Behind the roll-back the cache holds all but the last of the tokens that the round yields.
  synced-Yielding :
      (draft : Draft m) (v : VerificationResult) (r : Decoder m) (x : Result m) (held : List ℕ)
      → SyncCase m s cfg max_tokens (length draft) v r x
      → 0 < length draft
      → IsVerdict m (tokens_of m draft) v.accepted_tokens v.corrected_token
      → r.history ≡ held ++ (r.cur ∷ [])
      → r.base ≡ length held
      → Holds r.target (held ++ (r.cur ∷ take (length (tokens_of m draft) - 1) (tokens_of m draft)))
      → IsPlain m s cfg max_tokens prompt Holds scores best r
      → Preferred m s scores best r.history (new_tokens m s cfg max_tokens v)
      → unfinished m s cfg max_tokens r ≡ true
      → After m
          (λ r.
            Yielding m s cfg max_tokens prompt Holds scores best (new_tokens m s cfg max_tokens v) r
            × (unfinished m s cfg max_tokens r ≡ true))
          Reference
          x
  unfolding new_tokens Yielding unfinished
  synced-Yielding draft v r x held (kept none_left) some_draft verdict e position cached h ahead
        more =
      let ds = tokens_of m draft in
      let drafted = length-tokens_of m draft in
      let (last, split) = split_last ds (omega (arith, drafted, some_draft)) in
      let all_taken : v.accepted_tokens ≡ ds =
        subst (IsVerdict m ds v.accepted_tokens) none_left verdict in
      let news : new_tokens m s cfg max_tokens v ≡ v.accepted_tokens =
        ap (yield_of v.accepted_tokens) none_left in
      let size = length-append held (r.cur ∷ take (length ds - 1) ds) in
      let taken = length-take (length ds - 1) ds in
      let sync : Synced (new_tokens m s cfg max_tokens v)
          (record r { base = r.base + length draft }) =
        record {
          held = held ++ (r.cur ∷ take (length ds - 1) ds);
          last = last;
          all_but_last =
              ap₂ (λ xs ys. xs ++ ys) e (news ∙ all_taken ∙ split)
              ∙ regroup held (take (length ds - 1) ds) r.cur last;
          position = omega (arith, position, size, taken, drafted, some_draft);
          cached = cached;
        } in
      ((record { older = h.older; newest = h.newest; follows = h.follows }, ahead, sync), more)
  synced-Yielding draft v r x held (cut t st dst some_left truncated) some_draft verdict e position
        cached h ahead more =
      let ds = tokens_of m draft in
      let kept_tokens = v.accepted_tokens in
      let (front, short) = subst (IsVerdict m ds kept_tokens) some_left verdict in
      let news : new_tokens m s cfg max_tokens v ≡ kept_tokens ++ (t ∷ []) =
        ap (yield_of kept_tokens) some_left in
      let size = length-append held (r.cur ∷ kept_tokens) in
      let keep : r.base + 1 + length kept_tokens ≡ length (held ++ (r.cur ∷ kept_tokens)) =
        omega (arith, position, size) in
      let sync : Synced (new_tokens m s cfg max_tokens v) (record r {
        target = st;
        draft_model = dst;
        base = r.base + 1 + length v.accepted_tokens;
      }) =
        record {
          held = held ++ (r.cur ∷ kept_tokens);
          last = t;
          all_but_last = ap₂ (λ xs ys. xs ++ ys) e news ∙ regroup held kept_tokens r.cur t;
          position = keep;
          cached =
              laws.truncate_holds r.target st (held ++ (r.cur ∷ kept_tokens)) _
                (subst (Holds r.target) (rolled_back held kept_tokens ds r.cur front short) cached)
                (subst (λ n. s.truncate_to n r.target ≡ ok st) keep truncated);
        } in
      ((record { older = h.older; newest = h.newest; follows = h.follows }, ahead, sync), more)
  synced-Yielding draft v r x held (cut_fails err st broken) some_draft verdict e position cached h
        ahead more =
      broken

  kept-IsFaithful :
      (r : Decoder m) (dst : m.State) (g : m.Rng) (active skip : Bool)
      → Faithful r
      → Faithful (record r {
        draft_model = dst;
        sampler_rng = g;
        speculative_active = active;
        lookup_skip = skip;
      })
  unfolding unfinished
  kept-IsFaithful r dst g active skip h = record {
    plainly = record {
      older = h.plainly.older;
      newest = h.plainly.newest;
      follows = h.plainly.follows;
    };
    synced = λ more.
        let sync = h.synced more in
        record {
          held = sync.held;
          last = sync.last;
          all_but_last = sync.all_but_last;
          position = sync.position;
          cached = sync.cached;
        };
  }

  decodes-IsFaithful :
      (r : Decoder m) (d : m.Logits × m.State)
      → m.decode_append (r.cur ∷ []) r.target ≡ ok d
      → Faithful r
      → unfinished m s cfg max_tokens r ≡ true
      → After m Faithful Reference (
          deliver m s cfg max_tokens
            (s.sample d.0 r.history r.sampler_rng).0
            (after_pass m s cfg max_tokens r d))
  unfolding unfinished
  decodes-IsFaithful r d e h more =
      let sync = h.synced more in
      let whole = newest_missing m s cfg max_tokens prompt Holds scores best r h.plainly sync in
      let (after, scored) =
        laws.append_holds r.target d.1 d.0 sync.held (r.cur ∷ []) sync.cached e in
      let t = (s.sample d.0 r.history r.sampler_rng).0 in
      let preferred : t ≡ next m s scores best r.history =
        laws.sample_best d.0 r.history r.sampler_rng
        ∙ ap (λ l. best (m.distribution l r.history)) (scored ∙ ap scores (sym whole)) in
      let size : length r.history ≡ length (sync.held ++ (r.cur ∷ [])) = ap length whole in
      let longer = length-append sync.held (r.cur ∷ []) in
      let position = sync.position in
      deliver-IsPlain m s cfg max_tokens prompt Holds scores best Faithful t
        (after_pass m s cfg max_tokens r d)
        (record { older = h.plainly.older; newest = h.plainly.newest; follows = h.plainly.follows })
        more preferred
        (λ onward. record {
          plainly = onward;
          synced = λ _. record {
            held = r.history;
            last = t;
            all_but_last = append-nil (r.history ++ (t ∷ []));
            position = omega (arith, position, size, longer);
            cached = subst (Holds d.1) (sym whole) after;
          };
        })

  verifies-IsFaithful :
      (r : Decoder m) (draft : Draft m) (v : VerificationResult × m.Rng × m.State)
      → 0 < length draft
      → verify_batch m r.cur draft r.history r.accept_rng r.target ≡ ok v
      → Faithful r
      → unfinished m s cfg max_tokens r ≡ true
      → After m Faithful Reference (
          settle m s cfg max_tokens
            (length draft)
            v.0
            (verified m s cfg max_tokens r (length draft) v))
  unfolding unfinished new_tokens
  verifies-IsFaithful r draft v some_draft e h more =
      let ds = tokens_of m draft in
      let sync = h.synced more in
      let whole = newest_missing m s cfg max_tokens prompt Holds scores best r h.plainly sync in
      let (logits, decoded, accepted, corrected, verdict, total) =
        verify_batch-ok m r.cur draft r.history r.accept_rng r.target v some_draft e in
      let drafted = length-tokens_of m draft in
      let batch =
        subst (λ n. m.decode_batch (r.cur ∷ take (n - 1) ds) r.target ≡ ok (logits, v.2))
          (sym drafted) decoded in
      let (after, scored) =
        batch_scores m s Holds scores best laws sync.held r.cur ds r.target v.2 logits
          (omega (arith, drafted, some_draft)) sync.cached batch in
      let loop = verify_loop m logits 0 draft r.history r.accept_rng in
      let ahead =
        verify_loop-Preferred m s Holds scores best laws logits 0 draft r.history r.accept_rng
          (λ j less.
            ap logits (omega arith)
            ∙ scored j (omega (arith, drafted, less))
            ∙ ap (λ xs. scores (xs ++ take j ds)) (sym whole)) in
      let news =
        subst (λ ts. Preferred m s scores best r.history (yield_of ts v.0.corrected_token))
          (sym accepted)
          (subst (λ c. Preferred m s scores best r.history (yield_of loop.0 c)) (sym corrected)
            ahead) in
      let r' = verified m s cfg max_tokens r (length draft) v in
      settle-After m s cfg max_tokens (Yielding m s cfg max_tokens prompt Holds scores best)
        Faithful Reference (length draft) v.0 r'
        (synced-Yielding draft v.0 r' _ sync.held
          (kv_sync-SyncCase m s cfg max_tokens (length draft) v.0 r') some_draft verdict whole
          sync.position after
          (record {
            older = h.plainly.older;
            newest = h.plainly.newest;
            follows = h.plainly.follows;
          })
          news more)
        (deliver-Yielding m s cfg max_tokens prompt Holds scores best)
        (adapted-IsFaithful m s cfg max_tokens prompt Holds scores best (length draft) v.0)

  case-IsFaithful :
      (r : Decoder m) (x : Result m)
      → RoundCase m s cfg max_tokens r x
      → Faithful r
      → unfinished m s cfg max_tokens r ≡ true
      → After m Faithful Reference x
  unfolding unfinished
  case-IsFaithful r x (gives_up g st active) h more = kept-IsFaithful r st g false r.lookup_skip h
  case-IsFaithful r x (misses armed) h more =
      kept-IsFaithful r r.draft_model r.sampler_rng r.speculative_active true h
  case-IsFaithful r x (fails e skip broken) h more = broken
  case-IsFaithful r x (fails_drafted e g st broken) h more = broken
  case-IsFaithful r x (decodes d e) h more = decodes-IsFaithful r d e h more
  case-IsFaithful r x (verifies draft g st v some_draft e) h more =
      verifies-IsFaithful (drafted_by_model m s cfg max_tokens r g st) draft v some_draft e
        (kept-IsFaithful r st g r.speculative_active r.lookup_skip h) more

  -- A round keeps the invariant, and one that returns has delivered what plain decoding delivers.
  pub round-IsFaithful :
      (r : Decoder m)
      → Faithful r
      → unfinished m s cfg max_tokens r ≡ true
      → After m Faithful Reference (round m s cfg max_tokens r)
  unfolding unfinished
  round-IsFaithful r h more =
      let Ready : Decoder m → Type 0 =
        λ r'. Faithful r' × (unfinished m s cfg max_tokens r' ≡ true) in
      let off = kept-IsFaithful r r.draft_model r.sampler_rng false r.lookup_skip h in
      let (h', more') = check_vocab_lem m s cfg max_tokens Ready r (h, more) (off, more) in
      case-IsFaithful (check_vocab m s cfg max_tokens r) (round m s cfg max_tokens r)
        (round-RoundCase m s cfg max_tokens r) h' more'

  -- The rounds end before the fuel does, and what is delivered then is what plain decoding delivers.
  pub rounds-IsReference :
      (fuel : ℕ) (r : Decoder m)
      → load m s cfg max_tokens prompt r < fuel
      → IsSound m s cfg max_tokens prompt r
      → Faithful r
      → After m (λ r. ⊥) Reference (rounds m s cfg max_tokens fuel r)
  rounds-IsReference fuel r enough sound faithful =
      let Sound = IsSound m s cfg max_tokens prompt in
      let Ended = IsEnded m s cfg max_tokens prompt in
      let todo = load m s cfg max_tokens prompt in
      let step : (r : Decoder m)
          → Sound r × Faithful r
          → unfinished m s cfg max_tokens r ≡ true
          → After m (λ next. (Sound next × Faithful next) × (todo next < todo r)) Reference
              (round m s cfg max_tokens r) =
        λ r (h, k) more.
          After-imp m (λ next. (Sound next × (todo next < todo r)) × Faithful next)
            (λ next. (Sound next × Faithful next) × (todo next < todo r))
            (λ flow r. Ended flow r × Reference flow r) Reference (round m s cfg max_tokens r)
            (After-both m (λ next. Sound next × (todo next < todo r)) Faithful Ended Reference
              (round m s cfg max_tokens r) (round-Progress m s cfg max_tokens prompt r h more)
              (round-IsFaithful r k more))
            (λ next ((sound, less), k). ((sound, k), less)) (λ flow r (ended, k). k) in
      rounds-After m s cfg max_tokens (λ r. Sound r × Faithful r) Reference todo step
        (λ r (h, k) full. finished-IsReference m s cfg max_tokens prompt Holds scores best r k full)
        fuel r enough (sound, faithful)
