-- ===== src/Speculative/Decoder/Greedy/Rounds.antt =====
-- The rounds under greedy sampling: they deliver what plain decoding delivers, and the target's cache
-- holds the history but its newest token.
use sovranx.Prelude.{
  ℕ, zero, suc, ◌-◌, ◌≤◌, ◌<◌, ◌≡◌, refl, sym, ap, ◌∙◌, ◌⊎◌, inl, inr, Bool, true, false,
  Bool-cases, not, List, [], ◌∷◌, ◌++◌, append-nil, append_assoc, length, length-append, ltb, leb,
  if◌then◌else◌, arith,
}
use sovranx.Speculative.Decoder.{Config, Calls, Decoder, Flow, going, returned, raised, starved}
use sovranx.Speculative.Decoder.Greedy.{next, plain, Preferred}
use sovranx.Speculative.Decoder.Pieces.{pushed, deliver-After, adapted}
use sovranx.Speculative.Decoder.Rounds.{unfinished, deliver}
use sovranx.Speculative.Decoder.Steps.{After, Throws}
use sovranx.Speculative.Verify.{Models, VerificationResult, VerifyError, empty_draft, decode_failed}

-- A list ends in one way.
snoc-injective : (xs ys : List ℕ) (x y : ℕ) → xs ++ (x ∷ []) ≡ ys ++ (y ∷ []) → (xs ≡ ys) × (x ≡ y)
snoc-injective [] [] x y e = (refl, cc)
snoc-injective [] (b ∷ ys) x y e =
    let size : 1 ≡ suc (length (ys ++ (y ∷ []))) = ap length e in
    let more = length-append ys (y ∷ []) in absurd (omega (arith, size, more))
snoc-injective (a ∷ xs) [] x y e =
    let size : suc (length (xs ++ (x ∷ []))) ≡ 1 = ap length e in
    let more = length-append xs (x ∷ []) in absurd (omega (arith, size, more))
snoc-injective (a ∷ xs) (b ∷ ys) x y e =
    let front : a ≡ b = cc in
    let back : xs ++ (x ∷ []) ≡ ys ++ (y ∷ []) = cc in
    let (same, last) = snoc-injective xs ys x y back in (cc, last)

module _ (m : Models) (s : Calls m) (cfg : Config) (max_tokens : ℕ) (prompt : List ℕ)
    (Holds : m.State → List ℕ → Type 0) (scores : List ℕ → m.Logits) (best : m.Probs → ℕ) where
  -- What the cache of the target holds when these tokens are still to be delivered: they and the history
  -- but the last token.
  pub record InSync (ts : List ℕ) (r : Decoder m) : Type 0 where
    pub held : List ℕ
    pub last : ℕ
    pub all_but_last : r.history ++ ts ≡ held ++ (last ∷ [])
    pub position : r.base ≡ length held
    pub cached : Holds r.target held

  -- The history ends in the newest token, and what is delivered goes on as plain decoding would.
  pub record IsPlain (r : Decoder m) : Type 0 where
    pub older : List ℕ
    pub newest : r.history ≡ older ++ (r.cur ∷ [])
    pub follows :
        plain m s scores best (max_tokens - r.emitted) r.history r.delivered
        ≡ plain m s scores best max_tokens prompt []

  -- The invariant of the rounds.
  pub record IsFaithful (r : Decoder m) : Type 0 where
    pub plainly : IsPlain r
    pub synced : unfinished m s cfg max_tokens r ≡ true → InSync [] r

  -- A call that returns has delivered what plain decoding delivers, and one that throws passes on
  -- what a call of the backend threw.
  abbrev pub IsReference : Flow (VerifyError m.Error) → Decoder m → Type 0
  IsReference going r = ⊥
  IsReference returned r = r.delivered ≡ plain m s scores best max_tokens prompt []
  IsReference (raised (decode_failed e)) r = Throws m s e
  IsReference (raised empty_draft) r = ⊥
  IsReference starved r = ⊥

  plain-full :
      (n : ℕ) (history out : List ℕ)
      → (n ≡ 0) ⊎ (s.context_length ≤ length history)
      → plain m s scores best n history out ≡ out
  unfolding plain
  plain-full zero history out full = refl
  plain-full (suc n) history out (inl e) = absurd (omega arith)
  plain-full (suc n) history out (inr h) =
      let full : leb s.context_length (length history) ≡ true = ground arith in rw full refl

  pub finished-IsReference :
      (r : Decoder m)
      → IsFaithful r
      → unfinished m s cfg max_tokens r ≡ false
      → IsReference returned r
  unfolding unfinished
  finished-IsReference r h full =
      sym (plain-full (max_tokens - r.emitted) r.history r.delivered full_up) ∙ h.plainly.follows
    where
      full_up : (max_tokens - r.emitted ≡ 0) ⊎ (s.context_length ≤ length r.history)
      full_up = elim (Bool-cases (ltb r.emitted max_tokens)) [
        | inl below ↦ inr (ground arith)
        | inr done ↦ inl (ground arith)
      ]

  -- One token of the reference.
  plain-step :
      (r : Decoder m) (t : ℕ)
      → unfinished m s cfg max_tokens r ≡ true
      → t ≡ next m s scores best r.history
      → plain m s scores best (max_tokens - r.emitted) r.history r.delivered ≡ (
          if s.is_eog t
          then r.delivered
          else if not (s.callback (r.delivered ++ (t ∷ [])))
          then r.delivered ++ (t ∷ [])
          else plain m s scores best
              (max_tokens - suc r.emitted)
              (r.history ++ (t ∷ []))
              (r.delivered ++ (t ∷ [])))
  unfolding plain unfinished
  plain-step r t more e =
      let below : r.emitted < max_tokens = ground arith in
      let room : leb s.context_length (length r.history) ≡ false = ground arith in
      let one_more : max_tokens - r.emitted ≡ suc (max_tokens - suc r.emitted) =
        omega (arith, below) in
      rw (one_more, e, room) refl

  pub deliver-IsPlain :
      (G : Decoder m → Type 0) (t : ℕ) (r : Decoder m)
      → IsPlain r
      → unfinished m s cfg max_tokens r ≡ true
      → t ≡ next m s scores best r.history
      → (IsPlain (pushed m s cfg max_tokens t r) → G (pushed m s cfg max_tokens t r))
      → After m G IsReference (deliver m s cfg max_tokens t r)
  deliver-IsPlain G t r h more e onward =
      let step = plain-step r t more e in
      deliver-After m s cfg max_tokens G IsReference t r
        (λ eog. (let k = rw eog at step in sym k) ∙ h.follows)
        (λ said refused. (let k = rw (said, refused) at step in sym k) ∙ h.follows)
        (λ said taken. onward (record {
          older = r.history;
          newest = refl;
          follows = (let k = rw (said, taken) at step in sym k) ∙ h.follows;
        }))

  -- Between the tokens of a round.
  unfoldable pub Yielding : List ℕ → Decoder m → Type 0
  Yielding ts r = IsPlain r × Preferred m s scores best r.history ts × InSync ts r

  pub deliver-Yielding :
      (t : ℕ) (ts : List ℕ) (r : Decoder m)
      → Yielding (t ∷ ts) r
      → unfinished m s cfg max_tokens r ≡ true
      → After m (Yielding ts) IsReference (deliver m s cfg max_tokens t r)
  unfolding Yielding
  deliver-Yielding t ts r (h, (here, ahead), sync) more =
      deliver-IsPlain (Yielding ts) t r h more here (λ next. (
        next,
        ahead,
        record {
          held = sync.held;
          last = sync.last;
          all_but_last = append_assoc r.history (t ∷ []) ts ∙ sync.all_but_last;
          position = sync.position;
          cached = sync.cached;
        },
      ))

  pub adapted-IsFaithful :
      (drafted : ℕ) (v : VerificationResult) (ts : List ℕ) (r : Decoder m) (active : Bool)
      → Yielding ts r
      → (ts ≡ []) ⊎ (unfinished m s cfg max_tokens r ≡ false)
      → (active ≡ r.speculative_active) ⊎ (active ≡ false)
      → IsFaithful (adapted m s cfg max_tokens (length v.accepted_tokens) drafted active r)
  unfolding Yielding unfinished
  adapted-IsFaithful drafted v ts r active (h, ahead, sync) stop change = record {
    plainly = record { older = h.older; newest = h.newest; follows = h.follows };
    synced = λ more. record {
      held = sync.held;
      last = sync.last;
      all_but_last = elim stop [
        | inl none_left ↦ ap (λ ts. r.history ++ ts) (sym none_left) ∙ sync.all_but_last
        | inr full ↦ absurd (let e = sym more ∙ full in ground arith)
      ];
      position = sync.position;
      cached = sync.cached;
    };
  }

  -- In sync, the cache holds all before the newest token.
  pub newest_missing :
      (r : Decoder m) (h : IsPlain r) (sync : InSync [] r) → (r.history ≡ sync.held ++ (r.cur ∷ []))
  newest_missing r h sync =
      let (same, last) =
        snoc-injective h.older sync.held r.cur sync.last
          (sym h.newest ∙ sym (append-nil r.history) ∙ sync.all_but_last) in
      h.newest ∙ ap (λ xs. xs ++ (r.cur ∷ [])) same
