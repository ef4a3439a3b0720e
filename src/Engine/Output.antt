-- ===== src/Engine/Output.antt =====
-- What a generation of src/core/engine.cpp leaves: the pieces delivered, the context's tokens, and the
-- backend's cache.
use sovranx.Backend.{Backend, IsBackend}
use sovranx.Cache.Prefix.{Snapshots, decode_failed}
use sovranx.Cache.Prefix.Prefill.{IsSnapshots, prefill-Prefilled}
use sovranx.Engine.{GenerationConfig}
use sovranx.Engine.Stream.{
  Calls, Engine, EngineError, failed, Run, produce, prefill_cached, prefill_prompt, check_tokens,
  failing, generate_tokens, generate_stream_impl,
}
use sovranx.Prelude.{
  ℕ, zero, suc, ◌+◌, ◌-◌, ◌^◌, ◌≤◌, ◌<◌, ◌≡◌, refl, sym, ap, ◌∙◌, subst, max, ◌⊎◌, inl, inr, Bool,
  true, false, Bool-cases, not, ◌&&◌, List, [], ◌∷◌, ◌++◌, append-nil, append_assoc, map, All,
  Option, none, some, Bytes, Outcome, ok, throw, Outcome-cases, ok-injective, length, length-append,
  length-take, take, take-append-get_or, get_or, leb, ltb, ◌==◌, if◌then◌else◌, arith,
}

module _ (b : Backend) (Holds : b.State → List ℕ → Type 0) (s : Calls b) (snaps : Snapshots b) where
  -- What the documentation says of a pass over a fresh sequence.
  pub record IsDecode : Type 0 where
    pub decode_holds :
        (st st' : b.State) (l : b.Logits) (ts : List ℕ)
        → s.decode ts st ≡ ok (l, st')
        → Holds st' ts

  -- The callback wants more behind each of the pieces of these tokens.
  abbrev pub Wanted : List Bytes → List ℕ → Type 0
  Wanted pieces [] = Unit
  Wanted pieces (t ∷ ts) =
      (s.callback (pieces ++ (s.token_piece t ∷ [])) ≡ true)
      × Wanted (pieces ++ (s.token_piece t ∷ [])) ts

  -- Tokens that were made behind these, at most so many, and the pieces for them: the context has grown
  -- by them, none ends generation, and the cache holds the context, or all of it but the last token.
  pub record IsMade (tokens : List ℕ) (pieces : List Bytes) (most : ℕ) (r : Run b s snaps)
      : Type 0 where
    pub made : List ℕ
    pub grown : r.tokens ≡ tokens ++ made
    pub few : length made ≤ most
    pub fits : length r.tokens ≤ max s.context_length (suc (length tokens))
    pub spoken : All (λ t. s.is_eog t ≡ false) made
    pub wanted : Wanted pieces made
    -- The last piece may be one that the callback refused.
    pub told :
        (r.pieces ≡ pieces ++ map s.token_piece made)
        ⊎ ((t : ℕ) × (r.pieces ≡ pieces ++ map s.token_piece (made ++ (t ∷ [])))
            × (s.is_eog t ≡ false)
            × (s.callback r.pieces ≡ false))
    pub cached :
        Holds r.state r.tokens
        ⊎ ((older : List ℕ) × (t : ℕ) × (r.tokens ≡ older ++ (t ∷ [])) × Holds r.state older)

  -- One token before what follows.
  IsMade-cons :
      (t : ℕ) (tokens : List ℕ) (pieces : List Bytes) (most : ℕ) (r : Run b s snaps)
      → s.is_eog t ≡ false
      → s.callback (pieces ++ (s.token_piece t ∷ [])) ≡ true
      → suc (length tokens) < s.context_length
      → IsMade (tokens ++ (t ∷ [])) (pieces ++ (s.token_piece t ∷ [])) most r
      → IsMade tokens pieces (suc most) r
  IsMade-cons t tokens pieces most r said agreed room h = record {
    made = t ∷ h.made;
    grown = h.grown ∙ append_assoc tokens (t ∷ []) h.made;
    few = let l = h.few in omega (arith, l);
    fits =
        let l = h.fits in let size = length-append tokens (t ∷ []) in omega (arith, l, size, room);
    spoken = (said, h.spoken);
    wanted = (agreed, h.wanted);
    told = elim h.told [
      | inl e ↦ inl (e ∙ append_assoc pieces (s.token_piece t ∷ []) (map s.token_piece h.made))
      | inr (u, e, k, refused) ↦ inr (
        u,
        e ∙ append_assoc pieces (s.token_piece t ∷ []) (map s.token_piece (h.made ++ (u ∷ []))),
        k,
        refused,
      )
    ];
    cached = h.cached;
  }

  module _ (laws : IsBackend b Holds) where
    -- The end of the loop without another token, whether or not a piece was refused.
    none-IsMade :
        (most next : ℕ) (r : Run b s snaps) (rng : s.Rng) (pieces : List Bytes)
        → Holds r.state r.tokens
        → (pieces ≡ r.pieces)
          ⊎ ((s.is_eog next ≡ false)
              × (pieces ≡ r.pieces ++ (s.token_piece next ∷ []))
              × (s.callback pieces ≡ false))
        → IsMade r.tokens r.pieces most (record r { rng = rng; pieces = pieces })
    none-IsMade most next r rng pieces held told = record {
      made = [];
      grown = sym (append-nil r.tokens);
      few = omega arith;
      fits = omega arith;
      spoken = tt;
      wanted = tt;
      told = elim told [
        | inl e ↦ inl (e ∙ sym (append-nil r.pieces))
        | inr (said, e, refused) ↦ inr (next, e, said, refused)
      ];
      cached = inl held;
    }

    -- The end of the loop with a token that was not decoded.
    one-IsMade :
        (most next : ℕ) (r : Run b s snaps) (rng : s.Rng)
        → Holds r.state r.tokens
        → s.is_eog next ≡ false
        → s.callback (r.pieces ++ (s.token_piece next ∷ [])) ≡ true
        → IsMade r.tokens r.pieces (suc most) (record r {
          rng = rng;
          pieces = r.pieces ++ (s.token_piece next ∷ []);
          tokens = r.tokens ++ (next ∷ []);
        })
    one-IsMade most next r rng held said agreed = record {
      made = next ∷ [];
      grown = refl;
      few = omega arith;
      fits = let size = length-append r.tokens (next ∷ []) in omega (arith, size);
      spoken = (said, tt);
      wanted = (agreed, tt);
      told = inl refl;
      cached = inr (r.tokens, next, refl, held);
    }

    produce-IsMade :
        (g : GenerationConfig) (more : ℕ) (logits : b.Logits) (r r' : Run b s snaps)
        → Holds r.state r.tokens
        → produce b s snaps g more logits r ≡ ok r'
        → IsMade r.tokens r.pieces more r'
    unfolding produce
    produce-IsMade g zero logits r r' held e =
        subst (IsMade r.tokens r.pieces 0) (ok-injective r r' e)
          (none-IsMade 0 0 r r.rng r.pieces held (inl refl))
    produce-IsMade g (suc more) logits r r' held e =
        choose (s.is_eog next) (s.callback pieces) (leb s.context_length (length pushed.tokens))
          (more == 0) (b.decode_append (next ∷ []) r.state)
          (λ d room said agreed decoded ran.
            IsMade-cons next r.tokens r.pieces more r' said agreed room (
              produce-IsMade g more d.0 (record pushed { state = d.1 }) r'
                (laws.append_holds r.state d.1 d.0 r.tokens (next ∷ []) held decoded) ran))
          refl refl refl refl e
      where
        next : ℕ
        next = (s.sample g logits r.tokens r.rng).0

        rng : s.Rng
        rng = (s.sample g logits r.tokens r.rng).1

        pieces : List Bytes
        pieces = r.pieces ++ (s.token_piece next ∷ [])

        pushed : Run b s snaps
        pushed = record {
          tokens = r.tokens ++ (next ∷ []);
          state = r.state;
          rng = rng;
          pieces = pieces;
        }

        choose :
            (eog go_on full spent : Bool) (o : Outcome b.Error (b.Logits × b.State))
            → ((d : b.Logits × b.State)
                → suc (length r.tokens) < s.context_length
                → s.is_eog next ≡ false
                → s.callback pieces ≡ true
                → b.decode_append (next ∷ []) r.state ≡ ok d
                → produce b s snaps g more d.0 (record pushed { state = d.1 }) ≡ ok r'
                → IsMade r.tokens r.pieces (suc more) r')
            → s.is_eog next ≡ eog
            → s.callback pieces ≡ go_on
            → leb s.context_length (length pushed.tokens) ≡ full
            → b.decode_append (next ∷ []) r.state ≡ o
            → (let x : Outcome (EngineError b.Error) (Run b s snaps) =
                  if eog
                  then ok (record r { rng = rng })
                  else if not go_on
                  then ok (record r { rng = rng; pieces = pieces })
                  else if full
                  then ok pushed
                  else if spent
                  then ok pushed
                  else (elim o [
                    | throw err ↦ throw (failed (decode_failed err))
                    | ok d ↦ produce b s snaps g more d.0 (record pushed { state = d.1 })
                  ]) in
                x)
              ≡ ok r'
            → IsMade r.tokens r.pieces (suc more) r'
        choose true go_on full spent o ih a w c d h =
            subst (IsMade r.tokens r.pieces (suc more)) (ok-injective _ r' h)
              (none-IsMade (suc more) next r rng r.pieces held (inl refl))
        choose false false full spent o ih a w c d h =
            subst (IsMade r.tokens r.pieces (suc more)) (ok-injective _ r' h)
              (none-IsMade (suc more) next r rng pieces held (inr (a, refl, w)))
        choose false true true spent o ih a w c d h =
            subst (IsMade r.tokens r.pieces (suc more)) (ok-injective _ r' h)
              (one-IsMade more next r rng held a w)
        choose false true false true o ih a w c d h =
            subst (IsMade r.tokens r.pieces (suc more)) (ok-injective _ r' h)
              (one-IsMade more next r rng held a w)
        choose false true false false (throw err) ih a w c d h = absurd (ground arith)
        choose false true false false (ok l) ih a w c d h =
            let size = length-append r.tokens (next ∷ []) in ih l (ground (arith, size)) a w d h

  module _ (laws : IsBackend b Holds) (fresh : IsDecode) (tag : Bytes)
      (good : IsSnapshots b Holds snaps tag) where
    -- A cache that is good for a prompt but its last token is none, or one whose snapshots are.
    abbrev pub IsGood : List ℕ → Option snaps.Cache → Type 0
    IsGood tokens none = Unit
    IsGood tokens (some c) = good.Good (take (length tokens - 1) tokens) c

    prefill_cached-Holds :
        (block : ℕ) (tokens : List ℕ) (c : snaps.Cache) (st : b.State)
        (filled : b.Logits × b.State × Option snaps.Cache)
        → 0 < block
        → length tokens + block ≤ 2 ^ 32
        → 0 < length tokens
        → good.Good (take (length tokens - 1) tokens) c
        → prefill_cached b s snaps tag block tokens c st ≡ ok filled
        → Holds filled.1 tokens
    unfolding prefill_cached
    prefill_cached-Holds block tokens c st filled p w some_tokens h e =
        let front = take (length tokens - 1) tokens in
        let last = get_or tokens (length tokens - 1) 0 in
        let size = length-take (length tokens - 1) tokens in
        elim (prefill-Prefilled b Holds laws snaps tag good block front c st p
          (omega (arith, size, w)) h) [
            | inr (err, threw) ↦ absurd (let k = rw (prefill_cached, threw) at e in ground arith)
            | inl (restored, c', st', ran, small, held, k) ↦
                elim (Outcome-cases (b.decode_append (last ∷ []) st')) [
                  | inr (err, threw) ↦
                      absurd (let k = rw (prefill_cached, ran, threw) at e in ground arith)
                  | inl (d, decoded) ↦
                      let k : ok (d.0, d.1, some c') ≡ ok filled =
                        rw (prefill_cached, ran, decoded) at e in
                      let same = ok-injective (d.0, d.1, some c') filled k in
                      let after = laws.append_holds st' d.1 d.0 front (last ∷ []) held decoded in
                      subst (λ x. Holds x.1 tokens) same
                        (subst (Holds d.1) (take-append-get_or tokens 0 some_tokens) after)
                ]
          ]

    prefill_prompt-Holds :
        (block : ℕ) (tokens : List ℕ) (c : Option snaps.Cache) (st : b.State)
        (filled : b.Logits × b.State × Option snaps.Cache)
        → 0 < block
        → length tokens + block ≤ 2 ^ 32
        → 0 < length tokens
        → IsGood tokens c
        → prefill_prompt b s snaps tag block tokens c st ≡ ok filled
        → Holds filled.1 tokens
    unfolding prefill_prompt
    prefill_prompt-Holds block tokens (some c) st filled p w some_tokens h e =
        prefill_cached-Holds block tokens c st filled p w some_tokens h e
    prefill_prompt-Holds block tokens none st filled p w some_tokens h e =
        elim (Outcome-cases (s.decode tokens st)) [
          | inr (err, threw) ↦ absurd (let k = rw (prefill_prompt, threw) at e in ground arith)
          | inl (d, decoded) ↦
              let k : ok (d.0, d.1, none) ≡ ok filled = rw (prefill_prompt, decoded) at e in
              subst (λ x. Holds x.1 tokens) (ok-injective (d.0, d.1, none) filled k)
                (fresh.decode_holds st d.1 d.0 tokens decoded)
        ]

    generate_tokens-IsMade :
        (g : GenerationConfig) (block : ℕ) (tokens : List ℕ) (pieces told : List Bytes)
        (e e' : Engine b snaps)
        → 0 < block
        → length tokens + block ≤ 2 ^ 32
        → 0 < length tokens
        → IsGood tokens e.cache
        → generate_tokens b s snaps tag block g tokens pieces e ≡ ok (told, e')
        → (rng : s.Rng) × IsMade tokens pieces g.max_tokens
            (record { tokens = e'.context_tokens; state = e'.backend; rng = rng; pieces = told })
    unfolding generate_tokens
    generate_tokens-IsMade g block tokens pieces told e e' p w some_tokens h ran =
        elim (Outcome-cases (prefill_prompt b s snaps tag block tokens e.cache e.backend)) [
          | inr (err, threw) ↦ absurd (let k = rw (generate_tokens, threw) at ran in ground arith)
          | inl (filled, prefilled) ↦
              let start : Run b s snaps = record {
                tokens = tokens;
                state = filled.1;
                rng = s.seeded g.seed;
                pieces = pieces;
              } in
              let held =
                prefill_prompt-Holds block tokens e.cache e.backend filled p w some_tokens h
                  prefilled in
              elim (Outcome-cases (produce b s snaps g g.max_tokens filled.0 start)) [
                | inr (err, threw) ↦
                    absurd (let k = rw (generate_tokens, prefilled, threw) at ran in ground arith)
                | inl (r, produced) ↦
                    let made = produce-IsMade laws g g.max_tokens filled.0 start r held produced in
                    let k : ok (
                      r.pieces,
                      record e { backend = r.state; cache = filled.2; context_tokens = r.tokens },
                    )
                        ≡ ok (told, e') =
                      rw (generate_tokens, prefilled, produced) at ran in
                    (
                      r.rng,
                      subst
                          (λ (x : List Bytes × Engine b snaps).
                            IsMade tokens pieces g.max_tokens (record {
                              tokens = x.1.context_tokens;
                              state = x.1.backend;
                              rng = r.rng;
                              pieces = x.0;
                            }))
                          (ok-injective _ (told, e') k) made,
                    )
              ]
        ]

    -- A generation that ends without an exception has delivered the echo, if it is asked for, and behind
    -- it the pieces of at most max_tokens tokens, none of which ends generation and behind each of which
    -- the callback wants more, and at last perhaps one that it refuses; the context's tokens are the prompt's and those, they outgrow the context length
    -- by at most one token, and the backend's cache holds them, or all but the last of them. Or it has
    -- delivered the echo, which the callback refuses. The cache of snapshots is good for the
    -- prompt if there is one, the block is
    -- not 0, and prompt and block together fit 32-bit positions.
    pub generate_stream_impl-IsMade :
        (g : GenerationConfig) (block : ℕ) (prompt : Bytes) (tokens : List ℕ) (told : List Bytes)
        (e e' : Engine b snaps)
        → 0 < block
        → length tokens + block ≤ 2 ^ 32
        → IsGood tokens e.cache
        → s.tokenize prompt ≡ ok tokens
        → generate_stream_impl b s snaps tag block g prompt e ≡ ok (told, e')
        → (((told ≡ prompt ∷ []) × (g.echo_prompt ≡ true) × (s.callback told ≡ false)) × (e' ≡ e))
          ⊎ ((rng : s.Rng) × IsMade tokens
                (if g.echo_prompt then prompt ∷ [] else [])
                g.max_tokens
                (record {
                  tokens = e'.context_tokens;
                  state = e'.backend;
                  rng = rng;
                  pieces = told;
                }))
    unfolding generate_stream_impl check_tokens failing
    generate_stream_impl-IsMade g block prompt tokens told e e' p w h split ran =
        elim (Bool-cases (length tokens == 0)) [
          | inl empty ↦ absurd (
              let k = rw (generate_stream_impl, split, failing, check_tokens, empty) at ran in
              ground arith)
          | inr some_tokens ↦ elim (Bool-cases (ltb s.context_length (length tokens))) [
            | inl long ↦ absurd (
                let k =
                  rw (generate_stream_impl, split, failing, check_tokens, some_tokens, long) at
                    ran in
                ground arith)
            | inr fits ↦
                choose g.echo_prompt (s.callback (prompt ∷ [])) refl (ground arith) (
                  rw (generate_stream_impl, split, failing, check_tokens, some_tokens, fits) at ran)
          ]
        ]
      where
        choose :
            (echo more : Bool)
            → s.callback (prompt ∷ []) ≡ more
            → 0 < length tokens
            → (if echo && not more
                then ok (prompt ∷ [], e)
                else generate_tokens b s snaps tag block g tokens
                    (if echo then prompt ∷ [] else [])
                    e)
              ≡ ok (told, e')
            → (((told ≡ prompt ∷ []) × (echo ≡ true) × (s.callback told ≡ false)) × (e' ≡ e))
              ⊎ ((rng : s.Rng) × IsMade tokens
                    (if echo then prompt ∷ [] else [])
                    g.max_tokens
                    (record {
                      tokens = e'.context_tokens;
                      state = e'.backend;
                      rng = rng;
                      pieces = told;
                    }))
        choose true false refused some_tokens k =
            let same = ok-injective (prompt ∷ [], e) (told, e') k in
            inl (
              (
                sym (ap (λ x. x.0) same),
                refl,
                subst (λ x. s.callback x ≡ false) (ap (λ x. x.0) same) refused,
              ),
              sym (ap (λ x. x.1) same),
            )
        choose true true agreed some_tokens k =
            inr (generate_tokens-IsMade g block tokens (prompt ∷ []) told e e' p w some_tokens h k)
        choose false more agreed some_tokens k =
            inr (generate_tokens-IsMade g block tokens [] told e e' p w some_tokens h k)
