-- ===== src/Engine/Sessions.antt =====
-- Sessions, src/core/engine.cpp: named snapshots of the context's tokens.
use sovranx.Backend.{Backend}
use sovranx.Cache.Manager.{make_key}
use sovranx.Cache.Prefix.{Snapshots, cache_failed, decode_failed, prefill}
use sovranx.Decimal.{to_string, value}
use sovranx.Decimal.RoundTrip.{value-to_string}
use sovranx.Dict.{lookup, insert, erase, lookup-insert_self, Every, insert-Every, lookup-Every}
use sovranx.Engine.Stream.{
  Calls, Engine, EngineError, unknown_session, failed, failing, check_tokens,
}
use sovranx.Prelude.{
  ℕ, ◌+◌, ◌%◌, ◌^◌, ◌<◌, ◌≡◌, refl, sym, ap, ◌∙◌, subst, false, inl, inr, List, [], ◌∷◌, ◌++◌,
  Option, none, some, Option-cases, Bytes, codes, Outcome, ok, throw, Outcome-cases, ok-injective,
  length, drop, ◌==◌, if◌then◌else◌, arith,
}

abbrev pub session_id : ℕ → Bytes
session_id n = codes "sess-" ++ to_string n

unfoldable pub session_cache_key : Bytes → Bytes → List ℕ → Bytes
session_cache_key tag id tokens = make_key (tag ++ (codes "/session/" ++ id)) tokens

-- std::map::emplace: nothing where the key is there.
unfoldable pub emplace : Bytes → List ℕ → List (Bytes × List ℕ) → List (Bytes × List ℕ)
emplace id tokens sessions = elim (lookup id sessions) [
  | none ↦ insert id tokens sessions
  | some old ↦ sessions
]

session_id-injective : (m n : ℕ) → session_id m ≡ session_id n → m ≡ n
session_id-injective m n e =
    let digits : to_string m ≡ to_string n = ap (drop 5) e in
    sym (value-to_string m) ∙ ap (value 0) digits ∙ value-to_string n

-- The ids given out below a number.
abbrev pub NumberedBelow : ℕ → List (Bytes × List ℕ) → Type 0
NumberedBelow n sessions = Every (λ id tokens. (k : ℕ) × (k < n) × (id ≡ session_id k)) sessions

NumberedBelow-suc :
    (n : ℕ) (sessions : List (Bytes × List ℕ))
    → NumberedBelow n sessions
    → NumberedBelow (n + 1) sessions
NumberedBelow-suc n [] h = tt
NumberedBelow-suc n ((id, tokens) ∷ sessions) ((k, less, e), h) =
    ((k, omega (arith, less), e), NumberedBelow-suc n sessions h)

module _ (b : Backend) (s : Calls b) (snaps : Snapshots b) (tag : Bytes) (block : ℕ) where
  unfoldable pub create_session : Engine b snaps → Bytes × Engine b snaps
  create_session e =
      let id = session_id e.next_session_id in
      (
        id,
        record e {
          sessions = emplace id [] e.sessions;
          next_session_id = (e.next_session_id + 1) % 2 ^ 64;
        },
      )

  -- The snapshot on disk, where there is a cache and something to keep.
  unfoldable pub store_session :
      Bytes
      → List ℕ
      → b.State
      → Option snaps.Cache
      → Outcome (EngineError b.Error) (Option snaps.Cache)
  store_session id tokens st none = ok none
  store_session id tokens st (some c) =
      if length tokens == 0
      then ok (some c)
      else (elim (snaps.save (session_cache_key tag id tokens) st (length tokens) c) [
        | throw err ↦ throw (failed (cache_failed err))
        | ok saved ↦ ok (some saved.1)
      ])

  unfoldable pub save_session :
      Bytes → Engine b snaps → Outcome (EngineError b.Error) (Engine b snaps)
  save_session id e = elim (lookup id e.sessions) [
    | none ↦ throw (unknown_session id)
    | some old ↦ elim (store_session id e.context_tokens e.backend e.cache) [
      | throw err ↦ throw err
      | ok c ↦ ok (record e { sessions = insert id e.context_tokens e.sessions; cache = c })
    ]
  ]

  unfoldable pub decode_again :
      List ℕ
      → Option snaps.Cache
      → b.State
      → Outcome (EngineError b.Error) (Option snaps.Cache × b.State)
  decode_again tokens c st = elim (s.decode tokens st) [
    | throw err ↦ throw (failed (decode_failed err))
    | ok d ↦ ok (c, d.1)
  ]

  -- The backend's cache from the snapshot, or by decoding the tokens again.
  unfoldable pub restore_session :
      Bytes
      → List ℕ
      → Option snaps.Cache
      → b.State
      → Outcome (EngineError b.Error) (Option snaps.Cache × b.State)
  restore_session id tokens none st = decode_again tokens none st
  restore_session id tokens (some c) st =
      let (restored, c', st') = snaps.load (session_cache_key tag id tokens) c st in
      if restored then ok (some c', st') else decode_again tokens (some c') st'

  unfoldable pub load_session :
      Bytes → Engine b snaps → Outcome (EngineError b.Error) (Engine b snaps)
  load_session id e = elim (lookup id e.sessions) [
    | none ↦ throw (unknown_session id)
    | some tokens ↦
        if length tokens == 0
        then ok (record e { context_tokens = tokens })
        else (elim (restore_session id tokens e.cache e.backend) [
          | throw err ↦ throw err
          | ok r ↦ ok (record e { cache = r.0; backend = r.1; context_tokens = tokens })
        ])
  ]

  unfoldable pub delete_session :
      Bytes → Engine b snaps → Outcome (EngineError b.Error) (Engine b snaps)
  delete_session id e = elim (lookup id e.sessions) [
    | none ↦ throw (unknown_session id)
    | some tokens ↦ ok (record e { sessions = erase id e.sessions })
  ]

  -- warm: the whole prompt goes through the shared-prefix cache, where there is one.
  unfoldable pub warm_tokens :
      List ℕ
      → Option snaps.Cache
      → Engine b snaps
      → Outcome (EngineError b.Error) (ℕ × Engine b snaps)
  warm_tokens tokens none e = ok (length tokens, e)
  warm_tokens tokens (some c) e = elim (prefill b snaps tag block tokens c e.backend) [
    | throw err ↦ throw (failed err)
    | ok filled ↦ ok (length tokens, record e { cache = some filled.1; backend = filled.2 })
  ]

  unfoldable pub warm : Bytes → Engine b snaps → Outcome (EngineError b.Error) (ℕ × Engine b snaps)
  warm prompt e = elim (failing (s.tokenize prompt)) [
    | throw err ↦ throw err
    | ok tokens ↦ elim (check_tokens b s snaps tag block tokens) [
      | throw err ↦ throw err
      | ok checked ↦ warm_tokens tokens e.cache e
    ]
  ]

  saved_sessions :
      (id : Bytes) (e saved : Engine b snaps)
      → save_session id e ≡ ok saved
      → saved.sessions ≡ insert id e.context_tokens e.sessions
  unfolding save_session
  saved_sessions id e saved stored = elim (Option-cases (lookup id e.sessions)) [
    | inl unknown ↦ absurd (let k = rw (save_session, unknown) at stored in ground arith)
    | inr (old, known) ↦
        elim (Outcome-cases (store_session id e.context_tokens e.backend e.cache)) [
          | inr (err, threw) ↦
              absurd (let k = rw (save_session, known, threw) at stored in ground arith)
          | inl (c, kept) ↦
              let k : ok (record e { sessions = insert id e.context_tokens e.sessions; cache = c })
                  ≡ ok saved =
                rw (save_session, known, kept) at stored in
              ap (λ x. x.sessions) (sym (ok-injective _ saved k))
        ]
  ]

  -- A session that was saved and, after whatever else was generated, is loaded where no disk cache is,
  -- brings back the tokens of the context that it was saved from, and the backend decodes exactly those
  -- again. The context was not empty, the sessions are as saving left them, and the pass succeeds.
  pub load_session-save_session :
      (id : Bytes) (e saved later : Engine b snaps) (l : b.Logits) (st : b.State)
      → save_session id e ≡ ok saved
      → later.sessions ≡ saved.sessions
      → later.cache ≡ none
      → 0 < length e.context_tokens
      → s.decode e.context_tokens later.backend ≡ ok (l, st)
      → (after : Engine b snaps) × (load_session id later ≡ ok after)
        × (after.context_tokens ≡ e.context_tokens)
        × (after.backend ≡ st)
        × (after.sessions ≡ saved.sessions)
  unfolding save_session load_session restore_session decode_again
  load_session-save_session id e saved later l st stored kept no_cache some_tokens decoded =
      let tokens = e.context_tokens in
      let written = saved_sessions id e saved stored in
      let found : lookup id later.sessions ≡ some tokens =
        ap (lookup id) (kept ∙ written) ∙ lookup-insert_self id tokens e.sessions in
      let restored : restore_session id tokens later.cache later.backend ≡ ok (none, st) =
        ap (λ c. restore_session id tokens c later.backend) no_cache
        ∙ (rw (restore_session, decode_again, decoded) refl) in
      let not_empty : (length tokens == 0) ≡ false = ground arith in
      (
        record later { cache = none; backend = st; context_tokens = tokens },
        rw (load_session, found, not_empty, restored) refl,
        refl,
        refl,
        kept,
      )

  abbrev pub IsNumbered : Engine b snaps → Type 0
  IsNumbered e = NumberedBelow e.next_session_id e.sessions

  -- Where the sessions have ids given out before, a new one gets an id that none has and an empty context,
  -- and the ids stay so. Fewer than 2 ^ 64 - 1 ids were given out.
  pub create_session-fresh :
      (e : Engine b snaps)
      → IsNumbered e
      → e.next_session_id + 1 < 2 ^ 64
      → let (id, e') = create_session e in
        (lookup id e.sessions ≡ none) × (lookup id e'.sessions ≡ some []) × IsNumbered e'
  unfolding create_session emplace
  create_session-fresh e numbered room =
      let n = e.next_session_id in
      let id = session_id n in
      let next : (n + 1) % 2 ^ 64 ≡ n + 1 = omega arith in
      let unused : lookup id e.sessions ≡ none = elim (Option-cases (lookup id e.sessions)) [
        | inl absent ↦ absent
        | inr (tokens, present) ↦
            let (k, less, same) =
              lookup-Every (λ id tokens. (k : ℕ) × (k < n) × (id ≡ session_id k)) id e.sessions
                tokens numbered present in
            let equal = session_id-injective n k same in absurd (omega (arith, less, equal))
      ] in
      let added : emplace id [] e.sessions ≡ insert id [] e.sessions = rw (emplace, unused) refl in
      (
        unused,
        ap (lookup id) added ∙ lookup-insert_self id [] e.sessions,
        subst (λ k. NumberedBelow k (emplace id [] e.sessions)) (sym next)
            (subst (NumberedBelow (n + 1)) (sym added) (
              insert-Every (λ id tokens. (k : ℕ) × (k < n + 1) × (id ≡ session_id k)) id []
                e.sessions (n, omega arith, refl) (NumberedBelow-suc n e.sessions numbered))),
      )
