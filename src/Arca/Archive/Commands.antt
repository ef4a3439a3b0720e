-- ===== src/Arca/Archive/Commands.antt =====
-- What the commands of src/arca/archive.cpp do to the archive.
use sovranx.Arca.Archive.{
  Archive, upper, set_command, get_reply, get_command, del_command, exists_command, dbsize_command,
  observe_tokens, observe_command, draft_command, dispatch,
}
use sovranx.Arca.Resp.{resp_simple, resp_error_reply, resp_bulk}
use sovranx.Cache.Store.{put}
use sovranx.Cache.Store.Budget.{IsSound, run, step, run-IsSound, puts, gets, removes}
use sovranx.Cache.Store.Reads.{get-put, get-get}
use sovranx.Corpus.{Corpus, observe}
use sovranx.Corpus.Budget.{IsCorpus, observe_lem}
use sovranx.Prelude.{
  ℕ, ◌≡◌, ◌≢◌, refl, ap, inl, inr, Bool, true, Bool-cases, List, [], ◌∷◌, Option-cases, Bytes,
  codes, length, ◌===◌, arith,
}
use sovranx.Tokens.{unpack_tokens}
use sovranx.Words.{IsU32}

-- The store's bookkeeping and budget, and the corpus cut into streams.
pub record IsArchive (a : Archive) : Type 0 where
  pub store_sound : IsSound a.store
  pub corpus_valid : IsCorpus a.corpus

set_command-IsArchive :
    (accepts : Bytes → Bytes → Bool) (args : List Bytes) (a : Archive)
    → IsArchive a
    → IsArchive (set_command accepts args a).1
unfolding set_command
set_command-IsArchive accepts [] a h = h
set_command-IsArchive accepts (key ∷ []) a h = h
set_command-IsArchive accepts (key ∷ payload ∷ []) a h = record {
  store_sound =
      unfold run step in run-IsSound accepts (puts key payload ∷ []) a.store h.store_sound;
  corpus_valid = h.corpus_valid;
}
set_command-IsArchive accepts (key ∷ payload ∷ x ∷ args) a h = h

get_command-IsArchive :
    (args : List Bytes) (a : Archive) → IsArchive a → IsArchive (get_command args a).1
unfolding get_command
get_command-IsArchive [] a h = h
get_command-IsArchive (key ∷ []) a h = record {
  store_sound = unfold run step in run-IsSound (λ _ _. true) (gets key ∷ []) a.store h.store_sound;
  corpus_valid = h.corpus_valid;
}
get_command-IsArchive (key ∷ x ∷ args) a h = h

del_command-IsArchive :
    (args : List Bytes) (a : Archive) → IsArchive a → IsArchive (del_command args a).1
unfolding del_command
del_command-IsArchive [] a h = h
del_command-IsArchive (key ∷ []) a h = record {
  store_sound =
      unfold run step in run-IsSound (λ _ _. true) (removes key ∷ []) a.store h.store_sound;
  corpus_valid = h.corpus_valid;
}
del_command-IsArchive (key ∷ x ∷ args) a h = h

observe-IsCorpus : (tokens : List ℕ) (c : Corpus) → IsCorpus c → IsCorpus (observe tokens c)
observe-IsCorpus [] c h = unfold observe in h
observe-IsCorpus (t ∷ ts) c h = (observe_lem (t ∷ ts) c (omega arith) h).0

observe_command-IsArchive :
    (args : List Bytes) (a : Archive) → IsArchive a → IsArchive (observe_command args a).1
unfolding observe_command observe_tokens
observe_command-IsArchive [] a h = h
observe_command-IsArchive (payload ∷ []) a h = elim (Option-cases (unpack_tokens payload)) [
  | inl torn ↦ rw (torn, observe_tokens) h
  | inr (tokens, whole) ↦
      rw (whole, observe_tokens)
        (record {
          store_sound = h.store_sound;
          corpus_valid = observe-IsCorpus tokens a.corpus h.corpus_valid;
        })
]
observe_command-IsArchive (payload ∷ x ∷ args) a h = h

pure_commands-same :
    (args : List Bytes) (a : Archive)
    → ((exists_command args a).1 ≡ a)
      × ((dbsize_command args a).1 ≡ a)
      × ((draft_command args a).1 ≡ a)
unfolding exists_command dbsize_command draft_command
pure_commands-same [] a = (refl, refl, refl)
pure_commands-same (x ∷ []) a = (refl, refl, refl)
pure_commands-same (x ∷ y ∷ []) a = (refl, refl, refl)
pure_commands-same (x ∷ y ∷ z ∷ args) a = (refl, refl, refl)

-- Whatever command a client sends, well-formed or not, and whether its write succeeds or not, a sound
-- archive stays sound.
pub dispatch-IsArchive :
    (accepts : Bytes → Bytes → Bool) (cmd : List Bytes) (a : Archive)
    → IsArchive a
    → IsArchive (dispatch accepts cmd a).1
unfolding dispatch
dispatch-IsArchive accepts [] a h = h
dispatch-IsArchive accepts (first ∷ args) a h =
    let name = upper first in
    let (exists_same, dbsize_same, draft_same) = pure_commands-same args a in
    elim (Bool-cases (name === codes "PING")) [
      | inl e ↦ rw e h
      | inr n₀ ↦ elim (Bool-cases (name === codes "SET")) [
        | inl e ↦ rw (n₀, e) (set_command-IsArchive accepts args a h)
        | inr n₁ ↦ elim (Bool-cases (name === codes "GET")) [
          | inl e ↦ rw (n₀, n₁, e) (get_command-IsArchive args a h)
          | inr n₂ ↦ elim (Bool-cases (name === codes "DEL")) [
            | inl e ↦ rw (n₀, n₁, n₂, e) (del_command-IsArchive args a h)
            | inr n₃ ↦ elim (Bool-cases (name === codes "EXISTS")) [
              | inl e ↦ rw (n₀, n₁, n₂, n₃, e, exists_same) h
              | inr n₄ ↦ elim (Bool-cases (name === codes "DBSIZE")) [
                | inl e ↦ rw (n₀, n₁, n₂, n₃, n₄, e, dbsize_same) h
                | inr n₅ ↦ elim (Bool-cases (name === codes "ARCA.OBSERVE")) [
                  | inl e ↦ rw (n₀, n₁, n₂, n₃, n₄, n₅, e) (observe_command-IsArchive args a h)
                  | inr n₆ ↦ elim (Bool-cases (name === codes "ARCA.DRAFT")) [
                    | inl e ↦ rw (n₀, n₁, n₂, n₃, n₄, n₅, n₆, e, draft_same) h
                    | inr n₇ ↦ rw (n₀, n₁, n₂, n₃, n₄, n₅, n₆, n₇) h
                  ]
                ]
              ]
            ]
          ]
        ]
      ]
    ]

dispatch_set :
    (accepts : Bytes → Bytes → Bool) (args : List Bytes) (a : Archive)
    → dispatch accepts (codes "SET" ∷ args) a ≡ set_command accepts args a
unfolding dispatch upper ◌===◌
dispatch_set accepts args a = refl

dispatch_get :
    (accepts : Bytes → Bytes → Bool) (args : List Bytes) (a : Archive)
    → dispatch accepts (codes "GET" ∷ args) a ≡ get_command args a
unfolding dispatch upper ◌===◌
dispatch_get accepts args a = refl

error-ne-simple : (s t : Bytes) → resp_error_reply s ≢ resp_simple t
unfolding resp_error_reply resp_simple
error-ne-simple s t h = ground arith

set_command-ok :
    (accepts : Bytes → Bytes → Bool) (key payload : Bytes) (a : Archive)
    → (set_command accepts (key ∷ payload ∷ []) a).0 ≡ resp_simple (codes "OK")
    → put accepts key payload a.store ≡ (true, (put accepts key payload a.store).1)
unfolding set_command
set_command-ok accepts key payload a h = elim (Bool-cases (put accepts key payload a.store).0) [
  | inl stored ↦ ap (λ b. (b, (put accepts key payload a.store).1)) stored
  | inr refused ↦ absurd (error-ne-simple _ (codes "OK") (rw refused at h))
]

-- A second GET is answered as the first was.
pub dispatch_get-get :
    (accepts : Bytes → Bytes → Bool) (key : Bytes) (a : Archive)
    → (dispatch accepts (codes "GET" ∷ key ∷ []) (dispatch accepts (codes "GET" ∷ key ∷ []) a).1).0
      ≡ (dispatch accepts (codes "GET" ∷ key ∷ []) a).0
unfolding get_command
dispatch_get-get accepts key a =
    rw
      (
        dispatch_get accepts (key ∷ []) a,
        dispatch_get accepts (key ∷ []) (get_command (key ∷ []) a).1,
      )
      (ap get_reply (get-get key a.store))

-- A GET that follows a SET of the same key that was answered with OK is answered with the value, byte for
-- byte. The key is shorter than 4 GB.
pub dispatch_get-set :
    (accepts : Bytes → Bytes → Bool) (key payload : Bytes) (a : Archive)
    → IsU32 (length key)
    → (dispatch accepts (codes "SET" ∷ key ∷ payload ∷ []) a).0 ≡ resp_simple (codes "OK")
    → (dispatch accepts
        (codes "GET" ∷ key ∷ [])
        (dispatch accepts (codes "SET" ∷ key ∷ payload ∷ []) a).1).0
      ≡ resp_bulk payload
dispatch_get-set accepts key payload a small answered =
    let stored =
      set_command-ok accepts key payload a
        (rw (dispatch_set accepts (key ∷ payload ∷ []) a) at answered) in
    let found =
      get-put accepts key payload a.store (put accepts key payload a.store).1 small stored in
    rw (dispatch_set accepts (key ∷ payload ∷ []) a, dispatch_get accepts (key ∷ []))
      (unfold get_command set_command in rw found (unfold get_reply in refl))
