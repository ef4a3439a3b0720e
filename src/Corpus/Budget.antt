-- ===== src/Corpus/Budget.antt =====
-- The bookkeeping of src/palimpsest/corpus_index.cpp: where the streams of the log end, and its budget.
use sovranx.Corpus.{
  Corpus, max_tokens, index_site, index_loop, index_stream, index_streams, rebuild_index,
  rewrite_file, drop_streams, evict_oldest, within_budget, append_stream, observe,
}
use sovranx.Prelude.{
  ℕ, zero, suc, ◌+◌, ◌-◌, ◌≤◌, ◌<◌, ◌≡◌, refl, ap, subst, ◌∙◌, inl, inr, Bool-cases, List, [], ◌∷◌,
  ◌++◌, map, length, drop, length-append, length-drop, ltb, arith,
}

-- From `lo` to `size` in ends that grow: every stream has a token.
abbrev pub Ascends : ℕ → List ℕ → ℕ → Type 0
Ascends lo [] size = lo ≡ size
Ascends lo (e ∷ es) size = (lo < e) × Ascends e es size

abbrev pub IsCorpus : Corpus → Type 0
IsCorpus c = Ascends 0 c.stream_ends (length c.log)

-- Indexing changes the index alone.
abbrev pub Unindexed : Corpus → Corpus → Type 0
Unindexed c d =
    (d.log ≡ c.log) × (d.stream_ends ≡ c.stream_ends) × (d.max_log_bytes ≡ c.max_log_bytes)

index_loop-Unindexed : (count i : ℕ) (c : Corpus) → Unindexed c (index_loop count i c)
unfolding index_loop index_site
index_loop-Unindexed zero i c = (refl, refl, refl)
index_loop-Unindexed (suc count) i c = index_loop-Unindexed count (suc i) (index_site i c)

index_stream-Unindexed : (begin end : ℕ) (c : Corpus) → Unindexed c (index_stream begin end c)
unfolding index_stream
index_stream-Unindexed begin end c = elim (Bool-cases (ltb (end - begin) (c.ngram + 1))) [
  | inl short ↦ rw short (refl, refl, refl)
  | inr long ↦ rw long (index_loop-Unindexed (end - begin - c.ngram) begin c)
]

index_streams-Unindexed :
    (begin : ℕ) (ends : List ℕ) (c : Corpus) → Unindexed c (index_streams begin ends c)
unfolding index_streams
index_streams-Unindexed begin [] c = (refl, refl, refl)
index_streams-Unindexed begin (end ∷ ends) c =
    let (l, s, m) = index_streams-Unindexed end ends (index_stream begin end c) in
    let (l', s', m') = index_stream-Unindexed begin end c in (l ∙ l', s ∙ s', m ∙ m')

Ascends-append :
    (lo : ℕ) (es : List ℕ) (size e : ℕ)
    → Ascends lo es size
    → size < e
    → Ascends lo (es ++ (e ∷ [])) e
Ascends-append lo [] size e h less = (omega arith, refl)
Ascends-append lo (x ∷ es) size e (h, hs) less = (h, Ascends-append x es size e hs less)

pub Ascends-le : (lo : ℕ) (es : List ℕ) (size : ℕ) → Ascends lo es size → lo ≤ size
Ascends-le lo [] size h = omega arith
Ascends-le lo (e ∷ es) size (h, hs) = omega (arith, Ascends-le e es size hs)

Ascends-shift :
    (d lo : ℕ) (es : List ℕ) (size : ℕ)
    → d ≤ lo
    → Ascends lo es size
    → Ascends (lo - d) (map (λ e. e - d) es) (size - d)
Ascends-shift d lo [] size h asc = ap (λ n. n - d) asc
Ascends-shift d lo (e ∷ es) size h (less, asc) =
    (omega arith, Ascends-shift d e es size (omega arith) asc)

-- The loop of evict_oldest drops whole streams, and goes on until the rest fits.
drop_streams_lem :
    (es : List ℕ) (dropped size max : ℕ)
    → Ascends dropped es size
    → let (d, rest) = drop_streams es dropped size max in Ascends d rest size × (size - d ≤ max)
unfolding drop_streams
drop_streams_lem [] dropped size max h = (h, omega arith)
drop_streams_lem (e ∷ es) dropped size max (less, asc) =
    elim (Bool-cases (ltb max (size - dropped))) [
      | inl big ↦ rw big (drop_streams_lem es e size max asc)
      | inr fits ↦ rw fits ((less, asc), ground arith)
    ]

pub append_stream_lem :
    (ts : List ℕ) (c : Corpus)
    → ((append_stream ts c).log ≡ c.log ++ ts)
      × ((append_stream ts c).stream_ends ≡ c.stream_ends ++ (length (c.log ++ ts) ∷ []))
      × ((append_stream ts c).max_log_bytes ≡ c.max_log_bytes)
unfolding append_stream
append_stream_lem ts c = index_stream-Unindexed (length c.log) (length (c.log ++ ts)) _

append_stream-IsCorpus :
    (ts : List ℕ) (c : Corpus) → 0 < length ts → IsCorpus c → IsCorpus (append_stream ts c)
append_stream-IsCorpus ts c some_tokens h =
    let (log, ends, _) = append_stream_lem ts c in
    rw (log, ends)
      (Ascends-append 0 c.stream_ends (length c.log) (length (c.log ++ ts)) h
        (omega (arith, length-append c.log ts)))

-- What is left of the log is its end.
abbrev pub Suffix : List ℕ → List ℕ → Type 0
Suffix part whole = (n : ℕ) × (part ≡ drop n whole)

evict_oldest_lem :
    (c : Corpus)
    → IsCorpus c
    → IsCorpus (evict_oldest c)
      × (length (evict_oldest c).log ≤ max_tokens (evict_oldest c))
      × Suffix (evict_oldest c).log c.log
unfolding evict_oldest rebuild_index rewrite_file max_tokens
evict_oldest_lem c h =
    let (dropped, ends) = drop_streams c.stream_ends 0 (length c.log) (max_tokens c) in
    let (asc, fits) = drop_streams_lem c.stream_ends 0 (length c.log) (max_tokens c) h in
    let kept = map (λ e. e - dropped) ends in
    let cut = record c { log = drop dropped c.log; stream_ends = kept; index = [] } in
    let (log, same_ends, budget) = index_streams-Unindexed 0 kept cut in
    (
      rw (log, same_ends, length-drop dropped c.log)
          (subst (λ lo. Ascends lo kept (length c.log - dropped)) (omega arith)
            (Ascends-shift dropped dropped ends (length c.log) (omega arith) asc)),
      rw (log, budget, length-drop dropped c.log) fits,
      (dropped, log),
    )

within_budget_lem :
    (c : Corpus)
    → IsCorpus c
    → IsCorpus (within_budget c)
      × (length (within_budget c).log ≤ max_tokens (within_budget c))
      × Suffix (within_budget c).log c.log
unfolding within_budget
within_budget_lem c h = elim (Bool-cases (ltb (max_tokens c) (length c.log))) [
  | inl big ↦ rw big (evict_oldest_lem c h)
  | inr fits ↦ rw fits (h, ground arith, (0, refl))
]

-- After a stream is observed the log is the end of what it was with the stream behind it, it fits the
-- budget, and it is still cut into non-empty streams.
pub observe_lem :
    (ts : List ℕ) (c : Corpus)
    → 0 < length ts
    → IsCorpus c
    → IsCorpus (observe ts c)
      × (length (observe ts c).log ≤ max_tokens (observe ts c))
      × Suffix (observe ts c).log (c.log ++ ts)
unfolding observe
observe_lem [] c some_tokens h = absurd (omega arith)
observe_lem (t ∷ ts) c some_tokens h =
    let (valid, fits, suffix) =
      within_budget_lem (append_stream (t ∷ ts) c)
        (append_stream-IsCorpus (t ∷ ts) c some_tokens h) in
    let (log, _, _) = append_stream_lem (t ∷ ts) c in
    (valid, fits, (suffix.0, suffix.1 ∙ ap (drop suffix.0) log))
