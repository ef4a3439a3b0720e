-- ===== src/Corpus.antt =====
-- The generation memory, src/palimpsest/corpus_index.cpp: a log of token streams, an index from n-grams to
-- the places that follow them, and the log's file as its bytes. Configured numbers are not negative.
pub mod Budget
pub mod Persist
pub mod Draft
use sovranx.Dict.{lookup, insert}
use sovranx.Prelude.{
  ℕ, zero, suc, ◌+◌, ◌-◌, ◌*◌, ◌/◌, ◌%◌, ◌^◌, min, Bool, true, false, ◌&&◌, ◌||◌, not, List, [],
  ◌∷◌, ◌++◌, map, Option, none, some, Bytes, length, take, drop, ltb, leb, ◌==◌, ◌===◌,
  if◌then◌else◌,
}
use sovranx.Tokens.{pack_tokens, read_tokens}
use sovranx.Words.{u32_bytes, read_u32, checksum}

-- CorpusIndex::Impl with its Config. An n-gram's key stands in the index as a one-element list.
pub record Corpus : Type 0 where
  pub ngram : ℕ
  pub max_log_bytes : ℕ
  pub max_sites_per_ngram : ℕ
  pub log : List ℕ
  pub stream_ends : List ℕ
  pub flushed_streams : ℕ
  pub index : List (Bytes × List ℕ)
  pub file : Bytes

-- FNV-1a over the bytes of the first n tokens.
unfoldable pub ngram_key : List ℕ → ℕ → Bytes
ngram_key tokens n = checksum (pack_tokens (take n tokens)) ∷ []

unfoldable pub max_tokens : Corpus → ℕ
max_tokens c = c.max_log_bytes / 4

-- The first stream end above `offset`, or the end of the log.
unfoldable pub stream_end_for : ℕ → List ℕ → ℕ → ℕ
stream_end_for offset [] log_size = log_size
stream_end_for offset (e ∷ es) log_size =
    if ltb offset e then e else stream_end_for offset es log_size

unfoldable pub sites_of : Option (List ℕ) → List ℕ
sites_of none = []
sites_of (some sites) = sites

-- while (sites.size() > max) sites.pop_front()
unfoldable pub keep_newest : ℕ → List ℕ → List ℕ
keep_newest max sites = drop (length sites - max) sites

-- The body of index_stream's loop, for the n-gram at offset i, and the loop for `count` offsets.
unfoldable pub index_site : ℕ → Corpus → Corpus
index_site i c =
    let key = ngram_key (drop i c.log) c.ngram in
    let sites = sites_of (lookup key c.index) ++ ((i + c.ngram) % 2 ^ 32 ∷ []) in
    record c { index = insert key (keep_newest c.max_sites_per_ngram sites) c.index }

unfoldable pub index_loop : ℕ → ℕ → Corpus → Corpus
index_loop zero i c = c
index_loop (suc count) i c = index_loop count (suc i) (index_site i c)

-- The offsets are those i from `begin` on with i + n < end.
unfoldable pub index_stream : ℕ → ℕ → Corpus → Corpus
index_stream begin end c =
    if ltb (end - begin) (c.ngram + 1) then c else index_loop (end - begin - c.ngram) begin c

unfoldable pub index_streams : ℕ → List ℕ → Corpus → Corpus
index_streams begin [] c = c
index_streams begin (end ∷ ends) c = index_streams end ends (index_stream begin end c)

unfoldable pub rebuild_index : Corpus → Corpus
rebuild_index c = index_streams 0 c.stream_ends (record c { index = [] })

-- One framed stream, and those of the ends given, from offset `begin` of the log on.
unfoldable pub frame : List ℕ → Bytes
frame tokens = u32_bytes (length tokens) ++ pack_tokens tokens

abbrev pub stream : ℕ → ℕ → List ℕ → List ℕ
stream begin end log = take (end - begin) (drop begin log)

unfoldable pub frames : ℕ → List ℕ → List ℕ → Bytes
frames begin [] log = []
frames begin (end ∷ ends) log = frame (stream begin end log) ++ frames end ends log

unfoldable pub rewrite_file : Corpus → Corpus
rewrite_file c = record c {
  file = frames 0 c.stream_ends c.log;
  flushed_streams = length c.stream_ends;
}

-- The loop of evict_oldest: what is dropped of the log, and the ends that are left.
unfoldable pub drop_streams : List ℕ → ℕ → ℕ → ℕ → ℕ × List ℕ
drop_streams [] dropped log_size max = (dropped, [])
drop_streams (e ∷ es) dropped log_size max =
    let rest = drop_streams es e log_size max in
    if ltb max (log_size - dropped) then rest else (dropped, e ∷ es)

unfoldable pub evict_oldest : Corpus → Corpus
evict_oldest c =
    let (dropped, ends) = drop_streams c.stream_ends 0 (length c.log) (max_tokens c) in
    rewrite_file (
      rebuild_index
        (record c { log = drop dropped c.log; stream_ends = map (λ e. e - dropped) ends }))

unfoldable pub within_budget : Corpus → Corpus
within_budget c = if ltb (max_tokens c) (length c.log) then evict_oldest c else c

-- A stream added at the end of the log, as observe and load do.
unfoldable pub append_stream : List ℕ → Corpus → Corpus
append_stream tokens c =
    let log = c.log ++ tokens in
    index_stream (length c.log) (length log)
      (record c { log = log; stream_ends = c.stream_ends ++ (length log ∷ []) })

unfoldable pub observe : List ℕ → Corpus → Corpus
observe [] c = c
observe (t ∷ ts) c = within_budget (append_stream (t ∷ ts) c)

-- The search of draft, from the newest site to the oldest.
unfoldable pub draft_from : List ℕ → List ℕ → ℕ → Corpus → List ℕ
draft_from [] tail k c = []
draft_from (start ∷ sites) tail k c =
    let end = stream_end_for (start - 1) c.stream_ends (length c.log) in
    let older = draft_from sites tail k c in
    if leb end start
    then older
    else if take c.ngram (drop (start - c.ngram) c.log) === drop (length tail - c.ngram) tail
    then take (min (end - start) k) (drop start c.log)
    else older

unfoldable pub newest_first : List ℕ → List ℕ → List ℕ
newest_first [] acc = acc
newest_first (s ∷ sites) acc = newest_first sites (s ∷ acc)

unfoldable pub draft : List ℕ → ℕ → Corpus → List ℕ
draft tail k c =
    let key = ngram_key (drop (length tail - c.ngram) tail) c.ngram in
    if k == 0 || ltb (length tail) c.ngram
    then []
    else draft_from (newest_first (sites_of (lookup key c.index)) []) tail k c

-- load: frames are read until one is missing, torn, empty or over-long. Each takes bytes off the file,
-- so its length is fuel enough.
unfoldable pub next_frame : Bytes → Option (List ℕ × Bytes)
next_frame s = elim (read_u32 s) [
  | none ↦ none
  | some (len, rest) ↦
      let tokens = read_tokens len rest in if len == 0 || ltb (2 ^ 26) len then none else tokens
]

unfoldable pub load_loop : ℕ → Bytes → Corpus → Corpus
load_loop zero s c = c
load_loop (suc fuel) s c = elim (next_frame s) [
  | none ↦ c
  | some (tokens, rest) ↦ load_loop fuel rest (append_stream tokens c)
]

unfoldable pub load : Corpus → Corpus
load c =
    let d = load_loop (length c.file) c.file c in
    within_budget (record d { flushed_streams = length d.stream_ends })

-- Opening a corpus on the bytes of its file.
unfoldable pub open_corpus : ℕ → ℕ → ℕ → Bytes → Corpus
open_corpus ngram max_log_bytes max_sites_per_ngram file = load (record {
  ngram = ngram;
  max_log_bytes = max_log_bytes;
  max_sites_per_ngram = max_sites_per_ngram;
  log = [];
  stream_ends = [];
  flushed_streams = 0;
  index = [];
  file = file;
})

-- flush appends the streams that the file does not hold yet.
unfoldable pub last_end : ℕ → List ℕ → ℕ
last_end begin [] = begin
last_end begin (e ∷ es) = last_end e es

unfoldable pub flush : Corpus → Corpus
flush c =
    let begin = last_end 0 (take c.flushed_streams c.stream_ends) in
    if leb (length c.stream_ends) c.flushed_streams then c else record c {
      file = c.file ++ frames begin (drop c.flushed_streams c.stream_ends) c.log;
      flushed_streams = length c.stream_ends;
    }
