-- ===== src/Corpus/Persist.antt =====
-- The log's file of src/palimpsest/corpus_index.cpp: what is written is read back.
use sovranx.Corpus.{
  Corpus, max_tokens, rewrite_file, within_budget, append_stream, frame, frames, stream, next_frame,
  load_loop, load, open_corpus,
}
use sovranx.Corpus.Budget.{Ascends, Ascends-le, IsCorpus, append_stream_lem}
use sovranx.Prelude.{
  All, All-take, All-drop, ℕ, zero, suc, ◌-◌, ◌/◌, ◌^◌, ◌≤◌, ◌<◌, ◌≡◌, refl, sym, ap, ◌∙◌, false,
  none, some, List, [], ◌∷◌, ◌++◌, Bytes, append-nil, append_assoc, length, take, drop,
  length-append, length-take, length-drop, take-slice, take-length, ltb, ◌==◌, arith,
}
use sovranx.Tokens.{pack_tokens, read_tokens-pack_tokens}
use sovranx.Words.{IsU32, u32_bytes, read_u32-u32_bytes}

next_frame-frame :
    (ts : List ℕ) (rest : Bytes)
    → 0 < length ts
    → length ts ≤ 2 ^ 26
    → All IsU32 ts
    → next_frame (frame ts ++ rest) ≡ some (ts, rest)
unfolding next_frame frame
next_frame-frame ts rest some_tokens small words =
    let zero_len : (length ts == 0) ≡ false = ground arith in
    let long : ltb (2 ^ 26) (length ts) ≡ false = ground arith in
    rw
      (
        append_assoc (u32_bytes (length ts)) (pack_tokens ts) rest,
        read_u32-u32_bytes (length ts) (pack_tokens ts ++ rest) (omega arith),
        next_frame,
      )
      (rw (zero_len, long) (read_tokens-pack_tokens ts rest words))

-- No stream is longer than load accepts.
abbrev pub Short : ℕ → List ℕ → Type 0
Short lo [] = Unit
Short lo (e ∷ es) = (e - lo ≤ 2 ^ 26) × Short e es

length-stream : (lo e : ℕ) (log : List ℕ) → e ≤ length log → length (stream lo e log) ≡ e - lo
length-stream lo e log h = omega (arith, length-take (e - lo) (drop lo log), length-drop lo log)

load_loop-frames :
    (fuel lo : ℕ) (es log : List ℕ) (torn : Bytes) (c : Corpus)
    → length es ≤ fuel
    → Ascends lo es (length log)
    → Short lo es
    → All IsU32 log
    → next_frame torn ≡ none
    → c.log ≡ take lo log
    → let d = load_loop fuel (frames lo es log ++ torn) c in
      (d.log ≡ log) × (d.stream_ends ≡ c.stream_ends ++ es) × (d.max_log_bytes ≡ c.max_log_bytes)
unfolding load_loop frames
load_loop-frames zero lo [] log torn c f asc short words t h =
    (h ∙ take-length lo log (omega arith), sym (append-nil c.stream_ends), refl)
load_loop-frames zero lo (e ∷ es) log torn c f asc short words t h = absurd (omega arith)
load_loop-frames (suc fuel) lo [] log torn c f asc short words t h =
    rw (t, load_loop) (h ∙ take-length lo log (omega arith), sym (append-nil c.stream_ends), refl)
load_loop-frames (suc fuel) lo (e ∷ es) log torn c f (less, asc) (short, shorts) words t h =
    let ts = stream lo e log in
    let size : length ts ≡ e - lo = length-stream lo e log (Ascends-le e es (length log) asc) in
    let words' = All-take IsU32 (e - lo) (drop lo log) (All-drop IsU32 lo log words) in
    let first : next_frame (frame ts ++ (frames e es log ++ torn))
        ≡ some (ts, frames e es log ++ torn) =
      next_frame-frame ts (frames e es log ++ torn) (omega arith) (omega arith) words' in
    let (log', ends', budget') = append_stream_lem ts c in
    let next : (append_stream ts c).log ≡ take e log =
      log' ∙ rw h (take-slice lo e log (omega arith)) in
    let whole : length (c.log ++ ts) ≡ e =
      rw (sym log', next) (omega (arith, length-take e log, Ascends-le e es (length log) asc)) in
    let (l, s, m) =
      load_loop-frames fuel e es log torn (append_stream ts c) (omega arith) asc shorts words t
        next in
    rw (append_assoc (frame ts) (frames e es log) torn, first, load_loop)
      (l, s ∙ rw (ends', whole) (append_assoc c.stream_ends (e ∷ []) es), m ∙ budget')

length-frames : (lo : ℕ) (es log : List ℕ) → length es ≤ length (frames lo es log)
unfolding frames frame u32_bytes
length-frames lo [] log = omega arith
length-frames lo (e ∷ es) log =
    omega (
      arith,
      length-frames e es log,
      length-append (pack_tokens (stream lo e log)) (frames e es log),
    )

-- A corpus that is opened on the file that rewrite_file wrote has the log and the stream ends that were
-- written, and regards all of it as flushed, also when a frame that is torn off follows in the file.
-- The streams are such as load accepts and the log is within the budget.
pub open_corpus-rewrite_file :
    (c : Corpus) (torn : Bytes)
    → IsCorpus c
    → Short 0 c.stream_ends
    → All IsU32 c.log
    → length c.log ≤ max_tokens c
    → next_frame torn ≡ none
    → let d =
        open_corpus c.ngram c.max_log_bytes c.max_sites_per_ngram ((rewrite_file c).file ++ torn) in
      (d.log ≡ c.log) × (d.stream_ends ≡ c.stream_ends) × (d.flushed_streams ≡ length c.stream_ends)
unfolding open_corpus load rewrite_file within_budget max_tokens
open_corpus-rewrite_file c torn valid short words fits t =
    let file = (rewrite_file c).file ++ torn in
    let fuel : length c.stream_ends ≤ length file = omega (
      arith,
      length-frames 0 c.stream_ends c.log,
      length-append (frames 0 c.stream_ends c.log) torn,
    ) in
    let fresh = record c {
      log = [];
      stream_ends = [];
      flushed_streams = 0;
      index = [];
      file = file;
    } in
    let (l, s, m) =
      load_loop-frames (length file) 0 c.stream_ends c.log torn fresh fuel valid short words t
        refl in
    let d = load_loop (length file) file fresh in
    let room : ltb (d.max_log_bytes / 4) (length d.log) ≡ false = rw (l, m) (ground arith) in
    rw room (l, s, ap length s)
