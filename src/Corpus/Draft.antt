-- ===== src/Corpus/Draft.antt =====
-- What draft of src/palimpsest/corpus_index.cpp proposes.
use sovranx.Corpus.{Corpus, stream_end_for}
use sovranx.Prelude.{ℕ, ◌+◌, ◌-◌, ◌≤◌, ◌≡◌, List, length, take, drop}

-- A proposal of k tokens at most that stand in the log behind the last n-gram of the tail, and end where
-- the stream of that place does at the latest.
pub record Continues (c : Corpus) (tail : List ℕ) (k : ℕ) (proposal : List ℕ) : Type 0 where
  pub start : ℕ
  pub short : length proposal ≤ k
  pub seen : take c.ngram (drop (start - c.ngram) c.log) ≡ drop (length tail - c.ngram) tail
  pub copied : proposal ≡ take (length proposal) (drop start c.log)
  pub within : start + length proposal ≤ stream_end_for (start - 1) c.stream_ends (length c.log)
