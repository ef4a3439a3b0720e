-- ===== src/Examples/Serving.antt =====
-- The scheduler, the corpus, the drafts and the configuration at concrete inputs.
use sovranx.Corpus.{
  Corpus, append_stream, rewrite_file, open_corpus, next_frame, observe, max_tokens,
}
use sovranx.Corpus.Budget.{IsCorpus, Suffix, observe_lem}
use sovranx.Corpus.Persist.{open_corpus-rewrite_file}
use sovranx.Dict.{lookup}
use sovranx.Http
use sovranx.Http.{
  HttpRequest, split_head, after_head, head_lines, request_line, split_on, first_word, second_word,
  check_target, path_of, after_line, headers_of, read_body, with_body, parse_http_request,
}
use sovranx.Http.Requests.{IsAccepted, parse_http_request-IsAccepted}
use sovranx.Speculative.Verify.{Models, Draft}
use sovranx.Prelude.{
  suc, inr, Bytes, codes, inl, throw, All, ℕ, ◌≤◌, ◌≡◌, refl, ◌⊎◌, true, false, ◌&&◌, List, [], ◌∷◌,
  ◌++◌, none, some, ok, length, leb, ltb, ◌==◌, arith,
}
use sovranx.Scheduler.{
  Services, Scheduler, make, enqueue, submit, admit, run_until_idle, idle, finished,
}
use sovranx.Scheduler.Cells.{Continues, admit-Continues}
use sovranx.Scheduler.Progress.{run_until_idle-finished}
use sovranx.Scheduler.Requests.{Reachable, made, submitted, tally, bit, Reachable-tally}
use sovranx.Scheduler.Seats.{Slots, Reachable-Slots}
use sovranx.Words.{read_u32}
use sovranx.Decimal.{to_string}
use sovranx.Settings.{
  expected_key_value, Config, drop_blank, cons_unless_blank, drop_blank_end, trim, put_char, lines,
  put_key, split_eq, parse_assignment, parse_line, parse_lines, parse,
}
use sovranx.Settings.Errors.{parse-line_of}
use sovranx.Speculative.FormDraft.{propose, NoNewline, propose-next_item}
use sovranx.Speculative.PromptLookup.{find_draft, Longest, NoneIn, find_draft-Longest}

-- A model that always says 7, and clients that take every token.
abbrev sevens : Services
sevens = record {
  State = Unit;
  Error = Unit;
  Logits = ℕ;
  Gen = ℕ;
  Sampler = Unit;
  Callback = Unit;
  max_tokens = λ gen. gen;
  make_sampler = λ gen. tt;
  sample = λ logits history sampler. ok (logits, sampler);
  on_token = λ token callback. ok (true, callback);
  is_eog = λ token. token == 0;
  decode_seqs = λ slices state. (ok (λ i. 7), state);
  clear_seq = λ k state. state;
  copy_seq = λ from_seq to_seq n state. state;
}

abbrev no_requests : Scheduler sevens
no_requests = record {
  backend = tt;
  n_parallel = 1;
  n_ctx = 16;
  pending = [];
  active = [];
  slot_used = false ∷ [];
  done = [];
  next_id = 1;
}

abbrev one_request : Scheduler sevens
one_request = enqueue sevens (3 ∷ 4 ∷ []) 2 tt no_requests

no_requests_made : make sevens tt 1 16 ≡ ok no_requests
unfolding make
no_requests_made = refl

one_request_submitted : submit sevens (3 ∷ 4 ∷ []) 2 tt no_requests ≡ ok (1, one_request)
unfolding submit
one_request_submitted = refl

one_request-Reachable : Reachable sevens tt 1 16 one_request
one_request-Reachable =
    submitted no_requests one_request (3 ∷ 4 ∷ []) 2 tt 1 (made no_requests no_requests_made)
      one_request_submitted

run_until_idle-finished_example :
    (t : Scheduler sevens) × (run_until_idle sevens 4 one_request ≡ some t)
    × (idle sevens t ≡ true)
    × (finished sevens 1 t ≡ true)
run_until_idle-finished_example =
    run_until_idle-finished sevens tt 1 16 4 1 one_request one_request-Reachable (omega arith)
      (omega arith) (omega arith)

Reachable-tally_example :
    (1 ≤ one_request.next_id)
    × (tally sevens 1 one_request ≡ bit (leb 1 1 && ltb 1 one_request.next_id))
Reachable-tally_example = Reachable-tally sevens tt 1 16 one_request one_request-Reachable 1

Reachable-Slots_example :
    Slots sevens one_request.pending [] one_request
    × (length one_request.active ≤ one_request.n_parallel)
Reachable-Slots_example = Reachable-Slots sevens tt 1 16 one_request one_request-Reachable

admit-Continues_example : All (Continues sevens 16) (admit sevens one_request).active
admit-Continues_example =
    admit-Continues sevens tt 1 16 one_request (omega arith) one_request-Reachable

abbrev history : List ℕ
history = 1 ∷ 2 ∷ 3 ∷ 1 ∷ 2 ∷ []

find_draft-Longest_example :
    Longest 1 4 2 history (find_draft 3 1 history 2)
    ⊎ ((find_draft 3 1 history 2 ≡ []) × NoneIn 1 4 history)
find_draft-Longest_example =
    find_draft-Longest 3 1 2 history (omega arith) (omega arith) (omega arith)

-- Two streams in the log.
abbrev two_streams : Corpus
two_streams = record {
  ngram = 2;
  max_log_bytes = 64;
  max_sites_per_ngram = 8;
  log = 1 ∷ 2 ∷ 3 ∷ 4 ∷ 5 ∷ [];
  stream_ends = 3 ∷ 5 ∷ [];
  flushed_streams = 0;
  index = [];
  file = [];
}

two_streams-IsCorpus : IsCorpus two_streams
two_streams-IsCorpus = (omega arith, (omega arith, refl))

two_streams_fit : length two_streams.log ≤ max_tokens two_streams
unfolding max_tokens
two_streams_fit = omega arith

torn_frame : next_frame (9 ∷ 0 ∷ []) ≡ none
unfolding next_frame read_u32
torn_frame = refl

open_corpus-rewrite_file_example :
    let d = open_corpus 2 64 8 ((rewrite_file two_streams).file ++ (9 ∷ 0 ∷ [])) in
    (d.log ≡ two_streams.log)
    × (d.stream_ends ≡ two_streams.stream_ends)
    × (d.flushed_streams ≡ length two_streams.stream_ends)
open_corpus-rewrite_file_example =
    open_corpus-rewrite_file two_streams (9 ∷ 0 ∷ []) two_streams-IsCorpus
      (omega arith, (omega arith, tt))
      (omega arith, (omega arith, (omega arith, (omega arith, (omega arith, tt))))) two_streams_fit
      torn_frame

observe_lem_example :
    IsCorpus (observe (6 ∷ 7 ∷ []) two_streams)
    × (length (observe (6 ∷ 7 ∷ []) two_streams).log
        ≤ max_tokens (observe (6 ∷ 7 ∷ []) two_streams))
    × Suffix (observe (6 ∷ 7 ∷ []) two_streams).log (two_streams.log ++ (6 ∷ 7 ∷ []))
observe_lem_example = observe_lem (6 ∷ 7 ∷ []) two_streams (omega arith) two_streams-IsCorpus

abbrev observed : Corpus
observed = observe (1 ∷ 2 ∷ 3 ∷ 4 ∷ []) two_streams

item_is_line : NoNewline (codes "milk")
item_is_line = (refl, (refl, (refl, (refl, tt))))

three_short : length (to_string 3) ≤ 9
unfolding to_string
three_short = omega arith

propose-next_item_example :
    propose
      (((codes "List:" ++ (10 ∷ [])) ++ (to_string 3 ++ (b'.' ∷ 32 ∷ codes "milk"))) ++ (10 ∷ []))
    ≡ to_string 4 ++ (b'.' ∷ 32 ∷ [])
propose-next_item_example =
    propose-next_item (codes "List:" ++ (10 ∷ [])) (codes "milk") 3 b'.' (omega arith) three_short
      (inl refl) item_is_line (inr (codes "List:", refl))

-- A comment, a blank line and a fault.
abbrev faulty_text : Bytes
faulty_text = codes "#" ++ (10 ∷ (10 ∷ codes "a"))

faulty : parse faulty_text ≡ throw (expected_key_value (codes "a") 3)
unfolding parse lines put_char parse_lines parse_line trim drop_blank drop_blank_end
    cons_unless_blank parse_assignment split_eq put_key
faulty = refl

parse-line_of_example :
    (before : List Bytes) × (line : Bytes) × (rest : List Bytes) × (next : Config) × (lines
        faulty_text
      ≡ before ++ (line ∷ rest))
    × (parse_lines 0 before (record { section_name = []; values = [] }) ≡ ok next)
    × (parse_line (suc (length before)) (trim line) next ≡ throw (expected_key_value (codes "a") 3))
    × (3 ≡ suc (length before))
parse-line_of_example = parse-line_of faulty_text (expected_key_value (codes "a") 3) faulty

abbrev no_values : Config
no_values = record { section_name = []; values = [] }

abbrev get_root : Bytes
get_root = codes "GET /a?b HTTP/1.1" ++ (13 ∷ 10 ∷ 13 ∷ 10 ∷ [])

abbrev root_request : HttpRequest
root_request = record { method = codes "GET"; target = codes "/a"; headers = []; body = [] }

get_root_parsed : parse_http_request get_root ≡ some root_request
unfolding parse_http_request split_head Http.put_front after_head Http.parse_lines head_lines
    Http.put_char request_line split_on first_word second_word check_target path_of after_line
    headers_of lookup read_body with_body
get_root_parsed = refl

parse_http_request-IsAccepted_example : IsAccepted root_request
parse_http_request-IsAccepted_example =
    parse_http_request-IsAccepted get_root root_request get_root_parsed

-- Models whose target accepts the draft's token 7 alone, and corrects others to 7.
abbrev picky : Models
picky = record {
  State = Unit;
  Error = Unit;
  Logits = Unit;
  Probs = Unit;
  Rng = Unit;
  eos_token = 0;
  decode_append = λ ts st. ok (tt, st);
  decode_batch = λ ts st. ok (λ i. tt, st);
  distribution = λ logits history. tt;
  draw = λ probs g. (7, g);
  accepts = λ target probs d g. (d == 7, g);
  correct = λ target probs g. (7, g);
}

abbrev two_drafted : Draft picky
two_drafted = (7, tt) ∷ (8, tt) ∷ []
