-- ===== src/Scheduler.antt =====
-- The interleaving scheduler, src/core/scheduler.cpp: requests wait in line, are seated in a slot
-- while the KV budget lasts, and advance by one token with every batched forward pass.
pub mod Steps
pub mod Requests
pub mod Seats
pub mod Progress
pub mod Cells
use sovranx.Prelude.{
  ℕ, zero, suc, ◌+◌, ◌-◌, ◌%◌, ◌^◌, Bool, true, false, not, ◌&&◌, ◌||◌, List, [], ◌∷◌, ◌++◌, Option,
  none, some, Outcome, ok, throw, length, take, get_or, ltb, leb, ◌==◌, ◌===◌, if◌then◌else◌,
  replicate,
}

-- A SeqSlice: what one sequence adds to a batch.
pub record SeqSlice : Type 0 where
  pub seq_id : Option ℕ
  pub tokens : List ℕ
  pub pos_start : ℕ

-- What the scheduler calls: the multi-sequence half of LlamaBackend, the samplers, and the callbacks of
-- its clients. The logits of a batch are read by the slice's position. A call that throws leaves some
-- backend state behind.
pub record Services : Type 1 where
  pub State : Type 0
  pub Error : Type 0
  pub Logits : Type 0
  pub Gen : Type 0
  pub Sampler : Type 0
  pub Callback : Type 0
  pub max_tokens : Gen → ℕ
  pub make_sampler : Gen → Sampler
  pub sample : Logits → List ℕ → Sampler → Outcome Error (ℕ × Sampler)
  pub on_token : ℕ → Callback → Outcome Error (Bool × Callback)
  pub is_eog : ℕ → Bool
  pub decode_seqs : List SeqSlice → State → Outcome Error (ℕ → Logits) × State
  pub clear_seq : ℕ → State → State
  pub copy_seq : Option ℕ → Option ℕ → ℕ → State → State

-- struct Request. A seq_id of -1 is none. A max_tokens below 1 ends a request at its first token, so
-- that 0 stands for the negative ones.
pub record Request (b : Services) : Type 0 where
  pub id : ℕ
  pub history : List ℕ
  pub prompt_len : ℕ
  pub gen : b.Gen
  pub on_token : b.Callback
  pub sampler : b.Sampler
  pub emitted : ℕ
  pub seq_id : Option ℕ
  pub n_past : ℕ
  pub needs_prefill : Bool

-- Scheduler::Impl. The first entry of `done` for an id is the map's: the error, or none for null.
pub record Scheduler (b : Services) : Type 0 where
  pub backend : b.State
  pub n_parallel : ℕ
  pub n_ctx : ℕ
  pub pending : List (Request b)
  pub active : List (Request b)
  pub slot_used : List Bool
  pub done : List (ℕ × Option b.Error)
  pub next_id : ℕ

pub data SubmitError : Type 0 where
  bad_n_parallel : SubmitError
  empty_prompt : SubmitError
  prompt_too_long : SubmitError

-- The first free entry of slot_used.
unfoldable pub first_free : List Bool → Option ℕ
first_free [] = none
first_free (false ∷ slots) = some 0
first_free (true ∷ slots) = next (first_free slots)
  where
    next : Option ℕ → Option ℕ
    next none = none
    next (some s) = some (suc s)

unfoldable pub set_at : ℕ → Bool → List Bool → List Bool
set_at k used [] = []
set_at zero used (slot ∷ slots) = used ∷ slots
set_at (suc k) used (slot ∷ slots) = slot ∷ set_at k used slots

module _ (b : Services) where
  -- The constructor.
  unfoldable pub make : b.State → ℕ → ℕ → Outcome SubmitError (Scheduler b)
  make backend n_parallel n_ctx =
      if ltb n_parallel 1
      then throw bad_n_parallel
      else ok (record {
        backend = backend;
        n_parallel = n_parallel;
        n_ctx = n_ctx;
        pending = [];
        active = [];
        slot_used = replicate n_parallel false;
        done = [];
        next_id = 1;
      })

  -- On 32-bit numbers, as the source sums them.
  unfoldable pub cells_of : List (Request b) → ℕ
  cells_of [] = 0
  cells_of (r ∷ rs) = (length r.history % 2 ^ 32 + cells_of rs) % 2 ^ 32

  pub cells_used : Scheduler b → ℕ
  cells_used s = cells_of s.active

  -- The end of submit.
  abbrev pub enqueue : List ℕ → b.Gen → b.Callback → Scheduler b → Scheduler b
  enqueue prompt gen on_token s = record s {
    next_id = suc s.next_id;
    pending =
        s.pending
        ++ (record {
          id = s.next_id;
          history = prompt;
          prompt_len = length prompt;
          gen = gen;
          on_token = on_token;
          sampler = b.make_sampler gen;
          emitted = 0;
          seq_id = none;
          n_past = 0;
          needs_prefill = true;
        }
            ∷ []);
  }

  -- submit. The source refuses a null callback as well; a callback of the model is never null.
  unfoldable pub submit :
      List ℕ → b.Gen → b.Callback → Scheduler b → Outcome SubmitError (ℕ × Scheduler b)
  submit prompt gen on_token s =
      if length prompt == 0
      then throw empty_prompt
      else if ltb s.n_ctx (length prompt)
      then throw prompt_too_long
      else ok (s.next_id, enqueue prompt gen on_token s)

  -- The slot half of finish.
  unfoldable pub vacate : Option ℕ → Scheduler b → Scheduler b
  vacate none s = s
  vacate (some k) s = record s {
    backend = b.clear_seq k s.backend;
    slot_used = set_at k false s.slot_used;
  }

  unfoldable pub finish : Request b → Option b.Error → Scheduler b → Scheduler b
  finish r err s = let t = vacate r.seq_id s in record t { done = (r.id, err) ∷ t.done }

  unfoldable pub find_donor : List ℕ → List (Request b) → Option (Request b)
  find_donor prompt [] = none
  find_donor prompt (a ∷ rest) =
      if a.prompt_len == length prompt && take (length prompt) a.history === prompt
      then some a
      else find_donor prompt rest

  -- The search for a free slot in admit: the first one is taken, if there is one.
  unfoldable pub seat : Option ℕ → Request b → Scheduler b → Request b × Scheduler b
  seat none r s = (r, s)
  seat (some k) r s =
      (record r { seq_id = some k }, record s { slot_used = set_at k true s.slot_used })

  -- The end of a round of admit, once the donor is known.
  unfoldable pub place : Option (Request b) → Request b → Scheduler b → Scheduler b
  place none r s =
      let (r', s') = seat (first_free s.slot_used) r s in
      record s' { active = s'.active ++ (r' ∷ []) }
  place (some donor) r s =
      let (r', s') = seat (first_free s.slot_used) r s in
      let shared = (r'.prompt_len - 1) % 2 ^ 32 in
      record s' {
        backend = b.copy_seq donor.seq_id r'.seq_id shared s'.backend;
        active = s'.active ++ (record r' { n_past = shared; needs_prefill = false } ∷ []);
      }

  -- Whether the donor's prefill lands only with the next step.
  unfoldable pub donor_waits : Option (Request b) → Bool
  donor_waits none = false
  donor_waits (some donor) = ltb donor.n_past donor.prompt_len

  unfoldable pub donor_for : Request b → Scheduler b → Option (Request b)
  donor_for r s = if ltb 1 (length r.history) then find_donor r.history s.active else none

  -- The conditions of admit's loop for the request at the front of the line.
  unfoldable pub admissible : Request b → Scheduler b → Bool
  unfolding cells_used
  admissible r s =
      ltb (length s.active) s.n_parallel
      && not (ltb s.n_ctx ((cells_used s + length r.history % 2 ^ 32) % 2 ^ 32))
      && not (donor_waits (donor_for r s))

  unfoldable pub admit_from : List (Request b) → Scheduler b → Scheduler b
  admit_from [] s = record s { pending = [] }
  admit_from (r ∷ rest) s =
      let next = admit_from rest (place (donor_for r s) r s) in
      if admissible r s then next else record s { pending = r ∷ rest }

  unfoldable pub admit : Scheduler b → Scheduler b
  admit s = admit_from s.pending s

  -- The slice of an active request.
  unfoldable pub slice_of : Request b → SeqSlice
  slice_of r =
      if r.needs_prefill
      then record { seq_id = r.seq_id; tokens = r.history; pos_start = 0 }
      else record {
        seq_id = r.seq_id;
        tokens = get_or r.history (length r.history - 1) 0 ∷ [];
        pos_start = r.n_past;
      }

  unfoldable pub slices : List (Request b) → List SeqSlice
  slices [] = []
  slices (r ∷ rs) = slice_of r ∷ slices rs

  -- if (!keep_going || emitted >= max_tokens || history.size() >= n_ctx) finish, else stay.
  unfoldable pub settle : Bool → Request b → Scheduler b → Scheduler b
  settle keep_going r s =
      if not keep_going || leb (b.max_tokens r.gen) r.emitted || leb s.n_ctx (length r.history)
      then finish r none s
      else record s { active = s.active ++ (r ∷ []) }

  unfoldable pub after_callback :
      ℕ → Outcome b.Error (Bool × b.Callback) → Request b → Scheduler b → Scheduler b
  after_callback next (throw e) r s = finish r (some e) s
  after_callback next (ok (keep_going, cb)) r s =
      settle keep_going
        (record r { history = r.history ++ (next ∷ []); emitted = suc r.emitted; on_token = cb }) s

  unfoldable pub after_sample :
      Outcome b.Error (ℕ × b.Sampler) → Request b → Scheduler b → Scheduler b
  after_sample (throw e) r s = finish r (some e) s
  after_sample (ok (next, sampler)) r s =
      let called =
        after_callback next (b.on_token next r.on_token) (record r { sampler = sampler }) s in
      if b.is_eog next then finish r none s else called

  -- One round of the loop after the forward pass.
  unfoldable pub advance : b.Logits → Request b → Scheduler b → Scheduler b
  advance logits r s =
      let r' = record r {
        n_past = (r.n_past + length (slice_of r).tokens % 2 ^ 32) % 2 ^ 32;
        needs_prefill = false;
      } in
      after_sample (b.sample logits r'.history r'.sampler) r' s

  -- `s.active` collects still_active.
  unfoldable pub retire : ℕ → (ℕ → b.Logits) → List (Request b) → Scheduler b → Scheduler b
  retire i logits [] s = s
  retire i logits (r ∷ rs) s = retire (suc i) logits rs (advance (logits i) r s)

  unfoldable pub fail_all : b.Error → List (Request b) → Scheduler b → Scheduler b
  fail_all e [] s = s
  fail_all e (r ∷ rs) s = fail_all e rs (finish r (some e) s)

  unfoldable pub is_empty : List (Request b) → Bool
  is_empty [] = true
  is_empty (r ∷ rs) = false

  -- What a step does with the forward pass of all active requests.
  unfoldable pub after_decode : Outcome b.Error (ℕ → b.Logits) × b.State → Scheduler b → Scheduler b
  after_decode (throw e, backend) s =
      fail_all e s.active (record s { backend = backend; active = [] })
  after_decode (ok logits, backend) s =
      retire 0 logits s.active (record s { backend = backend; active = [] })

  -- The forward pass of a step and the loop after it.
  unfoldable pub decoded : Scheduler b → Scheduler b
  decoded s = after_decode (b.decode_seqs (slices s.active) s.backend) s

  unfoldable pub step : Scheduler b → Bool × Scheduler b
  step s =
      let t = admit s in
      let u = decoded t in
      if is_empty t.active
      then (not (is_empty t.pending), t)
      else (not (is_empty u.active) || not (is_empty u.pending), u)

  -- while (step()) {}, for at most `fuel` steps: none if that is not enough.
  unfoldable pub run_until_idle : ℕ → Scheduler b → Option (Scheduler b)
  run_until_idle zero s = none
  run_until_idle (suc fuel) s =
      let (more, t) = step s in let rest = run_until_idle fuel t in if more then rest else some t

  unfoldable pub lookup_done : ℕ → List (ℕ × Option b.Error) → Option (Option b.Error)
  lookup_done i [] = none
  lookup_done i ((j, e) ∷ d) = if j == i then some e else lookup_done i d

  -- finished(), error(), active_count() and idle().
  unfoldable pub finished : ℕ → Scheduler b → Bool
  finished i s = elim (lookup_done i s.done) [ none ↦ false | some e ↦ true ]

  unfoldable pub error : ℕ → Scheduler b → Option b.Error
  error i s = elim (lookup_done i s.done) [ none ↦ none | some e ↦ e ]

  unfoldable pub active_count : Scheduler b → ℕ
  active_count s = length s.active

  unfoldable pub idle : Scheduler b → Bool
  idle s = is_empty s.active && is_empty s.pending
