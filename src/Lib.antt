-- ===== src/Lib.antt =====
-- Verification of Reame, an inference server around llama.cpp that keeps what it has computed: KV-cache
-- snapshots, exact responses and token streams.
--
-- The parts and their files
--   Scheduler.antt models src/core/scheduler.cpp: submit, admit (with the clone of a donor's prompt),
--     step, finish and run_until_idle. Its children prove what a step keeps (Scheduler/Steps), that no
--     request is lost (Scheduler/Requests), the slots (Scheduler/Seats), termination
--     (Scheduler/Progress) and the cache positions (Scheduler/Cells). The backend, the samplers and the
--     callbacks are the interface `Services`.
--   Cache/Store.antt models src/cache/disk_cache_store.cpp: an LRU store of files within a budget. The
--     file system is an association list, and `accepts` says which writes succeed;
--     one that fails is noticed before the file is closed.
--   Cache/Manager.antt models src/cache/cache_manager.cpp over src/cache/cache_serializer.cpp: a snapshot
--     is packed, checksummed and kept in the store. zstd is a parameter.
--   Cache/Prefix.antt models src/cache/prefix_cache.cpp: a prompt is prefilled from the longest snapshot of
--     one of its block boundaries, through the interface `Snapshots`. Prefix/Managed shows that the manager
--     keeps what the prefix cache relies on.
--   Arca/Resp.antt models src/arca/resp.cpp, the RESP request parser and the replies; Arca/Archive.antt
--     src/arca/archive.cpp, the commands on a store and a corpus; Arca/Server.antt the connection loop of
--     src/arca/server.cpp, with its proofs in Server/Commands and Server/Sound; Arca/Client.antt
--     src/arca/client.cpp. Arca/Remote.antt puts the client and the daemon together as the archive that
--     the engine asks.
--   Corpus.antt models src/palimpsest/corpus_index.cpp: the log of token streams, its n-gram index and its
--     file.
--   Speculative/PromptLookup.antt models src/speculative/prompt_lookup.cpp, and Speculative/FormDraft.antt
--     src/speculative/form_draft.cpp: two sources of drafts that need no second model.
--     Speculative/Verify.antt models src/speculative/draft_generator.cpp and
--     src/speculative/batch_verifier.cpp over abstract distributions.
--   Speculative/Decoder.antt and its children Rounds and Stream model
--     src/speculative/speculative_decoder.cpp: the prompt's check and first pass, the rounds of drafting,
--     verification, roll-back and delivery, and the observation at the end. Decoder/Steps and
--     Decoder/Pieces say what a round comes to, Decoder/Bounds keeps the limits, and Decoder/Greedy
--     relates the rounds to plain decoding at temperature 0.
--   Engine.antt models the configuration and the constructor of src/core/engine.cpp, Engine/Stream.antt its
--     classic path of generation with the transparent archive, and Engine/Sessions.antt its sessions;
--     Engine/Assembly, Engine/Output and Engine/Replay have the proofs. Conclave.antt models
--     src/core/conclave.cpp, and generate_best of the engine over the texts of its attempts.
--   Autoconfig.antt models src/core/autoconfig.cpp: the catalog of models, and the configuration that a
--     model and a machine come to; Autoconfig/Models and Autoconfig/Defaults have the proofs.
--   Settings.antt models src/utils/config.cpp, the configuration file; Http.antt src/server/http_parser.cpp,
--     the requests and responses of the HTTP server.
--   Backend.antt is the seam to llama.cpp, include/reame/core/llama_backend.hpp, as a parameter with the
--     laws that its documentation states. Words.antt and Tokens.antt are the byte packing that several
--     parts share, with FNV-1a; Decimal.antt is std::to_string and std::stol; Dict.antt is std::map;
--     Prelude.antt has the shared names. Examples.antt runs the theorems at concrete inputs.
--
-- How the code is read
--   A call on an object is a function from its state to a result and the new state. A call under a mutex
--   is one step. Exceptions are values. Machine integers keep their wrap-around (`% 2 ^ w`) where the code
--   computes with them; sizes are natural numbers.
--   Loops are structural, or run on fuel: feed_loop has the length of its buffer and one more, and a round
--   takes a byte at least; boundaries_loop has the length of the prompt; evict_loop and clear_loop the
--   number of entries; load_loop the length of the file; run_until_idle any number, and the load of the
--   scheduler and one more is enough; the rounds of generate_stream any number, and three for each token
--   and three more are enough.
--
-- What is not modelled
--   Threads, sockets and clocks; the scan of the directory in the constructor of DiskCacheStore; how the
--   archive's client connects and its deadlines; sampling and acceptance, which are floating point; the
--   engine's paths through the scheduler and the decoder, which are parts of their own; the HTTP server's
--   connections and routes; the numeric getters of the configuration; logging; the binding to llama.cpp.
pub mod Prelude
pub mod Dict
pub mod Words
pub mod Decimal
pub mod Backend
pub mod Cache
pub mod Arca
pub mod Autoconfig
pub mod Tokens
pub mod Corpus
pub mod Scheduler
pub mod Speculative
pub mod Http
pub mod Conclave
pub mod Engine
pub mod Settings
pub mod Examples
