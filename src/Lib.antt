-- ===== src/Lib.antt =====
-- Streaming Live RAG (app/, scripts/): a verification library for the pipeline that turns a stream of
-- transcript chunks into grounded, versioned answers.
--
-- The program. A WebSocket connection of a session (app/api/stream.py) receives chunks one at a time.
-- Each goes through the session's reorder buffer (`SessionRecord.ingest_chunk` of
-- app/session/session_store.py). Every chunk that the buffer commits is given to the retrieval
-- controller (`on_chunk` of app/controller/retrieval_controller.py), which waits, retrieves, refines or
-- declines; a retrieval decomposes the transcript into sub-queries (app/decomposition/multi_intent.py),
-- searches two indexes for each (app/retrieval/hybrid.py), fuses, deduplicates and compares what they
-- find (app/retrieval/fusion.py) and reranks it (app/reranking/cross_encoder.py). A decision to retrieve
-- is followed by an answer (app/generation/streaming_generator.py), whose sentences are checked against
-- the evidence (app/grounding/citation_validator.py). Every stage hands its events to the event log
-- (app/telemetry/event_logger.py), from which sessions are replayed (app/api/events.py) and the figures
-- of an evaluation computed (app/telemetry/metrics.py). The two indexes are filled by
-- scripts/ingest_corpus.py, which cuts the documents of a corpus into chunks and writes them to the
-- vector store (app/retrieval/dense.py) and the sparse index (app/retrieval/sparse_bm25.py).
--
-- The files.
--   Prelude and below: Boolean tests, lists, sorting, dictionaries as association lists in insertion
--     order, and results that may be an exception.
--   Float, Text, Services, Settings: what the code takes from elsewhere, as parameters. `Float` holds
--     the arithmetic of scores, with a total and transitive `<=`; `Unicode` the character classes of
--     Python's `str` and `re`; `Services` the identifier generator, the embedding model, spaCy, the
--     search indexes, the cross-encoder and the language model, each of which may fail.
--     Text.Regex is a backtracking matcher for the patterns that the code writes.
--   Models, Models.Events: app/models/, app/core/slots.py, app/core/events.py.
--   Turn: the state that a turn works on (session record, telemetry, identifiers minted) and stages
--     that may raise, as functions on it; what a stage wrote before it raised stays. Turn.Quiet has the
--     rules for stages that always return and leave the session alone.
--   Session.Buffer: `TranscriptBuffer` is the fields `buffer`, `_pending`, `_next_seq` and
--     `_gap_opened_at_ms`; the modules below it hold its invariant and what it delivers.
--     Session.Record is `SessionRecord`; Session.Store is `SessionStore`, with the clock as an argument,
--     and the modules below it say whose record it hands out and which it refuses. Session.DeltaEngine is
--     app/session/delta_engine.py.
--   Controller: Extraction, Suppression, RetrievalController and OnChunk are the files of
--     app/controller/; `on_chunk` is one function for each part between two of its returns. Frame and
--     Relations are rules for what stages do to a session; Identity, Waits, Decisions, Gate and Retry
--     are about `on_chunk`.
--   Decomposition, Retrieval, Reranking, Grounding, Generation: the directories of those names.
--   Corpus: Slots is app/core/slots.py. Sections, Chunking, Documents and Ingest are
--     scripts/ingest_corpus.py: the sections of a text, the chunks of a document, `_prepare`, and
--     `ingest_corpus` on a `World` of the store and the files. Bm25 (with Bm25.Registry) is
--     app/retrieval/sparse_bm25.py with `rank_bm25`, pickle and `argsort` as the parameters `Okapi` and
--     `Pickle`; Dense is app/retrieval/dense.py with the client as the parameter `Qdrant`;
--     Embeddings is app/core/embeddings.py with sentence-transformers as the parameter `Library`. The
--     modules below each hold what is shown of it.
--   Telemetry: EventLogger is app/telemetry/event_logger.py with `get_session_events` of
--     app/api/events.py; its state is the queue and the table that the connection sees, a flush is one
--     step, and JSON, ISO times and SQLite's order of texts are the parameter `Codec`. Below it, Records
--     relates the table to the log of the events, Delivery and Isolation follow an event from `sink` to
--     `query`. Metrics is app/telemetry/metrics.py.
--   Stream: the loop body of `stream_endpoint` for one received chunk. The sink's events are the `log` of
--     the turn; the record's own `event_log`, which nothing reads meanwhile, has them appended at the end
--     of the connection. Stream.Connection is the whole of `stream_endpoint`, with what `receive_json`
--     comes to, or raises, as a list, and the time of each look into the store; Stream.Turns and
--     Stream.Served say what a chunk and a connection lead to.
--   Api: app/api/session.py and app/api/deps.py. Api.Evaluation is app/api/evaluate.py, with what can
--     happen to its runs as a step relation.
--   Tests: the theorems at concrete inputs.
--
-- Fuel. `drain` has the number of pending chunks as fuel, each round removing one; the loop that cuts
-- sentences (`split_loop`) has the number of characters of its buffer, since a cut takes one at least,
-- and its theorem says that nothing is left to cut; `decimal_from` has one more than the number, which
-- has no more digits. The regeneration of a sentence counts down from `_REGENERATE_MAX_ATTEMPTS`. The
-- windows of a paragraph (`ranges_from`) have its number of tokens, each window starting a token
-- further at least, and the batches of points (`batches_of`) the number of points. The pages of a scroll
-- are bounded by a parameter, and a longer scroll has no result.
--
-- Not modelled. The socket, the JSON of its frames, what the sender of events raises, app/main.py, the
-- wrappers of the cross-encoder and the language models, the parsing of arguments, and the benchmarks.
-- Of the event log, the wait for the connection and reads that fail; of an ingestion, times, log lines
-- and writes of files that fail.
-- Concurrency is sequenced: the session's lock keeps its turns apart, and the searches of a request,
-- which the code starts together, run in the order in which they are started. Times are the numbers
-- that the chunks carry.
mod Prelude
mod Tests
pub mod Text
pub mod Float
pub mod Models
pub mod Settings
pub mod Services
pub mod Turn
pub mod Session
pub mod Controller
pub mod Decomposition
pub mod Retrieval
pub mod Reranking
pub mod Grounding
pub mod Generation
pub mod Stream
pub mod Api
pub mod Corpus
pub mod Telemetry
