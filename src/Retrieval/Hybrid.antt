-- ===== src/Retrieval/Hybrid.antt =====
-- app/retrieval/hybrid.py: the two searches of one request. They run concurrently in the code; their
-- events stand here in the order in which the code starts the searches. A sink does not raise.
pub mod Isolation
use Prim.Native.String.{◌++◌ as str_append}
use streaming_rag.Prelude.{
  ℕ, String, Bool, true, false, Option, none, some, List, [], ◌∷◌, map, Result, ok, raise, Exn,
  exn_text, timeout_error,
}
use streaming_rag.Models.{RetrievedChunk}
use streaming_rag.Models.Events.{Payload, RetrievalMode, RetrievalEvent, RetrievalRequest}
use streaming_rag.Services.{Services}
use streaming_rag.Settings.{Settings}
use streaming_rag.Turn.{Turn, Exec, pure, lift, try_except, emit, ◌>>=◌, ◌>>◌}
use streaming_rag.Retrieval.Fusion.{RetrievalResult}

pub record ModeOutcome (F : Type 0) : Type 0 where
  pub hits : List (RetrievedChunk F)
  pub event : RetrievalEvent F
  pub error : Option String

unfoldable pub mode_text : RetrievalMode → String
mode_text RetrievalMode.dense = "dense"
mode_text RetrievalMode.sparse = "sparse"

-- `error` and `error_type` of an exception: `except TimeoutError`, and any other
abbrev pub error_of : (Exn → String) → Exn → String × String
error_of name_of timeout_error = ("timeout", "RetrievalTimeout")
error_of name_of exc = (str_append (name_of exc) (str_append ": " (exn_text exc)), name_of exc)

module _ {F : Type 0} where
  -- `hits = await search()`
  abbrev pub awaited :
      Result (List (RetrievedChunk F)) → Exec F (List (RetrievedChunk F) × Option (String × String))
  awaited search = lift search >>= λ hits. pure (hits, none)

  -- `try: … except TimeoutError: … except Exception as exc: …`
  abbrev pub searched :
      (Exn → String)
      → Result (List (RetrievedChunk F))
      → Exec F (List (RetrievedChunk F) × Option (String × String))
  searched name_of search =
      try_except (awaited search) (λ exc. pure ([], some (error_of name_of exc)))

  abbrev pub emit_error :
      RetrievalRequest → RetrievalMode → Option (String × String) → Exec F (Unit {0})
  emit_error request mode none = pure tt
  emit_error request mode (some (error, error_type)) = emit (
      Payload.failed "retrieval" error_type (
        str_append (mode_text mode) (
          str_append " retrieval failed for sub_query "
            (str_append request.sub_query_id (str_append ": " error)))))

  -- `_run_mode`, where the search comes to hits or raises, after `latency_ms`
  unfoldable pub run_mode :
      (Exn → String)
      → RetrievalRequest
      → RetrievalMode
      → Result (List (RetrievedChunk F)) × ℕ
      → Exec F (ModeOutcome F)
  run_mode name_of request mode (search, latency_ms) = do
    emit (Payload.started request.sub_query_id mode request.t_offset_ms request.trigger)
    outcome ← searched name_of search
    let ids = map (λ (h : RetrievedChunk F). h.chunk_id) outcome.0
    let scores = map (λ (h : RetrievedChunk F). h.score) outcome.0
    emit (
        Payload.completed request.sub_query_id mode ids scores latency_ms request.t_offset_ms
          request.trigger)
    emit_error request mode outcome.1
    pure (record {
      hits = outcome.0;
      event = record {
        session_id = request.session_id;
        sub_query_id = request.sub_query_id;
        mode = mode;
        result_chunk_ids = ids;
        scores = scores;
        latency_ms = latency_ms;
        t_offset_ms = request.t_offset_ms;
        trigger = request.trigger;
      };
      error = elim outcome.1 [ none ↦ none | some e ↦ some e.0 ];
    })

  -- `HybridRetriever.retrieve`
  unfoldable pub retrieve : Services F → Settings F → RetrievalRequest → Exec F (RetrievalResult F)
  retrieve services settings request = do
    dense ←
        run_mode services.name_of request RetrievalMode.dense
          (services.dense_search request.corpus_id request.text settings.k_dense)
    sparse ←
        run_mode services.name_of request RetrievalMode.sparse
          (services.sparse_search request.corpus_id request.text settings.k_sparse)
    pure (record {
      sub_query_id = request.sub_query_id;
      corpus_id = request.corpus_id;
      dense = dense.hits;
      sparse = sparse.hits;
      dense_error = dense.error;
      sparse_error = sparse.error;
      retrieval_events = dense.event ∷ sparse.event ∷ [];
    })
