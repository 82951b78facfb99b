-- ===== src/Stream.antt =====
-- The turn of app/api/stream.py: what `stream_endpoint` does with one chunk that it has received,
-- under the session's lock. The socket, the parsing of frames and the token check are not modelled;
-- `name_of` is `type(exc).__name__`.
pub mod Turns
pub mod Connection
pub mod Served
use streaming_rag.Prelude.{
  ℕ, suc, ◌++◌, String, Bool, true, false, List, [], ◌∷◌, if◌then◌else◌, Result, ok, raise, Exn,
  exn_text,
}
use streaming_rag.Float.{Float}
use streaming_rag.Text.{Unicode}
use streaming_rag.Models.Events.{Payload, Decision}
use streaming_rag.Services.{Services}
use streaming_rag.Settings.{Settings}
use streaming_rag.Turn.{Turn, Exec, pure, reads, set_session, mint, try_except, ◌>>=◌, ◌>>◌}
use streaming_rag.Session.Record.{SessionRecord}
use streaming_rag.Session.Buffer.{TranscriptChunk, ingest_chunk}
use streaming_rag.Controller.RetrievalController.{ControllerDecision}
use streaming_rag.Controller.OnChunk.{on_chunk}
use streaming_rag.Generation.StreamingGenerator.{stream_answer}

module _ {F : Type 0} where
  -- `trace_id = new_id()`
  unfoldable pub set_trace : String → Exec F (Unit {0})
  set_trace id t = (ok tt, record t { trace_id = id })

  -- `sink(…)` of an event that the endpoint makes itself, with `trace_id=new_id()`
  unfoldable pub emit_traced : (ℕ → String) → Payload F → Exec F (Unit {0})
  emit_traced ulid p t = (
    ok tt,
    record t {
      log =
          if t.has_sink
          then t.log
            ++ (record { session_id = t.session.session_id; trace_id = ulid t.minted; payload = p }
                ∷ [])
          else t.log;
      minted = suc t.minted;
    },
  )

  -- `sink(_error_event(…))`
  abbrev pub emit_error : (ℕ → String) → String → String → String → Exec F (Unit {0})
  emit_error ulid stage error_type message =
      emit_traced ulid (Payload.failed stage error_type message)

  abbrev pub emit_gap : (ℕ → String) → Bool → Exec F (Unit {0})
  emit_gap ulid true = emit_error ulid "stream" "SequenceGap" "sequence_gap"
  emit_gap ulid false = pure tt

module _ {F : Type 0} ⦃fl : Float F⦄ ⦃u : Unicode⦄ (services : Services F) (settings : Settings F)
    (name_of : Exn → String) where
  -- `if decision.decision == "RETRIEVE": await stream_answer(…)`
  unfoldable pub answer_decision : ControllerDecision F → Exec F (Unit {0})
  answer_decision d = elim d.decision [
    | Decision.retrieve ↦
        stream_answer services settings d.sub_queries d.evidence d.retrievals >>= λ _. pure tt
    | _ ↦ pure tt
  ]

  -- One round of `for committed_chunk in committed`.
  unfoldable pub run_committed : TranscriptChunk → Exec F (Unit {0})
  run_committed chunk =
      try_except (on_chunk services settings chunk >>= answer_decision)
        (λ x. emit_error services.ulid "controller" (name_of x) (exn_text x))

  unfoldable pub run_all : List TranscriptChunk → Exec F (Unit {0})
  run_all [] = pure tt
  run_all (c ∷ cs) = run_committed c >> run_all cs

  -- The body of the loop from `async with record.lock` on.
  unfoldable pub handle_chunk : TranscriptChunk → Exec F (Unit {0})
  handle_chunk chunk = do
    trace_id ← mint services.ulid
    set_trace trace_id
    r ← reads (λ t. ingest_chunk t.session.transcript chunk settings.reorder_window_ms)
    set_session (λ s. record s { transcript = r.0 })
    emit_gap services.ulid r.2
    run_all r.1
