-- ===== src/Tests/Turns.antt =====
-- Turns of the controller and the generator at concrete sessions.
use streaming_rag.Prelude.{◌⊎◌, ℕ, ◌≡◌, refl, ◌≤◌, true, none, List, [], ◌∷◌, arith}
use streaming_rag.Float.{nat_float}
use streaming_rag.Retrieval.Fusion.{RetrievalResult}
use streaming_rag.Turn.{Turn}
use streaming_rag.Stream.Turns.{Handled, handle_chunk-Handled}
use streaming_rag.Controller.OnChunk.{on_chunk, fire_turn}
use streaming_rag.Controller.OnChunk.Gate.{Decided, on_chunk-Decided}
use streaming_rag.Controller.OnChunk.Waits.{on_chunk-wait_count-le}
use streaming_rag.Controller.OnChunk.Identity.{Unchanged, on_chunk-keeps_topic}
use streaming_rag.Generation.StreamingGenerator.{stream_answer}
use streaming_rag.Generation.StreamingGenerator.Versions.{Answers, Refuses, stream_answer-Answers}
use streaming_rag.Generation.StreamingGenerator.Numbering.{IsNumbered, stream_answer-IsNumbered}
use streaming_rag.Tests.Data.{
  spaces, services, broken_services, settings, chunk, turn, later_turn, question, row, hit,
}

handle_chunk-Handled_example : Handled services settings (λ x. "Error") (chunk 0) turn
handle_chunk-Handled_example =
    handle_chunk-Handled services settings (λ x. "Error") (chunk 0) turn tt (omega arith)

on_chunk-Decided_example : Decided services settings (chunk 0) turn (1 ∷ [])
on_chunk-Decided_example = on_chunk-Decided services settings (chunk 0) turn (1 ∷ []) refl

on_chunk-wait_count-le_example :
    (on_chunk services settings (chunk 0) turn).1.session.wait_count ≤ 2
on_chunk-wait_count-le_example =
    on_chunk-wait_count-le services settings (chunk 0) turn (omega arith)

on_chunk-keeps_topic_example :
    Unchanged services settings later_turn.session
      (on_chunk services settings (chunk 0) later_turn).1.session
    × ((on_chunk services settings (chunk 0) later_turn).1.session.has_retrieved_for_topic ≡ true)
on_chunk-keeps_topic_example = on_chunk-keeps_topic services settings (chunk 0) later_turn refl

abbrev results : List (RetrievalResult ℕ)
results =
    record {
      sub_query_id = "q";
      corpus_id = "k";
      dense = hit ∷ [];
      sparse = [];
      dense_error = none;
      sparse_error = none;
      retrieval_events = [];
    }
    ∷ []

stream_answer-Answers_example :
    Answers (stream_answer services settings (question ∷ []) (row "e1" 5 ∷ []) results) turn
    ⊎ Refuses services settings
        (stream_answer services settings (question ∷ []) (row "e1" 5 ∷ []) results)
        turn
stream_answer-Answers_example =
    stream_answer-Answers services settings (question ∷ []) (row "e1" 5 ∷ []) results turn

stream_answer-IsNumbered_example :
    IsNumbered
      (stream_answer services settings (question ∷ []) (row "e1" 5 ∷ []) results turn).1.session
stream_answer-IsNumbered_example =
    stream_answer-IsNumbered services settings (question ∷ []) (row "e1" 5 ∷ []) results turn tt

-- The session once the retrieval has raised.
abbrev failed_turn : Turn ℕ
failed_turn = (fire_turn broken_services settings (chunk 0) (1 ∷ []) turn).1
