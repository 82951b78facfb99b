-- ===== src/Tests/Telemetry.antt =====
-- The event log at concrete events.
use streaming_rag.Prelude.{◌≡◌, refl, String, true, false, none, some, [], ◌∷◌, All, string_eq}
use streaming_rag.Text.{text_leb}
use streaming_rag.Models.Events.{EventType}
use streaming_rag.Telemetry.EventLogger.{
  StoredEvent, Codec, EventLogger, rows_of, query, sink, flush_pending, get_session_events,
}
use streaming_rag.Telemetry.EventLogger.Delivery.{
  sunk, flushed, run, query-run, IsDelivered, no_filters, get_session_events-IsDelivered,
}
use streaming_rag.Telemetry.EventLogger.Isolation.{IsOf, query-IsOf}

abbrev codec : Codec String String
codec = record {
  isoformat = λ t. t;
  time_of = λ s. some s;
  dumps = λ p. some p;
  loads = λ s. some s;
  text_le = text_leb;
}

abbrev delta : String → String → StoredEvent String String
delta id time = record {
  event_id = id;
  session_id = "s";
  trace_id = "t";
  event_type = EventType.answer_delta;
  timestamp = time;
  payload = "{}";
}

abbrev empty_log : EventLogger String String
empty_log = record { queue = []; conn = some [] }

query-run_example :
    query codec "s" no_filters (
      flush_pending codec none (
        run codec
          (sunk (delta "b" "2") ∷ flushed ∷ sunk (delta "a" "1") ∷ sunk (delta "b" "3") ∷ [])
          empty_log))
    ≡ some (delta "a" "1" ∷ delta "b" "2" ∷ [])
unfolding rows_of
query-run_example =
    query-run codec (λ p. (p, refl, refl)) (λ t. refl)
      (sunk (delta "b" "2") ∷ flushed ∷ sunk (delta "a" "1") ∷ sunk (delta "b" "3") ∷ []) "s"
      no_filters [] empty_log ([], [], refl, refl, refl)

get_session_events-IsDelivered_example :
    IsDelivered
      (delta "e" "1")
      (get_session_events codec none false true "s" no_filters
        (sink codec (delta "e" "1") empty_log)).0
unfolding rows_of
get_session_events-IsDelivered_example =
    get_session_events-IsDelivered codec (λ p. (p, refl, refl)) (λ t. refl) false true
      (delta "e" "1") [] empty_log ([], [], refl, refl, refl) refl

query-IsOf_example : All (IsOf "s") (delta "e" "1" ∷ [])
unfolding query flush_pending sink
query-IsOf_example =
    query-IsOf codec "s" no_filters
      (flush_pending codec none (sink codec (delta "e" "1") empty_log)) (delta "e" "1" ∷ []) refl
