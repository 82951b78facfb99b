-- ===== src/Tests/Sessions.antt =====
-- The registry at a concrete store.
use streaming_rag.Prelude.{
  ℕ, ◌≡◌, ◌≤◌, insert, refl, String, true, false, Option, none, some, arith, lookup, string_eq,
  List, [], ◌∷◌, ◌++◌, raise, value_error,
}
use streaming_rag.Float.{nat_float}
use streaming_rag.Models.Events.{TelemetryEvent}
use streaming_rag.Stream.Connection.{
  Received, raw, unreadable, other_value, object, valid, served, stream_endpoint,
}
use streaming_rag.Stream.Served.{IsAfter, chunks_in, stream_endpoint-IsAfter}
use streaming_rag.Corpus.Bm25.Registry.{is_available}
use streaming_rag.Api.{created, found, create_session, get_session, view_of}
use streaming_rag.Api.Evaluation.{
  Runs, new_run, started, trigger_evaluation, triggers, begins, here, next,
}
use streaming_rag.Api.Evaluation.Exclusive.{in_flight, in_flight-Reach}
use streaming_rag.Api.Created.{new_reply, create_session-get_session}
use streaming_rag.Tests.Data.{spaces, services, settings, chunk}
use streaming_rag.Session.Record.{SessionRecord, new_session}
use streaming_rag.Session.Store.{
  Store, validate_corpus_id, get, mark_connected, run_all, creates, gets, closes,
}
use streaming_rag.Session.Store.Keyed.{IsKeyed, Served, get-Served, run_all-IsKeyed}

abbrev ids : ℕ → String
ids n = "id"

abbrev one_session : Store ℕ
one_session = record {
  sessions = ("s", new_session "s" "k" 0) ∷ [];
  has_sink = true;
  log = [];
  minted = 0;
}

get-Served_example : Served 60 5 "s" (new_session "s" "k" 0) one_session one_session
unfolding get
get-Served_example =
    get-Served ids 60 5 "s" one_session one_session (new_session "s" "k" 0) (refl, tt) refl

run_all-IsKeyed_example :
    IsKeyed (run_all ids 60 ((1, creates "k") ∷ (2, gets "s") ∷ (3, closes "s") ∷ []) one_session)
run_all-IsKeyed_example =
    run_all-IsKeyed ids 60 ((1, creates "k") ∷ (2, gets "s") ∷ (3, closes "s") ∷ []) one_session
      (refl, tt)

abbrev connected_session : SessionRecord ℕ
connected_session = record (new_session "s" "k" 0) { ever_connected = true }

abbrev connected_store : Store ℕ
connected_store = record one_session { sessions = ("s", connected_session) ∷ [] }

abbrev frames : List Received
frames =
    raw other_value
    ∷ raw (object (some "TRANSCRIPT_CHUNK") (some (valid (chunk 0))))
    ∷ raw (object (some "TRANSCRIPT_CHUNK") none)
    ∷ unreadable value_error
    ∷ raw (object (some "TRANSCRIPT_CHUNK") (some (valid (chunk 1))))
    ∷ []

stream_endpoint-IsAfter_example :
    (log : List (TelemetryEvent ℕ)) × (end : Store ℕ) × (left : SessionRecord ℕ) × (stream_endpoint
        services settings
        (λ x. "Error")
        "key"
        60
        5
        6
        (some "key")
        "s"
        frames
        one_session
      ≡ (served (raise value_error) log, end))
    × (lookup "s" end.sessions ≡ some left)
    × (left.event_log ≡ connected_session.event_log ++ log)
    × IsAfter settings.reorder_window_ms settings.max_wait_chunks
        (chunk 0 ∷ [])
        connected_session
        left
unfolding get mark_connected chunks_in
stream_endpoint-IsAfter_example =
    stream_endpoint-IsAfter services settings (λ x. "Error") "key" 60 5 6 (some "key") "s" frames
      one_session one_session connected_store (new_session "s" "k" 0) connected_session false refl
      refl refl refl tt (omega arith)

abbrev index_of : String → Option ℕ
index_of c = some 0

create_session-get_session_example :
    (end : Store ℕ) × (create_session ids "key" "k" index_of 5 none one_session
      ≡ (created (new_reply "key" "id" 5), end))
    × (get_session ids 60 9 "id" end ≡ (found (view_of {F = ℕ} (new_session "id" "k" 5)), end))
unfolding is_available validate_corpus_id
create_session-get_session_example =
    create_session-get_session ids "key" "k" index_of 60 5 9 none one_session refl (omega arith)

abbrev asked_run : Runs ℕ
asked_run = ("r1", new_run "r1" 0 "held_out" "k") ∷ []

in_flight-Reach_example :
    in_flight "held_out"
      (trigger_evaluation "r2" 2 "held_out" "k"
        (insert "r1" (started (new_run "r1" 0 "held_out" "k")) asked_run)).1
    ≤ 1
unfolding trigger_evaluation
in_flight-Reach_example = in_flight-Reach "held_out" (
    next
      (next (next here (triggers "r1" 0 "held_out" "k" []))
        (begins "r1" (new_run "r1" 0 "held_out" "k") asked_run refl refl))
      (triggers "r2" 2 "held_out" "k"
        (insert "r1" (started (new_run "r1" 0 "held_out" "k")) asked_run)))
