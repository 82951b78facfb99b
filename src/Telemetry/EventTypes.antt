-- ===== src/Telemetry/EventTypes.antt =====
-- The values of `EventType` (app/core/events.py), as they are stored.
use streaming_rag.Prelude.{
  ◌≡◌, refl, String, Option, none, some, List, [], ◌∷◌, ◌==◌, string_eq, if◌then◌else◌,
}
use streaming_rag.Models.Events.{EventType}

-- `EventType.value`
unfoldable pub value : EventType → String
value EventType.transcript_chunk = "TRANSCRIPT_CHUNK"
value EventType.retrieval_decision = "RETRIEVAL_DECISION"
value EventType.subquery_created = "SUBQUERY_CREATED"
value EventType.retrieval_started = "RETRIEVAL_STARTED"
value EventType.retrieval_completed = "RETRIEVAL_COMPLETED"
value EventType.rerank_completed = "RERANK_COMPLETED"
value EventType.citation_created = "CITATION_CREATED"
value EventType.answer_version_created = "ANSWER_VERSION_CREATED"
value EventType.answer_delta = "ANSWER_DELTA"
value EventType.uncertainty = "UNCERTAINTY"
value EventType.error = "ERROR"
value EventType.session_updated = "SESSION_UPDATED"
value EventType.session_resync = "SESSION_RESYNC"

abbrev pub all : List EventType
all =
    EventType.transcript_chunk ∷ EventType.retrieval_decision ∷ EventType.subquery_created
    ∷ EventType.retrieval_started ∷ EventType.retrieval_completed ∷ EventType.rerank_completed
    ∷ EventType.citation_created ∷ EventType.answer_version_created ∷ EventType.answer_delta
    ∷ EventType.uncertainty ∷ EventType.error ∷ EventType.session_updated ∷ EventType.session_resync
    ∷ []

abbrev pub find : String → List EventType → Option EventType
unfolding value
find s [] = none
find s (t ∷ ts) = if value t == s then some t else find s ts

-- `EventType(s)`, which raises on a text that is no value.
unfoldable pub parse : String → Option EventType
unfolding value
parse s = find s all

pub parse-value : (t : EventType) → parse (value t) ≡ some t
unfolding parse value
parse-value EventType.transcript_chunk = refl
parse-value EventType.retrieval_decision = refl
parse-value EventType.subquery_created = refl
parse-value EventType.retrieval_started = refl
parse-value EventType.retrieval_completed = refl
parse-value EventType.rerank_completed = refl
parse-value EventType.citation_created = refl
parse-value EventType.answer_version_created = refl
parse-value EventType.answer_delta = refl
parse-value EventType.uncertainty = refl
parse-value EventType.error = refl
parse-value EventType.session_updated = refl
parse-value EventType.session_resync = refl
