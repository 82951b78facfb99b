-- ===== src/Models/Events.antt =====
-- app/core/events.py, app/models/retrieval_event.py and the payloads of the telemetry events. The
-- event's own id and time are the process's and read by none of the modelled code.
use streaming_rag.Prelude.{ℕ, String, Bool, Option, List, Dict}

pub data EventType : Type 0 where
  transcript_chunk retrieval_decision subquery_created retrieval_started retrieval_completed :
      EventType
  rerank_completed citation_created answer_version_created answer_delta uncertainty error :
      EventType
  session_updated session_resync : EventType

pub data RetrievalTrigger : Type 0 where
  provisional final delta forced_after_max_wait multi_intent : RetrievalTrigger

pub data RetrievalMode : Type 0 where
  dense sparse : RetrievalMode

pub data Decision : Type 0 where
  wait retrieve no_retrieval : Decision

-- The payload of each type of event that the stages emit.
pub data Payload (F : Type 0) : Type 0 where
  decided : Decision → Option RetrievalTrigger → String → Payload F
  subquery : String → String → String → Payload F
  started : String → RetrievalMode → ℕ → RetrievalTrigger → Payload F
  completed : String → RetrievalMode → List String → List F → ℕ → ℕ → RetrievalTrigger → Payload F
  reranked : String → List String → List (Option F) → Payload F
  cited : String → String → String → String → Payload F
  versioned : ℕ → String → List String → Option ℕ → Payload F
  answered : ℕ → String → Bool → Payload F
  uncertain : String → String → Option String → Payload F
  failed : String → String → String → Payload F
  status_closed : Payload F
  resynced : Option ℕ → Dict String String → Option ℕ → Payload F

-- `event_type` of the event that carries a payload.
unfoldable pub event_type_of : {F : Type 0} → Payload F → EventType
event_type_of (decided d t r) = EventType.retrieval_decision
event_type_of (subquery i t l) = EventType.subquery_created
event_type_of (started i m t g) = EventType.retrieval_started
event_type_of (completed i m c s l t g) = EventType.retrieval_completed
event_type_of (reranked i c s) = EventType.rerank_completed
event_type_of (cited c d s t) = EventType.citation_created
event_type_of (versioned n t c s) = EventType.answer_version_created
event_type_of (answered n t f) = EventType.answer_delta
event_type_of (uncertain i r q) = EventType.uncertainty
event_type_of (failed s e m) = EventType.error
event_type_of status_closed = EventType.session_updated
event_type_of (resynced v e s) = EventType.session_resync

pub record TelemetryEvent (F : Type 0) : Type 0 where
  pub session_id : String
  pub trace_id : String
  pub payload : Payload F

-- retrieval_event.py, `RetrievalEvent`
pub record RetrievalEvent (F : Type 0) : Type 0 where
  pub session_id : String
  pub sub_query_id : String
  pub mode : RetrievalMode
  pub result_chunk_ids : List String
  pub scores : List F
  pub latency_ms : ℕ
  pub t_offset_ms : ℕ
  pub trigger : RetrievalTrigger

pub record RetrievalRequest : Type 0 where
  pub session_id : String
  pub trace_id : String
  pub sub_query_id : String
  pub text : String
  pub corpus_id : String
  pub trigger : RetrievalTrigger
  pub t_offset_ms : ℕ
