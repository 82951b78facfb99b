-- ===== src/Session/Record.antt =====
-- `SessionRecord` of app/session/session_store.py, with the buffer fields in `TranscriptBuffer`.
-- The lock is not modelled: one call runs at a time.
use streaming_rag.Prelude.{ℕ, String, Bool, false, Option, none, List, [], Dict}
use streaming_rag.Models.{Evidence, AnswerVersion}
use streaming_rag.Models.Events.{TelemetryEvent}
use streaming_rag.Session.Buffer.{TranscriptBuffer, empty_buffer}

pub data SessionStatus : Type 0 where
  active closed : SessionStatus

pub record SessionRecord (F : Type 0) : Type 0 where
  pub session_id : String
  pub corpus_id : String
  pub created_at : ℕ
  pub last_active_at : ℕ
  pub status : SessionStatus
  pub entities : Dict String String
  pub embedding_history : List (List F)
  pub wait_count : ℕ
  pub has_retrieved_for_topic : Bool
  pub topic_embedding : Option (List F)
  pub last_evidence : List (Evidence F)
  pub answer_versions : List AnswerVersion
  pub transcript : TranscriptBuffer
  pub ever_connected : Bool
  pub event_log : List (TelemetryEvent F)

-- `SessionRecord.__init__`
abbrev pub new_session : {F : Type 0} → String → String → ℕ → SessionRecord F
new_session session_id corpus_id created_at = record {
  session_id = session_id;
  corpus_id = corpus_id;
  created_at = created_at;
  last_active_at = created_at;
  status = active;
  entities = [];
  embedding_history = [];
  wait_count = 0;
  has_retrieved_for_topic = false;
  topic_embedding = none;
  last_evidence = [];
  answer_versions = [];
  transcript = empty_buffer;
  ever_connected = false;
  event_log = [];
}
