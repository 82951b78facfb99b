-- ===== src/Services.antt =====
-- What the stages call and the repository does not implement: the identifier generator, the
-- embedding model, spaCy with the corpus's slots.yaml, the search indexes, the cross-encoder and
-- the two language-model calls. A call that the code bounds by a timeout raises when it expires.
use streaming_rag.Prelude.{ℕ, String, Option, List, Result, Exn}
use streaming_rag.Models.{RetrievedChunk}
use streaming_rag.Controller.Extraction.{Nlp}

-- The tokens of a streamed answer, and the exception that cut it short if one did.
pub record Streamed : Type 0 where
  pub tokens : List String
  pub cut_by : Option Exn

pub record Services (F : Type 0) : Type 0 where
  pub ulid : ℕ → String
  -- `type(exc).__name__`
  pub name_of : Exn → String
  pub embed : String → Result (List F)
  pub nlp : Nlp
  -- corpus_id, text and top_k, to the hits or what is raised, and the measured milliseconds
  pub dense_search : String → String → ℕ → Result (List (RetrievedChunk F)) × ℕ
  pub sparse_search : String → String → ℕ → Result (List (RetrievedChunk F)) × ℕ
  pub score : List (String × String) → Result (List F)
  -- the model's (text, intent_label) pairs, or `none` where the output has another shape
  pub llm_decompose : String → Result (Option (List (String × String)))
  pub llm_stream : String → String → Streamed
  pub llm_complete : String → String → Result String
