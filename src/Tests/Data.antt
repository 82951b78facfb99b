-- ===== src/Tests/Data.antt =====
-- The concrete values that the examples share. Numbers stand for floats, and blanks are spaces.
use streaming_rag.Prelude.{
  ℕ, String, true, false, not, none, some, [], ◌∷◌, ok, raise, external, eqb, code,
}
use streaming_rag.Float.{nat_float}
use streaming_rag.Text.{Unicode}
use streaming_rag.Models.{Evidence, SubQuery, RetrievedChunk, ValueType}
use streaming_rag.Models.Events.{RetrievalRequest, RetrievalTrigger}
use streaming_rag.Services.{Services}
use streaming_rag.Settings.{Settings}
use streaming_rag.Turn.{Turn}
use streaming_rag.Session.Record.{new_session}
use streaming_rag.Session.Buffer.{TranscriptChunk}
use streaming_rag.Controller.Extraction.{Nlp}
use streaming_rag.Grounding.Tags.{EvidenceChunk}

instance abbrev pub spaces : Unicode
spaces = record {
  is_word = λ c. not (eqb (code c) 32);
  is_space = λ c. eqb (code c) 32;
  lower = λ c. c;
}

-- Every text speaks of the slot `fee`.
abbrev pub fee_nlp : Nlp
fee_nlp = record {
  tokens = λ s. [];
  phrase_matches = λ ps s. (0, 0, 1) ∷ [];
  slot_schema = λ c. ok (record {
    corpus_id = c;
    slots =
        record {
          name = "fee";
          patterns = "fee" ∷ [];
          value_type = ValueType.categorical;
          is_entity_key = false;
        }
        ∷ [];
  });
}

abbrev pub hit : RetrievedChunk ℕ
hit = record {
  chunk_id = "c1";
  doc_id = "d1";
  corpus_id = "k";
  section = "s1";
  text = "fee";
  chunk_index = 0;
  token_count = 3;
  score = 1;
  rank = 0;
}

-- The dense search finds one chunk, the sparse one breaks, and the language model answers with one
-- sentence.
abbrev pub services : Services ℕ
services = record {
  ulid = λ n. "id";
  name_of = λ exc. "OSError";
  embed = λ s. ok (1 ∷ []);
  nlp = fee_nlp;
  dense_search = λ c s k. (ok (hit ∷ []), 1);
  sparse_search = λ c s k. (raise (external "disk"), 1);
  score = λ ps. ok (5 ∷ []);
  llm_decompose = λ s. raise (external "down");
  llm_stream = λ s p. record { tokens = "fee [d1" ∷ " s1]." ∷ []; cut_by = none };
  llm_complete = λ s p. ok "fee";
}

-- The same with a cross-encoder that fails.
abbrev pub broken_services : Services ℕ
broken_services = record services { score = λ ps. raise (external "cross-encoder") }

abbrev pub settings : Settings ℕ
settings = record {
  stability_threshold = 1;
  stability_window = 2;
  max_wait_chunks = 2;
  reorder_window_ms = 100;
  merge_threshold = 9;
  dedup_threshold = 9;
  min_relevance = 1;
  k_dense = 5;
  k_sparse = 5;
  rerank_candidates = 5;
  final_k = 3;
  max_total_evidence = 2;
  evidence_token_budget = 5;
  rrf_k = 60;
  entailment_min = 0;
  refinement_threshold = 1;
  session_ttl_seconds = 60;
  llm_provider = "anthropic";
}

abbrev pub chunk : ℕ → TranscriptChunk
chunk n = record { seq = n; text_delta = "fee"; t_offset_ms = n; is_final = true }

abbrev pub turn : Turn ℕ
turn = record {
  session = new_session "s" "k" 0;
  trace_id = "t";
  has_sink = true;
  log = [];
  minted = 0;
}

-- A turn of a session that has retrieved before.
abbrev pub later_turn : Turn ℕ
later_turn = record turn {
  session = record (new_session "s" "k" 0) {
    has_retrieved_for_topic = true;
    topic_embedding = some (2 ∷ []);
  };
}

abbrev pub row : String → ℕ → Evidence ℕ
row id n = record {
  evidence_id = id;
  sub_query_id = "q";
  chunk_id = "c1";
  fusion_score = n;
  rerank_score = some n;
  duplicate_of = none;
  contradiction_pair_id = none;
}

abbrev pub question : SubQuery
question = record {
  sub_query_id = "q";
  session_id = "s";
  text = "fee?";
  intent_label = "single";
  parent_transcript_offset = 0;
  merged_from = [];
}

abbrev pub cited : EvidenceChunk
cited = record {
  evidence_id = "e1";
  chunk_id = "c1";
  doc_id = "d1";
  section = "s1";
  text = "fee";
  contradiction_pair_id = none;
}

abbrev pub request : RetrievalRequest
request = record {
  session_id = "s";
  trace_id = "t";
  sub_query_id = "q";
  text = "fee";
  corpus_id = "k";
  trigger = RetrievalTrigger.final;
  t_offset_ms = 0;
}
