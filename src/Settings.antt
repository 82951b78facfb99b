-- ===== src/Settings.antt =====
-- app/core/config.py: the tunables that the modelled stages read. Keys, paths, model names and the
-- time limits of calls are not modelled.
use streaming_rag.Prelude.{ℕ, String}

pub record Settings (F : Type 0) : Type 0 where
  pub stability_threshold : F
  pub stability_window : ℕ
  pub max_wait_chunks : ℕ
  pub reorder_window_ms : ℕ
  pub merge_threshold : F
  pub dedup_threshold : F
  pub min_relevance : F
  pub k_dense : ℕ
  pub k_sparse : ℕ
  pub rerank_candidates : ℕ
  pub final_k : ℕ
  pub max_total_evidence : ℕ
  pub evidence_token_budget : ℕ
  pub rrf_k : ℕ
  pub entailment_min : F
  pub refinement_threshold : F
  pub session_ttl_seconds : ℕ
  pub llm_provider : String
