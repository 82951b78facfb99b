-- ===== src/Controller/RetrievalController.antt =====
-- app/controller/retrieval_controller.py: one pass of the controller over a committed chunk.
use streaming_rag.Prelude.{
  ℕ, zero, suc, ◌+◌, ◌-◌, String, Bool, true, false, not, ◌&&◌, ◌||◌, Option, none, some, List, [],
  ◌∷◌, ◌++◌, map, string_eq, ◌==◌, if◌then◌else◌, ltb, is_some, keep, length, drop, Dict, insert,
  update, Result, ok,
}
use streaming_rag.Prelude as Pre
use streaming_rag.Float.{Float, zero_float, cosine, sum_from}
use streaming_rag.Text.{Unicode}
use streaming_rag.Models.{Evidence, SubQuery}
use streaming_rag.Models.Events.{Payload, Decision, RetrievalTrigger}
use streaming_rag.Services.{Services}
use streaming_rag.Settings.{Settings}
use streaming_rag.Turn.{Exec, pure, lift, reads, set_minted, emit, ◌>>=◌, ◌>>◌}
use streaming_rag.Session.Buffer.{TranscriptChunk, buffer_text}
use streaming_rag.Session.DeltaEngine.{build_delta_query}
use streaming_rag.Decomposition.MultiIntent.{decompose}
use streaming_rag.Retrieval.Fusion.{RetrievalResult, ChunksById, rrf_fuse, dedup}
use streaming_rag.Retrieval.Contradictions.{flag_contradictions, is_active}
use streaming_rag.Retrieval.Hybrid.{retrieve}
use streaming_rag.Reranking.CrossEncoder.{
  rerank_subquery, cap_global_evidence, truncate_to_token_budget,
}

pub record ControllerDecision (F : Type 0) : Type 0 where
  pub decision : Decision
  pub reason : String
  pub trigger : Option RetrievalTrigger
  pub sub_query_ids : List String
  pub retrievals : List (RetrievalResult F)
  pub evidence : List (Evidence F)
  pub sub_queries : List SubQuery

unfoldable pub trigger_text : RetrievalTrigger → String
trigger_text RetrievalTrigger.provisional = "provisional"
trigger_text RetrievalTrigger.final = "final"
trigger_text RetrievalTrigger.delta = "delta"
trigger_text RetrievalTrigger.forced_after_max_wait = "forced_after_max_wait"
trigger_text RetrievalTrigger.multi_intent = "multi_intent"

-- `history[-window:]`; the window is at least 2 by the settings.
abbrev pub recent_of {ℓ} : {A : Type ℓ} → ℕ → List A → List A
recent_of window history = drop (length history - window) history

module _ {F : Type 0} ⦃fl : Float F⦄ where
  abbrev cosines_with : List F → List (List F) → Result (List F)
  cosines_with a [] = ok []
  cosines_with a (b ∷ bs) =
      Pre.◌>>=◌ (cosine a b) (λ s. Pre.◌>>=◌ (cosines_with a bs) (λ ss. ok (s ∷ ss)))

  -- The cosines of all pairs, in the order of the comprehension.
  abbrev pair_cosines : List (List F) → Result (List F)
  pair_cosines [] = ok []
  pair_cosines (a ∷ as') =
      Pre.◌>>=◌ (cosines_with a as') (λ ss. Pre.◌>>=◌ (pair_cosines as') (λ ts. ok (ss ++ ts)))

  abbrev mean : List F → F
  mean ss = fl.div (sum_from zero_float ss) (fl.of_ℕ (length ss))

  unfoldable pub compute_stability : List (List F) → ℕ → Result F
  unfolding sum_from
  compute_stability history window =
      let recent = recent_of window history in
      if ltb (length recent) 2
      then ok zero_float
      else Pre.◌>>=◌ (pair_cosines recent) (λ ss. ok (mean ss))

module _ {F : Type 0} where
  -- `_decide`
  unfoldable pub decide : Decision → String → Exec F (ControllerDecision F)
  decide decision reason = do
    emit (Payload.decided decision none reason)
    pure (record {
      decision = decision;
      reason = reason;
      trigger = none;
      sub_query_ids = [];
      retrievals = [];
      evidence = [];
      sub_queries = [];
    })

module _ {F : Type 0} ⦃fl : Float F⦄ ⦃u : Unicode⦄ (services : Services F)
    (settings : Settings F) where
  -- The candidates of one sub-query, reranked, with the event.
  unfoldable pub rerank_all :
      List (Evidence F)
      → ChunksById F
      → List SubQuery
      → Dict String (List (Evidence F))
      → Exec F (Dict String (List (Evidence F)))
  rerank_all evidence chunks [] kept = pure kept
  rerank_all evidence chunks (sq ∷ sqs) kept = do
    let candidates = keep (λ e. e.sub_query_id == sq.sub_query_id && is_active e) evidence
    rows ← lift (
        rerank_subquery sq.text candidates chunks services.score settings.min_relevance
          settings.final_k settings.rerank_candidates)
    emit (
        Payload.reranked sq.sub_query_id (map (λ (e : Evidence F). e.chunk_id) rows)
          (map (λ (e : Evidence F). e.rerank_score) rows))
    rerank_all evidence chunks sqs (insert sq.sub_query_id rows kept)

  -- `_fuse_and_rerank`
  unfoldable pub fuse_and_rerank :
      List (RetrievalResult F) → List SubQuery → Exec F (List (Evidence F))
  fuse_and_rerank results sub_queries = do
    minted ← reads (λ t. t.minted)
    corpus_id ← reads (λ t. t.session.corpus_id)
    let (rows, chunks, minted') = rrf_fuse services.ulid minted settings.rrf_k results
    set_minted minted'
    deduped ← lift (dedup services.embed settings.dedup_threshold rows chunks)
    flagged ← lift (flag_contradictions services.nlp services.ulid minted' deduped chunks corpus_id)
    set_minted flagged.1
    kept ← rerank_all flagged.0 chunks sub_queries []
    lift (
        truncate_to_token_budget (cap_global_evidence kept settings.max_total_evidence) chunks
          settings.evidence_token_budget)

  -- The requests of `_dispatch_and_fuse`, run in order: the first carries the caller's trigger.
  unfoldable pub retrieve_all :
      TranscriptChunk → RetrievalTrigger → List SubQuery → Exec F (List (RetrievalResult F))
  retrieve_all chunk trigger [] = pure []
  retrieve_all chunk trigger (sq ∷ sqs) = do
    session_id ← reads (λ t. t.session.session_id)
    corpus_id ← reads (λ t. t.session.corpus_id)
    trace_id ← reads (λ t. t.trace_id)
    result ← retrieve services settings (record {
      session_id = session_id;
      trace_id = trace_id;
      sub_query_id = sq.sub_query_id;
      text = sq.text;
      corpus_id = corpus_id;
      trigger = trigger;
      t_offset_ms = chunk.t_offset_ms;
    })
    rest ← retrieve_all chunk RetrievalTrigger.multi_intent sqs
    pure (result ∷ rest)

  abbrev pub dispatch_and_fuse :
      TranscriptChunk
      → RetrievalTrigger
      → List SubQuery
      → Exec F (List (RetrievalResult F) × List (Evidence F))
  dispatch_and_fuse chunk trigger sub_queries = do
    results ← retrieve_all chunk trigger sub_queries
    evidence ← fuse_and_rerank results sub_queries
    pure (results, evidence)

  -- What `_retrieve` and `_refine` share: the event, the sub-queries of `text`, their evidence.
  abbrev pub retrieve_for :
      TranscriptChunk → RetrievalTrigger → String → String → Exec F (ControllerDecision F)
  retrieve_for chunk trigger reason text = do
    emit (Payload.decided Decision.retrieve (some trigger) reason)
    session_id ← reads (λ t. t.session.session_id)
    corpus_id ← reads (λ t. t.session.corpus_id)
    sub_queries ← decompose services settings text corpus_id session_id chunk.t_offset_ms
    found ← dispatch_and_fuse chunk trigger sub_queries
    pure (record {
      decision = Decision.retrieve;
      reason = reason;
      trigger = some trigger;
      sub_query_ids = map (λ (sq : SubQuery). sq.sub_query_id) sub_queries;
      retrievals = found.0;
      evidence = found.1;
      sub_queries = sub_queries;
    })

  -- `_retrieve`
  unfoldable pub retrieve_turn : TranscriptChunk → RetrievalTrigger → Exec F (ControllerDecision F)
  retrieve_turn chunk trigger = do
    text ← reads (λ t. buffer_text t.session.transcript)
    retrieve_for chunk trigger (trigger_text trigger) text

  -- `new_evidence or session.last_evidence`
  abbrev pub or_last : List (Evidence F) → List (Evidence F) → List (Evidence F)
  or_last [] last = last
  or_last (e ∷ es) last = e ∷ es

  -- `_refine`
  unfoldable pub refine : TranscriptChunk → Dict String String → Exec F (ControllerDecision F)
  refine chunk delta_entities = do
    d ← retrieve_for chunk RetrievalTrigger.delta "refinement" (build_delta_query delta_entities)
    last ← reads (λ t. t.session.last_evidence)
    pure (record d { evidence = or_last d.evidence last })
