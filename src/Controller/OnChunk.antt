-- ===== src/Controller/OnChunk.antt =====
-- `on_chunk` of app/controller/retrieval_controller.py: WAIT, RETRIEVE or NO_RETRIEVAL for one
-- chunk. The proofs are in the modules below.
pub mod Frame
pub mod Relations
pub mod Identity
pub mod Waits
pub mod Decisions
pub mod Gate
pub mod Retry
use streaming_rag.Prelude.{
  ℕ, zero, suc, ◌+◌, String, Bool, true, false, not, ◌&&◌, ◌||◌, Option, none, some, List, [], ◌∷◌,
  ◌++◌, if◌then◌else◌, ltb, is_some, length, Dict, string_eq, update,
}
use streaming_rag.Float.{Float, less}
use streaming_rag.Text.{Unicode}
use streaming_rag.Models.Events.{Decision, RetrievalTrigger}
use streaming_rag.Services.{Services}
use streaming_rag.Settings.{Settings}
use streaming_rag.Turn.{Turn, Exec, pure, lift, reads, set_session, ◌>>=◌, ◌>>◌}
use streaming_rag.Session.Record.{SessionRecord}
use streaming_rag.Session.Buffer.{TranscriptChunk, buffer_text}
use streaming_rag.Session.DeltaEngine.{Classification, classify_segment}
use streaming_rag.Controller.Extraction.{extract_entities, entity_diff}
use streaming_rag.Controller.Suppression.{check_suppression, is_empty_dict}
use streaming_rag.Controller.RetrievalController.{
  ControllerDecision, compute_stability, decide, retrieve_turn, refine,
}

-- The trigger of a decision that is not forced.
abbrev pub own_trigger : TranscriptChunk → RetrievalTrigger
own_trigger chunk = if chunk.is_final then RetrievalTrigger.final else RetrievalTrigger.provisional

module _ {F : Type 0} where
  -- `session.topic_embedding = embedding` and `session.last_evidence = decision.evidence`, after
  -- the decision is there
  unfoldable pub commit_decision :
      List F → Exec F (ControllerDecision F) → Exec F (ControllerDecision F)
  commit_decision embedding m = do
    d ← m
    set_session (λ s. record s { topic_embedding = some embedding; last_evidence = d.evidence })
    pure d

  unfoldable pub set_wait_count : ℕ → Exec F (Unit {0})
  set_wait_count n = set_session (λ s. record s { wait_count = n })

module _ {F : Type 0} ⦃fl : Float F⦄ ⦃u : Unicode⦄ (services : Services F)
    (settings : Settings F) where
  -- `not delta or (stability < … and not conclusive_single_chunk)`
  abbrev pub must_wait : TranscriptChunk → Dict String String → List (List F) → F → Bool
  must_wait chunk delta history stability =
      is_empty_dict delta
      || (less stability settings.stability_threshold
          && not (chunk.is_final && ltb (length history) settings.stability_window))

  -- The retrieval that the limit on waiting forces.
  unfoldable pub forced_turn : TranscriptChunk → List F → Exec F (ControllerDecision F)
  forced_turn chunk embedding = do
    set_wait_count 0
    commit_decision embedding
        (retrieve_turn services settings chunk RetrievalTrigger.forced_after_max_wait)

  -- The waiting branch: one more wait, and a forced retrieval past the limit.
  unfoldable pub wait_turn : TranscriptChunk → List F → Exec F (ControllerDecision F)
  wait_turn chunk embedding = do
    waited ← reads (λ t. t.session.wait_count)
    set_wait_count (waited + 1)
    if ltb settings.max_wait_chunks (waited + 1)
        then forced_turn chunk embedding
        else decide Decision.wait "intent_unstable"

  -- The retrieving branch.
  unfoldable pub fire_turn : TranscriptChunk → List F → Exec F (ControllerDecision F)
  fire_turn chunk embedding = do
    set_session (λ s. record s { wait_count = 0; has_retrieved_for_topic = true })
    commit_decision embedding (retrieve_turn services settings chunk (own_trigger chunk))

  -- From `stability = …` to the end.
  unfoldable pub stability_turn :
      TranscriptChunk → List F → Dict String String → Exec F (ControllerDecision F)
  stability_turn chunk embedding delta = do
    history ← reads (λ t. t.session.embedding_history)
    stability ← lift (compute_stability history settings.stability_window)
    if must_wait chunk delta history stability
        then wait_turn chunk embedding
        else fire_turn chunk embedding

  -- An established topic, with its embedding.
  unfoldable pub topic_turn :
      TranscriptChunk → List F → Dict String String → List F → Exec F (ControllerDecision F)
  topic_turn chunk embedding delta topic = do
    c ← lift (classify_segment chunk.text_delta topic services.embed settings.refinement_threshold)
    elim c [
      | Classification.ambiguous ↦ decide Decision.no_retrieval "ambiguous_refinement"
      | Classification.refinement ↦ commit_decision embedding (refine services settings chunk delta)
      | Classification.new_topic ↦ stability_turn chunk embedding delta
    ]

  abbrev pub established : Bool → Option (List F) → Option (List F)
  established true topic = topic
  established false topic = none

  -- The rest of a chunk that is not suppressed, from the entity delta on.
  unfoldable pub delta_turn :
      TranscriptChunk → List F → Dict String String → Exec F (ControllerDecision F)
  delta_turn chunk embedding delta = do
    has_topic ← reads (λ t. t.session.has_retrieved_for_topic)
    topic ← reads (λ t. t.session.topic_embedding)
    if is_empty_dict delta && has_topic
        then decide Decision.wait "no_new_entity"
        else (elim (established has_topic topic) [
          | none ↦ stability_turn chunk embedding delta
          | some e ↦ topic_turn chunk embedding delta e
        ])

  abbrev pub has_answer : SessionRecord F → Bool
  has_answer s = elim s.answer_versions [ [] ↦ false | v ∷ vs ↦ true ]

  -- After the embedding: suppression, then the entities.
  unfoldable pub entity_turn : TranscriptChunk → List F → Exec F (ControllerDecision F)
  entity_turn chunk embedding = do
    session ← reads (λ t. t.session)
    let text = buffer_text session.transcript
    suppressed ← lift (
        check_suppression services.nlp text session.entities session.corpus_id (has_answer session))
    if suppressed then decide Decision.no_retrieval "presentation_only" else do
      new_entities ← lift (extract_entities services.nlp text session.corpus_id)
      set_session (λ s. record s { entities = update s.entities new_entities })
      delta_turn chunk embedding (entity_diff new_entities session.entities)

  -- `on_chunk(session, chunk, …)`
  unfoldable pub on_chunk : TranscriptChunk → Exec F (ControllerDecision F)
  on_chunk chunk = do
    embedding ← lift (services.embed chunk.text_delta)
    set_session (λ s. record s { embedding_history = s.embedding_history ++ (embedding ∷ []) })
    entity_turn chunk embedding
