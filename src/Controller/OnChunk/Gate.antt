-- ===== src/Controller/OnChunk/Gate.antt =====
-- When `on_chunk` retrieves on its own accord, and what the session keeps of each decision.
use streaming_rag.Prelude.{
  ◌+◌, ◌≡◌, refl, ◌∙◌, sym, ap, subst, String, Bool, true, false, ◌&&◌, Option, none, some, List,
  [], ◌∷◌, ◌++◌, Dict, Result, ok, raise, ltb, if◌then◌else◌, string_eq, update,
}
use streaming_rag.Float.{Float}
use streaming_rag.Text.{Unicode}
use streaming_rag.Models.{Evidence}
use streaming_rag.Models.Events.{RetrievalTrigger, Decision, Payload}
use streaming_rag.Services.{Services}
use streaming_rag.Settings.{Settings}
use streaming_rag.Turn.{Turn, Exec, pure, reads, emit, set_session, ◌>>=◌, ◌>>◌}
use streaming_rag.Session.Record.{SessionRecord}
use streaming_rag.Session.Buffer.{TranscriptChunk, buffer_text}
use streaming_rag.Session.DeltaEngine.{Classification}
use streaming_rag.Controller.Extraction.{extract_entities, entity_diff}
use streaming_rag.Controller.Suppression.{is_empty_dict}
use streaming_rag.Controller.RetrievalController.{
  ControllerDecision, decide, compute_stability, refine,
}
use streaming_rag.Controller.OnChunk.{
  commit_decision, set_wait_count, forced_turn, wait_turn, fire_turn, stability_turn, topic_turn,
  established, delta_turn, entity_turn, on_chunk, own_trigger, must_wait,
}
use streaming_rag.Turn.Quiet.{Quiet-emit}
use streaming_rag.Controller.OnChunk.Decisions.{
  Decides, Decides-bind, Decides-lift, Decides-if, Fires, retrieve_turn-Fires, refine-Fires,
}

-- What the session keeps of a decision: a retrieval leaves the chunk's embedding as the topic's
-- and its evidence as the last; any other decision leaves both as they were.
abbrev pub KeptAt :
    {F : Type 0}
    → List F
    → SessionRecord F
    → List (Evidence F)
    → SessionRecord F
    → Decision
    → Type 0
KeptAt e s evidence s' Decision.retrieve =
    (s'.topic_embedding ≡ some e) × (s'.last_evidence ≡ evidence)
KeptAt e s evidence s' _ =
    (s'.topic_embedding ≡ s.topic_embedding) × (s'.last_evidence ≡ s.last_evidence)

-- `G` holds if the trigger is one of a retrieval that nothing forced and that refines nothing.
abbrev pub GateAt : Type 0 → Option RetrievalTrigger → Type 0
GateAt G (some RetrievalTrigger.provisional) = G
GateAt G (some RetrievalTrigger.final) = G
GateAt G _ = Unit

abbrev pub Sound :
    {F : Type 0} → Type 0 → List F → SessionRecord F → ControllerDecision F → Turn F → Type 0
Sound G e s d t = KeptAt e s d.evidence t.session d.decision × GateAt G d.trigger

abbrev SameTopic : {F : Type 0} → SessionRecord F → SessionRecord F → Type 0
SameTopic s s' = (s'.topic_embedding ≡ s.topic_embedding) × (s'.last_evidence ≡ s.last_evidence)

module _ {F : Type 0} (P : ControllerDecision F → Turn F → Type 0) where
  Decides-set :
      (f : SessionRecord F → SessionRecord F) (n : Exec F (ControllerDecision F)) (t : Turn F)
      → Decides P (n (record t { session = f t.session }))
      → Decides P ((set_session f >> n) t)
  unfolding ◌>>=◌
  Decides-set f n t h = h

  Decides-reads :
      {A : Type 0} (f : Turn F → A) (k : A → Exec F (ControllerDecision F)) (t : Turn F)
      → Decides P (k (f t) t)
      → Decides P ((reads f >>= k) t)
  unfolding ◌>>=◌
  Decides-reads f k t h = h

module _ {F : Type 0} (G : Type 0) (e : List F) (s : SessionRecord F) where
  decide-Sound :
      (decision : Decision) (reason : String) (t : Turn F)
      → ((s' : SessionRecord F) → SameTopic s s' → KeptAt e s [] s' decision)
      → SameTopic s t.session
      → Decides (Sound G e s) (decide decision reason t)
  unfolding decide pure
  decide-Sound decision reason t kept h =
      Decides-bind (Sound G e s) (emit (Payload.decided decision none reason)) _ t (λ _ t1 q.
        let (a, t', k, p, _) = (Quiet-emit (Payload.decided decision none reason)).at t in
        (
          kept t1.session (
              subst (SameTopic s)
                (sym (ap (λ (x : Result (Unit {0}) × Turn F). x.1.session) (sym q ∙ k) ∙ p)) h),
          tt,
        ))

  commit_decision-Sound :
      (trigger : RetrievalTrigger) (m : Exec F (ControllerDecision F)) (t : Turn F)
      → GateAt G (some trigger)
      → Decides (Fires trigger) (m t)
      → Decides (Sound G e s) (commit_decision e m t)
  unfolding commit_decision pure
  commit_decision-Sound trigger m t g h = Decides-bind (Sound G e s) m _ t (λ d t1 q.
      Decides-set (Sound G e s) _ (pure d) t1
        (committed d t1 (subst (Decides (Fires trigger)) q h)))
    where
      committed :
          (d : ControllerDecision F) (t1 : Turn F)
          → Fires trigger d t1
          → Decides (Sound G e s) (
              pure d (record t1 {
                session = record t1.session {
                  topic_embedding = some e;
                  last_evidence = d.evidence;
                };
              }))
      committed d t1 (p, q) = (
        subst
            (KeptAt e s d.evidence
              (record t1.session { topic_embedding = some e; last_evidence = d.evidence }))
            (sym p) (refl, refl),
        subst (GateAt G) (sym q) g,
      )

module _ {F : Type 0} ⦃fl : Float F⦄ ⦃u : Unicode⦄ (services : Services F) (settings : Settings F)
    (G : Type 0) (e : List F) (s : SessionRecord F) (chunk : TranscriptChunk) where
  forced_turn-Sound : (t : Turn F) → Decides (Sound G e s) (forced_turn services settings chunk e t)
  unfolding forced_turn set_wait_count
  forced_turn-Sound t = Decides-set (Sound G e s) _ _ t (
      commit_decision-Sound G e s RetrievalTrigger.forced_after_max_wait _ _ tt
        (retrieve_turn-Fires services settings chunk _ _))

  wait_turn-Sound :
      (t : Turn F)
      → SameTopic s t.session
      → Decides (Sound G e s) (wait_turn services settings chunk e t)
  unfolding wait_turn set_wait_count
  wait_turn-Sound t h = Decides-reads (Sound G e s) _ _ t (
      Decides-set (Sound G e s) _ _ t (
        Decides-if (Sound G e s) (ltb settings.max_wait_chunks (t.session.wait_count + 1))
          (forced_turn services settings chunk e) (decide Decision.wait "intent_unstable")
          (record t { session = record t.session { wait_count = t.session.wait_count + 1 } })
          (λ _. forced_turn-Sound _)
          (λ _.
            decide-Sound G e s Decision.wait "intent_unstable"
              (record t { session = record t.session { wait_count = t.session.wait_count + 1 } })
              (λ _ k. k) h)))

  fire_turn-Sound : G → (t : Turn F) → Decides (Sound G e s) (fire_turn services settings chunk e t)
  unfolding fire_turn
  fire_turn-Sound g t = Decides-set (Sound G e s) _ _ t (
      commit_decision-Sound G e s (own_trigger chunk) _ _ (gate chunk.is_final)
        (retrieve_turn-Fires services settings chunk _ _))
    where
      gate :
          (b : Bool)
          → GateAt G (some (if b then RetrievalTrigger.final else RetrievalTrigger.provisional))
      gate true = g
      gate false = g

  -- `G` follows from what the code has found when it does not wait.
  abbrev Opens : Dict String String → SessionRecord F → Type 0
  Opens delta s' =
      (stability : F)
      → compute_stability s'.embedding_history settings.stability_window ≡ ok stability
      → must_wait services settings chunk delta s'.embedding_history stability ≡ false
      → G

  stability_turn-Sound :
      (delta : Dict String String) (t : Turn F)
      → SameTopic s t.session
      → Opens delta t.session
      → Decides (Sound G e s) (stability_turn services settings chunk e delta t)
  unfolding stability_turn
  stability_turn-Sound delta t h g = Decides-reads (Sound G e s) _ _ t (
      Decides-lift (Sound G e s) _ _ t (λ stability q.
        Decides-if (Sound G e s)
          (must_wait services settings chunk delta t.session.embedding_history stability)
          (wait_turn services settings chunk e) (fire_turn services settings chunk e) t
          (λ _. wait_turn-Sound t h) (λ k. fire_turn-Sound (g stability q k) t)))

  topic_turn-Sound :
      (delta : Dict String String) (topic : List F) (t : Turn F)
      → SameTopic s t.session
      → Opens delta t.session
      → Decides (Sound G e s) (topic_turn services settings chunk e delta topic t)
  unfolding topic_turn
  topic_turn-Sound delta topic t h g = Decides-lift (Sound G e s) _ _ t (λ c _. by_class c)
    where
      by_class :
          (c : Classification)
          → Decides (Sound G e s) (
              (elim c as (λ _. Exec F (ControllerDecision F)) [
                | Classification.ambiguous ↦ decide Decision.no_retrieval "ambiguous_refinement"
                | Classification.refinement ↦
                    commit_decision e (refine services settings chunk delta)
                | Classification.new_topic ↦ stability_turn services settings chunk e delta
              ])
                t)
      by_class Classification.ambiguous = decide-Sound G e s Decision.no_retrieval _ t (λ _ k. k) h
      by_class Classification.refinement =
          commit_decision-Sound G e s RetrievalTrigger.delta _ t tt
            (refine-Fires services settings chunk delta t)
      by_class Classification.new_topic = stability_turn-Sound delta t h g

  delta_turn-Sound :
      (delta : Dict String String) (t : Turn F)
      → SameTopic s t.session
      → Opens delta t.session
      → Decides (Sound G e s) (delta_turn services settings chunk e delta t)
  unfolding delta_turn
  delta_turn-Sound delta t h g = Decides-reads (Sound G e s) _ _ t (
      Decides-reads (Sound G e s) _ _ t (
        Decides-if (Sound G e s) (is_empty_dict delta && t.session.has_retrieved_for_topic)
          (decide Decision.wait "no_new_entity") _ t
          (λ _. decide-Sound G e s Decision.wait "no_new_entity" t (λ _ k. k) h)
          (λ _. by_topic (
            established services settings t.session.has_retrieved_for_topic
              t.session.topic_embedding))))
    where
      by_topic :
          (o : Option (List F))
          → Decides (Sound G e s) (
              (elim o as (λ _. Exec F (ControllerDecision F)) [
                | none ↦ stability_turn services settings chunk e delta
                | some topic ↦ topic_turn services settings chunk e delta topic
              ])
                t)
      by_topic none = stability_turn-Sound delta t h g
      by_topic (some topic) = topic_turn-Sound delta topic t h g

module _ {F : Type 0} ⦃fl : Float F⦄ ⦃u : Unicode⦄ (services : Services F)
    (settings : Settings F) where
  -- What an unforced retrieval rests on: entities of the whole transcript and a stability with which
  -- the chunk, of embedding `e`, need not wait.
  abbrev pub Settled : TranscriptChunk → List F → SessionRecord F → Type 0
  Settled chunk e s =
      (new_entities : Dict String String) × (stability : F) × (extract_entities services.nlp
          (buffer_text s.transcript) s.corpus_id
        ≡ ok new_entities)
      × (compute_stability (s.embedding_history ++ (e ∷ [])) settings.stability_window
          ≡ ok stability)
      × (must_wait services settings chunk (entity_diff new_entities s.entities)
            (s.embedding_history ++ (e ∷ [])) stability
          ≡ false)

  -- The turn once the chunk's embedding is in the history.
  abbrev embedded : List F → Turn F → Turn F
  embedded e t = record t {
    session = record t.session { embedding_history = t.session.embedding_history ++ (e ∷ []) };
  }

  abbrev with_entities : Dict String String → Turn F → Turn F
  with_entities new t = record t {
    session = record t.session { entities = update t.session.entities new };
  }

  entity_turn-Sound :
      (chunk : TranscriptChunk) (e : List F) (t : Turn F)
      → Decides
          (Sound (Settled chunk e t.session) e t.session)
          (entity_turn services settings chunk e (embedded e t))
  unfolding entity_turn
  entity_turn-Sound chunk e t =
      let P = Sound (Settled chunk e t.session) e t.session in
      Decides-reads P _ _ (embedded e t) (
        Decides-lift P _ _ (embedded e t) (λ suppressed _.
          Decides-if P suppressed (decide Decision.no_retrieval "presentation_only") _
            (embedded e t)
            (λ _.
              decide-Sound (Settled chunk e t.session) e t.session Decision.no_retrieval
                "presentation_only" (embedded e t) (λ _ k. k) (refl, refl))
            (λ _. Decides-lift P _ _ (embedded e t) (λ new q. Decides-set P _ _ (embedded e t) (
              delta_turn-Sound services settings (Settled chunk e t.session) e t.session chunk
                (entity_diff new t.session.entities) (with_entities new (embedded e t)) (refl, refl)
                (λ stability r k. (new, stability, q, r, k)))))))

  -- A property of what `on_chunk` decides on a chunk whose embedding is `e`.
  abbrev pub Decided : TranscriptChunk → Turn F → List F → Type 0
  Decided chunk t e =
      Decides (Sound (Settled chunk e t.session) e t.session) (on_chunk services settings chunk t)

  -- When `on_chunk` decides to retrieve, the session has the chunk's embedding as its topic and the
  -- decision's evidence as its last; with any other decision it has the topic and the evidence of
  -- before. And a retrieval that is triggered as provisional or final (not forced by the limit on
  -- waiting, not a refinement) rests on new entities and on enough stability, or on a final chunk
  -- with a short history: the code's test for waiting is false.
  pub on_chunk-Decided :
      (chunk : TranscriptChunk) (t : Turn F) (e : List F)
      → services.embed chunk.text_delta ≡ ok e
      → Decided chunk t e
  unfolding on_chunk
  on_chunk-Decided chunk t e h =
      Decides-lift (Sound (Settled chunk e t.session) e t.session) _ _ t (λ e' q.
        subst
          (λ x. Decides (Sound (Settled chunk e t.session) e t.session) (
            (set_session (λ s. record s { embedding_history = s.embedding_history ++ (x ∷ []) })
                >> entity_turn services settings chunk x)
              t))
          (ap (embedding_of e) (sym h ∙ q))
          (Decides-set (Sound (Settled chunk e t.session) e t.session) _ _ t
            (entity_turn-Sound chunk e t)))
    where
      embedding_of : List F → Result (List F) → List F
      embedding_of d (ok x) = x
      embedding_of d (raise x) = d
