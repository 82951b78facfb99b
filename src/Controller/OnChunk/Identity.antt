-- ===== src/Controller/OnChunk/Identity.antt =====
-- What no pass of the controller changes in a session, and what it only ever adds.
use streaming_rag.Prelude.{
  ℕ, ◌≡◌, refl, ◌∙◌, String, true, Option, none, some, List, Dict, string_eq,
}
use streaming_rag.Float.{Float}
use streaming_rag.Text.{Unicode}
use streaming_rag.Services.{Services}
use streaming_rag.Settings.{Settings}
use streaming_rag.Turn.{Turn, Exec, set_session, ◌>>=◌, ◌>>◌}
use streaming_rag.Session.Record.{SessionRecord}
use streaming_rag.Session.Buffer.{TranscriptChunk}
use streaming_rag.Session.DeltaEngine.{Classification}
use streaming_rag.Controller.RetrievalController.{ControllerDecision}
use streaming_rag.Controller.OnChunk.{
  commit_decision, set_wait_count, forced_turn, wait_turn, fire_turn, stability_turn, topic_turn,
  established, delta_turn, entity_turn, on_chunk,
}
use streaming_rag.Controller.OnChunk.Frame.{
  KeepsSession, keeps_pure, keeps_lift, keeps_reads, keeps_decide, keeps_retrieve_turn,
  keeps_refine,
}
use streaming_rag.Controller.OnChunk.Relations.{Moves, Moves-keeps, Moves-set, Moves-bind, Moves-if}

-- The session is the same one, over the same corpus, with the same transcript and answers, and
-- an established topic stays established.
pub record SameSession {F : Type 0} (s s' : SessionRecord F) : Type 0 where
  pub session_id : s'.session_id ≡ s.session_id
  pub corpus_id : s'.corpus_id ≡ s.corpus_id
  pub status : s'.status ≡ s.status
  pub transcript : s'.transcript ≡ s.transcript
  pub answer_versions : s'.answer_versions ≡ s.answer_versions
  pub topic : s.has_retrieved_for_topic ≡ true → s'.has_retrieved_for_topic ≡ true

module _ {F : Type 0} where
  same_refl : (s : SessionRecord F) → SameSession s s
  same_refl s = record {
    session_id = refl;
    corpus_id = refl;
    status = refl;
    transcript = refl;
    answer_versions = refl;
    topic = λ h. h;
  }

  same_trans :
      (s s' s'' : SessionRecord F) → SameSession s s' → SameSession s' s'' → SameSession s s''
  same_trans s s' s'' a b = record {
    session_id = b.session_id ∙ a.session_id;
    corpus_id = b.corpus_id ∙ a.corpus_id;
    status = b.status ∙ a.status;
    transcript = b.transcript ∙ a.transcript;
    answer_versions = b.answer_versions ∙ a.answer_versions;
    topic = λ h. b.topic (a.topic h);
  }

  same_keeps : {A : Type 0} {m : Exec F A} → KeepsSession m → Moves SameSession m
  same_keeps = Moves-keeps same_refl same_trans

  same_bind :
      {A B : Type 0} {m : Exec F A} {f : A → Exec F B}
      → Moves SameSession m
      → ((a : A) → Moves SameSession (f a))
      → Moves SameSession (m >>= f)
  same_bind = Moves-bind same_refl same_trans

  same_then :
      {B : Type 0} {m : Exec F (Unit {0})} {n : Exec F B}
      → Moves SameSession m
      → Moves SameSession n
      → Moves SameSession (m >> n)
  same_then h k = same_bind h (λ _. k)

  same_fields :
      {s s' : SessionRecord F}
      → s'.session_id ≡ s.session_id
      → s'.corpus_id ≡ s.corpus_id
      → s'.status ≡ s.status
      → s'.transcript ≡ s.transcript
      → s'.answer_versions ≡ s.answer_versions
      → (s.has_retrieved_for_topic ≡ true → s'.has_retrieved_for_topic ≡ true)
      → SameSession s s'
  same_fields a b c d e g = record {
    session_id = a;
    corpus_id = b;
    status = c;
    transcript = d;
    answer_versions = e;
    topic = g;
  }

  same_set :
      {f : SessionRecord F → SessionRecord F}
      → ((s : SessionRecord F) → SameSession s (f s))
      → Moves SameSession (set_session f)
  same_set {f} h = Moves-set same_refl same_trans f h

  same_wait : (n : ℕ) → Moves SameSession (set_wait_count {F = F} n)
  unfolding set_wait_count
  same_wait n = same_set (λ s. same_fields refl refl refl refl refl (λ h. h))

  same_commit :
      (e : List F) {m : Exec F (ControllerDecision F)}
      → KeepsSession m
      → Moves SameSession (commit_decision e m)
  unfolding commit_decision
  same_commit e h = same_bind (same_keeps h) (λ d.
      same_then (same_set (λ s. same_fields refl refl refl refl refl (λ h. h)))
        (same_keeps (keeps_pure d)))

module _ {F : Type 0} ⦃fl : Float F⦄ ⦃u : Unicode⦄ (services : Services F)
    (settings : Settings F) where
  same_wait_turn :
      (chunk : TranscriptChunk) (e : List F)
      → Moves SameSession (wait_turn services settings chunk e)
  unfolding wait_turn forced_turn
  same_wait_turn chunk e = same_bind (same_keeps (keeps_reads _)) (λ w. same_then (same_wait _) (
      Moves-if same_refl same_trans _
        (same_then (same_wait 0) (same_commit e (keeps_retrieve_turn services settings chunk _)))
        (same_keeps (keeps_decide _ _))))

  same_fire_turn :
      (chunk : TranscriptChunk) (e : List F)
      → Moves SameSession (fire_turn services settings chunk e)
  unfolding fire_turn
  same_fire_turn chunk e =
      same_then (same_set (λ s. same_fields refl refl refl refl refl (λ _. refl)))
        (same_commit e (keeps_retrieve_turn services settings chunk _))

  same_stability_turn :
      (chunk : TranscriptChunk) (e : List F) (delta : Dict String String)
      → Moves SameSession (stability_turn services settings chunk e delta)
  unfolding stability_turn
  same_stability_turn chunk e delta = same_bind (same_keeps (keeps_reads _)) (λ h.
      same_bind (same_keeps (keeps_lift _))
        (λ s. Moves-if same_refl same_trans _ (same_wait_turn chunk e) (same_fire_turn chunk e)))

  same_topic_turn :
      (chunk : TranscriptChunk) (e : List F) (delta : Dict String String) (topic : List F)
      → Moves SameSession (topic_turn services settings chunk e delta topic)
  unfolding topic_turn
  same_topic_turn chunk e delta topic = same_bind (same_keeps (keeps_lift _)) (elim [
    | Classification.ambiguous ↦ same_keeps (keeps_decide _ _)
    | Classification.refinement ↦ same_commit e (keeps_refine services settings chunk delta)
    | Classification.new_topic ↦ same_stability_turn chunk e delta
  ])

  same_delta_turn :
      (chunk : TranscriptChunk) (e : List F) (delta : Dict String String)
      → Moves SameSession (delta_turn services settings chunk e delta)
  unfolding delta_turn
  same_delta_turn chunk e delta = same_bind (same_keeps (keeps_reads _)) (λ h.
      same_bind (same_keeps (keeps_reads _)) (λ topic.
        Moves-if same_refl same_trans _ (same_keeps (keeps_decide _ _))
          (go (established services settings h topic))))
    where
      go :
          (o : Option (List F))
          → Moves SameSession (elim o [
            | none ↦ stability_turn services settings chunk e delta
            | some k ↦ topic_turn services settings chunk e delta k
          ])
      go none = same_stability_turn chunk e delta
      go (some k) = same_topic_turn chunk e delta k

  same_entity_turn :
      (chunk : TranscriptChunk) (e : List F)
      → Moves SameSession (entity_turn services settings chunk e)
  unfolding entity_turn
  same_entity_turn chunk e = same_bind (same_keeps (keeps_reads _)) (λ s.
      same_bind (same_keeps (keeps_lift _)) (λ b.
        Moves-if same_refl same_trans b (same_keeps (keeps_decide _ _)) (
          same_bind (same_keeps (keeps_lift _)) (λ new.
            same_then (same_set (λ s. same_fields refl refl refl refl refl (λ h. h)))
              (same_delta_turn chunk e _)))))

  pub on_chunk-SameSession :
      (chunk : TranscriptChunk) (t : Turn F)
      → SameSession t.session (on_chunk services settings chunk t).1.session
  unfolding on_chunk
  on_chunk-SameSession chunk t =
      (same_bind (same_keeps (keeps_lift (services.embed chunk.text_delta))) (λ e.
          same_then (same_set (λ s. same_fields refl refl refl refl refl (λ h. h)))
            (same_entity_turn chunk e))).at
        t

  -- What a pass of the controller leaves as it was.
  abbrev pub Unchanged : SessionRecord F → SessionRecord F → Type 0
  Unchanged s s' =
      (s'.session_id ≡ s.session_id)
      × (s'.corpus_id ≡ s.corpus_id)
      × (s'.status ≡ s.status)
      × (s'.transcript ≡ s.transcript)
      × (s'.answer_versions ≡ s.answer_versions)

  -- A pass of the controller over a session with an established topic, whether it decides or raises,
  -- leaves the session's id, corpus, status, transcript and answers as they were, and the topic
  -- established.
  pub on_chunk-keeps_topic :
      (chunk : TranscriptChunk) (t : Turn F)
      → t.session.has_retrieved_for_topic ≡ true
      → Unchanged t.session (on_chunk services settings chunk t).1.session
        × ((on_chunk services settings chunk t).1.session.has_retrieved_for_topic ≡ true)
  on_chunk-keeps_topic chunk t h =
      let same = on_chunk-SameSession chunk t in
      (
        (same.session_id, same.corpus_id, same.status, same.transcript, same.answer_versions),
        same.topic h,
      )
