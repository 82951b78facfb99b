-- ===== src/Controller/OnChunk/Waits.antt =====
-- The count of chunks waited never passes the limit.
use streaming_rag.Prelude.{
  ℕ, String, ◌+◌, ◌≤◌, ◌≡◌, refl, sym, subst, false, Option, none, some, List, Dict, arith, ltb,
  Bool-cases, inl, inr,
}
use native.Mathlib.Nat.{le_refl, le_trans}
use streaming_rag.Float.{Float}
use streaming_rag.Text.{Unicode}
use streaming_rag.Models.Events.{RetrievalTrigger, Decision}
use streaming_rag.Services.{Services}
use streaming_rag.Settings.{Settings}
use streaming_rag.Turn.{Turn, Exec, set_session, ◌>>=◌}
use streaming_rag.Session.Record.{SessionRecord}
use streaming_rag.Session.Buffer.{TranscriptChunk}
use streaming_rag.Session.DeltaEngine.{Classification}
use streaming_rag.Controller.RetrievalController.{ControllerDecision}
use streaming_rag.Controller.OnChunk.{
  commit_decision, set_wait_count, forced_turn, wait_turn, fire_turn, stability_turn, topic_turn,
  established, delta_turn, entity_turn, on_chunk,
}
use streaming_rag.Controller.OnChunk.Frame.{
  KeepsSession, keeps_pure, keeps_lift, keeps_reads, keeps_decide, keeps_retrieve_turn,
  keeps_refine,
}
use streaming_rag.Controller.OnChunk.Relations.{Moves, Moves-keeps, Moves-set, Moves-bind, Moves-if}

-- The count does not go up.
abbrev NoMore : {F : Type 0} → SessionRecord F → SessionRecord F → Type 0
NoMore s s' = s'.wait_count ≤ s.wait_count

module _ {F : Type 0} where
  no_refl : (s : SessionRecord F) → NoMore s s
  no_refl s = le_refl _

  no_trans : (s s' s'' : SessionRecord F) → NoMore s s' → NoMore s' s'' → NoMore s s''
  no_trans s s' s'' a b = le_trans b a

  no_commit :
      (e : List F) {m : Exec F (ControllerDecision F)}
      → KeepsSession m
      → Moves NoMore (commit_decision e m)
  unfolding commit_decision
  no_commit e h = Moves-bind no_refl no_trans (Moves-keeps no_refl no_trans h) (λ d.
      Moves-bind no_refl no_trans (Moves-set no_refl no_trans _ (λ s. le_refl s.wait_count))
        (λ _. Moves-keeps no_refl no_trans (keeps_pure d)))

-- A count within the limit stays within it.
abbrev Within : {F : Type 0} → ℕ → SessionRecord F → SessionRecord F → Type 0
Within max s s' = s.wait_count ≤ max → s'.wait_count ≤ max

module _ {F : Type 0} ⦃fl : Float F⦄ ⦃u : Unicode⦄ (services : Services F)
    (settings : Settings F) where
  w_refl : (s : SessionRecord F) → Within settings.max_wait_chunks s s
  w_refl s h = h

  w_trans :
      (s s' s'' : SessionRecord F)
      → Within settings.max_wait_chunks s s'
      → Within settings.max_wait_chunks s' s''
      → Within settings.max_wait_chunks s s''
  w_trans s s' s'' a b h = b (a h)

  Within-keeps :
      {A : Type 0} {m : Exec F A} → KeepsSession m → Moves (Within settings.max_wait_chunks) m
  Within-keeps = Moves-keeps w_refl w_trans

  Within-less :
      {A : Type 0} {m : Exec F A} → Moves NoMore m → Moves (Within settings.max_wait_chunks) m
  Within-less h = record { at = λ t q. le_trans (h.at t) q }

  Within-bind :
      {A B : Type 0} {m : Exec F A} {f : A → Exec F B}
      → Moves (Within settings.max_wait_chunks) m
      → ((a : A) → Moves (Within settings.max_wait_chunks) (f a))
      → Moves (Within settings.max_wait_chunks) (m >>= f)
  Within-bind = Moves-bind w_refl w_trans

  -- A forced retrieval starts the count again.
  forced_turn-wait_count :
      (chunk : TranscriptChunk) (e : List F) (t : Turn F)
      → (forced_turn services settings chunk e t).1.session.wait_count ≤ 0
  unfolding forced_turn set_wait_count ◌>>=◌
  forced_turn-wait_count chunk e t =
      (no_commit e
          (keeps_retrieve_turn services settings chunk RetrievalTrigger.forced_after_max_wait)).at
        (record t { session = record t.session { wait_count = 0 } })

  Within-wait_turn :
      (chunk : TranscriptChunk) (e : List F)
      → Moves (Within settings.max_wait_chunks) (wait_turn services settings chunk e)
  unfolding wait_turn set_wait_count ◌>>=◌
  Within-wait_turn chunk e = record {
    at = λ t h.
        let t' : Turn F = record t {
          session = record t.session { wait_count = t.session.wait_count + 1 };
        } in
        elim (Bool-cases (ltb settings.max_wait_chunks (t.session.wait_count + 1))) [
          | inl q ↦ rw q (le_trans (forced_turn-wait_count chunk e t') (omega arith))
          | inr q ↦ rw q (
              subst (λ (s : SessionRecord F). s.wait_count ≤ settings.max_wait_chunks)
                (sym ((keeps_decide Decision.wait "intent_unstable").at t')) (not_over _ _ q))
        ];
  }
    where
      not_over : (m n : ℕ) → ltb m n ≡ false → n ≤ m
      not_over m n q = ground arith

  Within-fire_turn :
      (chunk : TranscriptChunk) (e : List F)
      → Moves (Within settings.max_wait_chunks) (fire_turn services settings chunk e)
  unfolding fire_turn
  Within-fire_turn chunk e =
      Within-bind (Moves-set w_refl w_trans _ (λ s h. zero_below))
        (λ _. Within-less (no_commit e (keeps_retrieve_turn services settings chunk _)))
    where
      zero_below : 0 ≤ settings.max_wait_chunks
      zero_below = omega arith

  Within-stability_turn :
      (chunk : TranscriptChunk) (e : List F) (delta : Dict String String)
      → Moves (Within settings.max_wait_chunks) (stability_turn services settings chunk e delta)
  unfolding stability_turn
  Within-stability_turn chunk e delta = Within-bind (Within-keeps (keeps_reads _)) (λ h.
      Within-bind (Within-keeps (keeps_lift _))
        (λ s. Moves-if w_refl w_trans _ (Within-wait_turn chunk e) (Within-fire_turn chunk e)))

  Within-topic_turn :
      (chunk : TranscriptChunk) (e : List F) (delta : Dict String String) (topic : List F)
      → Moves (Within settings.max_wait_chunks) (topic_turn services settings chunk e delta topic)
  unfolding topic_turn
  Within-topic_turn chunk e delta topic = Within-bind (Within-keeps (keeps_lift _)) (elim [
    | Classification.ambiguous ↦ Within-keeps (keeps_decide _ _)
    | Classification.refinement ↦
        Within-less (no_commit e (keeps_refine services settings chunk delta))
    | Classification.new_topic ↦ Within-stability_turn chunk e delta
  ])

  Within-delta_turn :
      (chunk : TranscriptChunk) (e : List F) (delta : Dict String String)
      → Moves (Within settings.max_wait_chunks) (delta_turn services settings chunk e delta)
  unfolding delta_turn
  Within-delta_turn chunk e delta = Within-bind (Within-keeps (keeps_reads _)) (λ h.
      Within-bind (Within-keeps (keeps_reads _)) (λ topic.
        Moves-if w_refl w_trans _ (Within-keeps (keeps_decide _ _))
          (go (established services settings h topic))))
    where
      go :
          (o : Option (List F))
          → Moves (Within settings.max_wait_chunks) (elim o [
            | none ↦ stability_turn services settings chunk e delta
            | some k ↦ topic_turn services settings chunk e delta k
          ])
      go none = Within-stability_turn chunk e delta
      go (some k) = Within-topic_turn chunk e delta k

  Within-set :
      (f : SessionRecord F → SessionRecord F)
      → ((s : SessionRecord F) → (f s).wait_count ≡ s.wait_count)
      → Moves (Within settings.max_wait_chunks) (set_session f)
  Within-set f h =
      Moves-set w_refl w_trans f (λ s q. subst (λ n. n ≤ settings.max_wait_chunks) (sym (h s)) q)

  Within-entity_turn :
      (chunk : TranscriptChunk) (e : List F)
      → Moves (Within settings.max_wait_chunks) (entity_turn services settings chunk e)
  unfolding entity_turn
  Within-entity_turn chunk e = Within-bind (Within-keeps (keeps_reads _)) (λ s.
      Within-bind (Within-keeps (keeps_lift _)) (λ b.
        Moves-if w_refl w_trans b (Within-keeps (keeps_decide _ _)) (
          Within-bind (Within-keeps (keeps_lift _))
            (λ new. Within-bind (Within-set _ (λ s. refl)) (λ _. Within-delta_turn chunk e _)))))

  -- A session that has waited at most `max_wait_chunks` chunks has not waited more after the pass,
  -- whether the controller decides or raises.
  pub on_chunk-wait_count-le :
      (chunk : TranscriptChunk) (t : Turn F)
      → t.session.wait_count ≤ settings.max_wait_chunks
      → (on_chunk services settings chunk t).1.session.wait_count ≤ settings.max_wait_chunks
  unfolding on_chunk
  on_chunk-wait_count-le chunk t =
      (Within-bind (Within-keeps (keeps_lift (services.embed chunk.text_delta)))
          (λ e. Within-bind (Within-set _ (λ s. refl)) (λ _. Within-entity_turn chunk e))).at
        t
