-- ===== src/Controller/OnChunk/Decisions.antt =====
-- What a decision is worth: when the controller retrieves, and what the session keeps of it.
use streaming_rag.Prelude.{
  ◌≡◌, refl, subst, String, Bool, true, false, some, Dict, Result, ok, raise, if◌then◌else◌,
  string_eq,
}
use streaming_rag.Float.{Float}
use streaming_rag.Text.{Unicode}
use streaming_rag.Models.Events.{RetrievalTrigger, Decision}
use streaming_rag.Services.{Services}
use streaming_rag.Settings.{Settings}
use streaming_rag.Turn.{Turn, Exec, pure, lift, reads, emit, continue, ◌>>=◌}
use streaming_rag.Session.Buffer.{TranscriptChunk}
use streaming_rag.Session.DeltaEngine.{build_delta_query}
use streaming_rag.Controller.RetrievalController.{
  ControllerDecision, retrieve_for, retrieve_turn, refine,
}

-- A property of the decision, if there is one.
abbrev pub Decides :
    {F : Type 0}
    → (ControllerDecision F → Turn F → Type 0)
    → Result (ControllerDecision F) × Turn F
    → Type 0
Decides P (ok d, t) = P d t
Decides P (raise e, t) = Unit

module _ {F A : Type 0} (P : ControllerDecision F → Turn F → Type 0) where
  pub Decides-bind :
      (m : Exec F A) (f : A → Exec F (ControllerDecision F)) (t : Turn F)
      → ((a : A) (t' : Turn F) → m t ≡ (ok a, t') → Decides P (f a t'))
      → Decides P ((m >>= f) t)
  unfolding ◌>>=◌
  Decides-bind m f t h = go (m t).0 (m t).1 refl
    where
      go : (r : Result A) (t' : Turn F) → m t ≡ (r, t') → Decides P (continue r f t')
      go (ok a) t' e = h a t' e
      go (raise x) t' e = tt

module _ {F A : Type 0} (P : ControllerDecision F → Turn F → Type 0) where
  pub Decides-lift :
      (r : Result A) (f : A → Exec F (ControllerDecision F)) (t : Turn F)
      → ((a : A) → r ≡ ok a → Decides P (f a t))
      → Decides P ((lift r >>= f) t)
  unfolding ◌>>=◌
  Decides-lift (ok a) f t h = h a refl
  Decides-lift (raise e) f t h = tt

module _ {F : Type 0} (P : ControllerDecision F → Turn F → Type 0) where
  pub Decides-if :
      (b : Bool) (m n : Exec F (ControllerDecision F)) (t : Turn F)
      → (b ≡ true → Decides P (m t))
      → (b ≡ false → Decides P (n t))
      → Decides P ((if b then m else n) t)
  Decides-if true m n t h k = h refl
  Decides-if false m n t h k = k refl

-- A decision to retrieve, with its trigger.
abbrev pub Fires : {F : Type 0} → RetrievalTrigger → ControllerDecision F → Turn F → Type 0
Fires trigger d t = (d.decision ≡ Decision.retrieve) × (d.trigger ≡ some trigger)

module _ {F : Type 0} ⦃fl : Float F⦄ ⦃u : Unicode⦄ (services : Services F)
    (settings : Settings F) where
  retrieve_for-Fires :
      (chunk : TranscriptChunk) (trigger : RetrievalTrigger) (reason text : String) (t : Turn F)
      → Decides (Fires trigger) (retrieve_for services settings chunk trigger reason text t)
  unfolding pure
  retrieve_for-Fires chunk trigger reason text t =
      Decides-bind (Fires trigger) (emit _) _ t (λ _ t1 _.
        Decides-bind (Fires trigger) (reads _) _ t1 (λ _ t2 _.
          Decides-bind (Fires trigger) (reads _) _ t2 (λ _ t3 _.
            Decides-bind (Fires trigger) _ _ t3
              (λ _ t4 _. Decides-bind (Fires trigger) _ _ t4 (λ _ t5 _. (refl, refl))))))

  pub retrieve_turn-Fires :
      (chunk : TranscriptChunk) (trigger : RetrievalTrigger) (t : Turn F)
      → Decides (Fires trigger) (retrieve_turn services settings chunk trigger t)
  unfolding retrieve_turn
  retrieve_turn-Fires chunk trigger t =
      Decides-bind (Fires trigger) (reads _) _ t
        (λ text t1 _. retrieve_for-Fires chunk trigger _ text t1)

  pub refine-Fires :
      (chunk : TranscriptChunk) (delta : Dict String String) (t : Turn F)
      → Decides (Fires RetrievalTrigger.delta) (refine services settings chunk delta t)
  unfolding refine pure
  refine-Fires chunk delta t = Decides-bind (Fires RetrievalTrigger.delta) _ _ t (λ d t1 e.
      Decides-bind (Fires RetrievalTrigger.delta) (reads _) _ t1 (λ _ t2 _. fires d t1 e))
    where
      fires :
          (d : ControllerDecision F) (t1 : Turn F)
          → retrieve_for services settings chunk RetrievalTrigger.delta "refinement"
              (build_delta_query delta)
              t
            ≡ (ok d, t1)
          → Fires RetrievalTrigger.delta d t1
      fires d t1 e =
          subst (Decides (Fires RetrievalTrigger.delta)) e (retrieve_for-Fires chunk _ _ _ t)
