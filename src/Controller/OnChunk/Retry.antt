-- ===== src/Controller/OnChunk/Retry.antt =====
-- What is left of a retrieval that raised (app/controller/retrieval_controller.py).
use streaming_rag.Prelude.{◌≡◌, true, ok}
use streaming_rag.Float.{Float}
use streaming_rag.Text.{Unicode}
use streaming_rag.Models.Events.{Decision}
use streaming_rag.Services.{Services}
use streaming_rag.Settings.{Settings}
use streaming_rag.Turn.{Turn, Exec}
use streaming_rag.Session.Record.{SessionRecord}
use streaming_rag.Controller.RetrievalController.{ControllerDecision}

-- The session of a retrieval that raised: the topic counts as retrieved.
abbrev pub marked : {F : Type 0} → SessionRecord F → SessionRecord F
marked s = record s { wait_count = 0; has_retrieved_for_topic = true }

module _ {F : Type 0} ⦃fl : Float F⦄ ⦃u : Unicode⦄ (services : Services F)
    (settings : Settings F) where
  -- A decision to wait for want of new entities.
  abbrev pub WaitsForEntities : Exec F (ControllerDecision F) → Turn F → Type 0
  WaitsForEntities m t =
      (d : ControllerDecision F) × (t' : Turn F) × (m t ≡ (ok d, t'))
      × (d.decision ≡ Decision.wait)
      × (d.reason ≡ "no_new_entity")
