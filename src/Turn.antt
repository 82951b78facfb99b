-- ===== src/Turn.antt =====
-- What one turn of a session works on: the session's record, the telemetry that the sink was
-- given, and how many identifiers were minted. A stage that raises keeps what it wrote before.
-- Calls that the code awaits run to their end one after another: the session's lock keeps other
-- turns of the session out, and of concurrent calls the model takes the order in which the code
-- starts them.
pub mod Quiet
use streaming_rag.Prelude.{
  ℕ, suc, ◌≡◌, refl, String, Bool, true, false, List, [], ◌∷◌, ◌++◌, Exn, Result, ok, raise,
  if◌then◌else◌,
}
use streaming_rag.Models.Events.{TelemetryEvent, Payload}
use streaming_rag.Session.Record.{SessionRecord}

pub record Turn (F : Type 0) : Type 0 where
  pub session : SessionRecord F
  pub trace_id : String
  -- the events that reached the sink, oldest first; without a sink none does
  pub has_sink : Bool
  pub log : List (TelemetryEvent F)
  pub minted : ℕ

abbrev pub Exec : Type 0 → Type 0 → Type 0
Exec F A = Turn F → Result A × Turn F

module _ {F A : Type 0} where
  unfoldable pub pure : A → Exec F A
  pure a t = (ok a, t)

  unfoldable pub lift : Result A → Exec F A
  lift r t = (r, t)

  unfoldable pub reads : (Turn F → A) → Exec F A
  reads f t = (ok (f t), t)

module _ {F : Type 0} where
  unfoldable pub set_session : (SessionRecord F → SessionRecord F) → Exec F (Unit {0})
  set_session f t = (ok tt, record t { session = f t.session })

  -- The `_emit_…` helpers: nothing without a sink.
  unfoldable pub emit : Payload F → Exec F (Unit {0})
  emit p t = (
    ok tt,
    if t.has_sink
        then record t {
          log =
              t.log
              ++ (record { session_id = t.session.session_id; trace_id = t.trace_id; payload = p }
                  ∷ []);
        }
        else t,
  )

  -- `new_id()`
  unfoldable pub mint : (ℕ → String) → Exec F String
  mint ulid t = (ok (ulid t.minted), record t { minted = suc t.minted })

  unfoldable pub set_minted : ℕ → Exec F (Unit {0})
  set_minted n t = (ok tt, record t { minted = n })

-- `try: m except Exception: handler`
abbrev pub handled : {F A : Type 0} → Result A → (Exn → Exec F A) → Exec F A
handled (ok a) handler t = (ok a, t)
handled (raise e) handler t = handler e t

abbrev pub try_except : {F A : Type 0} → Exec F A → (Exn → Exec F A) → Exec F A
try_except m handler t = let (r, t') = m t in handled r handler t'

module _ {F A B : Type 0} where
  abbrev pub continue : Result A → (A → Exec F B) → Exec F B
  continue (ok a) f t = f a t
  continue (raise e) f t = (raise e, t)

  infixl 5 ◌>>=◌ ◌>>◌
  -- Opening this opens the other operations too.
  unfoldable pub ◌>>=◌ : Exec F A → (A → Exec F B) → Exec F B
  unfolding pure lift reads set_session set_minted emit mint
  ◌>>=◌ m f t = let (r, t') = m t in continue r f t'

  abbrev pub ◌>>◌ : Exec F A → Exec F B → Exec F B
  m >> n = m >>= λ _. n
