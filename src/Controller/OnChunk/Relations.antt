-- ===== src/Controller/OnChunk/Relations.antt =====
-- Rules for what a stage does to the session's record, as a relation of the record before and after.
use streaming_rag.Prelude.{sym, subst, Bool, true, false, Result, ok, raise, if◌then◌else◌}
use streaming_rag.Turn.{Turn, Exec, set_session, continue, ◌>>=◌}
use streaming_rag.Session.Record.{SessionRecord}
use streaming_rag.Controller.OnChunk.Frame.{KeepsSession}

-- `m` takes the session along `R`, whether it returns or raises.
pub record Moves {F A : Type 0} (R : SessionRecord F → SessionRecord F → Type 0) (m : Exec F A)
    : Type 0 where
  pub at : (t : Turn F) → R t.session (m t).1.session

module _ {F : Type 0} {R : SessionRecord F → SessionRecord F → Type 0}
    (r_refl : (s : SessionRecord F) → R s s)
    (r_trans : (s s' s'' : SessionRecord F) → R s s' → R s' s'' → R s s'') where
  pub Moves-keeps : {A : Type 0} {m : Exec F A} → KeepsSession m → Moves R m
  Moves-keeps h = record { at = λ t. subst (R t.session) (sym (h.at t)) (r_refl t.session) }

  pub Moves-set :
      (f : SessionRecord F → SessionRecord F)
      → ((s : SessionRecord F) → R s (f s))
      → Moves R (set_session f)
  unfolding set_session
  Moves-set f h = record { at = λ t. h t.session }

  pub Moves-bind :
      {A B : Type 0} {m : Exec F A} {f : A → Exec F B}
      → Moves R m
      → ((a : A) → Moves R (f a))
      → Moves R (m >>= f)
  unfolding ◌>>=◌
  Moves-bind {A} {B} {m} {f} h k = record { at = λ t. go t (m t).0 (m t).1 (h.at t) }
    where
      go :
          (t : Turn F) (r : Result A) (t' : Turn F)
          → R t.session t'.session
          → R t.session (continue r f t').1.session
      go t (ok a) t' e = r_trans t.session t'.session _ e ((k a).at t')
      go t (raise x) t' e = e

  pub Moves-if :
      {A : Type 0} (b : Bool) {m n : Exec F A}
      → Moves R m
      → Moves R n
      → Moves R (if b then m else n)
  Moves-if true h k = h
  Moves-if false h k = k
