-- ===== src/Session/Store/Closed.antt =====
-- A session that was closed is not served again (app/session/session_store.py).
use streaming_rag.Prelude.{
  ℕ, ◌≡◌, refl, sym, subst, ◌+◌, String, true, some, lookup, string_eq, Result, ok, raise,
  session_expired, lookup-insert_self, ltb, if◌then◌else◌,
}
use streaming_rag.Session.Record.{SessionStatus, SessionRecord}
use streaming_rag.Session.Store.{Store, close_record, check_age, get, is_closed}

-- The session is there, and is closed.
abbrev pub IsClosed : {F : Type 0} → String → Store F → Type 0
IsClosed {F} k s =
    (r : SessionRecord F) × (lookup k s.sessions ≡ some r) × (r.status ≡ SessionStatus.closed)

-- A call of `get` that is refused as expired, and leaves the session closed.
abbrev pub Refused : {F : Type 0} → String → Result (SessionRecord F) × Store F → Type 0
Refused k x = (x.0 ≡ raise session_expired) × IsClosed k x.1

module _ {F : Type 0} (ulid : ℕ → String) where
  close_record-IsClosed :
      (k : String) (r : SessionRecord F) (s : Store F) → IsClosed k (close_record ulid k r s)
  unfolding close_record
  close_record-IsClosed k r s = (_, lookup-insert_self k _ s.sessions, refl)

  -- A session that `get` finds past its time to live is refused, and is closed.
  get-expired :
      (ttl now : ℕ) (k : String) (r : SessionRecord F) (s : Store F)
      → lookup k s.sessions ≡ some r
      → ltb (r.last_active_at + ttl) now ≡ true
      → Refused k (get ulid ttl now k s)
  unfolding get check_age
  get-expired ttl now k r s q late =
      subst (λ o. Refused k (check_age ulid ttl now k o s)) (sym q) (by_status r.status refl)
    where
      by_status :
          (x : SessionStatus)
          → r.status ≡ x
          → Refused {F = F} k (
              if is_closed x
              then (raise session_expired, s)
              else if ltb (r.last_active_at + ttl) now
              then (raise session_expired, close_record ulid k r s)
              else (ok r, s))
      by_status SessionStatus.closed e = (refl, (r, q, e))
      by_status SessionStatus.active e = rw late (refl, close_record-IsClosed k r s)
