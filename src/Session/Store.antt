-- ===== src/Session/Store.antt =====
-- `SessionStore` of app/session/session_store.py: the registry of sessions, with their time to live.
-- A record is a value here, written back under its key where the code mutates the object; `now` is
-- the clock in seconds and does not run backwards. The store's own lock is not modelled: one call
-- runs at a time.
pub mod Keyed
pub mod Closed
pub mod Names
use streaming_rag.Prelude.{
  ℕ, zero, suc, ◌+◌, String, Char, code, Bool, true, false, ◌&&◌, ◌||◌, Option, none, some, List,
  [], ◌∷◌, ◌++◌, string_eq, if◌then◌else◌, Dict, lookup, insert, contains, length, Result, ok,
  raise, unknown_session, session_expired, invalid_corpus_id, ltb, leb, eqb,
}
use streaming_rag.Models.Events.{TelemetryEvent, Payload}
use streaming_rag.Session.Record.{SessionStatus, SessionRecord, new_session}

pub record Store (F : Type 0) : Type 0 where
  pub sessions : Dict String (SessionRecord F)
  pub has_sink : Bool
  -- what the sink was given
  pub log : List (TelemetryEvent F)
  -- how many identifiers were minted
  pub minted : ℕ

-- `[A-Za-z0-9]` and `[A-Za-z0-9_-]`
abbrev is_alphanumeric : Char → Bool
is_alphanumeric c =
    (leb b'a' (code c) && leb (code c) b'z')
    || (leb b'A' (code c) && leb (code c) b'Z')
    || (leb b'0' (code c) && leb (code c) b'9')

abbrev is_id_char : Char → Bool
is_id_char c = is_alphanumeric c || eqb (code c) b'_' || eqb (code c) b'-'

-- `[A-Za-z0-9_-]{0,n}` to the end of the text
abbrev is_id_rest : ℕ → String → Bool
is_id_rest n String.[] = true
is_id_rest zero (String.◌∷◌ c s) = false
is_id_rest (suc n) (String.◌∷◌ c s) = is_id_char c && is_id_rest n s

-- `validate_corpus_id` of app/core/slots.py, on a text
unfoldable pub validate_corpus_id : String → Result String
validate_corpus_id String.[] = raise invalid_corpus_id
validate_corpus_id (String.◌∷◌ c s) =
    if is_alphanumeric c && is_id_rest 63 s then ok (String.◌∷◌ c s) else raise invalid_corpus_id

abbrev pub is_closed : SessionStatus → Bool
is_closed SessionStatus.active = false
is_closed SessionStatus.closed = true

module _ {F : Type 0} where
  -- `self._sessions[session_id] = record`
  abbrev pub put : String → SessionRecord F → Store F → Store F
  put session_id r s = record s { sessions = insert session_id r s.sessions }

  unfoldable pub create : (ℕ → String) → ℕ → String → Store F → Result (SessionRecord F) × Store F
  unfolding validate_corpus_id
  create ulid now corpus_id s = elim (validate_corpus_id corpus_id) [
    | raise e ↦ (raise e, s)
    | ok c ↦
        let r = new_session (ulid s.minted) c now in
        (ok r, record (put r.session_id r s) { minted = suc s.minted })
  ]

  abbrev closed_event : (ℕ → String) → String → Store F → TelemetryEvent F
  closed_event ulid session_id s = record {
    session_id = session_id;
    trace_id = ulid s.minted;
    payload = Payload.status_closed;
  }

  -- `_close_record`
  unfoldable pub close_record : (ℕ → String) → String → SessionRecord F → Store F → Store F
  close_record ulid session_id r s = record s {
    sessions =
        insert session_id
          (record r {
            status = SessionStatus.closed;
            event_log = r.event_log ++ (closed_event ulid session_id s ∷ []);
          })
          s.sessions;
    log = if s.has_sink then s.log ++ (closed_event ulid session_id s ∷ []) else s.log;
    minted = suc s.minted;
  }

  module _ (ulid : ℕ → String) (ttl now : ℕ) where
    -- `get`, from the record that was found on
    unfoldable pub check_age :
        String → Option (SessionRecord F) → Store F → Result (SessionRecord F) × Store F
    unfolding close_record
    check_age session_id none s = (raise unknown_session, s)
    check_age session_id (some r) s =
        if is_closed r.status
        then (raise session_expired, s)
        else if ltb (r.last_active_at + ttl) now
        then (raise session_expired, close_record ulid session_id r s)
        else (ok r, s)

    unfoldable pub get : String → Store F → Result (SessionRecord F) × Store F
    unfolding check_age
    get session_id s = check_age session_id (lookup session_id s.sessions) s

    -- What `touch` and `mark_connected` do with a record that `get` returned.
    abbrev pub write :
        {A : Type 0}
        → String
        → (SessionRecord F → A × SessionRecord F)
        → Result (SessionRecord F) × Store F
        → Result A × Store F
    write session_id f (ok r, s) = (ok (f r).0, put session_id (f r).1 s)
    write session_id f (raise e, s) = (raise e, s)

    unfoldable pub touch : String → Store F → Result (Unit {0}) × Store F
    unfolding get
    touch session_id s =
        write session_id (λ r. (tt, record r { last_active_at = now })) (get session_id s)

    unfoldable pub mark_connected : String → Store F → Result Bool × Store F
    unfolding get
    mark_connected session_id s =
        write session_id (λ r. (r.ever_connected, record r { ever_connected = true }))
          (get session_id s)

  abbrev pub close_found : (ℕ → String) → String → Option (SessionRecord F) → Store F → Store F
  close_found ulid session_id none s = s
  close_found ulid session_id (some r) s =
      if is_closed r.status then s else close_record ulid session_id r s

  unfoldable pub close : (ℕ → String) → String → Store F → Store F
  unfolding close_record
  close ulid session_id s = close_found ulid session_id (lookup session_id s.sessions) s

-- A call of the store, at a time.
pub data Call : Type 0 where
  creates : String → Call
  gets touches closes connects : String → Call

module _ {F : Type 0} (ulid : ℕ → String) (ttl : ℕ) where
  unfoldable pub run : ℕ → Call → Store F → Store F
  unfolding create get touch close mark_connected
  run now (creates corpus_id) s = (create ulid now corpus_id s).1
  run now (gets session_id) s = (get ulid ttl now session_id s).1
  run now (touches session_id) s = (touch ulid ttl now session_id s).1
  run now (closes session_id) s = close ulid session_id s
  run now (connects session_id) s = (mark_connected ulid ttl now session_id s).1

  -- Calls one after another, each at its time.
  unfoldable pub run_all : List (ℕ × Call) → Store F → Store F
  unfolding run
  run_all [] s = s
  run_all ((now, c) ∷ cs) s = run_all cs (run now c s)
