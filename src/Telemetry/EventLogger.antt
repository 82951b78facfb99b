-- ===== src/Telemetry/EventLogger.antt =====
-- app/telemetry/event_logger.py and app/api/events.py: the queue of events, the background writer
-- and the queries.
pub mod Records
pub mod Delivery
pub mod Isolation
use streaming_rag.Prelude.{
  ◌≡◌, refl, String, Bool, true, false, Option, none, some, ◌&&◌, List, [], ◌∷◌, ◌++◌, take, keep,
  any, ℕ, ◌==◌, string_eq, if◌then◌else◌, is_some, arith,
}
use streaming_rag.Prelude.{sort_by}
use streaming_rag.Models.Events.{EventType}
use streaming_rag.Telemetry.EventTypes

-- A conversion that may raise, and what follows it.
infixl 5 ◌>>=◌
abbrev pub ◌>>=◌ : {A B : Type 0} → Option A → (A → Option B) → Option B
none >>= f = none
some a >>= f = f a

pub >>=-some :
    {A B : Type 0} (first : Option A) (next : A → Option B) {end : B}
    → (first >>= next) ≡ some end
    → (value : A) × (first ≡ some value) × (next value ≡ some end)
>>=-some none next reached = cc
>>=-some (some value) next reached = (value, refl, reached)

-- The envelope of an event with the fields that are stored; `T` is its time and `P` its payload.
pub record StoredEvent (T : Type 0) (P : Type 0) : Type 0 where
  pub event_id : String
  pub session_id : String
  pub trace_id : String
  pub event_type : EventType
  pub timestamp : T
  pub payload : P

-- A row of `telemetry_events`.
pub record Row : Type 0 where
  pub event_id : String
  pub session_id : String
  pub trace_id : String
  pub event_type : String
  pub timestamp : String
  pub payload : String

-- The libraries' conversions: `isoformat` and pydantic's reading of a time, `json.dumps`, which
-- raises on a value that is not JSON, `json.loads`, and SQLite's order of two texts.
pub record Codec (T : Type 0) (P : Type 0) : Type 0 where
  pub isoformat : T → String
  pub time_of : String → Option T
  pub dumps : P → Option String
  pub loads : String → Option P
  pub text_le : String → String → Bool

-- The filters of `query` beside the session.
pub record Filters : Type 0 where
  pub trace_id : Option String
  pub event_type : Option String
  pub since : Option String

-- The state of an `EventLogger`: the queue, and the table that the connection sees, in the order of
-- its row ids.
pub record EventLogger (T : Type 0) (P : Type 0) : Type 0 where
  pub queue : List (StoredEvent T P)
  pub conn : Option (List Row)

-- `INSERT OR IGNORE`, with `event_id` the primary key.
unfoldable pub insert_or_ignore : Row → List Row → List Row
insert_or_ignore row table =
    if any (λ r. r.event_id == row.event_id) table then table else table ++ (row ∷ [])

unfoldable pub insert_rows : List Row → List Row → List Row
unfolding insert_or_ignore
insert_rows [] table = table
insert_rows (row ∷ rows) table = insert_rows rows (insert_or_ignore row table)

-- The rows that reach the table when the database raises after some of them, or does not.
abbrev pub written_rows : Option ℕ → List Row → List Row
written_rows none rows = rows
written_rows (some n) rows = take n rows

module _ {T P : Type 0} (c : Codec T P) where
  -- One element of `rows` in `_insert_batch`.
  unfoldable pub row_of : StoredEvent T P → Option Row
  unfolding EventTypes.value
  row_of e = do
    payload ← c.dumps e.payload
    some record {
      event_id = e.event_id;
      session_id = e.session_id;
      trace_id = e.trace_id;
      event_type = EventTypes.value e.event_type;
      timestamp = c.isoformat e.timestamp;
      payload = payload;
    }

  unfoldable pub rows_of : List (StoredEvent T P) → Option (List Row)
  unfolding row_of
  rows_of [] = some []
  rows_of (e ∷ es) = do row ← row_of e; rows ← rows_of es; some (row ∷ rows)

  -- `_insert_batch`: the table it leaves, with the number of rows that were written before the
  -- database raised, when it did.
  unfoldable pub insert_batch : Option ℕ → List (StoredEvent T P) → List Row → List Row
  unfolding rows_of insert_rows
  insert_batch fault events table = stored (rows_of events)
    where
      stored : Option (List Row) → List Row
      stored none = table
      stored (some rows) = insert_rows (written_rows fault rows) table

  -- `_row_to_event`
  unfoldable pub row_to_event : Row → Option (StoredEvent T P)
  unfolding EventTypes.parse
  row_to_event row = do
    event_type ← EventTypes.parse row.event_type
    payload ← c.loads row.payload
    timestamp ← c.time_of row.timestamp
    some record {
      event_id = row.event_id;
      session_id = row.session_id;
      trace_id = row.trace_id;
      event_type = event_type;
      timestamp = timestamp;
      payload = payload;
    }

  unfoldable pub events_of : List Row → Option (List (StoredEvent T P))
  unfolding row_to_event
  events_of [] = some []
  events_of (row ∷ rows) = do e ← row_to_event row; es ← events_of rows; some (e ∷ es)

  -- `sink`; the queue has no bound, and its `put_nowait` does not raise.
  unfoldable pub sink : StoredEvent T P → EventLogger T P → EventLogger T P
  sink e l = record { queue = l.queue ++ (e ∷ []); conn = l.conn }

  -- The connect step of `_run`: the table that the file has, or none when connecting raised.
  unfoldable pub connect : Option (List Row) → EventLogger T P → EventLogger T P
  connect file l = record { queue = l.queue; conn = file }

  -- `_flush_pending`
  unfoldable pub flush_pending : Option ℕ → EventLogger T P → EventLogger T P
  unfolding insert_batch
  flush_pending fault l = record { queue = []; conn = stored l.conn }
    where
      stored : Option (List Row) → Option (List Row)
      stored none = none
      stored (some table) = some (insert_batch fault l.queue table)

  -- `stop`
  unfoldable pub stop : Option ℕ → EventLogger T P → EventLogger T P
  unfolding flush_pending
  stop fault l = record { queue = (flush_pending fault l).queue; conn = none }

  abbrev pub is_for : Option String → String → Bool
  is_for none s = true
  is_for (some t) s = s == t

  abbrev pub is_since : Option String → String → Bool
  is_since none s = true
  is_since (some t) s = c.text_le t s

  -- The `WHERE` clause.
  unfoldable pub is_selected : String → Filters → Row → Bool
  is_selected session_id f row =
      row.session_id == session_id
      && (is_for f.trace_id row.trace_id
          && (is_for f.event_type row.event_type && is_since f.since row.timestamp))

  -- `ORDER BY timestamp ASC, rowid ASC`: a stable sort of the rows in the order of their row ids.
  unfoldable pub select : String → Filters → List Row → List Row
  unfolding is_selected
  select session_id f table =
      sort_by (λ a b. c.text_le a.timestamp b.timestamp) (keep (is_selected session_id f) table)

  -- `query`, which raises when a row is no event.
  unfoldable pub query : String → Filters → EventLogger T P → Option (List (StoredEvent T P))
  unfolding select events_of
  query session_id f l = read l.conn
    where
      read : Option (List Row) → Option (List (StoredEvent T P))
      read none = some []
      read (some table) = events_of (select session_id f table)

-- What `get_session_events` answers with.
pub data Reply (T : Type 0) (P : Type 0) : Type 0 where
  unknown_session failed : Reply T P
  json event_stream : List (StoredEvent T P) → Reply T P

-- The reply to what `query` gave: 404 only for a session that has no event and is not in the store.
abbrev pub reply_of : {T P : Type 0} → Bool → Bool → Option (List (StoredEvent T P)) → Reply T P
reply_of is_known as_json none = failed
reply_of is_known as_json (some []) =
    if is_known then (if as_json then json [] else event_stream []) else unknown_session
reply_of is_known as_json (some (e ∷ es)) = if as_json then json (e ∷ es) else event_stream (e ∷ es)

-- `get_session_events` of api/events.py, where `is_known` is `session_id in store` and `as_json`
-- is `fmt == "json"`.
unfoldable pub get_session_events :
    {T P : Type 0}
    → Codec T P
    → Option ℕ
    → Bool
    → Bool
    → String
    → Filters
    → EventLogger T P
    → Reply T P × EventLogger T P
unfolding flush_pending query
get_session_events c fault is_known as_json session_id f l =
    let flushed = flush_pending c fault l in
    (reply_of is_known as_json (query c session_id f flushed), flushed)
