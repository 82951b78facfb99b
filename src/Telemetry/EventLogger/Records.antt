-- ===== src/Telemetry/EventLogger/Records.antt =====
-- The rows of `telemetry_events` against the events that they stand for.
use streaming_rag.Prelude.{
  keep-map, sort_by-map, ◌≡◌, refl, sym, ap, ◌∙◌, String, Bool, true, false, some, ◌&&◌, List, [],
  ◌∷◌, ◌++◌, map, map-append, keep, any, ◌==◌, string_eq, if◌then◌else◌, arith, sort_by,
}
use streaming_rag.Telemetry.EventTypes
use streaming_rag.Telemetry.EventLogger.{
  StoredEvent, Row, Codec, Filters, EventLogger, ◌>>=◌, insert_or_ignore, insert_rows, row_of,
  rows_of, row_to_event, events_of, is_selected, is_for, is_since, select, query,
}

-- The log that the table stands for: each event at its first arrival, none twice.
module _ {T P : Type 0} where
  abbrev pub record_event : StoredEvent T P → List (StoredEvent T P) → List (StoredEvent T P)
  record_event e log = if any (λ d. d.event_id == e.event_id) log then log else log ++ (e ∷ [])

  abbrev pub record_all : List (StoredEvent T P) → List (StoredEvent T P) → List (StoredEvent T P)
  record_all [] log = log
  record_all (e ∷ es) log = record_all es (record_event e log)

module _ {T P : Type 0} (c : Codec T P) where
  abbrev pub is_wanted : String → Filters → StoredEvent T P → Bool
  is_wanted session_id f e =
      e.session_id == session_id
      && (is_for c f.trace_id e.trace_id
          && (is_for c f.event_type (EventTypes.value e.event_type)
              && is_since c f.since (c.isoformat e.timestamp)))

  abbrev pub is_not_after : StoredEvent T P → StoredEvent T P → Bool
  is_not_after a b = c.text_le (c.isoformat a.timestamp) (c.isoformat b.timestamp)

  -- The table is the rows of the log.
  abbrev pub IsTableOf : List (StoredEvent T P) → List Row → Type 0
  IsTableOf log table = rows_of c log ≡ some table

module _ {T P : Type 0} (c : Codec T P)
    (json : (p : P) → (s : String) × (c.dumps p ≡ some s) × (c.loads s ≡ some p))
    (time : (t : T) → c.time_of (c.isoformat t) ≡ some t) where
  abbrev pub render : StoredEvent T P → Row
  render e = record {
    event_id = e.event_id;
    session_id = e.session_id;
    trace_id = e.trace_id;
    event_type = EventTypes.value e.event_type;
    timestamp = c.isoformat e.timestamp;
    payload = (json e.payload).0;
  }

  row_of-render : (e : StoredEvent T P) → row_of c e ≡ some (render e)
  unfolding row_of
  row_of-render e = rw (json e.payload).1 refl

  pub rows_of-render : (es : List (StoredEvent T P)) → rows_of c es ≡ some (map render es)
  unfolding rows_of
  rows_of-render [] = refl
  rows_of-render (e ∷ es) = rw (row_of-render e, rows_of-render es) refl

  row_to_event-render : (e : StoredEvent T P) → row_to_event c (render e) ≡ some e
  unfolding row_to_event
  row_to_event-render e =
      rw (EventTypes.parse-value e.event_type, (json e.payload).2, time e.timestamp) refl

  -- An event that is written as a row is read back from it as it was, where JSON and ISO times
  -- are read back as they were written.
  pub row_to_event-row_of : (e : StoredEvent T P) → (row_of c e >>= row_to_event c) ≡ some e
  row_to_event-row_of e = rw (row_of-render e) (row_to_event-render e)

  events_of-render : (es : List (StoredEvent T P)) → events_of c (map render es) ≡ some es
  unfolding events_of
  events_of-render [] = refl
  events_of-render (e ∷ es) = rw (row_to_event-render e, events_of-render es) refl

  any-render :
      (e : StoredEvent T P) (log : List (StoredEvent T P))
      → any (λ r. r.event_id == e.event_id) (map render log)
        ≡ any (λ d. d.event_id == e.event_id) log
  any-render e [] = refl
  any-render e (d ∷ log) = ground (arith, any-render e log)

  insert_or_ignore-render :
      (e : StoredEvent T P) (log : List (StoredEvent T P))
      → insert_or_ignore (render e) (map render log) ≡ map render (record_event e log)
  unfolding insert_or_ignore
  insert_or_ignore-render e log =
      rw (any-render e log) (split (any (λ d. d.event_id == e.event_id) log))
    where
      split :
          (b : Bool)
          → (if b then map render log else map render log ++ (render e ∷ []))
            ≡ map render (if b then log else log ++ (e ∷ []))
      split true = refl
      split false = sym (map-append render log (e ∷ []))

  pub insert_rows-render :
      (es log : List (StoredEvent T P))
      → insert_rows (map render es) (map render log) ≡ map render (record_all es log)
  unfolding insert_rows
  insert_rows-render [] log = refl
  insert_rows-render (e ∷ es) log =
      ap (insert_rows (map render es)) (insert_or_ignore-render e log)
      ∙ insert_rows-render es (record_event e log)

  table_is :
      (log : List (StoredEvent T P)) (table : List Row)
      → IsTableOf c log table
      → table ≡ map render log
  table_is log table k = cc (rows_of-render log)

  pub IsTableOf-insert_rows :
      (es log : List (StoredEvent T P)) (rows table : List Row)
      → IsTableOf c es rows
      → IsTableOf c log table
      → IsTableOf c (record_all es log) (insert_rows rows table)
  IsTableOf-insert_rows es log rows table h k =
      rw (table_is es rows h, table_is log table k, insert_rows-render es log)
        (rows_of-render (record_all es log))

  -- A query over the table of a log answers with the events of the log that it asks for, in the
  -- order of their times and, within one time, of their arrival.
  pub query_lem :
      (session_id : String) (f : Filters) (l : EventLogger T P) (log : List (StoredEvent T P))
      (table : List Row)
      → l.conn ≡ some table
      → IsTableOf c log table
      → query c session_id f l
        ≡ some (sort_by (is_not_after c) (keep (is_wanted c session_id f) log))
  unfolding query select is_selected
  query_lem session_id f l log table h k =
      rw
        (
          h,
          table_is log table k,
          keep-map (is_selected c session_id f) render log,
          sort_by-map (λ (a : Row) b. c.text_le a.timestamp b.timestamp) render
              (keep (λ e. is_selected c session_id f (render e)) log),
        )
        (events_of-render (sort_by (is_not_after c) (keep (is_wanted c session_id f) log)))
