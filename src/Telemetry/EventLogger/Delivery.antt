-- ===== src/Telemetry/EventLogger/Delivery.antt =====
-- What happens to an event between `sink` and `query`.
use mathlib.Core.List.{Mem, not-mem-nil, mem-cons_self, mem-cons_of_mem}
use mathlib.Core.List.Perm
use streaming_rag.Prelude.{
  ◌≡◌, refl, sym, ap, ◌∙◌, subst, String, Bool, true, false, Option, none, some, List, [], ◌∷◌,
  ◌++◌, append-nil, append_assoc, map, keep, any, ℕ, ◌==◌, string_eq, arith, sort_by, sort_by-perm,
  Bool-cases, Option-cases, inl, inr,
}
use streaming_rag.Telemetry.EventLogger.{
  StoredEvent, Row, Codec, Filters, EventLogger, insert_or_ignore, insert_rows, insert_batch,
  written_rows, rows_of, query, sink, flush_pending, get_session_events, Reply, reply_of,
}
use streaming_rag.Telemetry.EventLogger.Records.{
  record_event, record_all, IsTableOf, is_wanted, is_not_after, render, rows_of-render, query_lem,
  IsTableOf-insert_rows,
}

insert_rows-extends :
    (rows table : List Row) → (extra : List Row) × (insert_rows rows table ≡ table ++ extra)
unfolding insert_rows insert_or_ignore
insert_rows-extends [] table = ([], sym (append-nil table))
insert_rows-extends (row ∷ rows) table =
    elim (Bool-cases (any (λ r. r.event_id == row.event_id) table)) [
      | inl e ↦ rw e (insert_rows-extends rows table)
      | inr e ↦ rw e (longer (insert_rows-extends rows (table ++ (row ∷ []))))
    ]
  where
    longer :
        ((extra : List Row) × (insert_rows rows (table ++ (row ∷ []))
            ≡ (table ++ (row ∷ [])) ++ extra))
        → (extra : List Row) × (insert_rows rows (table ++ (row ∷ [])) ≡ table ++ extra)
    longer (extra, h) = (row ∷ extra, h ∙ append_assoc table (row ∷ []) extra)

-- What a caller does with a connected logger: it hands in an event, or has the queue written.
pub data Action (T : Type 0) (P : Type 0) : Type 0 where
  sunk : StoredEvent T P → Action T P
  flushed : Action T P

abbrev pub sunk_in : {T P : Type 0} → List (Action T P) → List (StoredEvent T P)
sunk_in [] = []
sunk_in (sunk e ∷ actions) = e ∷ sunk_in actions
sunk_in (flushed ∷ actions) = sunk_in actions

record_all-append :
    {T P : Type 0} (xs ys log : List (StoredEvent T P))
    → record_all (xs ++ ys) log ≡ record_all ys (record_all xs log)
record_all-append [] ys log = refl
record_all-append (x ∷ xs) ys log = record_all-append xs ys (record_event x log)

module _ {T P : Type 0} (c : Codec T P) where
  insert_batch-extends :
      (fault : Option ℕ) (es : List (StoredEvent T P)) (table : List Row)
      → (extra : List Row) × (insert_batch c fault es table ≡ table ++ extra)
  unfolding insert_batch
  insert_batch-extends fault es table = elim (Option-cases (rows_of c es)) [
    | inl e ↦ rw e ([], sym (append-nil table))
    | inr (rows, e) ↦ rw e (insert_rows-extends (written_rows fault rows) table)
  ]

  -- A flush of the connected logger empties the queue and only adds rows behind those of the
  -- table, whatever the write comes to: no earlier row is changed, moved or lost.
  pub flush_pending-extends :
      (fault : Option ℕ) (l : EventLogger T P) (table : List Row)
      → l.conn ≡ some table
      → ((flush_pending c fault l).queue ≡ [])
        × ((extra : List Row) × ((flush_pending c fault l).conn ≡ some (table ++ extra)))
  unfolding flush_pending
  flush_pending-extends fault l table h =
      rw h (refl, lift (insert_batch-extends fault l.queue table))
    where
      lift :
          ((extra : List Row) × (insert_batch c fault l.queue table ≡ table ++ extra))
          → (extra : List Row) × (some (insert_batch c fault l.queue table) ≡ some (table ++ extra))
      lift (extra, e) = (extra, ap some e)

  abbrev pub run : List (Action T P) → EventLogger T P → EventLogger T P
  run [] l = l
  run (sunk e ∷ actions) l = run actions (sink c e l)
  run (flushed ∷ actions) l = run actions (flush_pending c none l)

  -- The connected logger stands for a log: its table is the rows of the events that are written,
  -- and the queue brings the rest.
  abbrev pub IsTracked : List (StoredEvent T P) → EventLogger T P → Type 0
  IsTracked log l =
      (kept : List (StoredEvent T P)) × (table : List Row) × (l.conn ≡ some table)
      × IsTableOf c kept table
      × (record_all l.queue kept ≡ log)

  IsTracked-sink :
      (e : StoredEvent T P) (log : List (StoredEvent T P)) (l : EventLogger T P)
      → IsTracked log l
      → IsTracked (record_event e log) (sink c e l)
  unfolding sink
  IsTracked-sink e log l (kept, table, h, k, r) =
      (kept, table, h, k, record_all-append l.queue (e ∷ []) kept ∙ ap (record_event e) r)

  abbrev IsWritten : List (StoredEvent T P) → EventLogger T P → Type 0
  IsWritten log l =
      (table : List Row) × (l.conn ≡ some table) × (l.queue ≡ []) × IsTableOf c log table

  module _ (json : (p : P) → (s : String) × (c.dumps p ≡ some s) × (c.loads s ≡ some p))
      (time : (t : T) → c.time_of (c.isoformat t) ≡ some t) where
    IsWritten-flush_pending :
        (log : List (StoredEvent T P)) (l : EventLogger T P)
        → IsTracked log l
        → IsWritten log (flush_pending c none l)
    unfolding flush_pending insert_batch
    IsWritten-flush_pending log l (kept, table, h, k, r) =
        rw (h, rows_of-render c json time l.queue)
          (
            _,
            refl,
            refl,
            subst (λ g. IsTableOf c g (insert_rows (map (render c json time) l.queue) table)) r
                (IsTableOf-insert_rows c json time l.queue kept (map (render c json time) l.queue)
                  table (rows_of-render c json time l.queue) k),
          )

    run-IsTracked :
        (actions : List (Action T P)) (log : List (StoredEvent T P)) (l : EventLogger T P)
        → IsTracked log l
        → IsTracked (record_all (sunk_in actions) log) (run actions l)
    run-IsTracked [] log l h = h
    run-IsTracked (sunk e ∷ actions) log l h =
        run-IsTracked actions (record_event e log) (sink c e l) (IsTracked-sink e log l h)
    run-IsTracked (flushed ∷ actions) log l h =
        run-IsTracked actions log (flush_pending c none l)
          (tracked (IsWritten-flush_pending log l h))
      where
        tracked : IsWritten log (flush_pending c none l) → IsTracked log (flush_pending c none l)
        tracked (table, a, b, d) = (log, table, a, d, ap (λ q. record_all q log) b)

    query-written :
        (session_id : String) (f : Filters) (log : List (StoredEvent T P)) (l : EventLogger T P)
        → IsWritten log l
        → query c session_id f l
          ≡ some (sort_by (is_not_after c) (keep (is_wanted c session_id f) log))
    query-written session_id f log l (table, a, b, d) =
        query_lem c json time session_id f l log table a d

    -- The logger with its queue, its batches and its table refines a log that takes each event at
    -- once: whatever events come in and whenever the queue is written between them, a query after
    -- the last write answers as that log would, in the order of time and then of arrival, each
    -- event id once. The writes are the ones that do not fail.
    pub query-run :
        (actions : List (Action T P)) (session_id : String) (f : Filters)
        (log : List (StoredEvent T P)) (l : EventLogger T P)
        → IsTracked log l
        → query c session_id f (flush_pending c none (run actions l))
          ≡ some (
              sort_by
                (is_not_after c)
                (keep (is_wanted c session_id f) (record_all (sunk_in actions) log)))
    query-run actions session_id f log l h =
        query-written session_id f (record_all (sunk_in actions) log)
          (flush_pending c none (run actions l))
          (IsWritten-flush_pending (record_all (sunk_in actions) log) (run actions l)
            (run-IsTracked actions log l h))

mem-keep_last {ℓ} :
    {A : Type ℓ} (p : A → Bool) (a : A) (xs : List A) → p a ≡ true → Mem a (keep p (xs ++ (a ∷ [])))
mem-keep_last p a [] h = rw h mem-cons_self
mem-keep_last p a (x ∷ xs) h = elim (Bool-cases (p x)) [
  | inl e ↦ rw e (mem-cons_of_mem x (mem-keep_last p a xs h))
  | inr e ↦ rw e (mem-keep_last p a xs h)
]

-- A reply of `get_session_events` brings an event.
abbrev pub IsDelivered : {T P : Type 0} → StoredEvent T P → Reply T P → Type 0
IsDelivered e (Reply.json es) = Mem e es
IsDelivered e (Reply.event_stream es) = Mem e es
IsDelivered e Reply.unknown_session = ⊥
IsDelivered e Reply.failed = ⊥

reply_of-IsDelivered :
    {T P : Type 0} (is_known as_json : Bool) (e : StoredEvent T P) (es : List (StoredEvent T P))
    → Mem e es
    → IsDelivered e (reply_of is_known as_json (some es))
reply_of-IsDelivered is_known as_json e [] m = absurd (not-mem-nil m)
reply_of-IsDelivered is_known true e (x ∷ xs) m = m
reply_of-IsDelivered is_known false e (x ∷ xs) m = m

abbrev pub no_filters : Filters
no_filters = record { trace_id = none; event_type = none; since = none }

module _ {T P : Type 0} (c : Codec T P)
    (json : (p : P) → (s : String) × (c.dumps p ≡ some s) × (c.loads s ≡ some p))
    (time : (t : T) → c.time_of (c.isoformat t) ≡ some t) where
  is_wanted-own : (e : StoredEvent T P) → is_wanted c e.session_id no_filters e ≡ true
  is_wanted-own e = ground (arith, string_eq.equal_iff e.session_id e.session_id)

  -- An event that comes to the logger under an id that is not in the log yet is in the answer to the
  -- next request for its session's events, whether or not the session is still in the store. The
  -- conditions: the queue and the table stand for the log, so the logger is connected and its rows
  -- can be read; the request has no filter; the flush that it makes does not fail; and every payload
  -- can be written as JSON and every time as a text, and both be read back.
  pub get_session_events-IsDelivered :
      (is_known as_json : Bool) (e : StoredEvent T P) (log : List (StoredEvent T P))
      (l : EventLogger T P)
      → IsTracked c log l
      → any (λ d. d.event_id == e.event_id) log ≡ false
      → IsDelivered e
          (get_session_events c none is_known as_json e.session_id no_filters (sink c e l)).0
  unfolding get_session_events
  get_session_events-IsDelivered is_known as_json e log l h fresh =
      rw (query-run c json time (sunk e ∷ []) e.session_id no_filters log l h, fresh)
        (reply_of-IsDelivered is_known as_json e
          (sort_by (is_not_after c) (keep (is_wanted c e.session_id no_filters) (log ++ (e ∷ []))))
          ((Perm.mem_iff (
              sort_by-perm (is_not_after c)
                (keep (is_wanted c e.session_id no_filters) (log ++ (e ∷ []))))).1
            (mem-keep_last (is_wanted c e.session_id no_filters) e log (is_wanted-own e))))
