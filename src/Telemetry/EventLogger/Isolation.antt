-- ===== src/Telemetry/EventLogger/Isolation.antt =====
-- The events that a query answers with are the session's.
use streaming_rag.Prelude.{
  ◌≡◌, refl, sym, ap, ◌∙◌, subst, String, Option, none, some, List, [], ◌∷◌, keep, string_eq, arith,
  Option-cases, or_else, inl, inr, All, All-sort_by, All-keep_test,
}
use streaming_rag.Telemetry.EventTypes
use streaming_rag.Telemetry.EventLogger.{
  StoredEvent, Row, Codec, Filters, EventLogger, >>=-some, row_to_event, events_of, is_selected,
  select, query,
}

abbrev pub IsOf : {T P : Type 0} → String → StoredEvent T P → Type 0
IsOf session_id e = e.session_id ≡ session_id

module _ {T P : Type 0} (c : Codec T P) where
  row_to_event-IsOf :
      (session_id : String) (row : Row)
      → row.session_id ≡ session_id
      → (e : StoredEvent T P) → row_to_event c row ≡ some e
      → IsOf session_id e
  unfolding row_to_event
  row_to_event-IsOf session_id row h e k =
      let (t, _, k1) = >>=-some (EventTypes.parse row.event_type) _ k in
      let (p, _, k2) = >>=-some (c.loads row.payload) _ k1 in
      let (s, _, k3) = >>=-some (c.time_of row.timestamp) _ k2 in sym (ap session_of k3) ∙ h
    where
      session_of : Option (StoredEvent T P) → String
      session_of none = session_id
      session_of (some d) = d.session_id

  events_of-IsOf :
      (session_id : String) (rows : List Row)
      → All (λ r. r.session_id ≡ session_id) rows
      → (es : List (StoredEvent T P)) → events_of c rows ≡ some es
      → All (IsOf session_id) es
  unfolding events_of
  events_of-IsOf session_id [] h es k = subst (λ o. All (IsOf session_id) (or_else o [])) k tt
  events_of-IsOf session_id (row ∷ rows) h es k =
      let (e, a, k1) = >>=-some (row_to_event c row) _ k in
      let (rest, b, k2) = >>=-some (events_of c rows) _ k1 in
      subst (λ o. All (IsOf session_id) (or_else o [])) k2
        (row_to_event-IsOf session_id row h.0 e a, events_of-IsOf session_id rows h.1 rest b)

  select-IsOf :
      (session_id : String) (f : Filters) (table : List Row)
      → All (λ r. r.session_id ≡ session_id) (select c session_id f table)
  unfolding select is_selected
  select-IsOf session_id f table =
      All-sort_by (λ a b. c.text_le a.timestamp b.timestamp) (λ r. r.session_id ≡ session_id)
        (keep (is_selected c session_id f) table)
        (All-keep_test (λ r. r.session_id ≡ session_id) (is_selected c session_id f) table
          (λ r h. ground (arith, h, string_eq.equal_iff r.session_id session_id)))

  query-disconnected :
      (session_id : String) (f : Filters) (l : EventLogger T P)
      → l.conn ≡ none
      → query c session_id f l ≡ some []
  unfolding query
  query-disconnected session_id f l e = rw e refl

  query-connected :
      (session_id : String) (f : Filters) (l : EventLogger T P) (table : List Row)
      → l.conn ≡ some table
      → query c session_id f l ≡ events_of c (select c session_id f table)
  unfolding query
  query-connected session_id f l table e = rw e refl

  -- No query answers with an event of another session, whatever the table holds and the filters
  -- are.
  pub query-IsOf :
      (session_id : String) (f : Filters) (l : EventLogger T P) (es : List (StoredEvent T P))
      → query c session_id f l ≡ some es
      → All (IsOf session_id) es
  query-IsOf session_id f l es h = elim (Option-cases l.conn) [
    | inl e ↦
        subst (λ o. All (IsOf session_id) (or_else o []))
          (sym (query-disconnected session_id f l e) ∙ h) tt
    | inr (table, e) ↦
        events_of-IsOf session_id (select c session_id f table) (select-IsOf session_id f table) es
          (sym (query-connected session_id f l table e) ∙ h)
  ]
