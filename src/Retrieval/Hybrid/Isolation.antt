-- ===== src/Retrieval/Hybrid/Isolation.antt =====
-- The two searches of a request do not disturb each other (app/retrieval/hybrid.py).
use streaming_rag.Prelude.{
  ℕ, ◌≡◌, refl, String, Option, none, some, List, [], ◌∷◌, map, Result, ok, raise, Exn,
}
use streaming_rag.Models.{RetrievedChunk}
use streaming_rag.Models.Events.{RetrievalRequest, RetrievalMode, RetrievalEvent}
use streaming_rag.Services.{Services}
use streaming_rag.Settings.{Settings}
use streaming_rag.Turn.{lift, pure, ◌>>=◌}
use streaming_rag.Turn.Quiet.{Quiet, Any, Quiet-pure, Quiet-then, Quiet-bind, Quiet-emit}
use streaming_rag.Retrieval.Fusion.{RetrievalResult}
use streaming_rag.Retrieval.Hybrid.{retrieve, error_of, searched, emit_error, run_mode}

-- What the search of one mode led to: its hits without an error, or no hits and the text of what it
-- raised.
abbrev pub Reports :
    {F : Type 0}
    → (Exn → String)
    → Result (List (RetrievedChunk F))
    → List (RetrievedChunk F)
    → Option String
    → Type 0
Reports name_of (ok found) hits error = (hits ≡ found) × (error ≡ none)
Reports name_of (raise exc) hits error = (hits ≡ []) × (error ≡ some (error_of name_of exc).0)

-- The event of one mode: what the search found, under its mode.
abbrev pub IsEventOf :
    {F : Type 0} → RetrievalMode → List (RetrievedChunk F) → RetrievalEvent F → Type 0
IsEventOf mode hits event =
    (event.mode ≡ mode)
    × (event.result_chunk_ids ≡ map (λ h. h.chunk_id) hits)
    × (event.scores ≡ map (λ h. h.score) hits)

abbrev text_of : Option (String × String) → Option String
text_of none = none
text_of (some e) = some e.0

module _ {F : Type 0} (name_of : Exn → String) where
  -- Whatever the search comes to, the `try` around it returns.
  Quiet-searched :
      (search : Result (List (RetrievedChunk F)))
      → Quiet (λ o. Reports name_of search o.0 (text_of o.1)) (searched name_of search)
  unfolding ◌>>=◌ lift pure
  Quiet-searched (ok hits) = record { at = λ t. ((hits, none), t, refl, refl, (refl, refl)) }
  Quiet-searched (raise exc) = record {
    at = λ t. (([], some (error_of name_of exc)), t, refl, refl, (refl, refl));
  }

  Quiet-emit_error :
      (request : RetrievalRequest) (mode : RetrievalMode) (error : Option (String × String))
      → Quiet Any (emit_error {F = F} request mode error)
  Quiet-emit_error request mode none = Quiet-pure tt tt
  Quiet-emit_error request mode (some e) = Quiet-emit _

  Quiet-run_mode :
      (request : RetrievalRequest) (mode : RetrievalMode) (o : Result (List (RetrievedChunk F)) × ℕ)
      → Quiet
          (λ m. Reports name_of o.0 m.hits m.error × IsEventOf mode m.hits m.event)
          (run_mode name_of request mode o)
  unfolding run_mode
  Quiet-run_mode request mode (outcome, l) = Quiet-then (Quiet-emit _) (
      Quiet-bind (Quiet-searched outcome) (λ o p. Quiet-then (Quiet-emit _) (
        Quiet-then (Quiet-emit_error request mode o.1)
          (Quiet-pure _ (reported o p, (refl, refl, refl))))))
    where
      reported :
          (o : List (RetrievedChunk F) × Option (String × String))
          → Reports name_of outcome o.0 (text_of o.1)
          → Reports name_of outcome o.0 (elim o.1 [ none ↦ none | some e ↦ some e.0 ])
      reported (hits, none) p = p
      reported (hits, some e) p = p

module _ {F : Type 0} (services : Services F) (settings : Settings F) where
  -- What `retrieve` returns for a request.
  abbrev pub Isolated : RetrievalRequest → RetrievalResult F → Type 0
  Isolated request r =
      Reports services.name_of
        (services.dense_search request.corpus_id request.text settings.k_dense).0 r.dense
        r.dense_error
      × Reports services.name_of
          (services.sparse_search request.corpus_id request.text settings.k_sparse).0 r.sparse
          r.sparse_error
      × (r.sub_query_id ≡ request.sub_query_id)
      × (r.corpus_id ≡ request.corpus_id)
      × ((d : RetrievalEvent F) × (s : RetrievalEvent F) × (r.retrieval_events ≡ d ∷ s ∷ [])
          × IsEventOf RetrievalMode.dense r.dense d
          × IsEventOf RetrievalMode.sparse r.sparse s)

  -- `retrieve` returns whatever its two searches do, also where one or both raise, and leaves the
  -- session's record alone. Each mode of the result reports its own search and nothing of the
  -- other: the hits it found and no error, or no hits and the error's text where it raised. The
  -- result carries the request's sub-query and corpus, and for each mode one event with
  -- the ids and scores of its hits.
  pub retrieve-Isolated :
      (request : RetrievalRequest) → Quiet (Isolated request) (retrieve services settings request)
  unfolding retrieve
  retrieve-Isolated request = Quiet-bind (Quiet-run_mode services.name_of request _ _) (λ d p.
      Quiet-bind (Quiet-run_mode services.name_of request _ _)
        (λ s q. Quiet-pure _ (p.0, q.0, refl, refl, (d.event, s.event, refl, p.1, q.1))))
