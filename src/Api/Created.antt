-- ===== src/Api/Created.antt =====
-- A session that app/api/session.py creates is there for the next request.
use streaming_rag.Prelude.{
  ℕ, suc, insert, >>=-ok, ◌+◌, ◌≤◌, ◌≡◌, refl, ap, ◌∙◌, String, true, false, Option, string_eq,
  arith, ltb, lookup-insert_self, ok,
}
use streaming_rag.Session.Record.{new_session}
use streaming_rag.Session.Store.{Store, create, get, check_age, validate_corpus_id}
use streaming_rag.Session.Store.Names.{validate_corpus_id-same}
use streaming_rag.Corpus.Bm25.Registry.{is_available}
use streaming_rag.Api.{
  created, found, CreateSessionResponse, chosen_corpus, ws_url_of, create_session, view_of,
  get_session,
}

abbrev pub new_reply : String → String → ℕ → CreateSessionResponse
new_reply api_key session_id now = record {
  session_id = session_id;
  created_at = now;
  ws_url = ws_url_of api_key session_id;
}

is_available-valid :
    {Bytes : Type 0} (file_of : String → Option Bytes) (c : String)
    → is_available file_of c ≡ ok true
    → validate_corpus_id c ≡ ok c
unfolding is_available
is_available-valid file_of c h =
    let (d, e, _) = >>=-ok (validate_corpus_id c) _ h in e ∙ ap ok (validate_corpus_id-same c d e)

module _ {F Bytes : Type 0} (ulid : ℕ → String) (api_key default_corpus_id : String)
    (file_of : String → Option Bytes) where
  -- The store after a session was created.
  abbrev with_new : ℕ → String → Store F → Store F
  with_new now c s = record s {
    sessions = insert (ulid s.minted) (new_session (ulid s.minted) c now) s.sessions;
    minted = suc s.minted;
  }

  create-valid :
      (now : ℕ) (c : String) (s : Store F)
      → validate_corpus_id c ≡ ok c
      → create ulid now c s ≡ (ok (new_session (ulid s.minted) c now), with_new now c s)
  unfolding create
  create-valid now c s valid = rw (create, valid) refl

  create_session-created :
      (now : ℕ) (corpus_id : Option String) (s : Store F)
      → is_available file_of (chosen_corpus corpus_id default_corpus_id) ≡ ok true
      → create_session ulid api_key default_corpus_id file_of now corpus_id s ≡ (
        created (new_reply api_key (ulid s.minted) now),
        with_new now (chosen_corpus corpus_id default_corpus_id) s,
      )
  unfolding create_session
  create_session-created now corpus_id s known =
      rw
        (
          known,
          create-valid now (chosen_corpus corpus_id default_corpus_id) s
              (is_available-valid file_of (chosen_corpus corpus_id default_corpus_id) known),
        )
        refl

  get_session-new :
      (ttl now later : ℕ) (c : String) (s : Store F)
      → later ≤ now + ttl
      → get_session ulid ttl later (ulid s.minted) (with_new now c s)
        ≡ (found (view_of (new_session {F = F} (ulid s.minted) c now)), with_new now c s)
  unfolding get_session get check_age
  get_session-new ttl now later c s fits =
      rw
        (
          lookup-insert_self (ulid s.minted) (new_session (ulid s.minted) c now) s.sessions,
          not_expired,
        )
        refl
    where
      not_expired : ltb (now + ttl) later ≡ false
      not_expired = ground (arith, fits)

  -- A request for a session of a corpus that has an index is answered with a new session, never
  -- with an error of the store, and until its time to live is over a request for that session is
  -- answered with it: its id, the corpus asked for (or the default one), active and without
  -- answers.
  pub create_session-get_session :
      (ttl now later : ℕ) (corpus_id : Option String) (s : Store F)
      → is_available file_of (chosen_corpus corpus_id default_corpus_id) ≡ ok true
      → later ≤ now + ttl
      → (end : Store F) × (create_session ulid api_key default_corpus_id file_of now corpus_id s
          ≡ (created (new_reply api_key (ulid s.minted) now), end))
        × (get_session ulid ttl later (ulid s.minted) end ≡ (
          found (
              view_of (
                new_session {F = F}
                  (ulid s.minted)
                  (chosen_corpus corpus_id default_corpus_id)
                  now)),
          end,
        ))
  create_session-get_session ttl now later corpus_id s known fits = (
    with_new now (chosen_corpus corpus_id default_corpus_id) s,
    create_session-created now corpus_id s known,
    get_session-new ttl now later (chosen_corpus corpus_id default_corpus_id) s fits,
  )
