-- ===== src/Stream/Served.antt =====
-- A whole connection of app/api/stream.py leaves its session in order, whatever frames come.
use streaming_rag.Prelude.{
  ℕ, ◌≤◌, ◌≡◌, refl, sym, ap, ◌∙◌, subst, String, Bool, true, false, List, [], ◌∷◌, ◌++◌, Option,
  some, string_eq, lookup, lookup-insert_self, Result, ok, raise, Exn,
}
use streaming_rag.Float.{Float}
use streaming_rag.Text.{Unicode}
use streaming_rag.Models.Events.{TelemetryEvent}
use streaming_rag.Services.{Services}
use streaming_rag.Settings.{Settings}
use streaming_rag.Turn.{Turn, Exec, pure, lift, continue, ◌>>=◌, ◌>>◌}
use streaming_rag.Turn.Quiet.{Quiet, Any, Quiet-pure, Quiet-reads, Quiet-bind}
use streaming_rag.Session.Record.{SessionRecord}
use streaming_rag.Session.Buffer.{TranscriptChunk}
use streaming_rag.Session.Buffer.Delivery.{ingest_all}
use streaming_rag.Generation.StreamingGenerator.Numbering.{IsNumbered}
use streaming_rag.Stream.{handle_chunk}
use streaming_rag.Stream.Turns.{handle_chunk-Handled, Quiet-emit_traced}
use streaming_rag.Stream.Connection.{
  Received, raw, unreadable, Parsed, refused, parsed, parse_transcript_chunk, handle_parsed, resync,
  serve_frames, serve, is_token, served, first_turn, after_frames, stream_endpoint,
}
use streaming_rag.Session.Store.{Store, get, mark_connected, put}

-- The chunks of the frames that hold one, up to a frame that cannot be read.
abbrev pub with_parsed : Parsed → List TranscriptChunk → List TranscriptChunk
with_parsed (refused text) cs = cs
with_parsed (parsed c) cs = c ∷ cs

unfoldable pub chunks_in : List Received → List TranscriptChunk
unfolding parse_transcript_chunk
chunks_in [] = []
chunks_in (unreadable exc ∷ fs) = []
chunks_in (raw f ∷ fs) = with_parsed (parse_transcript_chunk f) (chunks_in fs)

-- The exception of the first frame that cannot be read, or none.
abbrev pub end_of : List Received → Result (Unit {0})
end_of [] = ok tt
end_of (unreadable exc ∷ fs) = raise exc
end_of (raw f ∷ fs) = end_of fs

module _ {F : Type 0} (window limit : ℕ) where
  -- `s'` is the session of `s` after the chunks were taken in: same id and corpus, the transcript
  -- that the buffer makes of them, versions numbered in order, no wait past the limit.
  abbrev pub IsAfter : List TranscriptChunk → SessionRecord F → SessionRecord F → Type 0
  IsAfter cs s s' =
      (s'.transcript ≡ (ingest_all s.transcript cs window).0)
      × (s'.session_id ≡ s.session_id)
      × (s'.corpus_id ≡ s.corpus_id)
      × IsNumbered s'
      × (s'.wait_count ≤ limit)

module _ {F : Type 0} ⦃fl : Float F⦄ ⦃u : Unicode⦄ (services : Services F) (settings : Settings F)
    (name_of : Exn → String) where
  abbrev pub IsServed :
      Exec F (Unit {0}) → Result (Unit {0}) → List TranscriptChunk → Turn F → Type 0
  IsServed m end cs t =
      (t' : Turn F) × (m t ≡ (end, t'))
      × IsAfter settings.reorder_window_ms settings.max_wait_chunks cs t.session t'.session

  IsServed-then :
      (m n : Exec F (Unit {0})) (t t' : Turn F) (end : Result (Unit {0}))
      (cs : List TranscriptChunk)
      → m t ≡ (ok tt, t')
      → IsServed n end cs t'
      → (t'' : Turn F) × ((m >> n) t ≡ (end, t''))
        × IsAfter settings.reorder_window_ms settings.max_wait_chunks cs t'.session t''.session
  unfolding ◌>>=◌
  IsServed-then m n t t' end cs e (t'', e', r) =
      (t'', ap (λ (x : Result (Unit {0}) × Turn F). continue x.0 (λ _. n) x.1) e ∙ e', r)

  -- A stage that leaves the session alone goes before.
  IsServed-Quiet :
      (m n : Exec F (Unit {0})) (t : Turn F) (end : Result (Unit {0})) (cs : List TranscriptChunk)
      → Quiet Any m
      → IsNumbered t.session
      → t.session.wait_count ≤ settings.max_wait_chunks
      → ((t' : Turn F)
          → IsNumbered t'.session
          → t'.session.wait_count ≤ settings.max_wait_chunks
          → IsServed n end cs t')
      → IsServed (m >> n) end cs t
  IsServed-Quiet m n t end cs q h w rest =
      let (_, t', e, same, _) = q.at t in
      let (t'', e', r) = IsServed-then m n t t' end cs e (
        rest t' (subst IsNumbered (sym same) h) (
          subst (λ (x : SessionRecord F). x.wait_count ≤ settings.max_wait_chunks) (sym same) w)) in
      (
        t'',
        e',
        subst
            (λ (x : SessionRecord F).
              IsAfter settings.reorder_window_ms settings.max_wait_chunks cs x t''.session)
            same r,
      )

  IsServed-parsed :
      (p : Parsed) (n : Exec F (Unit {0})) (end : Result (Unit {0})) (cs : List TranscriptChunk)
      (t : Turn F)
      → IsNumbered t.session
      → t.session.wait_count ≤ settings.max_wait_chunks
      → ((t' : Turn F)
          → IsNumbered t'.session
          → t'.session.wait_count ≤ settings.max_wait_chunks
          → IsServed n end cs t')
      → IsServed (handle_parsed services settings name_of p >> n) end (with_parsed p cs) t
  unfolding ingest_all
  IsServed-parsed (refused text) n end cs t h w rest =
      IsServed-Quiet (handle_parsed services settings name_of (refused text)) n t end cs
        (Quiet-emit_traced services.ulid _) h w rest
  IsServed-parsed (parsed c) n end cs t h w rest =
      let (t', e, tr, id, co, num, wa) = handle_chunk-Handled services settings name_of c t h w in
      let (t'', e', (tr', id', co', num', wa')) =
        IsServed-then (handle_chunk services settings name_of c) n t t' end cs e (rest t' num wa) in
      (
        t'',
        e',
        (
          tr' ∙ ap (λ b. (ingest_all b cs settings.reorder_window_ms).0) tr,
          id' ∙ id,
          co' ∙ co,
          num',
          wa',
        ),
      )

  serve_frames-IsServed :
      (frames : List Received) (t : Turn F)
      → IsNumbered t.session
      → t.session.wait_count ≤ settings.max_wait_chunks
      → IsServed
          (serve_frames services settings name_of frames)
          (end_of frames)
          (chunks_in frames)
          t
  unfolding serve_frames chunks_in ingest_all pure lift
  serve_frames-IsServed [] t h w = (t, refl, (refl, refl, refl, h, w))
  serve_frames-IsServed (unreadable exc ∷ fs) t h w = (t, refl, (refl, refl, refl, h, w))
  serve_frames-IsServed (raw f ∷ fs) t h w =
      IsServed-parsed (parse_transcript_chunk f) (serve_frames services settings name_of fs)
        (end_of fs) (chunks_in fs) t h w (serve_frames-IsServed fs)

  -- A connection ends with the frames or the first that cannot be read, whatever the stages raise. A
  -- frame that is no transcript chunk leaves the session alone. Afterwards the session has the
  -- transcript that the buffer makes of the chunks among the frames, in their order; it is the
  -- same session of the same corpus, its versions are numbered 1, 2, 3, … and it has not waited
  -- past the limit, if that was so before.
  pub serve-IsServed :
      (was_connected : Bool) (frames : List Received) (t : Turn F)
      → IsNumbered t.session
      → t.session.wait_count ≤ settings.max_wait_chunks
      → IsServed
          (serve services settings name_of was_connected frames)
          (end_of frames)
          (chunks_in frames)
          t
  unfolding serve
  serve-IsServed was_connected frames t h w =
      IsServed-Quiet (resync services settings name_of was_connected)
        (serve_frames services settings name_of frames) t (end_of frames) (chunks_in frames)
        (quiet was_connected) h w (serve_frames-IsServed frames)
    where
      quiet : (b : Bool) → Quiet Any (resync services settings name_of b)
      quiet false = Quiet-pure tt tt
      quiet true = Quiet-bind (Quiet-reads _) (λ p _. Quiet-emit_traced services.ulid p)

  endpoint-serve :
      (api_key : String) (ttl now later : ℕ) (token : Option String) (session_id : String)
      (frames : List Received) (s s' s'' : Store F) (r r' : SessionRecord F) (was_connected : Bool)
      → is_token api_key token ≡ true
      → get services.ulid ttl now session_id s ≡ (ok r, s')
      → mark_connected services.ulid ttl later session_id s' ≡ (ok was_connected, s'')
      → lookup session_id s''.sessions ≡ some r'
      → stream_endpoint services settings name_of api_key ttl now later token session_id frames s
        ≡ after_frames services settings name_of session_id r' s'' (
            serve services settings name_of was_connected frames
              (first_turn services settings name_of r' s''))
  unfolding stream_endpoint
  endpoint-serve api_key ttl now later token session_id frames s s' s'' r r' was_connected a b c d =
      rw (a, b, c, d) refl

  -- A client with the key that connects to a session that the store hands out is served, whatever
  -- the stages raise, until it disconnects; only a frame that cannot be read ends the connection
  -- before, with its exception. Afterwards the store holds the session, the same one of the same
  -- corpus, with the events of the connection added to its log and the transcript that the buffer
  -- makes of the chunks among the frames up to there, in their order (other frames leave it alone),
  -- its versions numbered 1, 2, 3, … and no wait past the limit, if that was so before.
  pub stream_endpoint-IsAfter :
      (api_key : String) (ttl now later : ℕ) (token : Option String) (session_id : String)
      (frames : List Received) (s s' s'' : Store F) (r r' : SessionRecord F) (was_connected : Bool)
      → is_token api_key token ≡ true
      → get services.ulid ttl now session_id s ≡ (ok r, s')
      → mark_connected services.ulid ttl later session_id s' ≡ (ok was_connected, s'')
      → lookup session_id s''.sessions ≡ some r'
      → IsNumbered r'
      → r'.wait_count ≤ settings.max_wait_chunks
      → (log : List (TelemetryEvent F)) × (end : Store F) × (left : SessionRecord F)
        × (stream_endpoint services settings name_of api_key ttl now later token session_id frames s
            ≡ (served (end_of frames) log, end))
        × (lookup session_id end.sessions ≡ some left)
        × (left.event_log ≡ r'.event_log ++ log)
        × IsAfter settings.reorder_window_ms settings.max_wait_chunks (chunks_in frames) r' left
  stream_endpoint-IsAfter api_key ttl now later token session_id frames s s' s'' r r' was_connected
        a b c d h w =
      let (t, e, after) =
        serve-IsServed was_connected frames (first_turn services settings name_of r' s'') h w in
      (
        t.log,
        record (put session_id (left t) s'') { minted = t.minted },
        left t,
        endpoint-serve api_key ttl now later token session_id frames s s' s'' r r' was_connected a b
              c d
            ∙ ap (after_frames services settings name_of session_id r' s'') e,
        lookup-insert_self session_id (left t) s''.sessions,
        refl,
        after,
      )
    where
      left : Turn F → SessionRecord F
      left t = record t.session { event_log = r'.event_log ++ t.log }
