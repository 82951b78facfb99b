-- ===== src/Stream/Connection.antt =====
-- One connection of `stream_endpoint` (app/api/stream.py): the token, the session, the resync event
-- of a reconnect, and every frame until the client disconnects or one is not JSON. `raw` frames are
-- what JSON makes of them, and pydantic's verdict on a payload is part of the frame. The sink's
-- `record.event_log.append` is done for all the events of a connection at its end: no code of the
-- connection reads `event_log`.
use streaming_rag.Prelude.{
  ℕ, zero, suc, String, Bool, true, false, Option, none, some, or_else, lookup, List, [], ◌∷◌, ◌==◌,
  string_eq, if◌then◌else◌, last?, length, ◌++◌, Result, ok, raise, Exn,
}
use streaming_rag.Float.{Float}
use streaming_rag.Text.{Unicode}
use streaming_rag.Models.Events.{Payload, TelemetryEvent}
use streaming_rag.Services.{Services}
use streaming_rag.Settings.{Settings}
use streaming_rag.Turn.{Turn, Exec, pure, lift, reads, ◌>>=◌, ◌>>◌}
use streaming_rag.Session.Record.{SessionRecord}
use streaming_rag.Session.Buffer.{TranscriptChunk}
use streaming_rag.Session.Store.{Store, get, mark_connected, put}
use streaming_rag.Stream.{handle_chunk, emit_traced, emit_error}

-- A `payload` object: what `TranscriptChunk.model_validate` says of it.
pub data RawPayload : Type 0 where
  not_valid : String → RawPayload
  valid : TranscriptChunk → RawPayload

-- A frame: no object, or one with an `event_type`, if it has one that is a text, and a `payload`, if
-- it has one that is an object.
pub data RawFrame : Type 0 where
  other_value : RawFrame
  object : Option String → Option RawPayload → RawFrame

-- What `receive_json` comes to: a frame, or what it raises on one that holds no JSON.
pub data Received : Type 0 where
  raw : RawFrame → Received
  unreadable : Exn → Received

-- What `_parse_transcript_chunk` returns, or the text of what it raises.
pub data Parsed : Type 0 where
  refused : String → Parsed
  parsed : TranscriptChunk → Parsed

abbrev pub parse_payload : Option RawPayload → Parsed
parse_payload none = refused "frame is missing a 'payload' object"
parse_payload (some (not_valid text)) = refused text
parse_payload (some (valid chunk)) = parsed chunk

abbrev not_a_chunk : Parsed
not_a_chunk = refused "expected a frame with event_type == 'TRANSCRIPT_CHUNK'"

-- `_parse_transcript_chunk`
unfoldable pub parse_transcript_chunk : RawFrame → Parsed
parse_transcript_chunk other_value = not_a_chunk
parse_transcript_chunk (object none payload) = not_a_chunk
parse_transcript_chunk (object (some event_type) payload) =
    if event_type == "TRANSCRIPT_CHUNK" then parse_payload payload else not_a_chunk

abbrev pub count_or_none : ℕ → Option ℕ
count_or_none zero = none
count_or_none (suc n) = some (suc n)

abbrev pub last_seq : Option TranscriptChunk → Option ℕ
last_seq none = none
last_seq (some chunk) = some chunk.seq

-- The payload of the SESSION_RESYNC event.
unfoldable pub resync_payload : {F : Type 0} → SessionRecord F → Payload F
resync_payload r =
    Payload.resynced (count_or_none (length r.answer_versions)) r.entities
      (last_seq (last? r.transcript.buffer))

module _ {F : Type 0} ⦃fl : Float F⦄ ⦃u : Unicode⦄ (services : Services F) (settings : Settings F)
    (name_of : Exn → String) where
  abbrev pub handle_parsed : Parsed → Exec F (Unit {0})
  handle_parsed (refused text) = emit_error services.ulid "stream" "InvalidFrame" text
  handle_parsed (parsed chunk) = handle_chunk services settings name_of chunk

  -- The loop over the frames that the client sends before it disconnects. What `receive_json` raises
  -- is caught by nothing in the loop.
  unfoldable pub serve_frames : List Received → Exec F (Unit {0})
  unfolding handle_chunk parse_transcript_chunk
  serve_frames [] = pure tt
  serve_frames (unreadable exc ∷ fs) = lift (raise exc)
  serve_frames (raw f ∷ fs) = handle_parsed (parse_transcript_chunk f) >> serve_frames fs

  abbrev pub resync : Bool → Exec F (Unit {0})
  resync false = pure tt
  resync true =
      reads (λ t. resync_payload t.session) >>= λ payload. emit_traced services.ulid payload

  -- From `mark_connected` on, which says whether the session was connected before.
  unfoldable pub serve : Bool → List Received → Exec F (Unit {0})
  unfolding serve_frames resync_payload emit_traced
  serve was_connected frames = resync was_connected >> serve_frames frames

-- How a connection ends: closed with a code before any frame, by an exception of
-- `mark_connected`, or, with the events that went out, when the client disconnects or by an
-- exception of the loop.
pub data Connection (F : Type 0) : Type 0 where
  closed_with : ℕ → Connection F
  broken : Exn → Connection F
  served : Result (Unit {0}) → List (TelemetryEvent F) → Connection F

abbrev pub ws_auth_failed : ℕ
ws_auth_failed = 4401

abbrev pub ws_unknown_session : ℕ
ws_unknown_session = 4404

abbrev pub is_token : String → Option String → Bool
is_token api_key none = false
is_token api_key (some token) = token == api_key

module _ {F : Type 0} ⦃fl : Float F⦄ ⦃u : Unicode⦄ (services : Services F) (settings : Settings F)
    (name_of : Exn → String) where
  -- The turn that a connection starts with: the record is the store's own.
  abbrev pub first_turn : SessionRecord F → Store F → Turn F
  first_turn r s = record {
    session = r;
    trace_id = "";
    has_sink = true;
    log = [];
    minted = s.minted;
  }

  -- The record `r` that the connection began with has the events of the sink appended to its log.
  abbrev pub after_frames :
      String → SessionRecord F → Store F → Result (Unit {0}) × Turn F → Connection F × Store F
  after_frames session_id r s (result, t) = (
    served result t.log,
    record (put session_id (record t.session { event_log = r.event_log ++ t.log }) s) {
      minted = t.minted;
    },
  )

  abbrev pub after_mark :
      String → List Received → SessionRecord F → Result Bool × Store F → Connection F × Store F
  after_mark session_id frames r (raise e, s) = (broken e, s)
  after_mark session_id frames r (ok was_connected, s) =
      let connected = or_else (lookup session_id s.sessions) r in
      after_frames session_id connected s
        (serve services settings name_of was_connected frames (first_turn connected s))

  abbrev pub after_get :
      ℕ → ℕ → String → List Received → Result (SessionRecord F) × Store F → Connection F × Store F
  after_get ttl later session_id frames (raise e, s) = (closed_with ws_unknown_session, s)
  after_get ttl later session_id frames (ok r, s) =
      after_mark session_id frames r (mark_connected services.ulid ttl later session_id s)

  -- `stream_endpoint`, with the time of each of its two looks into the store.
  unfoldable pub stream_endpoint :
      String → ℕ → ℕ → ℕ → Option String → String → List Received → Store F → Connection F × Store F
  unfolding get mark_connected serve
  stream_endpoint api_key ttl now later token session_id frames s =
      if is_token api_key token
      then after_get ttl later session_id frames (get services.ulid ttl now session_id s)
      else (closed_with ws_auth_failed, s)
