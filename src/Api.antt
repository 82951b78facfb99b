-- ===== src/Api.antt =====
-- The routes of app/api/session.py and the keys of app/api/deps.py. FastAPI calls the key check
-- first and makes the reply of an `HTTPException`; texts of errors are left out.
pub mod Created
pub mod Evaluation
use Prim.Native.String.{◌++◌ as str_append}
use streaming_rag.Prelude.{
  ℕ, String, Bool, true, false, Option, none, some, List, ◌==◌, string_eq, if◌then◌else◌, length,
  Dict, Result, ok, raise, Exn,
}
use streaming_rag.Text.{is_blank}
use streaming_rag.Session.Record.{SessionRecord, SessionStatus}
use streaming_rag.Session.Store.{Store, create, get}
use streaming_rag.Corpus.Bm25.Registry.{is_available}
use streaming_rag.Stream.Connection.{count_or_none}

-- `CreateSessionResponse`
pub record CreateSessionResponse : Type 0 where
  pub session_id : String
  pub created_at : ℕ
  pub ws_url : String

-- The body of GET /session/{id}.
pub record SessionView : Type 0 where
  pub session_id : String
  pub corpus_id : String
  pub status : SessionStatus
  pub entities : Dict String String
  pub latest_answer_version : Option ℕ
  pub created_at : ℕ
  pub last_active_at : ℕ

pub data ApiReply : Type 0 where
  unauthorized forbidden bad_request not_found : ApiReply
  server_error : Exn → ApiReply
  created : CreateSessionResponse → ApiReply
  found : SessionView → ApiReply

-- `payload.corpus_id or settings.default_corpus_id`
abbrev pub chosen_corpus : Option String → String → String
chosen_corpus none default_corpus_id = default_corpus_id
chosen_corpus (some c) default_corpus_id = if is_blank c then default_corpus_id else c

abbrev pub is_header : Option String → String → Bool
is_header none s = false
is_header (some h) s = h == s

-- `require_api_key`, in front of a route that answers `reply`
unfoldable pub require_api_key :
    {S : Type 0} → String → Option String → S → ApiReply × S → ApiReply × S
require_api_key api_key authorization s reply =
    if is_header authorization (str_append "Bearer " api_key) then reply else (unauthorized, s)

-- `require_eval_key`
unfoldable pub require_eval_key :
    {S : Type 0} → String → Option String → S → ApiReply × S → ApiReply × S
require_eval_key eval_key x_eval_key s reply =
    if is_header x_eval_key eval_key then reply else (forbidden, s)

abbrev pub ws_url_of : String → String → String
ws_url_of api_key session_id =
    str_append "/session/" (str_append session_id (str_append "/stream?token=" api_key))

module _ {F : Type 0} where
  abbrev pub reply_created : String → Result (SessionRecord F) × Store F → ApiReply × Store F
  reply_created api_key (raise e, s) = (server_error e, s)
  reply_created api_key (ok r, s) = (
    created (record {
      session_id = r.session_id;
      created_at = r.created_at;
      ws_url = ws_url_of api_key r.session_id;
    }),
    s,
  )

  abbrev pub if_known : Result Bool → Store F → ApiReply × Store F → ApiReply × Store F
  if_known (raise e) s reply = (bad_request, s)
  if_known (ok false) s reply = (bad_request, s)
  if_known (ok true) s reply = reply

  -- `create_session`, with `file_of` the index files of the corpora
  unfoldable pub create_session :
      {Bytes : Type 0}
      → (ℕ → String)
      → String
      → String
      → (String → Option Bytes)
      → ℕ
      → Option String
      → Store F
      → ApiReply × Store F
  unfolding is_available create
  create_session ulid api_key default_corpus_id file_of now corpus_id s =
      let chosen = chosen_corpus corpus_id default_corpus_id in
      if_known (is_available file_of chosen) s (reply_created api_key (create ulid now chosen s))

  abbrev pub view_of : SessionRecord F → SessionView
  view_of r = record {
    session_id = r.session_id;
    corpus_id = r.corpus_id;
    status = r.status;
    entities = r.entities;
    latest_answer_version = count_or_none (length r.answer_versions);
    created_at = r.created_at;
    last_active_at = r.last_active_at;
  }

  abbrev pub reply_found : Result (SessionRecord F) × Store F → ApiReply × Store F
  reply_found (raise e, s) = (not_found, s)
  reply_found (ok r, s) = (found (view_of r), s)

  -- `get_session`
  unfoldable pub get_session : (ℕ → String) → ℕ → ℕ → String → Store F → ApiReply × Store F
  unfolding get
  get_session ulid ttl now session_id s = reply_found (get ulid ttl now session_id s)
