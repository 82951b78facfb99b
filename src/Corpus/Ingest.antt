-- ===== src/Corpus/Ingest.antt =====
-- scripts/ingest_corpus.py: a corpus from its files to the vector store, the sparse index and the
-- manifest. JSON, hashing, the embedding model, `rank_bm25`, pickle and
-- the Qdrant client are parameters; times and log lines are left out.
pub mod Unchanged
use Prim.Native.String.{◌++◌ as str_append}
use streaming_rag.Prelude.{
  ℕ, zero, suc, ◌≡◌, String, Bool, true, false, not, ◌&&◌, ◌||◌, Option, none, some, or_else, List,
  [], ◌∷◌, ◌++◌, map, length, any, keep, ◌==◌, string_eq, nat_eq, if◌then◌else◌, leb, eqb, Char,
  code, Dict, lookup, insert, contains, Result, ok, raise, external, ◌>>=◌, sort_by,
}
use streaming_rag.Float.{Float}
use streaming_rag.Models.{SlotSchema}
use streaming_rag.Text.{Unicode, lower_text, text_leb}
use streaming_rag.Grounding.CitationValidator.{is_nil}
use streaming_rag.Session.Store.{validate_corpus_id}
use streaming_rag.Corpus.Sections.{Section, split_sections, document_title}
use streaming_rag.Corpus.Chunking.{Chunk, Hashes, chunk_document}
use streaming_rag.Corpus.Slots.{SlotsFile, load_slot_schema}
use streaming_rag.Corpus.Bm25.{Bm25Index, Okapi, Pickle, build}
use streaming_rag.Corpus.Bm25.Registry.{save, load}
use streaming_rag.Corpus.Dense.{
  embedding_dim, dense_error, Qdrant, ensure_collection, upsert_chunks, delete_stale,
}
use streaming_rag.Corpus.Dense
use streaming_rag.Corpus.Documents.{LoadedDocument, Document, Prepared}

pub data Status : Type 0 where
  ingested unchanged : Status

pub record IngestionReport : Type 0 where
  pub corpus_id : String
  pub status : Status
  pub document_count : ℕ
  pub chunk_count : ℕ
  pub fingerprint : String
  pub skipped_files : List String
  pub stale_points_deleted : ℕ

-- What `_is_up_to_date` reads of a manifest, with `none` for a key that is not there or of another
-- type.
pub record Manifest : Type 0 where
  pub fingerprint : Option String
  pub chunk_count : Option ℕ

-- The text of a manifest file: one that `json.loads` refuses, a value that is no object, or an
-- object.
pub data ManifestText : Type 0 where
  not_json not_object : ManifestText
  manifest : Manifest → ManifestText

-- The vector store and the files under PROCESSED_DIR, by the corpus id in their names.
pub record World (Q : Type 0) (Bytes : Type 0) : Type 0 where
  pub store : Q
  pub indexes : Dict String Bytes
  pub chunk_files : Dict String (List Chunk)
  pub manifests : Dict String Bytes

-- The libraries of an ingestion: the hash of the chunk ids, the model's name and its dimension; a
-- manifest's JSON; `embed_batch`; and how many pages of
-- points are read at most.
pub record Tools (F : Type 0) (B : Type 0) (Q : Type 0) (Bytes : Type 0) : Type 0 where
  pub fingerprint_of : List String → String
  pub dump_manifest : Prepared → Manifest → Bytes
  pub load_manifest : Bytes → ManifestText
  pub embed_batch : List String → Result (List (List F))
  pub okapi : Okapi F B
  pub pickle : Pickle B Bytes
  pub client : Qdrant F Q
  pub pages : ℕ
  pub dimension : ℕ

abbrev pub is_text : Option String → String → Bool
is_text none s = false
is_text (some t) s = t == s

abbrev pub is_number : Option ℕ → ℕ → Bool
is_number none n = false
is_number (some m) n = m == n

module _ ⦃u : Unicode⦄ {F B Q Bytes : Type 0} (tools : Tools F B Q Bytes) where
  -- `compute_fingerprint`
  abbrev pub compute_fingerprint : List Chunk → String
  compute_fingerprint chunks = tools.fingerprint_of (map (λ c. c.chunk_id) chunks)

  -- Whether the manifest says that the corpus is the one asked about; `manifest.get` of a value that
  -- is no object raises.
  abbrev pub is_manifest : String → ℕ → ManifestText → Result Bool
  is_manifest fingerprint chunk_count not_json = ok false
  is_manifest fingerprint chunk_count not_object = raise (external "AttributeError")
  is_manifest fingerprint chunk_count (manifest m) =
      ok (is_text m.fingerprint fingerprint && is_number m.chunk_count chunk_count)

  abbrev pub is_index : String → ℕ → Result (Bm25Index B) → Bool
  is_index fingerprint chunk_count (raise e) = false
  is_index fingerprint chunk_count (ok index) =
      index.fingerprint == fingerprint && length index.records == chunk_count

  abbrev pub read_manifest : String → ℕ → Option Bytes → Result Bool
  read_manifest fingerprint chunk_count none = ok false
  read_manifest fingerprint chunk_count (some bytes) =
      is_manifest fingerprint chunk_count (tools.load_manifest bytes)

  -- `_is_up_to_date`
  unfoldable pub is_up_to_date : String → String → ℕ → World Q Bytes → Result Bool
  unfolding load Dense.count
  is_up_to_date corpus_id fingerprint chunk_count w =
      read_manifest fingerprint chunk_count (lookup corpus_id w.manifests) >>= (λ same.
        if same
          && is_index fingerprint chunk_count
              (load tools.okapi tools.pickle (lookup corpus_id w.indexes) corpus_id)
        then (Dense.count tools.client corpus_id w.store >>= (λ n. ok (n == chunk_count)))
        else ok false)

  abbrev pub report : String → Prepared → Status → ℕ → IngestionReport
  report corpus_id p status stale = record {
    corpus_id = corpus_id;
    status = status;
    document_count = length p.loaded;
    chunk_count = length p.chunks;
    fingerprint = compute_fingerprint p.chunks;
    skipped_files = p.skipped;
    stale_points_deleted = stale;
  }

  -- The files, once the points are stored: the index, the chunks, and the manifest last.
  abbrev pub write_files :
      String
      → Prepared
      → ℕ
      → World Q Bytes
      → Result (Bm25Index B)
      → Result IngestionReport × World Q Bytes
  write_files corpus_id p stale w (raise e) = (raise e, w)
  write_files corpus_id p stale w (ok index) = (
    ok (report corpus_id p Status.ingested stale),
    record {
      store = w.store;
      indexes = insert corpus_id (save tools.okapi tools.pickle index) w.indexes;
      chunk_files = insert corpus_id p.chunks w.chunk_files;
      manifests =
          insert corpus_id
            (tools.dump_manifest p (record {
              fingerprint = some (compute_fingerprint p.chunks);
              chunk_count = some (length p.chunks);
            }))
            w.manifests;
    },
  )

  abbrev pub after_delete :
      String
      → Prepared
      → World Q Bytes
      → Option (Result ℕ × Q)
      → Option (Result IngestionReport × World Q Bytes)
  after_delete corpus_id p w none = none
  after_delete corpus_id p w (some (raise e, q)) = some (raise e, record w { store = q })
  after_delete corpus_id p w (some (ok stale, q)) = some (
      write_files corpus_id p stale (record w { store = q })
        (build tools.okapi corpus_id p.chunks (compute_fingerprint p.chunks)))

  abbrev pub after_upsert :
      String
      → Prepared
      → World Q Bytes
      → Result Q × Q
      → Option (Result IngestionReport × World Q Bytes)
  after_upsert corpus_id p w (raise e, q) = some (raise e, record w { store = q })
  after_upsert corpus_id p w (ok _, q) =
      after_delete corpus_id p w
        (delete_stale tools.client tools.pages corpus_id (map (λ c. c.chunk_id) p.chunks) q)

  abbrev pub after_collection :
      String
      → Prepared
      → List (List F)
      → World Q Bytes
      → Result Q
      → Option (Result IngestionReport × World Q Bytes)
  after_collection corpus_id p vectors w (raise e) = some (raise e, w)
  after_collection corpus_id p vectors w (ok q) =
      after_upsert corpus_id p w (upsert_chunks tools.client corpus_id p.chunks vectors q)

  abbrev pub after_embedding :
      String
      → Prepared
      → World Q Bytes
      → Result (List (List F))
      → Option (Result IngestionReport × World Q Bytes)
  after_embedding corpus_id p w (raise e) = some (raise e, w)
  after_embedding corpus_id p w (ok vectors) =
      after_collection corpus_id p vectors w (ensure_collection tools.client w.store)

  abbrev pub after_check :
      String
      → Prepared
      → World Q Bytes
      → Result Bool
      → Option (Result IngestionReport × World Q Bytes)
  after_check corpus_id p w (raise e) = some (raise e, w)
  after_check corpus_id p w (ok true) = some (ok (report corpus_id p Status.unchanged 0), w)
  after_check corpus_id p w (ok false) =
      after_embedding corpus_id p w (tools.embed_batch (map (λ c. c.text) p.chunks))

  abbrev pub after_prepare :
      Bool
      → String
      → World Q Bytes
      → Result Prepared
      → Option (Result IngestionReport × World Q Bytes)
  after_prepare force corpus_id w (raise e) = some (raise e, w)
  after_prepare force corpus_id w (ok p) =
      if tools.dimension == embedding_dim
      then after_check corpus_id p w (
          if force
          then ok false
          else is_up_to_date corpus_id (compute_fingerprint p.chunks) (length p.chunks) w)
      else some (dense_error, w)

  -- `ingest_corpus`, given what `_prepare` comes to for a corpus; none when the points of the
  -- corpus take more than `pages` pages.
  unfoldable pub ingest_corpus :
      Bool
      → (String → Result Prepared)
      → String
      → World Q Bytes
      → Option (Result IngestionReport × World Q Bytes)
  unfolding validate_corpus_id
  ingest_corpus force prepared corpus_id w = of_id (validate_corpus_id corpus_id)
    where
      of_id : Result String → Option (Result IngestionReport × World Q Bytes)
      of_id (raise e) = some (raise e, w)
      of_id (ok c) = after_prepare force c w (prepared c)

  abbrev pub failed_by : Result IngestionReport → ℕ → ℕ
  failed_by (raise e) n = suc n
  failed_by (ok r) n = n

  -- The loop of `_run_cli`: the number of corpora that failed.
  unfoldable pub ingest_all :
      Bool
      → (String → Result Prepared)
      → List String
      → ℕ
      → World Q Bytes
      → Option (ℕ × World Q Bytes)
  unfolding ingest_corpus
  ingest_all force prepared [] failures w = some (failures, w)
  ingest_all force prepared (c ∷ cs) failures w =
      next (ingest_corpus force prepared c w)
        (λ r w'. ingest_all force prepared cs (failed_by r failures) w')
    where
      next :
          Option (Result IngestionReport × World Q Bytes)
          → (Result IngestionReport → World Q Bytes → Option (ℕ × World Q Bytes))
          → Option (ℕ × World Q Bytes)
      next none rest = none
      next (some (r, w')) rest = rest r w'

  -- `_run_cli`: the exit code
  unfoldable pub run_cli :
      Bool → (String → Result Prepared) → List String → World Q Bytes → Option (ℕ × World Q Bytes)
  unfolding ingest_all
  run_cli force prepared corpus_ids w = code_of (ingest_all force prepared corpus_ids 0 w)
    where
      code_of : Option (ℕ × World Q Bytes) → Option (ℕ × World Q Bytes)
      code_of none = none
      code_of (some (zero, w')) = some (0, w')
      code_of (some (suc n, w')) = some (1, w')
