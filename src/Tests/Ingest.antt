-- ===== src/Tests/Ingest.antt =====
-- A corpus of one chunk, ingested twice.
use streaming_rag.Prelude.{
  ℕ, ◌≡◌, refl, ap, suc, String, false, Option, none, some, List, [], ◌∷◌, map, length, Result, ok,
}
use streaming_rag.Float.{nat_float}
use streaming_rag.Session.Store.{validate_corpus_id}
use streaming_rag.Corpus.Bm25.{Saved, Unpickled, build}
use streaming_rag.Corpus.Dense.{Point, upsert_chunks, delete_stale, ensure_collection}
use streaming_rag.Corpus.Documents.{Prepared}
use streaming_rag.Corpus.Ingest.{
  Manifest, ManifestText, not_json, manifest, Status, World, Tools, IngestionReport, report,
  ingest_corpus, is_up_to_date,
}
use streaming_rag.Corpus.Ingest.Unchanged.{ingest_corpus-unchanged}
use streaming_rag.Tests.Data.{spaces}
use streaming_rag.Tests.Corpus.{fee_chunk, okapi, client, zeros}

abbrev fee_corpus : Prepared
fee_corpus = record { loaded = []; chunks = fee_chunk ∷ []; skipped = [] }

-- Bytes are what they stand for: a saved index, or a manifest.
data Bytes : Type 0 where
  index_file : Saved (List ℕ) → Bytes
  manifest_file : Manifest → Bytes

abbrev saved_index : Bytes → Option (Unpickled (List ℕ))
saved_index (index_file d) = some (Unpickled.index_dict d)
saved_index (manifest_file m) = none

abbrev parsed_manifest : Bytes → ManifestText
parsed_manifest (index_file d) = not_json
parsed_manifest (manifest_file m) = manifest m

abbrev tools : Tools ℕ (List ℕ) (List (Point ℕ)) Bytes
tools = record {
  fingerprint_of = λ ids. "f";
  dump_manifest = λ p m. manifest_file m;
  load_manifest = parsed_manifest;
  embed_batch = λ ts. ok (map (λ t. zeros 384) ts);
  okapi = okapi;
  pickle = record { dumps = index_file; loads = saved_index };
  client = client;
  pages = 1;
  dimension = 384;
}

abbrev empty_world : World (List (Point ℕ)) Bytes
empty_world = record { store = []; indexes = []; chunk_files = []; manifests = [] }

abbrev world_of :
    Option (Result IngestionReport × World (List (Point ℕ)) Bytes) → World (List (Point ℕ)) Bytes
world_of none = empty_world
world_of (some (r, w)) = w

abbrev first_run : World (List (Point ℕ)) Bytes
first_run = world_of (ingest_corpus tools false (λ c. ok fee_corpus) "k" empty_world)

count_kept : (ts : List (List String)) → length (okapi.build ts) ≡ length ts
count_kept [] = refl
count_kept (t ∷ ts) = ap suc (count_kept ts)

ingest_corpus-unchanged_example :
    ingest_corpus tools false (λ c. ok fee_corpus) "k" first_run
    ≡ some (ok (report tools "k" fee_corpus Status.unchanged 0), first_run)
unfolding ingest_corpus validate_corpus_id is_up_to_date ensure_collection upsert_chunks
    delete_stale build
ingest_corpus-unchanged_example =
    ingest_corpus-unchanged tools (λ d. refl) (λ p m. refl) count_kept false (λ c. ok fee_corpus)
      "k" empty_world first_run fee_corpus (report tools "k" fee_corpus Status.ingested 0) refl refl
      refl refl refl
