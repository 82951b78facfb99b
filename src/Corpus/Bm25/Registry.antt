-- ===== src/Corpus/Bm25/Registry.antt =====
-- The files of the sparse indexes and the registry of the loaded ones
-- (app/retrieval/sparse_bm25.py).
use streaming_rag.Prelude.{
  ℕ, String, Bool, false, not, ◌||◌, Option, none, some, List, [], length, ◌==◌, string_eq, nat_eq,
  if◌then◌else◌, is_some, or_else, Dict, lookup, insert, remove, Result, ok, raise, external, ◌>>=◌,
}
use streaming_rag.Float.{Float}
use streaming_rag.Models.{RetrievedChunk}
use streaming_rag.Text.{Unicode}
use streaming_rag.Session.Store.{validate_corpus_id}
use streaming_rag.Corpus.Bm25.{
  IndexRecord, Okapi, Bm25Index, Unpickled, other_object, index_dict, Pickle, index_error, search,
}

-- `SparseIndexRegistry.is_available`
unfoldable pub is_available : {Bytes : Type 0} → (String → Option Bytes) → String → Result Bool
unfolding validate_corpus_id
is_available file_of corpus_id = do c ← validate_corpus_id corpus_id; ok (is_some (file_of c))

module _ {F B Bytes : Type 0} (okapi : Okapi F B) (pickle : Pickle B Bytes) where
  -- `save`: the bytes that the file is replaced by
  unfoldable pub save : Bm25Index B → Bytes
  save index = pickle.dumps (record {
    format_version = some 1;
    corpus_id = some index.corpus_id;
    fingerprint = some index.fingerprint;
    records = some index.records;
    bm25 = some index.bm25;
  })

  -- The checks of `load` on what the file unpickles to.
  unfoldable pub checked : String → Option (Unpickled B) → Result (Bm25Index B)
  checked expected none = index_error
  checked expected (some other_object) = index_error
  checked expected (some (index_dict d)) =
      if not (or_else d.format_version 0 == 1) || not (is_same d.corpus_id)
      then index_error
      else parts d.records d.bm25
    where
      is_same : Option String → Bool
      is_same none = false
      is_same (some c) = c == expected

      parts : Option (List IndexRecord) → Option B → Result (Bm25Index B)
      parts (some records) (some bm25) =
          if not (length records == okapi.corpus_size bm25)
          then index_error
          else ok (record {
            corpus_id = expected;
            fingerprint = or_else d.fingerprint "";
            records = records;
            bm25 = bm25;
          })
      parts _ _ = index_error

  -- `BM25Index.load`, given the bytes of the file if there is one
  unfoldable pub load : Option Bytes → String → Result (Bm25Index B)
  unfolding validate_corpus_id checked
  load file expected_corpus_id = do
    expected ← validate_corpus_id expected_corpus_id
    read file expected
    where
      read : Option Bytes → String → Result (Bm25Index B)
      read none expected = raise (external "SparseIndexNotFoundError")
      read (some bytes) expected = checked expected (pickle.loads bytes)

  -- `SparseIndexRegistry.get`, with `file_of` the file at `bm25_index_path`, and the cached indexes
  unfoldable pub get :
      (String → Option Bytes)
      → String
      → Dict String (Bm25Index B)
      → Result (Bm25Index B) × Dict String (Bm25Index B)
  unfolding validate_corpus_id load
  get file_of corpus_id indexes = elim (validate_corpus_id corpus_id) [
    | raise e ↦ (raise e, indexes)
    | ok c ↦ elim (lookup c indexes) [
      | some index ↦ (ok index, indexes)
      | none ↦ elim (load (file_of c) c) [
        | raise e ↦ (raise e, indexes)
        | ok index ↦ (ok index, insert c index indexes)
      ]
    ]
  ]

  -- `invalidate`
  unfoldable pub invalidate : Option String → Dict String (Bm25Index B) → Dict String (Bm25Index B)
  invalidate none indexes = []
  invalidate (some corpus_id) indexes = remove corpus_id indexes

-- `SparseIndexRegistry.search`, where `timed_out` is what `asyncio.wait_for` makes of the search.
unfoldable pub search_corpus :
    {F B Bytes : Type 0} ⦃u : Unicode⦄ ⦃fl : Float F⦄
    → Okapi F B
    → Pickle B Bytes
    → Bool
    → (String → Option Bytes)
    → String
    → String
    → ℕ
    → Dict String (Bm25Index B)
    → Result (List (RetrievedChunk F)) × Dict String (Bm25Index B)
unfolding get search
search_corpus okapi pickle timed_out file_of corpus_id text top_k indexes =
    let (found, loaded) = get okapi pickle file_of corpus_id indexes in
    (
      found >>= (λ index.
          if timed_out then raise (external "TimeoutError") else search okapi index text top_k),
      loaded,
    )
