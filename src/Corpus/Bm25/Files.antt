-- ===== src/Corpus/Bm25/Files.antt =====
-- The files of the sparse indexes (app/retrieval/sparse_bm25.py).
use streaming_rag.Prelude.{
  ◌≡◌, refl, ap, sym, String, some, length, Bool-cases, inl, inr, if◌then◌else◌, ◌==◌, string_eq,
  nat_eq, ok,
}
use streaming_rag.Session.Store.{validate_corpus_id}
use streaming_rag.Corpus.Bm25.{Bm25Index, Okapi, Pickle, Saved, Unpickled, index_error}
use streaming_rag.Corpus.Bm25.Registry.{save, checked, load}

module _ {F B Bytes : Type 0} (okapi : Okapi F B) (pickle : Pickle B Bytes) where
  -- The file of an index is read back as the same index under its own corpus id, and is refused
  -- under every other valid id, where pickle reads back what it wrote and the index has as many
  -- records as documents.
  pub load-save :
      ((d : Saved B) → pickle.loads (pickle.dumps d) ≡ some (Unpickled.index_dict d))
      → (index : Bm25Index B) → length index.records ≡ okapi.corpus_size index.bm25
      → (corpus_id : String) → validate_corpus_id corpus_id ≡ ok corpus_id
      → load okapi pickle (some (save okapi pickle index)) corpus_id
        ≡ (if index.corpus_id == corpus_id then ok index else index_error)
  unfolding load save checked
  load-save reads index sized corpus_id valid =
      rw
        (
          valid,
          reads (record {
            format_version = some 1;
            corpus_id = some index.corpus_id;
            fingerprint = some index.fingerprint;
            records = some index.records;
            bm25 = some index.bm25;
          }),
        )
        (elim (Bool-cases (index.corpus_id == corpus_id)) [
          | inl e ↦
              rw
                (
                  e,
                  (nat_eq.equal_iff (length index.records) (okapi.corpus_size index.bm25)).1 sized,
                )
                (ap (λ c. ok (record index { corpus_id = c }))
                  (sym ((string_eq.equal_iff index.corpus_id corpus_id).0 e)))
          | inr e ↦ rw e refl
        ])
