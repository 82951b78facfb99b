-- ===== src/Corpus/Ingest/Unchanged.antt =====
-- A corpus that is ingested again without a change (scripts/ingest_corpus.py).
use streaming_rag.Prelude.{
  length-map, ℕ, ◌≡◌, refl, sym, ap, ◌∙◌, subst, String, Bool, true, false, ◌||◌, Option, none,
  some, List, length, string_eq, nat_eq, if◌then◌else◌, ◌⊎◌, inl, inr, lookup, lookup-insert_self,
  Bool-cases, ◌==◌, Result, ok, raise, >>=-ok,
}
use streaming_rag.Text.{Unicode}
use streaming_rag.Grounding.CitationValidator.{is_nil}
use streaming_rag.Session.Store.{validate_corpus_id}
use streaming_rag.Session.Store.Names.{validate_corpus_id-same}
use streaming_rag.Corpus.Bm25.{Bm25Index, Saved, Unpickled, index_error, build, has_empty}
use streaming_rag.Corpus.Bm25.Registry.{save}
use streaming_rag.Corpus.Bm25.Files.{load-save}
use streaming_rag.Corpus.Dense.{delete_stale, upsert_chunks, ensure_collection}
use streaming_rag.Corpus.Dense.{embedding_dim, dense_error}
use streaming_rag.Corpus.Dense
use streaming_rag.Corpus.Documents.{Prepared}
use streaming_rag.Corpus.Ingest.{
  Status, IngestionReport, Manifest, manifest, World, Tools, compute_fingerprint, is_up_to_date,
  report, write_files, after_delete, after_upsert, after_collection, after_embedding, after_check,
  ingest_corpus,
}

module _ ⦃u : Unicode⦄ {F B Q Bytes : Type 0} (tools : Tools F B Q Bytes) where
  -- What an ingestion leaves behind: the saved index of the chunks and the manifest.
  abbrev IsStored : String → Prepared → IngestionReport → World Q Bytes → Type 0
  IsStored corpus_id p r w =
      (index : Bm25Index B) × (build tools.okapi corpus_id p.chunks
          (compute_fingerprint tools p.chunks)
        ≡ ok index)
      × (lookup corpus_id w.indexes ≡ some (save tools.okapi tools.pickle index))
      × (lookup corpus_id w.manifests
          ≡ some (
              tools.dump_manifest p (record {
                fingerprint = some (compute_fingerprint tools p.chunks);
                chunk_count = some (length p.chunks);
              })))
      × (r ≡ report tools corpus_id p Status.ingested r.stale_points_deleted)

  abbrev IsSettled : String → Prepared → Option (Result IngestionReport × World Q Bytes) → Type 0
  IsSettled corpus_id p none = Unit
  IsSettled corpus_id p (some (raise e, w)) = Unit
  IsSettled corpus_id p (some (ok r, w)) = (r.status ≡ Status.unchanged) ⊎ IsStored corpus_id p r w

  IsSettled-write_files :
      (corpus_id : String) (p : Prepared) (stale : ℕ) (w : World Q Bytes)
      (built : Result (Bm25Index B))
      → build tools.okapi corpus_id p.chunks (compute_fingerprint tools p.chunks) ≡ built
      → IsSettled corpus_id p (some (write_files tools corpus_id p stale w built))
  IsSettled-write_files corpus_id p stale w (raise e) h = tt
  IsSettled-write_files corpus_id p stale w (ok index) h = inr (
    index,
    h,
    lookup-insert_self corpus_id _ w.indexes,
    lookup-insert_self corpus_id _ w.manifests,
    refl,
  )

  IsSettled-after_delete :
      (corpus_id : String) (p : Prepared) (w : World Q Bytes) (o : Option (Result ℕ × Q))
      → IsSettled corpus_id p (after_delete tools corpus_id p w o)
  IsSettled-after_delete corpus_id p w none = tt
  IsSettled-after_delete corpus_id p w (some (raise e, q)) = tt
  IsSettled-after_delete corpus_id p w (some (ok stale, q)) =
      IsSettled-write_files corpus_id p stale (record w { store = q }) _ refl

  IsSettled-after_upsert :
      (corpus_id : String) (p : Prepared) (w : World Q Bytes) (o : Result Q × Q)
      → IsSettled corpus_id p (after_upsert tools corpus_id p w o)
  IsSettled-after_upsert corpus_id p w (raise e, q) = tt
  IsSettled-after_upsert corpus_id p w (ok _, q) = IsSettled-after_delete corpus_id p w _

  IsSettled-after_collection :
      (corpus_id : String) (p : Prepared) (vectors : List (List F)) (w : World Q Bytes)
      (o : Result Q)
      → IsSettled corpus_id p (after_collection tools corpus_id p vectors w o)
  IsSettled-after_collection corpus_id p vectors w (raise e) = tt
  IsSettled-after_collection corpus_id p vectors w (ok q) = IsSettled-after_upsert corpus_id p w _

  IsSettled-after_embedding :
      (corpus_id : String) (p : Prepared) (w : World Q Bytes) (o : Result (List (List F)))
      → IsSettled corpus_id p (after_embedding tools corpus_id p w o)
  IsSettled-after_embedding corpus_id p w (raise e) = tt
  IsSettled-after_embedding corpus_id p w (ok vectors) =
      IsSettled-after_collection corpus_id p vectors w _

  IsSettled-after_check :
      (corpus_id : String) (p : Prepared) (w : World Q Bytes) (o : Result Bool)
      → IsSettled corpus_id p (after_check tools corpus_id p w o)
  IsSettled-after_check corpus_id p w (raise e) = tt
  IsSettled-after_check corpus_id p w (ok true) = inl refl
  IsSettled-after_check corpus_id p w (ok false) = IsSettled-after_embedding corpus_id p w _

  IsSettled-ingest_corpus :
      (force : Bool) (prepared : String → Result Prepared) (corpus_id : String) (w : World Q Bytes)
      (p : Prepared)
      → validate_corpus_id corpus_id ≡ ok corpus_id
      → prepared corpus_id ≡ ok p
      → IsSettled corpus_id p (ingest_corpus tools force prepared corpus_id w)
  unfolding ingest_corpus
  IsSettled-ingest_corpus force prepared corpus_id w p valid ready =
      rw (valid, ready)
        (elim (Bool-cases (tools.dimension == embedding_dim)) [
          | inl e ↦ rw e (IsSettled-after_check corpus_id p w _)
          | inr e ↦ rw e tt
        ])

  -- The index of the chunks of a corpus, as it is built.
  abbrev IsBuilt : String → Prepared → Bm25Index B → Type 0
  IsBuilt corpus_id p index =
      (index.corpus_id ≡ corpus_id)
      × (index.fingerprint ≡ compute_fingerprint tools p.chunks)
      × (length index.records ≡ length p.chunks)
      × (tools.okapi.corpus_size index.bm25 ≡ length p.chunks)

  build-IsBuilt :
      ((ts : List (List String)) → tools.okapi.corpus_size (tools.okapi.build ts) ≡ length ts)
      → (corpus_id : String) (p : Prepared) (index : Bm25Index B)
      → validate_corpus_id corpus_id ≡ ok corpus_id
      → build tools.okapi corpus_id p.chunks (compute_fingerprint tools p.chunks) ≡ ok index
      → IsBuilt corpus_id p index
  unfolding build
  build-IsBuilt sized corpus_id p index valid h =
      let (c, same_id, k) = >>=-ok (validate_corpus_id corpus_id) _ h in
      by_test (is_nil p.chunks || has_empty p.chunks) _
        (
          validate_corpus_id-same corpus_id c same_id,
          refl,
          length-map _ p.chunks,
          sized _ ∙ length-map _ p.chunks,
        )
        k
    where
      by_test :
          (b : Bool) (built : Bm25Index B)
          → IsBuilt corpus_id p built
          → (if b then index_error else ok built) ≡ ok index
          → IsBuilt corpus_id p index
      by_test true built g h = absurd (cc h)
      by_test false built g h = subst (λ r. IsBuilt corpus_id p (or_index built r)) h g
        where
          or_index : Bm25Index B → Result (Bm25Index B) → Bm25Index B
          or_index d (ok i) = i
          or_index d (raise e) = d

  is_up_to_date-stored :
      ((d : Saved B) → tools.pickle.loads (tools.pickle.dumps d) ≡ some (Unpickled.index_dict d))
      → ((p : Prepared) (m : Manifest) → tools.load_manifest (tools.dump_manifest p m) ≡ manifest m)
      → ((ts : List (List String)) → tools.okapi.corpus_size (tools.okapi.build ts) ≡ length ts)
      → (corpus_id : String) (p : Prepared) (r : IngestionReport) (w : World Q Bytes)
      → validate_corpus_id corpus_id ≡ ok corpus_id
      → IsStored corpus_id p r w
      → Dense.count tools.client corpus_id w.store ≡ ok (length p.chunks)
      → is_up_to_date tools corpus_id (compute_fingerprint tools p.chunks) (length p.chunks) w
        ≡ ok true
  unfolding is_up_to_date
  is_up_to_date-stored unpickles parses sized corpus_id p r w valid (index, b, li, lm, _) counted =
      let (same_id, same_print, as_many, whole) = build-IsBuilt sized corpus_id p index valid b in
      let loaded =
        load-save tools.okapi tools.pickle unpickles index (as_many ∙ sym whole) corpus_id valid in
      rw
        (
          lm,
          parses p (record {
            fingerprint = some (compute_fingerprint tools p.chunks);
            chunk_count = some (length p.chunks);
          }),
          li,
          loaded,
          (string_eq.equal_iff index.corpus_id corpus_id).1 same_id,
          (string_eq.equal_iff index.fingerprint (compute_fingerprint tools p.chunks)).1 same_print,
          (nat_eq.equal_iff (length index.records) (length p.chunks)).1 as_many,
          (string_eq.equal_iff (compute_fingerprint tools p.chunks)
                (compute_fingerprint tools p.chunks)).1
              refl,
          (nat_eq.equal_iff (length p.chunks) (length p.chunks)).1 refl,
          counted,
        )
        (ap ok ((nat_eq.equal_iff (length p.chunks) (length p.chunks)).1 refl))

  ingest_corpus-bad_dimension :
      (force : Bool) (prepared : String → Result Prepared) (corpus_id : String) (w : World Q Bytes)
      (p : Prepared)
      → validate_corpus_id corpus_id ≡ ok corpus_id
      → prepared corpus_id ≡ ok p
      → (tools.dimension == embedding_dim) ≡ false
      → ingest_corpus tools force prepared corpus_id w ≡ some (dense_error, w)
  unfolding ingest_corpus
  ingest_corpus-bad_dimension force prepared corpus_id w p valid ready e = rw (valid, ready, e) refl

  dimension-ok :
      (force : Bool) (prepared : String → Result Prepared) (corpus_id : String)
      (w w' : World Q Bytes) (p : Prepared) (r : IngestionReport)
      → validate_corpus_id corpus_id ≡ ok corpus_id
      → prepared corpus_id ≡ ok p
      → ingest_corpus tools force prepared corpus_id w ≡ some (ok r, w')
      → (tools.dimension == embedding_dim) ≡ true
  dimension-ok force prepared corpus_id w w' p r valid ready first =
      elim (Bool-cases (tools.dimension == embedding_dim)) [
        | inl e ↦ e
        | inr e ↦ absurd (
            cc (
              sym (ingest_corpus-bad_dimension force prepared corpus_id w p valid ready e) ∙ first))
      ]

  -- A corpus that was ingested and is ingested again with the same documents, without `--force`, is
  -- left as it is and reported unchanged, where the files are read back as they were written, the
  -- sparse index counts its documents, and the store counts as many points of the corpus as it
  -- has chunks.
  pub ingest_corpus-unchanged :
      ((d : Saved B) → tools.pickle.loads (tools.pickle.dumps d) ≡ some (Unpickled.index_dict d))
      → ((p : Prepared) (m : Manifest) → tools.load_manifest (tools.dump_manifest p m) ≡ manifest m)
      → ((ts : List (List String)) → tools.okapi.corpus_size (tools.okapi.build ts) ≡ length ts)
      → (force : Bool) (prepared : String → Result Prepared) (corpus_id : String)
        (w w' : World Q Bytes) (p : Prepared) (r : IngestionReport)
      → validate_corpus_id corpus_id ≡ ok corpus_id
      → prepared corpus_id ≡ ok p
      → ingest_corpus tools force prepared corpus_id w ≡ some (ok r, w')
      → r.status ≡ Status.ingested
      → Dense.count tools.client corpus_id w'.store ≡ ok (length p.chunks)
      → ingest_corpus tools false prepared corpus_id w'
        ≡ some (ok (report tools corpus_id p Status.unchanged 0), w')
  unfolding ingest_corpus
  ingest_corpus-unchanged unpickles parses sized force prepared corpus_id w w' p r valid ready first
        fresh counted =
      by_status (
        subst (IsSettled corpus_id p) first
          (IsSettled-ingest_corpus force prepared corpus_id w p valid ready))
    where
      by_status :
          (r.status ≡ Status.unchanged) ⊎ IsStored corpus_id p r w'
          → ingest_corpus tools false prepared corpus_id w'
            ≡ some (ok (report tools corpus_id p Status.unchanged 0), w')
      by_status (inl old) = absurd (cc (old, fresh))
      by_status (inr stored) =
          rw
            (
              valid,
              ready,
              dimension-ok force prepared corpus_id w w' p r valid ready first,
              is_up_to_date-stored unpickles parses sized corpus_id p r w' valid stored counted,
            )
            refl
