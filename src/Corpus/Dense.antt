-- ===== src/Corpus/Dense.antt =====
-- app/retrieval/dense.py: the points of a corpus in the vector store. The Qdrant client is a
-- parameter over its store `Q`, with the one collection; so are the embedder and the clock, whose
-- timeouts are exceptions of the call that they bound.
pub mod Batches
pub mod Isolation
use streaming_rag.Prelude.{
  ℕ, zero, suc, ◌+◌, ◌-◌, ◌≡◌, String, Bool, true, false, not, ◌&&◌, ◌||◌, Option, none, some, List,
  [], ◌∷◌, ◌++◌, map, length, take, drop, keep, any, ◌==◌, string_eq, nat_eq, if◌then◌else◌, leb,
  Result, ok, raise, external, key_error, ◌>>=◌, sort_by,
}
use streaming_rag.Models.{RetrievedChunk}
use streaming_rag.Text.{Unicode, strip, is_blank, text_leb}
use streaming_rag.Grounding.Tags.{unique}
use streaming_rag.Grounding.CitationValidator.{is_nil}
use streaming_rag.Session.Store.{validate_corpus_id}
use streaming_rag.Corpus.Chunking.{Chunk}

abbrev pub embedding_dim : ℕ
embedding_dim = 384

abbrev pub upsert_batch_size : ℕ
upsert_batch_size = 128

-- `PointStruct` with its payload
pub record Point (F : Type 0) : Type 0 where
  pub id : String
  pub vector : List F
  pub doc_id : String
  pub corpus_id : String
  pub section : String
  pub text : String
  pub chunk_index : ℕ
  pub token_count : ℕ

-- The payload keys that `search_vector` reads beside `corpus_id`.
pub record HitFields : Type 0 where
  pub doc_id : String
  pub section : String
  pub text : String
  pub chunk_index : ℕ
  pub token_count : ℕ

-- A point that a query returns; `fields` is none when a key of its payload is missing.
pub record ScoredPoint (F : Type 0) : Type 0 where
  pub id : String
  pub score : F
  pub corpus_id : Option String
  pub fields : Option HitFields

-- `VectorParams`
pub record VectorParams : Type 0 where
  pub size : ℕ
  pub is_cosine : Bool

-- The calls of the client; `corpus_id` stands for the filter that `corpus_filter` makes of it.
pub record Qdrant (F : Type 0) (Q : Type 0) : Type 0 where
  pub collection_exists : Q → Bool
  -- `none` for named vectors
  pub vectors : Q → Option VectorParams
  pub create_collection : VectorParams → Q → Q
  pub create_payload_index : String → Q → Q
  pub upsert : List (Point F) → Q → Result Q
  pub scroll : String → Option String → Q → Result (List String × Option String)
  pub delete : List String → Q → Result Q
  pub count : String → Q → ℕ
  pub query_points : String → List F → ℕ → Q → Result (List (ScoredPoint F))

abbrev pub dense_error : {A : Type 0} → Result A
dense_error = raise (external "DenseIndexError")

-- `xs[start : start + n] for start in range(0, len(xs), n)`: `fuel` is at least the length.
unfoldable pub batches_of : {A : Type 0} → ℕ → ℕ → List A → List (List A)
batches_of n zero xs = []
batches_of n (suc fuel) [] = []
batches_of n (suc fuel) (x ∷ xs) = take n (x ∷ xs) ∷ batches_of n fuel (drop n (x ∷ xs))

abbrev pub is_from : String → Option String → Bool
is_from corpus_id none = false
is_from corpus_id (some c) = c == corpus_id

module _ {F : Type 0} where
  abbrev pub point_of : String → Chunk → List F → Point F
  point_of corpus_id c vector = record {
    id = c.chunk_id;
    vector = vector;
    doc_id = c.doc_id;
    corpus_id = corpus_id;
    section = c.section;
    text = c.text;
    chunk_index = c.chunk_index;
    token_count = c.token_count;
  }

  -- The first loop of `upsert_chunks`; `zip` is strict.
  unfoldable pub points_of : String → List Chunk → List (List F) → Result (List (Point F))
  points_of corpus_id [] [] = ok []
  points_of corpus_id (c ∷ chunks) (v ∷ vectors) =
      let rest = points_of corpus_id chunks vectors in
      if not (length v == embedding_dim)
      then dense_error
      else (rest >>= (λ points. ok (point_of corpus_id c v ∷ points)))
  points_of corpus_id _ _ = dense_error

  abbrev pub hit_at : String → ℕ → ScoredPoint F → HitFields → RetrievedChunk F
  hit_at corpus_id rank p f = record {
    chunk_id = p.id;
    doc_id = f.doc_id;
    corpus_id = corpus_id;
    section = f.section;
    text = f.text;
    chunk_index = f.chunk_index;
    token_count = f.token_count;
    score = p.score;
    rank = rank;
  }

  abbrev pub with_point :
      String
      → ℕ
      → ScoredPoint F
      → Option HitFields
      → Result (List (RetrievedChunk F))
      → Result (List (RetrievedChunk F))
  with_point corpus_id rank p none rest = raise key_error
  with_point corpus_id rank p (some f) rest =
      rest >>= (λ hits. ok (hit_at corpus_id rank p f ∷ hits))

  -- The loop of `search_vector` over the points, which checks the corpus of each.
  unfoldable pub checked_hits : String → ℕ → List (ScoredPoint F) → Result (List (RetrievedChunk F))
  checked_hits corpus_id rank [] = ok []
  checked_hits corpus_id rank (p ∷ points) =
      let rest = checked_hits corpus_id (suc rank) points in
      if not (is_from corpus_id p.corpus_id)
      then raise (external "CorpusIsolationError")
      else with_point corpus_id rank p p.fields rest

  module _ {Q : Type 0} (client : Qdrant F Q) where
    abbrev pub create_indexes : List String → Q → Q
    create_indexes [] q = q
    create_indexes (name ∷ names) q = create_indexes names (client.create_payload_index name q)

    unfoldable pub ensure_collection : Q → Result Q
    ensure_collection q =
        if client.collection_exists q
        then verified (client.vectors q)
        else ok (
            create_indexes ("chunk_id" ∷ "doc_id" ∷ "corpus_id" ∷ "section" ∷ "text" ∷ [])
              (client.create_collection (record { size = embedding_dim; is_cosine = true }) q))
      where
        verified : Option VectorParams → Result Q
        verified none = dense_error
        verified (some params) =
            if not (params.size == embedding_dim) || not params.is_cosine then dense_error else ok q

    abbrev pub and_then : Q → Result Q → (Q → Result Q × Q) → Result Q × Q
    and_then q (raise e) next = (raise e, q)
    and_then q (ok q') next = next q'

    -- A call of the client for each batch, up to the first that raises.
    unfoldable pub for_each : {A : Type 0} → (A → Q → Result Q) → List A → Q → Result Q × Q
    for_each call [] q = (ok q, q)
    for_each call (b ∷ bs) q = and_then q (call b q) (λ q'. for_each call bs q')

    -- The second loop of `upsert_chunks`, when there are points.
    unfoldable pub send : Result (List (Point F)) → Q → Result Q × Q
    unfolding batches_of for_each
    send (raise e) q = (raise e, q)
    send (ok points) q =
        for_each client.upsert (batches_of upsert_batch_size (length points) points) q

    unfoldable pub upsert_chunks : String → List Chunk → List (List F) → Q → Result Q × Q
    unfolding validate_corpus_id points_of send
    upsert_chunks corpus_id chunks vectors = send (
        validate_corpus_id corpus_id >>= (λ c.
          if not (length chunks == length vectors)
          then dense_error
          else points_of c chunks vectors))

    -- What a page is followed by: an exception, the end, or the next page.
    abbrev pub after_page :
        List String
        → Result (List String × Option String)
        → (Option String → List String → Option (Result (List String)))
        → Option (Result (List String))
    after_page ids (raise e) next = some (raise e)
    after_page ids (ok (page, none)) next = some (ok (ids ++ page))
    after_page ids (ok (page, some offset)) next = next (some offset) (ids ++ page)

    -- The loop of `point_ids`, none after more than `pages` pages.
    unfoldable pub scroll_from :
        ℕ → String → Option String → List String → Q → Option (Result (List String))
    scroll_from zero corpus_id offset ids q = none
    scroll_from (suc pages) corpus_id offset ids q =
        after_page ids (client.scroll corpus_id offset q)
          (λ next found. scroll_from pages corpus_id next found q)

    unfoldable pub point_ids : ℕ → String → Q → Option (Result (List String))
    unfolding scroll_from
    point_ids pages corpus_id q = scroll_from pages corpus_id none [] q

    -- `sorted(ids - keep_ids)`
    abbrev pub stale_of : List String → List String → List String
    stale_of keep_ids ids =
        sort_by text_leb (keep (λ i. not (any (λ k. k == i) keep_ids)) (unique ids))

    -- `delete_stale`: the number of points that it deleted
    unfoldable pub delete_stale : ℕ → String → List String → Q → Option (Result ℕ × Q)
    unfolding point_ids batches_of for_each
    delete_stale pages corpus_id keep_ids q = deleted (point_ids pages corpus_id q)
      where
        counted : ℕ → Result Q × Q → Result ℕ × Q
        counted n (raise e, q') = (raise e, q')
        counted n (ok _, q') = (ok n, q')

        deleted : Option (Result (List String)) → Option (Result ℕ × Q)
        deleted none = none
        deleted (some (raise e)) = some (raise e, q)
        deleted (some (ok ids)) =
            let stale = stale_of keep_ids ids in
            some (
              counted (length stale)
                (for_each client.delete (batches_of upsert_batch_size (length stale) stale) q))

    -- `DenseIndex.count`
    unfoldable pub count : String → Q → Result ℕ
    unfolding validate_corpus_id
    count corpus_id q =
        if client.collection_exists q
        then validate_corpus_id corpus_id >>= (λ c. ok (client.count c q))
        else ok 0

    unfoldable pub search_vector : String → List F → ℕ → Q → Result (List (RetrievedChunk F))
    unfolding validate_corpus_id checked_hits
    search_vector corpus_id vector top_k q = do
      c ← validate_corpus_id corpus_id
      points ← client.query_points c vector top_k q
      checked_hits c 1 points

    -- `_embed_query`, with what the first and the second attempt come to
    unfoldable pub embed_query : (ℕ → String → Result (List F)) → String → Result (List F)
    embed_query embed text = first (embed 0 text)
      where
        second : Result (List F) → Result (List F)
        second (ok v) = ok v
        second (raise e) = raise (external "QueryEmbeddingError")

        first : Result (List F) → Result (List F)
        first (ok v) = ok v
        first (raise e) = second (embed 1 text)

    -- `DenseIndex.search`
    unfoldable pub search :
        ⦃u : Unicode⦄
        → (ℕ → String → Result (List F))
        → String
        → String
        → ℕ
        → Q
        → Result (List (RetrievedChunk F))
    unfolding validate_corpus_id strip embed_query search_vector
    search embed corpus_id text top_k q = do
      c ← validate_corpus_id corpus_id
      (if is_blank (strip text) || leb top_k 0
          then ok []
          else (embed_query embed text >>= (λ vector. search_vector c vector top_k q)))
