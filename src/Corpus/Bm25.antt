-- ===== src/Corpus/Bm25.antt =====
-- app/retrieval/sparse_bm25.py: the sparse index of a corpus, its file, and the registry of the
-- loaded ones. `rank_bm25`, `pickle` and numpy's `argsort` are parameters. An exception of the
-- file's own is an `external` one with the name of its class.
pub mod Ranking
pub mod Registry
pub mod Files
use streaming_rag.Prelude.{
  ℕ, zero, suc, ◌+◌, ◌≡◌, refl, String, Bool, true, false, not, ◌&&◌, ◌||◌, Option, none, some,
  List, [], ◌∷◌, map, length, get_elem?, ◌==◌, string_eq, nat_eq, if◌then◌else◌, leb, eqb, is_some,
  or_else, Dict, lookup, insert, remove, Result, ok, raise, external, ◌>>=◌,
}
use streaming_rag.Float.{Float, zero_float}
use streaming_rag.Models.{RetrievedChunk}
use streaming_rag.Text.{Unicode, is_blank}
use streaming_rag.Grounding.Tags.{tokenize}
use streaming_rag.Grounding.CitationValidator.{is_nil}
use streaming_rag.Session.Store.{validate_corpus_id}
use streaming_rag.Corpus.Chunking.{Chunk}

-- `_RECORD_FIELDS` of a chunk
pub record IndexRecord : Type 0 where
  pub chunk_id : String
  pub doc_id : String
  pub section : String
  pub text : String
  pub chunk_index : ℕ
  pub token_count : ℕ

-- `BM25Okapi`, and `np.argsort(-scores, kind="stable")`
pub record Okapi (F : Type 0) (B : Type 0) : Type 0 where
  pub build : List (List String) → B
  pub corpus_size : B → ℕ
  pub get_scores : B → List String → List F
  pub argsort : List F → List ℕ

pub record Bm25Index (B : Type 0) : Type 0 where
  pub corpus_id : String
  pub fingerprint : String
  pub records : List IndexRecord
  pub bm25 : B

-- What a file's bytes unpickle to: the `dict` that `save` writes, with `none` for a key that is not
-- there or holds a value of another type, or some other object.
pub record Saved (B : Type 0) : Type 0 where
  pub format_version : Option ℕ
  pub corpus_id : Option String
  pub fingerprint : Option String
  pub records : Option (List IndexRecord)
  pub bm25 : Option B

pub data Unpickled (B : Type 0) : Type 0 where
  other_object : Unpickled B
  index_dict : Saved B → Unpickled B

-- `pickle.dumps` and `pickle.load`, which raises on bytes that it cannot read.
pub record Pickle (B : Type 0) (Bytes : Type 0) : Type 0 where
  pub dumps : Saved B → Bytes
  pub loads : Bytes → Option (Unpickled B)

abbrev pub index_error : {A : Type 0} → Result A
index_error = raise (external "SparseIndexError")

abbrev record_of : Chunk → IndexRecord
record_of c = record {
  chunk_id = c.chunk_id;
  doc_id = c.doc_id;
  section = c.section;
  text = c.text;
  chunk_index = c.chunk_index;
  token_count = c.token_count;
}

abbrev pub hit_of : {F : Type 0} → String → F → ℕ → IndexRecord → RetrievedChunk F
hit_of corpus_id score rank r = record {
  chunk_id = r.chunk_id;
  doc_id = r.doc_id;
  corpus_id = corpus_id;
  section = r.section;
  text = r.text;
  chunk_index = r.chunk_index;
  token_count = r.token_count;
  score = score;
  rank = rank;
}

module _ {F : Type 0} ⦃fl : Float F⦄ where
  -- The hit of a record, in front of those that follow.
  abbrev pub with_hit :
      String
      → F
      → ℕ
      → Option IndexRecord
      → Result (List (RetrievedChunk F))
      → Result (List (RetrievedChunk F))
  with_hit corpus_id score rank none rest = raise (external "IndexError")
  with_hit corpus_id score rank (some r) rest = do
    hits ← rest
    ok (hit_of corpus_id score rank r ∷ hits)

  -- One round of the loop of `search`, with `found` the length of `hits`.
  abbrev pub next_hit :
      String
      → ℕ
      → ℕ
      → Option F
      → Option IndexRecord
      → Result (List (RetrievedChunk F))
      → Result (List (RetrievedChunk F))
  next_hit corpus_id top_k found none r rest = raise (external "IndexError")
  next_hit corpus_id top_k found (some score) r rest =
      if fl.le score zero_float || leb top_k found
      then ok []
      else with_hit corpus_id score (suc found) r rest

  unfoldable pub hits_from :
      {B : Type 0} → Bm25Index B → List F → ℕ → ℕ → List ℕ → Result (List (RetrievedChunk F))
  hits_from index scores top_k found [] = ok []
  hits_from index scores top_k found (i ∷ order) =
      next_hit index.corpus_id top_k found (get_elem? scores i) (get_elem? index.records i)
        (hits_from index scores top_k (suc found) order)

module _ ⦃u : Unicode⦄ where
  -- `c.bm25_tokens or tokenize(c.text)`
  abbrev pub tokens_of : Chunk → List String
  tokens_of c = if is_nil c.bm25_tokens then tokenize c.text else c.bm25_tokens

  abbrev pub has_empty : List Chunk → Bool
  has_empty [] = false
  has_empty (c ∷ cs) = is_nil (tokens_of c) || has_empty cs

  module _ {F B : Type 0} (okapi : Okapi F B) where
    unfoldable pub build : String → List Chunk → String → Result (Bm25Index B)
    unfolding validate_corpus_id tokenize
    build corpus_id chunks fingerprint = do
      valid ← validate_corpus_id corpus_id
      (if is_nil chunks || has_empty chunks
          then index_error
          else ok (record {
            corpus_id = valid;
            fingerprint = fingerprint;
            records = map record_of chunks;
            bm25 = okapi.build (map tokens_of chunks);
          }))

    module _ ⦃fl : Float F⦄ where
      -- `BM25Index.search`
      unfoldable pub search : Bm25Index B → String → ℕ → Result (List (RetrievedChunk F))
      unfolding hits_from tokenize
      search index query top_k =
          let tokens = tokenize query in
          let scores = okapi.get_scores index.bm25 tokens in
          if is_nil tokens || leb top_k 0
          then ok []
          else hits_from index scores top_k 0 (okapi.argsort scores)
