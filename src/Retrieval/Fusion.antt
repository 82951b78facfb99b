-- ===== src/Retrieval/Fusion.antt =====
-- app/retrieval/fusion.py: reciprocal rank fusion and deduplication. A row that
-- the code mutates is a new row here; a fresh identifier is `ulid` of the number minted before it.
pub mod Doubles
pub mod Order
pub mod Dedup
use streaming_rag.Prelude.{
  ℕ, zero, suc, ◌+◌, String, Bool, Option, none, some, List, [], ◌∷◌, ◌++◌, ◌==◌, string_eq, nat_eq,
  if◌then◌else◌, or_else, Dict, lookup, insert, sort_by, Result, ok, raise, key_error, ◌>>=◌,
  length,
}
use streaming_rag.Float.{Float, zero_float, less, cosine}
use streaming_rag.Models.{RetrievedChunk, Evidence}
use streaming_rag.Models.Events.{RetrievalEvent}

-- app/models/retrieval_event.py, `RetrievalResult`
pub record RetrievalResult (F : Type 0) : Type 0 where
  pub sub_query_id : String
  pub corpus_id : String
  pub dense : List (RetrievedChunk F)
  pub sparse : List (RetrievedChunk F)
  pub dense_error : Option String
  pub sparse_error : Option String
  pub retrieval_events : List (RetrievalEvent F)

abbrev pub ChunksById : Type 0 → Type 0
ChunksById F = Dict String (RetrievedChunk F)

-- `chunks_by_id[chunk_id]`
abbrev pub chunk_at : {F : Type 0} → ChunksById F → String → Result (RetrievedChunk F)
chunk_at chunks chunk_id = elim (lookup chunk_id chunks) [ none ↦ raise key_error | some c ↦ ok c ]

-- A row with its index in `evidence`.
abbrev pub Row : Type 0 → Type 0
Row F = ℕ × Evidence F

module _ {F : Type 0} ⦃fl : Float F⦄ where
  -- `1.0 / (rrf_k + rank + 1)`
  abbrev pub rrf_term : ℕ → ℕ → F
  rrf_term rrf_k rank = fl.div (fl.of_ℕ 1) (fl.of_ℕ (rrf_k + rank + 1))

  -- The two `for rank, chunk in enumerate(…)` loops, on the two dictionaries.
  unfoldable pub score_list :
      ℕ → ℕ → List (RetrievedChunk F) → Dict String F → ChunksById F → Dict String F × ChunksById F
  score_list rrf_k rank [] scores chunks = (scores, chunks)
  score_list rrf_k rank (c ∷ cs) scores chunks =
      score_list rrf_k (suc rank) cs
        (insert c.chunk_id
          (fl.add (or_else (lookup c.chunk_id scores) zero_float) (rrf_term rrf_k rank)) scores)
        (insert c.chunk_id c chunks)

  -- One row for each scored chunk of a sub-query.
  unfoldable pub rows_of : (ℕ → String) → ℕ → String → Dict String F → List (Evidence F)
  rows_of ulid minted sub_query_id [] = []
  rows_of ulid minted sub_query_id ((chunk_id, score) ∷ scores) =
      record {
        evidence_id = ulid minted;
        sub_query_id = sub_query_id;
        chunk_id = chunk_id;
        fusion_score = score;
        rerank_score = none;
        duplicate_of = none;
        contradiction_pair_id = none;
      }
      ∷ rows_of ulid (suc minted) sub_query_id scores

  -- The scores of one result, and the chunks seen so far.
  unfoldable pub score_result : ℕ → RetrievalResult F → ChunksById F → Dict String F × ChunksById F
  unfolding score_list
  score_result rrf_k result chunks =
      let (dense, chunks') = score_list rrf_k 0 result.dense [] chunks in
      score_list rrf_k 0 result.sparse dense chunks'

  unfoldable pub fuse_from :
      (ℕ → String)
      → ℕ
      → ℕ
      → List (RetrievalResult F)
      → ChunksById F
      → List (Evidence F) × ChunksById F × ℕ
  unfolding score_result rows_of
  fuse_from ulid rrf_k minted [] chunks = ([], chunks, minted)
  fuse_from ulid rrf_k minted (r ∷ rs) chunks =
      let (scores, chunks') = score_result rrf_k r chunks in
      let rows = rows_of ulid minted r.sub_query_id scores in
      let (rest, chunks'', minted') = fuse_from ulid rrf_k (minted + length rows) rs chunks' in
      (rows ++ rest, chunks'', minted')

  -- `rrf_fuse(retrieval_results, rrf_k)`, and the number of identifiers minted at the end
  unfoldable pub rrf_fuse :
      (ℕ → String) → ℕ → ℕ → List (RetrievalResult F) → List (Evidence F) × ChunksById F × ℕ
  unfolding fuse_from
  rrf_fuse ulid minted rrf_k results = fuse_from ulid rrf_k minted results []

  abbrev pub indexed : ℕ → List (Evidence F) → List (Row F)
  indexed i [] = []
  indexed i (e ∷ es) = (i, e) ∷ indexed (suc i) es

  -- The order by `-fusion_score`.
  abbrev pub higher_row : Row F → Row F → Bool
  higher_row a b = fl.le b.1.fusion_score a.1.fusion_score

  -- `evidence[i].duplicate_of = …`
  unfoldable pub set_duplicate : ℕ → String → List (Evidence F) → List (Evidence F)
  set_duplicate i d [] = []
  set_duplicate zero d (e ∷ es) = record e { duplicate_of = some d } ∷ es
  set_duplicate (suc i) d (e ∷ es) = e ∷ set_duplicate i d es

  module _ (embed : String → Result (List F)) (threshold : F) where
    -- The inner loop of `dedup`: the first kept row that `chunk` doubles. The code keeps the
    -- embedding of a kept chunk once computed; `embed` is a function, so it is asked again here.
    unfoldable pub find_duplicate :
        RetrievedChunk F → List (Row F × RetrievedChunk F) → Result (Option (Row F))
    find_duplicate chunk [] = ok none
    find_duplicate chunk ((row, kept) ∷ rest) =
        let next = find_duplicate chunk rest in
        if chunk.chunk_id == kept.chunk_id then ok (some row) else do
          kept_embedding ← embed kept.text
          embedding ← embed chunk.text
          s ← cosine embedding kept_embedding
          if less threshold s then ok (some row) else next

    -- The outer loop, over the rows in falling order of score.
    unfoldable pub mark_rows :
        ChunksById F
        → List (Row F × RetrievedChunk F)
        → List (Row F)
        → List (Evidence F)
        → Result (List (Evidence F))
    unfolding find_duplicate set_duplicate
    mark_rows chunks kept [] evidence = ok evidence
    mark_rows chunks kept ((i, e) ∷ rows) evidence = do
      chunk ← chunk_at chunks e.chunk_id
      dup ← find_duplicate chunk kept
      elim dup [
        | none ↦ mark_rows chunks (kept ++ (((i, e), chunk) ∷ [])) rows evidence
        | some d ↦ mark_rows chunks kept rows (set_duplicate i d.1.evidence_id evidence)
      ]

    -- `dedup(evidence, chunks_by_id, threshold, embedder)`
    unfoldable pub dedup : List (Evidence F) → ChunksById F → Result (List (Evidence F))
    unfolding mark_rows
    dedup evidence chunks = mark_rows chunks [] (sort_by higher_row (indexed 0 evidence)) evidence
