-- ===== src/Retrieval/Fusion/Dedup.antt =====
-- Which rows `dedup` of app/retrieval/fusion.py keeps, and what it marks the others with.
use streaming_rag.Prelude.{
  ◌≡◌, String, true, ◌⊎◌, some, List, ◌++◌, All, get_elem?, Result, ok, raise, string_eq,
}
use streaming_rag.Float.{Float}
use streaming_rag.Models.{Evidence, RetrievedChunk}
use streaming_rag.Retrieval.Fusion.{ChunksById, chunk_at, Row}
use streaming_rag.Retrieval.Fusion.Doubles.{IsIn, doubles, Apart}
use streaming_rag.Retrieval.Fusion.Order.{Before, InTurn, IsAt}

module _ {A : Type 0} where
  abbrev value_or : A → Result A → A
  value_or a (ok b) = b
  value_or a (raise exc) = a

module _ {F : Type 0} ⦃fl : Float F⦄ (embed : String → Result (List F)) (threshold : F) where
  -- What became of a row in `out`: it is one of the kept ones, or it is marked with a kept row of no
  -- lower score, whose chunk its own doubles.
  abbrev pub Decided :
      ChunksById F → List (Row F × RetrievedChunk F) → List (Evidence F) → Row F → Type 0
  Decided chunks kept out (i, e) =
      (chunk : RetrievedChunk F) × (chunk_at chunks e.chunk_id ≡ ok chunk)
      × (IsIn ((i, e), chunk) kept
          ⊎ ((k : Row F × RetrievedChunk F) × IsIn k kept
              × (doubles embed threshold chunk k.1 ≡ ok true)
              × (fl.le e.fusion_score k.0.1.fusion_score ≡ true)
              × (get_elem? out i ≡ some (record e { duplicate_of = some k.0.1.evidence_id }))))

  -- A kept row is in `out` as it was.
  abbrev pub IsKept : List (Evidence F) → Row F × RetrievedChunk F → Type 0
  IsKept out k = get_elem? out k.0.0 ≡ some k.0.1

  -- What the loop has done so far: the kept rows are apart, they are in `evidence` as they were, and
  -- they come before the rows that are left, which are in `evidence` as they were too.
  abbrev IsGoing : List (Row F × RetrievedChunk F) → List (Row F) → List (Evidence F) → Type 0
  IsGoing kept rows evidence =
      Apart embed threshold kept
      × All (IsKept evidence) kept
      × All (λ k. All (Before k.0) rows) kept
      × InTurn rows
      × All (IsAt evidence) rows

  -- What the loop leads to, from the rows kept before on.
  abbrev Ends :
      ChunksById F → List (Row F × RetrievedChunk F) → List (Row F) → List (Evidence F) → Type 0
  Ends chunks kept rows out =
      (more : List (Row F × RetrievedChunk F)) × Apart embed threshold (kept ++ more)
      × All (IsKept out) (kept ++ more)
      × All (Decided chunks (kept ++ more) out) rows
