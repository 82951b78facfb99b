-- ===== src/Corpus/Chunking/Positions.antt =====
-- The chunks of a document (`chunk_document` of scripts/ingest_corpus.py) stand in their places.
use streaming_rag.Prelude.{
  ℕ, suc, ◌+◌, ◌≡◌, refl, subst, String, List, [], ◌∷◌, ◌++◌, arith, Bool-cases, inl, inr, length,
}
use streaming_rag.Text.{Unicode}
use streaming_rag.Grounding.Tags.{tokenize}
use streaming_rag.Grounding.CitationValidator.{is_nil}
use streaming_rag.Corpus.Sections.{Section, count_tokens}
use streaming_rag.Corpus.Chunking.{
  Chunk, Hashes, make_chunk_id, chunk_pieces, chunk_sections, chunk_document, section_pieces,
  budget_of, overlap_of,
}

module _ ⦃u : Unicode⦄ (hashes : Hashes) (corpus_id doc_id : String) where
  -- Chunks numbered from `n` on, each of the document, with the identifier of its place and text
  -- and its token count.
  abbrev pub IsPlacedFrom : ℕ → List Chunk → Type 0
  IsPlacedFrom n [] = Unit
  IsPlacedFrom n (c ∷ cs) =
      (c.chunk_index ≡ n)
      × (c.doc_id ≡ doc_id)
      × (c.chunk_id ≡ make_chunk_id hashes corpus_id doc_id c.section n c.text)
      × (c.token_count ≡ count_tokens c.text)
      × IsPlacedFrom (suc n) cs

  IsPlacedFrom-append :
      (n m : ℕ) (xs ys : List Chunk)
      → m ≡ n + length xs
      → IsPlacedFrom n xs
      → IsPlacedFrom m ys
      → IsPlacedFrom n (xs ++ ys)
  IsPlacedFrom-append n m [] ys e h k = subst (λ i. IsPlacedFrom i ys) (omega (arith, e)) k
  IsPlacedFrom-append n m (x ∷ xs) ys e (a, b, c, d, h) k =
      (a, b, c, d, IsPlacedFrom-append (suc n) m xs ys (omega (arith, e)) h k)

  chunk_pieces-IsPlacedFrom :
      (s : Section) (index : ℕ) (pieces : List String)
      → IsPlacedFrom index (chunk_pieces hashes corpus_id doc_id s index pieces)
  unfolding chunk_pieces
  chunk_pieces-IsPlacedFrom s index [] = tt
  chunk_pieces-IsPlacedFrom s index (p ∷ ps) = elim (Bool-cases (is_nil (tokenize p))) [
    | inl e ↦ rw e (chunk_pieces-IsPlacedFrom s index ps)
    | inr e ↦ rw e (refl, refl, refl, refl, chunk_pieces-IsPlacedFrom s (suc index) ps)
  ]

  abbrev pieces_of : ℕ → ℕ → Section → List String
  pieces_of max_tokens overlap_tokens s =
      section_pieces s.body (budget_of hashes corpus_id doc_id max_tokens s) (
        overlap_of hashes corpus_id doc_id overlap_tokens
          (budget_of hashes corpus_id doc_id max_tokens s))

  chunk_sections-IsPlacedFrom :
      (ss : List Section) (max_tokens overlap_tokens index : ℕ)
      → IsPlacedFrom index
          (chunk_sections hashes corpus_id doc_id max_tokens overlap_tokens index ss)
  unfolding chunk_sections
  chunk_sections-IsPlacedFrom [] max_tokens overlap_tokens index = tt
  chunk_sections-IsPlacedFrom (s ∷ ss) max_tokens overlap_tokens index =
      IsPlacedFrom-append index
        (index
          + length (
              chunk_pieces hashes corpus_id doc_id s index (pieces_of max_tokens overlap_tokens s)))
        (chunk_pieces hashes corpus_id doc_id s index (pieces_of max_tokens overlap_tokens s))
        (chunk_sections hashes corpus_id doc_id max_tokens overlap_tokens
          (index
            + length (
                chunk_pieces hashes corpus_id doc_id s index
                  (pieces_of max_tokens overlap_tokens s)))
          ss)
        refl (chunk_pieces-IsPlacedFrom s index (pieces_of max_tokens overlap_tokens s))
        (chunk_sections-IsPlacedFrom ss max_tokens overlap_tokens (
          index
          + length (
              chunk_pieces hashes corpus_id doc_id s index
                (pieces_of max_tokens overlap_tokens s))))

  -- The chunks of a document are numbered 0, 1, 2, … in order, whichever pieces are left out, and
  -- each has the document's id, its token count, and the identifier of its place and text.
  pub chunk_document-IsPlacedFrom :
      (max_tokens overlap_tokens : ℕ) (sections : List Section)
      → IsPlacedFrom 0 (chunk_document hashes corpus_id doc_id max_tokens overlap_tokens sections)
  unfolding chunk_document
  chunk_document-IsPlacedFrom max_tokens overlap_tokens sections =
      chunk_sections-IsPlacedFrom sections max_tokens overlap_tokens 0
