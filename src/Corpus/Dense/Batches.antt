-- ===== src/Corpus/Dense/Batches.antt =====
-- The batches in which app/retrieval/dense.py sends the points of a corpus to the store.
use streaming_rag.Prelude.{
  take-append-drop, length-take, length-append, length-drop-le, ℕ, zero, suc, ◌+◌, ◌≤◌, ◌≡◌, refl,
  ap, sym, ◌∙◌, String, ◌⊎◌, inl, inr, List, [], ◌∷◌, ◌++◌, length, take, drop, All, nat_eq, arith,
  ok,
}
use streaming_rag.Session.Store.{validate_corpus_id}
use streaming_rag.Corpus.Chunking.{Chunk}
use streaming_rag.Corpus.Dense.{
  Point, Qdrant, embedding_dim, point_of, batches_of, points_of, for_each, send, upsert_chunks,
}

module _ {A : Type 0} where
  abbrev pub concat : List (List A) → List A
  concat [] = []
  concat (b ∷ bs) = b ++ concat bs

  -- Batches of `n`, of which only the last may be smaller, and none is empty.
  abbrev pub IsBatched : ℕ → List (List A) → Type 0
  IsBatched n [] = Unit
  IsBatched n (b ∷ bs) =
      (1 ≤ length b) × (length b ≤ n) × ((bs ≡ []) ⊎ (length b ≡ n)) × IsBatched n bs

  concat-batches_of :
      (n fuel : ℕ) (xs : List A) → length xs ≤ fuel → concat (batches_of (suc n) fuel xs) ≡ xs
  unfolding batches_of
  concat-batches_of n zero [] h = refl
  concat-batches_of n zero (x ∷ xs) h = absurd (omega (arith, h))
  concat-batches_of n (suc fuel) [] h = refl
  concat-batches_of n (suc fuel) (x ∷ xs) h =
      ap (λ l. x ∷ (take n xs ++ l))
        (concat-batches_of n fuel (drop n xs) (omega (arith, h, length-drop-le n xs)))
      ∙ ap (◌∷◌ x) (take-append-drop n xs)

  batches_of-IsBatched : (n fuel : ℕ) (xs : List A) → IsBatched (suc n) (batches_of (suc n) fuel xs)
  unfolding batches_of
  batches_of-IsBatched n zero xs = tt
  batches_of-IsBatched n (suc fuel) [] = tt
  batches_of-IsBatched n (suc fuel) (x ∷ xs) = (
    omega arith,
    omega (arith, length-take n xs),
    last_or_full (drop n xs)
        (sym (length-append (take n xs) (drop n xs)) ∙ ap length (take-append-drop n xs)),
    batches_of-IsBatched n fuel (drop n xs),
  )
    where
      no_more : (m : ℕ) → batches_of {A = A} (suc n) m [] ≡ []
      no_more zero = refl
      no_more (suc m) = refl

      last_or_full :
          (rest : List A)
          → length (take n xs) + length rest ≡ length xs
          → (batches_of (suc n) fuel rest ≡ []) ⊎ (length (x ∷ take n xs) ≡ suc n)
      last_or_full [] e = inl (no_more fuel)
      last_or_full (r ∷ rest) e = inr (omega (arith, e, length-take n xs))

module _ {F : Type 0} where
  -- A point for each chunk and vector, in their order, under the chunk's id and the corpus's.
  abbrev pub IsPoints : String → List Chunk → List (List F) → List (Point F) → Type 0
  IsPoints corpus_id [] [] [] = Unit
  IsPoints corpus_id (c ∷ chunks) (v ∷ vectors) (p ∷ points) =
      (p.id ≡ c.chunk_id)
      × (p.vector ≡ v)
      × (p.corpus_id ≡ corpus_id)
      × (p.text ≡ c.text)
      × IsPoints corpus_id chunks vectors points
  IsPoints corpus_id _ _ _ = ⊥

  points_of-IsPoints :
      (corpus_id : String) (chunks : List Chunk) (vectors : List (List F))
      → length chunks ≡ length vectors
      → All (λ v. length v ≡ embedding_dim) vectors
      → (points : List (Point F)) × (points_of corpus_id chunks vectors ≡ ok points)
        × IsPoints corpus_id chunks vectors points
  unfolding points_of
  points_of-IsPoints corpus_id [] [] e h = ([], refl, tt)
  points_of-IsPoints corpus_id [] (v ∷ vectors) e h = absurd (omega (arith, e))
  points_of-IsPoints corpus_id (c ∷ chunks) [] e h = absurd (omega (arith, e))
  points_of-IsPoints corpus_id (c ∷ chunks) (v ∷ vectors) e h =
      let (points, made, rest) =
        points_of-IsPoints corpus_id chunks vectors (omega (arith, e)) h.1 in
      (
        point_of corpus_id c v ∷ points,
        rw ((nat_eq.equal_iff (length v) embedding_dim).1 h.0, made) refl,
        (refl, refl, refl, refl, rest),
      )

module _ {F Q : Type 0} (client : Qdrant F Q) where
  -- What `upsert_chunks` does with as many vectors of 384 dimensions as chunks, under a valid corpus
  -- id: it makes a point for each chunk and its vector, and sends all of them in their order, in
  -- batches of 128 of which only the last may be smaller, up to the first call that raises. No call
  -- sends an empty batch.
  pub upsert_chunks_lem :
      (corpus_id : String) (chunks : List Chunk) (vectors : List (List F)) (q : Q)
      → validate_corpus_id corpus_id ≡ ok corpus_id
      → length chunks ≡ length vectors
      → All (λ v. length v ≡ 384) vectors
      → (points : List (Point F)) × (batches : List (List (Point F))) × IsPoints corpus_id chunks
          vectors points
        × (concat batches ≡ points)
        × IsBatched 128 batches
        × (upsert_chunks client corpus_id chunks vectors q
            ≡ for_each client client.upsert batches q)
  unfolding upsert_chunks send
  upsert_chunks_lem corpus_id chunks vectors q valid e h =
      let (points, made, are) = points_of-IsPoints corpus_id chunks vectors e h in
      (
        points,
        batches_of 128 (length points) points,
        are,
        concat-batches_of 127 (length points) points (omega arith),
        batches_of-IsBatched 127 (length points) points,
        rw (valid, (nat_eq.equal_iff (length chunks) (length vectors)).1 e, made) refl,
      )
