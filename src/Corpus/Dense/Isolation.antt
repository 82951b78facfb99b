-- ===== src/Corpus/Dense/Isolation.antt =====
-- What `search_vector` of app/retrieval/dense.py makes of the store's answer.
use streaming_rag.Prelude.{
  ℕ, suc, ◌≡◌, refl, ap, subst, String, Bool, true, false, not, Option, none, some, List, [], ◌∷◌,
  if◌then◌else◌, string_eq, Result, ok, raise, external, >>=-ok,
}
use streaming_rag.Models.{RetrievedChunk}
use streaming_rag.Session.Store.{validate_corpus_id}
use streaming_rag.Corpus.Dense.{
  ScoredPoint, HitFields, Qdrant, is_from, with_point, checked_hits, search_vector,
}

is_from-some :
    (corpus_id : String) (o : Option String) → is_from corpus_id o ≡ true → o ≡ some corpus_id
is_from-some corpus_id none h = cc
is_from-some corpus_id (some c) h = ap some ((string_eq.equal_iff c corpus_id).0 h)

module _ {F : Type 0} where
  -- The hits are the points, in order and numbered from `rank`, and each point is of the corpus.
  abbrev pub IsAnswer : String → ℕ → List (ScoredPoint F) → List (RetrievedChunk F) → Type 0
  IsAnswer corpus_id rank [] [] = Unit
  IsAnswer corpus_id rank (p ∷ ps) (h ∷ hs) =
      (p.corpus_id ≡ some corpus_id)
      × (h.corpus_id ≡ corpus_id)
      × (h.chunk_id ≡ p.id)
      × (h.score ≡ p.score)
      × (h.rank ≡ rank)
      × IsAnswer corpus_id (suc rank) ps hs
  IsAnswer corpus_id rank _ _ = ⊥

  abbrev answer_of : Result (List (RetrievedChunk F)) → List (RetrievedChunk F)
  answer_of (ok hits) = hits
  answer_of (raise e) = []

  checked_hits-IsAnswer :
      (corpus_id : String) (rank : ℕ) (points : List (ScoredPoint F))
      (hits : List (RetrievedChunk F))
      → checked_hits corpus_id rank points ≡ ok hits
      → IsAnswer corpus_id rank points hits
  unfolding checked_hits
  checked_hits-IsAnswer corpus_id rank [] hits h =
      subst (λ r. IsAnswer corpus_id rank [] (answer_of r)) h tt
  checked_hits-IsAnswer corpus_id rank (p ∷ points) hits h =
      by_corpus (is_from corpus_id p.corpus_id) p.fields (checked_hits corpus_id (suc rank) points)
        (is_from-some corpus_id p.corpus_id) (checked_hits-IsAnswer corpus_id (suc rank) points) h
    where
      taken :
          (f : HitFields) (rest : Result (List (RetrievedChunk F)))
          → p.corpus_id ≡ some corpus_id
          → ((hs : List (RetrievedChunk F))
              → rest ≡ ok hs
              → IsAnswer corpus_id (suc rank) points hs)
          → with_point corpus_id rank p (some f) rest ≡ ok hits
          → IsAnswer corpus_id rank (p ∷ points) hits
      taken f (raise e) own ih h = cc h
      taken f (ok hs) own ih h =
          subst (λ r. IsAnswer corpus_id rank (p ∷ points) (answer_of r)) h
            (own, refl, refl, refl, refl, ih hs refl)

      by_corpus :
          (b : Bool) (f : Option HitFields) (rest : Result (List (RetrievedChunk F)))
          → (b ≡ true → p.corpus_id ≡ some corpus_id)
          → ((hs : List (RetrievedChunk F))
              → rest ≡ ok hs
              → IsAnswer corpus_id (suc rank) points hs)
          → (if not b
              then raise (external "CorpusIsolationError")
              else with_point corpus_id rank p f rest)
            ≡ ok hits
          → IsAnswer corpus_id rank (p ∷ points) hits
      by_corpus false f rest own ih h = cc h
      by_corpus true none rest own ih h = cc h
      by_corpus true (some f) rest own ih h = taken f rest (own refl) ih h

  -- A search that comes to hits gives the points that the store answered with, in its order and
  -- numbered from 1, and every one of those points is of the corpus by its own payload: an answer
  -- with a point of another corpus is an exception, not a hit.
  pub search_vector-IsAnswer :
      {Q : Type 0} (client : Qdrant F Q) (corpus_id : String) (vector : List F) (top_k : ℕ) (q : Q)
      (hits : List (RetrievedChunk F))
      → search_vector client corpus_id vector top_k q ≡ ok hits
      → (c : String) × (points : List (ScoredPoint F)) × (validate_corpus_id corpus_id ≡ ok c)
        × (client.query_points c vector top_k q ≡ ok points)
        × IsAnswer c 1 points hits
  unfolding search_vector
  search_vector-IsAnswer client corpus_id vector top_k q hits h =
      let (c, valid, k) = >>=-ok (validate_corpus_id corpus_id) _ h in
      let (points, found, k') = >>=-ok (client.query_points c vector top_k q) _ k in
      (c, points, valid, found, checked_hits-IsAnswer c 1 points hits k')
