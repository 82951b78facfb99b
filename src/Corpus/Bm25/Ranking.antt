-- ===== src/Corpus/Bm25/Ranking.antt =====
-- `BM25Index.search` of app/retrieval/sparse_bm25.py against a search without an early exit.
use streaming_rag.Prelude.{
  get_elem?-some, keep-nothing, take-nil, ℕ, zero, suc, ◌-◌, ◌≤◌, ◌<◌, ◌≡◌, refl, subst, ap, sym,
  ◌∙◌, String, Bool, true, false, not, ◌||◌, Option, none, some, or_else, List, [], ◌∷◌, length,
  take, keep, get_elem?, All, All-map, IsSortedBy, arith, Bool-cases, inl, inr, if◌then◌else◌, leb,
  leb→le, ok,
}
use streaming_rag.Float.{Float, zero_float}
use streaming_rag.Models.{RetrievedChunk}
use streaming_rag.Text.{Unicode}
use streaming_rag.Grounding.Tags.{tokenize}
use streaming_rag.Grounding.CitationValidator.{is_nil}
use streaming_rag.Corpus.Bm25.{Bm25Index, Okapi, IndexRecord, hit_of, hits_from, search}

module _ {F : Type 0} ⦃fl : Float F⦄ where
  abbrev pub score_at : List F → ℕ → F
  score_at scores i = or_else (get_elem? scores i) zero_float

  abbrev pub is_positive : List F → ℕ → Bool
  is_positive scores i = not (fl.le (score_at scores i) zero_float)

  -- The first of two indexes scores at least as much.
  abbrev pub is_above : List F → ℕ → ℕ → Bool
  is_above scores i j = fl.le (score_at scores j) (score_at scores i)

  abbrev pub ranked : {B : Type 0} → Bm25Index B → List F → ℕ → List ℕ → List (RetrievedChunk F)
  ranked index scores rank [] = []
  ranked index scores rank (i ∷ order) =
      placed (get_elem? index.records i) (score_at scores i) (ranked index scores rank order)
        (ranked index scores (suc rank) order)
    where
      placed :
          Option IndexRecord
          → F
          → List (RetrievedChunk F)
          → List (RetrievedChunk F)
          → List (RetrievedChunk F)
      placed none score skipped rest = skipped
      placed (some r) score skipped rest = hit_of index.corpus_id score (suc rank) r ∷ rest

  hits_from-ranked :
      {B : Type 0} (index : Bm25Index B) (scores : List F) (top_k found : ℕ) (order : List ℕ)
      → length scores ≤ length index.records
      → All (λ i. i < length scores) order
      → IsSortedBy (is_above scores) order
      → hits_from index scores top_k found order
        ≡ ok (ranked index scores found (take (top_k - found) (keep (is_positive scores) order)))
  unfolding hits_from
  hits_from-ranked index scores top_k found [] fits inside sorted =
      ap (λ l. ok (ranked index scores found l)) (sym (take-nil (top_k - found)))
  hits_from-ranked index scores top_k found (i ∷ order) fits inside sorted =
      let (score, e) = get_elem?-some scores i inside.0 in
      let (r, e') = get_elem?-some index.records i (omega (arith, fits, inside.0)) in
      let rest = hits_from-ranked index scores top_k (suc found) order fits inside.1 sorted.1 in
      elim (Bool-cases (fl.le score zero_float)) [
        | inl low ↦
            rw (e, low)
              (ap (λ l. ok (ranked index scores found l))
                (sym (ap (take (top_k - found)) (below score e low) ∙ take-nil (top_k - found))))
        | inr high ↦ elim (Bool-cases (leb top_k found)) [
          | inl full ↦ rw (e, high, full, spent (leb→le _ _ full)) refl
          | inr room ↦
              rw (e, high, room, e', rest, one_more (ground (arith, room))) (rw (e', e) refl)
        ]
      ]
    where
      spent : top_k ≤ found → top_k - found ≡ 0
      spent h = omega (arith, h)

      one_more : found < top_k → top_k - found ≡ suc (top_k - suc found)
      one_more h = omega (arith, h)

      below :
          (score : F)
          → get_elem? scores i ≡ some score
          → fl.le score zero_float ≡ true
          → keep (is_positive scores) order ≡ []
      below score e low =
          keep-nothing (is_positive scores) order
            (All-map order (λ j h. ap not (fl.le_trans _ _ _ h (rw e low))) sorted.0)

-- A search is the positive ones of all scores, from the highest score on, cut to `top_k` and
-- numbered from 1, for an `argsort` that sorts the indexes by descending score and an index with a
-- record for each score: breaking off at the first score that is not positive loses none.
pub search_lem :
    {F B : Type 0} ⦃u : Unicode⦄ ⦃fl : Float F⦄ (okapi : Okapi F B)
    → ((scores : List F)
        → All (λ i. i < length scores) (okapi.argsort scores)
          × IsSortedBy (is_above scores) (okapi.argsort scores))
    → (index : Bm25Index B)
    → ((tokens : List String)
        → length (okapi.get_scores index.bm25 tokens) ≡ okapi.corpus_size index.bm25)
    → okapi.corpus_size index.bm25 ≡ length index.records
    → (query : String) (top_k : ℕ)
    → search okapi index query top_k ≡ (
        let scores = okapi.get_scores index.bm25 (tokenize query) in
        if is_nil (tokenize query)
        then ok []
        else ok
            (ranked index scores 0 (take top_k (keep (is_positive scores) (okapi.argsort scores)))))
unfolding search
search_lem okapi sorts index sized fits query top_k =
    by_tokens (is_nil (tokenize query)) top_k (okapi.get_scores index.bm25 (tokenize query))
      (omega (arith, sized (tokenize query), fits))
  where
    more : (k : ℕ) → leb (suc k) 0 ≡ false
    more k = ground arith

    whole : (k : ℕ) → suc k - 0 ≡ suc k
    whole k = omega arith

    by_tokens :
        (b : Bool) (top_k : ℕ) (scores : List _)
        → length scores ≤ length index.records
        → (if b || leb top_k 0
            then ok []
            else hits_from index scores top_k 0 (okapi.argsort scores))
          ≡ (if b
              then ok []
              else ok (
                  ranked index scores 0
                    (take top_k (keep (is_positive scores) (okapi.argsort scores)))))
    by_tokens true top_k scores h = refl
    by_tokens false zero scores h = refl
    by_tokens false (suc k) scores h = rw (more k) (
        subst
          (λ n.
            hits_from index scores (suc k) 0 (okapi.argsort scores)
            ≡ ok
                (ranked index scores 0 (take n (keep (is_positive scores) (okapi.argsort scores)))))
          (whole k)
          (hits_from-ranked index scores (suc k) 0 (okapi.argsort scores) h (sorts scores).0
            (sorts scores).1))
