-- ===== src/Reranking/CrossEncoder/Bounds.antt =====
-- What the three stages of app/reranking/cross_encoder.py let through, in number and in tokens.
use streaming_rag.Prelude.{
  ℕ, zero, suc, ◌+◌, ◌-◌, ◌≤◌, ◌<◌, ◌≡◌, refl, ap, subst, String, Bool, true, Option, none, some,
  List, [], ◌∷◌, ◌++◌, arith, Bool-cases, inl, inr, Result, ok, raise, ◌>>=◌, >>=-ok, string_eq,
  lookup, length, take, keep, All, All-keep, All-take, All-keep_test, length-take, length-sort_by,
  sort_by, IsSortedBy, sort_by-IsSortedBy, ltb, leb, leb→le, if◌then◌else◌, Dict, values,
  length-append, not, key_error, tests, ltb→lt,
}
use streaming_rag.Float.{Float}
use streaming_rag.Models.{Evidence, RetrievedChunk}
use streaming_rag.Retrieval.Fusion.{ChunksById}
use streaming_rag.Reranking.CrossEncoder.{
  higher_rank, higher_fusion, relevant, pairs_of, with_scores, select_ranked, rerank_subquery,
  cap_global_evidence, concat, floor_of, in_floor, truncate_from, truncate_to_token_budget,
}

module _ {ℓ} {A : Type ℓ} (before : A → A → Bool) where
  keep-IsSortedBy :
      (p : A → Bool) (xs : List A) → IsSortedBy before xs → IsSortedBy before (keep p xs)
  keep-IsSortedBy p [] h = tt
  keep-IsSortedBy p (x ∷ xs) h = elim (Bool-cases (p x)) [
    | inl e ↦ rw e (All-keep _ p xs h.0, keep-IsSortedBy p xs h.1)
    | inr e ↦ rw e (keep-IsSortedBy p xs h.1)
  ]

  take-IsSortedBy : (n : ℕ) (xs : List A) → IsSortedBy before xs → IsSortedBy before (take n xs)
  take-IsSortedBy zero xs h = tt
  take-IsSortedBy (suc n) [] h = tt
  take-IsSortedBy (suc n) (x ∷ xs) h = (All-take _ n xs h.0, take-IsSortedBy n xs h.1)

ok_rows : {A : Type 0} → A → Result A → A
ok_rows a (ok b) = b
ok_rows a (raise e) = a

module _ {F : Type 0} ⦃fl : Float F⦄ where
  higher_rank-sorts : (xs : List (Evidence F)) → IsSortedBy higher_rank (sort_by higher_rank xs)
  higher_rank-sorts =
      sort_by-IsSortedBy higher_rank (λ x y. fl.le_total _ _) (λ x y z h k. fl.le_trans _ _ _ k h)

  -- At most `final_k` rows, each as relevant as is asked for, the best first.
  abbrev pub Selected : F → ℕ → List (Evidence F) → Type 0
  Selected min_relevance final_k rows =
      (length rows ≤ final_k)
      × All (λ e. relevant min_relevance e ≡ true) rows
      × IsSortedBy higher_rank rows

  select_ranked-Selected :
      (min_relevance : F) (final_k : ℕ) (scored : List (Evidence F))
      → Selected min_relevance final_k (select_ranked min_relevance final_k scored)
  unfolding select_ranked
  select_ranked-Selected min_relevance final_k scored = (
    omega (arith, length-take final_k (keep (relevant min_relevance) (sort_by higher_rank scored))),
    All-take _ final_k _ (All-keep_test _ _ (sort_by higher_rank scored) (λ _ h. h)),
    take-IsSortedBy higher_rank final_k _
        (keep-IsSortedBy higher_rank _ _ (higher_rank-sorts scored)),
  )

  -- What `rerank_subquery` returns is at most `final_k` rows, each with a rerank score of at least
  -- `min_relevance`, in falling order of that score.
  pub rerank_subquery-Selected :
      (text : String) (candidates : List (Evidence F)) (chunks : ChunksById F)
      (score : List (String × String) → Result (List F)) (min_relevance : F)
      (final_k rerank_candidates : ℕ) (rows : List (Evidence F))
      → rerank_subquery text candidates chunks score min_relevance final_k rerank_candidates
        ≡ ok rows
      → Selected min_relevance final_k rows
  unfolding rerank_subquery ok_rows
  rerank_subquery-Selected text candidates chunks score min_relevance final_k n rows h =
      go (take n (sort_by higher_fusion candidates)) h
    where
      go :
          (pool : List (Evidence F))
          → (elim pool [
            | [] ↦ ok []
            | e ∷ es ↦ do
              pairs ← pairs_of text chunks (e ∷ es)
              scores ← score pairs
              scored ← with_scores (e ∷ es) scores
              ok (select_ranked min_relevance final_k scored)
          ])
            ≡ ok rows
          → Selected min_relevance final_k rows
      go [] k = subst (Selected min_relevance final_k) (ap (ok_rows []) k) (omega arith, tt, tt)
      go (e ∷ es) k =
          let (pairs, _, k1) = >>=-ok (pairs_of text chunks (e ∷ es)) _ k in
          let (scores, _, k2) = >>=-ok (score pairs) _ k1 in
          let (scored, _, k3) = >>=-ok (with_scores (e ∷ es) scores) _ k2 in
          subst (Selected min_relevance final_k) (ap (ok_rows []) k3)
            (select_ranked-Selected min_relevance final_k scored)

  -- `cap_global_evidence` keeps `max_total` rows at most, the best first.
  pub cap_global_evidence-bounded :
      (per_subquery_kept : Dict String (List (Evidence F))) (max_total : ℕ)
      → (length (cap_global_evidence per_subquery_kept max_total) ≤ max_total)
        × IsSortedBy higher_rank (cap_global_evidence per_subquery_kept max_total)
  unfolding cap_global_evidence
  cap_global_evidence-bounded d max_total =
      let all_kept = concat (values d) in
      let floor = sort_by higher_rank (floor_of (values d)) in
      let candidates = sort_by higher_rank (keep (λ e. not (in_floor floor e)) all_kept) in
      let rest = take (max_total - length floor) candidates in
      elim (Bool-cases (leb (length all_kept) max_total)) [
        | inl e ↦ rw e (
          omega (arith, leb→le _ _ e, length-sort_by higher_rank all_kept),
          higher_rank-sorts all_kept,
        )
        | inr e ↦ elim (Bool-cases (leb max_total (length floor))) [
          | inl e' ↦
              rw (e, e')
                (
                  omega (arith, length-take max_total floor),
                  take-IsSortedBy higher_rank max_total floor
                      (higher_rank-sorts (floor_of (values d))),
                )
          | inr e' ↦
              rw (e, e')
                (
                  grind (
                    arith,
                    length-sort_by higher_rank (floor ++ rest),
                    length-append floor rest,
                    length-take (max_total - length floor) candidates,
                  ),
                  higher_rank-sorts (floor ++ rest),
                )
        ]
      ]

module _ {F : Type 0} where
  abbrev pub tokens_at : Option (RetrievedChunk F) → ℕ
  tokens_at none = 0
  tokens_at (some c) = c.token_count

  -- The tokens of the rows' chunks.
  abbrev pub tokens_of : ChunksById F → List (Evidence F) → ℕ
  tokens_of chunks [] = 0
  tokens_of chunks (e ∷ es) = tokens_at (lookup e.chunk_id chunks) + tokens_of chunks es

  -- With `total` tokens before them, the rows `kept` and the next one are over the budget.
  abbrev pub NextIsOver : ChunksById F → ℕ → ℕ → List (Evidence F) → List (Evidence F) → Type 0
  NextIsOver chunks budget total kept [] = Unit
  NextIsOver chunks budget total kept (e ∷ es) =
      budget < total + (tokens_of chunks kept + tokens_at (lookup e.chunk_id chunks))

  -- The rows kept are the first ones, they fit the budget, and the next one would not.
  abbrev pub Fits : ChunksById F → ℕ → ℕ → List (Evidence F) → Result (List (Evidence F)) → Type 0
  Fits chunks budget total evidence (raise x) = Unit
  Fits chunks budget total evidence (ok kept) =
      (rest : List (Evidence F)) × (evidence ≡ kept ++ rest)
      × (total + tokens_of chunks kept ≤ budget)
      × NextIsOver chunks budget total kept rest

module _ {F : Type 0} ⦃fl : Float F⦄ where
  truncate_from-Fits :
      (total : ℕ) (evidence : List (Evidence F)) (chunks : ChunksById F) (budget : ℕ)
      → total ≤ budget
      → Fits chunks budget total evidence (truncate_from total evidence chunks budget)
  unfolding truncate_from
  truncate_from-Fits total [] chunks budget l = ([], refl, omega arith, tt)
  truncate_from-Fits total (e ∷ es) chunks budget l =
      step (lookup e.chunk_id chunks) refl (λ n k. truncate_from-Fits n es chunks budget k)
    where
      more :
          (c : RetrievedChunk F) (r : Result (List (Evidence F)))
          → lookup e.chunk_id chunks ≡ some c
          → Fits chunks budget (total + c.token_count) es r
          → Fits chunks budget total (e ∷ es) (r >>= λ kept. ok (e ∷ kept))
      more c (raise x) q h = tt
      more c (ok kept) q (rest, p, b, over) =
          (rest, ap (◌∷◌ e) p, grind (arith, ap tokens_at q), next rest over)
        where
          next :
              (rest : List (Evidence F))
              → NextIsOver chunks budget (total + c.token_count) kept rest
              → NextIsOver chunks budget total (e ∷ kept) rest
          next [] o = tt
          next (x ∷ xs) o = grind (arith, ap tokens_at q)

      step :
          (o : Option (RetrievedChunk F))
          → lookup e.chunk_id chunks ≡ o
          → ((n : ℕ) → n ≤ budget → Fits chunks budget n es (truncate_from n es chunks budget))
          → Fits chunks budget total (e ∷ es) (
              (elim o [ none ↦ raise key_error | some c ↦ ok c ]) >>= λ chunk.
              if ltb budget (total + chunk.token_count)
              then ok []
              else (truncate_from (total + chunk.token_count) es chunks budget >>= λ kept.
                  ok (e ∷ kept)))
      step none q h = tt
      step (some c) q h = elim (Bool-cases (ltb budget (total + c.token_count))) [
        | inl k ↦ rw k (e ∷ es, refl, omega arith, grind (tests, ltb→lt _ _ k, ap tokens_at q))
        | inr k ↦ rw k (more c _ q (h _ (ground arith)))
      ]

  -- What `truncate_to_token_budget` returns is the longest start of the evidence whose chunks have
  -- at most `budget` tokens: it fits, and with the next row it would not.
  pub truncate_to_token_budget-Fits :
      (evidence : List (Evidence F)) (chunks : ChunksById F) (budget : ℕ)
      → Fits chunks budget 0 evidence (truncate_to_token_budget evidence chunks budget)
  unfolding truncate_to_token_budget
  truncate_to_token_budget-Fits evidence chunks budget =
      truncate_from-Fits 0 evidence chunks budget (omega arith)
