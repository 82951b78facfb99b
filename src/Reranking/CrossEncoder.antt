-- ===== src/Reranking/CrossEncoder.antt =====
-- app/reranking/cross_encoder.py: the three stages. The cross-encoder's `score` is a parameter.
pub mod Bounds
pub mod Floor
use streaming_rag.Prelude.{
  ℕ, zero, suc, ◌+◌, ◌-◌, String, Bool, true, false, not, Option, none, some, List, [], ◌∷◌, ◌++◌,
  string_eq, ◌==◌, if◌then◌else◌, or_else, Dict, values, sort_by, Result, ok, raise, value_error,
  ◌>>=◌, leb, ltb, keep, any, take, map, length,
}
use streaming_rag.Float.{Float, zero_float, less}
use streaming_rag.Models.{Evidence}
use streaming_rag.Retrieval.Fusion.{ChunksById, chunk_at}

-- `[e for lst in lists for e in lst]`
abbrev pub concat {ℓ} : {A : Type ℓ} → List (List A) → List A
concat [] = []
concat (l ∷ ls) = l ++ concat ls

module _ {F : Type 0} ⦃fl : Float F⦄ where
  -- `e.rerank_score or 0.0`
  abbrev pub rank_score : Evidence F → F
  rank_score e = or_else e.rerank_score zero_float

  -- The orders by `-e.fusion_score` and by `-(e.rerank_score or 0.0)`.
  abbrev pub higher_fusion : Evidence F → Evidence F → Bool
  higher_fusion a b = fl.le b.fusion_score a.fusion_score

  abbrev pub higher_rank : Evidence F → Evidence F → Bool
  higher_rank a b = fl.le (rank_score b) (rank_score a)

  unfoldable pub pairs_of :
      String → ChunksById F → List (Evidence F) → Result (List (String × String))
  pairs_of text chunks [] = ok []
  pairs_of text chunks (e ∷ es) = do
    chunk ← chunk_at chunks e.chunk_id
    rest ← pairs_of text chunks es
    ok ((text, chunk.text) ∷ rest)

  -- `for e, s in zip(pool, scores, strict=True): e.rerank_score = s`
  unfoldable pub with_scores : List (Evidence F) → List F → Result (List (Evidence F))
  with_scores [] [] = ok []
  with_scores (e ∷ es) (s ∷ ss) = do
    rest ← with_scores es ss
    ok (record e { rerank_score = some s } ∷ rest)
  with_scores _ _ = raise value_error

  abbrev pub relevant : F → Evidence F → Bool
  relevant min_relevance e = fl.le min_relevance (rank_score e)

  -- `[e for e in ranked if (e.rerank_score or 0.0) >= min_relevance][:final_k]`
  unfoldable pub select_ranked : F → ℕ → List (Evidence F) → List (Evidence F)
  select_ranked min_relevance final_k scored =
      take final_k (keep (relevant min_relevance) (sort_by higher_rank scored))

  unfoldable pub rerank_subquery :
      String
      → List (Evidence F)
      → ChunksById F
      → (List (String × String) → Result (List F))
      → F
      → ℕ
      → ℕ
      → Result (List (Evidence F))
  unfolding pairs_of with_scores select_ranked
  rerank_subquery text candidates chunks score min_relevance final_k rerank_candidates =
      elim (take rerank_candidates (sort_by higher_fusion candidates)) [
        | [] ↦ ok []
        | e ∷ es ↦ do
          pairs ← pairs_of text chunks (e ∷ es)
          scores ← score pairs
          scored ← with_scores (e ∷ es) scores
          ok (select_ranked min_relevance final_k scored)
      ]

  -- `max(lst, key=…)`: the first of the highest
  abbrev pub best_from : Evidence F → List (Evidence F) → Evidence F
  best_from e [] = e
  best_from e (x ∷ xs) = best_from (if less (rank_score e) (rank_score x) then x else e) xs

  -- The best row of each sub-query that has one.
  abbrev pub floor_of : List (List (Evidence F)) → List (Evidence F)
  floor_of [] = []
  floor_of ([] ∷ ls) = floor_of ls
  floor_of ((e ∷ es) ∷ ls) = best_from e es ∷ floor_of ls

  abbrev pub in_floor : List (Evidence F) → Evidence F → Bool
  in_floor floor e = any (λ f. f.evidence_id == e.evidence_id) floor

  -- `cap_global_evidence(per_subquery_kept, max_total)`
  unfoldable pub cap_global_evidence : Dict String (List (Evidence F)) → ℕ → List (Evidence F)
  cap_global_evidence per_subquery_kept max_total =
      let all_kept = concat (values per_subquery_kept) in
      let floor = sort_by higher_rank (floor_of (values per_subquery_kept)) in
      let rest =
        take (max_total - length floor)
          (sort_by higher_rank (keep (λ e. not (in_floor floor e)) all_kept)) in
      if leb (length all_kept) max_total
      then sort_by higher_rank all_kept
      else if leb max_total (length floor)
      then take max_total floor
      else sort_by higher_rank (floor ++ rest)

  -- The loop of `truncate_to_token_budget`, with the tokens kept so far.
  unfoldable pub truncate_from :
      ℕ → List (Evidence F) → ChunksById F → ℕ → Result (List (Evidence F))
  truncate_from total [] chunks budget = ok []
  truncate_from total (e ∷ es) chunks budget = do
    chunk ← chunk_at chunks e.chunk_id
    let rest = truncate_from (total + chunk.token_count) es chunks budget
    if ltb budget (total + chunk.token_count) then ok [] else do kept ← rest; ok (e ∷ kept)

  unfoldable pub truncate_to_token_budget :
      List (Evidence F) → ChunksById F → ℕ → Result (List (Evidence F))
  unfolding truncate_from
  truncate_to_token_budget evidence chunks budget = truncate_from 0 evidence chunks budget
