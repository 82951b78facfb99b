-- ===== src/Reranking/CrossEncoder/Floor.antt =====
-- The floor of `cap_global_evidence`: a sub-query with rows keeps its best one.
use mathlib.Core.List.{Mem, mem-cons_self, mem-cons_of_mem, mem-append_left, mem-append_right}
use mathlib.Core.List.Perm
use streaming_rag.Prelude.{
  ℕ, ◌≤◌, ◌≡◌, refl, sym, subst, Bool, true, false, List, [], ◌∷◌, ◌++◌, arith, Bool-cases, inl,
  inr, string_eq, length, take_of_length-le, length-sort_by, All, sort_by, sort_by-perm, leb,
  if◌then◌else◌, Dict, values, String,
}
use streaming_rag.Float.{Float, less}
use streaming_rag.Models.{Evidence}
use streaming_rag.Reranking.CrossEncoder.{
  higher_rank, rank_score, best_from, cap_global_evidence, concat, floor_of,
}

module _ {F : Type 0} ⦃fl : Float F⦄ where
  best_from-Mem : (es : List (Evidence F)) (e : Evidence F) → Mem (best_from e es) (e ∷ es)
  best_from-Mem [] e = mem-cons_self
  best_from-Mem (x ∷ xs) e = step (less (rank_score e) (rank_score x)) (best_from-Mem xs)
    where
      step :
          (b : Bool)
          → ((y : Evidence F) → Mem (best_from y xs) (y ∷ xs))
          → Mem (best_from (if b then x else e) xs) (e ∷ x ∷ xs)
      step true h = mem-cons_of_mem e (h x)
      step false h = (Perm.mem_iff (Perm.swap x e xs)).1 (mem-cons_of_mem x (h e))

  -- The best row has a rerank score no lower than any.
  best_from-higher_rank :
      (es : List (Evidence F)) (e : Evidence F)
      → All (λ x. higher_rank (best_from e es) x ≡ true) (e ∷ es)
  best_from-higher_rank [] e = (best_le (rank_score e), tt)
    where
      best_le : (a : F) → fl.le a a ≡ true
      best_le a = ground (arith, fl.le_total a a)
  best_from-higher_rank (x ∷ xs) e =
      step (less (rank_score e) (rank_score x)) refl (best_from-higher_rank xs)
    where
      step :
          (b : Bool)
          → less (rank_score e) (rank_score x) ≡ b
          → ((y : Evidence F) → All (λ z. higher_rank (best_from y xs) z ≡ true) (y ∷ xs))
          → All (λ z. higher_rank (best_from (if b then x else e) xs) z ≡ true) (e ∷ x ∷ xs)
      step true k h =
          let (hx, hs) = h x in
          (
            fl.le_trans (rank_score e) (rank_score x) _
                (ground (arith, fl.le_total (rank_score e) (rank_score x))) hx,
            (hx, hs),
          )
      step false k h =
          let (he, hs) = h e in
          (he, (fl.le_trans (rank_score x) (rank_score e) _ (ground arith) he, hs))

  floor_of-Mem :
      (front back : List (List (Evidence F))) (e : Evidence F) (es : List (Evidence F))
      → Mem (best_from e es) (floor_of (front ++ ((e ∷ es) ∷ back)))
  floor_of-Mem [] back e es = mem-cons_self
  floor_of-Mem ([] ∷ front) back e es = floor_of-Mem front back e es
  floor_of-Mem ((x ∷ xs) ∷ front) back e es = mem-cons_of_mem _ (floor_of-Mem front back e es)

  concat-Mem :
      (front back : List (List (Evidence F))) (e : Evidence F) (es : List (Evidence F))
      → Mem (best_from e es) (concat (front ++ ((e ∷ es) ∷ back)))
  concat-Mem [] back e es = mem-append_left (concat back) (best_from-Mem es e)
  concat-Mem (l ∷ front) back e es = mem-append_right l (concat-Mem front back e es)

  sort_by-Mem :
      (a : Evidence F) (xs : List (Evidence F)) → Mem a xs → Mem a (sort_by higher_rank xs)
  sort_by-Mem a xs h = (Perm.mem_iff (sort_by-perm higher_rank xs)).1 h

  cap-Mem :
      (d : Dict String (List (Evidence F))) (max_total : ℕ) (a : Evidence F)
      → length (floor_of (values d)) ≤ max_total
      → Mem a (concat (values d))
      → Mem a (floor_of (values d))
      → Mem a (cap_global_evidence d max_total)
  unfolding cap_global_evidence
  cap-Mem d max_total a l in_all in_floor_of =
      let floor = sort_by higher_rank (floor_of (values d)) in
      elim (Bool-cases (leb (length (concat (values d))) max_total)) [
        | inl e ↦ rw e (sort_by-Mem a (concat (values d)) in_all)
        | inr e ↦ elim (Bool-cases (leb max_total (length floor))) [
          | inl e' ↦
              rw (e, e')
                (subst (Mem a)
                  (sym (
                    take_of_length-le floor max_total
                      (omega (arith, length-sort_by higher_rank (floor_of (values d))))))
                  (sort_by-Mem a (floor_of (values d)) in_floor_of))
          | inr e' ↦
              rw (e, e')
                (sort_by-Mem a (floor ++ _)
                  (mem-append_left _ (sort_by-Mem a (floor_of (values d)) in_floor_of)))
        ]
      ]

  -- When there are no more sub-queries with rows than `max_total`, each keeps its best row: of a
  -- list `e ∷ es` of a sub-query, the row that `max` picks is one of the list, has a rerank score no
  -- lower than any of it, and is in what `cap_global_evidence` returns.
  pub cap_global_evidence-floor :
      (per_subquery_kept : Dict String (List (Evidence F))) (max_total : ℕ)
      (front back : List (List (Evidence F))) (e : Evidence F) (es : List (Evidence F))
      → values per_subquery_kept ≡ front ++ ((e ∷ es) ∷ back)
      → length (floor_of (values per_subquery_kept)) ≤ max_total
      → Mem (best_from e es) (e ∷ es)
        × All (λ x. higher_rank (best_from e es) x ≡ true) (e ∷ es)
        × Mem (best_from e es) (cap_global_evidence per_subquery_kept max_total)
  cap_global_evidence-floor d max_total front back e es p l = (
    best_from-Mem es e,
    best_from-higher_rank es e,
    cap-Mem d max_total (best_from e es) l
        (subst (λ ls. Mem (best_from e es) (concat ls)) (sym p) (concat-Mem front back e es))
        (subst (λ ls. Mem (best_from e es) (floor_of ls)) (sym p) (floor_of-Mem front back e es)),
  )
