-- ===== src/Api/Evaluation/Exclusive.antt =====
-- At most one run of a test set is in flight (app/api/evaluate.py).
use streaming_rag.Prelude.{
  ℕ, ◌+◌, ◌≤◌, ◌≡◌, refl, ap, subst, String, Bool, true, false, ◌&&◌, some, [], ◌∷◌, any, ◌==◌,
  string_eq, arith, Bool-cases, inl, inr, lookup, insert, Result, ok, raise,
}
use streaming_rag.Api.Evaluation.{
  queued, EvaluationResult, holds_up, Runs, new_run, trigger_evaluation, started, ended, Step,
  triggers, begins, ends, Reach, here, next,
}

abbrev bit : Bool → ℕ
bit true = 1
bit false = 0

bit-le : (b : Bool) → bit b ≤ 1
bit-le true = omega arith
bit-le false = omega arith

and_false : (b : Bool) → b && false ≡ false
and_false true = refl
and_false false = refl

module _ {G : Type 0} (test_set : String) where
  -- The runs of the test set that are queued or running.
  abbrev pub in_flight : Runs G → ℕ
  in_flight [] = 0
  in_flight ((id, r) ∷ runs) = bit (holds_up test_set r) + in_flight runs

  in_flight-none :
      (runs : Runs G) → any (λ p. holds_up test_set p.1) runs ≡ false → in_flight runs ≡ 0
  in_flight-none [] h = refl
  in_flight-none ((id, r) ∷ runs) h = elim (Bool-cases (holds_up test_set r)) [
    | inl e ↦ absurd (ground (arith, h, e))
    | inr e ↦ rw e (omega (arith, in_flight-none runs (ground (arith, h, e))))
  ]

  in_flight-insert :
      (id : String) (v : EvaluationResult G) (runs : Runs G)
      → in_flight (insert id v runs) ≤ in_flight runs + bit (holds_up test_set v)
  in_flight-insert id v [] = omega arith
  in_flight-insert id v ((j, w) ∷ runs) = elim (Bool-cases (j == id)) [
    | inl e ↦ rw e (omega arith)
    | inr e ↦ rw e (omega (arith, in_flight-insert id v runs))
  ]

  -- A run that takes the place of another.
  in_flight-replace :
      (id : String) (r v : EvaluationResult G) (runs : Runs G)
      → lookup id runs ≡ some r
      → in_flight (insert id v runs) + bit (holds_up test_set r)
        ≡ in_flight runs + bit (holds_up test_set v)
  in_flight-replace id r v [] h = cc h
  in_flight-replace id r v ((j, w) ∷ runs) h = elim (Bool-cases (j == id)) [
    | inl e ↦ rw e (
        subst
          (λ x.
            bit (holds_up test_set v) + in_flight runs + bit (holds_up test_set x)
            ≡ bit (holds_up test_set w) + in_flight runs + bit (holds_up test_set v))
          (same e) (omega arith))
    | inr e ↦ rw e (omega (arith, in_flight-replace id r v runs (other e)))
  ]
    where
      same : (j == id) ≡ true → w ≡ r
      same e = ground (arith, e, h)

      other : (j == id) ≡ false → lookup id runs ≡ some r
      other e = ground (arith, e, h)

  in_flight-trigger :
      (run_id : String) (now : ℕ) (own corpus_id : String) (runs : Runs G)
      → in_flight runs ≤ 1
      → in_flight (trigger_evaluation run_id now own corpus_id runs).1 ≤ 1
  unfolding trigger_evaluation
  in_flight-trigger run_id now own corpus_id runs h =
      elim (Bool-cases (any (λ p. holds_up own p.1) runs)) [
        | inl e ↦ rw e h
        | inr e ↦ rw e (elim (Bool-cases (own == test_set)) [
          | inl same ↦ omega (
            arith,
            in_flight-insert run_id (new_run run_id now own corpus_id) runs,
            bit-le (holds_up test_set (new_run {G = G} run_id now own corpus_id)),
            in_flight-none runs (
                subst (λ x. any (λ p. holds_up x p.1) runs ≡ false)
                  ((string_eq.equal_iff own test_set).0 same) e),
          )
          | inr other ↦ omega (
            arith,
            in_flight-insert run_id (new_run run_id now own corpus_id) runs,
            apart other,
            h,
          )
        ])
      ]
    where
      apart :
          (own == test_set) ≡ false
          → bit (holds_up test_set (new_run {G = G} run_id now own corpus_id)) ≡ 0
      apart other = rw other refl

  holds_up-started :
      (r : EvaluationResult G)
      → r.status ≡ queued
      → holds_up test_set r ≡ holds_up test_set (started r)
  holds_up-started r was = rw was refl

  holds_up-ended :
      (outcome : Result G) (now : ℕ) (r : EvaluationResult G)
      → holds_up test_set (ended outcome now r) ≡ false
  holds_up-ended (ok report) now r = and_false (r.test_set == test_set)
  holds_up-ended (raise e) now r = and_false (r.test_set == test_set)

  in_flight-Step :
      {runs after : Runs G} → in_flight runs ≤ 1 → Step G runs after → in_flight after ≤ 1
  in_flight-Step h (triggers run_id now own corpus_id runs) =
      in_flight-trigger run_id now own corpus_id runs h
  in_flight-Step h (begins run_id r runs at was) =
      omega
        (arith, in_flight-replace run_id r (started r) runs at, ap bit (holds_up-started r was), h)
  in_flight-Step h (ends run_id r outcome now runs at was) = omega (
    arith,
    in_flight-replace run_id r (ended outcome now r) runs at,
    ap bit (holds_up-ended outcome now r),
    h,
  )

  -- However requests come and runs begin and end, from no runs on: at most one run of a test set is
  -- queued or running at a time.
  pub in_flight-Reach : {runs : Runs G} → Reach G [] runs → in_flight runs ≤ 1
  in_flight-Reach here = omega arith
  in_flight-Reach (next before step) = in_flight-Step (in_flight-Reach before) step
