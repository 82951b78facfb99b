-- ===== src/Api/Evaluation.antt =====
-- app/api/evaluate.py: the runs of the benchmark as a state machine. A task of `_execute` begins once
-- and ends once, at any time after the request that made it; `outcome` is what the benchmark comes to.
-- The keys are checked in front of the routes (Api).
pub mod Exclusive
use streaming_rag.Prelude.{
  ℕ, ◌≡◌, String, Bool, true, false, not, ◌&&◌, Option, none, some, List, [], ◌∷◌, any, map, ◌==◌,
  string_eq, if◌then◌else◌, Dict, lookup, insert, values, Result, ok, raise, Exn,
}

pub data EvaluationRunStatus : Type 0 where
  queued running complete failed : EvaluationRunStatus

-- What `_run_benchmark_sync` returns: gates and metrics.
pub record EvaluationResult (G : Type 0) : Type 0 where
  pub run_id : String
  pub test_set : String
  pub corpus_id : String
  pub report : Option (Result G)
  pub started_at : ℕ
  pub completed_at : Option ℕ
  pub status : EvaluationRunStatus

abbrev pub is_in_flight : EvaluationRunStatus → Bool
is_in_flight queued = true
is_in_flight running = true
is_in_flight complete = false
is_in_flight failed = false

-- `r.test_set == test_set and r.status in in_flight`
abbrev pub holds_up : {G : Type 0} → String → EvaluationResult G → Bool
holds_up test_set r = r.test_set == test_set && is_in_flight r.status

pub data EvaluationReply (G : Type 0) : Type 0 where
  conflict unknown_run : EvaluationReply G
  accepted : String → EvaluationRunStatus → EvaluationReply G
  result : EvaluationResult G → EvaluationReply G

abbrev pub Runs : Type 0 → Type 0
Runs G = Dict String (EvaluationResult G)

module _ {G : Type 0} where
  abbrev pub new_run : String → ℕ → String → String → EvaluationResult G
  new_run run_id now test_set corpus_id = record {
    run_id = run_id;
    test_set = test_set;
    corpus_id = corpus_id;
    report = none;
    started_at = now;
    completed_at = none;
    status = queued;
  }

  -- `trigger_evaluation`, with the new run's id
  unfoldable pub trigger_evaluation :
      String → ℕ → String → String → Runs G → EvaluationReply G × Runs G
  trigger_evaluation run_id now test_set corpus_id runs =
      if any (λ p. holds_up test_set p.1) runs
      then (conflict, runs)
      else (accepted run_id queued, insert run_id (new_run run_id now test_set corpus_id) runs)

  abbrev pub reply_run : Option (EvaluationResult G) → EvaluationReply G
  reply_run none = unknown_run
  reply_run (some r) = result r

  -- `get_evaluation`
  unfoldable pub get_evaluation : String → Runs G → EvaluationReply G
  get_evaluation run_id runs = reply_run (lookup run_id runs)

  -- `_execute` up to its call of the benchmark, and from there on.
  abbrev pub started : EvaluationResult G → EvaluationResult G
  started r = record r { status = running }

  abbrev pub status_after : Result G → EvaluationRunStatus
  status_after (ok report) = complete
  status_after (raise e) = failed

  abbrev pub ended : Result G → ℕ → EvaluationResult G → EvaluationResult G
  ended outcome now r = record r {
    report = some outcome;
    completed_at = some now;
    status = status_after outcome;
  }

-- What can happen: a request, or a task that goes on. The task of a run begins while the run is
-- queued, and its benchmark ends while it is running.
pub data Step (G : Type 0) : Runs G → Runs G → Type 0 where
  triggers :
      (run_id : String) (now : ℕ) (test_set corpus_id : String) (runs : Runs G)
      → Step G runs (trigger_evaluation run_id now test_set corpus_id runs).1
  begins :
      (run_id : String) (r : EvaluationResult G) (runs : Runs G)
      → lookup run_id runs ≡ some r
      → r.status ≡ queued
      → Step G runs (insert run_id (started r) runs)
  ends :
      (run_id : String) (r : EvaluationResult G) (outcome : Result G) (now : ℕ) (runs : Runs G)
      → lookup run_id runs ≡ some r
      → r.status ≡ running
      → Step G runs (insert run_id (ended outcome now r) runs)

pub data Reach (G : Type 0) (runs : Runs G) : Runs G → Type 0 where
  here : Reach G runs runs
  next : {mid end : Runs G} → Reach G runs mid → Step G mid end → Reach G runs end
