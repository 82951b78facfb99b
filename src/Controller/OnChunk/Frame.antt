-- ===== src/Controller/OnChunk/Frame.antt =====
-- Which stages leave the session's record alone: they write telemetry and mint identifiers only.
use streaming_rag.Prelude.{
  ℕ, ◌≡◌, refl, ◌∙◌, String, Bool, true, false, Option, none, some, List, [], ◌∷◌, Dict, arith,
  Result, ok, raise, Exn, if◌then◌else◌,
}
use streaming_rag.Float.{Float}
use streaming_rag.Text.{Unicode}
use streaming_rag.Models.{Evidence, SubQuery, RetrievedChunk}
use streaming_rag.Models.Events.{
  Payload, Decision, RetrievalTrigger, RetrievalRequest, RetrievalMode,
}
use streaming_rag.Services.{Services}
use streaming_rag.Settings.{Settings}
use streaming_rag.Turn.{
  Turn, Exec, pure, lift, reads, set_minted, emit, mint, continue, ◌>>=◌, ◌>>◌,
}
use streaming_rag.Session.Buffer.{TranscriptChunk}
use streaming_rag.Decomposition.MultiIntent.{
  Kept, decompose, decompose_compound, fallback, fall_back, compound_of, merged_of, sub_queries_of,
  emit_created, validate_proposed,
}
use streaming_rag.Retrieval.Fusion.{RetrievalResult, ChunksById}
use streaming_rag.Retrieval.Hybrid.{retrieve, run_mode, searched, emit_error}
use streaming_rag.Controller.RetrievalController.{
  decide, rerank_all, fuse_and_rerank, retrieve_all, retrieve_for, retrieve_turn, refine,
}

-- `m` leaves the session alone, whether it returns or raises.
pub record KeepsSession {F A : Type 0} (m : Exec F A) : Type 0 where
  pub at : (t : Turn F) → (m t).1.session ≡ t.session

module _ {F A : Type 0} where
  pub keeps_pure : (a : A) → KeepsSession (pure {F = F} a)
  unfolding pure
  keeps_pure a = record { at = λ t. refl }

  pub keeps_lift : (r : Result A) → KeepsSession (lift {F = F} r)
  unfolding lift
  keeps_lift r = record { at = λ t. refl }

  pub keeps_reads : (f : Turn F → A) → KeepsSession (reads f)
  unfolding reads
  keeps_reads f = record { at = λ t. refl }

module _ {F A B : Type 0} where
  keeps_bind :
      {m : Exec F A} {f : A → Exec F B}
      → KeepsSession m
      → ((a : A) → KeepsSession (f a))
      → KeepsSession (m >>= f)
  unfolding ◌>>=◌
  keeps_bind {m} {f} h k = record { at = λ t. go t (m t).0 (m t).1 (h.at t) }
    where
      go :
          (t : Turn F) (r : Result A) (t' : Turn F)
          → t'.session ≡ t.session
          → ((continue r f) t').1.session ≡ t.session
      go t (ok a) t' e = (k a).at t' ∙ e
      go t (raise x) t' e = e

module _ {F B : Type 0} where
  keeps_then :
      {m : Exec F (Unit {0})} {n : Exec F B}
      → KeepsSession m
      → KeepsSession n
      → KeepsSession (m >> n)
  keeps_then h k = keeps_bind h (λ _. k)

module _ {F A : Type 0} where
  keeps_if :
      (b : Bool) {m n : Exec F A}
      → KeepsSession m
      → KeepsSession n
      → KeepsSession (if b then m else n)
  keeps_if true h k = h
  keeps_if false h k = k

module _ {F : Type 0} where
  keeps_emit : (p : Payload F) → KeepsSession (emit p)
  unfolding emit
  keeps_emit p = record { at = λ t. ground arith }

  keeps_mint : (ulid : ℕ → String) → KeepsSession (mint {F = F} ulid)
  unfolding mint
  keeps_mint ulid = record { at = λ t. refl }

  keeps_set_minted : (n : ℕ) → KeepsSession (set_minted {F = F} n)
  unfolding set_minted
  keeps_set_minted n = record { at = λ t. refl }

ruleset keeps_rules = (
  keeps_pure, keeps_lift, keeps_reads, keeps_bind, keeps_then, keeps_if, keeps_emit, keeps_mint,
  keeps_set_minted,
)

module _ {F : Type 0} where
  pub keeps_decide : (d : Decision) (r : String) → KeepsSession (decide {F = F} d r)
  unfolding decide
  keeps_decide d r = search keeps_rules

  keeps_emit_error :
      (request : RetrievalRequest) (mode : RetrievalMode) (e : Option (String × String))
      → KeepsSession (emit_error {F = F} request mode e)
  keeps_emit_error request mode none = search keeps_rules
  keeps_emit_error request mode (some e) = search keeps_rules

  keeps_searched :
      (name_of : Exn → String) (o : Result (List (RetrievedChunk F)))
      → KeepsSession (searched name_of o)
  unfolding ◌>>=◌ lift
  keeps_searched name_of (ok hits) = keeps_pure _
  keeps_searched name_of (raise exc) = keeps_pure _

  keeps_run_mode :
      (request : RetrievalRequest) (mode : RetrievalMode) (name_of : Exn → String)
      (o : Result (List (RetrievedChunk F)) × ℕ)
      → KeepsSession (run_mode name_of request mode o)
  unfolding run_mode
  keeps_run_mode request mode name_of (o, l) =
      search (keeps_rules, keeps_emit_error, keeps_searched)

  keeps_retrieve :
      (services : Services F) (settings : Settings F) (request : RetrievalRequest)
      → KeepsSession (retrieve services settings request)
  unfolding retrieve
  keeps_retrieve services settings request = search (keeps_rules, keeps_run_mode)

module _ {F : Type 0} ⦃fl : Float F⦄ ⦃u : Unicode⦄ (services : Services F)
    (settings : Settings F) where
  keeps_emit_created : (sqs : List SubQuery) → KeepsSession (emit_created services settings sqs)
  unfolding emit_created
  keeps_emit_created [] = search keeps_rules
  keeps_emit_created (sq ∷ sqs) = keeps_then (keeps_emit _) (keeps_emit_created sqs)

  keeps_fallback :
      (session_id transcript : String) (offset : ℕ)
      → KeepsSession (fallback services settings session_id transcript offset)
  unfolding fallback
  keeps_fallback session_id transcript offset = search keeps_rules

  keeps_sub_queries_of :
      (session_id : String) (offset : ℕ) (ks : List Kept)
      → KeepsSession (sub_queries_of services settings session_id offset ks)
  unfolding sub_queries_of
  keeps_sub_queries_of session_id offset [] = search keeps_rules
  keeps_sub_queries_of session_id offset ((p, a) ∷ ks) =
      keeps_bind (search keeps_rules)
        (λ _. keeps_bind (keeps_sub_queries_of session_id offset ks) (λ _. keeps_pure _))

  keeps_fall_back :
      (session_id transcript : String) (offset : ℕ) (reason : String)
      → KeepsSession (fall_back services settings session_id transcript offset reason)
  keeps_fall_back session_id transcript offset reason = search (keeps_rules, keeps_fallback)

  keeps_decompose_compound :
      (transcript session_id : String) (offset : ℕ)
      → KeepsSession (decompose_compound services settings transcript session_id offset)
  unfolding decompose_compound
  keeps_decompose_compound transcript session_id offset = keeps_bind (keeps_lift _) (λ _.
      elim (services.llm_decompose transcript)
        as (λ r. KeepsSession (compound_of services settings transcript session_id offset r)) [
          | raise e ↦ keeps_fall_back _ _ _ _
          | ok raw ↦
              elim (validate_proposed raw)
                as (λ ps.
                  KeepsSession (merged_of services settings transcript session_id offset ps)) [
                    | [] ↦ keeps_fall_back _ _ _ _
                    | p ∷ ps ↦ search (keeps_rules, keeps_sub_queries_of)
                  ]
        ])

  keeps_decompose :
      (transcript corpus_id session_id : String) (offset : ℕ)
      → KeepsSession (decompose services settings transcript corpus_id session_id offset)
  unfolding decompose
  keeps_decompose transcript corpus_id session_id offset =
      search (keeps_rules, keeps_decompose_compound, keeps_fallback, keeps_emit_created)

  keeps_rerank_all :
      (evidence : List (Evidence F)) (chunks : ChunksById F) (sqs : List SubQuery)
      (kept : Dict String (List (Evidence F)))
      → KeepsSession (rerank_all services settings evidence chunks sqs kept)
  unfolding rerank_all
  keeps_rerank_all evidence chunks [] kept = search keeps_rules
  keeps_rerank_all evidence chunks (sq ∷ sqs) kept =
      search (
        keeps_rules,
        λ (k : Dict String (List (Evidence F))). keeps_rerank_all evidence chunks sqs k,
      )

  keeps_fuse_and_rerank :
      (results : List (RetrievalResult F)) (sqs : List SubQuery)
      → KeepsSession (fuse_and_rerank services settings results sqs)
  unfolding fuse_and_rerank
  keeps_fuse_and_rerank results sqs = search (keeps_rules, keeps_rerank_all) depth 12

  keeps_retrieve_all :
      (chunk : TranscriptChunk) (trigger : RetrievalTrigger) (sqs : List SubQuery)
      → KeepsSession (retrieve_all services settings chunk trigger sqs)
  unfolding retrieve_all
  keeps_retrieve_all chunk trigger [] = search keeps_rules
  keeps_retrieve_all chunk trigger (sq ∷ sqs) = keeps_bind (keeps_reads _) (λ _.
      keeps_bind (keeps_reads _) (λ _. keeps_bind (keeps_reads _) (λ _.
        keeps_bind (keeps_retrieve services settings _) (λ _.
          keeps_bind (keeps_retrieve_all chunk RetrievalTrigger.multi_intent sqs)
            (λ _. keeps_pure _)))))

  keeps_retrieve_for :
      (chunk : TranscriptChunk) (trigger : RetrievalTrigger) (reason text : String)
      → KeepsSession (retrieve_for services settings chunk trigger reason text)
  keeps_retrieve_for chunk trigger reason text =
      search (keeps_rules, keeps_decompose, keeps_retrieve_all, keeps_fuse_and_rerank) depth 10

  pub keeps_retrieve_turn :
      (chunk : TranscriptChunk) (trigger : RetrievalTrigger)
      → KeepsSession (retrieve_turn services settings chunk trigger)
  unfolding retrieve_turn
  keeps_retrieve_turn chunk trigger = search (keeps_rules, keeps_retrieve_for)

  pub keeps_refine :
      (chunk : TranscriptChunk) (delta : Dict String String)
      → KeepsSession (refine services settings chunk delta)
  unfolding refine
  keeps_refine chunk delta = search (keeps_rules, keeps_retrieve_for)
