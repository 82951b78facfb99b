-- ===== src/Generation/StreamingGenerator.antt =====
-- app/generation/streaming_generator.py: one answer, from the prompt to the committed version. The
-- providers are the two calls of `Services`: a stream with its tokens and what cut it short, and a
-- completion. `_split_sentence` is written out for its pattern `(?<=[.!?])\s+`.
pub mod Splitting
pub mod Endings
pub mod Versions
pub mod Numbering
use Prim.Native.String.{◌++◌ as str_append}
use streaming_rag.Prelude.{
  value_error, ◌==◌, ℕ, zero, suc, ◌+◌, ◌*◌, String, Bool, true, false, not, ◌&&◌, ◌||◌, Option,
  none, some, List, [], ◌∷◌, ◌++◌, map, Char, code, if◌then◌else◌, Dict, keys, values, lookup,
  insert, string_eq, sort_by, Result, ok, raise, Exn, exn_text, keep, last?, is_some, length, eqb,
  ltb,
}
use streaming_rag.Float.{Float, zero_float, less}
use streaming_rag.Text.{Unicode, strip, lstrip, is_blank, join, text_leb, reverse_onto}
use streaming_rag.Text.Regex.{count_chars}
use streaming_rag.Models.{Evidence, RetrievedChunk, Citation, AnswerVersion, SubQuery}
use streaming_rag.Models.Events.{Payload}
use streaming_rag.Services.{Services, Streamed}
use streaming_rag.Settings.{Settings}
use streaming_rag.Turn.{
  Turn, Exec, pure, lift, reads, set_session, set_minted, mint, emit, ◌>>=◌, ◌>>◌,
}
use streaming_rag.Session.Record.{SessionRecord}
use streaming_rag.Retrieval.Fusion.{RetrievalResult, ChunksById}
use streaming_rag.Retrieval.Contradictions.{is_active}
use streaming_rag.Reranking.CrossEncoder.{rank_score, best_from}
use streaming_rag.Grounding.Tags.{EvidenceChunk, build_evidence_lookup}
use streaming_rag.Grounding.CitationValidator.{
  EvidenceByTag, Outcome, Reason, accepted, uncertain, finalize_sentence, uncertainty_text,
  reason_text, stamp_citation_ids, is_nil,
}
use streaming_rag.Generation.PromptBuilder.{build_prompt}

abbrev pub system_prompt : String
system_prompt =
    "You answer questions using only the evidence block provided. Every factual sentence must end with a citation tag in the exact form [doc_id section], copied verbatim from the evidence block. Never invent a tag and never cite one that isn't listed. If the evidence does not answer a question, say so plainly. When sources disagree, state both values with their own citations."

abbrev pub regen_system_prompt : String
regen_system_prompt =
    "Rewrite the given sentence so it ends with a citation tag [doc_id section] chosen only from the tags listed, copied verbatim. Keep the factual content the same. Respond with only the rewritten sentence."

-- `_REGENERATE_MAX_ATTEMPTS`
abbrev pub regenerate_max_attempts : ℕ
regenerate_max_attempts = 1

-- `[.!?]`
abbrev pub ends_sentence : Char → Bool
ends_sentence c = eqb (code c) b'.' || eqb (code c) b'!' || eqb (code c) b'?'

module _ ⦃u : Unicode⦄ where
  -- The search of the pattern: `passed` is the text before, backwards, and `after_end` tells
  -- whether its last character ends a sentence. The match takes all the blanks.
  unfoldable pub split_from : String → Bool → String → Option (String × String)
  unfolding strip lstrip
  split_from passed after_end String.[] = none
  split_from passed after_end (String.◌∷◌ c s) =
      let later = split_from (String.◌∷◌ c passed) (ends_sentence c) s in
      if after_end && u.is_space c
      then some (strip (reverse_onto (String.◌∷◌ c passed) ""), lstrip s)
      else later

  -- `_split_sentence(buffer)`
  unfoldable pub split_sentence : String → Option (String × String)
  unfolding split_from
  split_sentence buffer = split_from "" false buffer

-- What `stream_answer` collects: `sentences`, `citations` and `buffer`.
pub record Draft (F : Type 0) : Type 0 where
  pub sentences : List String
  pub citations : List (Citation F)
  pub buffer : String

abbrev pub empty_draft : {F : Type 0} → Draft F
empty_draft = record { sentences = []; citations = []; buffer = "" }

abbrev pub add_sentence : {F : Type 0} → Draft F → String × List (Citation F) → Draft F
add_sentence d r = record d {
  sentences = d.sentences ++ (r.0 ∷ []);
  citations = d.citations ++ r.1;
}

abbrev put_chunks : {F : Type 0} → List (RetrievedChunk F) → ChunksById F → ChunksById F
put_chunks [] d = d
put_chunks (c ∷ cs) d = put_chunks cs (insert c.chunk_id c d)

-- `{c.chunk_id: c for r in retrievals for c in (*r.dense, *r.sparse)}`
abbrev pub chunks_of : {F : Type 0} → List (RetrievalResult F) → ChunksById F → ChunksById F
chunks_of [] d = d
chunks_of (r ∷ rs) d = chunks_of rs (put_chunks r.sparse (put_chunks r.dense d))

-- `(prior_version.version_no + 1) if prior_version else 1`
abbrev pub next_version : Option AnswerVersion → ℕ
next_version none = 1
next_version (some v) = v.version_no + 1

abbrev pub superseded : Option AnswerVersion → Option ℕ
superseded none = none
superseded (some v) = some v.version_no

abbrev first_id : List SubQuery → String
first_id [] = ""
first_id (sq ∷ sqs) = sq.sub_query_id

abbrev citation_ids : {F : Type 0} → List (Citation F) → List String
citation_ids [] = []
citation_ids (c ∷ cs) = c.citation_id ∷ citation_ids cs

module _ {F : Type 0} where
  unfoldable pub emit_citations : List (Citation F) → Exec F (Unit {0})
  emit_citations [] = pure tt
  emit_citations (c ∷ cs) = do
    emit (Payload.cited c.chunk_id c.doc_id c.section c.claim_text)
    emit_citations cs

  unfoldable pub emit_insufficient : List SubQuery → Exec F (Unit {0})
  emit_insufficient [] = pure tt
  emit_insufficient (sq ∷ sqs) = do
    emit (
        Payload.uncertain sq.sub_query_id "insufficient_evidence"
          (some (str_append "Could you provide more detail about " (str_append sq.text "?"))))
    emit_insufficient sqs

  -- The `except` of the stream: what cut it short is told and no more.
  unfoldable pub emit_cut : Option Exn → Exec F (Unit {0})
  emit_cut none = pure tt
  emit_cut (some e) = emit (Payload.failed "generation" "GenerationFailed" (exn_text e))

  -- `AnswerVersion(…)`
  abbrev pub version_of : String → String → Option AnswerVersion → Draft F → AnswerVersion
  version_of answer_version_id session_id prior draft = record {
    answer_version_id = answer_version_id;
    session_id = session_id;
    version_no = next_version prior;
    text = join " " draft.sentences;
    citations = citation_ids draft.citations;
    supersedes = superseded prior;
    carried_forward_claim_ids = [];
    new_claim_ids = citation_ids draft.citations;
  }

  -- From `if not sentences` on.
  unfoldable pub commit_version :
      String → Option AnswerVersion → Draft F → Exec F (Option AnswerVersion)
  unfolding join
  commit_version answer_version_id prior draft = do
    session_id ← reads (λ t. t.session.session_id)
    let v = version_of answer_version_id session_id prior draft
    if is_nil draft.sentences then pure none else do
      set_session (λ s. record s { answer_versions = s.answer_versions ++ (v ∷ []) })
      emit (Payload.versioned v.version_no v.text v.citations v.supersedes)
      pure (some v)

  -- The end of `_finalize_and_emit`: the events, and the text with its citations.
  unfoldable pub publish :
      List SubQuery → String → ℕ → Bool → Outcome F → Exec F (String × List (Citation F))
  unfolding stamp_citation_ids uncertainty_text reason_text
  publish sub_queries answer_version_id version_no is_final (accepted text citations) = do
    let stamped = stamp_citation_ids citations answer_version_id
    emit_citations stamped
    emit (Payload.answered version_no text is_final)
    pure (text, stamped)
  publish sub_queries answer_version_id version_no is_final (uncertain reason) = do
    emit (Payload.uncertain (first_id sub_queries) (reason_text reason) none)
    emit (Payload.answered version_no (uncertainty_text reason) is_final)
    pure (uncertainty_text reason, [])

module _ {F : Type 0} ⦃fl : Float F⦄ ⦃u : Unicode⦄ (services : Services F)
    (settings : Settings F) where
  abbrev pub count_minted : ℕ → Outcome F → Exec F (Outcome F)
  count_minted minted (accepted text citations) =
      set_minted (minted + length citations) >> pure (accepted text citations)
  count_minted minted (uncertain reason) = pure (uncertain reason)

  -- `finalize_sentence`, with the identifiers that its citations take
  unfoldable pub finalize : String → EvidenceByTag → Exec F (Outcome F)
  unfolding finalize_sentence
  finalize sentence evidence_by_tag = do
    minted ← reads (λ t. t.minted)
    let outcome =
        finalize_sentence services.ulid minted sentence evidence_by_tag settings.entailment_min
    count_minted minted outcome

  abbrev regen_prompt : EvidenceByTag → String → String
  regen_prompt evidence_by_tag sentence = str_append "Available tags: " (
      str_append (join ", " (sort_by text_leb (keys evidence_by_tag)))
        (str_append "\nSentence: " sentence))

  -- `while isinstance(result, Uncertain) and attempt < _REGENERATE_MAX_ATTEMPTS`, on the attempts
  -- that are left
  unfoldable pub regenerate_loop : ℕ → String → EvidenceByTag → Outcome F → Exec F (Outcome F)
  unfolding join
  regenerate_loop attempts sentence evidence_by_tag (accepted text citations) =
      pure (accepted text citations)
  regenerate_loop zero sentence evidence_by_tag (uncertain reason) = pure (uncertain reason)
  regenerate_loop (suc attempts) sentence evidence_by_tag (uncertain reason) =
      elim (services.llm_complete regen_system_prompt (regen_prompt evidence_by_tag sentence)) [
        | raise e ↦ pure (uncertain reason)
        | ok regenerated ↦
            finalize (strip regenerated) evidence_by_tag
            >>= regenerate_loop attempts (strip regenerated) evidence_by_tag
      ]

  -- `_finalize_and_emit`
  unfoldable pub finalize_and_emit :
      String
      → EvidenceByTag
      → List SubQuery
      → String
      → ℕ
      → Bool
      → Exec F (String × List (Citation F))
  finalize_and_emit sentence evidence_by_tag sub_queries answer_version_id version_no is_final = do
    first ← finalize sentence evidence_by_tag
    result ← regenerate_loop regenerate_max_attempts sentence evidence_by_tag first
    publish sub_queries answer_version_id version_no is_final result

  module _ (evidence_by_tag : EvidenceByTag) (sub_queries : List SubQuery)
      (answer_version_id : String) (version_no : ℕ) where
    -- `while True: split = _split_sentence(buffer) …`, on fuel: a split takes a character at least
    unfoldable pub split_loop : ℕ → Draft F → Exec F (Draft F)
    split_loop zero draft = pure draft
    split_loop (suc fuel) draft = elim (split_sentence draft.buffer) [
      | none ↦ pure draft
      | some split ↦ do
        r ← finalize_and_emit split.0 evidence_by_tag sub_queries answer_version_id version_no false
        split_loop fuel (add_sentence (record draft { buffer = split.1 }) r)
    ]

    -- `async for token in …`
    unfoldable pub token_loop : List String → Draft F → Exec F (Draft F)
    token_loop [] draft = pure draft
    token_loop (token ∷ tokens) draft = do
      let buffer = str_append draft.buffer token
      d ← split_loop (count_chars buffer) (record draft { buffer = buffer })
      token_loop tokens d

    -- `if buffer.strip(): …`
    unfoldable pub last_sentence : Draft F → Exec F (Draft F)
    unfolding strip
    last_sentence draft = if is_blank (strip draft.buffer) then pure draft else do
      r ←
          finalize_and_emit (strip draft.buffer) evidence_by_tag sub_queries answer_version_id
            version_no true
      pure (add_sentence draft r)

  -- `get_generator`: whether there is a generator for the provider
  unfoldable pub get_generator : Result (Unit {0})
  get_generator =
      if settings.llm_provider == "gemini"
        || (settings.llm_provider == "anthropic" || settings.llm_provider == "groq")
      then ok tt
      else raise value_error

  -- From `prior_version = …` on: there is a generator, and evidence to ground an answer in.
  unfoldable pub write_answer : List SubQuery → EvidenceByTag → Exec F (Option AnswerVersion)
  unfolding build_prompt
  write_answer sub_queries evidence_by_tag = do
    prior ← reads (λ t. last? t.session.answer_versions)
    answer_version_id ← mint services.ulid
    let streamed =
        services.llm_stream system_prompt (build_prompt sub_queries evidence_by_tag prior)
    draft ←
        token_loop evidence_by_tag sub_queries answer_version_id (next_version prior)
          streamed.tokens empty_draft
    emit_cut streamed.cut_by
    full ← last_sentence evidence_by_tag sub_queries answer_version_id (next_version prior) draft
    commit_version answer_version_id prior full

  -- From `llm = …` on.
  unfoldable pub generate : List SubQuery → EvidenceByTag → Exec F (Option AnswerVersion)
  unfolding write_answer get_generator
  generate sub_queries evidence_by_tag =
      lift get_generator >> write_answer sub_queries evidence_by_tag

  -- `not active_evidence or top_score < settings.min_relevance`
  abbrev pub insufficient : List (Evidence F) → Bool
  insufficient evidence = elim (keep is_active evidence) [
    | [] ↦ true
    | e ∷ es ↦ less (rank_score (best_from e es)) settings.min_relevance
  ]

  -- `stream_answer(session, sub_queries, evidence, retrievals, …)`
  unfoldable pub stream_answer :
      List SubQuery → List (Evidence F) → List (RetrievalResult F) → Exec F (Option AnswerVersion)
  unfolding build_evidence_lookup
  stream_answer [] evidence retrievals = pure none
  stream_answer (sq ∷ sqs) evidence retrievals =
      if insufficient evidence
      then emit_insufficient (sq ∷ sqs) >> pure none
      else generate (sq ∷ sqs) (build_evidence_lookup evidence (chunks_of retrievals []))
