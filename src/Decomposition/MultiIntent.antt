-- ===== src/Decomposition/MultiIntent.antt =====
-- app/decomposition/multi_intent.py: validation and merging of the proposed sub-queries, and
-- `decompose`. The three provider classes are the call `llm_decompose` of `Services`; the shape
-- check of pydantic is in its `Option`.
pub mod Merge
use Prim.Native.String.{◌++◌ as str_append}
use streaming_rag.Prelude.{
  value_error, ◌==◌, string_eq, ℕ, zero, suc, ◌+◌, String, Bool, true, false, Option, none, some,
  List, [], ◌∷◌, ◌++◌, map, if◌then◌else◌, Result, ok, raise, exn_text, get_elem?, ◌||◌,
}
use streaming_rag.Prelude as Pre
use streaming_rag.Float.{Float, less, cosine}
use streaming_rag.Text.{Unicode, strip, is_blank}
use streaming_rag.Models.{SubQuery}
use streaming_rag.Models.Events.{Payload}
use streaming_rag.Services.{Services}
use streaming_rag.Settings.{Settings}
use streaming_rag.Turn.{Turn, Exec, pure, lift, try_except, emit, mint, ◌>>=◌, ◌>>◌}
use streaming_rag.Decomposition.CompoundSignal.{has_compound_signal}

pub record ProposedSubQuery : Type 0 where
  pub text : String
  pub intent_label : String

-- A kept sub-query with the texts merged into it.
abbrev pub Kept : Type 0
Kept = ProposedSubQuery × List String

module _ ⦃u : Unicode⦄ where
  -- `ProposedSubQuery`'s validator on each pair; one blank text refuses the whole list.
  unfoldable pub validate_pairs : List (String × String) → Option (List ProposedSubQuery)
  unfolding strip
  validate_pairs [] = some []
  validate_pairs ((t, l) ∷ ps) = elim (validate_pairs ps) [
    | none ↦ none
    | some rest ↦
        if is_blank (strip t) || is_blank (strip l)
        then none
        else some (record { text = strip t; intent_label = strip l } ∷ rest)
  ]

  -- `_validate_proposed(raw)`
  unfoldable pub validate_proposed : Option (List (String × String)) → List ProposedSubQuery
  unfolding validate_pairs
  validate_proposed none = []
  validate_proposed (some pairs) = elim (validate_pairs pairs) [ none ↦ [] | some sqs ↦ sqs ]

abbrev absorb : ℕ → String → List Kept → List Kept
absorb i t [] = []
absorb zero t ((sq, ts) ∷ ks) = (sq, ts ++ (t ∷ [])) ∷ ks
absorb (suc i) t (k ∷ ks) = k ∷ absorb i t ks

module _ {F : Type 0} ⦃fl : Float F⦄ (embed : String → Result (List F)) (threshold : F) where
  -- `next((i for i, kept_embedding in enumerate(embeddings) if …), None)`
  unfoldable pub similar_index : ℕ → List (List F) → List F → Result (Option ℕ)
  similar_index i [] e = ok none
  similar_index i (k ∷ ks) e =
      let rest = similar_index (suc i) ks e in
      Pre.◌>>=◌ (cosine k e) (λ s. if less threshold s then ok (some i) else rest)

  -- The loop of `merge_similar`.
  unfoldable pub merge_from : List Kept → List (List F) → List ProposedSubQuery → Result (List Kept)
  unfolding similar_index
  merge_from kept embeddings [] = ok kept
  merge_from kept embeddings (sq ∷ sqs) = Pre.◌>>=◌ (embed sq.text) (λ e.
      Pre.◌>>=◌ (similar_index 0 embeddings e) (λ dup. elim dup [
        | none ↦ merge_from (kept ++ ((sq, []) ∷ [])) (embeddings ++ (e ∷ [])) sqs
        | some i ↦ merge_from (absorb i sq.text kept) embeddings sqs
      ]))

  unfoldable pub merge_similar : List ProposedSubQuery → Result (List Kept)
  unfolding merge_from
  merge_similar proposed = merge_from [] [] proposed

module _ {F : Type 0} ⦃fl : Float F⦄ ⦃u : Unicode⦄ (services : Services F)
    (settings : Settings F) where
  -- `SubQuery(…)`, with its identifier minted
  abbrev pub sub_query : String → ℕ → String → String → List String → Exec F SubQuery
  sub_query session_id offset_ms text label merged_from = do
    id ← mint services.ulid
    pure (record {
      sub_query_id = id;
      session_id = session_id;
      text = text;
      intent_label = label;
      parent_transcript_offset = offset_ms;
      merged_from = merged_from;
    })

  -- `_fallback`
  unfoldable pub fallback : String → String → ℕ → Exec F (List SubQuery)
  fallback session_id transcript offset_ms = do
    sq ← sub_query session_id offset_ms transcript "single" []
    pure (sq ∷ [])

  unfoldable pub sub_queries_of : String → ℕ → List Kept → Exec F (List SubQuery)
  sub_queries_of session_id offset_ms [] = pure []
  sub_queries_of session_id offset_ms ((p, absorbed) ∷ ks) = do
    sq ← sub_query session_id offset_ms p.text p.intent_label absorbed
    rest ← sub_queries_of session_id offset_ms ks
    pure (sq ∷ rest)

  unfoldable pub emit_created : List SubQuery → Exec F (Unit {0})
  emit_created [] = pure tt
  emit_created (sq ∷ sqs) = do
    emit (Payload.subquery sq.sub_query_id sq.text sq.intent_label)
    emit_created sqs

  -- `_emit_fallback`, then `_fallback`
  abbrev pub fall_back : String → String → ℕ → String → Exec F (List SubQuery)
  fall_back session_id transcript offset_ms reason = do
    emit (Payload.failed "decomposition" "decomposition_fallback" reason)
    fallback session_id transcript offset_ms

  -- The proposals that passed the check, merged into sub-queries.
  abbrev pub merged_of : String → String → ℕ → List ProposedSubQuery → Exec F (List SubQuery)
  merged_of transcript session_id offset_ms [] =
      fall_back session_id transcript offset_ms "llm_returned_no_usable_sub_queries"
  merged_of transcript session_id offset_ms (p ∷ ps) = do
    merged ← lift (merge_similar services.embed settings.merge_threshold (p ∷ ps))
    sub_queries_of session_id offset_ms merged

  abbrev pub compound_of :
      String → String → ℕ → Result (Option (List (String × String))) → Exec F (List SubQuery)
  compound_of transcript session_id offset_ms (raise e) =
      fall_back session_id transcript offset_ms (str_append "llm_call_failed: " (exn_text e))
  compound_of transcript session_id offset_ms (ok raw) =
      merged_of transcript session_id offset_ms (validate_proposed raw)

  -- `get_decomposer`: whether there is a decomposer for the provider
  unfoldable pub get_decomposer : Result (Unit {0})
  get_decomposer =
      if settings.llm_provider == "gemini"
        || (settings.llm_provider == "anthropic" || settings.llm_provider == "groq")
      then ok tt
      else raise value_error

  -- The branch of a compound request: an unknown provider raises; the model is asked once, and a
  -- call that raises or an answer with nothing usable falls back, with one event.
  unfoldable pub decompose_compound : String → String → ℕ → Exec F (List SubQuery)
  unfolding get_decomposer
  decompose_compound transcript session_id offset_ms =
      lift get_decomposer
      >> compound_of transcript session_id offset_ms (services.llm_decompose transcript)

  -- `decompose(transcript, corpus_id, session_id, offset_ms, …)`
  unfoldable pub decompose : String → String → String → ℕ → Exec F (List SubQuery)
  decompose transcript corpus_id session_id offset_ms = do
    compound ← lift (has_compound_signal services.nlp transcript corpus_id)
    sub_queries ←
        (if compound
          then decompose_compound transcript session_id offset_ms
          else fallback session_id transcript offset_ms)
    emit_created sub_queries
    pure sub_queries
