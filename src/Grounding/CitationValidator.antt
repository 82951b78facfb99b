-- ===== src/Grounding/CitationValidator.antt =====
-- app/grounding/citation_validator.py: the verdict on a sentence.
use Prim.Native.String.{◌++◌ as str_append}
use streaming_rag.Prelude.{
  ℕ, suc, String, Bool, true, false, not, ◌||◌, none, some, List, [], ◌∷◌, string_eq, ◌==◌,
  if◌then◌else◌, Dict, values, lookup, contains, sort_by, keep, any, map, length,
}
use streaming_rag.Float.{Float, zero_float, less}
use streaming_rag.Text.{Unicode, join, text_leb}
use streaming_rag.Models.{Citation}
use streaming_rag.Grounding.Tags.{
  EvidenceChunk, extract_citation_tags, format_citation_tag, tokenize, unique,
}

pub data Reason : Type 0 where
  fabricated_id missing_citation low_entailment : Reason

unfoldable pub reason_text : Reason → String
reason_text Reason.fabricated_id = "fabricated_id"
reason_text Reason.missing_citation = "missing_citation"
reason_text Reason.low_entailment = "low_entailment"

-- `Accept | Regenerate`, and `Accept | Uncertain` after `finalize_sentence`
pub data Verdict (F : Type 0) : Type 0 where
  accept : String → List (Citation F) → Verdict F
  regenerate : Reason → Verdict F

pub data Outcome (F : Type 0) : Type 0 where
  accepted : String → List (Citation F) → Outcome F
  uncertain : Reason → Outcome F

abbrev pub is_nil {ℓ} : {A : Type ℓ} → List A → Bool
is_nil [] = true
is_nil (x ∷ xs) = false

abbrev pub EvidenceByTag : Type 0
EvidenceByTag = Dict String EvidenceChunk

-- `[evidence_by_tag[tag] for tag in tags]`, once every tag is known to be there
abbrev pub resolve : EvidenceByTag → List String → List EvidenceChunk
resolve d [] = []
resolve d (t ∷ ts) = elim (lookup t d) [ none ↦ resolve d ts | some ec ↦ ec ∷ resolve d ts ]

abbrev pub has_unknown : EvidenceByTag → List String → Bool
has_unknown d tags = any (λ t. not (contains t d)) tags

module _ {F : Type 0} ⦃fl : Float F⦄ ⦃u : Unicode⦄ where
  unfoldable pub lexical_overlap : String → String → F
  unfolding tokenize
  lexical_overlap sentence chunk_text =
      let sentence_tokens = unique (tokenize sentence) in
      let chunk_tokens = unique (tokenize chunk_text) in
      if is_nil sentence_tokens || is_nil chunk_tokens
      then zero_float
      else fl.div (fl.of_ℕ (length (keep (λ t. any (λ s. s == t) chunk_tokens) sentence_tokens)))
          (fl.of_ℕ (length sentence_tokens))

  -- `max(lexical_overlap(sentence, ec.text) for ec in resolved)`, from the first on
  unfoldable pub best_overlap : String → F → List EvidenceChunk → F
  best_overlap sentence best [] = best
  best_overlap sentence best (ec ∷ ecs) =
      best_overlap sentence
        (if less best (lexical_overlap sentence ec.text)
          then lexical_overlap sentence ec.text
          else best)
        ecs

  abbrev pub citation_of : (ℕ → String) → ℕ → String → EvidenceChunk → Citation F
  citation_of ulid minted sentence ec = record {
    citation_id = ulid minted;
    answer_version_id = "";
    chunk_id = ec.chunk_id;
    doc_id = ec.doc_id;
    section = ec.section;
    claim_text = sentence;
    entailment_score = lexical_overlap sentence ec.text;
  }

  unfoldable pub citations_of : (ℕ → String) → ℕ → String → List EvidenceChunk → List (Citation F)
  citations_of ulid minted sentence [] = []
  citations_of ulid minted sentence (ec ∷ ecs) =
      citation_of ulid minted sentence ec ∷ citations_of ulid (suc minted) sentence ecs

  -- The verdict on the chunks that the tags of a sentence name.
  unfoldable pub judge : (ℕ → String) → ℕ → String → List EvidenceChunk → F → Verdict F
  unfolding best_overlap citations_of
  judge ulid minted sentence [] entailment_min = regenerate Reason.missing_citation
  judge ulid minted sentence (ec ∷ ecs) entailment_min =
      if less (best_overlap sentence (lexical_overlap sentence ec.text) ecs) entailment_min
      then regenerate Reason.low_entailment
      else accept sentence (citations_of ulid minted sentence (ec ∷ ecs))

  -- `validate_sentence(sentence, evidence_by_tag, entailment_min=…)`
  unfoldable pub validate_sentence : (ℕ → String) → ℕ → String → EvidenceByTag → F → Verdict F
  unfolding judge
  validate_sentence ulid minted sentence evidence_by_tag entailment_min =
      let tags = extract_citation_tags sentence in
      if has_unknown evidence_by_tag tags
      then regenerate Reason.fabricated_id
      else if is_nil tags
      then regenerate Reason.missing_citation
      else judge ulid minted sentence (resolve evidence_by_tag tags) entailment_min

  -- `finalize_sentence(sentence, evidence_by_tag, entailment_min=…)`
  unfoldable pub finalize_sentence : (ℕ → String) → ℕ → String → EvidenceByTag → F → Outcome F
  unfolding validate_sentence
  finalize_sentence ulid minted sentence evidence_by_tag entailment_min =
      elim (validate_sentence ulid minted sentence evidence_by_tag entailment_min) [
        | accept text citations ↦ accepted text citations
        | regenerate reason ↦ uncertain reason
      ]

unfoldable pub uncertainty_text : Reason → String
unfolding reason_text
uncertainty_text reason =
    str_append "[Unable to verify this claim from the retrieved evidence: "
      (str_append (reason_text reason) ".]")

-- `stamp_citation_ids(citations, answer_version_id)`
unfoldable pub stamp_citation_ids : {F : Type 0} → List (Citation F) → String → List (Citation F)
stamp_citation_ids [] id = []
stamp_citation_ids (c ∷ cs) id = record c { answer_version_id = id } ∷ stamp_citation_ids cs id

abbrev in_pair : String → EvidenceChunk → Bool
in_pair pair_id ec = elim ec.contradiction_pair_id [ none ↦ false | some p ↦ p == pair_id ]

-- `contradiction_note(evidence_by_tag, pair_id)`
unfoldable pub contradiction_note : EvidenceByTag → String → String
unfolding format_citation_tag join
contradiction_note evidence_by_tag pair_id =
    let tags = sort_by text_leb (
      map (λ ec. format_citation_tag ec.doc_id ec.section)
        (keep (in_pair pair_id) (values evidence_by_tag))) in
    str_append "Note: sources "
      (str_append (join " and " tags) " disagree — state both values explicitly.")
