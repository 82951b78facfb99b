-- ===== src/Generation/PromptBuilder.antt =====
-- app/generation/prompt_builder.py
use Prim.Native.String.{◌++◌ as str_append}
use streaming_rag.Prelude.{
  ℕ, zero, suc, ◌/◌, ◌%◌, String, Option, none, some, List, [], ◌∷◌, ◌++◌, map, string_eq, ◌==◌,
  if◌then◌else◌, keys, values, lookup, sort_by, ltb,
}
use streaming_rag.Text.{join, text_leb}
use streaming_rag.Models.{SubQuery, AnswerVersion}
use streaming_rag.Grounding.Tags.{EvidenceChunk, format_citation_tag, unique}
use streaming_rag.Grounding.CitationValidator.{EvidenceByTag, contradiction_note}

abbrev digit : ℕ → String
digit zero = "0"
digit (suc zero) = "1"
digit (suc (suc zero)) = "2"
digit (suc (suc (suc zero))) = "3"
digit (suc (suc (suc (suc zero)))) = "4"
digit (suc (suc (suc (suc (suc zero))))) = "5"
digit (suc (suc (suc (suc (suc (suc zero)))))) = "6"
digit (suc (suc (suc (suc (suc (suc (suc zero))))))) = "7"
digit (suc (suc (suc (suc (suc (suc (suc (suc zero)))))))) = "8"
digit _ = "9"

-- `str(n)`; a number has fewer digits than its size and one more.
unfoldable pub decimal_from : ℕ → ℕ → String
decimal_from zero n = ""
decimal_from (suc fuel) n =
    let front = decimal_from fuel (n / 10) in
    if ltb n 10 then digit n else str_append front (digit (n % 10))

abbrev pub decimal : ℕ → String
decimal n = decimal_from (suc n) n

abbrev evidence_line : EvidenceByTag → String → List String
evidence_line d tag = elim (lookup tag d) [
  | none ↦ []
  | some ec ↦ str_append (format_citation_tag ec.doc_id ec.section) (str_append ": " ec.text) ∷ []
]

abbrev evidence_lines : EvidenceByTag → List String → List String
evidence_lines d [] = []
evidence_lines d (t ∷ ts) = evidence_line d t ++ evidence_lines d ts

abbrev pair_ids : List EvidenceChunk → List String
pair_ids [] = []
pair_ids (ec ∷ ecs) = elim ec.contradiction_pair_id [
  | none ↦ pair_ids ecs
  | some p ↦ if p == "" then pair_ids ecs else p ∷ pair_ids ecs
]

abbrev notes : EvidenceByTag → List String → List String
notes d [] = []
notes d (p ∷ ps) = "" ∷ map (contradiction_note d) (p ∷ ps)

abbrev prior_lines : Option AnswerVersion → List String
prior_lines none = []
prior_lines (some v) =
    ""
    ∷ str_append "Prior answer (version "
        (str_append (decimal v.version_no) (str_append "): " v.text))
    ∷ "This turn refines that answer with new information — update it accordingly."
    ∷ []

-- `build_prompt(sub_queries, evidence_by_tag, prior_version=…)`
unfoldable pub build_prompt : List SubQuery → EvidenceByTag → Option AnswerVersion → String
unfolding contradiction_note format_citation_tag join decimal_from
build_prompt sub_queries evidence_by_tag prior_version = join "\n" (
    "Questions to answer:"
    ∷ (map (λ sq. str_append "- " sq.text) sub_queries
        ++ (""
            ∷ "Evidence block (cite using the exact tag shown):"
            ∷ (evidence_lines evidence_by_tag (sort_by text_leb (keys evidence_by_tag))
                ++ (notes evidence_by_tag
                      (sort_by text_leb (unique (pair_ids (values evidence_by_tag))))
                    ++ prior_lines prior_version)))))
