-- ===== src/Grounding/Tags.antt =====
-- app/grounding/citation_validator.py: citation tags and the lookup of evidence by tag, and `tokenize` of app/retrieval/sparse_bm25.py.
use Prim.Native.String.{◌++◌ as str_append}
use streaming_rag.Prelude.{
  String, Bool, false, not, Option, none, some, List, [], ◌∷◌, string_eq, pair_eq, ◌==◌,
  if◌then◌else◌, Dict, lookup, insert, any, is_some,
}
use streaming_rag.Float.{Float, zero_float}
use streaming_rag.Text.{Unicode, strip, lower_text}
use streaming_rag.Text.Regex.{Regex, find_all, plus, word_by, char_is}
use streaming_rag.Models.{RetrievedChunk, Evidence}
use streaming_rag.Retrieval.Fusion.{ChunksById}

-- `f"[{doc_id} {section}]"`
unfoldable pub format_citation_tag : String → String → String
format_citation_tag doc_id section =
    str_append "[" (str_append doc_id (str_append " " (str_append section "]")))

-- `f"{doc_id}::{section}"`
abbrev pub tag_key : String → String → String
tag_key doc_id section = str_append doc_id (str_append "::" section)

pub record EvidenceChunk : Type 0 where
  pub evidence_id : String
  pub chunk_id : String
  pub doc_id : String
  pub section : String
  pub text : String
  pub contradiction_pair_id : Option String

-- `[doc_id section]` tags: `\[\s*(\S+)\s+(\S+)\s*\]`
unfoldable pub citation_tag : ⦃u : Unicode⦄ → Regex
citation_tag ⦃u⦄ =
    let space = Regex.one u.is_space in
    let solid = Regex.group (plus (Regex.one (λ c. not (u.is_space c)))) in
    Regex.seq (word_by char_is "[") (
      Regex.seq (Regex.star space) (
        Regex.seq solid (
          Regex.seq (plus space)
            (Regex.seq solid (Regex.seq (Regex.star space) (word_by char_is "]"))))))

-- `set(tokens)`, as a list without doubles
abbrev pub unique : List String → List String
unique [] = []
unique (t ∷ ts) = let rest = unique ts in if any (λ s. s == t) ts then rest else t ∷ rest

module _ ⦃u : Unicode⦄ where
  abbrev keys_of_groups : List (List String) → List String
  keys_of_groups [] = []
  keys_of_groups ((d ∷ s ∷ gs) ∷ ms) = tag_key (strip d) (strip s) ∷ keys_of_groups ms
  keys_of_groups (_ ∷ ms) = keys_of_groups ms

  unfoldable pub extract_citation_tags : String → List String
  unfolding citation_tag find_all strip
  extract_citation_tags sentence = keys_of_groups (find_all citation_tag sentence)

  abbrev whole_matches : List (List String) → List String
  whole_matches [] = []
  whole_matches ((w ∷ gs) ∷ ms) = w ∷ whole_matches ms
  whole_matches (_ ∷ ms) = whole_matches ms

  -- `\w+` over the text in small letters
  unfoldable pub tokenize : String → List String
  unfolding find_all lower_text
  tokenize text =
      whole_matches (find_all (Regex.group (plus (Regex.one u.is_word))) (lower_text text))

abbrev pub under_text_keys :
    Dict (String × String) EvidenceChunk → Dict String EvidenceChunk → Dict String EvidenceChunk
under_text_keys [] d = d
under_text_keys (((doc_id, section), ec) ∷ rest) d =
    under_text_keys rest (insert (tag_key doc_id section) ec d)

module _ {F : Type 0} ⦃fl : Float F⦄ where
  -- `next((ev.fusion_score for ev in evidence if ev.evidence_id == …), 0.0)`
  abbrev score_of : String → List (Evidence F) → F
  score_of evidence_id [] = zero_float
  score_of evidence_id (e ∷ es) =
      if e.evidence_id == evidence_id then e.fusion_score else score_of evidence_id es

  -- Whether the slot of a tag is kept by the row that holds it.
  abbrev holds_slot : List (Evidence F) → Evidence F → Option EvidenceChunk → Bool
  holds_slot evidence e none = false
  holds_slot evidence e (some ec) = fl.le e.fusion_score (score_of ec.evidence_id evidence)

  abbrev pub evidence_chunk : Evidence F → RetrievedChunk F → EvidenceChunk
  evidence_chunk e c = record {
    evidence_id = e.evidence_id;
    chunk_id = e.chunk_id;
    doc_id = c.doc_id;
    section = c.section;
    text = c.text;
    contradiction_pair_id = e.contradiction_pair_id;
  }

  -- The loop of `build_evidence_lookup`; `evidence` is the whole list.
  unfoldable pub by_tag_from :
      List (Evidence F)
      → ChunksById F
      → List (Evidence F)
      → Dict (String × String) EvidenceChunk
      → Dict (String × String) EvidenceChunk
  by_tag_from evidence chunks [] by_tag = by_tag
  by_tag_from evidence chunks (e ∷ es) by_tag = by_tag_from evidence chunks es (
      if is_some e.duplicate_of then by_tag else (elim (lookup e.chunk_id chunks) [
        | none ↦ by_tag
        | some c ↦
            if holds_slot evidence e (lookup (c.doc_id, c.section) by_tag)
            then by_tag
            else insert (c.doc_id, c.section) (evidence_chunk e c) by_tag
      ]))

  unfoldable pub build_evidence_lookup :
      List (Evidence F) → ChunksById F → Dict String EvidenceChunk
  unfolding by_tag_from
  build_evidence_lookup evidence chunks =
      under_text_keys (by_tag_from evidence chunks evidence []) []
