-- ===== src/Models.antt =====
-- app/models/ and app/core/slots.py: the records that the stages pass on, as they are validated.
-- Identifiers, texts and times are `String` and `ℕ`; scores are floats (`Float`).
pub mod Events
use streaming_rag.Prelude.{
  ℕ, suc, String, Bool, true, false, Option, none, some, List, [], ◌∷◌, Dict,
}

-- chunk.py, `RetrievedChunk`
pub record RetrievedChunk (F : Type 0) : Type 0 where
  pub chunk_id : String
  pub doc_id : String
  pub corpus_id : String
  pub section : String
  pub text : String
  pub chunk_index : ℕ
  pub token_count : ℕ
  pub score : F
  pub rank : ℕ

-- evidence.py
pub record Evidence (F : Type 0) : Type 0 where
  pub evidence_id : String
  pub sub_query_id : String
  pub chunk_id : String
  pub fusion_score : F
  pub rerank_score : Option F
  pub duplicate_of : Option String
  pub contradiction_pair_id : Option String

-- sub_query.py; `created_at` is the clock's and read by nothing
pub record SubQuery : Type 0 where
  pub sub_query_id : String
  pub session_id : String
  pub text : String
  pub intent_label : String
  pub parent_transcript_offset : ℕ
  pub merged_from : List String

-- citation.py
pub record Citation (F : Type 0) : Type 0 where
  pub citation_id : String
  pub answer_version_id : String
  pub chunk_id : String
  pub doc_id : String
  pub section : String
  pub claim_text : String
  pub entailment_score : F

-- answer_version.py; `created_at` is read by nothing
pub record AnswerVersion : Type 0 where
  pub answer_version_id : String
  pub session_id : String
  pub version_no : ℕ
  pub text : String
  pub citations : List String
  pub supersedes : Option ℕ
  pub carried_forward_claim_ids : List String
  pub new_claim_ids : List String

-- core/slots.py, the four value types
pub data ValueType : Type 0 where
  numeric categorical date text : ValueType

pub record Slot : Type 0 where
  pub name : String
  pub patterns : List String
  pub value_type : ValueType
  pub is_entity_key : Bool

pub record SlotSchema : Type 0 where
  pub corpus_id : String
  pub slots : List Slot

abbrev pub entity_key_of : List Slot → Option String
entity_key_of [] = none
entity_key_of (s ∷ ss) = elim s.is_entity_key [ true ↦ some s.name | false ↦ entity_key_of ss ]

-- `SlotSchema.entity_key_slot`
unfoldable pub entity_key_slot : SlotSchema → Option String
entity_key_slot schema = entity_key_of schema.slots
