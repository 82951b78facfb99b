-- ===== src/Controller/Extraction.antt =====
-- app/controller/entity_extraction.py: what `CorpusMatcher` makes of the phrase matcher's hits.
-- spaCy's tokenizer and `PhraseMatcher` are a parameter.
use streaming_rag.Prelude.{
  ℕ, ◌+◌, ◌-◌, String, Bool, false, Option, none, some, List, [], ◌∷◌, ◌++◌, map, not,
  if◌then◌else◌, Dict, lookup, insert, keep, take, drop, get_elem?, string_eq, ◌==◌, Result, ok,
  raise, key_error, ◌>>=◌, eqb, code, length,
}
use Prim.Native.Nat.{min}
use mathlib.Core.List.{reverse}
use streaming_rag.Text.{Unicode, strip, is_blank}
use streaming_rag.Models.{Slot, SlotSchema, ValueType}

-- What is read of a spaCy token. `children` and `subtree` hold token indices.
pub record Token : Type 0 where
  pub text : String
  pub like_num : Bool
  pub dep : String
  pub children : List ℕ
  pub subtree : List ℕ

-- spaCy and the loaded slot schemas. `phrase_matches patterns text` lists the hits of the patterns,
-- as a pattern's position in the list and the span of tokens; `slot_schema` reads slots.yaml.
pub record Nlp : Type 0 where
  pub tokens : String → List Token
  pub phrase_matches : List String → String → List (ℕ × ℕ × ℕ)
  pub slot_schema : String → Result SlotSchema

abbrev with_slot : Slot → List String → List (Slot × String)
with_slot s [] = []
with_slot s (p ∷ ps) = (s, p) ∷ with_slot s ps

-- `CorpusMatcher._meta`, by the position of the pattern.
abbrev pub meta_of : List Slot → List (Slot × String)
meta_of [] = []
meta_of (s ∷ ss) = with_slot s s.patterns ++ meta_of ss

-- `token.text.replace(",", "")`
abbrev pub drop_commas : String → String
drop_commas String.[] = String.[]
drop_commas (String.◌∷◌ c s) =
    let rest = drop_commas s in if eqb (code c) b',' then rest else String.◌∷◌ c rest

abbrev pub first_number : List Token → Option String
first_number [] = none
first_number (t ∷ ts) =
    let rest = first_number ts in if t.like_num then some (drop_commas t.text) else rest

-- `doc[a:b]`
abbrev pub slice : List Token → ℕ → ℕ → List Token
slice doc a b = take (b - a) (drop a doc)

abbrev pub numeric_lookaround : ℕ
numeric_lookaround = 2

-- `CorpusMatcher._numeric_value`; `start - 2` stops at 0, as `max(0, …)` does.
unfoldable pub numeric_value : List Token → ℕ → ℕ → Option String
numeric_value doc start end = first_number (
    reverse (slice doc (start - numeric_lookaround) start)
    ++ slice doc end (min (length doc) (end + numeric_lookaround)))

-- What one hit writes.
unfoldable pub hit_value : List Token → Slot → String → ℕ → ℕ → Option String
unfolding numeric_value
hit_value doc slot pattern start end = elim slot.value_type [
  | ValueType.numeric ↦ numeric_value doc start end
  | _ ↦ some pattern
]

abbrev pub put_some : String → Option String → Dict String String → Dict String String
put_some k none d = d
put_some k (some v) d = insert k v d

-- The loop of `CorpusMatcher.extract`: the last hit of a slot wins.
unfoldable pub extract_hits :
    List (Slot × String)
    → List Token
    → List (ℕ × ℕ × ℕ)
    → Dict String String
    → Result (Dict String String)
unfolding hit_value
extract_hits meta doc [] entities = ok entities
extract_hits meta doc ((i, start, end) ∷ hits) entities = elim (get_elem? meta i) [
  | none ↦ raise key_error
  | some m ↦
      extract_hits meta doc hits (put_some m.0.name (hit_value doc m.0 m.1 start end) entities)
]

module _ ⦃u : Unicode⦄ (nlp : Nlp) where
  -- `extract_entities(text, corpus_id)`
  unfoldable pub extract_entities : String → String → Result (Dict String String)
  unfolding extract_hits strip
  extract_entities text corpus_id = if is_blank (strip text) then ok [] else do
    schema ← nlp.slot_schema corpus_id
    let meta = meta_of schema.slots
    extract_hits meta (nlp.tokens text) (nlp.phrase_matches (map (λ m. m.1) meta) text) []

-- `old.get(k) == v`
abbrev pub has_value : Option String → String → Bool
has_value none v = false
has_value (some w) v = w == v

-- `entity_diff(new, old)`
unfoldable pub entity_diff : Dict String String → Dict String String → Dict String String
entity_diff new old = keep (λ p. not (has_value (lookup p.0 old) p.1)) new
