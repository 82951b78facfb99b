-- ===== src/Corpus/Slots.antt =====
-- `load_slot_schema` of app/core/slots.py. Reading the file, UTF-8, YAML and pydantic's types are
-- outside: a file is what they make of it.
pub mod Distinct
pub mod Valid
use streaming_rag.Prelude.{
  ℕ, zero, suc, ◌+◌, ◌≤◌, ◌≡◌, String, Char, code, Bool, true, false, not, ◌&&◌, ◌||◌, Option, none,
  some, or_else, List, [], ◌∷◌, map, length, any, keep, ◌==◌, string_eq, nat_eq, if◌then◌else◌, ltb,
  leb, eqb, Result, ok, raise, external,
}
use streaming_rag.Text.{Unicode, strip, is_blank}
use streaming_rag.Models.{Slot, SlotSchema, ValueType}
use streaming_rag.Grounding.Tags.{unique}
use streaming_rag.Grounding.CitationValidator.{is_nil}
use streaming_rag.Session.Store.{validate_corpus_id}

-- An entry of `slots` whose values have the types of `Slot`'s fields; `has_extra` when it has a key
-- that is none of them.
pub record RawSlot : Type 0 where
  pub name : String
  pub patterns : List String
  pub value_type : Option String
  pub is_entity_key : Option Bool
  pub has_extra : Bool

-- The mapping of a file: its keys, the `slots` value, none when it is no list of such entries, and
-- the declared `corpus_id`.
pub record RawSchema : Type 0 where
  pub keys : List String
  pub slots : Option (List RawSlot)
  pub corpus_id : Option String

pub data SlotsFile : Type 0 where
  missing not_utf8 not_yaml not_mapping : SlotsFile
  mapping : RawSchema → SlotsFile

abbrev is_lower : Char → Bool
is_lower c = leb b'a' (code c) && leb (code c) b'z'

abbrev is_name_char : Char → Bool
is_name_char c = is_lower c || (leb b'0' (code c) && leb (code c) b'9') || eqb (code c) b'_'

-- `[a-z0-9_]{0,n}` to the end of the text
abbrev is_name_rest : ℕ → String → Bool
is_name_rest n String.[] = true
is_name_rest zero (String.◌∷◌ c s) = false
is_name_rest (suc n) (String.◌∷◌ c s) = is_name_char c && is_name_rest n s

-- `_SLOT_NAME_RE.fullmatch`
unfoldable pub is_slot_name : String → Bool
is_slot_name String.[] = false
is_slot_name (String.◌∷◌ c s) = is_lower c && is_name_rest 63 s

-- `_check_value_type`
unfoldable pub value_type_of : String → Option ValueType
value_type_of s =
    if s == "numeric"
    then some ValueType.numeric
    else if s == "categorical"
    then some ValueType.categorical
    else if s == "date"
    then some ValueType.date
    else if s == "text"
    then some ValueType.text
    else none

-- `l.count(n)`
abbrev pub count_of : String → List String → ℕ
count_of n [] = 0
count_of n (m ∷ ms) = let rest = count_of n ms in if m == n then suc rest else rest

-- `duplicates` is not empty
unfoldable pub has_duplicates : List String → Bool
has_duplicates names = any (λ n. ltb 1 (count_of n names)) names

abbrev pub schema_error : {A : Type 0} → Result A
schema_error = raise (external "SlotSchemaError")

module _ ⦃u : Unicode⦄ where
  -- `_check_patterns`
  unfoldable pub has_patterns : List String → Bool
  unfolding strip
  has_patterns v =
      not (is_nil v) && (not (any (λ p. is_blank (strip p)) v) && length (unique v) == length v)

  -- The slot of an entry whose value type is read.
  unfoldable pub typed_slot : RawSlot → Option ValueType → Option Slot
  unfolding is_slot_name has_patterns
  typed_slot r none = none
  typed_slot r (some t) =
      if not r.has_extra && (is_slot_name r.name && has_patterns r.patterns)
      then some (record {
        name = r.name;
        patterns = r.patterns;
        value_type = t;
        is_entity_key = or_else r.is_entity_key false;
      })
      else none

  -- `Slot(**raw)`, none when a validator raises
  unfoldable pub slot_of : RawSlot → Option Slot
  unfolding typed_slot value_type_of
  slot_of r = typed_slot r (value_type_of (or_else r.value_type "text"))

  abbrev pub add_slot : Option Slot → Option (List Slot) → Option (List Slot)
  add_slot (some s) (some ss) = some (s ∷ ss)
  add_slot _ _ = none

  unfoldable pub slots_of : List RawSlot → Option (List Slot)
  unfolding slot_of
  slots_of [] = some []
  slots_of (r ∷ rs) = add_slot (slot_of r) (slots_of rs)

  -- `SlotSchema(corpus_id=…, slots=…)`
  unfoldable pub schema_of : String → Option (List Slot) → Result SlotSchema
  unfolding has_duplicates
  schema_of corpus_id none = schema_error
  schema_of corpus_id (some slots) =
      if not (is_nil slots)
        && (not (has_duplicates (map (λ s. s.name) slots))
            && leb (length (keep (λ s. s.is_entity_key) slots)) 1)
      then ok (record { corpus_id = corpus_id; slots = slots })
      else schema_error

  -- `raw["slots"]` as pydantic reads it
  abbrev pub read_slots : Option (List RawSlot) → Option (List Slot)
  read_slots none = none
  read_slots (some rs) = slots_of rs

  abbrev pub is_declared : String → Option String → Bool
  is_declared corpus_id none = true
  is_declared corpus_id (some c) = c == corpus_id

  abbrev pub is_allowed : String → Bool
  is_allowed k = any (λ a. a == k) ("slots" ∷ "corpus_id" ∷ "description" ∷ [])

  unfoldable pub read_file : String → SlotsFile → Result SlotSchema
  unfolding slots_of schema_of
  read_file corpus_id (mapping raw) =
      if not (any (λ k. k == "slots") raw.keys)
        || (any (λ k. not (is_allowed k)) raw.keys || not (is_declared corpus_id raw.corpus_id))
      then schema_error
      else schema_of corpus_id (read_slots raw.slots)
  read_file corpus_id _ = schema_error

  -- `load_slot_schema`, with what is at `slots_path`
  unfoldable pub load_slot_schema : String → SlotsFile → Result SlotSchema
  unfolding validate_corpus_id read_file
  load_slot_schema corpus_id file = at_path (validate_corpus_id corpus_id)
    where
      at_path : Result String → Result SlotSchema
      at_path (raise e) = schema_error
      at_path (ok c) = read_file corpus_id file
