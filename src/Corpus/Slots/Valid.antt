-- ===== src/Corpus/Slots/Valid.antt =====
-- What `load_slot_schema` of app/core/slots.py lets through.
use streaming_rag.Prelude.{
  Result-cases, ◌≤◌, ◌≡◌, refl, sym, ◌∙◌, subst, String, Bool, true, false, not, ◌&&◌, ◌||◌, Option,
  none, some, or_else, List, [], ◌∷◌, map, length, any, keep, All, ◌==◌, string_eq, nat_eq,
  if◌then◌else◌, leb, leb→le, arith, Exn, Bool-cases, inl, inr, ok, raise,
}
use streaming_rag.Text.{Unicode, strip, is_blank}
use streaming_rag.Models.{Slot, SlotSchema, ValueType, entity_key_of, entity_key_slot}
use streaming_rag.Grounding.Tags.{unique}
use streaming_rag.Grounding.CitationValidator.{is_nil}
use streaming_rag.Session.Store.{validate_corpus_id}
use streaming_rag.Corpus.Slots.{
  RawSlot, SlotsFile, mapping, is_slot_name, value_type_of, has_duplicates, schema_error,
  has_patterns, typed_slot, slot_of, add_slot, slots_of, schema_of, read_slots, is_declared,
  is_allowed, read_file, load_slot_schema,
}
use streaming_rag.Corpus.Slots.Distinct.{IsDistinct, unique-IsDistinct, has_duplicates-IsDistinct}

-- The flagged slots are the one that `entity_key_slot` names, if there is one.
abbrev pub listed : Option String → List String
listed none = []
listed (some n) = n ∷ []

module _ ⦃u : Unicode⦄ where
  abbrev pub IsSlot : Slot → Type 0
  IsSlot s =
      (is_slot_name s.name ≡ true)
      × (is_nil s.patterns ≡ false)
      × (any (λ p. is_blank (strip p)) s.patterns ≡ false)
      × IsDistinct s.patterns

  abbrev pub IsSchema : String → SlotSchema → Type 0
  IsSchema corpus_id schema =
      (schema.corpus_id ≡ corpus_id)
      × (is_nil schema.slots ≡ false)
      × IsDistinct (map (λ s. s.name) schema.slots)
      × (map (λ s. s.name) (keep (λ s. s.is_entity_key) schema.slots)
          ≡ listed (entity_key_slot schema))
      × All IsSlot schema.slots

no_more : {n : String} (slots : List Slot) → length slots ≤ 0 → n ∷ map (λ s. s.name) slots ≡ n ∷ []
no_more [] h = refl
no_more (s ∷ ss) h = absurd (omega (arith, h))

listed-entity_key :
    (slots : List Slot)
    → length (keep (λ s. s.is_entity_key) slots) ≤ 1
    → map (λ s. s.name) (keep (λ s. s.is_entity_key) slots) ≡ listed (entity_key_of slots)
listed-entity_key [] h = refl
listed-entity_key (s ∷ ss) h = elim (Bool-cases s.is_entity_key) [
  | inl e ↦ rw e (no_more (keep (λ x. x.is_entity_key) ss) (ground (arith, e, h)))
  | inr e ↦ rw e (listed-entity_key ss (ground (arith, e, h)))
]

&&-left : (a b : Bool) → a && b ≡ true → a ≡ true
&&-left true b h = refl
&&-left false b h = h

&&-right : (a b : Bool) → a && b ≡ true → b ≡ true
&&-right true b h = h
&&-right false b h = cc h

not-true : (b : Bool) → not b ≡ true → b ≡ false
not-true true h = sym h
not-true false h = refl

schema_error-ok : {A : Type 0} {a : A} → schema_error ≡ ok a → ⊥
schema_error-ok h = cc h

-- A value that a test lets through.
if-ok :
    {A : Type 0} (b : Bool) (a : A) {end : A}
    → (if b then ok a else schema_error) ≡ ok end
    → (b ≡ true) × (a ≡ end)
if-ok true a h = (refl, cc h)
if-ok false a h = cc h

if-some :
    {A : Type 0} (b : Bool) (a : A) {end : A}
    → (if b then some a else none) ≡ some end
    → (b ≡ true) × (a ≡ end)
if-some true a h = (refl, cc h)
if-some false a h = cc h

module _ ⦃u : Unicode⦄ where
  has_patterns-IsDistinct :
      (v : List String)
      → has_patterns v ≡ true
      → (is_nil v ≡ false) × (any (λ p. is_blank (strip p)) v ≡ false) × IsDistinct v
  unfolding has_patterns
  has_patterns-IsDistinct v h =
      let k = &&-right (not (is_nil v)) _ h in
      (
        not-true _ (&&-left (not (is_nil v)) _ h),
        not-true _ (&&-left _ _ k),
        unique-IsDistinct v (
            (nat_eq.equal_iff (length (unique v)) (length v)).0
              (&&-right (not (any (λ p. is_blank (strip p)) v)) _ k)),
      )

  typed_slot-IsSlot :
      (r : RawSlot) (t : Option ValueType) (s : Slot) → typed_slot r t ≡ some s → IsSlot s
  unfolding typed_slot
  typed_slot-IsSlot r none s h = cc h
  typed_slot-IsSlot r (some t) s h =
      let (passed, same) =
        if-some (not r.has_extra && (is_slot_name r.name && has_patterns r.patterns)) _ h in
      let k = &&-right (not r.has_extra) _ passed in
      let (filled, shown, apart) =
        has_patterns-IsDistinct r.patterns (&&-right (is_slot_name r.name) _ k) in
      subst IsSlot same (&&-left (is_slot_name r.name) _ k, filled, shown, apart)

  slot_of-IsSlot : (r : RawSlot) (s : Slot) → slot_of r ≡ some s → IsSlot s
  unfolding slot_of
  slot_of-IsSlot r s h = typed_slot-IsSlot r (value_type_of (or_else r.value_type "text")) s h

  add_slot-IsSlot :
      (o : Option Slot) (os : Option (List Slot)) (ss : List Slot)
      → ((s : Slot) → o ≡ some s → IsSlot s)
      → ((rest : List Slot) → os ≡ some rest → All IsSlot rest)
      → add_slot o os ≡ some ss
      → All IsSlot ss
  add_slot-IsSlot none os ss a b h = cc h
  add_slot-IsSlot (some s) none ss a b h = cc h
  add_slot-IsSlot (some s) (some rest) ss a b h =
      subst (λ o. All IsSlot (or_else o [])) h (a s refl, b rest refl)

  slots_of-IsSlot : (rs : List RawSlot) (ss : List Slot) → slots_of rs ≡ some ss → All IsSlot ss
  unfolding slots_of
  slots_of-IsSlot [] ss h = subst (λ o. All IsSlot (or_else o [])) h tt
  slots_of-IsSlot (r ∷ rs) ss h =
      add_slot-IsSlot (slot_of r) (slots_of rs) ss (slot_of-IsSlot r) (slots_of-IsSlot rs) h

  read_slots-IsSlot :
      (o : Option (List RawSlot)) (ss : List Slot) → read_slots o ≡ some ss → All IsSlot ss
  read_slots-IsSlot none ss h = cc h
  read_slots-IsSlot (some rs) ss h = slots_of-IsSlot rs ss h

  schema_of-IsSchema :
      (corpus_id : String) (o : Option (List Slot)) (schema : SlotSchema)
      → ((ss : List Slot) → o ≡ some ss → All IsSlot ss)
      → schema_of corpus_id o ≡ ok schema
      → IsSchema corpus_id schema
  unfolding schema_of has_duplicates entity_key_slot
  schema_of-IsSchema corpus_id none schema slots h = cc h
  schema_of-IsSchema corpus_id (some ss) schema slots h =
      let (passed, same) =
        if-ok
          (not (is_nil ss)
            && (not (has_duplicates (map (λ s. s.name) ss))
                && leb (length (keep (λ s. s.is_entity_key) ss)) 1))
          _ h in
      let k = &&-right (not (is_nil ss)) _ passed in
      subst (IsSchema corpus_id) same (
        refl,
        not-true _ (&&-left (not (is_nil ss)) _ passed),
        has_duplicates-IsDistinct (map (λ s. s.name) ss)
            (not-true _ (&&-left (not (has_duplicates (map (λ s. s.name) ss))) _ k)),
        listed-entity_key ss
            (leb→le _ _ (&&-right (not (has_duplicates (map (λ s. s.name) ss))) _ k)),
        slots ss refl,
      )

  read_file-IsSchema :
      (corpus_id : String) (file : SlotsFile) (schema : SlotSchema)
      → read_file corpus_id file ≡ ok schema
      → IsSchema corpus_id schema
  unfolding read_file
  read_file-IsSchema corpus_id (mapping raw) schema h =
      by_keys
        (not (any (λ k. k == "slots") raw.keys)
          || (any (λ k. not (is_allowed k)) raw.keys || not (is_declared corpus_id raw.corpus_id)))
        h
    where
      by_keys :
          (b : Bool)
          → (if b then schema_error else schema_of corpus_id (read_slots raw.slots)) ≡ ok schema
          → IsSchema corpus_id schema
      by_keys true h = absurd (schema_error-ok h)
      by_keys false h =
          schema_of-IsSchema corpus_id (read_slots raw.slots) schema (read_slots-IsSlot raw.slots) h
  read_file-IsSchema corpus_id SlotsFile.missing schema h = absurd (schema_error-ok h)
  read_file-IsSchema corpus_id SlotsFile.not_utf8 schema h = absurd (schema_error-ok h)
  read_file-IsSchema corpus_id SlotsFile.not_yaml schema h = absurd (schema_error-ok h)
  read_file-IsSchema corpus_id SlotsFile.not_mapping schema h = absurd (schema_error-ok h)

  load_slot_schema-bad_id :
      (corpus_id : String) (file : SlotsFile)
      → ((e : Exn) × (validate_corpus_id corpus_id ≡ raise e))
      → load_slot_schema corpus_id file ≡ schema_error
  unfolding load_slot_schema
  load_slot_schema-bad_id corpus_id file (e, bad) = rw bad refl

  load_slot_schema-good_id :
      (corpus_id : String) (file : SlotsFile) (c : String)
      → validate_corpus_id corpus_id ≡ ok c
      → load_slot_schema corpus_id file ≡ read_file corpus_id file
  unfolding load_slot_schema
  load_slot_schema-good_id corpus_id file c good = rw good refl

  -- A schema that is loaded is the corpus's, with at least one slot, no two of one name, each with
  -- a well-formed name and patterns that are there, not blank and all different; and the slots
  -- flagged as entity key are the one that `entity_key_slot` names, or none.
  pub load_slot_schema-IsSchema :
      (corpus_id : String) (file : SlotsFile) (schema : SlotSchema)
      → load_slot_schema corpus_id file ≡ ok schema
      → IsSchema corpus_id schema
  load_slot_schema-IsSchema corpus_id file schema h =
      elim (Result-cases (validate_corpus_id corpus_id)) [
        | inl bad ↦ absurd (schema_error-ok (sym (load_slot_schema-bad_id corpus_id file bad) ∙ h))
        | inr (c, good) ↦
            read_file-IsSchema corpus_id file schema
              (sym (load_slot_schema-good_id corpus_id file c good) ∙ h)
      ]
