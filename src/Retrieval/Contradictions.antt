-- ===== src/Retrieval/Contradictions.antt =====
-- `flag_contradictions` of app/retrieval/fusion.py: rows about one entity that disagree on a number
-- share a pair id. A row that the code mutates is a new row here.
use streaming_rag.Prelude.{
  ℕ, suc, String, Bool, false, not, Option, none, some, List, [], ◌∷◌, ◌==◌, string_eq, nat_eq,
  if◌then◌else◌, Dict, lookup, Result, ok, ◌>>=◌, keep, is_some, map,
}
use streaming_rag.Text.{Unicode}
use streaming_rag.Models.{Evidence, Slot, ValueType, entity_key_slot}
use streaming_rag.Controller.Extraction.{Nlp, extract_entities, has_value}
use streaming_rag.Retrieval.Fusion.{ChunksById, chunk_at}

-- `a.contradiction_pair_id or b.contradiction_pair_id or new_id()`, with the number minted.
abbrev pair_id : (ℕ → String) → ℕ → Option String → Option String → String × ℕ
pair_id ulid minted (some p) q = (p, minted)
pair_id ulid minted none (some q) = (q, minted)
pair_id ulid minted none none = (ulid minted, suc minted)

abbrev disagree : Option String → Option String → Bool
disagree (some v) (some w) = not (v == w)
disagree _ _ = false

-- The loop over the numeric slots, for two rows with their pair ids.
unfoldable pub pair_slots :
    (ℕ → String)
    → List String
    → Dict String String
    → Dict String String
    → ℕ
    → Option String
    → Option String
    → Option String × Option String × ℕ
pair_slots ulid [] a b minted p q = (p, q, minted)
pair_slots ulid (slot ∷ slots) a b minted p q =
    let (k, minted') = pair_id ulid minted p q in
    let next = pair_slots ulid slots a b minted' (some k) (some k) in
    let skip = pair_slots ulid slots a b minted p q in
    if disagree (lookup slot a) (lookup slot b) then next else skip

-- The loop over `active[i + 1:]`: the row's pair id, those of the rows behind it, and the number
-- minted.
unfoldable pub pair_row :
    (ℕ → String)
    → List String
    → String
    → String
    → Dict String String
    → Option String
    → List (Dict String String)
    → List (Option String)
    → ℕ
    → Option String × List (Option String) × ℕ
unfolding pair_slots
pair_row ulid slots key value a p (b ∷ bs) (q ∷ qs) minted =
    let (p', q', minted') =
      if has_value (lookup key b) value
      then pair_slots ulid slots a b minted p q
      else (p, q, minted) in
    let (p'', qs', minted'') = pair_row ulid slots key value a p' bs qs minted' in
    (p'', q' ∷ qs', minted'')
pair_row ulid slots key value a p bs qs minted = (p, qs, minted)

-- The outer loop over `active`, on the entities extracted from each row's chunk.
unfoldable pub pair_rows :
    (ℕ → String)
    → List String
    → String
    → List (Dict String String)
    → List (Option String)
    → ℕ
    → List (Option String) × ℕ
unfolding pair_row
pair_rows ulid slots key (a ∷ as') (p ∷ ps) minted = elim (lookup key a) [
  | none ↦ let (ps', minted') = pair_rows ulid slots key as' ps minted in (p ∷ ps', minted')
  | some value ↦
      let (p', ps', minted') = pair_row ulid slots key value a p as' ps minted in
      let (ps'', minted'') = pair_rows ulid slots key as' ps' minted' in (p' ∷ ps'', minted'')
]
pair_rows ulid slots key _ ps minted = (ps, minted)

abbrev pub is_active : {F : Type 0} → Evidence F → Bool
is_active e = not (is_some e.duplicate_of)

abbrev pub active_rows : {F : Type 0} → List (Evidence F) → List (Evidence F)
active_rows = keep is_active

-- The pair ids of the active rows, written back in order.
unfoldable pub put_pairs :
    {F : Type 0} → List (Evidence F) → List (Option String) → List (Evidence F)
put_pairs (e ∷ es) (p ∷ ps) =
    let taken = record e { contradiction_pair_id = p } ∷ put_pairs es ps in
    let left = e ∷ put_pairs es (p ∷ ps) in if is_active e then taken else left
put_pairs es _ = es

abbrev numeric_names : List Slot → List String
numeric_names [] = []
numeric_names (s ∷ ss) = elim s.value_type [
  | ValueType.numeric ↦ s.name ∷ numeric_names ss
  | _ ↦ numeric_names ss
]

module _ {F : Type 0} ⦃u : Unicode⦄ (nlp : Nlp) where
  unfoldable pub extract_rows :
      String → ChunksById F → List (Evidence F) → Result (List (Dict String String))
  unfolding extract_entities
  extract_rows corpus_id chunks [] = ok []
  extract_rows corpus_id chunks (e ∷ es) = do
    chunk ← chunk_at chunks e.chunk_id
    entities ← extract_entities nlp chunk.text corpus_id
    rest ← extract_rows corpus_id chunks es
    ok (entities ∷ rest)

  -- `flag_contradictions(evidence, chunks_by_id, corpus_id)`. The code runs over a set of slot
  -- names; which of them comes first changes nothing, and they are in schema order here.
  unfoldable pub flag_contradictions :
      (ℕ → String) → ℕ → List (Evidence F) → ChunksById F → String → Result (List (Evidence F) × ℕ)
  unfolding extract_rows pair_rows put_pairs entity_key_slot
  flag_contradictions ulid minted evidence chunks corpus_id = do
    schema ← nlp.slot_schema corpus_id
    elim (entity_key_slot schema) [
      | none ↦ ok (evidence, minted)
      | some key ↦ do
        extracted ← extract_rows corpus_id chunks (active_rows evidence)
        let paired =
            pair_rows ulid (numeric_names schema.slots) key extracted
              (map (λ e. e.contradiction_pair_id) (active_rows evidence)) minted
        ok (put_pairs evidence paired.0, paired.1)
    ]
