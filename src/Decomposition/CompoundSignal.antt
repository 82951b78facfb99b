-- ===== src/Decomposition/CompoundSignal.antt =====
-- app/decomposition/multi_intent.py: `has_compound_signal`, on spaCy's dependency parse.
use streaming_rag.Prelude.{
  ℕ, suc, ◌+◌, String, Bool, true, false, ◌&&◌, none, some, List, [], ◌∷◌, ◌++◌, map, string_eq,
  ◌==◌, if◌then◌else◌, ltb, leb, keep, get_elem?, length, Result, ok, raise, key_error, ◌>>=◌, min,
  max,
}
use streaming_rag.Text.{Unicode, strip, is_blank}
use streaming_rag.Models.{Slot}
use streaming_rag.Controller.Extraction.{Token, Nlp, meta_of}
use streaming_rag.Grounding.Tags.{unique}

pub record Hit : Type 0 where
  pub slot : String
  pub start : ℕ
  pub end : ℕ

-- `CorpusMatcher.raw_matches`
unfoldable pub raw_matches : List (Slot × String) → List (ℕ × ℕ × ℕ) → Result (List Hit)
raw_matches meta [] = ok []
raw_matches meta ((i, s, e) ∷ hits) = elim (get_elem? meta i) [
  | none ↦ raise key_error
  | some m ↦ do
    rest ← raw_matches meta hits
    ok (record { slot = m.0.name; start = s; end = e } ∷ rest)
]

abbrev smallest : ℕ → List ℕ → ℕ
smallest n [] = n
smallest n (m ∷ ms) = smallest (min n m) ms

abbrev largest : ℕ → List ℕ → ℕ
largest n [] = n
largest n (m ∷ ms) = largest (max n m) ms

-- `_subtree_bounds`: the span of token indices. A subtree holds its token.
unfoldable pub subtree_bounds : ℕ → Token → ℕ × ℕ
subtree_bounds i t = (smallest i t.subtree, largest i t.subtree + 1)

-- The slots with a hit inside a span.
abbrev slots_within : ℕ × ℕ → List Hit → List String
slots_within b hits = unique (map (λ h. h.slot) (keep (λ h. leb b.0 h.start && leb h.end b.1) hits))

abbrev with_dep : String → List Token → List ℕ → List (ℕ × Token)
with_dep dep doc [] = []
with_dep dep doc (i ∷ is) = elim (get_elem? doc i) [
  | none ↦ with_dep dep doc is
  | some t ↦ if t.dep == dep then (i, t) ∷ with_dep dep doc is else with_dep dep doc is
]

abbrev slot_sets : List Hit → List (ℕ × Token) → List (List String)
slot_sets hits [] = []
slot_sets hits ((i, t) ∷ ts) = slots_within (subtree_bounds i t) hits ∷ slot_sets hits ts

abbrev union : List (List String) → List String
union [] = []
union (s ∷ ss) = s ++ union ss

abbrev nonempty : List String → Bool
nonempty [] = false
nonempty (s ∷ ss) = true

-- One round of the loop over heads.
unfoldable pub joins_slots : List Token → List Hit → ℕ → Token → Bool
unfolding subtree_bounds
joins_slots doc hits i head =
    let conjuncts = (i, head) ∷ with_dep "conj" doc head.children in
    let sets = slot_sets hits conjuncts in
    if leb 1 (length (with_dep "cc" doc head.children))
    then leb 2 (length conjuncts)
      && leb 2 (length (unique (union sets)))
      && leb 2 (length (keep nonempty sets))
    else false

abbrev some_head : List Token → List Hit → ℕ → List Token → Bool
some_head doc hits i [] = false
some_head doc hits i (t ∷ ts) =
    let rest = some_head doc hits (suc i) ts in if joins_slots doc hits i t then true else rest

module _ ⦃u : Unicode⦄ (nlp : Nlp) where
  unfoldable pub has_compound_signal : String → String → Result Bool
  unfolding joins_slots raw_matches strip
  has_compound_signal text corpus_id = if is_blank (strip text) then ok false else do
    schema ← nlp.slot_schema corpus_id
    let meta = meta_of schema.slots
    hits ← raw_matches meta (nlp.phrase_matches (map (λ m. m.1) meta) text)
    ok (if ltb (length hits) 2 then false else some_head (nlp.tokens text) hits 0 (nlp.tokens text))
