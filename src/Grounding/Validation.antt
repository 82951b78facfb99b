-- ===== src/Grounding/Validation.antt =====
-- The verdict of app/grounding/citation_validator.py against what a grounded sentence is.
use streaming_rag.Prelude.{
  ℕ, suc, ◌≡◌, refl, ◌⊎◌, inl, inr, String, Bool, true, false, Option, none, some, List, [], ◌∷◌,
  arith, Bool-cases, string_eq, lookup, if◌then◌else◌,
}
use streaming_rag.Float.{Float, less}
use streaming_rag.Text.{Unicode}
use streaming_rag.Models.{Citation}
use streaming_rag.Grounding.Tags.{EvidenceChunk, extract_citation_tags}
use streaming_rag.Grounding.CitationValidator.{
  accept, EvidenceByTag, resolve, has_unknown, is_nil, lexical_overlap, best_overlap, citations_of,
  judge, validate_sentence,
}

module _ {F : Type 0} ⦃fl : Float F⦄ ⦃u : Unicode⦄ where
  -- Some chunk of the list shares enough of the sentence's words.
  abbrev pub Supported : F → String → List EvidenceChunk → Type 0
  Supported min sentence [] = ⊥
  Supported min sentence (ec ∷ ecs) =
      (fl.le min (lexical_overlap sentence ec.text) ≡ true) ⊎ Supported min sentence ecs

  le-best_overlap→ :
      (min : F) (sentence : String) (ecs : List EvidenceChunk) (best : F)
      → fl.le min (best_overlap sentence best ecs) ≡ true
      → (fl.le min best ≡ true) ⊎ Supported min sentence ecs
  unfolding best_overlap
  le-best_overlap→ min sentence [] best h = inl h
  le-best_overlap→ min sentence (ec ∷ ecs) best h =
      step (lexical_overlap sentence ec.text) (less best (lexical_overlap sentence ec.text))
        (le-best_overlap→ min sentence ecs _ h)
    where
      step :
          (o : F) (b : Bool)
          → (fl.le min (if b then o else best) ≡ true) ⊎ Supported min sentence ecs
          → (fl.le min best ≡ true) ⊎ ((fl.le min o ≡ true) ⊎ Supported min sentence ecs)
      step o true (inl k) = inr (inl k)
      step o false (inl k) = inl k
      step o b (inr k) = inr (inr k)

  le-best_overlap← :
      (min : F) (sentence : String) (ecs : List EvidenceChunk) (best : F)
      → (fl.le min best ≡ true) ⊎ Supported min sentence ecs
      → fl.le min (best_overlap sentence best ecs) ≡ true
  unfolding best_overlap
  le-best_overlap← min sentence [] best (inl h) = h
  le-best_overlap← min sentence [] best (inr h) = absurd h
  le-best_overlap← min sentence (ec ∷ ecs) best h =
      le-best_overlap← min sentence ecs _ (step (lexical_overlap sentence ec.text) h)
    where
      step :
          (o : F)
          → (fl.le min best ≡ true) ⊎ ((fl.le min o ≡ true) ⊎ Supported min sentence ecs)
          → (fl.le min (if less best o then o else best) ≡ true) ⊎ Supported min sentence ecs
      step o (inr (inr k)) = inr k
      step o (inl k) = ground (arith, fl.le_total best o, fl.le_trans min best o k)
      step o (inr (inl k)) = ground (arith, fl.le_total best o, fl.le_trans min o best k)

  -- The citations of a sentence, one for each of its tags: each names the chunk that its tag stands
  -- for, and the sentence.
  abbrev pub Cites : EvidenceByTag → String → List String → List (Citation F) → Type 0
  Cites d sentence [] [] = Unit
  Cites d sentence [] (c ∷ cs) = ⊥
  Cites d sentence (t ∷ ts) [] = ⊥
  Cites d sentence (t ∷ ts) (c ∷ cs) =
      ((ec : EvidenceChunk) × (lookup t d ≡ some ec)
        × (c.chunk_id ≡ ec.chunk_id)
        × (c.doc_id ≡ ec.doc_id)
        × (c.section ≡ ec.section)
        × (c.claim_text ≡ sentence)
        × (c.entailment_score ≡ lexical_overlap sentence ec.text))
      × Cites d sentence ts cs

citations_of-Cites :
    (F : Type 0) ⦃fl : Float F⦄ ⦃u : Unicode⦄ (ulid : ℕ → String) (minted : ℕ) (sentence : String)
    (d : EvidenceByTag) (tags : List String)
    → has_unknown d tags ≡ false
    → Cites d sentence tags (citations_of {F = F} ulid minted sentence (resolve d tags))
unfolding citations_of
citations_of-Cites F ulid minted sentence d [] h = tt
citations_of-Cites F ulid minted sentence d (t ∷ ts) h =
    known (lookup t d) refl (λ n. citations_of-Cites F ulid n sentence d ts (ground arith))
  where
    known :
        (o : Option EvidenceChunk)
        → lookup t d ≡ o
        → ((n : ℕ) → Cites d sentence ts (citations_of {F = F} ulid n sentence (resolve d ts)))
        → Cites d sentence (t ∷ ts) (
            citations_of {F = F} ulid minted sentence
              (elim o [ none ↦ resolve d ts | some ec ↦ ec ∷ resolve d ts ]))
    known none e k = absurd (ground arith)
    known (some ec) e k = ((ec, e, refl, refl, refl, refl, refl), k (suc minted))

module _ {F : Type 0} ⦃fl : Float F⦄ ⦃u : Unicode⦄ where
  -- What makes a sentence acceptable: it has tags, each of them is of the evidence, and some cited
  -- chunk supports it.
  abbrev pub Grounded : EvidenceByTag → F → String → Type 0
  Grounded d min sentence =
      (has_unknown d (extract_citation_tags sentence) ≡ false)
      × (is_nil (extract_citation_tags sentence) ≡ false)
      × Supported min sentence (resolve d (extract_citation_tags sentence))

  judge-accept :
      (ulid : ℕ → String) (minted : ℕ) (min : F) (sentence : String) (ecs : List EvidenceChunk)
      → Supported min sentence ecs
      → judge ulid minted sentence ecs min ≡ accept sentence (citations_of ulid minted sentence ecs)
  unfolding judge
  judge-accept ulid minted min sentence [] h = absurd h
  judge-accept ulid minted min sentence (ec ∷ ecs) h =
      rw (le-best_overlap← min sentence ecs (lexical_overlap sentence ec.text) h) refl

  judge-Supported :
      (ulid : ℕ → String) (minted : ℕ) (min : F) (sentence : String) (ecs : List EvidenceChunk)
      {text : String} {cs : List (Citation F)}
      → judge ulid minted sentence ecs min ≡ accept text cs
      → Supported min sentence ecs
  unfolding judge
  judge-Supported ulid minted min sentence [] h = cc
  judge-Supported ulid minted min sentence (ec ∷ ecs) h =
      elim (Bool-cases (fl.le min (best_overlap sentence (lexical_overlap sentence ec.text) ecs))) [
        | inl e ↦ le-best_overlap→ min sentence ecs _ e
        | inr e ↦ absurd (ground arith)
      ]

  -- A sentence that is grounded in the evidence is accepted as it stands, with one citation for
  -- each of its tags, and each citation names the chunk that its tag stands for.
  pub validate_sentence-accept :
      (ulid : ℕ → String) (minted : ℕ) (sentence : String) (d : EvidenceByTag) (min : F)
      → Grounded d min sentence
      → (cs : List (Citation F)) × (validate_sentence ulid minted sentence d min
          ≡ accept sentence cs)
        × Cites d sentence (extract_citation_tags sentence) cs
  unfolding validate_sentence
  validate_sentence-accept ulid minted sentence d min (known, some_tag, h) = (
    citations_of ulid minted sentence (resolve d (extract_citation_tags sentence)),
    rw (known, some_tag) (judge-accept ulid minted min sentence _ h),
    citations_of-Cites F ulid minted sentence d _ known,
  )

  -- Only a grounded sentence is accepted: when the verdict is to accept, the sentence has tags, all
  -- of them are of the evidence, and some cited chunk shares enough of its words.
  pub validate_sentence-Grounded :
      (ulid : ℕ → String) (minted : ℕ) (sentence : String) (d : EvidenceByTag) (min : F)
      (text : String) (cs : List (Citation F))
      → validate_sentence ulid minted sentence d min ≡ accept text cs
      → Grounded d min sentence
  unfolding validate_sentence
  validate_sentence-Grounded ulid minted sentence d min text cs h =
      elim (Bool-cases (has_unknown d (extract_citation_tags sentence))) [
        | inl e ↦ absurd (ground arith)
        | inr e ↦ elim (Bool-cases (is_nil (extract_citation_tags sentence))) [
          | inl e' ↦ absurd (ground arith)
          | inr e' ↦ (e, e', judge-Supported ulid minted min sentence _ (rw (e, e') at h))
        ]
      ]
