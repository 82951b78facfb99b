-- ===== src/Corpus/Chunking/Packing.antt =====
-- What `_section_pieces` of scripts/ingest_corpus.py makes of a section's paragraphs.
use streaming_rag.Prelude.{
  ℕ, ◌+◌, ◌≤◌, ◌<◌, ◌≡◌, refl, ap, subst, String, false, List, [], ◌∷◌, ◌++◌, append_assoc, arith,
  Bool-cases, inl, inr, ltb, ltb→lt, All,
}
use streaming_rag.Text.{Unicode}
use streaming_rag.Grounding.CitationValidator.{is_nil}
use streaming_rag.Corpus.Sections.{count_tokens}
use streaming_rag.Corpus.Chunking.{
  windows, packed, flush_current, pieces_from, section_pieces, paragraphs_of,
}

-- Paragraphs that make one piece together, or one paragraph that is cut into windows.
pub data Group : Type 0 where
  whole : List String → Group
  cut_up : String → Group

abbrev pub members : Group → List String
members (whole ps) = ps
members (cut_up p) = p ∷ []

abbrev pub all_members : List Group → List String
all_members [] = []
all_members (g ∷ gs) = members g ++ all_members gs

module _ ⦃u : Unicode⦄ where
  abbrev pub total : List String → ℕ
  total [] = 0
  total (p ∷ ps) = count_tokens p + total ps

  -- A group keeps within the budget, and only a paragraph that does not is cut.
  abbrev pub IsGroup : ℕ → Group → Type 0
  IsGroup budget (whole ps) = (is_nil ps ≡ false) × (total ps ≤ budget)
  IsGroup budget (cut_up p) = budget < count_tokens p

  abbrev pub render : ℕ → ℕ → List Group → List String
  render budget overlap [] = []
  render budget overlap (whole ps ∷ gs) = packed ps ∷ render budget overlap gs
  render budget overlap (cut_up p ∷ gs) = windows p budget overlap ++ render budget overlap gs

  -- The pieces are the groups of a partition of the paragraphs, in order.
  abbrev pub IsPacking : ℕ → ℕ → List String → List String → Type 0
  IsPacking budget overlap paragraphs pieces =
      (groups : List Group) × (all_members groups ≡ paragraphs)
      × All (IsGroup budget) groups
      × (pieces ≡ render budget overlap groups)

  total-append : (xs ys : List String) → total (xs ++ ys) ≡ total xs + total ys
  total-append [] ys = omega arith
  total-append (x ∷ xs) ys = omega (arith, total-append xs ys)

  IsPacking-cut :
      (budget overlap : ℕ) (current : List String) (p : String) (ps pieces : List String)
      → total current ≤ budget
      → budget < count_tokens p
      → IsPacking budget overlap ps pieces
      → IsPacking budget overlap
          (current ++ (p ∷ ps))
          (flush_current current ++ (windows p budget overlap ++ pieces))
  IsPacking-cut budget overlap [] p ps pieces h k (gs, a, b, c) =
      (cut_up p ∷ gs, ap (◌∷◌ p) a, (k, b), ap (λ l. windows p budget overlap ++ l) c)
  IsPacking-cut budget overlap (x ∷ xs) p ps pieces h k (gs, a, b, c) = (
    whole (x ∷ xs) ∷ cut_up p ∷ gs,
    ap (λ l. x ∷ (xs ++ (p ∷ l))) a,
    ((refl, h), (k, b)),
    ap (λ l. packed (x ∷ xs) ∷ (windows p budget overlap ++ l)) c,
  )

  IsPacking-restart :
      (budget overlap : ℕ) (current : List String) (p : String) (ps pieces : List String)
      → total current ≤ budget
      → count_tokens p ≤ budget
      → budget < total current + count_tokens p
      → IsPacking budget overlap (p ∷ ps) pieces
      → IsPacking budget overlap (current ++ (p ∷ ps)) (packed current ∷ pieces)
  IsPacking-restart budget overlap [] p ps pieces h k l g = absurd (omega arith)
  IsPacking-restart budget overlap (x ∷ xs) p ps pieces h k l (gs, a, b, c) =
      (whole (x ∷ xs) ∷ gs, ap (λ l. x ∷ (xs ++ l)) a, ((refl, h), b), ap (◌∷◌ (packed (x ∷ xs))) c)

  pieces_from-IsPacking :
      (ps : List String) (budget overlap : ℕ) (current : List String) (current_tokens : ℕ)
      → current_tokens ≡ total current
      → total current ≤ budget
      → IsPacking budget overlap
          (current ++ ps)
          (pieces_from budget overlap current current_tokens ps)
  unfolding pieces_from
  pieces_from-IsPacking [] budget overlap [] n e h = ([], refl, tt, refl)
  pieces_from-IsPacking [] budget overlap (x ∷ xs) n e h =
      (whole (x ∷ xs) ∷ [], refl, ((refl, h), tt), refl)
  pieces_from-IsPacking (p ∷ ps) budget overlap current n e h =
      elim (Bool-cases (ltb budget (count_tokens p))) [
        | inl k ↦ rw k (
            IsPacking-cut budget overlap current p ps _ h (ltb→lt _ _ k)
              (pieces_from-IsPacking ps budget overlap [] 0 refl (omega arith)))
        | inr k ↦ elim (Bool-cases (ltb budget (n + count_tokens p))) [
          | inl l ↦
              rw (k, l)
                (IsPacking-restart budget overlap current p ps _ h (ground arith)
                  (grind (arith, ltb→lt _ _ l))
                  (pieces_from-IsPacking ps budget overlap (p ∷ []) (count_tokens p) (omega arith)
                    (ground arith)))
          | inr l ↦
              rw (k, l)
                (subst
                  (λ xs.
                    IsPacking budget overlap xs
                      (pieces_from budget overlap (current ++ (p ∷ [])) (n + count_tokens p) ps))
                  (append_assoc current (p ∷ []) ps)
                  (pieces_from-IsPacking ps budget overlap (current ++ (p ∷ []))
                    (n + count_tokens p) (omega (arith, e, total-append current (p ∷ [])))
                    (ground (arith, e, total-append current (p ∷ [])))))
        ]
      ]

  -- The pieces of a section are its paragraphs, in order and each once: groups of them within the
  -- token budget joined by blank lines, and windows of each paragraph that is over it by itself.
  pub section_pieces-IsPacking :
      (body : String) (budget overlap : ℕ)
      → IsPacking budget overlap (paragraphs_of body) (section_pieces body budget overlap)
  unfolding section_pieces
  section_pieces-IsPacking body budget overlap =
      pieces_from-IsPacking (paragraphs_of body) budget overlap [] 0 refl (omega arith)
