-- ===== src/Corpus/Sections/Labels.antt =====
-- The sections of a document: their labels rise, and none is empty.
use streaming_rag.Prelude.{
  ℕ, suc, ◌≤◌, ◌≡◌, refl, subst, append-nil, String, Bool, false, not, Option, none, some, List, [],
  ◌∷◌, ◌++◌, arith, Bool-cases, inl, inr, if◌then◌else◌,
}
use native.Mathlib.Nat.{le_refl}
use streaming_rag.Text.{Unicode, strip, is_blank, join}
use streaming_rag.Text.Regex.{match_start}
use streaming_rag.Corpus.Sections.{
  Section, label_of, is_match, fence, heading_of, flush, sections_from, split_sections, lines_from,
}

-- Numbers from `n` on, rising strictly, make the labels, and every section has a body.
abbrev pub IsLabelled : ℕ → List Section → Type 0
IsLabelled n [] = Unit
IsLabelled n (s ∷ ss) =
    (k : ℕ) × (n ≤ k) × (s.label ≡ label_of k) × (is_blank s.body ≡ false) × IsLabelled (suc k) ss

IsLabelled-from : (m n : ℕ) (ss : List Section) → m ≤ n → IsLabelled n ss → IsLabelled m ss
IsLabelled-from m n [] h l = tt
IsLabelled-from m n (s ∷ ss) h (k, a, b, c, l) = (k, omega arith, b, c, l)

module _ ⦃u : Unicode⦄ where
  IsLabelled-flush :
      (n : ℕ) (title : String) (body_lines : List String) (rest : List Section)
      → IsLabelled (suc n) rest
      → IsLabelled n (flush n title body_lines ++ rest)
  unfolding flush
  IsLabelled-flush n title body_lines rest h =
      elim (Bool-cases (is_blank (strip (join "\n" body_lines)))) [
        | inl e ↦ rw e (IsLabelled-from n (suc n) rest (omega arith) h)
        | inr e ↦ rw e (n, le_refl n, refl, e, h)
      ]

  sections_from-IsLabelled :
      (lines : List String) (n : ℕ) (title : String) (body_lines : List String) (in_fence : Bool)
      → IsLabelled n (sections_from n title body_lines in_fence lines)
  unfolding sections_from
  sections_from-IsLabelled [] n title body_lines in_fence =
      subst (IsLabelled n) (append-nil (flush n title body_lines))
        (IsLabelled-flush n title body_lines [] tt)
  sections_from-IsLabelled (line ∷ lines) n title body_lines in_fence =
      by_heading
        (heading_of (if is_match (match_start fence line) then not in_fence else in_fence) line)
        (sections_from-IsLabelled lines)
    where
      by_heading :
          (o : Option (String × String))
          → ((n : ℕ) (title : String) (body_lines : List String) (in_fence : Bool)
              → IsLabelled n (sections_from n title body_lines in_fence lines))
          → IsLabelled n (elim o [
            | none ↦
                sections_from n title
                  (body_lines ++ (line ∷ []))
                  (if is_match (match_start fence line) then not in_fence else in_fence)
                  lines
            | some h ↦
                flush n title body_lines
                ++ sections_from
                    (suc n)
                    (strip h.1)
                    []
                    (if is_match (match_start fence line) then not in_fence else in_fence)
                    lines
          ])
      by_heading none ih = ih n title _ _
      by_heading (some h) ih = IsLabelled-flush n title body_lines _ (ih (suc n) _ _ _)

  -- The sections of a text carry labels `§k` for numbers `k` that rise strictly, and none has an
  -- empty body.
  pub split_sections-IsLabelled : (text : String) → IsLabelled 0 (split_sections text)
  unfolding split_sections
  split_sections-IsLabelled text = sections_from-IsLabelled (lines_from "" text) 0 "" [] false
