-- ===== src/Controller/Suppression.antt =====
-- app/controller/suppression.py
use streaming_rag.Prelude.{
  String, Bool, true, false, not, [], ◌∷◌, Dict, Result, ok, ◌>>=◌, if◌then◌else◌,
}
use streaming_rag.Text.{Unicode}
use streaming_rag.Text.Regex.{Regex, found, any_of, word_by, char_folds_to}
use streaming_rag.Controller.Extraction.{Nlp, extract_entities, entity_diff}

abbrev phrase : String → Regex
phrase = word_by char_folds_to

-- `_SUPPRESSION_PATTERN`
unfoldable pub suppression_pattern : ⦃u : Unicode⦄ → Regex
suppression_pattern ⦃u⦄ =
    let word_end = Regex.star (Regex.one u.is_word) in
    let or_none = λ (r : Regex). Regex.alt r Regex.empty in
    let s_or_z = Regex.alt (phrase "s") (phrase "z") in
    Regex.seq (Regex.boundary u.is_word) (
      Regex.seq
        (any_of (
          phrase "reformat"
          ∷ phrase "shorten"
          ∷ phrase "expand"
          ∷ Regex.seq (phrase "bulleti") (Regex.seq s_or_z (phrase "e"))
          ∷ Regex.seq (phrase "bullet")
              (or_none (any_of (phrase "s" ∷ phrase "ed" ∷ phrase "ing" ∷ [])))
          ∷ Regex.seq (phrase "translat") word_end
          ∷ Regex.seq (phrase "repeat")
              (or_none (any_of (phrase "s" ∷ phrase "ed" ∷ phrase "ing" ∷ [])))
          ∷ Regex.seq (phrase "rephrase") word_end
          ∷ Regex.seq (phrase "summari") (Regex.seq s_or_z word_end)
          ∷ []))
        (Regex.boundary u.is_word))

module _ ⦃u : Unicode⦄ where
  unfoldable pub is_presentation_only : String → Bool
  unfolding found suppression_pattern
  is_presentation_only text = found suppression_pattern text

  -- `_is_ambiguous`, a placeholder in the code
  abbrev is_ambiguous : String → Bool
  is_ambiguous text = false

  abbrev pub is_empty_dict : Dict String String → Bool
  is_empty_dict [] = true
  is_empty_dict (e ∷ d) = false

  -- `check_suppression(…) is not None`
  unfoldable pub check_suppression : Nlp → String → Dict String String → String → Bool → Result Bool
  unfolding entity_diff
  check_suppression nlp buffer_text entities corpus_id has_prior_answer =
      if not has_prior_answer
      then ok false
      else if not (is_presentation_only buffer_text)
      then ok false
      else do
        new_entities ← extract_entities nlp buffer_text corpus_id
        ok (
            if not (is_empty_dict (entity_diff new_entities entities))
            then false
            else if is_ambiguous buffer_text
            then false
            else true)
