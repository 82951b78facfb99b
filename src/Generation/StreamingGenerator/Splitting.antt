-- ===== src/Generation/StreamingGenerator/Splitting.antt =====
-- The loop of `stream_answer` that cuts sentences off the buffer: the fuel is enough.
use streaming_rag.Prelude.{
  suc, ◌≤◌, ◌<◌, ◌≡◌, refl, sym, ◌∙◌, String, Bool, false, ◌&&◌, some, arith, Bool-cases, inl, inr,
}
use native.Mathlib.Nat.{le_trans}
use streaming_rag.Text.{Unicode, strip, lstrip, reverse_onto}
use streaming_rag.Text.Regex.{count_chars}
use streaming_rag.Generation.StreamingGenerator.{split_sentence, split_from, ends_sentence}

module _ ⦃u : Unicode⦄ where
  count_chars-lstrip-le : (s : String) → count_chars (lstrip s) ≤ count_chars s
  unfolding lstrip
  count_chars-lstrip-le String.[] = omega arith
  count_chars-lstrip-le (String.◌∷◌ c s) = elim (Bool-cases (u.is_space c)) [
    | inl e ↦ rw e (omega (arith, count_chars-lstrip-le s))
    | inr e ↦ rw e (omega arith)
  ]

  split_from-rest-lt :
      (passed : String) (b : Bool) (s : String) (r : String × String)
      → split_from passed b s ≡ some r
      → count_chars r.1 < count_chars s
  unfolding split_from
  split_from-rest-lt passed b String.[] r h = cc
  split_from-rest-lt passed b (String.◌∷◌ c s) r h = elim (Bool-cases (b && u.is_space c)) [
    | inl e ↦
        first_lt (strip (reverse_onto (String.◌∷◌ c passed) ""), lstrip s) (sym (rw e refl) ∙ h)
          (count_chars-lstrip-le s)
    | inr e ↦
        le_trans
          (split_from-rest-lt (String.◌∷◌ c passed) (ends_sentence c) s r (sym (rw e refl) ∙ h))
          (omega arith)
  ]
    where
      first_lt :
          (a : String × String)
          → some a ≡ some r
          → count_chars a.1 ≤ count_chars s
          → count_chars r.1 < suc (count_chars s)
      first_lt a k l = grind arith

  -- What is left after a split is shorter than the buffer.
  pub split_sentence-rest-lt :
      (buffer : String) {r : String × String}
      → split_sentence buffer ≡ some r
      → count_chars r.1 < count_chars buffer
  unfolding split_sentence
  split_sentence-rest-lt buffer {r} h = split_from-rest-lt "" false buffer r h
