-- ===== src/Corpus/Sections.antt =====
-- Documents of scripts/ingest_corpus.py: tokens as they are counted, headings, sections, titles.
pub mod Labels
use Prim.Native.String.{◌++◌ as str_append}
use streaming_rag.Prelude.{
  ℕ, zero, suc, ◌+◌, String, Char, code, Bool, true, false, not, ◌&&◌, ◌||◌, Option, none, some,
  List, [], ◌∷◌, ◌++◌, length, if◌then◌else◌, eqb, get_elem?, or_else,
}
use streaming_rag.Text.{Unicode, strip, is_blank, join}
use streaming_rag.Text.Regex.{
  Regex, Place, find_spans, match_start, up_to, plus, any_of, word_by, char_is, count_chars,
}
use streaming_rag.Generation.PromptBuilder.{decimal}

module _ ⦃u : Unicode⦄ where
  -- `\w+|[^\w\s]`
  abbrev pub count_token : Regex
  count_token =
      Regex.alt (plus (Regex.one u.is_word))
        (Regex.one (λ c. not (u.is_word c) && not (u.is_space c)))

  unfoldable pub count_tokens : String → ℕ
  unfolding find_spans
  count_tokens text = length (find_spans count_token text)

  -- `^ {0,3}(#{1,6})\s+(.*?)\s*#*\s*$`; the lines that it is tried on hold no line end.
  abbrev pub heading : Regex
  heading = Regex.seq (up_to 3 (Regex.one (λ c. eqb (code c) 32))) (
      Regex.seq
        (Regex.group (
          Regex.seq (Regex.one (λ c. eqb (code c) b'#'))
            (up_to 5 (Regex.one (λ c. eqb (code c) b'#')))))
        (Regex.seq (plus (Regex.one u.is_space)) (
          Regex.seq (Regex.group (Regex.lazy (Regex.one (λ c. true)))) (
            Regex.seq (Regex.star (Regex.one u.is_space)) (
              Regex.seq (Regex.star (Regex.one (λ c. eqb (code c) b'#')))
                (Regex.seq (Regex.star (Regex.one u.is_space)) Regex.at_end))))))

-- `^ {0,3}(```|~~~)`
abbrev pub fence : Regex
fence =
    Regex.seq (up_to 3 (Regex.one (λ c. eqb (code c) 32)))
      (Regex.group (Regex.alt (word_by char_is "```") (word_by char_is "~~~")))

-- `text.split("\n")`, with the line read so far
unfoldable pub lines_from : String → String → List String
lines_from line String.[] = line ∷ []
lines_from line (String.◌∷◌ c s) =
    if eqb (code c) 10
    then line ∷ lines_from "" s
    else lines_from (str_append line (String.◌∷◌ c "")) s

abbrev pub is_match : Option (List String) → Bool
is_match none = false
is_match (some gs) = true

pub record Section : Type 0 where
  pub label : String
  pub title : String
  pub body : String

-- `f"§{label_no}"`
abbrev pub label_of : ℕ → String
label_of n = str_append "§" (decimal n)

module _ ⦃u : Unicode⦄ where
  -- What a heading line says, outside a fence: its marks and its text, if the text is not empty.
  unfoldable pub heading_of : Bool → String → Option (String × String)
  unfolding match_start
  heading_of true line = none
  heading_of false line = elim (match_start heading line) [
    | some (marks ∷ text ∷ []) ↦ if is_blank text then none else some (marks, text)
    | _ ↦ none
  ]

  -- `flush()`
  unfoldable pub flush : ℕ → String → List String → List Section
  unfolding strip join
  flush label_no title body_lines =
      let body = strip (join "\n" body_lines) in
      if is_blank body
      then []
      else record { label = label_of label_no; title = title; body = body } ∷ []

  -- The loop of `split_sections`, with what it has in its variables.
  unfoldable pub sections_from : ℕ → String → List String → Bool → List String → List Section
  unfolding flush heading_of match_start
  sections_from label_no title body_lines in_fence [] = flush label_no title body_lines
  sections_from label_no title body_lines in_fence (line ∷ lines) =
      let in_fence' = if is_match (match_start fence line) then not in_fence else in_fence in
      elim (heading_of in_fence' line) [
        | none ↦ sections_from label_no title (body_lines ++ (line ∷ [])) in_fence' lines
        | some h ↦
            flush label_no title body_lines
            ++ sections_from (suc label_no) (strip h.1) [] in_fence' lines
      ]

  unfoldable pub split_sections : String → List Section
  unfolding sections_from lines_from
  split_sections text = sections_from 0 "" [] false (lines_from "" text)

  -- `first_heading or …`
  abbrev or_text : Option String → String → String
  or_text none d = d
  or_text (some t) d = if is_blank t then d else t

  -- The loop of `_document_title`.
  unfoldable pub title_from : Option String → Bool → String → List String → String
  unfolding heading_of match_start strip
  title_from first_heading in_fence fallback [] = or_text first_heading fallback
  title_from first_heading in_fence fallback (line ∷ lines) =
      if is_match (match_start fence line)
      then title_from first_heading (not in_fence) fallback lines
      else (elim (heading_of in_fence line) [
        | none ↦ title_from first_heading in_fence fallback lines
        | some h ↦
            if eqb (count_chars h.0) 1
            then strip h.1
            else title_from (some (or_text first_heading (strip h.1))) in_fence fallback lines
      ])

  unfoldable pub document_title : String → String → String
  unfolding title_from lines_from
  document_title text fallback = title_from none false fallback (lines_from "" text)
