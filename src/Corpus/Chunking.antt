-- ===== src/Corpus/Chunking.antt =====
-- Chunking of scripts/ingest_corpus.py: `_windows`, `_section_pieces`, `chunk_document` and the
-- fingerprint. SHA-256 and UUIDv5 are parameters.
pub mod Windows
pub mod Packing
pub mod Positions
use Prim.Native.String.{◌++◌ as str_append}
use Prim.Native.Nat.{max, min}
use streaming_rag.Prelude.{
  ℕ, zero, suc, ◌+◌, ◌-◌, String, Char, code, Bool, true, false, not, ◌||◌, Option, none, some,
  List, [], ◌∷◌, ◌++◌, length, map, if◌then◌else◌, eqb, ltb, leb, get_elem?,
}
use streaming_rag.Text.{Unicode, strip, is_blank, join}
use streaming_rag.Text.Regex.{Regex, find_spans, split_spans, slice_chars}
use streaming_rag.Grounding.Tags.{tokenize}
use streaming_rag.Grounding.CitationValidator.{is_nil}
use streaming_rag.Generation.PromptBuilder.{decimal}
use streaming_rag.Corpus.Sections.{Section, count_token, count_tokens}

-- The loop of `_windows` on token indices: windows of `budget` tokens, `step` apart, up to the
-- last token. A window starts at `start`; there are at most as many as tokens.
unfoldable pub ranges_from : ℕ → ℕ → ℕ → ℕ → ℕ → List (ℕ × ℕ)
ranges_from zero n budget step start = []
ranges_from (suc fuel) n budget step start =
    let end = min (start + budget) n in
    let rest = ranges_from fuel n budget step (start + step) in
    if leb n start then [] else if eqb end n then (start, end) ∷ [] else (start, end) ∷ rest

-- `max(budget - overlap, 1)`
abbrev pub step_of : ℕ → ℕ → ℕ
step_of budget overlap = max (budget - overlap) 1

unfoldable pub window_ranges : ℕ → ℕ → ℕ → List (ℕ × ℕ)
unfolding ranges_from
window_ranges n budget overlap = ranges_from n n budget (step_of budget overlap) 0

-- `paragraph[spans[a].start() : spans[b - 1].end()]`
abbrev pub cut : String → List (ℕ × ℕ) → ℕ × ℕ → String
cut paragraph spans (a, b) = elim (get_elem? spans a) [
  | none ↦ ""
  | some first ↦ elim (get_elem? spans (b - 1)) [
    | none ↦ ""
    | some last ↦ slice_chars first.0 last.1 paragraph
  ]
]

-- `\n[ \t]*\n`
abbrev paragraph_break : Regex
paragraph_break = Regex.seq (Regex.one (λ c. eqb (code c) 10)) (
    Regex.seq (Regex.star (Regex.one (λ c. eqb (code c) 32 || eqb (code c) 9)))
      (Regex.one (λ c. eqb (code c) 10)))

module _ ⦃u : Unicode⦄ where
  unfoldable pub windows : String → ℕ → ℕ → List String
  unfolding window_ranges find_spans
  windows paragraph budget overlap =
      let spans = find_spans count_token paragraph in
      map (cut paragraph spans) (window_ranges (length spans) budget overlap)

  abbrev pub packed : List String → String
  packed paragraphs = join "\n\n" paragraphs

  -- The paragraphs that are not blank, stripped.
  unfoldable pub filled : List String → List String
  unfolding strip
  filled [] = []
  filled (p ∷ ps) = let rest = filled ps in if is_blank (strip p) then rest else strip p ∷ rest

  unfoldable pub paragraphs_of : String → List String
  unfolding filled find_spans
  paragraphs_of body = filled (split_spans 0 (find_spans paragraph_break body) body)

  -- `if current: pieces.append("\n\n".join(current))`
  abbrev pub flush_current : List String → List String
  flush_current [] = []
  flush_current (p ∷ ps) = packed (p ∷ ps) ∷ []

  -- The loop of `_section_pieces`, with `current` and `current_tokens`, to the pieces that follow.
  unfoldable pub pieces_from : ℕ → ℕ → List String → ℕ → List String → List String
  unfolding windows count_tokens join
  pieces_from budget overlap current current_tokens [] = flush_current current
  pieces_from budget overlap current current_tokens (p ∷ ps) =
      let fresh = pieces_from budget overlap [] 0 ps in
      let restarted = pieces_from budget overlap (p ∷ []) (count_tokens p) ps in
      let extended =
        pieces_from budget overlap (current ++ (p ∷ [])) (current_tokens + count_tokens p) ps in
      if ltb budget (count_tokens p)
      then flush_current current ++ (windows p budget overlap ++ fresh)
      else if ltb budget (current_tokens + count_tokens p)
      then packed current ∷ restarted
      else extended

  unfoldable pub section_pieces : String → ℕ → ℕ → List String
  unfolding pieces_from paragraphs_of
  section_pieces body budget overlap = pieces_from budget overlap [] 0 (paragraphs_of body)

-- app/models/chunk.py, `Chunk`
pub record Chunk : Type 0 where
  pub chunk_id : String
  pub doc_id : String
  pub section : String
  pub text : String
  pub token_count : ℕ
  pub chunk_index : ℕ
  pub bm25_tokens : List String

-- `hashlib.sha256(…).hexdigest()` and `uuid.uuid5(namespace, …)`, on texts
pub record Hashes : Type 0 where
  pub sha256 : String → String
  pub uuid5 : String → String

-- `Chunk.make_chunk_id`
unfoldable pub make_chunk_id : Hashes → String → String → String → ℕ → String → String
unfolding join
make_chunk_id h corpus_id doc_id section chunk_index text =
    h.uuid5
      (join "\u{1f}" (corpus_id ∷ doc_id ∷ section ∷ decimal chunk_index ∷ h.sha256 text ∷ []))

module _ ⦃u : Unicode⦄ (hashes : Hashes) (corpus_id doc_id : String) where
  -- `f"{section.title}\n\n{piece}" if section.title else piece`
  abbrev pub chunk_text : String → String → String
  chunk_text title piece =
      if is_blank title then piece else str_append title (str_append "\n\n" piece)

  abbrev pub chunk_of : String → ℕ → String → Chunk
  chunk_of label index text = record {
    chunk_id = make_chunk_id hashes corpus_id doc_id label index text;
    doc_id = doc_id;
    section = label;
    text = text;
    token_count = count_tokens text;
    chunk_index = index;
    bm25_tokens = tokenize text;
  }

  -- The inner loop of `chunk_document`: the chunks that the pieces add to `index` ones.
  unfoldable pub chunk_pieces : Section → ℕ → List String → List Chunk
  unfolding make_chunk_id count_tokens tokenize
  chunk_pieces section index [] = []
  chunk_pieces section index (piece ∷ pieces) =
      let skipped = chunk_pieces section index pieces in
      let added = chunk_pieces section (suc index) pieces in
      if is_nil (tokenize piece)
      then skipped
      else chunk_of section.label index (chunk_text section.title piece) ∷ added

  -- `budget` and `overlap` for a section
  abbrev pub budget_of : ℕ → Section → ℕ
  budget_of max_tokens section = max (max_tokens - count_tokens section.title) 1

  abbrev pub overlap_of : ℕ → ℕ → ℕ
  overlap_of overlap_tokens budget = min overlap_tokens (budget - 1)

  unfoldable pub chunk_sections : ℕ → ℕ → ℕ → List Section → List Chunk
  unfolding chunk_pieces section_pieces count_tokens
  chunk_sections max_tokens overlap_tokens index [] = []
  chunk_sections max_tokens overlap_tokens index (s ∷ ss) =
      let budget = budget_of max_tokens s in
      let chunks =
        chunk_pieces s index (section_pieces s.body budget (overlap_of overlap_tokens budget)) in
      chunks ++ chunk_sections max_tokens overlap_tokens (index + length chunks) ss

  -- `chunk_document(loaded, corpus_id, max_tokens, overlap_tokens)`
  unfoldable pub chunk_document : ℕ → ℕ → List Section → List Chunk
  unfolding chunk_sections
  chunk_document max_tokens overlap_tokens sections =
      chunk_sections max_tokens overlap_tokens 0 sections
