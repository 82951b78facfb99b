-- ===== src/Corpus/Documents.antt =====
-- The documents of a corpus (scripts/ingest_corpus.py): discovery, loading, `_prepare`. The file
-- system, decoding and hashing are parameters; times and log lines are left out.
use Prim.Native.String.{◌++◌ as str_append}
use streaming_rag.Prelude.{
  ℕ, String, Bool, not, ◌&&◌, ◌||◌, Option, none, some, List, [], ◌∷◌, ◌++◌, map, length, any, keep,
  ◌==◌, string_eq, nat_eq, if◌then◌else◌, leb, eqb, Char, code, Result, ok, raise, external, ◌>>=◌,
  sort_by,
}
use streaming_rag.Text.{Unicode, lower_text, text_leb}
use streaming_rag.Grounding.CitationValidator.{is_nil}
use streaming_rag.Corpus.Sections.{Section, split_sections, document_title}
use streaming_rag.Corpus.Chunking.{Chunk, Hashes, chunk_document}
use streaming_rag.Corpus.Slots.{SlotsFile, load_slot_schema}

-- An entry under the corpus directory: its path from there, the path's parts, its suffix and name,
-- and what its bytes decode to, if they do.
pub record Entry : Type 0 where
  pub rel : String
  pub parts : List String
  pub is_dir : Bool
  pub suffix : String
  pub stem : String
  -- the path `with_suffix("")`
  pub without_suffix : String
  pub content_hash : String
  pub decoded : Option String

-- document.py, `Document`; `ingested_at` is the clock's
pub record Document : Type 0 where
  pub doc_id : String
  pub title : String
  pub source_path : String
  pub corpus_id : String
  pub content_hash : String
  pub section_count : ℕ

pub record LoadedDocument : Type 0 where
  pub document : Document
  pub sections : List Section

pub record Prepared : Type 0 where
  pub loaded : List LoadedDocument
  pub chunks : List Chunk
  pub skipped : List String

-- A corpus directory, when it is there.
pub record CorpusDir : Type 0 where
  pub slots : SlotsFile
  pub entries : List Entry

abbrev ingestion_error : {A : Type 0} → Result A
ingestion_error = raise (external "IngestionError")

-- `text.replace("\r\n", "\n")`
abbrev pub join_line_ends : String → String
join_line_ends String.[] = String.[]
join_line_ends (String.◌∷◌ c String.[]) = String.◌∷◌ c String.[]
join_line_ends (String.◌∷◌ c (String.◌∷◌ d s)) =
    let rest = join_line_ends (String.◌∷◌ d s) in
    let later = join_line_ends s in
    if eqb (code c) 13 && eqb (code d) 10 then String.◌∷◌ d later else String.◌∷◌ c rest

-- `text.replace("\r", "\n")`
abbrev pub replace_returns : String → String
replace_returns String.[] = String.[]
replace_returns (String.◌∷◌ c s) =
    let rest = replace_returns s in
    if eqb (code c) 13 then str_append "\n" rest else String.◌∷◌ c rest

-- `[A-Za-z0-9._/-]`
abbrev is_safe : Char → Bool
is_safe c =
    (leb b'a' (code c) && leb (code c) b'z')
    || ((leb b'A' (code c) && leb (code c) b'Z')
        || (leb b'-' (code c) && leb (code c) b'9' || eqb (code c) b'_'))

-- `Document.make_doc_id`, given the path without its suffix
unfoldable pub make_doc_id : String → String
make_doc_id String.[] = String.[]
make_doc_id (String.◌∷◌ c s) =
    let rest = make_doc_id s in if is_safe c then String.◌∷◌ c rest else str_append "_" rest

-- `discover_corpora`, given the directories under the corpus root
unfoldable pub discover_corpora : (String → Bool) → List String → List String
discover_corpora is_hidden names = sort_by text_leb (keep (λ n. not (is_hidden n)) names)

module _ ⦃u : Unicode⦄ where
  abbrev pub is_ignored : (String → Bool) → Entry → Bool
  is_ignored starts_with_dot e = e.is_dir || (any starts_with_dot e.parts || e.rel == "slots.yaml")

  abbrev pub is_supported : Entry → Bool
  is_supported e = any (λ x. x == lower_text e.suffix) (".md" ∷ ".markdown" ∷ ".txt" ∷ [])

  -- `discover_documents`: the documents and the skipped files
  unfoldable pub discover_documents : (String → Bool) → List Entry → List Entry × List Entry
  unfolding lower_text
  discover_documents starts_with_dot entries =
      let files =
        keep (λ e. not (is_ignored starts_with_dot e))
          (sort_by (λ a b. text_leb a.rel b.rel) entries) in
      (keep is_supported files, keep (λ e. not (is_supported e)) files)

  abbrev pub document_of : String → Entry → String → List Section → LoadedDocument
  document_of corpus_id e text sections = record {
    document = record {
      doc_id = make_doc_id e.without_suffix;
      title = document_title text e.stem;
      source_path = str_append corpus_id (str_append "/" e.rel);
      corpus_id = corpus_id;
      content_hash = e.content_hash;
      section_count = length sections;
    };
    sections = sections;
  }

  abbrev pub with_sections : String → Entry → String → List Section → Result (Option LoadedDocument)
  with_sections corpus_id e text [] = ok none
  with_sections corpus_id e text (s ∷ ss) = ok (some (document_of corpus_id e text (s ∷ ss)))

  -- `load_document`
  unfoldable pub load_document : String → Entry → Result (Option LoadedDocument)
  unfolding split_sections document_title make_doc_id
  load_document corpus_id e = of_text e.decoded
    where
      of_text : Option String → Result (Option LoadedDocument)
      of_text none = ingestion_error
      of_text (some raw) =
          let text = replace_returns (join_line_ends raw) in
          with_sections corpus_id e text (split_sections text)

  -- One round of the loading loop: the documents so far, their ids, the skipped files.
  abbrev pub take_document :
      Entry
      → Result (Option LoadedDocument)
      → List LoadedDocument × List String
      → Result (List LoadedDocument × List String)
  take_document e (raise x) (docs, skipped) = raise x
  take_document e (ok none) (docs, skipped) = ok (docs, skipped ++ (e.rel ∷ []))
  take_document e (ok (some d)) (docs, skipped) =
      if any (λ o. o.document.doc_id == d.document.doc_id) docs
      then ingestion_error
      else ok (docs ++ (d ∷ []), skipped)

  unfoldable pub load_all :
      String
      → List Entry
      → List LoadedDocument × List String
      → Result (List LoadedDocument × List String)
  unfolding load_document
  load_all corpus_id [] found = ok found
  load_all corpus_id (e ∷ es) found =
      take_document e (load_document corpus_id e) found >>= (λ more. load_all corpus_id es more)

  unfoldable pub chunks_of : Hashes → String → ℕ → ℕ → List LoadedDocument → List Chunk
  unfolding chunk_document
  chunks_of hashes corpus_id max_tokens overlap_tokens [] = []
  chunks_of hashes corpus_id max_tokens overlap_tokens (d ∷ ds) =
      chunk_document hashes corpus_id d.document.doc_id max_tokens overlap_tokens d.sections
      ++ chunks_of hashes corpus_id max_tokens overlap_tokens ds

  -- The end of `_prepare`.
  abbrev pub with_chunks : List LoadedDocument → List String → List Chunk → Result Prepared
  with_chunks loaded skipped [] = ingestion_error
  with_chunks loaded skipped (c ∷ cs) =
      ok (record { loaded = loaded; chunks = c ∷ cs; skipped = sort_by text_leb skipped })

  -- `_prepare`
  unfoldable pub prepare :
      Hashes → (String → Bool) → ℕ → ℕ → String → Option CorpusDir → Result Prepared
  unfolding load_slot_schema discover_documents load_all chunks_of
  prepare hashes starts_with_dot max_tokens overlap_tokens corpus_id none = ingestion_error
  prepare hashes starts_with_dot max_tokens overlap_tokens corpus_id (some dir) = do
    schema ← load_slot_schema corpus_id dir.slots
    let (documents, unsupported) = discover_documents starts_with_dot dir.entries
    found ←
        (if is_nil documents
          then ingestion_error
          else load_all corpus_id documents ([], map (λ e. e.rel) unsupported))
    with_chunks found.0 found.1 (chunks_of hashes corpus_id max_tokens overlap_tokens found.0)
