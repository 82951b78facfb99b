-- ===== src/Tests/Corpus.antt =====
-- A small corpus on its way into the indexes.
use streaming_rag.Prelude.{
  ℕ, zero, suc, ◌<◌, ◌≤◌, raise, external, ◌≡◌, refl, String, true, false, not, none, some, List,
  [], ◌∷◌, ◌++◌, map, length, take, keep, any, All, All-map, All-sort_by, IsSortedBy, sort_by,
  sort_by-IsSortedBy, if◌then◌else◌, ◌==◌, string_eq, nat_eq, arith, ok,
}
use streaming_rag.Float.{nat_float}
use streaming_rag.Grounding.Tags.{tokenize}
use streaming_rag.Grounding.CitationValidator.{is_nil}
use streaming_rag.Session.Store.{validate_corpus_id}
use streaming_rag.Models.{Slot, ValueType}
use streaming_rag.Corpus.Sections.{Section}
use streaming_rag.Corpus.Chunking.{
  Chunk, Hashes, window_ranges, section_pieces, paragraphs_of, chunk_document,
}
use streaming_rag.Corpus.Chunking.Windows.{Covers, window_ranges-Covers}
use streaming_rag.Corpus.Chunking.Packing.{IsPacking, section_pieces-IsPacking}
use streaming_rag.Corpus.Chunking.Positions.{IsPlacedFrom, chunk_document-IsPlacedFrom}
use streaming_rag.Corpus.Slots.{RawSchema, mapping, load_slot_schema}
use streaming_rag.Corpus.Slots.Valid.{IsSchema, load_slot_schema-IsSchema}
use streaming_rag.Corpus.Bm25.{Bm25Index, IndexRecord, Okapi, Pickle, Saved, Unpickled, index_error}
use streaming_rag.Corpus.Bm25.Registry.{save, load}
use streaming_rag.Corpus.Bm25
use streaming_rag.Corpus.Bm25.Ranking.{is_above, is_positive, ranked, search_lem}
use streaming_rag.Corpus.Bm25.Files.{load-save}
use streaming_rag.Corpus.Dense.{Point, Qdrant, ScoredPoint, for_each, upsert_chunks, search_vector}
use streaming_rag.Corpus.Dense.Batches.{IsPoints, IsBatched, concat, upsert_chunks_lem}
use streaming_rag.Corpus.Dense.Isolation.{IsAnswer, search_vector-IsAnswer}
use streaming_rag.Corpus.Embeddings.{Library, Options, new_embedder, embed_each}
use streaming_rag.Corpus.Embeddings.Cached.{embed_fresh, embed_each_lem}
use streaming_rag.Tests.Data.{spaces}

window_ranges-Covers_example : Covers 5 3 0 (window_ranges 5 3 1)
window_ranges-Covers_example = window_ranges-Covers 5 3 1 (omega arith) (omega arith)

section_pieces-IsPacking_example :
    IsPacking 2 1 (paragraphs_of "a b c\n\nd") (section_pieces "a b c\n\nd" 2 1)
section_pieces-IsPacking_example = section_pieces-IsPacking "a b c\n\nd" 2 1

abbrev hashes : Hashes
hashes = record { sha256 = λ s. s; uuid5 = λ s. s }

abbrev sections : List Section
sections =
    record { label = "§0"; title = ""; body = "a b c" }
    ∷ record { label = "§1"; title = "t"; body = "d" }
    ∷ []

chunk_document-IsPlacedFrom_example :
    IsPlacedFrom hashes "k" "d" 0 (chunk_document hashes "k" "d" 2 1 sections)
chunk_document-IsPlacedFrom_example = chunk_document-IsPlacedFrom hashes "k" "d" 2 1 sections

abbrev raw_schema : RawSchema
raw_schema = record {
  keys = "slots" ∷ "corpus_id" ∷ [];
  slots = some (
      record {
        name = "fee";
        patterns = "fee" ∷ "cost" ∷ [];
        value_type = some "numeric";
        is_entity_key = some true;
        has_extra = false;
      }
      ∷ []);
  corpus_id = some "k";
}

abbrev fee_slot : Slot
fee_slot = record {
  name = "fee";
  patterns = "fee" ∷ "cost" ∷ [];
  value_type = ValueType.numeric;
  is_entity_key = true;
}

load_slot_schema-IsSchema_example : IsSchema "k" (record { corpus_id = "k"; slots = fee_slot ∷ [] })
unfolding load_slot_schema
load_slot_schema-IsSchema_example =
    load_slot_schema-IsSchema "k" (mapping raw_schema)
      (record { corpus_id = "k"; slots = fee_slot ∷ [] }) refl

-- The indexes below `n`, and an `argsort` by the library's sort.
abbrev below : ℕ → List ℕ
below zero = []
below (suc n) = n ∷ below n

below-lt : (n : ℕ) → All (λ i. i < n) (below n)
below-lt zero = tt
below-lt (suc n) = (omega arith, All-map (below n) (λ i h. omega (arith, h)) (below-lt n))

abbrev pub okapi : Okapi ℕ (List ℕ)
okapi = record {
  build = λ ts. map (λ t. length t) ts;
  corpus_size = length;
  get_scores = λ b ts. b;
  argsort = λ scores. sort_by (is_above scores) (below (length scores));
}

okapi-sorts :
    (scores : List ℕ)
    → All (λ i. i < length scores) (okapi.argsort scores)
      × IsSortedBy (is_above scores) (okapi.argsort scores)
okapi-sorts scores = (
  All-sort_by (is_above scores) (λ i. i < length scores) (below (length scores))
      (below-lt (length scores)),
  sort_by-IsSortedBy (is_above scores) (λ i j. nat_float.le_total _ _)
      (λ i j k a b. nat_float.le_trans _ _ _ b a) (below (length scores)),
)

abbrev fee_record : String → IndexRecord
fee_record id = record {
  chunk_id = id;
  doc_id = "d";
  section = "§0";
  text = "fee";
  chunk_index = 0;
  token_count = 1;
}

abbrev fee_scores : List ℕ
fee_scores = 1 ∷ 0 ∷ 3 ∷ []

abbrev fee_index : Bm25Index (List ℕ)
fee_index = record {
  corpus_id = "k";
  fingerprint = "f";
  records = fee_record "a" ∷ fee_record "b" ∷ fee_record "c" ∷ [];
  bm25 = fee_scores;
}

search_lem_example : Bm25.search okapi fee_index "fee" 2 ≡ (
    if is_nil (tokenize "fee")
    then ok []
    else ok (
        ranked fee_index fee_scores 0
          (take 2 (keep (is_positive fee_scores) (okapi.argsort fee_scores)))))
search_lem_example = search_lem okapi okapi-sorts fee_index (λ ts. refl) refl "fee" 2

abbrev pickle : Pickle (List ℕ) (Saved (List ℕ))
pickle = record { dumps = λ d. d; loads = λ d. some (Unpickled.index_dict d) }

load-save_example : load okapi pickle (some (save okapi pickle fee_index)) "k2" ≡ index_error
unfolding validate_corpus_id
load-save_example = load-save okapi pickle (λ d. refl) fee_index refl "k2" refl

abbrev pub zeros : ℕ → List ℕ
zeros zero = []
zeros (suc n) = 0 ∷ zeros n

abbrev pub fee_chunk : Chunk
fee_chunk = record {
  chunk_id = "a";
  doc_id = "d";
  section = "§0";
  text = "fee";
  token_count = 1;
  chunk_index = 0;
  bm25_tokens = "fee" ∷ [];
}

abbrev scored : Point ℕ → ScoredPoint ℕ
scored p = record {
  id = p.id;
  score = 1;
  corpus_id = some p.corpus_id;
  fields = some (record {
    doc_id = p.doc_id;
    section = p.section;
    text = p.text;
    chunk_index = p.chunk_index;
    token_count = p.token_count;
  });
}

abbrev in_corpus : String → List (Point ℕ) → List (Point ℕ)
in_corpus c q = keep (λ p. p.corpus_id == c) q

-- A store that is a list of points.
abbrev pub client : Qdrant ℕ (List (Point ℕ))
client = record {
  collection_exists = λ q. true;
  vectors = λ q. some (record { size = 384; is_cosine = true });
  create_collection = λ v q. q;
  create_payload_index = λ s q. q;
  upsert = λ ps q. ok (q ++ ps);
  scroll = λ c offset q. ok (map (λ p. p.id) (in_corpus c q), none);
  delete = λ ids q. ok (keep (λ p. not (any (λ i. i == p.id) ids)) q);
  count = λ c q. length (in_corpus c q);
  query_points = λ c v k q. ok (map scored (take k (in_corpus c q)));
}

upsert_chunks_lem_example :
    (points : List (Point ℕ)) × (batches : List (List (Point ℕ))) × IsPoints "k"
      (fee_chunk ∷ fee_chunk ∷ [])
      (zeros 384 ∷ zeros 384 ∷ [])
      points
    × (concat batches ≡ points)
    × IsBatched 128 batches
    × (upsert_chunks client "k" (fee_chunk ∷ fee_chunk ∷ []) (zeros 384 ∷ zeros 384 ∷ []) []
        ≡ for_each client client.upsert batches [])
unfolding validate_corpus_id
upsert_chunks_lem_example =
    upsert_chunks_lem client "k" (fee_chunk ∷ fee_chunk ∷ []) (zeros 384 ∷ zeros 384 ∷ []) [] refl
      refl (refl, (refl, tt))

abbrev stored_point : String → String → Point ℕ
stored_point id corpus_id = record {
  id = id;
  vector = [];
  doc_id = "d";
  corpus_id = corpus_id;
  section = "§0";
  text = "fee";
  chunk_index = 0;
  token_count = 1;
}

search_vector-IsAnswer_example :
    (c : String) × (points : List (ScoredPoint ℕ)) × (validate_corpus_id "k" ≡ ok c)
    × (client.query_points c [] 2 (stored_point "a" "j" ∷ stored_point "b" "k" ∷ []) ≡ ok points)
    × IsAnswer c 1 points (Bm25.hit_of "k" 1 1 (fee_record "b") ∷ [])
unfolding search_vector
search_vector-IsAnswer_example =
    search_vector-IsAnswer client "k" [] 2 (stored_point "a" "j" ∷ stored_point "b" "k" ∷ [])
      (Bm25.hit_of "k" 1 1 (fee_record "b") ∷ []) refl

-- A model of two dimensions, which refuses the empty text.
abbrev encoder : Library String ℕ
encoder = record {
  load = ok;
  dimension_of = λ m. some 2;
  encode = λ m text. if is_nil (tokenize text) then raise (external "empty") else ok (1 ∷ 0 ∷ []);
  encode_all = λ m n texts. ok (map (λ t. 1 ∷ 0 ∷ []) texts);
}

abbrev one_entry : Options
one_entry = record { model_name = "bge"; dimension = 2; batch_size = 32; cache_size = 1 }

abbrev queries : List String
queries = "a b" ∷ "a b" ∷ "" ∷ "c" ∷ "a b" ∷ []

embed_each_lem_example :
    ((embed_each encoder one_entry queries new_embedder).0
      ≡ map (embed_fresh encoder one_entry) queries)
    × (length (embed_each encoder one_entry queries new_embedder).1.cached ≤ one_entry.cache_size)
embed_each_lem_example = embed_each_lem encoder one_entry queries
