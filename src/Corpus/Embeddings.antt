-- ===== src/Corpus/Embeddings.antt =====
-- app/core/embeddings.py: `SentenceTransformerEmbedder`, one call after another. The state is the
-- loaded model and what `lru_cache` holds, the entry that is used last at the end; the
-- sentence-transformers library is a parameter.
pub mod Cached
use streaming_rag.Prelude.{
  ℕ, zero, suc, ◌+◌, String, Bool, false, Option, none, some, List, [], ◌∷◌, ◌++◌, length, drop,
  ltb, ◌==◌, nat_eq, string_eq, if◌then◌else◌, Dict, lookup, Result, ok, raise, external, ◌>>=◌,
}

-- `SentenceTransformer(name)`, `get_sentence_embedding_dimension` and `encode` of one text and of
-- a list of them.
pub record Library (M F : Type 0) : Type 0 where
  pub load : String → Result M
  pub dimension_of : M → Option ℕ
  pub encode : M → String → Result (List F)
  pub encode_all : M → ℕ → List String → Result (List (List F))

pub record Options : Type 0 where
  pub model_name : String
  pub dimension : ℕ
  pub batch_size : ℕ
  pub cache_size : ℕ

pub record Embedder (M F : Type 0) : Type 0 where
  pub model : Option M
  pub cached : Dict String (List F)

abbrev pub embedding_error : {A : Type 0} → Result A
embedding_error = raise (external "EmbeddingError")

-- `_to_vector`
unfoldable pub to_vector : {F : Type 0} → ℕ → List F → Result (List F)
to_vector dimension values = if length values == dimension then ok values else embedding_error

-- The cache after a hit: the entry moves to the end.
unfoldable pub without : {V : Type 0} → String → Dict String V → Dict String V
without text [] = []
without text ((t, v) ∷ d) = let rest = without text d in if t == text then d else (t, v) ∷ rest

-- The cache after a miss: a full one loses its first entry, and one of no size takes none.
unfoldable pub remember : {V : Type 0} → ℕ → String → V → Dict String V → Dict String V
remember size text v d =
    if size == 0
    then d
    else (if ltb (length d) size then d ++ (text, v) ∷ [] else drop 1 d ++ (text, v) ∷ [])

abbrev pub new_embedder : {M F : Type 0} → Embedder M F
new_embedder = record { model = none; cached = [] }

abbrev pub is_dimension : Option ℕ → ℕ → Bool
is_dimension none n = false
is_dimension (some m) n = m == n

module _ {M F : Type 0} (lib : Library M F) (opts : Options) where
  abbrev pub check_model : M → Result M
  check_model m = if is_dimension (lib.dimension_of m) opts.dimension then ok m else embedding_error

  -- `_get_model`, with what `_model` is after it
  unfoldable pub get_model : Option M → Result M
  get_model (some m) = ok m
  get_model none = lib.load opts.model_name >>= check_model

  abbrev pub kept : Result M → Option M
  kept (ok m) = some m
  kept (raise e) = none

  -- `_embed_uncached`
  unfoldable pub embed_uncached : Option M → String → Result (List F)
  embed_uncached model text =
      get_model model >>= (λ m. lib.encode m text >>= to_vector opts.dimension)

  abbrev pub add : String → Result (List F) → Dict String (List F) → Dict String (List F)
  add text (ok v) d = remember opts.cache_size text v d
  add text (raise e) d = d

  abbrev pub answer : String → Option (List F) → Embedder M F → Result (List F) × Embedder M F
  answer text (some v) e =
      (ok v, record { model = e.model; cached = without text e.cached ++ (text, v) ∷ [] })
  answer text none e = (
    embed_uncached e.model text,
    record {
      model = kept (get_model e.model);
      cached = add text (embed_uncached e.model text) e.cached;
    },
  )

  -- `embed`
  unfoldable pub embed : String → Embedder M F → Result (List F) × Embedder M F
  embed text e = answer text (lookup text e.cached) e

  -- `embed` of one text after another
  unfoldable pub embed_each : List String → Embedder M F → List (Result (List F)) × Embedder M F
  embed_each [] e = ([], e)
  embed_each (text ∷ texts) e =
      let (first, e1) = embed text e in let (rest, e2) = embed_each texts e1 in (first ∷ rest, e2)

  -- `warmup`
  unfoldable pub warmup : Embedder M F → Result M × Embedder M F
  warmup e = (get_model e.model, record { model = kept (get_model e.model); cached = e.cached })

  abbrev pub to_vectors : List (List F) → Result (List (List F))
  to_vectors [] = ok []
  to_vectors (v ∷ vs) =
      let rest = to_vectors vs in to_vector opts.dimension v >>= (λ w. rest >>= (λ ws. ok (w ∷ ws)))

  -- `embed_batch`
  unfoldable pub embed_batch : List String → Embedder M F → Result (List (List F)) × Embedder M F
  embed_batch [] e = (ok [], e)
  embed_batch (t ∷ ts) e = (
    (get_model e.model >>= (λ m. lib.encode_all m opts.batch_size (t ∷ ts) >>= to_vectors)),
    record { model = kept (get_model e.model); cached = e.cached },
  )
