-- ===== src/Corpus/Embeddings/Cached.antt =====
-- The cache of the embedder (app/core/embeddings.py).
use streaming_rag.Prelude.{
  ℕ, ◌+◌, ◌≤◌, ◌≡◌, refl, sym, ap, subst, ◌∙◌, inl, inr, String, Bool, true, false, Option, none,
  some, List, [], ◌∷◌, map, length, drop, ltb, ◌==◌, nat_eq, string_eq, if◌then◌else◌, Dict, lookup,
  Result, ok, raise, ◌>>=◌, arith, All, All-append, Bool-cases, length-append,
}
use streaming_rag.Corpus.Embeddings.{
  Library, Options, Embedder, new_embedder, without, remember, get_model, kept, embed_uncached, add,
  answer, to_vector, embed, embed_each,
}

module _ {V : Type 0} (P : String × V → Type 0) where
  All-without : (text : String) (d : Dict String V) → All P d → All P (without text d)
  unfolding without
  All-without text [] h = tt
  All-without text ((t, v) ∷ d) h = elim (Bool-cases (t == text)) [
    | inl e ↦ rw e h.1
    | inr e ↦ rw e (h.0, All-without text d h.1)
  ]

  abbrev AtSome : String → Option V → Type 0
  AtSome text none = Unit
  AtSome text (some v) = P (text, v)

  All-if : (b : Bool) (d c : Dict String V) → All P d → All P c → All P (if b then d else c)
  All-if true d c h k = h
  All-if false d c h k = k

  All-lookup :
      (text : String) (d : Dict String V) (v : V) → All P d → lookup text d ≡ some v → P (text, v)
  All-lookup text [] v h found = cc found
  All-lookup text ((t, w) ∷ d) v h found = elim (Bool-cases (t == text)) [
    | inl e ↦
        subst (AtSome text) (ap at_test (sym e) ∙ found)
          (subst (λ s. P (s, w)) ((string_eq.equal_iff t text).0 e) h.0)
    | inr e ↦ All-lookup text d v h.1 (ap at_test (sym e) ∙ found)
  ]
    where
      at_test : Bool → Option V
      at_test b = if b then some w else lookup text d

  All-remember :
      (size : ℕ) (text : String) (v : V) (d : Dict String V)
      → All P d
      → P (text, v)
      → All P (remember size text v d)
  unfolding remember
  All-remember size text v d h p = All-if (size == 0) d _ h (
      All-if (ltb (length d) size) _ _ (All-append P d ((text, v) ∷ []) h (p, tt))
        (All-append P (drop 1 d) ((text, v) ∷ []) (All-rest d h) (p, tt)))
    where
      All-rest : (c : Dict String V) → All P c → All P (drop 1 c)
      All-rest [] k = tt
      All-rest (x ∷ c) k = k.1

module _ {V : Type 0} where
  length-without :
      (text : String) (d : Dict String V) (v : V)
      → lookup text d ≡ some v
      → length (without text d) + 1 ≡ length d
  unfolding without
  length-without text [] v h = cc h
  length-without text ((t, w) ∷ d) v h = ground (arith, length-without text d v)

  length-remember :
      (size : ℕ) (text : String) (v : V) (d : Dict String V)
      → length d ≤ size
      → length (remember size text v d) ≤ size
  unfolding remember
  length-remember size text v [] h = ground arith
  length-remember size text v (x ∷ d) h =
      ground (arith, length-append (x ∷ d) ((text, v) ∷ []), length-append d ((text, v) ∷ []))

module _ {M F : Type 0} (lib : Library M F) (opts : Options) where
  -- What the model makes of a text in an embedder that is new.
  abbrev pub embed_fresh : String → Result (List F)
  embed_fresh = embed_uncached lib opts none

  abbrev IsEntry : String × List F → Type 0
  IsEntry entry = embed_fresh entry.0 ≡ ok entry.1

  -- The entries are what the model makes of their texts, no more than the cache takes, and a model
  -- that is loaded is the one that would be.
  abbrev IsTrue : Embedder M F → Type 0
  IsTrue e =
      (get_model lib opts e.model ≡ get_model lib opts none)
      × All IsEntry e.cached
      × (length e.cached ≤ opts.cache_size)

  get_model-kept :
      (model : Option M)
      → get_model lib opts model ≡ get_model lib opts none
      → get_model lib opts (kept lib opts (get_model lib opts model)) ≡ get_model lib opts none
  unfolding get_model
  get_model-kept model same = by_result (get_model lib opts model) (sym same)
    where
      by_result :
          (r : Result M)
          → get_model lib opts none ≡ r
          → get_model lib opts (kept lib opts r) ≡ get_model lib opts none
      by_result (ok m) q = sym q
      by_result (raise e) q = refl

  add-IsTrue :
      (text : String) (r : Result (List F)) (d : Dict String (List F))
      → r ≡ embed_fresh text
      → All IsEntry d
      → length d ≤ opts.cache_size
      → All IsEntry (add lib opts text r d) × (length (add lib opts text r d) ≤ opts.cache_size)
  add-IsTrue text (ok v) d q h le = (
    All-remember IsEntry opts.cache_size text v d h (sym q),
    length-remember opts.cache_size text v d le,
  )
  add-IsTrue text (raise e) d q h le = (h, le)

  embed-IsTrue :
      (text : String) (e : Embedder M F)
      → IsTrue e
      → ((embed lib opts text e).0 ≡ embed_fresh text) × IsTrue (embed lib opts text e).1
  unfolding embed embed_uncached
  embed-IsTrue text e (same, entries, bounded) = by_lookup (lookup text e.cached) refl
    where
      as_fresh : embed_uncached lib opts e.model text ≡ embed_fresh text
      as_fresh = ap (λ r. r >>= (λ m. lib.encode m text >>= to_vector opts.dimension)) same

      by_lookup :
          (o : Option (List F))
          → lookup text e.cached ≡ o
          → ((answer lib opts text o e).0 ≡ embed_fresh text) × IsTrue (answer lib opts text o e).1
      by_lookup (some v) found = (
        sym (All-lookup IsEntry text e.cached v entries found),
        (
          same,
          All-append IsEntry (without text e.cached) ((text, v) ∷ [])
              (All-without IsEntry text e.cached entries)
              (All-lookup IsEntry text e.cached v entries found, tt),
          omega (
            arith,
            length-append (without text e.cached) ((text, v) ∷ []),
            length-without text e.cached v found,
          ),
        ),
      )
      by_lookup none missing =
          let (kept_true, still_bounded) =
            add-IsTrue text (embed_uncached lib opts e.model text) e.cached as_fresh entries
              bounded in
          (as_fresh, (get_model-kept e.model same, kept_true, still_bounded))

  embed_each-IsTrue :
      (texts : List String) (e : Embedder M F)
      → IsTrue e
      → ((embed_each lib opts texts e).0 ≡ map embed_fresh texts)
        × IsTrue (embed_each lib opts texts e).1
  unfolding embed_each
  embed_each-IsTrue [] e h = (refl, h)
  embed_each-IsTrue (text ∷ texts) e h =
      let (first, h1) = embed-IsTrue text e h in
      let (rest, h2) = embed_each-IsTrue texts (embed lib opts text e).1 h1 in
      (cc (first, rest), h2)

  -- The cache of an embedder is not seen in what it returns: a sequence of calls of `embed` on a
  -- new one returns for each text what the model makes of it, or its error, and the cache is then
  -- no larger than its size.
  pub embed_each_lem :
      (texts : List String)
      → ((embed_each lib opts texts new_embedder).0 ≡ map embed_fresh texts)
        × (length (embed_each lib opts texts new_embedder).1.cached ≤ opts.cache_size)
  embed_each_lem texts =
      let (same, (_, _, bounded)) = embed_each-IsTrue texts new_embedder (refl, tt, omega arith) in
      (same, bounded)
