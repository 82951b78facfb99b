-- ===== src/Retrieval/Fusion/Doubles.antt =====
-- What it is for a chunk to double another, in `dedup` of app/retrieval/fusion.py, and what its inner
-- loop finds.
use streaming_rag.Prelude.{
  ◌≡◌, refl, sym, subst, ◌∙◌, String, Bool, true, false, ◌⊎◌, inl, inr, Option, none, some, List,
  [], ◌∷◌, ◌++◌, All, All-append, Result, ok, raise, >>=-ok, ◌>>=◌, if◌then◌else◌, ◌==◌, string_eq,
  Bool-cases,
}
use streaming_rag.Float.{Float, less, cosine}
use streaming_rag.Models.{RetrievedChunk}
use streaming_rag.Retrieval.Fusion.{Row, find_duplicate}

module _ {A : Type 0} where
  -- `a` stands in a list.
  abbrev pub IsIn : A → List A → Type 0
  IsIn a [] = ⊥
  IsIn a (x ∷ xs) = (a ≡ x) ⊎ IsIn a xs

  pub IsIn-append_left : (a : A) (xs ys : List A) → IsIn a xs → IsIn a (xs ++ ys)
  IsIn-append_left a [] ys h = absurd h
  IsIn-append_left a (x ∷ xs) ys (inl e) = inl e
  IsIn-append_left a (x ∷ xs) ys (inr h) = inr (IsIn-append_left a xs ys h)

  pub IsIn-last : (a : A) (xs ys : List A) → IsIn a (xs ++ (a ∷ ys))
  IsIn-last a [] ys = inl refl
  IsIn-last a (x ∷ xs) ys = inr (IsIn-last a xs ys)

  pub All-IsIn : (P : A → Type 0) (xs : List A) → All P xs → (a : A) → IsIn a xs → P a
  All-IsIn P [] h a m = absurd m
  All-IsIn P (x ∷ xs) h a (inl e) = subst P (sym e) h.0
  All-IsIn P (x ∷ xs) h a (inr m) = All-IsIn P xs h.1 a m

module _ {F : Type 0} ⦃fl : Float F⦄ (embed : String → Result (List F)) (threshold : F) where
  -- Whether a chunk doubles another: the same chunk, or texts that are more alike than the threshold.
  abbrev pub doubles : RetrievedChunk F → RetrievedChunk F → Result Bool
  doubles chunk kept =
      if chunk.chunk_id == kept.chunk_id
      then ok true
      else (embed kept.text >>= λ a.
          embed chunk.text >>= λ b. cosine b a >>= λ s. ok (less threshold s))

  -- Rows with their chunks, of which none doubles one before it.
  abbrev pub Apart : List (Row F × RetrievedChunk F) → Type 0
  Apart [] = Unit
  Apart (k ∷ ks) = All (λ j. doubles j.1 k.1 ≡ ok false) ks × Apart ks

  abbrev pub FindsIn : RetrievedChunk F → List (Row F × RetrievedChunk F) → Option (Row F) → Type 0
  FindsIn chunk kept none = All (λ k. doubles chunk k.1 ≡ ok false) kept
  FindsIn chunk kept (some d) =
      (k : Row F × RetrievedChunk F) × IsIn k kept × (doubles chunk k.1 ≡ ok true) × (k.0 ≡ d)

  FindsIn-cons :
      (chunk : RetrievedChunk F) (k : Row F × RetrievedChunk F)
      (rest : List (Row F × RetrievedChunk F)) (dup : Option (Row F))
      → doubles chunk k.1 ≡ ok false
      → FindsIn chunk rest dup
      → FindsIn chunk (k ∷ rest) dup
  FindsIn-cons chunk k rest none apart h = (apart, h)
  FindsIn-cons chunk k rest (some d) apart (j, m, twice, same) = (j, inr m, twice, same)

  -- The first kept row is asked whether it is doubled.
  find_duplicate-doubles :
      (chunk k : RetrievedChunk F) (row : Row F) (rest : List (Row F × RetrievedChunk F))
      → find_duplicate embed threshold chunk ((row, k) ∷ rest) ≡ (
          doubles chunk k >>= λ b.
          if b then ok (some row) else find_duplicate embed threshold chunk rest)
  unfolding find_duplicate
  find_duplicate-doubles chunk k row rest = elim (Bool-cases (chunk.chunk_id == k.chunk_id)) [
    | inl e ↦ rw e refl
    | inr e ↦ rw e (embedded (embed k.text) (embed chunk.text))
  ]
    where
      next : Result (Option (Row F))
      next = find_duplicate embed threshold chunk rest

      compared :
          (r : Result F)
          → (r >>= λ s. if less threshold s then ok (some row) else next)
            ≡ ((r >>= λ s. ok (less threshold s)) >>= λ b. if b then ok (some row) else next)
      compared (ok s) = refl
      compared (raise exc) = refl

      embedded :
          (x y : Result (List F))
          → (x >>= λ a.
              y >>= λ b. cosine b a >>= λ s. if less threshold s then ok (some row) else next)
            ≡ ((x >>= λ a. y >>= λ b. cosine b a >>= λ s. ok (less threshold s)) >>= λ b.
                if b then ok (some row) else next)
      embedded (raise exc) y = refl
      embedded (ok a) (raise exc) = refl
      embedded (ok a) (ok b) = compared (cosine b a)

  pub find_duplicate-FindsIn :
      (chunk : RetrievedChunk F) (kept : List (Row F × RetrievedChunk F)) (dup : Option (Row F))
      → find_duplicate embed threshold chunk kept ≡ ok dup
      → FindsIn chunk kept dup
  unfolding find_duplicate
  find_duplicate-FindsIn chunk [] dup h = subst (at_ok []) h tt
    where
      at_ok : List (Row F × RetrievedChunk F) → Result (Option (Row F)) → Type 0
      at_ok kept (ok d) = FindsIn chunk kept d
      at_ok kept (raise exc) = Unit
  find_duplicate-FindsIn chunk ((row, k) ∷ rest) dup h =
      let (b, e, h') =
        >>=-ok (doubles chunk k) _ (sym (find_duplicate-doubles chunk k row rest) ∙ h) in
      by_test b e (find_duplicate-FindsIn chunk rest dup) h'
    where
      at_ok : Result (Option (Row F)) → Type 0
      at_ok (ok d) = FindsIn chunk ((row, k) ∷ rest) d
      at_ok (raise exc) = Unit

      by_test :
          (b : Bool)
          → doubles chunk k ≡ ok b
          → (find_duplicate embed threshold chunk rest ≡ ok dup → FindsIn chunk rest dup)
          → (if b then ok (some row) else find_duplicate embed threshold chunk rest) ≡ ok dup
          → FindsIn chunk ((row, k) ∷ rest) dup
      by_test true e ih h' = subst at_ok h' ((row, k), inl refl, e, refl)
      by_test false e ih h' = FindsIn-cons chunk (row, k) rest dup e (ih h')

  pub Apart-snoc :
      (row : Row F) (chunk : RetrievedChunk F) (kept : List (Row F × RetrievedChunk F))
      → Apart kept
      → All (λ k. doubles chunk k.1 ≡ ok false) kept
      → Apart (kept ++ ((row, chunk) ∷ []))
  Apart-snoc row chunk [] h n = (tt, tt)
  Apart-snoc row chunk (k ∷ kept) h n = (
    All-append (λ j. doubles j.1 k.1 ≡ ok false) kept _ h.0 (n.0, tt),
    Apart-snoc row chunk kept h.1 n.1,
  )
