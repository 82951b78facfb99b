-- ===== src/Decomposition/MultiIntent/Merge.antt =====
-- `merge_similar` of app/decomposition/multi_intent.py loses nothing of what was asked.
use mathlib.Core.List.{Perm}
use mathlib.Core.List.Perm
use streaming_rag.Prelude.{
  ℕ, zero, suc, ◌+◌, ◌<◌, ◌≡◌, refl, sym, ap, subst, ◌∙◌, String, Option, none, some, List, [], ◌∷◌,
  ◌++◌, length, append-nil, append_assoc, arith, Result, ok, raise, >>=-ok, Bool-cases, inl, inr,
  length-append,
}
use streaming_rag.Float.{Float, less, cosine}
use streaming_rag.Decomposition.MultiIntent.{
  ProposedSubQuery, Kept, absorb, similar_index, merge_from, merge_similar,
}

-- Every text that the kept sub-queries stand for: their own and the ones merged into them.
abbrev pub texts_of : List Kept → List String
texts_of [] = []
texts_of ((sq, ts) ∷ ks) = sq.text ∷ (ts ++ texts_of ks)

abbrev pub proposed_texts : List ProposedSubQuery → List String
proposed_texts [] = []
proposed_texts (sq ∷ sqs) = sq.text ∷ proposed_texts sqs

-- An element may move to the front.
to_front : {A : Type 0} (xs : List A) (y : A) (ys : List A) → Perm (xs ++ (y ∷ ys)) (y ∷ (xs ++ ys))
to_front [] y ys = Perm.refl _
to_front (x ∷ xs) y ys = Perm.trans (Perm.cons x (to_front xs y ys)) (Perm.swap y x (xs ++ ys))

absorb-perm :
    (i : ℕ) (t : String) (ks : List Kept)
    → i < length ks
    → Perm (texts_of (absorb i t ks)) (t ∷ texts_of ks)
absorb-perm i t [] h = absurd (omega arith)
absorb-perm zero t ((sq, ts) ∷ ks) h =
    Perm.trans
      (Perm.cons sq.text (
        subst (λ xs. Perm xs (t ∷ (ts ++ texts_of ks)))
          (sym (append_assoc ts (t ∷ []) (texts_of ks))) (to_front ts t (texts_of ks))))
      (Perm.swap t sq.text (ts ++ texts_of ks))
absorb-perm (suc i) t ((sq, ts) ∷ ks) h =
    Perm.trans
      (Perm.cons sq.text (
        Perm.trans (Perm.append_left ts (absorb-perm i t ks (omega arith)))
          (to_front ts t (texts_of ks))))
      (Perm.swap t sq.text (ts ++ texts_of ks))

length-absorb : (i : ℕ) (t : String) (ks : List Kept) → length (absorb i t ks) ≡ length ks
length-absorb i t [] = refl
length-absorb zero t (k ∷ ks) = refl
length-absorb (suc i) t (k ∷ ks) = ap suc (length-absorb i t ks)

texts_of-append :
    (ks : List Kept) (sq : ProposedSubQuery) (ts : List String)
    → texts_of (ks ++ ((sq, []) ∷ [])) ++ ts ≡ texts_of ks ++ (sq.text ∷ ts)
texts_of-append [] sq ts = refl
texts_of-append ((k, us) ∷ ks) sq ts = ap (◌∷◌ k.text) (
    append_assoc us _ ts
    ∙ ap (λ xs. us ++ xs) (texts_of-append ks sq ts)
    ∙ sym (append_assoc us (texts_of ks) _))

module _ {F : Type 0} ⦃fl : Float F⦄ (embed : String → Result (List F)) (threshold : F) where
  -- An index that `similar_index` finds is in range.
  similar_index-lt :
      (i : ℕ) (ks : List (List F)) (e : List F) (j : ℕ)
      → similar_index embed threshold i ks e ≡ ok (some j)
      → j < i + length ks
  unfolding similar_index
  similar_index-lt i [] e j h = cc
  similar_index-lt i (k ∷ ks) e j h =
      let (s, _, h') = >>=-ok (cosine k e) _ h in
      elim (Bool-cases (less threshold s)) [
        | inl c ↦ first (ap some_of (rw c at h'))
        | inr c ↦ omega (arith, similar_index-lt (suc i) ks e j (rw c at h'))
      ]
    where
      some_of : Result (Option ℕ) → ℕ
      some_of (ok (some n)) = n
      some_of _ = j

      first : i ≡ j → j < i + suc (length ks)
      first p = omega arith

  merge_from-perm :
      (kept : List Kept) (embeddings : List (List F)) (sqs : List ProposedSubQuery)
      (merged : List Kept)
      → length embeddings ≡ length kept
      → merge_from embed threshold kept embeddings sqs ≡ ok merged
      → Perm (texts_of merged) (texts_of kept ++ proposed_texts sqs)
  unfolding merge_from
  merge_from-perm kept embeddings [] merged l h =
      subst (λ ks. Perm (texts_of ks) (texts_of kept ++ [])) (ap kept_of h)
        (subst (Perm (texts_of kept)) (sym (append-nil (texts_of kept))) (Perm.refl _))
    where
      kept_of : Result (List Kept) → List Kept
      kept_of (ok ks) = ks
      kept_of (raise e) = kept
  merge_from-perm kept embeddings (sq ∷ sqs) merged l h =
      let (e, _, h1) = >>=-ok (embed sq.text) _ h in
      let (dup, q, h2) = >>=-ok (similar_index embed threshold 0 embeddings e) _ h1 in
      step e dup q h2 (λ kept' embeddings' m k. merge_from-perm kept' embeddings' sqs merged m k)
    where
      step :
          (e : List F) (dup : Option ℕ)
          → similar_index embed threshold 0 embeddings e ≡ ok dup
          → (elim dup [
            | none ↦
                merge_from embed threshold (kept ++ ((sq, []) ∷ [])) (embeddings ++ (e ∷ [])) sqs
            | some i ↦ merge_from embed threshold (absorb i sq.text kept) embeddings sqs
          ])
            ≡ ok merged
          → ((kept' : List Kept) (embeddings' : List (List F))
              → length embeddings' ≡ length kept'
              → merge_from embed threshold kept' embeddings' sqs ≡ ok merged
              → Perm (texts_of merged) (texts_of kept' ++ proposed_texts sqs))
          → Perm (texts_of merged) (texts_of kept ++ (sq.text ∷ proposed_texts sqs))
      step e none q k rest =
          subst (Perm (texts_of merged)) (texts_of-append kept sq (proposed_texts sqs)) (
            rest _ _
              (omega (arith, length-append embeddings (e ∷ []), length-append kept ((sq, []) ∷ [])))
              k)
      step e (some i) q k rest = Perm.trans (rest _ _ (l ∙ sym (length-absorb i sq.text kept)) k) (
          Perm.trans
            (Perm.append_right (proposed_texts sqs)
              (absorb-perm i sq.text kept (omega (arith, similar_index-lt 0 embeddings e i q))))
            (Perm.symm (to_front (texts_of kept) sq.text (proposed_texts sqs))))

  -- What `merge_similar` returns stands, counting the texts merged into each kept sub-query, for the
  -- same texts as were proposed, each as often.
  pub merge_similar-perm :
      (proposed : List ProposedSubQuery) (merged : List Kept)
      → merge_similar embed threshold proposed ≡ ok merged
      → Perm (texts_of merged) (proposed_texts proposed)
  unfolding merge_similar
  merge_similar-perm proposed merged h = merge_from-perm [] [] proposed merged refl h
