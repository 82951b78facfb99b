-- ===== src/Prelude/Sort.antt =====
-- Python's `sorted`: a stable sort by a test. Every stable sort is the same function, and this one
-- inserts from the right.
use Prim.Native.Nat.{suc}
use mathlib.Core.Path.{◌≡◌, refl, ap, ◌∙◌}
use mathlib.Core.Bool.{Bool, true, false}
use mathlib.Core.List.{List, [], ◌∷◌, map, Perm}
use mathlib.Core.List.Perm
use native.Mathlib.Omega.{arith}
use streaming_rag.Prelude.Tests.{if◌then◌else◌, Bool-cases}
use streaming_rag.Prelude.Lists.{length, All, All-map}
use mathlib.Core.Logic.{◌⊎◌, inl, inr}

module _ {ℓ} {A : Type ℓ} (before : A → A → Bool) where
  -- `x` goes in front of the first element that it may stand before.
  abbrev pub insert_by : A → List A → List A
  insert_by x [] = x ∷ []
  insert_by x (y ∷ ys) = let rest = insert_by x ys in if before x y then x ∷ y ∷ ys else y ∷ rest

  abbrev pub sort_by : List A → List A
  sort_by [] = []
  sort_by (x ∷ xs) = insert_by x (sort_by xs)

  -- Every element may stand before all that follow it.
  abbrev pub IsSortedBy : List A → Type ℓ
  IsSortedBy [] = Unit
  IsSortedBy (x ∷ xs) = All (λ y. before x y ≡ true) xs × IsSortedBy xs

  pub length-insert_by : (x : A) (xs : List A) → length (insert_by x xs) ≡ suc (length xs)
  length-insert_by x [] = refl
  length-insert_by x (y ∷ ys) = ground (arith, length-insert_by x ys)

  pub length-sort_by : (xs : List A) → length (sort_by xs) ≡ length xs
  length-sort_by [] = refl
  length-sort_by (x ∷ xs) = length-insert_by x (sort_by xs) ∙ ap suc (length-sort_by xs)

  insert_by-perm : (x : A) (xs : List A) → Perm (insert_by x xs) (x ∷ xs)
  insert_by-perm x [] = Perm.refl _
  insert_by-perm x (y ∷ ys) = elim (Bool-cases (before x y)) [
    | inl e ↦ rw e (Perm.refl _)
    | inr e ↦ rw e (Perm.trans (Perm.cons y (insert_by-perm x ys)) (Perm.swap x y ys))
  ]

  pub sort_by-perm : (xs : List A) → Perm (sort_by xs) xs
  sort_by-perm [] = Perm.refl _
  sort_by-perm (x ∷ xs) = Perm.trans (insert_by-perm x (sort_by xs)) (Perm.cons x (sort_by-perm xs))

module _ {ℓ κ} {A : Type ℓ} (before : A → A → Bool) (P : A → Type κ) where
  pub All-insert_by : (x : A) (xs : List A) → P x → All P xs → All P (insert_by before x xs)
  All-insert_by x [] h k = (h, tt)
  All-insert_by x (y ∷ ys) h k = elim (Bool-cases (before x y)) [
    | inl e ↦ rw e (h, k)
    | inr e ↦ rw e (k.0, All-insert_by x ys h k.1)
  ]

  pub All-sort_by : (xs : List A) → All P xs → All P (sort_by before xs)
  All-sort_by [] h = tt
  All-sort_by (x ∷ xs) h = All-insert_by x (sort_by before xs) h.0 (All-sort_by xs h.1)

module _ {ℓ} {A : Type ℓ} (before : A → A → Bool)
    (total : (x y : A) → (before x y ≡ true) ⊎ (before y x ≡ true))
    (trans : (x y z : A) → before x y ≡ true → before y z ≡ true → before x z ≡ true) where
  insert_by-IsSortedBy :
      (x : A) (xs : List A) → IsSortedBy before xs → IsSortedBy before (insert_by before x xs)
  insert_by-IsSortedBy x [] h = (tt, tt)
  insert_by-IsSortedBy x (y ∷ ys) h = elim (Bool-cases (before x y)) [
    | inl e ↦ rw e ((e, All-map ys (λ z k. trans x y z e k) h.0), h)
    | inr e ↦ rw e (
      All-insert_by before (λ z. before y z ≡ true) x ys (other (total x y) e) h.0,
      insert_by-IsSortedBy x ys h.1,
    )
  ]
    where
      other : (before x y ≡ true) ⊎ (before y x ≡ true) → before x y ≡ false → before y x ≡ true
      other (inl p) q = cc
      other (inr p) q = p

  -- The sort sorts, for a total and transitive test.
  pub sort_by-IsSortedBy : (xs : List A) → IsSortedBy before (sort_by before xs)
  sort_by-IsSortedBy [] = tt
  sort_by-IsSortedBy (x ∷ xs) = insert_by-IsSortedBy x (sort_by before xs) (sort_by-IsSortedBy xs)

insert_by-map {ℓ κ} :
    {A : Type ℓ} {B : Type κ} (before : B → B → Bool) (f : A → B) (x : A) (xs : List A)
    → insert_by before (f x) (map f xs) ≡ map f (insert_by (λ a b. before (f a) (f b)) x xs)
insert_by-map before f x [] = refl
insert_by-map before f x (y ∷ ys) = ground (arith, insert_by-map before f x ys)

pub sort_by-map {ℓ κ} :
    {A : Type ℓ} {B : Type κ} (before : B → B → Bool) (f : A → B) (xs : List A)
    → sort_by before (map f xs) ≡ map f (sort_by (λ a b. before (f a) (f b)) xs)
sort_by-map before f [] = refl
sort_by-map before f (x ∷ xs) =
    ap (insert_by before (f x)) (sort_by-map before f xs)
    ∙ insert_by-map before f x (sort_by (λ a b. before (f a) (f b)) xs)
