-- ===== src/Corpus/Slots/Distinct.antt =====
-- Texts that are all different, as the validators of app/core/slots.py test it.
use streaming_rag.Prelude.{
  ◌≤◌, ◌<◌, ◌≡◌, refl, String, true, false, List, [], ◌∷◌, length, any, ◌==◌, string_eq, nat_eq,
  ltb, arith, Bool-cases, inl, inr,
}
use streaming_rag.Grounding.Tags.{unique}
use streaming_rag.Corpus.Slots.{count_of}

-- No text stands twice.
abbrev pub IsDistinct : List String → Type 0
IsDistinct [] = Unit
IsDistinct (x ∷ xs) = (any (λ y. y == x) xs ≡ false) × IsDistinct xs

length-unique-le : (xs : List String) → length (unique xs) ≤ length xs
length-unique-le [] = omega arith
length-unique-le (x ∷ xs) = ground (arith, length-unique-le xs)

pub unique-IsDistinct : (xs : List String) → length (unique xs) ≡ length xs → IsDistinct xs
unique-IsDistinct [] h = tt
unique-IsDistinct (x ∷ xs) h = elim (Bool-cases (any (λ y. y == x) xs)) [
  | inl e ↦ absurd (ground (arith, e, h, length-unique-le xs))
  | inr e ↦ (e, unique-IsDistinct xs (ground (arith, e, h)))
]

count_of-pos : (n : String) (xs : List String) → any (λ y. y == n) xs ≡ true → 0 < count_of n xs
count_of-pos n [] h = cc
count_of-pos n (x ∷ xs) h = ground (arith, h, count_of-pos n xs)

has_duplicates-tail :
    (ys xs : List String) (x : String)
    → any (λ n. ltb 1 (count_of n (x ∷ xs))) ys ≡ false
    → any (λ n. ltb 1 (count_of n xs)) ys ≡ false
has_duplicates-tail [] xs x h = refl
has_duplicates-tail (y ∷ ys) xs x h = ground (arith, h, has_duplicates-tail ys xs x)

pub has_duplicates-IsDistinct :
    (xs : List String) → any (λ n. ltb 1 (count_of n xs)) xs ≡ false → IsDistinct xs
has_duplicates-IsDistinct [] h = tt
has_duplicates-IsDistinct (x ∷ xs) h = (
  ground (arith, h, string_eq.equal_iff x x, count_of-pos x xs),
  has_duplicates-IsDistinct xs (has_duplicates-tail xs xs x (ground (arith, h))),
)
