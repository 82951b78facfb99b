-- ===== src/Float.antt =====
-- Python's floats, as the parameter of every definition that computes with scores or embeddings,
-- and the cosine that app/session/delta_engine.py, app/retrieval/fusion.py,
-- app/controller/retrieval_controller.py and app/decomposition/multi_intent.py each define alike.
use streaming_rag.Prelude.{
  ℕ, ◌≡◌, ◌⊎◌, Bool, true, not, ◌&&◌, ◌||◌, List, [], ◌∷◌, Result, ok, raise, value_error, ◌>>=◌,
  if◌then◌else◌, leb, arith, Bool-cases, inl, inr, ◌+◌, ◌*◌, ◌/◌,
}

-- The operations that the code applies, and what it relies on: without NaN, `<=` is a total and
-- transitive order.
pub record Float (F : Type 0) : Type 0 where
  pub of_ℕ : ℕ → F
  pub add : F → F → F
  pub mul : F → F → F
  pub div : F → F → F
  pub sqrt : F → F
  pub le : F → F → Bool
  pub le_total : (a b : F) → (le a b ≡ true) ⊎ (le b a ≡ true)
  pub le_trans : (a b c : F) → le a b ≡ true → le b c ≡ true → le a c ≡ true

module _ {F : Type 0} ⦃fl : Float F⦄ where
  abbrev pub zero_float : F
  zero_float = fl.of_ℕ 0

  abbrev pub less : F → F → Bool
  less a b = not (fl.le b a)

  abbrev pub same : F → F → Bool
  same a b = fl.le a b && fl.le b a

  -- `sum(xs)`, from the left
  unfoldable pub sum_from : F → List F → F
  sum_from acc [] = acc
  sum_from acc (x ∷ xs) = sum_from (fl.add acc x) xs

  -- `sum(x * y for x, y in zip(a, b, strict=True))`, which raises on different lengths
  unfoldable pub dot_from : F → List F → List F → Result F
  dot_from acc [] [] = ok acc
  dot_from acc [] (y ∷ ys) = raise value_error
  dot_from acc (x ∷ xs) [] = raise value_error
  dot_from acc (x ∷ xs) (y ∷ ys) = dot_from (fl.add acc (fl.mul x y)) xs ys

  unfoldable pub squares : F → List F → F
  squares acc [] = acc
  squares acc (x ∷ xs) = squares (fl.add acc (fl.mul x x)) xs

  unfoldable pub cosine : List F → List F → Result F
  unfolding dot_from squares
  cosine a b = do
    dot ← dot_from zero_float a b
    let norm_a = fl.sqrt (squares zero_float a)
    let norm_b = fl.sqrt (squares zero_float b)
    ok (
        if same norm_a zero_float || same norm_b zero_float
        then zero_float
        else fl.div dot (fl.mul norm_a norm_b))

pub leb_total : (a b : ℕ) → (leb a b ≡ true) ⊎ (leb b a ≡ true)
leb_total a b = elim (Bool-cases (leb a b)) [ inl e ↦ inl e | inr e ↦ inr (ground arith) ]

pub leb_trans : (a b c : ℕ) → leb a b ≡ true → leb b c ≡ true → leb a c ≡ true
leb_trans a b c h k = ground arith

-- The numbers, as a model of the interface: used where a theorem is applied at an example.
instance abbrev pub nat_float : Float ℕ
nat_float = record {
  of_ℕ = λ n. n;
  add = λ a b. a + b;
  mul = λ a b. a * b;
  div = λ a b. a / b;
  sqrt = λ a. a;
  le = leb;
  le_total = leb_total;
  le_trans = leb_trans;
}
