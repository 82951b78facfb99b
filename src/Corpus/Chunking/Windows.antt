-- ===== src/Corpus/Chunking/Windows.antt =====
-- The windows of an over-long paragraph (`_windows` of scripts/ingest_corpus.py) leave no token out.
use Prim.Native.Nat.{min}
use streaming_rag.Prelude.{
  ℕ, zero, suc, ◌+◌, ◌≤◌, ◌<◌, ◌≡◌, refl, false, List, [], ◌∷◌, arith, Bool-cases, inl, inr, eqb,
  leb, eqb_iff,
}
use streaming_rag.Corpus.Chunking.{ranges_from, step_of, window_ranges}

-- Windows from token `start` to the last of `n`: the first starts at `start`, each has a token at
-- least and `budget` at most, the next starts after it but not past its end, and the last one ends
-- with the tokens.
abbrev pub Covers : ℕ → ℕ → ℕ → List (ℕ × ℕ) → Type 0
Covers n budget start [] = ⊥
Covers n budget start ((a, b) ∷ []) = (a ≡ start) × (a < b) × (b ≤ a + budget) × (b ≡ n)
Covers n budget start ((a, b) ∷ (c, d) ∷ rs) =
    (a ≡ start) × (a < b) × (b ≤ a + budget) × (a < c) × (c ≤ b) × Covers n budget c ((c, d) ∷ rs)

-- The windows that follow one, with the start of the next.
Covers-cons :
    (n budget a b c : ℕ) (rs : List (ℕ × ℕ))
    → a < b
    → b ≤ a + budget
    → a < c
    → c ≤ b
    → Covers n budget c rs
    → Covers n budget a ((a, b) ∷ rs)
Covers-cons n budget a b c [] h k l m r = absurd r
Covers-cons n budget a b c ((d, e) ∷ []) h k l m (p, q, r, s) =
    (refl, h, k, omega arith, omega arith, (refl, q, r, s))
Covers-cons n budget a b c ((d, e) ∷ (f, g) ∷ rs) h k l m (p, q, r, s, t, w) =
    (refl, h, k, omega arith, omega arith, (refl, q, r, s, t, w))

ranges_from-Covers :
    (fuel n budget step start : ℕ)
    → start < n
    → n ≤ start + fuel
    → 0 < step
    → step ≤ budget
    → Covers n budget start (ranges_from fuel n budget step start)
unfolding ranges_from
ranges_from-Covers zero n budget step start h k l m = absurd (omega arith)
ranges_from-Covers (suc fuel) n budget step start h k l m =
    elim (Bool-cases (eqb (min (start + budget) n) n)) [
      | inl e ↦
          rw (more, e) (refl, grind arith, grind arith, (eqb_iff (min (start + budget) n) n).0 e)
      | inr e ↦
          rw (more, e)
            (Covers-cons n budget start (min (start + budget) n) (start + step) _ (grind arith)
              (grind arith) (omega arith) (grind (arith, inside e))
              (ranges_from-Covers fuel n budget step (start + step) (grind (arith, inside e))
                (omega arith) l m))
    ]
  where
    more : leb n start ≡ false
    more = ground arith

    inside : eqb (min (start + budget) n) n ≡ false → start + budget < n
    inside e = ground arith

-- Whatever the overlap, the windows of a paragraph of `n` tokens go from its first token to its
-- last without a gap, each with `budget` tokens at most and each starting past the one before.
pub window_ranges-Covers :
    (n budget overlap : ℕ) → 0 < n → 0 < budget → Covers n budget 0 (window_ranges n budget overlap)
unfolding window_ranges
window_ranges-Covers n budget overlap h k =
    ranges_from-Covers n n budget (step_of budget overlap) 0 h (omega arith) (omega arith)
      (omega arith)
