-- ===== src/Session/Buffer/Order.antt =====
-- Lists of chunks in sequence order, and pending sets with one chunk for each number.
use streaming_rag.Prelude.{
  ℕ, suc, ◌≤◌, ◌<◌, ◌≡◌, ◌≢◌, refl, false, none, some, List, [], ◌∷◌, ◌++◌, nat_eq, arith, sym, max,
  leb→le, eqb_iff, All-sort_by, Bool-cases, inl, inr, leb, eqb, All, All-map, insert_by, Dict,
  lookup, insert, remove, values,
}
use streaming_rag.Session.Buffer.{TranscriptChunk, seq_leb, seq_after, in_seq_order}

-- The numbers rise strictly from `lo` on and stay below `hi`.
abbrev pub Ascending : ℕ → List TranscriptChunk → ℕ → Type 0
Ascending lo [] hi = lo ≤ hi
Ascending lo (c ∷ cs) hi = (lo ≤ c.seq) × Ascending (suc c.seq) cs hi

-- The numbers are `lo`, `lo + 1`, ... and end just before `hi`.
abbrev pub Contiguous : ℕ → List TranscriptChunk → ℕ → Type 0
Contiguous lo [] hi = lo ≡ hi
Contiguous lo (c ∷ cs) hi = (c.seq ≡ lo) × Contiguous (suc lo) cs hi

-- Entries stand under their own number, past `next`.
abbrev pub Held : ℕ → Dict ℕ TranscriptChunk → Type 0
Held next = All (λ e. (e.1.seq ≡ e.0) × (next < e.0))

abbrev pub Distinct : Dict ℕ TranscriptChunk → Type 0
Distinct [] = Unit
Distinct (e ∷ p) = All (λ f. f.0 ≢ e.0) p × Distinct p

pub Ascending-append :
    (lo mid hi : ℕ) (xs ys : List TranscriptChunk)
    → Ascending lo xs mid
    → Ascending mid ys hi
    → Ascending lo (xs ++ ys) hi
Ascending-append lo mid hi [] [] h k = omega arith
Ascending-append lo mid hi [] (c ∷ cs) h k = (omega arith, k.1)
Ascending-append lo mid hi (c ∷ cs) ys h k = (h.0, Ascending-append _ mid hi cs ys h.1 k)

pub Ascending-le : (lo hi : ℕ) (xs : List TranscriptChunk) → Ascending lo xs hi → lo ≤ hi
Ascending-le lo hi [] h = h
Ascending-le lo hi (c ∷ cs) h = omega (arith, Ascending-le (suc c.seq) hi cs h.1)

pub Ascending-All :
    (lo hi : ℕ) (xs : List TranscriptChunk) → Ascending lo xs hi → All (λ c. lo ≤ c.seq) xs
Ascending-All lo hi [] h = tt
Ascending-All lo hi (c ∷ cs) h =
    (h.0, All-map cs (λ k q. omega (arith, h.0, q)) (Ascending-All (suc c.seq) hi cs h.1))

pub Ascending-of_Contiguous :
    (lo hi : ℕ) (xs : List TranscriptChunk) → Contiguous lo xs hi → Ascending lo xs hi
Ascending-of_Contiguous lo hi [] h = omega arith
Ascending-of_Contiguous lo hi (c ∷ cs) h =
    (omega arith, rw h.0 (Ascending-of_Contiguous (suc lo) hi cs h.1))

pub Contiguous-append :
    (lo mid hi : ℕ) (xs ys : List TranscriptChunk)
    → Contiguous lo xs mid
    → Contiguous mid ys hi
    → Contiguous lo (xs ++ ys) hi
Contiguous-append lo mid hi [] ys h k = rw h k
Contiguous-append lo mid hi (c ∷ cs) ys h k = (h.0, Contiguous-append _ mid hi cs ys h.1 k)

Ascending-weaken :
    (lo lo' hi : ℕ) (xs : List TranscriptChunk)
    → lo ≤ lo'
    → Ascending lo' xs hi
    → Ascending lo xs hi
Ascending-weaken lo lo' hi [] q h = omega arith
Ascending-weaken lo lo' hi (c ∷ cs) q h = (omega (arith, h.0), h.1)

leb-false : (a b : ℕ) → leb a b ≡ false → b < a
leb-false a b h = ground arith

Held-weaken : (m n : ℕ) (p : Dict ℕ TranscriptChunk) → m ≤ n → Held n p → Held m p
Held-weaken m n p h = All-map p (λ e k. (k.0, omega arith))

-- A removed entry was under its number, and the others have other numbers.
pub Held-remove :
    (next : ℕ) (p : Dict ℕ TranscriptChunk) (k : ℕ) → Held next p → Held next (remove k p)
Held-remove next [] k h = tt
Held-remove next ((j, w) ∷ p) k h = ground (arith, Held-remove next p k h.1)

pub Held-lookup :
    (next : ℕ) (p : Dict ℕ TranscriptChunk) (k : ℕ) (c : TranscriptChunk)
    → Held next p
    → lookup k p ≡ some c
    → (c.seq ≡ k) × (next < k)
Held-lookup next [] k c h e = cc
Held-lookup next ((j, w) ∷ p) k c h e = ground (arith, Held-lookup next p k c h.1)

All-remove :
    (j k : ℕ) (p : Dict ℕ TranscriptChunk) → All (λ e. e.0 ≢ j) p → All (λ e. e.0 ≢ j) (remove k p)
All-remove j k [] h = tt
All-remove j k ((i, w) ∷ p) h = elim (Bool-cases (eqb i k)) [
  | inl e ↦ rw e h.1
  | inr e ↦ rw e (h.0, All-remove j k p h.1)
]

pub Distinct-remove : (p : Dict ℕ TranscriptChunk) (k : ℕ) → Distinct p → Distinct (remove k p)
Distinct-remove [] k d = tt
Distinct-remove ((j, w) ∷ p) k d = elim (Bool-cases (eqb j k)) [
  | inl e ↦ rw e d.1
  | inr e ↦ rw e (All-remove j k p d.0, Distinct-remove p k d.1)
]

-- With its number gone from the rest, nothing is left under a removed number.
pub remove-fresh :
    (p : Dict ℕ TranscriptChunk) (k : ℕ) → Distinct p → All (λ e. e.0 ≢ k) (remove k p)
remove-fresh [] k d = tt
remove-fresh ((j, w) ∷ p) k d = elim (Bool-cases (eqb j k)) [
  | inl e ↦ rw e (rw ((eqb_iff j k).0 e) at d.0)
  | inr e ↦ rw e ((λ q. cc ((eqb_iff j k).1 q)), remove-fresh p k d.1)
]

-- Past `next` and never `next + 1` is past `next + 1`.
pub Held-suc :
    (next : ℕ) (p : Dict ℕ TranscriptChunk)
    → Held next p
    → All (λ e. e.0 ≢ suc next) p
    → Held (suc next) p
Held-suc next [] h d = tt
Held-suc next (e ∷ p) h d = ((h.0.0, omega (arith, h.0.1, d.0)), Held-suc next p h.1 d.1)

pub fresh_of_none : (p : Dict ℕ TranscriptChunk) (k : ℕ) → lookup k p ≡ none → All (λ e. e.0 ≢ k) p
fresh_of_none [] k h = tt
fresh_of_none ((j, w) ∷ p) k h = elim (Bool-cases (eqb j k)) [
  | inl e ↦ absurd (ground arith)
  | inr e ↦ ((λ q. cc ((eqb_iff j k).1 q)), fresh_of_none p k (ground arith))
]

pub Held-insert :
    (next : ℕ) (p : Dict ℕ TranscriptChunk) (c : TranscriptChunk)
    → next < c.seq
    → Held next p
    → Held next (insert c.seq c p)
Held-insert next [] c q h = ((refl, q), tt)
Held-insert next ((j, w) ∷ p) c q h = ground (arith, Held-insert next p c q h.1)

All-insert :
    (j k : ℕ) (p : Dict ℕ TranscriptChunk) (c : TranscriptChunk)
    → k ≢ j
    → All (λ e. e.0 ≢ j) p
    → All (λ e. e.0 ≢ j) (insert k c p)
All-insert j k [] c q h = (q, tt)
All-insert j k ((i, w) ∷ p) c q h = elim (Bool-cases (eqb i k)) [
  | inl e ↦ rw e h
  | inr e ↦ rw e (h.0, All-insert j k p c q h.1)
]

pub Distinct-insert :
    (p : Dict ℕ TranscriptChunk) (k : ℕ) (c : TranscriptChunk)
    → Distinct p
    → Distinct (insert k c p)
Distinct-insert [] k c d = (tt, tt)
Distinct-insert ((j, w) ∷ p) k c d = elim (Bool-cases (eqb j k)) [
  | inl e ↦ rw e d
  | inr e ↦
      rw e (All-insert j k p c (λ q. cc ((eqb_iff j k).1 (sym q))) d.0, Distinct-insert p k c d.1)
]

-- One more than the last number, as a bound on all.
abbrev Bounded : ℕ → List TranscriptChunk → Type 0
Bounded hi = All (λ c. c.seq < hi)

insert_by-Ascending :
    (lo hi : ℕ) (x : TranscriptChunk) (xs : List TranscriptChunk)
    → lo ≤ x.seq
    → x.seq < hi
    → All (λ y. y.seq ≢ x.seq) xs
    → Ascending lo xs hi
    → Ascending lo (insert_by seq_leb x xs) hi
insert_by-Ascending lo hi x [] a b d h = (a, b)
insert_by-Ascending lo hi x (y ∷ ys) a b d h = elim (Bool-cases (leb x.seq y.seq)) [
  | inl e ↦ rw e (a, (omega (arith, leb→le x.seq y.seq e, d.0), h.1))
  | inr e ↦ rw e (
    h.0,
    insert_by-Ascending (suc y.seq) hi x ys (omega (arith, leb-false x.seq y.seq e)) b d.1 h.1,
  )
]

abbrev ValuesFresh : ℕ → List TranscriptChunk → Type 0
ValuesFresh k = All (λ c. c.seq ≢ k)

values-fresh :
    (next k : ℕ) (p : Dict ℕ TranscriptChunk)
    → Held next p
    → All (λ e. e.0 ≢ k) p
    → ValuesFresh k (values p)
values-fresh next k [] h d = tt
values-fresh next k (e ∷ p) h d = (rw h.0.0 d.0, values-fresh next k p h.1 d.1)

abbrev Under : ℕ → Dict ℕ TranscriptChunk → Type 0
Under hi = All (λ e. e.0 < hi)

sorted-Ascending :
    (next hi : ℕ) (p : Dict ℕ TranscriptChunk)
    → suc next ≤ hi
    → Held next p
    → Distinct p
    → Under hi p
    → Ascending (suc next) (in_seq_order p) hi
sorted-Ascending next hi [] q h d u = q
sorted-Ascending next hi ((k, c) ∷ p) q h d u =
    insert_by-Ascending (suc next) hi c (in_seq_order p) (omega (arith, h.0.0, h.0.1))
      (omega (arith, h.0.0, u.0))
      (All-sort_by seq_leb (λ y. y.seq ≢ c.seq) (values p)
        (rw h.0.0 (values-fresh next k p h.1 d.0)))
      (sorted-Ascending next hi p q h.1 d.1 u.1)

abbrev top : Dict ℕ TranscriptChunk → ℕ
top [] = 0
top (e ∷ p) = max (suc e.0) (top p)

Under-weaken : (m n : ℕ) (p : Dict ℕ TranscriptChunk) → m ≤ n → Under m p → Under n p
Under-weaken m n p h = All-map p (λ e k. omega arith)

Under-top : (p : Dict ℕ TranscriptChunk) → Under (top p) p
Under-top [] = tt
Under-top (e ∷ p) = (omega arith, Under-weaken (top p) _ p (omega arith) (Under-top p))

-- A rising list ends at its last number.
Ascending-seq_after :
    (lo hi next : ℕ) (c : TranscriptChunk) (cs : List TranscriptChunk)
    → Ascending lo (c ∷ cs) hi
    → Ascending lo (c ∷ cs) (seq_after next (c ∷ cs))
unfolding seq_after
Ascending-seq_after lo hi next c [] h = (h.0, omega arith)
Ascending-seq_after lo hi next c (d ∷ cs) h =
    (h.0, Ascending-seq_after (suc c.seq) hi next d cs h.1)

Ascending-end :
    (lo hi next : ℕ) (xs : List TranscriptChunk)
    → lo ≤ next
    → Ascending lo xs hi
    → Ascending lo xs (seq_after next xs)
unfolding seq_after
Ascending-end lo hi next [] q h = q
Ascending-end lo hi next (c ∷ cs) q h = Ascending-seq_after lo hi next c cs h

-- The forced flush is in order, past `next`, and ends at the number that the buffer goes on with.
pub forced-Ascending :
    (next : ℕ) (p : Dict ℕ TranscriptChunk)
    → Held next p
    → Distinct p
    → Ascending next (in_seq_order p) (seq_after next (in_seq_order p))
forced-Ascending next p h d =
    Ascending-end next (max (suc next) (top p)) next (in_seq_order p) (omega arith) (
      Ascending-weaken next (suc next) _ (in_seq_order p) (omega arith) (
        sorted-Ascending next (max (suc next) (top p)) p (omega arith) h d
          (Under-weaken (top p) _ p (omega arith) (Under-top p))))
