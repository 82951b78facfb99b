-- ===== src/Retrieval/Fusion/Order.antt =====
-- The rows of `dedup` (app/retrieval/fusion.py): in their order, and marked one at a time.
use streaming_rag.Prelude.{
  ℕ, zero, suc, ◌+◌, ◌≡◌, ◌≢◌, refl, sym, ap, ◌∙◌, String, true, inl, inr, Option, none, some, List,
  [], ◌∷◌, All, All-sort_by, get_elem?, string_eq, Bool-cases, sort_by, IsSortedBy, insert_by,
  All-insert_by, ◌<◌, arith,
}
use streaming_rag.Float.{Float}
use streaming_rag.Models.{Evidence}
use streaming_rag.Retrieval.Fusion.{Row, indexed, higher_row, set_duplicate}

module _ {F : Type 0} ⦃fl : Float F⦄ where
  pub set_duplicate-other :
      (i j : ℕ) (d : String) (es : List (Evidence F))
      → i ≢ j
      → get_elem? (set_duplicate j d es) i ≡ get_elem? es i
  unfolding set_duplicate
  set_duplicate-other i j d [] n = refl
  set_duplicate-other zero zero d (e ∷ es) n = absurd (n refl)
  set_duplicate-other (suc i) zero d (e ∷ es) n = refl
  set_duplicate-other zero (suc j) d (e ∷ es) n = refl
  set_duplicate-other (suc i) (suc j) d (e ∷ es) n =
      set_duplicate-other i j d es (λ q. n (ap suc q))

  pub set_duplicate-same :
      (i : ℕ) (d : String) (es : List (Evidence F)) (e : Evidence F)
      → get_elem? es i ≡ some e
      → get_elem? (set_duplicate i d es) i ≡ some (record e { duplicate_of = some d })
  unfolding set_duplicate
  set_duplicate-same i d [] e h = cc h
  set_duplicate-same zero d (x ∷ es) e h = ap (marked d) h
    where
      marked : String → Option (Evidence F) → Option (Evidence F)
      marked d none = none
      marked d (some e) = some (record e { duplicate_of = some d })
  set_duplicate-same (suc i) d (x ∷ es) e h = set_duplicate-same i d es e h

  -- A row comes before another: it is another row, of no lower score.
  abbrev pub Before : Row F → Row F → Type 0
  Before a b = (a.0 ≢ b.0) × (higher_row a b ≡ true)

  abbrev pub InTurn : List (Row F) → Type 0
  InTurn [] = Unit
  InTurn (r ∷ rows) = All (Before r) rows × InTurn rows

  abbrev pub IsAt : List (Evidence F) → Row F → Type 0
  IsAt evidence r = get_elem? evidence r.0 ≡ some r.1

  abbrev pub DistinctRows : List (Row F) → Type 0
  DistinctRows [] = Unit
  DistinctRows (r ∷ rows) = All (λ s. r.0 ≢ s.0) rows × DistinctRows rows

  DistinctRows-insert_by :
      (r : Row F) (rows : List (Row F))
      → All (λ s. r.0 ≢ s.0) rows
      → DistinctRows rows
      → DistinctRows (insert_by higher_row r rows)
  DistinctRows-insert_by r [] n d = (tt, tt)
  DistinctRows-insert_by r (s ∷ rows) n d = elim (Bool-cases (higher_row r s)) [
    | inl e ↦ rw e (n, d)
    | inr e ↦ rw e (
      All-insert_by higher_row (λ x. s.0 ≢ x.0) r rows (λ q. n.0 (sym q)) d.0,
      DistinctRows-insert_by r rows n.1 d.1,
    )
  ]

  pub DistinctRows-sort_by :
      (rows : List (Row F)) → DistinctRows rows → DistinctRows (sort_by higher_row rows)
  DistinctRows-sort_by [] d = tt
  DistinctRows-sort_by (r ∷ rows) d =
      DistinctRows-insert_by r (sort_by higher_row rows)
        (All-sort_by higher_row (λ s. r.0 ≢ s.0) rows d.0) (DistinctRows-sort_by rows d.1)

  indexed-later : (n m : ℕ) (es : List (Evidence F)) → n < m → All (λ s. n ≢ s.0) (indexed m es)
  indexed-later n m [] h = tt
  indexed-later n m (e ∷ es) h =
      ((λ q. omega (arith, q, h)), indexed-later n (suc m) es (omega (arith, h)))

  pub indexed-DistinctRows : (n : ℕ) (es : List (Evidence F)) → DistinctRows (indexed n es)
  indexed-DistinctRows n [] = tt
  indexed-DistinctRows n (e ∷ es) =
      (indexed-later n (suc n) es (omega arith), indexed-DistinctRows (suc n) es)

  pub indexed-IsAt :
      (n : ℕ) (es all : List (Evidence F))
      → ((i : ℕ) → get_elem? all (n + i) ≡ get_elem? es i)
      → All (IsAt all) (indexed n es)
  indexed-IsAt n [] all h = tt
  indexed-IsAt n (e ∷ es) all h = (
    ap (get_elem? all) (the_same n) ∙ h zero,
    indexed-IsAt (suc n) es all (λ i. ap (get_elem? all) (moved n i) ∙ h (suc i)),
  )
    where
      the_same : (m : ℕ) → m ≡ m + zero
      the_same m = omega arith

      moved : (m i : ℕ) → suc m + i ≡ m + suc i
      moved m i = omega arith

  pub InTurn-of :
      (rows : List (Row F)) → IsSortedBy higher_row rows → DistinctRows rows → InTurn rows
  InTurn-of [] s d = tt
  InTurn-of (r ∷ rows) s d = (both rows s.0 d.0, InTurn-of rows s.1 d.1)
    where
      both :
          (rs : List (Row F))
          → All (λ y. higher_row r y ≡ true) rs
          → All (λ y. r.0 ≢ y.0) rs
          → All (Before r) rs
      both [] h n = tt
      both (x ∷ rs) h n = ((n.0, h.0), both rs h.1 n.1)
