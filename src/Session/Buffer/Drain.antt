-- ===== src/Session/Buffer/Drain.antt =====
-- What the drain loop commits and leaves pending.
use mathlib.Core.List.{Perm}
use mathlib.Core.List.Perm
use streaming_rag.Prelude.{
  ℕ, zero, suc, ◌≤◌, ◌≡◌, refl, none, some, List, [], ◌∷◌, ◌++◌, nat_eq, eqb, arith, Bool-cases,
  Option-cases, inl, inr, length, Dict, lookup, remove, values,
}
use streaming_rag.Session.Buffer.{TranscriptChunk, drain}
use streaming_rag.Session.Buffer.Order.{
  Contiguous, Held, Distinct, Held-remove, Held-lookup, Distinct-remove, remove-fresh, Held-suc,
  fresh_of_none,
}

length-remove :
    (k : ℕ) (p : Dict ℕ TranscriptChunk) (c : TranscriptChunk)
    → lookup k p ≡ some c
    → suc (length (remove k p)) ≡ length p
length-remove k [] c h = cc
length-remove k ((j, w) ∷ p) c h = ground (arith, length-remove k p c)

remove-perm :
    (k : ℕ) (p : Dict ℕ TranscriptChunk) (c : TranscriptChunk)
    → lookup k p ≡ some c
    → Perm (c ∷ values (remove k p)) (values p)
remove-perm k [] c h = cc
remove-perm k ((j, w) ∷ p) c h = elim (Bool-cases (eqb j k)) [
  | inl e ↦ rw e (rw (same (rw e at h)) (Perm.refl _))
  | inr e ↦ rw e (
      Perm.trans (Perm.swap w c (values (remove k p)))
        (Perm.cons w (remove-perm k p c (rw e at h))))
]
  where
    same : some w ≡ some c → w ≡ c
    same q = cc

-- The outcome of the loop, from an entry set that lies past `k`.
pub record Drained (k : ℕ) (p : Dict ℕ TranscriptChunk)
    (r : List TranscriptChunk × Dict ℕ TranscriptChunk × ℕ) : Type 0 where
  pub contiguous : Contiguous (suc k) r.0 r.2
  pub held : Held r.2 r.1
  pub distinct : Distinct r.1
  pub kept : Perm (r.0 ++ values r.1) (values p)

drain-Drained_stop :
    (k : ℕ) (p : Dict ℕ TranscriptChunk)
    → Held k p
    → Distinct p
    → lookup (suc k) p ≡ none
    → Drained k p ([], p, suc k)
drain-Drained_stop k p h d e = record {
  contiguous = refl;
  held = Held-suc k p h (fresh_of_none p (suc k) e);
  distinct = d;
  kept = Perm.refl _;
}

-- With an entry of fuel for each pending chunk the loop ends by its own test.
pub drain-Drained :
    (fuel k : ℕ) (p : Dict ℕ TranscriptChunk)
    → length p ≤ fuel
    → Held k p
    → Distinct p
    → Drained k p (drain fuel (suc k) p)
unfolding drain
drain-Drained zero k [] q h d = drain-Drained_stop k [] h d refl
drain-Drained zero k (e ∷ p) q h d = absurd (omega arith)
drain-Drained (suc fuel) k p q h d = elim (Option-cases (lookup (suc k) p)) [
  | inl e ↦ rw (e, drain) (drain-Drained_stop k p h d e)
  | inr (c, e) ↦
      let rest = remove (suc k) p in
      let ih =
        drain-Drained fuel (suc k) rest (omega (arith, length-remove (suc k) p c e))
          (Held-suc k rest (Held-remove k p (suc k) h) (remove-fresh p (suc k) d))
          (Distinct-remove p (suc k) d) in
      rw (e, drain)
        (record {
          contiguous = ((Held-lookup k p (suc k) c h e).0, ih.contiguous);
          held = ih.held;
          distinct = ih.distinct;
          kept = Perm.trans (Perm.cons c ih.kept) (remove-perm (suc k) p c e);
        })
]
