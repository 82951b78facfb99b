-- ===== src/Session/Buffer/Invariant.antt =====
-- The invariant of the transcript buffer, and what one `ingest_chunk` does on each branch.
use streaming_rag.Prelude.{
  ℕ, zero, suc, ◌+◌, ◌<◌, ◌≡◌, refl, Bool, true, false, Option, none, some, List, [], ◌∷◌, ◌++◌,
  nat_eq, ltb, eqb, eqb_iff, arith, Bool-cases, inl, inr, or_else, is_some, length, Dict, insert,
  not, sym, append-nil,
}
use streaming_rag.Session.Buffer.{
  TranscriptChunk, TranscriptBuffer, commit_in_order, open_gap, ingest_chunk, in_seq_order,
  seq_after, gap_after, drain,
}
use streaming_rag.Session.Buffer.Order.{
  Ascending, Contiguous, Held, Distinct, Ascending-append, Ascending-of_Contiguous, Held-insert,
  Distinct-insert, forced-Ascending,
}
use streaming_rag.Session.Buffer.Drain.{drain-Drained}

abbrev pub is_empty {ℓ} : {A : Type ℓ} → List A → Bool
is_empty [] = true
is_empty (x ∷ xs) = false

-- With `next` for the next sequence number: committed chunks rise strictly and lie before it,
-- pending ones stand under their own number past it, one for each number, and the gap's clock
-- runs exactly while something is pending.
pub record IsOrderedAt (next : ℕ) (b : TranscriptBuffer) : Type 0 where
  pub ascending : Ascending 0 b.buffer next
  pub held : Held next b.pending
  pub distinct : Distinct b.pending
  pub clock : is_some b.gap_opened_at_ms ≡ not (is_empty b.pending)

-- Before the first chunk nothing is there; later the invariant holds at the next number.
abbrev pub IsOrderedFrom : Option ℕ → TranscriptBuffer → Type 0
IsOrderedFrom none b = (b.buffer ≡ []) × (b.pending ≡ []) × (b.gap_opened_at_ms ≡ none)
IsOrderedFrom (some next) b = IsOrderedAt next b

abbrev pub IsOrdered : TranscriptBuffer → Type 0
IsOrdered b = IsOrderedFrom b.next_seq b

-- The invariant at the number that `ingest_chunk` starts from.
pub at_start :
    (o : Option ℕ) (b : TranscriptBuffer) (n : ℕ) → IsOrderedFrom o b → IsOrderedAt (or_else o n) b
at_start none b n h = record {
  ascending = rw (h.0) (omega arith);
  held = rw (h.1) tt;
  distinct = rw (h.1) tt;
  clock = rw (h.1, h.2) refl;
}
at_start (some m) b n h = h

gap_after-clock :
    (p : Dict ℕ TranscriptChunk) (g : Option ℕ)
    → (is_empty p ≡ false → is_some g ≡ true)
    → is_some (gap_after p g) ≡ not (is_empty p)
gap_after-clock [] g h = refl
gap_after-clock (e ∷ p) g h = h refl

drain-empty : (fuel k : ℕ) → drain fuel k [] ≡ ([], [], k)
unfolding drain
drain-empty zero k = refl
drain-empty (suc fuel) k = refl

drained-clock :
    (fuel k : ℕ) (p : Dict ℕ TranscriptChunk) (g : Option ℕ)
    → is_some g ≡ not (is_empty p)
    → is_empty (drain fuel k p).1 ≡ false
    → is_some g ≡ true
drained-clock fuel k [] g h e = absurd (no_both (rw drain-empty at e))
  where
    no_both : true ≡ false → ⊥
    no_both q = cc
drained-clock fuel k (x ∷ p) g h e = h

-- One call, from the number `next`: the buffer grows by what is reported, which rises from
-- `next` to the new number, the invariant holds there, and without a forced flush the committed chunks are exactly those numbered
-- from `next` to the new number.
pub record Ingested (b : TranscriptBuffer) (next : ℕ)
    (r : TranscriptBuffer × List TranscriptChunk × Bool) : Type 0 where
  pub next' : ℕ
  pub set_to : r.0.next_seq ≡ some next'
  pub ordered : IsOrderedAt next' r.0
  pub appended : r.0.buffer ≡ b.buffer ++ r.1
  pub rising : Ascending next r.1 next'
  pub gapless : r.2 ≡ false → Contiguous next r.1 next'

stale-Ingested :
    (b : TranscriptBuffer) (next : ℕ)
    → IsOrderedAt next b
    → Ingested b next (record b { next_seq = some next }, [], false)
stale-Ingested b next h = record {
  next' = next;
  set_to = refl;
  ordered = record {
    ascending = h.ascending;
    held = h.held;
    distinct = h.distinct;
    clock = h.clock;
  };
  appended = sym (append-nil b.buffer);
  rising = omega arith;
  gapless = λ _. refl;
}

commit_in_order-Ingested :
    (b : TranscriptBuffer) (c : TranscriptChunk)
    → IsOrderedAt c.seq b
    → Ingested b c.seq (commit_in_order b c)
unfolding commit_in_order
commit_in_order-Ingested b c h =
    let d = drain-Drained (length b.pending) c.seq b.pending (omega arith) h.held h.distinct in
    let n = (drain (length b.pending) (suc c.seq) b.pending).2 in
    record {
      next' = n;
      set_to = refl;
      ordered = record {
        ascending =
            Ascending-append 0 c.seq n b.buffer _ h.ascending
              (Ascending-of_Contiguous c.seq n (c ∷ _) (refl, d.contiguous));
        held = d.held;
        distinct = d.distinct;
        clock =
            gap_after-clock _ b.gap_opened_at_ms
              (drained-clock (length b.pending) (suc c.seq) b.pending b.gap_opened_at_ms h.clock);
      };
      appended = refl;
      rising = Ascending-of_Contiguous c.seq n (c ∷ _) (refl, d.contiguous);
      gapless = λ _. (refl, d.contiguous);
    }

insert-nonempty :
    (p : Dict ℕ TranscriptChunk) (k : ℕ) (c : TranscriptChunk) → is_empty (insert k c p) ≡ false
insert-nonempty [] k c = refl
insert-nonempty ((j, w) ∷ p) k c = ground arith

open_gap-Ingested :
    (b : TranscriptBuffer) (next : ℕ) (c : TranscriptChunk) (window : ℕ)
    → IsOrderedAt next b
    → next < c.seq
    → Ingested b next (open_gap b next c window)
unfolding open_gap
open_gap-Ingested b next c window h q =
    elim (Bool-cases (ltb c.t_offset_ms (or_else b.gap_opened_at_ms c.t_offset_ms + window))) [
      | inl e ↦ rw e (record {
        next' = next;
        set_to = refl;
        ordered = record {
          ascending = h.ascending;
          held = held;
          distinct = distinct;
          clock = rw (insert-nonempty b.pending c.seq c) refl;
        };
        appended = sym (append-nil b.buffer);
        rising = omega arith;
        gapless = λ _. refl;
      })
      | inr e ↦ rw e (record {
        next' = seq_after next (in_seq_order (insert c.seq c b.pending));
        set_to = refl;
        ordered = record {
          ascending =
              Ascending-append 0 next _ b.buffer _ h.ascending
                (forced-Ascending next (insert c.seq c b.pending) held distinct);
          held = tt;
          distinct = tt;
          clock = refl;
        };
        appended = refl;
        rising = forced-Ascending next (insert c.seq c b.pending) held distinct;
        gapless = λ f. cc;
      })
    ]
  where
    held : Held next (insert c.seq c b.pending)
    held = Held-insert next b.pending c q h.held

    distinct : Distinct (insert c.seq c b.pending)
    distinct = Distinct-insert b.pending c.seq c h.distinct

pub ingest_chunk-Ingested :
    (b : TranscriptBuffer) (c : TranscriptChunk) (window : ℕ)
    → IsOrdered b
    → Ingested b (or_else b.next_seq c.seq) (ingest_chunk b c window)
unfolding ingest_chunk
ingest_chunk-Ingested b c window h =
    let next = or_else b.next_seq c.seq in
    let start = at_start b.next_seq b c.seq h in
    elim (Bool-cases (ltb c.seq next)) [
      | inl e ↦ rw e (stale-Ingested b next start)
      | inr e ↦ elim (Bool-cases (eqb c.seq next)) [
        | inl f ↦
            rw (e, f)
              (rw (← (eqb_iff c.seq next).0 f)
                (commit_in_order-Ingested b c (rw (← (eqb_iff c.seq next).0 f) at start)))
        | inr f ↦ rw (e, f) (open_gap-Ingested b next c window start (past c.seq next e f))
      ]
    ]
  where
    past : (m n : ℕ) → ltb m n ≡ false → eqb m n ≡ false → n < m
    past m n e f = ground arith
