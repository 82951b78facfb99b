-- ===== src/Session/Buffer/Delivery.antt =====
-- What a sequence of `ingest_chunk` calls delivers: order, contiguity, conservation, the flush.
use mathlib.Core.List.{Perm}
use mathlib.Core.List.Perm
use streaming_rag.Prelude.{
  ℕ, ◌+◌, ◌≤◌, ◌≡◌, refl, Bool, true, false, none, some, List, [], ◌∷◌, ◌++◌, nat_eq, ltb, eqb,
  eqb_iff, arith, Bool-cases, inl, inr, or_else, length, sym, ap, ◌∙◌, append-nil, append_assoc,
  All, All-append, All-map, ◌||◌, Dict, lookup, insert, values, sort_by-perm, subst,
}
use streaming_rag.Session.Buffer.{
  TranscriptChunk, TranscriptBuffer, empty_buffer, commit_in_order, open_gap, ingest_chunk,
  in_seq_order, seq_leb,
}
use streaming_rag.Session.Buffer.Order.{
  Ascending, Ascending-le, Ascending-All, Contiguous, Contiguous-append,
}
use streaming_rag.Session.Buffer.Drain.{drain-Drained}
use streaming_rag.Session.Buffer.Invariant.{
  IsOrdered, IsOrderedFrom, Ingested, ingest_chunk-Ingested, at_start,
}

-- The chunks of a stream in the order of their arrival: the final buffer, all that was reported
-- as committed, and whether any call reported a sequence gap.
unfoldable pub ingest_all :
    TranscriptBuffer → List TranscriptChunk → ℕ → TranscriptBuffer × List TranscriptChunk × Bool
ingest_all b [] window = (b, [], false)
ingest_all b (c ∷ cs) window =
    let (b', committed, gap) = ingest_chunk b c window in
    let (b'', rest, gaps) = ingest_all b' cs window in (b'', committed ++ rest, gap || gaps)

next_IsOrdered :
    {b : TranscriptBuffer} {next : ℕ} {r : TranscriptBuffer × List TranscriptChunk × Bool}
    → Ingested b next r
    → IsOrdered r.0
next_IsOrdered {r = r} i = subst (λ o. IsOrderedFrom o r.0) (sym i.set_to) i.ordered

-- From an ordered buffer, whatever arrives and however long the window is, the buffer stays
-- ordered (committed numbers rise strictly, so none is committed twice) and it grows by exactly
-- the chunks that the calls reported, in the order of the reports.
pub ingest_all-IsOrdered :
    (cs : List TranscriptChunk) (window : ℕ) (b : TranscriptBuffer)
    → IsOrdered b
    → IsOrdered (ingest_all b cs window).0
      × ((ingest_all b cs window).0.buffer ≡ b.buffer ++ (ingest_all b cs window).1)
unfolding ingest_all
ingest_all-IsOrdered [] window b h = (h, sym (append-nil b.buffer))
ingest_all-IsOrdered (c ∷ cs) window b h =
    let i = ingest_chunk-Ingested b c window h in
    let r = ingest_chunk b c window in
    let ih = ingest_all-IsOrdered cs window r.0 (next_IsOrdered i) in
    (
      ih.0,
      ih.1
          ∙ ap (λ l. l ++ (ingest_all r.0 cs window).1) i.appended
          ∙ append_assoc b.buffer r.1 (ingest_all r.0 cs window).1,
    )

left : (a b : Bool) → (a || b) ≡ false → a ≡ false
left a b h = ground arith

right : (a b : Bool) → (a || b) ≡ false → b ≡ false
right a b h = ground arith

gapless_from :
    (cs : List TranscriptChunk) (window : ℕ) (b : TranscriptBuffer) (next : ℕ)
    → b.next_seq ≡ some next
    → IsOrdered b
    → (ingest_all b cs window).2 ≡ false
    → (next' : ℕ) × ((ingest_all b cs window).0.next_seq ≡ some next')
      × Contiguous next (ingest_all b cs window).1 next'
unfolding ingest_all
gapless_from [] window b next e h q = (next, e, refl)
gapless_from (c ∷ cs) window b next e h q =
    let i = ingest_chunk-Ingested b c window h in
    let r = ingest_chunk b c window in
    let (n, s, rest) =
      gapless_from cs window r.0 i.next' i.set_to (next_IsOrdered i) (right r.2 _ q) in
    let first : Contiguous next r.1 i.next' =
      subst (λ k. Contiguous k r.1 i.next') (ap (λ o. or_else o c.seq) e)
        (i.gapless (left r.2 _ q)) in
    (n, s, Contiguous-append next i.next' n r.1 _ first rest)

-- On a new session, as long as no call reports a sequence gap, the committed chunks are exactly
-- those numbered from the first arrival's number up to the next expected number, in order and
-- with none missing, whatever the order of arrival.
pub gapless-Contiguous :
    (c : TranscriptChunk) (cs : List TranscriptChunk) (window : ℕ)
    → (ingest_all empty_buffer (c ∷ cs) window).2 ≡ false
    → (next : ℕ) × ((ingest_all empty_buffer (c ∷ cs) window).0.next_seq ≡ some next)
      × Contiguous c.seq (ingest_all empty_buffer (c ∷ cs) window).1 next
unfolding ingest_all
gapless-Contiguous c cs window q =
    let i = ingest_chunk-Ingested empty_buffer c window (refl, refl, refl) in
    let r = ingest_chunk empty_buffer c window in
    let (n, s, rest) =
      gapless_from cs window r.0 i.next' i.set_to (next_IsOrdered i) (right r.2 _ q) in
    (n, s, Contiguous-append c.seq i.next' n r.1 _ (i.gapless (left r.2 _ q)) rest)

insert_fresh-perm :
    (k : ℕ) (c : TranscriptChunk) (p : Dict ℕ TranscriptChunk)
    → lookup k p ≡ none
    → Perm (values (insert k c p)) (c ∷ values p)
insert_fresh-perm k c [] h = Perm.refl _
insert_fresh-perm k c ((j, w) ∷ p) h = elim (Bool-cases (eqb j k)) [
  | inl e ↦ absurd (ground arith)
  | inr e ↦
      rw e
        (Perm.trans (Perm.cons w (insert_fresh-perm k c p (rw e at h))) (Perm.swap c w (values p)))
]

commit_in_order-perm :
    (b : TranscriptBuffer) (c : TranscriptChunk)
    → IsOrderedFrom (some c.seq) b
    → Perm
        ((commit_in_order b c).1 ++ values (commit_in_order b c).0.pending)
        (c ∷ values b.pending)
unfolding commit_in_order
commit_in_order-perm b c h =
    Perm.cons c
      (drain-Drained (length b.pending) c.seq b.pending (omega arith) h.held h.distinct).kept

open_gap-perm :
    (b : TranscriptBuffer) (next : ℕ) (c : TranscriptChunk) (window : ℕ)
    → lookup c.seq b.pending ≡ none
    → Perm
        ((open_gap b next c window).1 ++ values (open_gap b next c window).0.pending)
        (c ∷ values b.pending)
unfolding open_gap
open_gap-perm b next c window h =
    elim (Bool-cases (ltb c.t_offset_ms (or_else b.gap_opened_at_ms c.t_offset_ms + window))) [
      | inl e ↦ rw e (insert_fresh-perm c.seq c b.pending h)
      | inr e ↦ rw e (
          rw (append-nil (in_seq_order (insert c.seq c b.pending))) (
            Perm.trans (sort_by-perm seq_leb (values (insert c.seq c b.pending)))
              (insert_fresh-perm c.seq c b.pending h)))
    ]

-- Nothing is lost or doubled: a chunk that is neither stale nor held under its number already is
-- committed or held, with every chunk that was held before, each exactly once.
pub ingest_chunk-perm :
    (b : TranscriptBuffer) (c : TranscriptChunk) (window : ℕ)
    → IsOrdered b
    → or_else b.next_seq c.seq ≤ c.seq
    → lookup c.seq b.pending ≡ none
    → Perm
        ((ingest_chunk b c window).1 ++ values (ingest_chunk b c window).0.pending)
        (c ∷ values b.pending)
unfolding ingest_chunk
ingest_chunk-perm b c window h q f =
    let next = or_else b.next_seq c.seq in
    rw (not_stale next q) (elim (Bool-cases (eqb c.seq next)) [
      | inl e ↦ rw e (
          commit_in_order-perm b c
            (rw (← (eqb_iff c.seq next).0 e) at (at_start b.next_seq b c.seq h)))
      | inr e ↦ rw e (open_gap-perm b next c window f)
    ])
  where
    not_stale : (next : ℕ) → next ≤ c.seq → ltb c.seq next ≡ false
    not_stale next q = ground arith

-- Only a flush reports a sequence gap.
gap_reported :
    (b : TranscriptBuffer) (c : TranscriptChunk) (window : ℕ)
    → (ingest_chunk b c window).2 ≡ true
    → (or_else b.next_seq c.seq ≤ c.seq)
      × ((ingest_chunk b c window).0.pending ≡ [])
      × (or_else b.gap_opened_at_ms c.t_offset_ms + window ≤ c.t_offset_ms)
unfolding ingest_chunk open_gap commit_in_order
gap_reported b c window h =
    let next = or_else b.next_seq c.seq in
    elim (Bool-cases (ltb c.seq next)) [
      | inl e ↦ absurd (untrue (rw e at h))
      | inr e ↦ elim (Bool-cases (eqb c.seq next)) [
        | inl f ↦ absurd (untrue (rw (e, f) at h))
        | inr f ↦
            elim (Bool-cases
              (ltb c.t_offset_ms (or_else b.gap_opened_at_ms c.t_offset_ms + window))) [
                | inl g ↦ absurd (untrue (rw (e, f, g) at h))
                | inr g ↦ (not_before e, rw (e, f, g) refl, not_before g)
              ]
      ]
    ]
  where
    untrue : false ≡ true → ⊥
    untrue q = cc

    not_before : {m n : ℕ} → ltb m n ≡ false → n ≤ m
    not_before e = ground arith

-- When a call reports a sequence gap, every chunk that was held and the one that came are
-- committed, each once and by rising number, and none is held any more. The reorder window has then
-- run out since the gap was opened. The chunk that came is one whose number is not held already.
pub sequence_gap-perm :
    (b : TranscriptBuffer) (c : TranscriptChunk) (window : ℕ)
    → IsOrdered b
    → lookup c.seq b.pending ≡ none
    → (ingest_chunk b c window).2 ≡ true
    → Perm (ingest_chunk b c window).1 (c ∷ values b.pending)
      × ((ingest_chunk b c window).0.pending ≡ [])
      × ((next : ℕ) × Ascending (or_else b.next_seq c.seq) (ingest_chunk b c window).1 next)
      × (or_else b.gap_opened_at_ms c.t_offset_ms + window ≤ c.t_offset_ms)
sequence_gap-perm b c window h fresh reported =
    let (past, none_held, late) = gap_reported b c window reported in
    let i = ingest_chunk-Ingested b c window h in
    (
      subst (λ l. Perm l (c ∷ values b.pending))
          (ap (λ p. (ingest_chunk b c window).1 ++ values p) none_held ∙ append-nil _)
          (ingest_chunk-perm b c window h past fresh),
      none_held,
      (i.next', i.rising),
      late,
    )

rising_from :
    (cs : List TranscriptChunk) (window : ℕ) (b : TranscriptBuffer) (lo next : ℕ)
    → b.next_seq ≡ some next
    → IsOrdered b
    → lo ≤ next
    → All (λ k. lo ≤ k.seq) (ingest_all b cs window).1
unfolding ingest_all
rising_from [] window b lo next e h q = tt
rising_from (c ∷ cs) window b lo next e h q =
    let i = ingest_chunk-Ingested b c window h in
    let r = ingest_chunk b c window in
    let first : Ascending next r.1 i.next' =
      subst (λ k. Ascending k r.1 i.next') (ap (λ o. or_else o c.seq) e) i.rising in
    All-append (λ k. lo ≤ k.seq) r.1 _
      (All-map r.1 (λ k m. omega arith) (Ascending-All next i.next' r.1 first))
      (rising_from cs window r.0 lo i.next' i.set_to (next_IsOrdered i)
        (omega (arith, Ascending-le next i.next' r.1 first)))

-- The first arrival fixes the start of the stream: whatever follows it, and however soon, no
-- chunk with a smaller number is ever committed.
pub committed_from_first :
    (first : TranscriptChunk) (cs : List TranscriptChunk) (window : ℕ)
    → All (λ c. first.seq ≤ c.seq) (ingest_all empty_buffer (first ∷ cs) window).1
unfolding ingest_all
committed_from_first first cs window =
    let i = ingest_chunk-Ingested empty_buffer first window (refl, refl, refl) in
    let r = ingest_chunk empty_buffer first window in
    All-append (λ c. first.seq ≤ c.seq) r.1 _ (Ascending-All first.seq i.next' r.1 i.rising)
      (rising_from cs window r.0 first.seq i.next' i.set_to (next_IsOrdered i)
        (Ascending-le first.seq i.next' r.1 i.rising))
