-- ===== src/Tests/Transcript.antt =====
-- The transcript buffer at concrete arrivals.
use streaming_rag.Prelude.{ℕ, ◌≡◌, refl, ◌≤◌, some, [], ◌∷◌, ◌++◌, arith, All, values, nat_eq}
use mathlib.Core.List.{Perm}
use streaming_rag.Session.Buffer.{TranscriptBuffer, empty_buffer, ingest_chunk}
use streaming_rag.Session.Buffer.Order.{Ascending, Contiguous}
use streaming_rag.Session.Buffer.Invariant.{IsOrdered}
use streaming_rag.Session.Buffer.Delivery.{
  ingest_all, ingest_all-IsOrdered, gapless-Contiguous, ingest_chunk-perm, sequence_gap-perm,
  committed_from_first,
}
use streaming_rag.Tests.Data.{chunk}

-- Chunk 0 was committed, and 1 is expected.
abbrev after_first : TranscriptBuffer
after_first = record empty_buffer { buffer = chunk 0 ∷ []; next_seq = some 1 }

after_first-IsOrdered : IsOrdered after_first
after_first-IsOrdered = record {
  ascending = (omega arith, omega arith);
  held = tt;
  distinct = tt;
  clock = refl;
}

ingest_all-IsOrdered_example :
    IsOrdered (ingest_all empty_buffer (chunk 0 ∷ chunk 2 ∷ chunk 1 ∷ []) 100).0
    × ((ingest_all empty_buffer (chunk 0 ∷ chunk 2 ∷ chunk 1 ∷ []) 100).0.buffer
        ≡ [] ++ (ingest_all empty_buffer (chunk 0 ∷ chunk 2 ∷ chunk 1 ∷ []) 100).1)
ingest_all-IsOrdered_example =
    ingest_all-IsOrdered (chunk 0 ∷ chunk 2 ∷ chunk 1 ∷ []) 100 empty_buffer (refl, refl, refl)

gapless-Contiguous_example :
    (next : ℕ) × ((ingest_all empty_buffer (chunk 0 ∷ chunk 2 ∷ chunk 1 ∷ []) 100).0.next_seq
      ≡ some next)
    × Contiguous 0 (ingest_all empty_buffer (chunk 0 ∷ chunk 2 ∷ chunk 1 ∷ []) 100).1 next
unfolding ingest_all ingest_chunk
gapless-Contiguous_example = gapless-Contiguous (chunk 0) (chunk 2 ∷ chunk 1 ∷ []) 100 refl

ingest_chunk-perm_example :
    Perm
      ((ingest_chunk after_first (chunk 2) 100).1
        ++ values (ingest_chunk after_first (chunk 2) 100).0.pending)
      (chunk 2 ∷ [])
ingest_chunk-perm_example =
    ingest_chunk-perm after_first (chunk 2) 100 after_first-IsOrdered (omega arith) refl

-- Chunk 2 is held, and the window runs out.
abbrev gap_open : TranscriptBuffer
gap_open = record after_first { pending = (2, chunk 2) ∷ []; gap_opened_at_ms = some 2 }

gap_open-IsOrdered : IsOrdered gap_open
gap_open-IsOrdered = record {
  ascending = (omega arith, omega arith);
  held = ((refl, omega arith), tt);
  distinct = (tt, tt);
  clock = refl;
}

sequence_gap-perm_example :
    Perm (ingest_chunk gap_open (chunk 200) 100).1 (chunk 200 ∷ chunk 2 ∷ [])
    × ((ingest_chunk gap_open (chunk 200) 100).0.pending ≡ [])
    × ((next : ℕ) × Ascending 1 (ingest_chunk gap_open (chunk 200) 100).1 next)
    × (102 ≤ 200)
unfolding ingest_chunk
sequence_gap-perm_example = sequence_gap-perm gap_open (chunk 200) 100 gap_open-IsOrdered refl refl

committed_from_first_example :
    All (λ c. 1 ≤ c.seq) (ingest_all empty_buffer (chunk 1 ∷ chunk 0 ∷ []) 100).1
committed_from_first_example = committed_from_first (chunk 1) (chunk 0 ∷ []) 100
