-- ===== src/Session/Buffer.antt =====
-- The ordered, gap-resolved transcript buffer of app/session/session_store.py (the four buffer
-- fields of `SessionRecord`, `buffer_text` and `ingest_chunk`) and the wire model
-- app/models/transcript_chunk.py. The proofs are in the modules below.
pub mod Order
pub mod Drain
pub mod Invariant
pub mod Delivery
use streaming_rag.Prelude.{
  ℕ, zero, suc, ◌+◌, String, Bool, true, false, Option, none, some, List, [], ◌∷◌, ◌++◌, map, ltb,
  nat_eq, leb, eqb, if◌then◌else◌, or_else, length, last?, sort_by, Dict, lookup, insert, remove,
  values,
}
use Prim.Native.String.{◌++◌ as str_append}

pub record TranscriptChunk : Type 0 where
  pub seq : ℕ
  pub text_delta : String
  pub t_offset_ms : ℕ
  pub is_final : Bool

-- `buffer`, `_pending`, `_next_seq` and `_gap_opened_at_ms` of `SessionRecord`.
pub record TranscriptBuffer : Type 0 where
  pub buffer : List TranscriptChunk
  pub pending : Dict ℕ TranscriptChunk
  pub next_seq : Option ℕ
  pub gap_opened_at_ms : Option ℕ

-- The four fields as `SessionRecord.__init__` sets them.
abbrev pub empty_buffer : TranscriptBuffer
empty_buffer = record { buffer = []; pending = []; next_seq = none; gap_opened_at_ms = none }

-- `"".join(c.text_delta for c in chunks)`
unfoldable pub concat_text : List TranscriptChunk → String
concat_text [] = ""
concat_text (c ∷ cs) = str_append c.text_delta (concat_text cs)

unfoldable pub buffer_text : TranscriptBuffer → String
unfolding concat_text
buffer_text b = concat_text b.buffer

-- The `while self._next_seq in self._pending` loop: the chunks that it commits, what stays
-- pending, and the next sequence number. Each round takes one entry off, so the number of
-- entries is fuel enough.
unfoldable pub drain :
    ℕ → ℕ → Dict ℕ TranscriptChunk → List TranscriptChunk × Dict ℕ TranscriptChunk × ℕ
drain zero next p = ([], p, next)
drain (suc fuel) next p = elim (lookup next p) [
  | none ↦ ([], p, next)
  | some c ↦ let (cs, p', next') = drain fuel (suc next) (remove next p) in (c ∷ cs, p', next')
]

-- `self._gap_opened_at_ms = None` if nothing is pending
abbrev pub gap_after : Dict ℕ TranscriptChunk → Option ℕ → Option ℕ
gap_after [] gap = none
gap_after (e ∷ p) gap = gap

-- The branch `chunk.seq == self._next_seq`.
unfoldable pub commit_in_order :
    TranscriptBuffer → TranscriptChunk → TranscriptBuffer × List TranscriptChunk × Bool
unfolding drain
commit_in_order b chunk =
    let (cs, p, next) = drain (length b.pending) (suc chunk.seq) b.pending in
    (
      record {
        buffer = b.buffer ++ (chunk ∷ cs);
        pending = p;
        next_seq = some next;
        gap_opened_at_ms = gap_after p b.gap_opened_at_ms;
      },
      chunk ∷ cs,
      false,
    )

-- `forced[-1].seq + 1`
unfoldable pub seq_after : ℕ → List TranscriptChunk → ℕ
seq_after next forced = elim (last? forced) [ none ↦ next | some c ↦ c.seq + 1 ]

abbrev pub seq_leb : TranscriptChunk → TranscriptChunk → Bool
seq_leb a b = leb a.seq b.seq

-- `sorted(self._pending.values(), key=lambda c: c.seq)`
abbrev pub in_seq_order : Dict ℕ TranscriptChunk → List TranscriptChunk
in_seq_order p = sort_by seq_leb (values p)

-- The branch `chunk.seq > self._next_seq`. `elapsed < reorder_window_ms`, over the integers, is
-- written with the subtracted time on the other side.
unfoldable pub open_gap :
    TranscriptBuffer → ℕ → TranscriptChunk → ℕ → TranscriptBuffer × List TranscriptChunk × Bool
unfolding seq_after
open_gap b next chunk reorder_window_ms =
    let pending = insert chunk.seq chunk b.pending in
    let opened = or_else b.gap_opened_at_ms chunk.t_offset_ms in
    let forced = in_seq_order pending in
    if ltb chunk.t_offset_ms (opened + reorder_window_ms)
    then (
      record b { pending = pending; next_seq = some next; gap_opened_at_ms = some opened },
      [],
      false,
    )
    else (
      record {
        buffer = b.buffer ++ forced;
        pending = [];
        next_seq = some (seq_after next forced);
        gap_opened_at_ms = none;
      },
      forced,
      true,
    )

-- The new state, the chunks newly committed, and `sequence_gap`.
unfoldable pub ingest_chunk :
    TranscriptBuffer → TranscriptChunk → ℕ → TranscriptBuffer × List TranscriptChunk × Bool
unfolding commit_in_order open_gap
ingest_chunk b chunk reorder_window_ms =
    let next = or_else b.next_seq chunk.seq in
    if ltb chunk.seq next
    then (record b { next_seq = some next }, [], false)
    else if eqb chunk.seq next
    then commit_in_order b chunk
    else open_gap b next chunk reorder_window_ms
