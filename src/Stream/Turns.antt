-- ===== src/Stream/Turns.antt =====
-- A turn comes to its end whatever a stage raises, and leaves the session in order.
use streaming_rag.Prelude.{
  ℕ, ◌≤◌, ◌≡◌, refl, sym, ap, subst, ◌∙◌, String, Bool, true, false, Option, none, some, List, [],
  ◌∷◌, Result, inl, inr, ok, raise, Exn, exn_text,
}
use streaming_rag.Float.{Float}
use streaming_rag.Text.{Unicode}
use streaming_rag.Models.Events.{Decision, Payload}
use streaming_rag.Models.{AnswerVersion}
use streaming_rag.Services.{Services}
use streaming_rag.Settings.{Settings}
use streaming_rag.Turn.{Turn, Exec, pure, handled, continue, ◌>>=◌, ◌>>◌}
use streaming_rag.Turn.Quiet.{Quiet, Any, Quiet-pure}
use streaming_rag.Session.Record.{SessionRecord}
use streaming_rag.Session.Buffer.{TranscriptChunk, ingest_chunk}
use streaming_rag.Controller.RetrievalController.{ControllerDecision}
use streaming_rag.Controller.OnChunk.{on_chunk}
use streaming_rag.Controller.OnChunk.Identity.{on_chunk-SameSession}
use streaming_rag.Controller.OnChunk.Waits.{on_chunk-wait_count-le}
use streaming_rag.Generation.StreamingGenerator.{stream_answer}
use streaming_rag.Generation.StreamingGenerator.Versions.{Answered, stream_answer-Answers}
use streaming_rag.Generation.StreamingGenerator.Numbering.{
  IsNumbered, IsNumberedFrom, stream_answer-IsNumbered,
}
use streaming_rag.Stream.{
  answer_decision, run_committed, run_all, handle_chunk, set_trace, emit_traced, emit_error,
  emit_gap,
}

-- The session is the same one with the same transcript, its answer versions are still numbered in
-- order, and it has not waited past the limit, if that was so before.
pub record InOrder {F : Type 0} (max : ℕ) (s s' : SessionRecord F) : Type 0 where
  pub session_id : s'.session_id ≡ s.session_id
  pub corpus_id : s'.corpus_id ≡ s.corpus_id
  pub transcript : s'.transcript ≡ s.transcript
  pub numbered : IsNumbered s → IsNumbered s'
  pub waited : s.wait_count ≤ max → s'.wait_count ≤ max

module _ {F : Type 0} {max : ℕ} where
  order_refl : {s s' : SessionRecord F} → s' ≡ s → InOrder max s s'
  order_refl {s} {s'} e = record {
    session_id = ap (λ (x : SessionRecord F). x.session_id) e;
    corpus_id = ap (λ (x : SessionRecord F). x.corpus_id) e;
    transcript = ap (λ (x : SessionRecord F). x.transcript) e;
    numbered = subst IsNumbered (sym e);
    waited = subst (λ (x : SessionRecord F). x.wait_count ≤ max) (sym e);
  }

  order_trans :
      {s s' s'' : SessionRecord F} → InOrder max s s' → InOrder max s' s'' → InOrder max s s''
  order_trans a b = record {
    session_id = b.session_id ∙ a.session_id;
    corpus_id = b.corpus_id ∙ a.corpus_id;
    transcript = b.transcript ∙ a.transcript;
    numbered = λ h. b.numbered (a.numbered h);
    waited = λ h. b.waited (a.waited h);
  }

-- `m` returns, and leaves the session in order.
pub record Settles {F : Type 0} (max : ℕ) (m : Exec F (Unit {0})) : Type 0 where
  pub at : (t : Turn F) → (t' : Turn F) × (m t ≡ (ok tt, t')) × InOrder max t.session t'.session

pub Quiet-emit_traced :
    {F : Type 0} (ulid : ℕ → String) (p : Payload F) → Quiet Any (emit_traced ulid p)
unfolding emit_traced
Quiet-emit_traced ulid p = record { at = λ t. (tt, _, refl, refl, tt) }

module _ {F : Type 0} {max : ℕ} where
  Settles-Quiet : {m : Exec F (Unit {0})} → Quiet Any m → Settles max m
  Settles-Quiet h = record { at = λ t. let (a, t', e, s, p) = h.at t in (t', e, order_refl s) }

  Settles-then : {m n : Exec F (Unit {0})} → Settles max m → Settles max n → Settles max (m >> n)
  unfolding ◌>>=◌
  Settles-then {m} {n} h k = record {
    at = λ t.
        let (t', e, r) = h.at t in
        let (t'', e', r') = k.at t' in
        (
          t'',
          ap (λ (x : Result (Unit {0}) × Turn F). continue x.0 (λ _. n) x.1) e ∙ e',
          order_trans r r',
        );
  }

module _ {F : Type 0} ⦃fl : Float F⦄ ⦃u : Unicode⦄ (services : Services F) (settings : Settings F)
    (name_of : Exn → String) where
  on_chunk-InOrder :
      (chunk : TranscriptChunk) (t : Turn F)
      → InOrder settings.max_wait_chunks t.session (on_chunk services settings chunk t).1.session
  on_chunk-InOrder chunk t =
      let same = on_chunk-SameSession services settings chunk t in
      record {
        session_id = same.session_id;
        corpus_id = same.corpus_id;
        transcript = same.transcript;
        numbered = subst (IsNumberedFrom 1 none) (sym same.answer_versions);
        waited = on_chunk-wait_count-le services settings chunk t;
      }

  answer_decision-InOrder :
      (d : ControllerDecision F) (t : Turn F)
      → InOrder settings.max_wait_chunks t.session
          (answer_decision services settings name_of d t).1.session
  unfolding answer_decision pure ◌>>=◌
  answer_decision-InOrder d t = by_decision d.decision
    where
      answered :
          (r : Option AnswerVersion) (s' : SessionRecord F)
          → Answered t.session r s'
          → (IsNumbered t.session → IsNumbered s')
          → InOrder settings.max_wait_chunks t.session s'
      answered none s' e k = order_refl e
      answered (some v) s' (e, _, _, _, _) k = record {
        session_id = ap (λ (x : SessionRecord F). x.session_id) e;
        corpus_id = ap (λ (x : SessionRecord F). x.corpus_id) e;
        transcript = ap (λ (x : SessionRecord F). x.transcript) e;
        numbered = k;
        waited = subst (λ (x : SessionRecord F). x.wait_count ≤ settings.max_wait_chunks) (sym e);
      }

      at_end :
          {x y : Result (Option AnswerVersion) × Turn F}
          → x ≡ y
          → InOrder settings.max_wait_chunks t.session
              (continue y.0 (λ _. pure (tt {0})) y.1).1.session
          → InOrder settings.max_wait_chunks t.session
              (continue x.0 (λ _. pure (tt {0})) x.1).1.session
      at_end e h =
          subst
            (λ (x : Result (Option AnswerVersion) × Turn F).
              InOrder settings.max_wait_chunks t.session
                (continue x.0 (λ _. pure (tt {0})) x.1).1.session)
            (sym e) h

      by_decision :
          (k : Decision)
          → InOrder settings.max_wait_chunks t.session
              ((elim k as (λ _. Exec F (Unit {0})) [
                | Decision.retrieve ↦
                    stream_answer services settings d.sub_queries d.evidence d.retrievals >>= λ _.
                    pure tt
                | _ ↦ pure tt
              ])
                t).1.session
      by_decision Decision.wait = order_refl refl
      by_decision Decision.no_retrieval = order_refl refl
      by_decision Decision.retrieve =
          elim (stream_answer-Answers services settings d.sub_queries d.evidence d.retrievals t) [
            | inl (r, t', e, a) ↦ at_end e (
                answered r t'.session a (λ h.
                  subst (λ (x : Result (Option AnswerVersion) × Turn F). IsNumbered x.1.session) e
                    (stream_answer-IsNumbered services settings d.sub_queries d.evidence
                      d.retrievals t h)))
            | inr (_, e) ↦ at_end e (order_refl refl)
          ]

  run_committed-Settles :
      (chunk : TranscriptChunk)
      → Settles settings.max_wait_chunks (run_committed services settings name_of chunk)
  unfolding run_committed ◌>>=◌
  run_committed-Settles chunk = record {
    at = λ t. caught t _ _ (decided t _ _ (on_chunk-InOrder chunk t));
  }
    where
      decided :
          (t : Turn F) (r : Result (ControllerDecision F)) (t' : Turn F)
          → InOrder settings.max_wait_chunks t.session t'.session
          → InOrder settings.max_wait_chunks t.session
              (continue r (answer_decision services settings name_of) t').1.session
      decided t (ok d) t' h = order_trans h (answer_decision-InOrder d t')
      decided t (raise x) t' h = h

      caught :
          (t : Turn F) (r : Result (Unit {0})) (t' : Turn F)
          → InOrder settings.max_wait_chunks t.session t'.session
          → (t'' : Turn F) × (handled r
                (λ x. emit_error services.ulid "controller" (name_of x) (exn_text x))
                t'
              ≡ (ok tt, t''))
            × InOrder settings.max_wait_chunks t.session t''.session
      caught t (ok a) t' h = (t', refl, h)
      caught t (raise x) t' h =
          let (a, t'', e, p, _) =
            (Quiet-emit_traced services.ulid
                (Payload.failed "controller" (name_of x) (exn_text x))).at
              t' in
          (t'', e, order_trans h (order_refl p))

  run_all-Settles :
      (cs : List TranscriptChunk)
      → Settles settings.max_wait_chunks (run_all services settings name_of cs)
  unfolding run_all
  run_all-Settles [] = Settles-Quiet (Quiet-pure tt tt)
  run_all-Settles (c ∷ cs) = Settles-then (run_committed-Settles c) (run_all-Settles cs)

  handle_chunk-InOrder :
      (chunk : TranscriptChunk) (t : Turn F)
      → (t' : Turn F) × (handle_chunk services settings name_of chunk t ≡ (ok tt, t'))
        × InOrder settings.max_wait_chunks
            (record t.session {
              transcript = (ingest_chunk t.session.transcript chunk settings.reorder_window_ms).0;
            })
            t'.session
  unfolding handle_chunk set_trace ◌>>=◌
  handle_chunk-InOrder chunk t =
      (Settles-then (gap (ingest_chunk t.session.transcript chunk settings.reorder_window_ms).2) (
          run_all-Settles
            (ingest_chunk t.session.transcript chunk settings.reorder_window_ms).1)).at
        _
    where
      gap : (b : Bool) → Settles {F = F} settings.max_wait_chunks (emit_gap services.ulid b)
      gap true = Settles-Quiet (Quiet-emit_traced services.ulid _)
      gap false = Settles-Quiet (Quiet-pure tt tt)

  -- What a turn leads to: it returns, the session has the transcript that `ingest_chunk` makes of
  -- the chunk, the same id and corpus, its answers numbered in order and no wait past the limit.
  abbrev pub Handled : TranscriptChunk → Turn F → Type 0
  Handled chunk t =
      (t' : Turn F) × (handle_chunk services settings name_of chunk t ≡ (ok tt, t'))
      × (t'.session.transcript
          ≡ (ingest_chunk t.session.transcript chunk settings.reorder_window_ms).0)
      × (t'.session.session_id ≡ t.session.session_id)
      × (t'.session.corpus_id ≡ t.session.corpus_id)
      × IsNumbered t'.session
      × (t'.session.wait_count ≤ settings.max_wait_chunks)

  -- In a session whose answer versions are numbered 1, 2, 3, … and which has not waited past
  -- `max_wait_chunks`, handling a received chunk comes to its end whatever the stages raise. The
  -- session then has the transcript that `ingest_chunk` makes, the same id and corpus, versions
  -- numbered so still, and has not waited past the limit.
  pub handle_chunk-Handled :
      (chunk : TranscriptChunk) (t : Turn F)
      → IsNumbered t.session
      → t.session.wait_count ≤ settings.max_wait_chunks
      → Handled chunk t
  handle_chunk-Handled chunk t h w =
      let (t', e, r) = handle_chunk-InOrder chunk t in
      (t', e, r.transcript, r.session_id, r.corpus_id, r.numbered h, r.waited w)
