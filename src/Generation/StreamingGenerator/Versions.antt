-- ===== src/Generation/StreamingGenerator/Versions.antt =====
-- What a call of `stream_answer` leaves in the session.
use streaming_rag.Prelude.{
  ◌≡◌, refl, ap, ◌∙◌, subst, String, Option, none, some, List, [], ◌∷◌, ◌++◌, Bool-cases, inl, inr,
  Result, ok, raise, value_error, ◌⊎◌, Bool, true, false, if◌then◌else◌, last?,
}
use streaming_rag.Float.{Float}
use streaming_rag.Text.{Unicode}
use streaming_rag.Models.{Evidence, AnswerVersion, SubQuery}
use streaming_rag.Models.Events.{Payload}
use streaming_rag.Services.{Services}
use streaming_rag.Settings.{Settings}
use streaming_rag.Turn.{Turn, Exec, pure, reads, continue, ◌>>=◌}
use streaming_rag.Session.Record.{SessionRecord}
use streaming_rag.Retrieval.Fusion.{RetrievalResult}
use streaming_rag.Grounding.CitationValidator.{EvidenceByTag, is_nil}
use streaming_rag.Generation.StreamingGenerator.{
  Draft, split_sentence, version_of, empty_draft, next_version, superseded, commit_version,
  write_answer, get_generator, generate, insufficient, stream_answer,
}
use streaming_rag.Turn.Quiet.{Quiet, Quiet-emit, Quiet-mint}
use streaming_rag.Generation.StreamingGenerator.Endings.{
  Quiet-emit_insufficient, Quiet-emit_cut, Quiet-token_loop, Quiet-last_sentence,
}

-- What a call of `stream_answer` does to the session: nothing, or one version more, the next in
-- number, which supersedes the last one and cites what it claims.
abbrev pub Answered :
    {F : Type 0} → SessionRecord F → Option AnswerVersion → SessionRecord F → Type 0
Answered s none s' = s' ≡ s
Answered s (some v) s' =
    (s' ≡ record s { answer_versions = s.answer_versions ++ (v ∷ []) })
    × (v.version_no ≡ next_version (last? s.answer_versions))
    × (v.supersedes ≡ superseded (last? s.answer_versions))
    × (v.session_id ≡ s.session_id)
    × (v.new_claim_ids ≡ v.citations)

-- `m` returns, and does that to the session.
abbrev pub Answers : {F : Type 0} → Exec F (Option AnswerVersion) → Turn F → Type 0
Answers {F} m t =
    (r : Option AnswerVersion) × (t' : Turn F) × (m t ≡ (ok r, t'))
    × Answered t.session r t'.session

module _ {F : Type 0} where
  Answers-bind :
      {A : Type 0} {P : A → Type 0} {m : Exec F A} {f : A → Exec F (Option AnswerVersion)}
      (t : Turn F)
      → Quiet P m
      → ((a : A) (t' : Turn F) → t'.session ≡ t.session → Answers (f a) t')
      → Answers (m >>= f) t
  unfolding ◌>>=◌
  Answers-bind {m = m} {f} t h k =
      let (a, t', e, s, p) = h.at t in
      let (r, t'', e', q) = k a t' s in
      (
        r,
        t'',
        ap (λ (x : Result _ × Turn F). continue x.0 f x.1) e ∙ e',
        subst (λ x. Answered x r t''.session) s q,
      )

  Answers-reads :
      {A : Type 0} (f : Turn F → A) (k : A → Exec F (Option AnswerVersion)) (t : Turn F)
      → Answers (k (f t)) t
      → Answers (reads f >>= k) t
  unfolding ◌>>=◌
  Answers-reads f k t h = h

  commit_version-Answers :
      (id : String) (draft : Draft F) (t : Turn F)
      → Answers (commit_version id (last? t.session.answer_versions) draft) t
  unfolding commit_version ◌>>=◌
  commit_version-Answers id draft t = elim (Bool-cases (is_nil draft.sentences)) [
    | inl e ↦ (none, t, rw e refl, refl)
    | inr e ↦
        let v = version_of id t.session.session_id (last? t.session.answer_versions) draft in
        let t1 = record t {
          session = record t.session { answer_versions = t.session.answer_versions ++ (v ∷ []) };
        } in
        let (a, t', k, s, p) =
          (Quiet-emit (Payload.versioned v.version_no v.text v.citations v.supersedes)).at t1 in
        (
          some v,
          t',
          rw e (ap (λ (x : Result (Unit {0}) × Turn F). continue x.0 (λ _. pure (some v)) x.1) k),
          (s, refl, refl, refl, refl),
        )
  ]

module _ {F : Type 0} ⦃fl : Float F⦄ ⦃u : Unicode⦄ (services : Services F)
    (settings : Settings F) where
  write_answer-Answers :
      (sqs : List SubQuery) (d : EvidenceByTag) (t : Turn F)
      → Answers (write_answer services settings sqs d) t
  unfolding write_answer split_sentence
  write_answer-Answers sqs d t = Answers-reads _ _ t (
      Answers-bind t (Quiet-mint services.ulid) (λ id t1 s1.
        Answers-bind t1 (Quiet-token_loop services settings d sqs id _ _ empty_draft refl)
          (λ draft t2 s2. Answers-bind t2 (Quiet-emit_cut _) (λ _ t3 s3.
            Answers-bind t3 (Quiet-last_sentence services settings d sqs id _ draft)
              (λ full t4 s4. committed id full t4 (s4 ∙ s3 ∙ s2 ∙ s1))))))
    where
      committed :
          (id : String) (full : Draft F) (t4 : Turn F)
          → t4.session ≡ t.session
          → Answers (commit_version id (last? t.session.answer_versions) full) t4
      committed id full t4 e =
          subst
            (λ (s : SessionRecord F). Answers (commit_version id (last? s.answer_versions) full) t4)
            e (commit_version-Answers id full t4)

  -- The provider of the settings is none that the code knows: the call for its generator raises, and
  -- nothing else is done.
  abbrev pub Refuses : Exec F (Option AnswerVersion) → Turn F → Type 0
  Refuses m t =
      (get_generator services settings ≡ raise value_error) × (m t ≡ (raise value_error, t))

  get_generator-cases :
      (get_generator services settings ≡ ok tt)
      ⊎ (get_generator services settings ≡ raise value_error)
  unfolding get_generator
  get_generator-cases = by_provider _
    where
      by_provider :
          (b : Bool)
          → ((if b then ok tt else raise value_error) ≡ ok (tt {0}))
            ⊎ ((if b then ok (tt {0}) else raise value_error) ≡ raise value_error)
      by_provider true = inl refl
      by_provider false = inr refl

  generate-Answers :
      (sqs : List SubQuery) (d : EvidenceByTag) (t : Turn F)
      → Answers (generate services settings sqs d) t ⊎ Refuses (generate services settings sqs d) t
  unfolding generate ◌>>=◌
  generate-Answers sqs d t = elim get_generator-cases [
    | inl known ↦ inl (rw known (write_answer-Answers sqs d t))
    | inr unknown ↦ inr (unknown, rw unknown refl)
  ]

  -- `stream_answer` returns, whatever the language model streams or completes, and whether its
  -- calls raise, unless the settings name a provider that the code does not know. The session is
  -- then as it was, or has exactly one answer version more: the next in number, which supersedes
  -- the last one, belongs to the session, and whose new claims are its citations. With an unknown
  -- provider `stream_answer` may instead raise a `ValueError` before it has done anything.
  pub stream_answer-Answers :
      (sqs : List SubQuery) (evidence : List (Evidence F)) (retrievals : List (RetrievalResult F))
      (t : Turn F)
      → Answers (stream_answer services settings sqs evidence retrievals) t
        ⊎ Refuses (stream_answer services settings sqs evidence retrievals) t
  unfolding stream_answer pure
  stream_answer-Answers [] evidence retrievals t = inl (none, t, refl, refl)
  stream_answer-Answers (sq ∷ sqs) evidence retrievals t =
      elim (Bool-cases (insufficient services settings evidence)) [
        | inl e ↦ inl (
            rw e (
              Answers-bind t (Quiet-emit_insufficient (sq ∷ sqs))
                (λ _ t' s. (none, t', refl, refl))))
        | inr e ↦ rw e (generate-Answers (sq ∷ sqs) _ t)
      ]
