-- ===== src/Generation/StreamingGenerator/Numbering.antt =====
-- The numbers of a session's answer versions.
use streaming_rag.Prelude.{
  ℕ, suc, ◌+◌, ◌≡◌, refl, sym, ap, ◌∙◌, subst, Option, none, some, List, [], ◌∷◌, ◌++◌, arith,
  Result, inl, inr, last?,
}
use streaming_rag.Float.{Float}
use streaming_rag.Text.{Unicode}
use streaming_rag.Models.{Evidence, AnswerVersion, SubQuery}
use streaming_rag.Services.{Services}
use streaming_rag.Settings.{Settings}
use streaming_rag.Turn.{Turn}
use streaming_rag.Session.Record.{SessionRecord}
use streaming_rag.Retrieval.Fusion.{RetrievalResult}
use streaming_rag.Generation.StreamingGenerator.{next_version, superseded, stream_answer}
use streaming_rag.Generation.StreamingGenerator.Versions.{Answered, stream_answer-Answers}

-- Versions numbered from `n` on, each superseding the one before it.
abbrev pub IsNumberedFrom : ℕ → Option ℕ → List AnswerVersion → Type 0
IsNumberedFrom n before [] = Unit
IsNumberedFrom n before (v ∷ vs) =
    (v.version_no ≡ n) × (v.supersedes ≡ before) × IsNumberedFrom (suc n) (some n) vs

-- The versions of a session are 1, 2, 3, …, each superseding the one before it.
abbrev pub IsNumbered : {F : Type 0} → SessionRecord F → Type 0
IsNumbered s = IsNumberedFrom 1 none s.answer_versions

IsNumbered_from-append :
    (n : ℕ) (before : Option ℕ) (vs : List AnswerVersion) (v : AnswerVersion)
    → IsNumberedFrom n before vs
    → (v.version_no ≡ (elim (last? vs) [ none ↦ n | some w ↦ w.version_no + 1 ]))
    → (v.supersedes ≡ (elim (last? vs) [ none ↦ before | some w ↦ some w.version_no ]))
    → IsNumberedFrom n before (vs ++ (v ∷ []))
IsNumbered_from-append n before [] v h k l = (k, l, tt)
IsNumbered_from-append n before (w ∷ []) v (h, h', _) k l =
    (h, h', (k ∙ omega (arith, h), l ∙ ap some h, tt))
IsNumbered_from-append n before (w ∷ w' ∷ vs) v (h, h', hs) k l =
    (h, h', IsNumbered_from-append (suc n) (some n) (w' ∷ vs) v hs (rest w' vs k) (rest' w' vs l))
  where
    rest :
        {m : ℕ} (x : AnswerVersion) (xs : List AnswerVersion)
        → m ≡ (elim (last? (x ∷ xs)) [ none ↦ n | some y ↦ y.version_no + 1 ])
        → m ≡ (elim (last? (x ∷ xs)) [ none ↦ suc n | some y ↦ y.version_no + 1 ])
    rest x [] e = e
    rest x (y ∷ ys) e = rest y ys e

    rest' :
        {m : Option ℕ} (x : AnswerVersion) (xs : List AnswerVersion)
        → m ≡ (elim (last? (x ∷ xs)) [ none ↦ before | some y ↦ some y.version_no ])
        → m ≡ (elim (last? (x ∷ xs)) [ none ↦ some n | some y ↦ some y.version_no ])
    rest' x [] e = e
    rest' x (y ∷ ys) e = rest' y ys e

module _ {F : Type 0} ⦃fl : Float F⦄ ⦃u : Unicode⦄ (services : Services F)
    (settings : Settings F) where
  -- `stream_answer` keeps the versions of a session numbered 1, 2, 3, …, each superseding the one
  -- before it.
  pub stream_answer-IsNumbered :
      (sqs : List SubQuery) (evidence : List (Evidence F)) (retrievals : List (RetrievalResult F))
      (t : Turn F)
      → IsNumbered t.session
      → IsNumbered (stream_answer services settings sqs evidence retrievals t).1.session
  stream_answer-IsNumbered sqs evidence retrievals t h =
      elim (stream_answer-Answers services settings sqs evidence retrievals t) [
        | inl (r, t', e, a) ↦ at_end e (after r t' a)
        | inr (_, e) ↦ at_end e h
      ]
    where
      at_end :
          {x y : Result (Option AnswerVersion) × Turn F}
          → x ≡ y
          → IsNumbered y.1.session
          → IsNumbered x.1.session
      at_end e k =
          subst (λ (x : Result (Option AnswerVersion) × Turn F). IsNumbered x.1.session) (sym e) k

      number :
          (o : Option AnswerVersion)
          → next_version o ≡ (elim o [ none ↦ 1 | some w ↦ w.version_no + 1 ])
      number none = refl
      number (some w) = refl

      older :
          (o : Option AnswerVersion)
          → superseded o ≡ (elim o [ none ↦ none | some w ↦ some w.version_no ])
      older none = refl
      older (some w) = refl

      after :
          (r : Option AnswerVersion) (t' : Turn F)
          → Answered t.session r t'.session
          → IsNumbered t'.session
      after none t' e = subst IsNumbered (sym e) h
      after (some v) t' (e, k, l, _, _) =
          subst IsNumbered (sym e) (
            IsNumbered_from-append 1 none t.session.answer_versions v h (k ∙ number _)
              (l ∙ older _))
