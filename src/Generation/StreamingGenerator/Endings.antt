-- ===== src/Generation/StreamingGenerator/Endings.antt =====
-- The stages of `stream_answer` return whatever the language model does, and the loop that cuts the
-- buffer leaves nothing to cut.
use streaming_rag.Prelude.{
  ℕ, zero, suc, ◌≤◌, ◌≡◌, refl, String, Bool, true, false, Option, none, some, List, [], ◌∷◌, arith,
  Result, ok, raise, Exn,
}
use native.Mathlib.Nat.{le_refl}
use streaming_rag.Float.{Float}
use streaming_rag.Text.{Unicode, strip, is_blank}
use streaming_rag.Text.Regex.{count_chars}
use streaming_rag.Models.{Citation, SubQuery}
use streaming_rag.Services.{Services}
use streaming_rag.Settings.{Settings}
use streaming_rag.Turn.{pure, ◌>>=◌}
use streaming_rag.Grounding.CitationValidator.{EvidenceByTag, Outcome, accepted, uncertain}
use streaming_rag.Generation.StreamingGenerator.{
  Draft, add_sentence, count_minted, split_sentence, finalize, regenerate_loop, finalize_and_emit,
  publish, emit_citations, emit_insufficient, emit_cut, split_loop, token_loop, last_sentence,
  regenerate_max_attempts,
}
use streaming_rag.Generation.StreamingGenerator.Splitting.{split_sentence-rest-lt}
use streaming_rag.Turn.Quiet.{
  Quiet, Any, Quiet-pure, Quiet-reads, Quiet-bind, Quiet-then, Quiet-if, Quiet-emit,
  Quiet-set_minted,
}

module _ {F : Type 0} where
  Quiet-emit_citations : (cs : List (Citation F)) → Quiet Any (emit_citations cs)
  unfolding emit_citations
  Quiet-emit_citations [] = Quiet-pure tt tt
  Quiet-emit_citations (c ∷ cs) = Quiet-then (Quiet-emit _) (Quiet-emit_citations cs)

  pub Quiet-emit_insufficient : (sqs : List SubQuery) → Quiet Any (emit_insufficient {F = F} sqs)
  unfolding emit_insufficient
  Quiet-emit_insufficient [] = Quiet-pure tt tt
  Quiet-emit_insufficient (sq ∷ sqs) = Quiet-then (Quiet-emit _) (Quiet-emit_insufficient sqs)

  pub Quiet-emit_cut : (cut : Option Exn) → Quiet Any (emit_cut {F = F} cut)
  unfolding emit_cut
  Quiet-emit_cut none = Quiet-pure tt tt
  Quiet-emit_cut (some e) = Quiet-emit _

  Quiet-publish :
      (sqs : List SubQuery) (id : String) (n : ℕ) (last : Bool) (o : Outcome F)
      → Quiet Any (publish sqs id n last o)
  unfolding publish
  Quiet-publish sqs id n last (accepted text cs) =
      Quiet-then (Quiet-emit_citations _) (Quiet-then (Quiet-emit _) (Quiet-pure _ tt))
  Quiet-publish sqs id n last (uncertain reason) =
      Quiet-then (Quiet-emit _) (Quiet-then (Quiet-emit _) (Quiet-pure _ tt))

-- A buffer with no sentence left to cut.
abbrev pub Uncut : {F : Type 0} ⦃u : Unicode⦄ → Draft F → Type 0
Uncut d = split_sentence d.buffer ≡ none

module _ {F : Type 0} ⦃fl : Float F⦄ ⦃u : Unicode⦄ (services : Services F)
    (settings : Settings F) where
  Quiet-finalize : (s : String) (d : EvidenceByTag) → Quiet Any (finalize services settings s d)
  unfolding finalize
  Quiet-finalize s d = Quiet-bind (Quiet-reads _) (λ n _. counted n _)
    where
      counted : (n : ℕ) (o : Outcome F) → Quiet Any (count_minted services settings n o)
      counted n (accepted text cs) = Quiet-then (Quiet-set_minted _) (Quiet-pure _ tt)
      counted n (uncertain reason) = Quiet-pure _ tt

  Quiet-regenerate_loop :
      (n : ℕ) (s : String) (d : EvidenceByTag) (o : Outcome F)
      → Quiet Any (regenerate_loop services settings n s d o)
  unfolding regenerate_loop
  Quiet-regenerate_loop n s d (accepted text cs) = Quiet-pure _ tt
  Quiet-regenerate_loop zero s d (uncertain reason) = Quiet-pure _ tt
  Quiet-regenerate_loop (suc n) s d (uncertain reason) =
      again (λ x o. Quiet-regenerate_loop n (strip x) d o) _
    where
      again :
          ((x : String) (o : Outcome F)
            → Quiet Any (regenerate_loop services settings n (strip x) d o))
          → (r : Result String)
          → Quiet Any (elim r [
            | raise e ↦ pure (uncertain reason)
            | ok x ↦
                finalize services settings (strip x) d
                >>= regenerate_loop services settings n (strip x) d
          ])
      again k (raise e) = Quiet-pure _ tt
      again k (ok x) = Quiet-bind (Quiet-finalize _ d) (λ o _. k x o)

  Quiet-finalize_and_emit :
      (s : String) (d : EvidenceByTag) (sqs : List SubQuery) (id : String) (n : ℕ) (b : Bool)
      → Quiet Any (finalize_and_emit services settings s d sqs id n b)
  unfolding finalize_and_emit
  Quiet-finalize_and_emit s d sqs id n b = Quiet-bind (Quiet-finalize s d) (λ o _.
      Quiet-bind (Quiet-regenerate_loop regenerate_max_attempts s d o)
        (λ r _. Quiet-publish sqs id n b r))

  -- With as much fuel as the buffer has characters, no sentence is left to cut.
  Quiet-split_loop :
      (d : EvidenceByTag) (sqs : List SubQuery) (id : String) (n : ℕ) (fuel : ℕ) (draft : Draft F)
      → count_chars draft.buffer ≤ fuel
      → Quiet Uncut (split_loop services settings d sqs id n fuel draft)
  unfolding split_loop split_sentence
  Quiet-split_loop d sqs id n zero draft h = Quiet-pure draft (short draft.buffer h)
    where
      short : (s : String) → count_chars s ≤ 0 → split_sentence s ≡ none
      short String.[] k = refl
      short (String.◌∷◌ c s) k = absurd (omega arith)
  Quiet-split_loop d sqs id n (suc fuel) draft h =
      cut (λ draft' k. Quiet-split_loop d sqs id n fuel draft' k) _ refl
    where
      cut :
          ((draft' : Draft F)
            → count_chars draft'.buffer ≤ fuel
            → Quiet Uncut (split_loop services settings d sqs id n fuel draft'))
          → (o : Option (String × String)) → split_sentence draft.buffer ≡ o
          → Quiet {F = F} {A = Draft F} Uncut (elim o [
            | none ↦ pure draft
            | some split ↦ finalize_and_emit services settings split.0 d sqs id n false >>= λ r.
                split_loop services settings d sqs id n fuel
                  (add_sentence (record draft { buffer = split.1 }) r)
          ])
      cut loop none e = Quiet-pure draft e
      cut loop (some split) e =
          Quiet-bind (Quiet-finalize_and_emit _ d sqs id n false)
            (λ r _. loop _ (omega (arith, split_sentence-rest-lt draft.buffer e)))

  pub Quiet-token_loop :
      (d : EvidenceByTag) (sqs : List SubQuery) (id : String) (n : ℕ) (tokens : List String)
      (draft : Draft F)
      → Uncut draft
      → Quiet Uncut (token_loop services settings d sqs id n tokens draft)
  unfolding token_loop
  Quiet-token_loop d sqs id n [] draft h = Quiet-pure draft h
  Quiet-token_loop d sqs id n (token ∷ tokens) draft h =
      Quiet-bind (Quiet-split_loop d sqs id n _ _ (le_refl _))
        (λ d' k. Quiet-token_loop d sqs id n tokens d' k)

  pub Quiet-last_sentence :
      (d : EvidenceByTag) (sqs : List SubQuery) (id : String) (n : ℕ) (draft : Draft F)
      → Quiet Any (last_sentence services settings d sqs id n draft)
  unfolding last_sentence
  Quiet-last_sentence d sqs id n draft =
      Quiet-if (is_blank (strip draft.buffer)) (Quiet-pure draft tt)
        (Quiet-bind (Quiet-finalize_and_emit _ d sqs id n true) (λ r _. Quiet-pure _ tt))
