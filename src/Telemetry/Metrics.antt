-- ===== src/Telemetry/Metrics.antt =====
-- app/telemetry/metrics.py: the figures of an evaluation, from events and gold labels. A quotient
-- of two counts is `divide`, Python's `/` on integers; `to_seconds` is `(b - a).total_seconds()`.
use streaming_rag.Prelude.{
  sym, subst, ap, ℕ, zero, suc, ◌+◌, ◌≡◌, refl, ◌↔◌, String, Bool, true, false, not, ◌&&◌, Option,
  none, some, List, [], ◌∷◌, keep, any, length, ◌==◌, string_eq, if◌then◌else◌, ltb, arith,
  Bool-cases, inl, inr,
}
use streaming_rag.Models.Events.{EventType}
use streaming_rag.Grounding.Tags.{unique}
use streaming_rag.Telemetry.EventTypes
use streaming_rag.Telemetry.EventLogger.{StoredEvent}

pub record EarlyRetrievalCase : Type 0 where
  pub eligible : Bool
  pub utterance_end_offset_ms : ℕ
  pub first_retrieval_started_offset_ms : Option ℕ

pub record RefinementCase : Type 0 where
  pub carried_forward_claims_unchanged : Bool
  pub only_delta_subqueries_issued : Bool
  pub session_state_cleared : Bool

-- `x in xs`
abbrev pub is_in : String → List String → Bool
is_in x xs = any (λ y. y == x) xs

-- `set(xs) <= set(ys)`
abbrev pub is_subset : List String → List String → Bool
is_subset [] ys = true
is_subset (x ∷ xs) ys = is_in x ys && is_subset xs ys

abbrev pub is_before : Option ℕ → ℕ → Bool
is_before none n = false
is_before (some m) n = ltb m n

-- `_first_timestamp`
unfoldable pub first_timestamp : {T P : Type 0} → List (StoredEvent T P) → EventType → Option T
unfolding EventTypes.value
first_timestamp [] event_type = none
first_timestamp (e ∷ es) event_type =
    if EventTypes.value e.event_type == EventTypes.value event_type
    then some e.timestamp
    else first_timestamp es event_type

abbrev pub seconds_until : {T F : Type 0} → (T → T → F) → Option T → T → Option F
seconds_until to_seconds none start = none
seconds_until to_seconds (some t) start = some (to_seconds start t)

abbrev pub is_unknown : List String → Option String → Bool
is_unknown ids none = true
is_unknown ids (some id) = not (is_in id ids)

-- `chunk_id_of` is `payload.get("chunk_id")`
abbrev pub is_fabricated :
    {T P : Type 0} → (P → Option String) → List String → StoredEvent T P → Bool
is_fabricated chunk_id_of evidence_chunk_ids e =
    is_unknown evidence_chunk_ids (chunk_id_of e.payload)

module _ {F : Type 0} (divide : ℕ → ℕ → F) where
  -- `sum(1 for c in cases if p(c)) / len(cases)`, or `None` without a case
  abbrev pub share {ℓ} : {A : Type ℓ} → (A → Bool) → List A → Option F
  share p [] = none
  share p (x ∷ xs) = some (divide (length (keep p (x ∷ xs))) (length (x ∷ xs)))

  unfoldable pub early_retrieval_rate : List EarlyRetrievalCase → Option F
  early_retrieval_rate cases =
      share (λ c. is_before c.first_retrieval_started_offset_ms c.utterance_end_offset_ms)
        (keep (λ c. c.eligible) cases)

  unfoldable pub multi_intent_accuracy : List (List String × List String) → Option F
  multi_intent_accuracy = share (λ c. is_subset c.0 c.1 && is_subset c.1 c.0)

  unfoldable pub citation_grounding_rate : ℕ → ℕ → Option F
  citation_grounding_rate grounded_assertions zero = none
  citation_grounding_rate grounded_assertions (suc n) = some (divide grounded_assertions (suc n))

  unfoldable pub fabricated_citation_rate :
      {T P : Type 0} → (P → Option String) → List (StoredEvent T P) → List String → Option F
  fabricated_citation_rate chunk_id_of citation_events evidence_chunk_ids =
      share (is_fabricated chunk_id_of evidence_chunk_ids) citation_events

  unfoldable pub retrieval_precision : List String → List String → Option F
  retrieval_precision retrieved_chunk_ids gold_relevant_chunk_ids =
      share (λ c. is_in c gold_relevant_chunk_ids) retrieved_chunk_ids

  unfoldable pub retrieval_recall : List String → List String → Option F
  retrieval_recall retrieved_chunk_ids gold_relevant_chunk_ids =
      share (λ c. is_in c retrieved_chunk_ids) (unique gold_relevant_chunk_ids)

  unfoldable pub session_refinement_accuracy : List RefinementCase → Option F
  session_refinement_accuracy = share (λ c.
      c.carried_forward_claims_unchanged
      && (c.only_delta_subqueries_issued && not c.session_state_cleared))

module _ {F T P : Type 0} (to_seconds : T → T → F) where
  unfoldable pub time_to_first_token : List (StoredEvent T P) → T → Option F
  unfolding first_timestamp
  time_to_first_token events turn_start =
      seconds_until to_seconds (first_timestamp events EventType.answer_delta) turn_start

  unfoldable pub end_to_end_latency : List (StoredEvent T P) → T → Option F
  unfolding first_timestamp
  end_to_end_latency events utterance_end =
      seconds_until to_seconds (first_timestamp events EventType.answer_version_created)
        utterance_end

-- `token_cost`; `times` is Python's product of an integer and a float.
unfoldable pub token_cost : {F : Type 0} → (ℕ → F → F) → ℕ → ℕ → F → F
token_cost times prompt_tokens completion_tokens provider_rate =
    times (prompt_tokens + completion_tokens) provider_rate

-- Every citation names a chunk of the evidence.
abbrev pub IsGrounded :
    {T P : Type 0} → (P → Option String) → List String → List (StoredEvent T P) → Type 0
IsGrounded chunk_id_of ids [] = Unit
IsGrounded chunk_id_of ids (e ∷ es) =
    ((id : String) × (chunk_id_of e.payload ≡ some id) × (is_in id ids ≡ true))
    × IsGrounded chunk_id_of ids es

is_unknown_iff :
    (ids : List String) (o : Option String)
    → (is_unknown ids o ≡ false) ↔ ((id : String) × (o ≡ some id) × (is_in id ids ≡ true))
is_unknown_iff ids none = (λ h. cc, λ (id, a, b). cc a)
is_unknown_iff ids (some i) = (
  λ h. (i, refl, ground (arith, h)),
  λ (id, a, b). subst (λ o. is_unknown ids o ≡ false) (sym a) (rw b refl),
)

module _ {T P : Type 0} (chunk_id_of : P → Option String) (ids : List String) where
  IsGrounded-iff :
      (es : List (StoredEvent T P))
      → (length (keep (is_fabricated chunk_id_of ids) es) ≡ 0) ↔ IsGrounded chunk_id_of ids es
  IsGrounded-iff [] = (λ h. tt, λ h. refl)
  IsGrounded-iff (e ∷ es) = elim (Bool-cases (is_fabricated chunk_id_of ids e)) [
    | inl k ↦ rw k (
      λ h. absurd (omega (arith, h)),
      λ h. cc (k, (is_unknown_iff ids (chunk_id_of e.payload)).1 h.0),
    )
    | inr k ↦ rw k (
      λ h. ((is_unknown_iff ids (chunk_id_of e.payload)).0 k, (IsGrounded-iff es).0 h),
      λ h. (IsGrounded-iff es).1 h.1,
    )
  ]

  -- The fabricated citation rate of a turn that cites is zero exactly when every citation names a
  -- chunk of the turn's evidence, where a quotient is zero only for a count of zero.
  pub fabricated_citation_rate-zero :
      {F : Type 0} (divide : ℕ → ℕ → F) (zero_rate : F)
      → ((n d : ℕ) → (divide n (suc d) ≡ zero_rate) ↔ (n ≡ 0))
      → (e : StoredEvent T P) (es : List (StoredEvent T P))
      → (fabricated_citation_rate divide chunk_id_of (e ∷ es) ids ≡ some zero_rate)
        ↔ IsGrounded chunk_id_of ids (e ∷ es)
  unfolding fabricated_citation_rate
  fabricated_citation_rate-zero divide zero_rate law e es = (
    λ h. (IsGrounded-iff (e ∷ es)).0 ((law _ (length es)).0 (cc h)),
    λ h. ap some ((law _ (length es)).1 ((IsGrounded-iff (e ∷ es)).1 h)),
  )
