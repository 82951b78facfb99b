-- ===== src/Tests/Evidence.antt =====
-- Retrieval, reranking, decomposition and grounding at concrete evidence.
use mathlib.Core.List.{Mem, Perm}
use streaming_rag.Prelude.{
  ℕ, ◌≡◌, refl, ◌≤◌, inl, String, true, some, List, [], ◌∷◌, arith, ok, Dict, All, IsSortedBy,
  length, string_eq,
}
use streaming_rag.Float.{nat_float, cosine}
use streaming_rag.Models.{Evidence, Citation}
use streaming_rag.Turn.Quiet.{Quiet}
use streaming_rag.Retrieval.Hybrid.{retrieve}
use streaming_rag.Retrieval.Hybrid.Isolation.{Isolated, retrieve-Isolated}
use streaming_rag.Reranking.CrossEncoder.{
  cap_global_evidence, truncate_to_token_budget, higher_rank, rerank_subquery,
}
use streaming_rag.Reranking.CrossEncoder.Bounds.{
  Selected, rerank_subquery-Selected, cap_global_evidence-bounded, Fits,
  truncate_to_token_budget-Fits,
}
use streaming_rag.Reranking.CrossEncoder.Floor.{cap_global_evidence-floor}
use streaming_rag.Decomposition.MultiIntent.{ProposedSubQuery, merge_similar}
use streaming_rag.Decomposition.MultiIntent.Merge.{texts_of, proposed_texts, merge_similar-perm}
use streaming_rag.Grounding.Tags.{extract_citation_tags}
use streaming_rag.Grounding.CitationValidator.{
  EvidenceByTag, accept, citation_of, lexical_overlap, validate_sentence,
}
use streaming_rag.Grounding.Validation.{
  Grounded, Cites, validate_sentence-Grounded, validate_sentence-accept,
}
use streaming_rag.Tests.Data.{spaces, services, settings, request, row, hit, cited}

abbrev kept : Dict String (List (Evidence ℕ))
kept = ("q", row "a" 1 ∷ row "b" 2 ∷ []) ∷ ("r", row "c" 3 ∷ []) ∷ []

cap_global_evidence-floor_example :
    Mem (row "b" 2) (row "a" 1 ∷ row "b" 2 ∷ [])
    × All (λ x. higher_rank (row "b" 2) x ≡ true) (row "a" 1 ∷ row "b" 2 ∷ [])
    × Mem (row "b" 2) (cap_global_evidence kept 2)
cap_global_evidence-floor_example =
    cap_global_evidence-floor kept 2 [] ((row "c" 3 ∷ []) ∷ []) (row "a" 1) (row "b" 2 ∷ []) refl
      (omega arith)

cap_global_evidence-bounded_example :
    (length (cap_global_evidence kept 2) ≤ 2) × IsSortedBy higher_rank (cap_global_evidence kept 2)
cap_global_evidence-bounded_example = cap_global_evidence-bounded kept 2

rerank_subquery-Selected_example : Selected 1 3 (record (row "a" 1) { rerank_score = some 5 } ∷ [])
unfolding rerank_subquery
rerank_subquery-Selected_example =
    rerank_subquery-Selected "fee" (row "a" 1 ∷ []) (("c1", hit) ∷ []) (λ ps. ok (5 ∷ [])) 1 3 5
      (record (row "a" 1) { rerank_score = some 5 } ∷ []) refl

truncate_to_token_budget-Fits_example :
    Fits
      (("c1", hit) ∷ [])
      5
      0
      (row "a" 2 ∷ row "b" 1 ∷ [])
      (truncate_to_token_budget (row "a" 2 ∷ row "b" 1 ∷ []) (("c1", hit) ∷ []) 5)
truncate_to_token_budget-Fits_example =
    truncate_to_token_budget-Fits (row "a" 2 ∷ row "b" 1 ∷ []) (("c1", hit) ∷ []) 5

-- Two rows of one chunk: the better one is kept, and the other is marked with it.
abbrev marked : List (Evidence ℕ)
marked = record (row "b" 1) { duplicate_of = some "a" } ∷ row "a" 2 ∷ []

retrieve-Isolated_example :
    Quiet (Isolated services settings request) (retrieve services settings request)
retrieve-Isolated_example = retrieve-Isolated services settings request

abbrev asked : String → ProposedSubQuery
asked t = record { text = t; intent_label = "fee" }

merge_similar-perm_example :
    Perm (texts_of ((asked "a", "b" ∷ []) ∷ [])) (proposed_texts (asked "a" ∷ asked "b" ∷ []))
unfolding merge_similar cosine
merge_similar-perm_example =
    merge_similar-perm services.embed 0 (asked "a" ∷ asked "b" ∷ []) ((asked "a", "b" ∷ []) ∷ [])
      refl

abbrev by_tag : EvidenceByTag
by_tag = ("d1::s1", cited) ∷ []

validate_sentence-Grounded_example : Grounded {F = ℕ} by_tag 0 "fee [d1 s1]"
unfolding validate_sentence extract_citation_tags lexical_overlap
validate_sentence-Grounded_example =
    validate_sentence-Grounded {F = ℕ} (λ n. "id") 0 "fee [d1 s1]" by_tag 0 "fee [d1 s1]"
      (citation_of {F = ℕ} (λ n. "id") 0 "fee [d1 s1]" cited ∷ []) refl

validate_sentence-accept_example :
    (cs : List (Citation ℕ)) × (validate_sentence (λ n. "id") 0 "fee [d1 s1]" by_tag 0
      ≡ accept "fee [d1 s1]" cs)
    × Cites by_tag "fee [d1 s1]" (extract_citation_tags "fee [d1 s1]") cs
unfolding extract_citation_tags lexical_overlap
validate_sentence-accept_example =
    validate_sentence-accept (λ n. "id") 0 "fee [d1 s1]" by_tag 0 (refl, refl, inl refl)
