-- ===== src/Session/DeltaEngine.antt =====
-- app/session/delta_engine.py: the classification of a later chunk, and the text of a delta query.
use Prim.Native.String.{◌++◌ as str_append}
use streaming_rag.Prelude.{
  String, Bool, ◌||◌, List, [], ◌∷◌, map, Dict, sort_by, Result, ok, ◌>>=◌, if◌then◌else◌,
}
use streaming_rag.Float.{Float, less, cosine}
use streaming_rag.Text.{Unicode, join, text_leb}
use streaming_rag.Text.Regex.{Regex, found, any_of, word_by, char_folds_to, optional}

pub data Classification : Type 0 where
  new_topic refinement ambiguous : Classification

abbrev phrase : String → Regex
phrase = word_by char_folds_to

-- `_CONTRASTIVE_MARKERS`
unfoldable pub contrastive_markers : ⦃u : Unicode⦄ → Regex
contrastive_markers ⦃u⦄ = Regex.seq (Regex.boundary u.is_word) (
    Regex.seq
      (any_of (
        phrase "actually"
        ∷ phrase "instead"
        ∷ phrase "correction"
        ∷ phrase "scratch that"
        ∷ phrase "change that"
        ∷ phrase "rather than"
        ∷ phrase "on second thought"
        ∷ phrase "i meant"
        ∷ phrase "no wait"
        ∷ Regex.seq (phrase "sorry") (Regex.seq (optional (phrase ",")) (phrase " i mean"))
        ∷ []))
      (Regex.boundary u.is_word))

unfoldable pub has_contrastive_marker : ⦃u : Unicode⦄ → String → Bool
unfolding found contrastive_markers
has_contrastive_marker text = found contrastive_markers text

module _ {F : Type 0} ⦃fl : Float F⦄ ⦃u : Unicode⦄ where
  -- `_NEW_TOPIC_THRESHOLD`
  abbrev pub new_topic_threshold : F
  new_topic_threshold = fl.div (fl.of_ℕ 4) (fl.of_ℕ 10)

  -- The branches of `classify_segment`, on the similarity and the marker.
  unfoldable pub classify : F → Bool → F → Classification
  classify sim marked refinement_threshold =
      if fl.le refinement_threshold sim || marked
      then refinement
      else if less sim new_topic_threshold
      then new_topic
      else ambiguous

  unfoldable pub classify_segment :
      String → List F → (String → Result (List F)) → F → Result Classification
  unfolding classify
  classify_segment text topic_embedding embed refinement_threshold = do
    embedding ← embed text
    sim ← cosine embedding topic_embedding
    ok (classify sim (has_contrastive_marker text) refinement_threshold)

abbrev slot_leb : String × String → String × String → Bool
slot_leb a b = text_leb a.0 b.0

-- `build_delta_query`: a dictionary has each slot once, so the slot decides the order.
unfoldable pub build_delta_query : Dict String String → String
unfolding join
build_delta_query delta =
    join "; " (map (λ p. str_append p.0 (str_append ": " p.1)) (sort_by slot_leb delta))
