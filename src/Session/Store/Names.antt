-- ===== src/Session/Store/Names.antt =====
-- What `validate_corpus_id` of app/core/slots.py lets through is the text itself.
use streaming_rag.Prelude.{◌≡◌, String, Bool, true, false, if◌then◌else◌, ok, raise, Exn}
use streaming_rag.Session.Store.{validate_corpus_id}

passed :
    {A : Type 0} (b : Bool) (a : A) (e : Exn) {c : A} → (if b then ok a else raise e) ≡ ok c → c ≡ a
passed true a e h = cc h
passed false a e h = cc h

pub validate_corpus_id-same : (s c : String) → validate_corpus_id s ≡ ok c → c ≡ s
unfolding validate_corpus_id
validate_corpus_id-same String.[] c h = cc h
validate_corpus_id-same (String.◌∷◌ x s) c h = passed _ _ _ h
