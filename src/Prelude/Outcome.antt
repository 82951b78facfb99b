-- ===== src/Prelude/Outcome.antt =====
-- Python's exceptions in pure code: a value, or what was raised.
use mathlib.Core.Path.{◌≡◌, refl}
use mathlib.Core.Logic.{◌⊎◌, inl, inr}
use Prim.Native.String.{String}

-- The exceptions that the modelled code raises or lets through; `external` is one of a library or
-- a service, with its text.
pub data Exn : Type 0 where
  key_error value_error timeout_error unknown_session session_expired invalid_corpus_id : Exn
  external : String → Exn

-- `str(exc)`; the texts of the code's own exceptions are not modelled.
abbrev pub exn_text : Exn → String
exn_text (external s) = s
exn_text _ = ""

pub data Result {ℓ} (A : Type ℓ) : Type ℓ where
  ok : A → Result A
  raise : Exn → Result A

module _ {ℓ κ} {A : Type ℓ} {B : Type κ} where
  infixl 5 ◌>>=◌
  abbrev pub ◌>>=◌ : Result A → (A → Result B) → Result B
  ok a >>= f = f a
  raise e >>= f = raise e

  -- A chain that comes to a value came to one at each step.
  pub >>=-ok :
      (first : Result A) (next : A → Result B) {end : B}
      → (first >>= next) ≡ ok end
      → (value : A) × (first ≡ ok value) × (next value ≡ ok end)
  >>=-ok (ok value) next reached = (value, refl, reached)
  >>=-ok (raise e) next reached = cc

pub Result-cases :
    {A : Type 0} (r : Result A) → ((e : Exn) × (r ≡ raise e)) ⊎ ((a : A) × (r ≡ ok a))
Result-cases (raise e) = inl (e, refl)
Result-cases (ok a) = inr (a, refl)
