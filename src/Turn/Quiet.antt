-- ===== src/Turn/Quiet.antt =====
-- Stages that return whatever happens, leave the session alone, and yield a value with a property.
use streaming_rag.Prelude.{
  ℕ, ◌≡◌, refl, ap, ◌∙◌, String, Bool, true, false, Result, ok, if◌then◌else◌,
}
use streaming_rag.Models.Events.{Payload}
use streaming_rag.Turn.{Turn, Exec, pure, reads, set_minted, emit, mint, continue, ◌>>=◌, ◌>>◌}

-- `m` returns, with a value of which `P` holds, and the session's record is what it was.
pub record Quiet {F A : Type 0} (P : A → Type 0) (m : Exec F A) : Type 0 where
  pub at :
      (t : Turn F) → (a : A) × (t' : Turn F) × (m t ≡ (ok a, t')) × (t'.session ≡ t.session) × P a

abbrev pub Any : {A : Type 0} → A → Type 0
Any a = Unit

module _ {F A : Type 0} where
  pub Quiet-pure : {P : A → Type 0} (a : A) → P a → Quiet P (pure {F = F} a)
  unfolding pure
  Quiet-pure a h = record { at = λ t. (a, t, refl, refl, h) }

  pub Quiet-reads : (f : Turn F → A) → Quiet Any (reads f)
  unfolding reads
  Quiet-reads f = record { at = λ t. (f t, t, refl, refl, tt) }

module _ {F A B : Type 0} where
  pub Quiet-bind :
      {P : A → Type 0} {Q : B → Type 0} {m : Exec F A} {f : A → Exec F B}
      → Quiet P m
      → ((a : A) → P a → Quiet Q (f a))
      → Quiet Q (m >>= f)
  unfolding ◌>>=◌
  Quiet-bind {P} {Q} {m} {f} h k = record { at = λ t. go t (h.at t) }
    where
      go :
          (t : Turn F)
          → (a : A) × (t' : Turn F) × (m t ≡ (ok a, t')) × (t'.session ≡ t.session) × P a
          → (b : B) × (t'' : Turn F) × ((m >>= f) t ≡ (ok b, t'')) × (t''.session ≡ t.session) × Q b
      go t (a, t', e, s, p) =
          let (b, t'', e', s', q) = (k a p).at t' in
          (b, t'', ap (λ (x : Result A × Turn F). continue x.0 f x.1) e ∙ e', s' ∙ s, q)

module _ {F B : Type 0} where
  pub Quiet-then :
      {Q : B → Type 0} {m : Exec F (Unit {0})} {n : Exec F B}
      → Quiet Any m
      → Quiet Q n
      → Quiet Q (m >> n)
  Quiet-then h k = Quiet-bind h (λ _ _. k)

  pub Quiet-if :
      {Q : B → Type 0} (b : Bool) {m n : Exec F B}
      → Quiet Q m
      → Quiet Q n
      → Quiet Q (if b then m else n)
  Quiet-if true h k = h
  Quiet-if false h k = k

module _ {F : Type 0} where
  pub Quiet-emit : (p : Payload F) → Quiet Any (emit p)
  unfolding emit
  Quiet-emit p = record { at = λ t. (tt, _, refl, kept t _ t.has_sink refl, tt) }
    where
      kept :
          (t l : Turn F) (b : Bool)
          → l.session ≡ t.session
          → (if b then l else t).session ≡ t.session
      kept t l true e = e
      kept t l false e = refl

  pub Quiet-set_minted : (n : ℕ) → Quiet Any (set_minted {F = F} n)
  unfolding set_minted
  Quiet-set_minted n = record { at = λ t. (tt, _, refl, refl, tt) }

  pub Quiet-mint : (ulid : ℕ → String) → Quiet Any (mint {F = F} ulid)
  unfolding mint
  Quiet-mint ulid = record { at = λ t. (_, _, refl, refl, tt) }
