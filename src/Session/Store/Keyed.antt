-- ===== src/Session/Store/Keyed.antt =====
-- No call of the store hands out another session's record (app/session/session_store.py).
use streaming_rag.Prelude.{
  ℕ, ◌≡◌, refl, sym, ap, subst, ◌∙◌, ◌+◌, ◌≤◌, String, true, Option, none, some, List, [], ◌∷◌,
  string_eq, ◌==◌, Dict, lookup, insert, All, arith, Bool-cases, inl, inr, Result, ok, raise,
  session_expired, ltb, or_else, suc, if◌then◌else◌,
}
use streaming_rag.Session.Record.{SessionStatus, SessionRecord, new_session}
use streaming_rag.Session.Store.{
  Store, create, close_record, check_age, get, touch, mark_connected, close, close_found, write,
  put, Call, run, run_all, creates, gets, touches, closes, connects, validate_corpus_id, is_closed,
}

module _ {F : Type 0} where
  -- Every record stands under its own identifier.
  abbrev pub IsKeyed : Store F → Type 0
  IsKeyed s = All (λ (p : String × SessionRecord F). p.1.session_id ≡ p.0) s.sessions

  insert-IsKeyed :
      (k : String) (r : SessionRecord F) (d : Dict String (SessionRecord F))
      → r.session_id ≡ k
      → All (λ (p : String × SessionRecord F). p.1.session_id ≡ p.0) d
      → All (λ (p : String × SessionRecord F). p.1.session_id ≡ p.0) (insert k r d)
  insert-IsKeyed k r [] e h = (e, tt)
  insert-IsKeyed k r ((j, w) ∷ d) e h = elim (Bool-cases (j == k)) [
    | inl q ↦ rw q (e ∙ sym ((string_eq.equal_iff j k).0 q), h.1)
    | inr q ↦ rw q (h.0, insert-IsKeyed k r d e h.1)
  ]

  lookup-IsKeyed :
      (k : String) (d : Dict String (SessionRecord F)) (r : SessionRecord F)
      → All (λ (p : String × SessionRecord F). p.1.session_id ≡ p.0) d
      → lookup k d ≡ some r
      → r.session_id ≡ k
  lookup-IsKeyed k [] r h q = cc
  lookup-IsKeyed k ((j, w) ∷ d) r h q = elim (Bool-cases (j == k)) [
    | inl p ↦
        subst (λ (x : SessionRecord F). x.session_id ≡ k) (ap (λ o. or_else o w) (rw p at q))
          (h.0 ∙ (string_eq.equal_iff j k).0 p)
    | inr p ↦ lookup-IsKeyed k d r h.1 (rw p at q)
  ]

  close_record-IsKeyed :
      (ulid : ℕ → String) (k : String) (r : SessionRecord F) (s : Store F)
      → r.session_id ≡ k
      → IsKeyed s
      → IsKeyed (close_record ulid k r s)
  unfolding close_record
  close_record-IsKeyed ulid k r s e h = insert-IsKeyed k _ s.sessions e h

-- A call of `get` that returns: the session's own record, active and in time, with the store as it
-- was.
abbrev pub Served : {F : Type 0} → ℕ → ℕ → String → SessionRecord F → Store F → Store F → Type 0
Served ttl now session_id r s s' =
    (lookup session_id s.sessions ≡ some r)
    × (r.session_id ≡ session_id)
    × (r.status ≡ SessionStatus.active)
    × (now ≤ r.last_active_at + ttl)
    × (s' ≡ s)

-- What a call of `get` comes to: a record that is served, or an exception, and a store that is
-- keyed still.
abbrev GetIs : {F : Type 0} → ℕ → ℕ → String → Store F → Result (SessionRecord F) × Store F → Type 0
GetIs ttl now k s (ok r, s') = Served ttl now k r s s' × IsKeyed s'
GetIs ttl now k s (raise e, s') = IsKeyed s'

module _ {F : Type 0} (ulid : ℕ → String) (ttl now : ℕ) where
  check_age-GetIs :
      (k : String) (o : Option (SessionRecord F)) (s : Store F)
      → lookup k s.sessions ≡ o
      → IsKeyed s
      → GetIs ttl now k s (check_age ulid ttl now k o s)
  unfolding check_age
  check_age-GetIs k none s q h = h
  check_age-GetIs k (some r) s q h = by_status r.status refl
    where
      own : r.session_id ≡ k
      own = lookup-IsKeyed k s.sessions r h q

      by_status :
          (x : SessionStatus)
          → r.status ≡ x
          → GetIs ttl now k s (
              if is_closed x
              then (raise session_expired, s)
              else if ltb (r.last_active_at + ttl) now
              then (raise session_expired, close_record ulid k r s)
              else (ok r, s))
      by_status SessionStatus.closed e = h
      by_status SessionStatus.active e = elim (Bool-cases (ltb (r.last_active_at + ttl) now)) [
        | inl p ↦ rw p (close_record-IsKeyed ulid k r s own h)
        | inr p ↦ rw p ((q, own, e, ground arith, refl), h)
      ]

  get-GetIs : (k : String) (s : Store F) → IsKeyed s → GetIs ttl now k s (get ulid ttl now k s)
  unfolding get
  get-GetIs k s h = check_age-GetIs k (lookup k s.sessions) s refl h

  -- In a store whose records stand under their own identifiers, `get` returns the record of that
  -- very session only, which is active and not past its time to live, and leaves the store alone.
  pub get-Served :
      (k : String) (s s' : Store F) (r : SessionRecord F)
      → IsKeyed s
      → get ulid ttl now k s ≡ (ok r, s')
      → Served ttl now k r s s'
  get-Served k s s' r h e = (subst (GetIs ttl now k s) e (get-GetIs k s h)).0

  write-IsKeyed :
      {A : Type 0} (k : String) (f : SessionRecord F → A × SessionRecord F) (s : Store F)
      (x : Result (SessionRecord F) × Store F)
      → ((r : SessionRecord F) → (f r).1.session_id ≡ r.session_id)
      → GetIs ttl now k s x
      → IsKeyed (write ulid ttl now k f x).1
  write-IsKeyed k f s (ok r, s') g ((q, e, _, _, _), h) =
      insert-IsKeyed k (f r).1 s'.sessions (g r ∙ e) h
  write-IsKeyed k f s (raise x, s') g h = h

  get-IsKeyed :
      (k : String) (s : Store F) (x : Result (SessionRecord F) × Store F)
      → GetIs ttl now k s x
      → IsKeyed x.1
  get-IsKeyed k s (ok r, s') (q, h) = h
  get-IsKeyed k s (raise e, s') h = h

module _ {F : Type 0} (ulid : ℕ → String) (ttl : ℕ) where
  create-IsKeyed :
      (now : ℕ) (corpus_id : String) (s : Store F) (v : Result String)
      → IsKeyed s
      → IsKeyed {F = F}
          (elim v as (λ _. Result (SessionRecord F) × Store F) [
            | raise e ↦ (raise e, s)
            | ok c ↦ (
              ok (new_session (ulid s.minted) c now),
              record (put (ulid s.minted) (new_session (ulid s.minted) c now) s) {
                minted = suc s.minted;
              },
            )
          ]).1
  create-IsKeyed now corpus_id s (raise e) h = h
  create-IsKeyed now corpus_id s (ok c) h = insert-IsKeyed (ulid s.minted) _ s.sessions refl h

  close_found-IsKeyed :
      (k : String) (o : Option (SessionRecord F)) (s : Store F)
      → lookup k s.sessions ≡ o
      → IsKeyed s
      → IsKeyed (close_found ulid k o s)
  close_found-IsKeyed k none s q h = h
  close_found-IsKeyed k (some r) s q h = elim (Bool-cases (is_closed r.status)) [
    | inl p ↦ rw p h
    | inr p ↦ rw p (close_record-IsKeyed ulid k r s (lookup-IsKeyed k s.sessions r h q) h)
  ]

  run-IsKeyed : (now : ℕ) (c : Call) (s : Store F) → IsKeyed s → IsKeyed (run ulid ttl now c s)
  unfolding run create touch mark_connected close
  run-IsKeyed now (creates corpus_id) s h =
      create-IsKeyed now corpus_id s (validate_corpus_id corpus_id) h
  run-IsKeyed now (gets k) s h = get-IsKeyed ulid ttl now k s _ (get-GetIs ulid ttl now k s h)
  run-IsKeyed now (touches k) s h =
      write-IsKeyed ulid ttl now k (λ r. (tt {0}, record r { last_active_at = now })) s
        (get ulid ttl now k s) (λ r. refl) (get-GetIs ulid ttl now k s h)
  run-IsKeyed now (closes k) s h = close_found-IsKeyed k (lookup k s.sessions) s refl h
  run-IsKeyed now (connects k) s h =
      write-IsKeyed ulid ttl now k (λ r. (r.ever_connected, record r { ever_connected = true })) s
        (get ulid ttl now k s) (λ r. refl) (get-GetIs ulid ttl now k s h)

  -- Whatever calls are made of a store, and at whatever times, every record stands under its own
  -- session's identifier, if that was so before.
  pub run_all-IsKeyed :
      (cs : List (ℕ × Call)) (s : Store F) → IsKeyed s → IsKeyed (run_all ulid ttl cs s)
  unfolding run_all
  run_all-IsKeyed [] s h = h
  run_all-IsKeyed ((now, c) ∷ cs) s h = run_all-IsKeyed cs _ (run-IsKeyed now c s h)
