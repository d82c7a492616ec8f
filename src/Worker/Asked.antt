-- ===== src/Worker/Asked.antt =====
-- A name that the guard of an iterator gives, of opc-da-client/src/backend/connector.rs, is one less to come.
use opc_cli.Prelude.{
  ℕ, suc, ◌-◌, ◌≤◌, ◌<◌, ◌≡◌, ◌≢◌, refl, ap, false, Option, none, some, Text, leb, Bool-cases, inl,
  inr, arith,
}
use opc_cli.Errors.{OpcError, OpcResult, ok, err, browse_non_progress}
use opc_cli.Server.Guard.{GuardedBrowseIterator, next_string, observe, yield_value, yield_error}
use opc_cli.Browse.Finite.{EndsBy}

module _ (debug : Text → Text) where
  error_inner :
      (e : OpcError) (g : GuardedBrowseIterator) → (yield_error debug e g).1.inner ≡ g.inner
  unfolding yield_error
  error_inner (browse_non_progress i p r c y) g = refl
  error_inner e g = refl

  -- The guard asks nothing more of the source, and answers only what the source has answered.
  observe-inner :
      (r : Option (OpcResult Text)) (g : GuardedBrowseIterator)
      → ((observe debug r g).1.inner ≡ g.inner) × ((observe debug r g).0 ≢ none → r ≢ none)
  unfolding observe yield_value
  observe-inner none g = (refl, λ h. h)
  observe-inner (some (ok value)) g = (ground arith, λ _ h. cc)
  observe-inner (some (err e)) g = (error_inner e g, λ _ h. cc)

  -- An answer of the guard uses up a call of a source that ends.
  pub next_string_fewer :
      (n : ℕ) (g : GuardedBrowseIterator) (x : OpcResult Text)
      → EndsBy n g.inner
      → (next_string debug g).0 ≡ some x
      → EndsBy n (next_string debug g).1.inner
        × (suc (n - (next_string debug g).1.inner.calls) ≤ n - g.inner.calls)
  unfolding next_string
  next_string_fewer n g x ends = elim (Bool-cases g.done) [
    | inl stopped ↦ rw stopped (λ h. cc)
    | inr going ↦
        let asked = record g {
          inner = record g.inner { calls = suc g.inner.calls };
          done = false;
        } in
        let (kept, answered) = observe-inner (g.inner.answers g.inner.calls) asked in
        rw (going, ap (λ i. i.answers) kept, ap (λ i. i.calls) kept)
          λ h.
            let early : g.inner.calls < n = elim (Bool-cases (leb n g.inner.calls)) [
              | inl late ↦ absurd (answered (λ e. cc) (ends g.inner.calls (ground arith)))
              | inr early ↦ ground arith
            ] in
            (ends, omega (arith, early))
  ]
