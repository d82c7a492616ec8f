-- ===== src/Worker/Retry.antt =====
-- What `dispatch_with_retry` of opc-da-client/src/com_worker/connection.rs does to the pool and to its
-- caller.
use opc_cli.Prelude.{
  ◌≡◌, inl, inr, refl, ap, ◌∙◌, true, false, none, some, List, [], ◌∷◌, Text, text_eq, text_eq_refl,
  eq_of_text_eq, Bool-cases, Option-cases, arith,
}
use opc_cli.Errors.{OpcError, OpcResult, ok, err}
use opc_cli.Act.{Outcome, done, failed, exhausted, Act}
use opc_cli.Worker.Connection.{
  Connector, Pool, is_connection_error, find, evict, put, run_on, run_connected, connect_and_run,
  retried, attempted, dispatch_with_retry,
}

module _ {W : Type 0} where
  find-evict : (name : Text) (cache : List (Text × W)) → find name (evict name cache) ≡ none
  unfolding find evict
  find-evict name [] = refl
  find-evict name ((key, w) ∷ rest) = ground (arith, find-evict name rest)

  find-evict_other :
      (name other : Text) (cache : List (Text × W))
      → text_eq name other ≡ false
      → find other (evict name cache) ≡ find other cache
  unfolding find evict
  find-evict_other name other [] h = refl
  find-evict_other name other ((key, w) ∷ rest) h = elim (Bool-cases (text_eq key name)) [
    | inl same ↦
        let is : key ≡ name = eq_of_text_eq key name same in
        let differs : text_eq key other ≡ false = ap (λ k. text_eq k other) is ∙ h in
        rw (same, differs) (find-evict_other name other rest h)
    | inr differs ↦ rw (differs, find) (ground (arith, find-evict_other name other rest h))
  ]

module _ {K W X A : Type 0} (connector : Connector K W) (name : Text)
    (operation : Act (W × X) A) where
  -- A connection of the pool fails with an error of the connection, and a new one is made: the result is
  -- that of the operation on the new server, which is the one in the pool from then on, and both
  -- attempts have acted on what the caller shares.
  pub stale_connection_replaced :
      (p : Pool K W X) (stale stale' fresh : W) (x1 : X) (e : OpcError) (k : K)
      → find name p.cache ≡ some stale
      → operation (stale, p.shared) ≡ (failed e, (stale', x1))
      → is_connection_error e ≡ true
      → connector.connect name p.world ≡ (ok fresh, k)
      → let (r, p') = dispatch_with_retry connector name operation p in
        let (r2, (fresh', x2)) = operation (fresh, x1) in
        (r ≡ r2) × (find name p'.cache ≡ some fresh') × (p'.shared ≡ x2) × (p'.world ≡ k)
  unfolding dispatch_with_retry find
  stale_connection_replaced p stale stale' fresh x1 e k known broke is_lost made =
      rw (known, broke, is_lost, made, run_on, dispatch_with_retry, text_eq_refl name)
        (refl, refl, refl, refl)

  -- When the new connection cannot be made, the error is that of the connector, the pool has no server under
  -- the name, and what the caller shares is as the first attempt left it.
  pub lost_connection_evicted :
      (p : Pool K W X) (stale stale' : W) (x1 : X) (e e' : OpcError) (k : K)
      → find name p.cache ≡ some stale
      → operation (stale, p.shared) ≡ (failed e, (stale', x1))
      → is_connection_error e ≡ true
      → connector.connect name p.world ≡ (err e', k)
      → let (r, p') = dispatch_with_retry connector name operation p in
        (r ≡ failed e') × (find name p'.cache ≡ none) × (p'.shared ≡ x1)
  unfolding dispatch_with_retry
  lost_connection_evicted p stale stale' x1 e e' k known broke is_lost failed_too =
      rw (known, broke, is_lost, failed_too, run_on, dispatch_with_retry)
        (refl, find-evict name (put name stale' p.cache), refl)

  -- What holds of the pools under another name.
  abbrev KeepsOther : Text → Pool K W X → Outcome A × Pool K W X → Type 0
  KeepsOther other p (r, p') = find other p'.cache ≡ find other p.cache

  find-put_other :
      (other : Text) (w : W) (cache : List (Text × W))
      → text_eq name other ≡ false
      → find other (put name w cache) ≡ find other cache
  unfolding find
  find-put_other other w cache h = rw h (find-evict_other name other cache h)

  run_on-other :
      (other : Text) (w : W) (p : Pool K W X)
      → text_eq name other ≡ false
      → KeepsOther other p (run_on connector name operation w p)
  unfolding run_on
  run_on-other other w p h = find-put_other other (operation (w, p.shared)).1.0 p.cache h

  run_connected-other :
      (other : Text) (answer : OpcResult W × K) (p : Pool K W X)
      → text_eq name other ≡ false
      → KeepsOther other p (run_connected connector name operation answer p)
  run_connected-other other (ok w, k) p h = run_on-other other w (record p { world = k }) h
  run_connected-other other (err e, k) p h = refl

  retried-other :
      (other : Text) (o : Outcome A × Pool K W X) (p : Pool K W X)
      → text_eq name other ≡ false
      → KeepsOther other p o
      → KeepsOther other p (retried connector name operation o)
  unfolding connect_and_run
  retried-other other (done a, p1) p h kept = kept
  retried-other other (exhausted, p1) p h kept = kept
  retried-other other (failed e, p1) p h kept = elim (Bool-cases (is_connection_error e)) [
    | inl lost ↦ rw lost (
        run_connected-other other (connector.connect name p1.world)
          (record p1 { cache = evict name p1.cache }) h
        ∙ find-evict_other name other p1.cache h
        ∙ kept)
    | inr other_error ↦ rw other_error kept
  ]

  attempted-other :
      (other : Text) (answer : OpcResult W × K) (p : Pool K W X)
      → text_eq name other ≡ false
      → KeepsOther other p (attempted connector name operation answer p)
  attempted-other other (ok w, k) p h =
      retried-other other (run_on connector name operation w (record p { world = k })) p h
        (run_on-other other w (record p { world = k }) h)
  attempted-other other (err e, k) p h = refl

  -- An operation on the server of one name leaves the connections of all other names in the pool as they
  -- were, whatever it does and however the connector answers.
  pub other_connections_kept :
      (other : Text) (p : Pool K W X)
      → text_eq name other ≡ false
      → find other (dispatch_with_retry connector name operation p).1.cache ≡ find other p.cache
  unfolding dispatch_with_retry
  other_connections_kept other p h = elim (Option-cases (find name p.cache)) [
    | inl absent ↦
        rw (absent, dispatch_with_retry)
          (attempted-other other (connector.connect name p.world) p h)
    | inr (w, known) ↦
        rw (known, dispatch_with_retry)
          (retried-other other (run_on connector name operation w p) p h (run_on-other other w p h))
  ]
