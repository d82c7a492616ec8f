-- ===== src/Server/Guard.antt =====
-- opc-da-client/src/backend/connector.rs: `GuardedBrowseIterator`, which ends an iteration that repeats
-- one name, and names the browse path in the errors of the iterator inside.
use opc_cli.Prelude.{
  ℕ, suc, ◌+◌, Bool, true, false, Option, none, some, List, Text, codes, text_eq, is_empty, not,
  ◌&&◌, leb, if◌then◌else◌,
}
use opc_cli.Errors.{
  OpcError, OpcResult, ok, err, browse_non_progress, browse_non_progress_error,
  max_consecutive_identical_browse_values,
}
use opc_cli.Server.{NameSource}

pub record GuardedBrowseIterator : Type 0 where
  pub inner : NameSource
  pub iterator_type : Text
  pub browse_path : List Text
  pub last_value : Option Text
  pub consecutive : ℕ
  pub yielded : ℕ
  pub done : Bool

unfoldable pub guard_browse_iterator : NameSource → Text → List Text → GuardedBrowseIterator
guard_browse_iterator inner iterator_type browse_path = record {
  inner = inner;
  iterator_type = iterator_type;
  browse_path = browse_path;
  last_value = none;
  consecutive = 0;
  yielded = 0;
  done = false;
}

abbrev pub is_last : GuardedBrowseIterator → Text → Bool
is_last g value = elim g.last_value [ none ↦ false | some last ↦ text_eq last value ]

abbrev pub counted : GuardedBrowseIterator → Text → GuardedBrowseIterator
counted g value =
    if is_last g value
    then record g { yielded = g.yielded + 1; consecutive = g.consecutive + 1 }
    else record g { yielded = g.yielded + 1; last_value = some value; consecutive = 1 }

abbrev pub Answer : Type 0
Answer = Option (OpcResult Text) × GuardedBrowseIterator

module _ (debug : Text → Text) where
  unfoldable pub yield_value : Text → GuardedBrowseIterator → Answer
  yield_value value g =
      let g1 = counted g value in
      if leb max_consecutive_identical_browse_values g1.consecutive
      then (
        some (
            err (
              browse_non_progress_error debug g1.iterator_type g1.browse_path value g1.consecutive
                g1.yielded)),
        record g1 { done = true },
      )
      else (some (ok value), g1)

  -- An error without a path gets that of the guard.
  unfoldable pub yield_error : OpcError → GuardedBrowseIterator → Answer
  yield_error (browse_non_progress iterator path repeated consecutive yielded) g = (
    some (
        err (
          if text_eq path (codes "<root>") && not (is_empty g.browse_path)
          then browse_non_progress_error debug g.iterator_type g.browse_path repeated consecutive
              yielded
          else browse_non_progress iterator path repeated consecutive yielded)),
    record g { done = true },
  )
  yield_error e g = (some (err e), g)

  -- What the guard makes of an answer of the iterator inside.
  unfoldable pub observe : Option (OpcResult Text) → GuardedBrowseIterator → Answer
  unfolding yield_value yield_error
  observe none g = (none, g)
  observe (some (ok value)) g = yield_value value g
  observe (some (err e)) g = yield_error e g

  -- With a gate that is open and no cancellation.
  unfoldable pub next_string : GuardedBrowseIterator → Answer
  unfolding observe
  next_string g =
      let asked = record g { inner = record g.inner { calls = suc g.inner.calls } } in
      if g.done then (none, g) else observe (g.inner.answers g.inner.calls) asked
