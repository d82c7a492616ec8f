-- ===== src/Inventory/Context.antt =====
-- opc-da-client/src/inventory/: the `InventoryPageContext` of da2.rs, `paced_call` of boundary.rs, and the
-- `BufferedBrowseIterator` of iterator.rs. What the boundary lets through is a function of the number
-- of the asking; asking an iterator for a name counts as one, whether it asks the server or not, since
-- `next_native` reads the cancellation after it.
use opc_cli.Prelude.{ℕ, suc, Bool, true, false, Option, none, some, List, Text, if◌then◌else◌}
use opc_cli.Errors.{OpcResult, err, is_non_progress_browse_error}
use opc_cli.Act.{Failing, return, fail, outcome_as, ◌>>=◌}
use opc_cli.Server.{NameSource}
use opc_cli.Server.Guard.{guard_browse_iterator, next_string}
use opc_cli.Inventory.State.{InventoryError, was_cancelled, failed, BufferedBrowseIterator}
use opc_cli.Inventory.Progress.{Skipped}

pub record PageContext (W : Type 0) : Type 0 where
  pub server : W
  pub current_da2_path : List Text
  pub skipped_invalid_branches : Skipped
  pub skipped_non_progressing_branches : Skipped
  pub boundaries : ℕ

abbrev pub Paged : Type 0 → Type 0 → Type 0
Paged W A = Failing InventoryError (PageContext W) A

unfoldable pub new_buffered : NameSource → Text → List Text → BufferedBrowseIterator
new_buffered inner iterator_type browse_path = record {
  inner = guard_browse_iterator inner iterator_type browse_path;
  pending = none;
}

abbrev pub is_pending : BufferedBrowseIterator → Bool
is_pending b = elim b.pending [ none ↦ false | some _ ↦ true ]

-- `take_non_progress().is_some()`: the error goes to the log, and the iterator is then dropped.
abbrev pub takes_non_progress : Option (OpcResult Text) → Bool
takes_non_progress (some (err e)) = is_non_progress_browse_error e
takes_non_progress _ = false

module _ {W : Type 0} (proceeds : ℕ → Bool) where
  -- `before_operation_with_cost`.
  unfoldable pub ask_boundary : Paged W Bool
  ask_boundary s = return (proceeds s.boundaries) (record s { boundaries = suc s.boundaries })

  -- A method of the server.
  unfoldable pub ask_server : {A : Type 0} → (W → OpcResult A × W) → Paged W A
  ask_server method s =
      let (r, w) = method s.server in (outcome_as failed r, record s { server = w })

  unfoldable pub paced_call : {A : Type 0} → (W → OpcResult A × W) → Paged W A
  unfolding ask_boundary ask_server
  paced_call method = do
    proceed ← ask_boundary
    if proceed then ask_server method else fail was_cancelled

  module _ (debug : Text → Text) where
    unfoldable pub next_native :
        BufferedBrowseIterator → Paged W (Option (OpcResult Text) × BufferedBrowseIterator)
    unfolding ask_boundary next_string
    next_native b = do
      proceed ← ask_boundary
      let (value, g) = next_string debug b.inner
      if proceed then return (value, record b { inner = g }) else fail was_cancelled

    unfoldable pub next_buffered :
        BufferedBrowseIterator → Paged W (Option (OpcResult Text) × BufferedBrowseIterator)
    unfolding next_native
    next_buffered b = elim b.pending [
      | some value ↦ return (some value, record b { pending = none })
      | none ↦ next_native b
    ]

    -- `has_more`: the iterator with a name looked up, unless one is.
    unfoldable pub look_ahead : BufferedBrowseIterator → Paged W BufferedBrowseIterator
    unfolding next_native
    look_ahead b = elim b.pending [
      | some value ↦ return b
      | none ↦ do answer ← next_native b; return (record answer.1 { pending = answer.0 })
    ]
