-- ===== src/Inventory/Da2/Names.antt =====
-- opc-da-client/src/inventory/da2.rs: `Da2PageState::next` and `has_more`, the names of a branch that are
-- left. An iterator of branches that makes no progress is passed over and counted.
use opc_cli.Prelude.{
  ℕ, Bool, true, false, Option, none, some, List, Text, codes, ◌++◌, if◌then◌else◌,
}
use opc_cli.Errors.{OpcResult, ok, err, is_non_progress_browse_error}
use opc_cli.Provider.{BrowseNodeKind, branch, item}
use opc_cli.Telemetry.Histogram.{add_u64}
use opc_cli.Act.{return, fail, update, ◌>>=◌, ◌>>◌}
use opc_cli.Inventory.State.{failed, BufferedBrowseIterator, Da2PageState}
use opc_cli.Inventory.Progress.{Skipped, or_first, describe_browse_path}
use opc_cli.Inventory.Context.{Paged, next_buffered, look_ahead, is_pending, takes_non_progress}

unfoldable pub skipped_iterator : (Text → Text) → List Text → Skipped → Skipped
unfolding describe_browse_path
skipped_iterator debug path s = record {
  count = add_u64 s.count 1;
  first = or_first s.first (codes "DA2 branch iterator at " ++ describe_browse_path debug path);
}

abbrev pub NextName : Type 0
NextName = Option (BrowseNodeKind × Text) × Da2PageState

module _ {W : Type 0} (proceeds : ℕ → Bool) (debug : Text → Text) where
  -- `skip_non_progressing_branch`.
  unfoldable pub skip_branches : Da2PageState → Paged W Da2PageState
  unfolding skipped_iterator
  skip_branches state = do
    update (λ s. record s {
      skipped_non_progressing_branches =
          skipped_iterator debug state.parent_path s.skipped_non_progressing_branches;
    })
    return (record state { branches = none })

  unfoldable pub item_answer :
      Da2PageState → Option (OpcResult Text) × BufferedBrowseIterator → Paged W NextName
  item_answer state (some (ok name), b) =
      return (some (item, name), record state { items = some b })
  item_answer state (some (err e), b) = fail (failed e)
  item_answer state (none, b) = return (none, record state { items = none })

  unfoldable pub next_item : Da2PageState → Paged W NextName
  unfolding item_answer next_buffered
  next_item state = elim state.items [
    | none ↦ return (none, state)
    | some b ↦ do answer ← next_buffered proceeds debug b; item_answer state answer
  ]

  unfoldable pub branch_answer :
      Da2PageState → Option (OpcResult Text) × BufferedBrowseIterator → Paged W NextName
  unfolding next_item skip_branches
  branch_answer state (some (ok name), b) =
      return (some (branch, name), record state { branches = some b })
  branch_answer state (some (err e), b) =
      if is_non_progress_browse_error e
      then (do state' ← skip_branches state; next_item state')
      else fail (failed e)
  branch_answer state (none, b) = next_item (record state { branches = none })

  unfoldable pub next : Da2PageState → Paged W NextName
  unfolding branch_answer next_item next_buffered
  next state = elim state.branches [
    | none ↦ next_item state
    | some b ↦ do answer ← next_buffered proceeds debug b; branch_answer state answer
  ]

  unfoldable pub items_have_more : Da2PageState → Paged W (Bool × Da2PageState)
  unfolding look_ahead
  items_have_more state = elim state.items [
    | none ↦ return (false, state)
    | some b ↦ do
      b' ← look_ahead proceeds debug b
      return (is_pending b', record state { items = some b' })
  ]

  unfoldable pub branches_have_more :
      Da2PageState → BufferedBrowseIterator → Paged W (Bool × Da2PageState)
  unfolding items_have_more skip_branches
  branches_have_more state b =
      if is_pending b
      then if takes_non_progress b.pending
        then (do state' ← skip_branches state; items_have_more state')
        else return (true, record state { branches = some b })
      else items_have_more (record state { branches = some b })

  unfoldable pub has_more : Da2PageState → Paged W (Bool × Da2PageState)
  unfolding branches_have_more items_have_more look_ahead
  has_more state = elim state.branches [
    | none ↦ items_have_more state
    | some b ↦ do b' ← look_ahead proceeds debug b; branches_have_more state b'
  ]
