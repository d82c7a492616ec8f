-- ===== src/Inventory/Nodes.antt =====
-- opc-da-client/src/inventory.rs: the state of the loop of `run_inventory_at_root`, and what it does with
-- the nodes of a page.
use opc_cli.Prelude.{
  ℕ, suc, Bool, true, false, not, ◌&&◌, Option, none, some, List, [], ◌∷◌, ◌++◌, Text, codes,
  length, leb, if◌then◌else◌,
}
use opc_cli.Errors.{OpcError}
use opc_cli.Provider.{is_item}
use opc_cli.Telemetry.Collector.{Observation}
use opc_cli.Control.{InventoryOptions}
use opc_cli.Browse.Da2.{has_text}
use opc_cli.Inventory.Da3.{Da3Call}
use opc_cli.Inventory.State.{InventoryResult, BranchWork, unvisited, InventoryNode, InventoryPage}
use opc_cli.Inventory.Progress.{
  InventoryCompleted, InventoryEvent, progress_event, merge_warning, Skipped, progress,
}

pub record Walk : Type 0 where
  pub queue : List BranchWork
  pub seen_items : List Text
  pub current_da2_path : List Text
  pub branches_visited : ℕ
  pub entries_seen : ℕ
  pub skipped_invalid_branches : Skipped
  pub skipped_non_progressing_branches : Skipped
  pub slice_sequence : ℕ
  pub active_time : ℕ
  pub terminal : InventoryCompleted
  -- The events that the channel took, the last one first.
  pub sent : List InventoryEvent
  pub sends : ℕ
  pub readings : ℕ

-- The inputs of a turn.
pub record Turn : Type 0 where
  -- `control.batch_size()`.
  pub batch_size : Option ℕ
  pub da3_call : Da3Call
  pub da2_answer : InventoryResult InventoryPage
  pub da2_work : BranchWork
  pub da2_path : List Text
  pub skipped_invalid : Skipped
  pub skipped_non_progressing : Skipped
  pub elapsed : ℕ
  pub paused_before : ℕ
  pub paused_time : ℕ
  pub native_operations : ℕ
  pub observations : List Observation

-- The turn is over and the loop goes on, the loop is left, or the function returns an error.
pub data Next : Type 0 where
  continues breaks : Walk → Next
  returns : OpcError → Walk → Next

abbrev pub cancelled_walk : Walk → Walk
cancelled_walk w = record w { terminal = record w.terminal { complete = false; cancelled = true } }

unfoldable pub entry_limit : Text
entry_limit = codes "inventory entry limit reached"

abbrev pub truncated_walk : Walk → Walk
truncated_walk w = record w {
  terminal = record w.terminal {
    complete = false;
    truncated = true;
    warning = merge_warning w.terminal.warning entry_limit;
  };
}

abbrev pub at_limit : Option ℕ → ℕ → Bool
at_limit none count = false
at_limit (some limit) count = leb limit count

module _ (debug : Text → Text) (rate : ℕ → ℕ → ℕ) (cancels accepts : ℕ → Bool) where
  unfoldable pub send_event : InventoryEvent → Walk → Bool × Walk
  send_event event w =
      let asked = record w { sends = suc w.sends } in
      if accepts w.sends then (true, record asked { sent = event ∷ w.sent }) else (false, asked)

  unfoldable pub send_progress : ℕ → Walk → Bool × Walk
  unfolding send_event progress
  send_progress paused w =
      send_event
        (progress_event (
          progress rate w.branches_visited w.entries_seen (length w.seen_items) w.active_time
            paused))
        w

  -- An item that was not seen before is sent; the first part says whether the loop over the nodes goes on.
  unfoldable pub offer : InventoryOptions → List Text → InventoryNode → Text → Walk → Bool × Walk
  unfolding send_event
  offer options breadcrumbs node item_id w =
      let found = InventoryEvent.entry (record {
        display_name = node.display_name;
        item_id = item_id;
        kind = node.kind;
        breadcrumbs = breadcrumbs;
      }) in
      let (sent, w1) = send_event found (record w { seen_items = item_id ∷ w.seen_items }) in
      if not sent
      then (false, cancelled_walk w1)
      else if at_limit options.max_entries (length w1.seen_items)
      then (false, truncated_walk w1)
      else (true, w1)

  unfoldable pub offer_node : InventoryOptions → List Text → InventoryNode → Walk → Bool × Walk
  unfolding offer has_text
  offer_node options breadcrumbs node w = elim node.item_id [
    | none ↦ (true, w)
    | some item_id ↦
        if is_item node.kind && not (has_text item_id w.seen_items)
        then offer options breadcrumbs node item_id w
        else (true, w)
  ]

  -- A child is visited after all that wait.
  unfoldable pub enqueue_child : List Text → InventoryNode → Walk → Walk
  enqueue_child breadcrumbs node w = elim node.child [
    | none ↦ w
    | some location ↦ record w {
      queue = w.queue ++ unvisited location (breadcrumbs ++ node.display_name ∷ []) ∷ [];
    }
  ]

  unfoldable pub take_nodes : InventoryOptions → List Text → List InventoryNode → Walk → Walk
  unfolding offer_node enqueue_child
  take_nodes options breadcrumbs [] w = w
  take_nodes options breadcrumbs (node ∷ nodes) w =
      let w1 = record w { readings = suc w.readings } in
      let (goes_on, w2) = offer_node options breadcrumbs node w1 in
      let rest = take_nodes options breadcrumbs nodes (enqueue_child breadcrumbs node w2) in
      if cancels w.readings then cancelled_walk w1 else if goes_on then rest else w2
