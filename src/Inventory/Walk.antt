-- ===== src/Inventory/Walk.antt =====
-- opc-da-client/src/inventory.rs: the loop of `run_inventory_at_root` over the branches to visit.
-- Each turn has its inputs: what the call of the server answers to a request, the batch size, the
-- clock, the counters of the boundary. The readings of `is_cancelled` and the answers of the
-- channel are functions of their number. A page of a DA 2.x branch is an input with what it leaves
-- of the context.
use opc_cli.Prelude.{
  ℕ, ◌+◌, ◌-◌, Bool, true, false, not, ◌&&◌, ◌||◌, Option, none, some, List, [], ◌∷◌, ◌++◌, Text,
  codes, hex8, length, if◌then◌else◌,
}
use opc_cli.Errors.{OpcError, com_hresult, is_da3_browse_compatibility_error}
use opc_cli.Control.{InventoryOptions}
use opc_cli.Telemetry.Histogram.{add_u64}
use opc_cli.Inventory.State.{
  was_cancelled, failed, invalid_da2_branch, InventoryResult, ok, err, BranchLocation, da3_branch,
  da2_branch, BranchWork, InventoryContinuation, da3_page, da2_page, InventoryPage, initial_work,
  is_none, is_initial_da3_root,
}
use opc_cli.Inventory.Progress.{
  InventorySliceBackend, da3_slice, da2_slice, InventorySliceObservation, slice, merge_warning,
  record_skipped_invalid_branch, as_millis,
}
use opc_cli.Inventory.Da3.{next_da3_page}
use opc_cli.Inventory.Nodes.{
  Walk, Turn, Next, cancelled_walk, send_event, send_progress, take_nodes, continues, breaks,
  returns,
}

module _ (debug : Text → Text) (rate : ℕ → ℕ → ℕ) (cancels accepts : ℕ → Bool) where
  abbrev pub slice_backend : BranchLocation → InventorySliceBackend
  slice_backend (da3_branch item_id) = da3_slice
  slice_backend (da2_branch path) = da2_slice

  abbrev pub with_continuation : InventoryContinuation → BranchWork → BranchWork
  with_continuation (da3_page value) work = record work { da3_continuation = some value }
  with_continuation (da2_page state) work = record work { da2_state = some state }

  -- The branch of a page that has more is visited next.
  unfoldable pub push_back_work : Option InventoryContinuation → BranchWork → Walk → Walk
  push_back_work none work w = w
  push_back_work (some continuation) work w = record w {
    queue = with_continuation continuation work ∷ w.queue;
  }

  abbrev pub or_cancelled : Bool × Walk → Walk
  or_cancelled (true, w) = w
  or_cancelled (false, w) = cancelled_walk w

  abbrev pub progress_sent : Bool × Walk → Next
  progress_sent (true, w) = continues w
  progress_sent (false, w) = breaks (cancelled_walk w)

  abbrev pub slice_of : Turn → BranchWork → InventoryPage → Walk → InventorySliceObservation
  slice_of t work page w = record {
    sequence = w.slice_sequence;
    backend = slice_backend work.location;
    nodes_returned = length page.nodes;
    has_more = not (is_none page.continuation);
    native_operations = t.native_operations;
    native_operation_observations = t.observations;
    elapsed_ms = as_millis t.elapsed;
    entries_seen = w.entries_seen;
    unique_items = length w.seen_items;
  }

  abbrev pub count_page : InventoryPage → Walk → Walk
  count_page page w = record w {
    entries_seen = add_u64 w.entries_seen (length page.nodes);
    slice_sequence = add_u64 w.slice_sequence 1;
  }

  -- After the slice was sent.
  unfoldable pub end_slice : ℕ → Option InventoryContinuation → BranchWork → Walk → Next
  unfolding push_back_work send_progress
  end_slice paused continuation work w =
      if w.terminal.cancelled || w.terminal.truncated
      then breaks w
      else progress_sent
          (send_progress debug rate cancels accepts paused (push_back_work continuation work w))

  unfoldable pub take_page : InventoryOptions → Turn → BranchWork → InventoryPage → Walk → Next
  unfolding take_nodes send_event end_slice
  take_page options t work page w =
      let w1 =
        take_nodes debug rate cancels accepts options work.breadcrumbs page.nodes
          (count_page page w) in
      end_slice t.paused_time page.continuation work
        (or_cancelled (send_event debug rate cancels accepts (slice (slice_of t work page w1)) w1))

  unfoldable pub fallback_warning : OpcError → Text
  fallback_warning e =
      codes "OPC DA 3.0 root browse returned compatibility HRESULT "
      ++ (elim (com_hresult e) [ none ↦ codes "N/A" | some hr ↦ codes "0x" ++ hex8 hr ]
          ++ codes "; inventory continued through OPC DA 2.x")

  -- The traversal starts again, with OPC DA 2.x.
  unfoldable pub restart : Option Text → OpcError → Walk → Walk
  unfolding initial_work fallback_warning
  restart root_item_id e w =
      let capabilities = record w.terminal.capabilities { supports_da3 = false } in
      record w {
        terminal = record w.terminal {
          warning = merge_warning w.terminal.warning (fallback_warning e);
          capabilities = capabilities;
        };
        branches_visited = w.branches_visited - 1;
        queue = initial_work capabilities root_item_id ∷ [];
        current_da2_path = [];
      }

  unfoldable pub page_failed : Option Text → Turn → BranchWork → OpcError → Walk → Next
  unfolding is_initial_da3_root restart send_progress
  page_failed root_item_id t work e w =
      if is_initial_da3_root work
        && (w.terminal.capabilities.supports_da2 && is_da3_browse_compatibility_error e)
      then continues (restart root_item_id e w)
      else returns e (send_progress debug rate cancels accepts t.paused_time w).1

  unfoldable pub after_page :
      Option Text
      → InventoryOptions
      → Turn
      → InventoryResult InventoryPage × BranchWork
      → Walk
      → Next
  unfolding take_page page_failed record_skipped_invalid_branch
  after_page root_item_id options t (ok page, work) w = take_page options t work page w
  after_page root_item_id options t (err was_cancelled, work) w = breaks (cancelled_walk w)
  after_page root_item_id options t (err (failed e), work) w = page_failed root_item_id t work e w
  after_page root_item_id options t (err (invalid_da2_branch parent_path branch), work) w =
      continues (record w {
        skipped_invalid_branches =
            record_skipped_invalid_branch debug w.skipped_invalid_branches parent_path branch;
      })

  -- `control.batch_size().unwrap_or(options.batch_size)`.
  abbrev pub batch_size_of : InventoryOptions → Turn → ℕ
  batch_size_of options t = elim t.batch_size [ none ↦ options.batch_size | some n ↦ n ]

  -- `next_page`: a page of the branch's server.
  unfoldable pub next_page :
      InventoryOptions → Turn → BranchWork → InventoryResult InventoryPage × BranchWork
  unfolding next_da3_page
  next_page options t work = elim work.location [
    | da3_branch item_id ↦ next_da3_page debug (batch_size_of options t) t.da3_call item_id work
    | da2_branch path ↦ (t.da2_answer, t.da2_work)
  ]

  -- What the page leaves of the context, and the time it took outside pauses.
  unfoldable pub after_call : Turn → BranchWork → Walk → Walk
  after_call t work w =
      let w1 = record w {
        active_time = w.active_time + (t.elapsed - (t.paused_time - t.paused_before));
      } in
      elim work.location [
        | da3_branch item_id ↦ w1
        | da2_branch path ↦ record w1 {
          current_da2_path = t.da2_path;
          skipped_invalid_branches = t.skipped_invalid;
          skipped_non_progressing_branches = t.skipped_non_progressing;
        }
      ]

  abbrev pub is_first_page : BranchWork → Bool
  is_first_page work = is_none work.da3_continuation && is_none work.da2_state

  -- A turn of the loop with the branch that is first in the queue.
  unfoldable pub visit : Option Text → InventoryOptions → Turn → BranchWork → Walk → Next
  unfolding after_page next_page after_call
  visit root_item_id options t work w =
      let visited =
        if is_first_page work then add_u64 w.branches_visited 1 else w.branches_visited in
      after_page root_item_id options t (next_page options t work)
        (after_call t work (record w { branches_visited = visited }))

  abbrev pub walk_of : Next → Walk
  walk_of (continues w) = w
  walk_of (breaks w) = w
  walk_of (returns e w) = w

  -- The loop, for as many turns as there are inputs.
  unfoldable pub walk : Option Text → InventoryOptions → List Turn → Walk → Next
  unfolding visit
  walk root_item_id options [] w = continues w
  walk root_item_id options (t ∷ ts) w = elim w.queue [
    | [] ↦ breaks w
    | work ∷ rest ↦ elim (visit root_item_id options t work (record w { queue = rest })) [
      | continues w1 ↦ walk root_item_id options ts w1
      | breaks w1 ↦ breaks w1
      | returns e w1 ↦ returns e w1
    ]
  ]
