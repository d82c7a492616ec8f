-- ===== src/Inventory/Run.antt =====
-- opc-da-client/src/inventory.rs: `run_inventory_at_root` around its loop. The server is connected, and
-- what the detection of its capabilities gives is an input.
use opc_cli.Prelude.{
  ℕ, suc, Bool, true, false, not, ◌||◌, Option, none, some, List, [], ◌∷◌, ◌++◌, Text, codes,
  decimal, ltb, ◌==◌, if◌then◌else◌,
}
use opc_cli.Errors.{OpcError, invalid_state, internal}
use opc_cli.Errors as Errors
use opc_cli.Provider.{BrowseCapabilities, unknown_namespace}
use opc_cli.Telemetry.Collector.{Observation}
use opc_cli.Control.{InventoryOptions, max_inventory_batch_size}
use opc_cli.Inventory.State.{
  InventoryResult, ok, err, was_cancelled, failed, invalid_da2_branch, initial_work,
}
use opc_cli.Inventory.Progress.{completed, merge_warning, Skipped}
use opc_cli.Inventory.Nodes.{
  Walk, Turn, Next, continues, breaks, returns, cancelled_walk, truncated_walk, send_event,
  send_progress,
}
use opc_cli.Inventory.Walk.{walk}

-- The inputs end before the loop does, the function returns, or it returns an error.
pub data Run : Type 0 where
  running ended : Walk → Run
  stopped : OpcError → Walk → Run

unfoldable pub bad_batch_size : OpcError
bad_batch_size =
    invalid_state
      (codes "Inventory batch size must be between 1 and " ++ decimal max_inventory_batch_size)

-- The capabilities of a traversal that was cancelled before they were known.
abbrev pub no_capabilities : BrowseCapabilities
no_capabilities = record {
  namespace = unknown_namespace;
  supports_da3 = false;
  supports_da2 = false;
  max_page_size = 1000;
}

unfoldable pub capabilities_or_none :
    Bool → InventoryResult BrowseCapabilities → Errors.OpcResult BrowseCapabilities
capabilities_or_none true detected = Errors.ok no_capabilities
capabilities_or_none false (ok capabilities) = Errors.ok capabilities
capabilities_or_none false (err was_cancelled) = Errors.ok no_capabilities
capabilities_or_none false (err (failed e)) = Errors.err e
capabilities_or_none false (err (invalid_da2_branch parent name)) =
    Errors.err (internal (codes "invalid DA2 branch escaped capability detection"))

abbrev pub none_skipped : Skipped
none_skipped = record { count = 0; first = none }

-- One reading of `is_cancelled` is made before.
unfoldable pub start_walk : BrowseCapabilities → List Observation → Option Text → Walk
unfolding initial_work
start_walk capabilities observations root_item_id = record {
  queue = initial_work capabilities root_item_id ∷ [];
  seen_items = [];
  current_da2_path = [];
  branches_visited = 0;
  entries_seen = 0;
  skipped_invalid_branches = none_skipped;
  skipped_non_progressing_branches = none_skipped;
  slice_sequence = 0;
  active_time = 0;
  terminal = record {
    complete = true;
    cancelled = false;
    truncated = false;
    warning = none;
    capabilities = capabilities;
    startup_native_operation_observations = observations;
  };
  sent = [];
  sends = 0;
  readings = 1;
}

abbrev pub or_unknown : Option Text → Text
or_unknown (some text) = text
or_unknown none = codes "<unknown>"

-- A warning is added when branches were passed over.
abbrev pub skip_warning : Skipped → Text → Text → Option Text → Option Text
skip_warning s what first warning =
    if ltb 0 s.count
    then merge_warning warning
        (codes "skipped " ++ (decimal s.count ++ (what ++ (first ++ or_unknown s.first))))
    else warning

abbrev pub with_warnings : Walk → Walk
with_warnings w = record w {
  terminal = record w.terminal {
    warning =
        skip_warning w.skipped_non_progressing_branches
          (codes " non-progressing DA2 branch iterator(s); ") (codes "first skipped iterator: ")
          (skip_warning w.skipped_invalid_branches (codes " non-navigable DA2 branch name(s); ")
            (codes "first skipped branch: ") w.terminal.warning);
  };
}

module _ (debug : Text → Text) (rate : ℕ → ℕ → ℕ) (cancels accepts : ℕ → Bool) where
  -- The last event, whether it is taken or not.
  unfoldable pub send_completed : Walk → Walk
  unfolding send_event
  send_completed w = (send_event debug rate cancels accepts (completed w.terminal) w).1

  unfoldable pub finish : Walk → Walk
  unfolding send_completed
  finish w =
      let w1 = record w { readings = suc w.readings } in
      send_completed (with_warnings (if cancels w.readings then cancelled_walk w1 else w1))

  abbrev pub after_walk : Next → Run
  after_walk (continues w) = running w
  after_walk (breaks w) = ended (finish w)
  after_walk (returns e w) = stopped e w

  abbrev pub is_zero_limit : Option ℕ → Bool
  is_zero_limit none = false
  is_zero_limit (some limit) = limit == 0

  abbrev pub has_bad_batch : InventoryOptions → Bool
  has_bad_batch options = options.batch_size == 0 || ltb max_inventory_batch_size options.batch_size

  -- From the first progress event on.
  unfoldable pub run_walk : Option Text → InventoryOptions → ℕ → List Turn → Walk → Run
  unfolding walk send_progress finish send_completed
  run_walk root_item_id options paused ts w =
      let (delivered, w1) = send_progress debug rate cancels accepts paused w in
      if not delivered
      then ended w1
      else if is_zero_limit options.max_entries
      then ended (send_completed (truncated_walk w1))
      else after_walk (walk debug rate cancels accepts root_item_id options ts w1)

  unfoldable pub run_inventory_at_root :
      Option Text
      → InventoryOptions
      → InventoryResult BrowseCapabilities
      → List Observation
      → ℕ
      → List Turn
      → Run
  unfolding capabilities_or_none start_walk run_walk
  run_inventory_at_root root_item_id options detected observations paused ts =
      if has_bad_batch options
      then stopped bad_batch_size (start_walk no_capabilities [] root_item_id)
      else elim (capabilities_or_none (cancels 0) detected) [
        | Errors.err e ↦ stopped e (start_walk no_capabilities [] root_item_id)
        | Errors.ok capabilities ↦
            run_walk root_item_id options paused ts
              (start_walk capabilities observations root_item_id)
      ]
