-- ===== src/Inventory/Progress.antt =====
-- opc-da-client/src/inventory/progress.rs and the events of opc-da-client/src/provider.rs.
use opc_cli.Prelude.{ℕ, ◌/◌, min, Bool, Option, none, some, List, [], ◌∷◌, ◌++◌, Text, codes}
use opc_cli.Provider.{BrowseCapabilities, BrowseNodeKind}
use opc_cli.Telemetry.Collector.{Observation}
use opc_cli.Telemetry.Histogram.{add_u64, u64_max}

pub record InventoryEntry : Type 0 where
  pub display_name : Text
  pub item_id : Text
  pub kind : BrowseNodeKind
  pub breadcrumbs : List Text

-- A rate is the bits of an f64.
pub record InventoryProgress : Type 0 where
  pub branches_visited : ℕ
  pub entries_seen : ℕ
  pub unique_items : ℕ
  pub active_time_ms : ℕ
  pub paused_time_ms : ℕ
  pub items_per_second : ℕ
  pub estimated_remaining_ms : Option ℕ

pub data InventorySliceBackend : Type 0 where
  da3_slice da2_slice : InventorySliceBackend

pub record InventorySliceObservation : Type 0 where
  pub sequence : ℕ
  pub backend : InventorySliceBackend
  pub nodes_returned : ℕ
  pub has_more : Bool
  pub native_operations : ℕ
  pub native_operation_observations : List Observation
  pub elapsed_ms : ℕ
  pub entries_seen : ℕ
  pub unique_items : ℕ

pub record InventoryCompleted : Type 0 where
  pub complete : Bool
  pub cancelled : Bool
  pub truncated : Bool
  pub warning : Option Text
  pub capabilities : BrowseCapabilities
  pub startup_native_operation_observations : List Observation

pub data InventoryEvent : Type 0 where
  entry : InventoryEntry → InventoryEvent
  progress_event : InventoryProgress → InventoryEvent
  slice : InventorySliceObservation → InventoryEvent
  completed : InventoryCompleted → InventoryEvent

unfoldable pub merge_warning : Option Text → Text → Option Text
merge_warning (some existing) warning = some (existing ++ (codes "; " ++ warning))
merge_warning none warning = some warning

-- The parts of a path, each in its `{:?}` form, joined.
abbrev pub join_parts : (Text → Text) → List Text → Text
join_parts debug [] = []
join_parts debug (part ∷ []) = debug part
join_parts debug (part ∷ q ∷ qs) = debug part ++ (codes " > " ++ join_parts debug (q ∷ qs))

unfoldable pub describe_browse_path : (Text → Text) → List Text → Text
describe_browse_path debug [] = codes "<root>"
describe_browse_path debug (part ∷ parts) = join_parts debug (part ∷ parts)

-- The number of branches passed over, and the first of them.
pub record Skipped : Type 0 where
  pub count : ℕ
  pub first : Option Text

abbrev pub or_first : Option Text → Text → Option Text
or_first (some first) text = some first
or_first none text = some text

unfoldable pub record_skipped_invalid_branch : (Text → Text) → Skipped → List Text → Text → Skipped
unfolding describe_browse_path
record_skipped_invalid_branch debug s parent_path branch = record {
  count = add_u64 s.count 1;
  first =
      or_first s.first (
        codes "name "
        ++ (debug branch ++ (codes " at " ++ describe_browse_path debug parent_path)));
}

-- Milliseconds of nanoseconds, as a u64.
abbrev pub as_millis : ℕ → ℕ
as_millis nanoseconds = min (nanoseconds / 1000000) u64_max

-- `rate` is the division of f64 numbers: items by seconds, given as nanoseconds, 0.0 in no time.
unfoldable pub progress : (ℕ → ℕ → ℕ) → ℕ → ℕ → ℕ → ℕ → ℕ → InventoryProgress
progress rate branches_visited entries_seen unique_items active_time paused_time = record {
  branches_visited = branches_visited;
  entries_seen = entries_seen;
  unique_items = unique_items;
  active_time_ms = as_millis active_time;
  paused_time_ms = as_millis paused_time;
  items_per_second = rate unique_items active_time;
  estimated_remaining_ms = none;
}
