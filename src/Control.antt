-- ===== src/Control.antt =====
-- opc-da-client/src/provider.rs: `InventoryControl`, the handle by which a running inventory is
-- cancelled, paused, paced and given a batch size, and `InventoryOptions`. The atomics are the fields
-- of a record and each operation is one step on it: the operations of several clones of a handle are
-- some sequence of steps. A duration is its nanoseconds. The label of a cancellation goes to the log.
use opc_cli.Prelude.{
  ℕ, ◌≤◌, min, Bool, true, false, List, [], ◌∷◌, Option, none, some, leb, ltb, ◌==◌, ◌&&◌, ◌||◌,
  if◌then◌else◌, Text, codes, ◌++◌, decimal,
}
use opc_cli.Errors.{OpcError, invalid_state, OpcResult, ok, err}
pub mod Steps
mod Tests

abbrev pub max_inventory_batch_size : ℕ
max_inventory_batch_size = 1000

pub record InventoryOptions : Type 0 where
  pub batch_size : ℕ
  pub max_entries : Option ℕ

unfoldable pub default_options : InventoryOptions
default_options = record { batch_size = 100; max_entries = none }

pub record InventoryControl : Type 0 where
  pub cancelled : Bool
  pub paused : Bool
  pub pacing_interval_ns : ℕ
  pub pacing_item_rate_per_second : ℕ
  pub batch_size : ℕ

pub record InventoryPacing : Type 0 where
  pub min_interval : ℕ
  pub item_rate_per_second : Option ℕ

unfoldable pub default_pacing : InventoryPacing
default_pacing = record { min_interval = 0; item_rate_per_second = none }

unfoldable pub new : InventoryControl
new = record {
  cancelled = false;
  paused = false;
  pacing_interval_ns = 0;
  pacing_item_rate_per_second = 0;
  batch_size = 0;
}

unfoldable pub new_with_batch_size : ℕ → InventoryControl
unfolding new
new_with_batch_size n = record new { batch_size = n }

unfoldable pub cancel_with_reason : InventoryControl → InventoryControl
cancel_with_reason c = record c { cancelled = true }

unfoldable pub cancel : InventoryControl → InventoryControl
cancel c = cancel_with_reason c

unfoldable pub pause : InventoryControl → InventoryControl
pause c = record c { paused = true }

unfoldable pub resume : InventoryControl → InventoryControl
resume c = record c { paused = false }

-- `unwrap_or(0)`.
abbrev pub rate_or_zero : Option ℕ → ℕ
rate_or_zero none = 0
rate_or_zero (some rate) = rate

unfoldable pub set_pacing : InventoryPacing → InventoryControl → InventoryControl
set_pacing pacing c = record c {
  pacing_interval_ns = min pacing.min_interval 18446744073709551615;
  pacing_item_rate_per_second = rate_or_zero pacing.item_rate_per_second;
}

-- `u32::try_from(rate).unwrap_or(u32::MAX)`.
unfoldable pub rate_option : ℕ → Option ℕ
rate_option rate = if rate == 0 then none else some (min rate 4294967295)

unfoldable pub pacing : InventoryControl → InventoryPacing
pacing c = record {
  min_interval = c.pacing_interval_ns;
  item_rate_per_second = rate_option c.pacing_item_rate_per_second;
}

unfoldable pub set_batch_size : ℕ → InventoryControl → OpcResult {0} Unit × InventoryControl
set_batch_size n c =
    if leb 1 n && leb n max_inventory_batch_size then (ok tt, record c { batch_size = n }) else (
      err (
          invalid_state (
            codes "Inventory batch size must be between 1 and "
            ++ decimal max_inventory_batch_size)),
      c,
    )

-- `u32::try_from(batch_size).ok().filter(|value| *value != 0)`.
unfoldable pub read_batch_size : InventoryControl → Option ℕ
read_batch_size c =
    if c.batch_size == 0 || leb 4294967296 c.batch_size then none else some c.batch_size

unfoldable pub is_cancelled : InventoryControl → Bool
is_cancelled c = c.cancelled

unfoldable pub is_paused : InventoryControl → Bool
is_paused c = c.paused
