-- ===== src/Inventory/Boundary.antt =====
-- opc-da-client/src/inventory/boundary.rs: the gate before each native operation, which waits while the
-- inventory is paused and until the pacing lets the next operation start. What a turn of its loop finds
-- is an input: the control, the clock, how long a pause took. The interval of an item rate, a division
-- of f64 numbers, is a parameter. The telemetry is in Telemetry.
use opc_cli.Prelude.{
  ℕ, ◌+◌, ◌-◌, max, Bool, false, Option, none, some, List, [], ◌∷◌, leb, ltb, if◌then◌else◌,
}
use opc_cli.Control.{InventoryPacing}
use opc_cli.Telemetry.Histogram.{add_u64}

pub data BoundaryResult : Type 0 where
  proceed cancelled : BoundaryResult

pub record InventoryBoundary : Type 0 where
  pub last_started : Option ℕ
  pub paused_time : ℕ
  pub native_operations : ℕ

unfoldable pub new_boundary : InventoryBoundary
new_boundary = record { last_started = none; paused_time = 0; native_operations = 0 }

-- What a turn finds: the control at its start, the time, the control again, and the start of the
-- operation.
pub record Reading : Type 0 where
  pub is_cancelled : Bool
  pub is_paused : Bool
  pub pause : ℕ
  pub pacing : InventoryPacing
  pub now : ℕ
  pub interrupted : Bool
  pub started : ℕ

module _ (item_interval : ℕ → ℕ → ℕ) where
  abbrev pub rate_interval : Option ℕ → ℕ → ℕ
  rate_interval none cost = 0
  rate_interval (some rate) cost = if ltb 0 rate then item_interval (max cost 1) rate else 0

  unfoldable pub pacing_interval : InventoryPacing → ℕ → ℕ
  pacing_interval pacing cost =
      max pacing.min_interval (rate_interval pacing.item_rate_per_second cost)

  -- `checked_sub` is some as long as no more than the interval has passed.
  abbrev pub is_waiting : Option ℕ → ℕ → ℕ → Bool
  is_waiting none interval now = false
  is_waiting (some last) interval now = leb (now - last) interval

  abbrev pub start_operation : ℕ → InventoryBoundary → InventoryBoundary
  start_operation t b = record b {
    last_started = some t;
    native_operations = add_u64 b.native_operations 1;
  }

  -- A turn of the loop: `none` when it goes on.
  unfoldable pub turn : ℕ → Reading → InventoryBoundary → Option BoundaryResult × InventoryBoundary
  unfolding pacing_interval
  turn cost r b =
      if r.is_cancelled
      then (some cancelled, b)
      else if r.is_paused
      then (none, record b { paused_time = b.paused_time + r.pause })
      else if is_waiting b.last_started (pacing_interval r.pacing cost) r.now
      then (none, b)
      else if r.interrupted
      then (none, b)
      else (some proceed, start_operation r.started b)

  -- `before_operation_with_cost`, for as many turns as there are readings.
  unfoldable pub before_operation :
      ℕ → List Reading → InventoryBoundary → Option BoundaryResult × InventoryBoundary
  unfolding turn
  before_operation cost [] b = (none, b)
  before_operation cost (r ∷ rs) b =
      let (answer, b') = turn cost r b in
      elim answer [ some result ↦ (some result, b') | none ↦ before_operation cost rs b' ]
