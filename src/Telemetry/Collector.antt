-- ===== src/Telemetry/Collector.antt =====
-- opc-da-client/src/inventory/telemetry.rs: the statistics of one kind of operation, and the
-- collector, which keeps the kinds in the order in which they were first seen.
use mathlib.Core.Logic.{ite}
use opc_cli.Prelude.{ℕ, ◌+◌, min, max, List, [], ◌∷◌, map}
use opc_cli.Telemetry.Histogram.{Percentiles, add_u64, default, record_latency, percentiles}

pub data OperationKind : Type 0 where
  namespace_organization_query : OperationKind
  da2_branch_enumerator_creation da2_leaf_enumerator_creation : OperationKind
  da2_flat_enumerator_creation da2_string_refill get_item_id : OperationKind
  da2_classification_down da2_classification_up : OperationKind
  da2_path_down da2_path_to da2_path_up : OperationKind
  da2_probe_down da2_probe_up da3_page : OperationKind

unfoldable pub OperationKind-discrete : Discrete OperationKind
OperationKind-discrete = hlevel

-- `Duration::saturating_add`: u64::MAX seconds and 999,999,999 nanoseconds are the most.
abbrev pub duration_max : ℕ
duration_max = 18446744073709551615999999999

pub record Stats : Type 0 where
  pub count : ℕ
  pub total_elapsed : ℕ
  pub max_elapsed : ℕ
  pub latency_histogram : List ℕ

unfoldable pub no_stats : Stats
unfolding default
no_stats = record { count = 0; total_elapsed = 0; max_elapsed = 0; latency_histogram = default }

unfoldable pub record_stats : ℕ → Stats → Stats
record_stats elapsed s = record {
  count = add_u64 s.count 1;
  total_elapsed = min (s.total_elapsed + elapsed) duration_max;
  max_elapsed = max s.max_elapsed elapsed;
  latency_histogram = record_latency elapsed s.latency_histogram;
}

pub record Observation : Type 0 where
  pub kind : OperationKind
  pub stats : Stats
  pub percentiles : Percentiles

-- `finish` keeps the statistics and adds the percentiles.
unfoldable pub finish : OperationKind × Stats → Observation
finish (kind, s) = record {
  kind = kind;
  stats = s;
  percentiles = percentiles s.latency_histogram s.count s.max_elapsed;
}

unfoldable pub record_operation :
    OperationKind → ℕ → List (OperationKind × Stats) → List (OperationKind × Stats)
record_operation kind elapsed [] = (kind, record_stats elapsed no_stats) ∷ []
record_operation kind elapsed ((k, s) ∷ rest) =
    ite (OperationKind-discrete k kind) ((k, record_stats elapsed s) ∷ rest)
      ((k, s) ∷ record_operation kind elapsed rest)

-- `take`: the observations, and the emptied collector.
unfoldable pub take_observations :
    List (OperationKind × Stats) → List Observation × List (OperationKind × Stats)
unfolding finish
take_observations collector = (map finish collector, [])
