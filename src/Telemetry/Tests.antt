-- ===== src/Telemetry/Tests.antt =====
-- The telemetry on concrete latencies.
use opc_cli.Prelude.{ℕ, ◌≡◌, refl, List, [], ◌∷◌, map, length, arith}
use opc_cli.Telemetry.Histogram.{bucket_index, percentiles, record_latency, default, position}
use opc_cli.Telemetry.Collector.{
  OperationKind, OperationKind-discrete, get_item_id, da3_page, finish, record_stats, no_stats,
  record_operation, take_observations,
}
use opc_cli.Telemetry.Buckets.{histogram}
use opc_cli.Telemetry.Ranks.{maximum, Covers}
use opc_cli.Telemetry.Accounting.{
  collected, stats_of, latencies_of, stats_of_each_kind, finish-Covers,
}

abbrev latencies : List ℕ
latencies = 40000 ∷ 90000 ∷ 300000000 ∷ []

abbrev events : List (OperationKind × ℕ)
events = (da3_page, 300000000) ∷ (get_item_id, 40000) ∷ (da3_page, 70000) ∷ []

latencies_p50 : (percentiles (histogram latencies) 3 (maximum latencies)).p50 ≡ 100000
unfolding percentiles record_latency default bucket_index position
latencies_p50 = refl

latencies_p99 : (percentiles (histogram latencies) 3 (maximum latencies)).p99 ≡ 300000000
unfolding percentiles record_latency default bucket_index position
latencies_p99 = refl

taken_kinds :
    map (λ o. o.kind) (take_observations (collected events)).0 ≡ da3_page ∷ get_item_id ∷ []
unfolding take_observations record_operation record_stats no_stats OperationKind-discrete
taken_kinds = refl

taken_empties : (take_observations (collected events)).1 ≡ []
unfolding take_observations
taken_empties = refl

stats_of_each_kind_example :
    ((stats_of da3_page (collected events)).count ≡ length (latencies_of da3_page events))
    × ((stats_of da3_page (collected events)).max_elapsed ≡ maximum (latencies_of da3_page events))
    × ((stats_of da3_page (collected events)).latency_histogram
        ≡ histogram (latencies_of da3_page events))
unfolding OperationKind-discrete
stats_of_each_kind_example = stats_of_each_kind da3_page events (omega arith)

finish-Covers_example :
    Covers 50
      (finish (da3_page, stats_of da3_page (collected events))).percentiles.p50
      (latencies_of da3_page events)
    × Covers 95
        (finish (da3_page, stats_of da3_page (collected events))).percentiles.p95
        (latencies_of da3_page events)
    × Covers 99
        (finish (da3_page, stats_of da3_page (collected events))).percentiles.p99
        (latencies_of da3_page events)
unfolding OperationKind-discrete
finish-Covers_example = finish-Covers da3_page events (omega arith) (omega arith)
