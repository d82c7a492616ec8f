-- ===== src/Telemetry/Accounting.antt =====
-- What the collector holds of a kind of operation after a sequence of operations, the last one first.
use mathlib.Core.Logic.{ite}
use opc_cli.Prelude.{ℕ, ◌+◌, ◌*◌, ◌≤◌, max, ◌≡◌, refl, ap, ◌∙◌, List, [], ◌∷◌, arith, length}
use opc_cli.Telemetry.Histogram.{u64_max, record_latency}
use opc_cli.Telemetry.Collector.{
  OperationKind, OperationKind-discrete, Stats, no_stats, record_stats, record_operation, finish,
}
use opc_cli.Telemetry.Buckets.{histogram}
use opc_cli.Telemetry.Ranks.{maximum, Covers, percentiles_cover}

abbrev pub collected : List (OperationKind × ℕ) → List (OperationKind × Stats)
collected [] = []
collected ((kind, elapsed) ∷ es) = record_operation kind elapsed (collected es)

-- The statistics held of a kind: none yet, if there is no entry.
abbrev pub stats_of : OperationKind → List (OperationKind × Stats) → Stats
stats_of kind [] = no_stats
stats_of kind ((k, s) ∷ rest) = ite (OperationKind-discrete k kind) s (stats_of kind rest)

abbrev pub latencies_of : OperationKind → List (OperationKind × ℕ) → List ℕ
latencies_of kind [] = []
latencies_of kind ((k, elapsed) ∷ es) =
    ite (OperationKind-discrete k kind) (elapsed ∷ latencies_of kind es) (latencies_of kind es)

abbrev folded : List ℕ → Stats
folded [] = no_stats
folded (d ∷ ds) = record_stats d (folded ds)

stats_of-record_operation :
    (kind k : OperationKind) (elapsed : ℕ) (c : List (OperationKind × Stats))
    → stats_of kind (record_operation k elapsed c)
      ≡ ite
          (OperationKind-discrete k kind)
          (record_stats elapsed (stats_of kind c))
          (stats_of kind c)
unfolding record_operation
stats_of-record_operation kind k elapsed [] = refl
stats_of-record_operation kind k elapsed ((k1, s) ∷ rest) =
    grind (arith, stats_of-record_operation kind k elapsed rest)

stats_of-collected :
    (kind : OperationKind) (es : List (OperationKind × ℕ))
    → stats_of kind (collected es) ≡ folded (latencies_of kind es)
stats_of-collected kind [] = refl
stats_of-collected kind ((k, elapsed) ∷ es) =
    stats_of-record_operation kind k elapsed (collected es)
    ∙ grind (arith, stats_of-collected kind es)

count-folded : (ds : List ℕ) → length ds ≤ u64_max → (folded ds).count ≡ length ds
unfolding record_stats no_stats
count-folded [] h = refl
count-folded (d ∷ ds) h = omega (arith, count-folded ds (omega arith))

max_elapsed-folded : (ds : List ℕ) → (folded ds).max_elapsed ≡ maximum ds
unfolding record_stats no_stats
max_elapsed-folded [] = refl
max_elapsed-folded (d ∷ ds) = ap (λ m. max m d) (max_elapsed-folded ds)

latency_histogram-folded : (ds : List ℕ) → (folded ds).latency_histogram ≡ histogram ds
unfolding record_stats no_stats
latency_histogram-folded [] = refl
latency_histogram-folded (d ∷ ds) = ap (record_latency d) (latency_histogram-folded ds)

-- After any sequence of operations the collector holds of each kind the number of its operations,
-- while these are fewer than 2 ^ 64, their longest duration and the histogram of their durations.
pub stats_of_each_kind :
    (kind : OperationKind) (es : List (OperationKind × ℕ))
    → length (latencies_of kind es) ≤ u64_max
    → ((stats_of kind (collected es)).count ≡ length (latencies_of kind es))
      × ((stats_of kind (collected es)).max_elapsed ≡ maximum (latencies_of kind es))
      × ((stats_of kind (collected es)).latency_histogram ≡ histogram (latencies_of kind es))
stats_of_each_kind kind es h = rw (stats_of-collected kind es) (
    (
      count-folded (latencies_of kind es) h,
      max_elapsed-folded (latencies_of kind es),
      latency_histogram-folded (latencies_of kind es),
    ))

-- When the collector has recorded operations of a kind, few enough for the ranks to stay below
-- 2 ^ 64, the observation made of that kind has at least half of the kind's durations at most its
-- p50, 95 of a hundred at most its p95 and 99 of a hundred at most its p99.
pub finish-Covers :
    (kind : OperationKind) (es : List (OperationKind × ℕ))
    → 1 ≤ length (latencies_of kind es)
    → 100 * length (latencies_of kind es) + 99 ≤ u64_max
    → Covers 50 (finish (kind, stats_of kind (collected es))).percentiles.p50 (latencies_of kind es)
      × Covers 95
          (finish (kind, stats_of kind (collected es))).percentiles.p95
          (latencies_of kind es)
      × Covers 99
          (finish (kind, stats_of kind (collected es))).percentiles.p99
          (latencies_of kind es)
unfolding finish
finish-Covers kind es h small =
    let held = stats_of_each_kind kind es (omega arith) in
    rw (held.0, held.1, held.2) (percentiles_cover (latencies_of kind es) h small)
