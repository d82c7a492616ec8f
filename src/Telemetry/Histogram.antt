-- ===== src/Telemetry/Histogram.antt =====
-- opc-da-client/src/provider.rs: `InventoryNativeOperationLatencyHistogram` and its percentiles.
use opc_cli.Prelude.{
  ℕ, zero, suc, ◌+◌, ◌*◌, ◌/◌, min, max, List, [], ◌∷◌, set, replicate, leb, ◌==◌, if◌then◌else◌,
}

abbrev pub u64_max : ℕ
u64_max = 18446744073709551615

-- `u64::saturating_add`, and `saturating_mul`.
abbrev pub add_u64 : ℕ → ℕ → ℕ
add_u64 a b = min (a + b) u64_max

abbrev pub mul_u64 : ℕ → ℕ → ℕ
mul_u64 a b = min (a * b) u64_max

-- INVENTORY_NATIVE_OPERATION_LATENCY_BUCKET_UPPER_BOUNDS_NS
abbrev pub upper_bounds_ns : List ℕ
upper_bounds_ns =
    50000 ∷ 100000 ∷ 250000 ∷ 500000 ∷ 1000000 ∷ 2500000 ∷ 5000000 ∷ 10000000 ∷ 25000000 ∷ 50000000
    ∷ 100000000 ∷ 250000000 ∷ []

-- `iter().position(|bound| nanos <= *bound)`, or the length.
unfoldable pub position : ℕ → List ℕ → ℕ
position nanos [] = 0
position nanos (bound ∷ bounds) =
    let rest = position nanos bounds in if leb nanos bound then 0 else suc rest

unfoldable pub bucket_index : ℕ → ℕ
bucket_index elapsed = position (min elapsed u64_max) upper_bounds_ns

-- The counts of the thirteen buckets.
unfoldable pub default : List ℕ
default = replicate 13 0

abbrev pub count_at : List ℕ → ℕ → ℕ
count_at [] i = 0
count_at (c ∷ cs) zero = c
count_at (c ∷ cs) (suc i) = count_at cs i

unfoldable pub record_latency : ℕ → List ℕ → List ℕ
record_latency elapsed buckets =
    let index = bucket_index elapsed in set buckets index (add_u64 (count_at buckets index) 1)

-- The loop over the buckets that are left, with their bounds: the last bucket has none.
unfoldable pub walk : List ℕ → List ℕ → ℕ → ℕ → ℕ → ℕ
walk [] bounds cumulative rank max_elapsed = max_elapsed
walk (count ∷ counts) [] cumulative rank max_elapsed = max_elapsed
walk (count ∷ counts) (bound ∷ bounds) cumulative rank max_elapsed =
    let reached = add_u64 cumulative count in
    let rest = walk counts bounds reached rank max_elapsed in
    if leb rank reached then bound else rest

unfoldable pub percentile_from_rank : List ℕ → ℕ → ℕ → ℕ → ℕ
unfolding walk
percentile_from_rank buckets total rank max_elapsed =
    if total == 0 then 0 else walk buckets upper_bounds_ns 0 rank max_elapsed

pub record Percentiles : Type 0 where
  pub p50 : ℕ
  pub p95 : ℕ
  pub p99 : ℕ

unfoldable pub rank_of : ℕ → ℕ → ℕ
rank_of total percentile = max (add_u64 (mul_u64 total percentile) 99 / 100) 1

unfoldable pub percentiles : List ℕ → ℕ → ℕ → Percentiles
unfolding rank_of percentile_from_rank
percentiles buckets total max_elapsed =
    let at_rank = λ (p : ℕ). percentile_from_rank buckets total (rank_of total p) max_elapsed in
    if total == 0
    then record { p50 = 0; p95 = 0; p99 = 0 }
    else record { p50 = at_rank 50; p95 = at_rank 95; p99 = at_rank 99 }
