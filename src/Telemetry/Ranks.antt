-- ===== src/Telemetry/Ranks.antt =====
-- What the percentiles of the histogram say of the latencies that were recorded.
use opc_cli.Prelude.{
  ℕ, zero, suc, ◌+◌, ◌*◌, ◌≤◌, ◌<◌, max, ◌≡◌, ◌⊎◌, inl, inr, refl, false, List, [], ◌∷◌, arith,
  length, leb, ◌==◌, Bool-cases,
}
use opc_cli.Telemetry.Histogram.{
  u64_max, add_u64, upper_bounds_ns, count_at, walk, percentile_from_rank, rank_of, percentiles,
}
use opc_cli.Telemetry.Buckets.{sum_upto, histogram, count_le, sum_upto-histogram}

-- The greatest latency.
abbrev pub maximum : List ℕ → ℕ
maximum [] = 0
maximum (d ∷ ds) = max (maximum ds) d

count_le-all : (b : ℕ) (ds : List ℕ) → maximum ds ≤ b → count_le b ds ≡ length ds
count_le-all b [] h = refl
count_le-all b (d ∷ ds) h = ground (arith, count_le-all b ds)

-- What the walk may end with: a bound up to which the rank is reached, or the greatest latency.
abbrev WalkEnd : ℕ → List ℕ → List ℕ → ℕ → ℕ → ℕ → Type 0
WalkEnd value counts bounds cumulative rank most =
    ((j : ℕ) × (j < length bounds)
      × (value ≡ count_at bounds j)
      × (rank ≤ cumulative + sum_upto j counts))
    ⊎ (value ≡ most)

one_bucket_on :
    (value x : ℕ) (counts : List ℕ) (b : ℕ) (bounds : List ℕ) (c reached rank most : ℕ)
    → reached ≤ c + x
    → WalkEnd value counts bounds reached rank most
    → WalkEnd value (x ∷ counts) (b ∷ bounds) c rank most
one_bucket_on value x counts b bounds c reached rank most le (inl (j, h, e, s)) =
    inl (suc j, omega (arith, h), e, omega (arith, s, le))
one_bucket_on value x counts b bounds c reached rank most le (inr e) = inr e

walk_reaches :
    (counts bounds : List ℕ) (cumulative rank most : ℕ)
    → WalkEnd (walk counts bounds cumulative rank most) counts bounds cumulative rank most
unfolding walk
walk_reaches [] bounds c r m = inr refl
walk_reaches (x ∷ counts) [] c r m = inr refl
walk_reaches (x ∷ counts) (b ∷ bounds) c r m = elim (Bool-cases (leb r (add_u64 c x))) [
  | inl now ↦ rw now (inl (zero, omega arith, refl, ground arith))
  | inr later ↦ rw later (
      one_bucket_on (walk counts bounds (add_u64 c x) r m) x counts b bounds c (add_u64 c x) r m
        (omega arith) (walk_reaches counts bounds (add_u64 c x) r m))
]

-- At least `percent` of a hundred of the latencies are at most the bound.
abbrev pub Covers : ℕ → ℕ → List ℕ → Type 0
Covers percent bound ds = percent * length ds ≤ 100 * count_le bound ds

mul_le_hundred : (n p : ℕ) → p ≤ 100 → n * p ≤ 100 * n
mul_le_hundred zero p h = omega arith
mul_le_hundred (suc n) p h = omega (arith, mul_le_hundred n p h, h)

rank_covers : (p n : ℕ) → p ≤ 100 → 100 * n + 99 ≤ u64_max → n * p ≤ 100 * rank_of n p
unfolding rank_of
rank_covers p n h small = omega (arith, mul_le_hundred n p h)

WalkEnd-Covers :
    (p value : ℕ) (ds : List ℕ)
    → p ≤ 100
    → 100 * length ds + 99 ≤ u64_max
    → WalkEnd value (histogram ds) upper_bounds_ns 0 (rank_of (length ds) p) (maximum ds)
    → Covers p value ds
WalkEnd-Covers p value ds h small (inl (j, lt, e, s)) =
    rw e (
      omega (arith, s, rank_covers p (length ds) h small, sum_upto-histogram j ds lt (omega arith)))
WalkEnd-Covers p value ds h small (inr e) =
    rw e (omega (arith, count_le-all (maximum ds) ds (omega arith), mul_le_hundred (length ds) p h))

percentile_from_rank-walk :
    (buckets : List ℕ) (total rank most : ℕ)
    → 1 ≤ total
    → percentile_from_rank buckets total rank most ≡ walk buckets upper_bounds_ns 0 rank most
unfolding percentile_from_rank
percentile_from_rank-walk buckets total rank most h = ground arith

percentile-Covers :
    (p : ℕ) (ds : List ℕ)
    → p ≤ 100
    → 1 ≤ length ds
    → 100 * length ds + 99 ≤ u64_max
    → Covers p
        (percentile_from_rank (histogram ds) (length ds) (rank_of (length ds) p) (maximum ds))
        ds
percentile-Covers p ds h some_recorded small =
    let n = length ds in
    rw (percentile_from_rank-walk (histogram ds) n (rank_of n p) (maximum ds) some_recorded) (
      WalkEnd-Covers p (walk (histogram ds) upper_bounds_ns 0 (rank_of n p) (maximum ds)) ds h small
        (walk_reaches (histogram ds) upper_bounds_ns 0 (rank_of n p) (maximum ds)))

percentiles-ranks :
    (buckets : List ℕ) (total most : ℕ)
    → 1 ≤ total
    → percentiles buckets total most ≡ record {
      p50 = percentile_from_rank buckets total (rank_of total 50) most;
      p95 = percentile_from_rank buckets total (rank_of total 95) most;
      p99 = percentile_from_rank buckets total (rank_of total 99) most;
    }
unfolding percentiles
percentiles-ranks buckets total most h =
    let some_recorded : (total == 0) ≡ false = ground arith in rw some_recorded refl

-- At least half of the latencies recorded are at most the p50 of their histogram, 95 of a hundred at
-- most its p95 and 99 of a hundred at most its p99, when there is at least one latency and the
-- computation of the ranks stays below 2 ^ 64.
pub percentiles_cover :
    (ds : List ℕ)
    → 1 ≤ length ds
    → 100 * length ds + 99 ≤ u64_max
    → Covers 50 (percentiles (histogram ds) (length ds) (maximum ds)).p50 ds
      × Covers 95 (percentiles (histogram ds) (length ds) (maximum ds)).p95 ds
      × Covers 99 (percentiles (histogram ds) (length ds) (maximum ds)).p99 ds
percentiles_cover ds h small = rw (percentiles-ranks (histogram ds) (length ds) (maximum ds) h) (
    (
      percentile-Covers 50 ds (omega arith) h small,
      percentile-Covers 95 ds (omega arith) h small,
      percentile-Covers 99 ds (omega arith) h small,
    ))
