-- ===== src/Telemetry/Buckets.antt =====
-- What the histogram says of the latencies that were recorded.
use opc_cli.Prelude.{
  ℕ, zero, suc, ◌+◌, ◌≤◌, ◌<◌, min, ◌≡◌, ◌↔◌, refl, ◌∙◌, List, [], ◌∷◌, arith, length, set,
  replicate, leb, if◌then◌else◌, All, length-set,
}
use opc_cli.Telemetry.Histogram.{
  u64_max, add_u64, upper_bounds_ns, position, bucket_index, default, count_at, record_latency,
}

abbrev Ascending : ℕ → List ℕ → Type 0
Ascending lo [] = Unit
Ascending lo (b ∷ bs) = (lo ≤ b) × Ascending b bs

count_at_ge :
    (lo j : ℕ) (bounds : List ℕ) → Ascending lo bounds → j < length bounds → lo ≤ count_at bounds j
count_at_ge lo j [] a h = elim h [ ]
count_at_ge lo zero (b ∷ bs) a h = a.0
count_at_ge lo (suc j) (b ∷ bs) a h = omega (arith, count_at_ge b j bs a.1 (omega arith))

count_at_le : (most j : ℕ) (bounds : List ℕ) → All (λ b. b ≤ most) bounds → count_at bounds j ≤ most
count_at_le most j [] a = omega arith
count_at_le most zero (b ∷ bs) a = a.0
count_at_le most (suc j) (b ∷ bs) a = count_at_le most j bs a.1

position_le_iff :
    (n lo j : ℕ) (bounds : List ℕ)
    → Ascending lo bounds
    → j < length bounds
    → (position n bounds ≤ j) ↔ (n ≤ count_at bounds j)
unfolding position
position_le_iff n lo j [] a h = elim h [ ]
position_le_iff n lo zero (b ∷ bs) a h = ground arith
position_le_iff n lo (suc j) (b ∷ bs) a h =
    ground (arith, position_le_iff n b j bs a.1, count_at_ge b j bs a.1)

-- A latency is counted in the bucket `j` or an earlier one exactly when it is at most the bound of `j`.
pub bucket_index_le_iff :
    (elapsed j : ℕ) → j < 12 → (bucket_index elapsed ≤ j) ↔ (elapsed ≤ count_at upper_bounds_ns j)
unfolding bucket_index
bucket_index_le_iff elapsed j h =
    let small : count_at upper_bounds_ns j ≤ 250000000 =
      count_at_le 250000000 j upper_bounds_ns (omega arith) in
    let (up, down) = position_le_iff (min elapsed u64_max) 0 j upper_bounds_ns (omega arith) h in
    (λ b. omega (arith, up b), λ b. down (omega arith))

position_le : (n : ℕ) (bounds : List ℕ) → position n bounds ≤ length bounds
unfolding position
position_le n [] = omega arith
position_le n (b ∷ bs) = ground (arith, position_le n bs)

bucket_index-lt : (elapsed : ℕ) → bucket_index elapsed < 13
unfolding bucket_index
bucket_index-lt elapsed = omega (arith, position_le (min elapsed u64_max) upper_bounds_ns)

-- The counts of the buckets up to `j`.
abbrev pub sum_upto : ℕ → List ℕ → ℕ
sum_upto j [] = 0
sum_upto zero (c ∷ cs) = c
sum_upto (suc j) (c ∷ cs) = c + sum_upto j cs

sum_upto-set :
    (j i : ℕ) (cs : List ℕ)
    → i < length cs
    → sum_upto j (set cs i (count_at cs i + 1))
      ≡ (if leb i j then sum_upto j cs + 1 else sum_upto j cs)
sum_upto-set j i [] h = elim h [ ]
sum_upto-set zero zero (c ∷ cs) h = ground arith
sum_upto-set zero (suc i) (c ∷ cs) h = ground arith
sum_upto-set (suc j) zero (c ∷ cs) h = ground arith
sum_upto-set (suc j) (suc i) (c ∷ cs) h = ground (arith, sum_upto-set j i cs)

count_at-set_le :
    (j i v : ℕ) (cs : List ℕ) → v ≤ count_at cs i + 1 → count_at (set cs i v) j ≤ count_at cs j + 1
count_at-set_le j i v [] h = omega arith
count_at-set_le zero zero v (c ∷ cs) h = h
count_at-set_le zero (suc i) v (c ∷ cs) h = omega arith
count_at-set_le (suc j) zero v (c ∷ cs) h = omega arith
count_at-set_le (suc j) (suc i) v (c ∷ cs) h = count_at-set_le j i v cs h

-- The histogram of latencies, the last one first.
abbrev pub histogram : List ℕ → List ℕ
histogram [] = default
histogram (d ∷ ds) = record_latency d (histogram ds)

-- How many latencies are at most a bound.
abbrev pub count_le : ℕ → List ℕ → ℕ
count_le b [] = 0
count_le b (d ∷ ds) = let rest = count_le b ds in if leb d b then rest + 1 else rest

length-histogram : (ds : List ℕ) → length (histogram ds) ≡ 13
unfolding record_latency default
length-histogram [] = refl
length-histogram (d ∷ ds) =
    length-set (histogram ds) (bucket_index d)
      (add_u64 (count_at (histogram ds) (bucket_index d)) 1)
    ∙ length-histogram ds

count_at-zeros : (n j : ℕ) → count_at (replicate n 0) j ≡ 0
count_at-zeros zero j = refl
count_at-zeros (suc n) zero = refl
count_at-zeros (suc n) (suc j) = count_at-zeros n j

sum_upto-zeros : (n j : ℕ) → sum_upto j (replicate n 0) ≡ 0
sum_upto-zeros zero j = refl
sum_upto-zeros (suc n) zero = refl
sum_upto-zeros (suc n) (suc j) = omega (arith, sum_upto-zeros n j)

count_at-histogram_le : (j : ℕ) (ds : List ℕ) → count_at (histogram ds) j ≤ length ds
unfolding record_latency default
count_at-histogram_le j [] = omega (arith, count_at-zeros 13 j)
count_at-histogram_le j (d ∷ ds) =
    let i = bucket_index d in
    let v = add_u64 (count_at (histogram ds) i) 1 in
    omega (arith, count_at-set_le j i v (histogram ds) (omega arith), count_at-histogram_le j ds)

-- Up to the bucket `j` the histogram counts the latencies that are at most the bound of `j`, while
-- fewer than 2 ^ 64 have been recorded.
pub sum_upto-histogram :
    (j : ℕ) (ds : List ℕ)
    → j < 12
    → length ds ≤ u64_max
    → sum_upto j (histogram ds) ≡ count_le (count_at upper_bounds_ns j) ds
unfolding record_latency default
sum_upto-histogram j [] h n = sum_upto-zeros 13 j
sum_upto-histogram j (d ∷ ds) h n =
    let i = bucket_index d in
    let cs = histogram ds in
    let exact : add_u64 (count_at cs i) 1 ≡ count_at cs i + 1 =
      omega (arith, count_at-histogram_le i ds) in
    rw exact (
      ground (
        arith,
        sum_upto-set j i cs (omega (arith, bucket_index-lt d, length-histogram ds)),
        sum_upto-histogram j ds h (omega arith),
        bucket_index_le_iff d j h,
      ))
