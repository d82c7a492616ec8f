-- ===== src/Iterator/Progress.antt =====
-- The string iterator ends its loop, and keeps its counters in range.
use opc_cli.Prelude.{
  ℕ, zero, suc, ◌+◌, ◌-◌, ◌*◌, ◌≤◌, ◌<◌, ◌≡◌, refl, true, Option, none, some, Text, arith, ◌⊎◌, inl,
  inr, length, is_empty, if◌then◌else◌,
}
use opc_cli.Errors.{OpcResult}
use opc_cli.Iterator.Strings.{
  Enumerator, StringIterator, Step, return, again, new, pending, fetched, count_empty_batch, refill,
  take_entry, refill_and_take, step, next_with_gate,
}
use opc_cli.Iterator.Slots.{pending-set, pending_past, count_null-pending, length-filled}

pub record IsLive (s : StringIterator) : Type 0 where
  pub count_le : s.count ≤ 256
  pub batches_lt : s.empty_batches < 64
  pub consecutive_lt : s.consecutive < 64

-- The iterator is done, or its counters are in range.
abbrev pub IsValid : StringIterator → Type 0
IsValid s = (s.done ≡ true) ⊎ IsLive s

pub new-IsValid : IsValid new
unfolding new
new-IsValid = inr (omega arith)

-- How far the loop can still go: to the next string of the batch if there is one, else through the
-- batch and all the empty batches that are still allowed.
measure : StringIterator → ℕ
measure s =
    let left = s.count - s.index in
    if is_empty (pending s.index s.count s.cache) then (64 - s.empty_batches) * 257 + left else left

abbrev IsGood : ℕ → Step → Type 0
IsGood m (return result s') = IsValid s'
IsGood m (again s') = IsLive s' × (measure s' < m)

-- The call returns, and leaves a valid state.
abbrev pub Returns : Option (Option (OpcResult Text) × StringIterator) → Type 0
Returns o =
    (result : Option (OpcResult Text)) × (s' : StringIterator) × (o ≡ some (result, s'))
    × IsValid s'

module _ (e : Enumerator) where
  take_entry-IsGood :
      (s : StringIterator) → IsLive s → s.index < s.count → IsGood (measure s) (take_entry e s)
  unfolding take_entry measure
  take_entry-IsGood s v h = ground (arith, pending-set s.index s.count s.cache h)

  -- The state before the nulls are counted.
  record IsFetched (s : StringIterator) : Type 0 where
    count_le : s.count ≤ 256
    count_pos : 0 < s.count
    populated_eq : s.populated ≡ s.count
    index_eq : s.index ≡ 0
    cache_eq : length s.cache ≡ 256
    batches_lt : s.empty_batches < 64
    consecutive_lt : s.consecutive < 64

  -- A state with a batch to read, or one that is done.
  abbrev IsRefilled : ℕ → Step → Type 0
  IsRefilled m (return result s') = IsValid s'
  IsRefilled m (again s') = IsLive s' × (measure s' < m) × (s'.index < s'.count)

  count_empty_batch_good :
      (s : StringIterator)
      → IsFetched s
      → IsRefilled ((64 - s.empty_batches) * 257) (count_empty_batch e s)
  unfolding count_empty_batch measure is_empty
  count_empty_batch_good s f = ground (arith, count_null-pending s.count s.cache)

  measure_past : (s : StringIterator) → s.count ≤ s.index → measure s ≡ (64 - s.empty_batches) * 257
  unfolding measure is_empty
  measure_past s h = rw (pending_past s.index s.count s.cache h) (omega arith)

  fetched-IsFetched :
      (s : StringIterator)
      → IsLive s
      → (e.next s.calls).count ≤ 256
      → 0 < (e.next s.calls).count
      → IsFetched (fetched e s)
  fetched-IsFetched s v h k = omega (arith, length-filled (e.next s.calls).slots)

  refill_good :
      (s : StringIterator) → IsLive s → s.count ≤ s.index → IsRefilled (measure s) (refill e s)
  unfolding refill
  refill_good s v h =
      rw (measure_past s h)
        (ground (arith, fetched-IsFetched s v, count_empty_batch_good (fetched e s)))

  IsGood-mono : (m m' : ℕ) (r : Step) → m ≤ m' → IsGood m r → IsGood m' r
  IsGood-mono m m' (return result s) h g = g
  IsGood-mono m m' (again s) h g = (g.0, omega arith)

  take_after :
      (m : ℕ) (r : Step)
      → IsRefilled m r
      → IsGood m (elim r [ return result s1 ↦ return result s1 | again s1 ↦ take_entry e s1 ])
  take_after m (return result s) g = g
  take_after m (again s) g =
      IsGood-mono (measure s) m (take_entry e s) (omega arith) (take_entry-IsGood s g.0 g.2)

  refill_and_take-IsGood :
      (s : StringIterator) → IsLive s → s.count ≤ s.index → IsGood (measure s) (refill_and_take e s)
  unfolding refill_and_take
  refill_and_take-IsGood s v h = take_after (measure s) (refill e s) (refill_good s v h)

  -- A step of the loop returns in a valid state, or goes on in one with a smaller measure.
  step-IsGood : (s : StringIterator) → IsValid s → IsGood (measure s) (step e s)
  unfolding step measure
  step-IsGood s (inl d) = rw (d, step) (inl refl)
  step-IsGood s (inr v) =
      let s1 = record s { polls = s.polls + 1 } in
      let s2 = record s1 { refills_asked = s.refills_asked + 1 } in
      ground (arith, take_entry-IsGood s1 (omega arith), refill_and_take-IsGood s2 (omega arith))

  run_after :
      (fuel m : ℕ) (r : Step)
      → m ≤ fuel
      → IsGood m r
      → ((s : StringIterator) → IsLive s → measure s < fuel → Returns (next_with_gate e fuel s))
      → Returns
          (elim r [ return result s1 ↦ some (result, s1) | again s1 ↦ next_with_gate e fuel s1 ])
  run_after fuel m (return result s) h g ih = (result, s, refl, g)
  run_after fuel m (again s) h g ih = ih s g.0 (omega arith)

  loop-Returns :
      (fuel : ℕ) (s : StringIterator)
      → IsLive s
      → measure s < fuel
      → Returns (next_with_gate e fuel s)
  unfolding next_with_gate
  loop-Returns zero s v h = elim h [ ]
  loop-Returns (suc fuel) s v h =
      run_after fuel (measure s) (step e s) (omega arith) (step-IsGood s (inr v))
        (loop-Returns fuel)

  returns_when_done :
      (fuel : ℕ) (s : StringIterator)
      → s.done ≡ true
      → next_with_gate e (suc fuel) s ≡ some (none, s)
  unfolding next_with_gate step
  returns_when_done fuel s d = ground arith

  measure_le : (s : StringIterator) → IsLive s → measure s ≤ 16704
  unfolding measure
  measure_le s v = ground arith

  -- Fuel for 64 batches of 256 slots and the slots that are left is enough: from a valid state the
  -- call returns, whatever the server and the closures answer, and leaves a valid state.
  pub next_with_gate-Returns :
      (fuel : ℕ) (s : StringIterator) → IsValid s → 16704 < fuel → Returns (next_with_gate e fuel s)
  next_with_gate-Returns zero s v h = elim h [ ]
  next_with_gate-Returns (suc fuel) s (inl d) h = (none, s, returns_when_done fuel s d, inl d)
  next_with_gate-Returns (suc fuel) s (inr v) h =
      loop-Returns (suc fuel) s v (omega (arith, measure_le s v))
