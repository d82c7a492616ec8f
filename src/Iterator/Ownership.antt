-- ===== src/Iterator/Ownership.antt =====
-- Who frees the strings of a batch: an entry that is taken leaves the cache, and `release_pending`
-- frees those that are left.
use opc_cli.Prelude.{ℕ, zero, suc, ◌+◌, ◌≤◌, ◌<◌, min, ◌≡◌, refl, List, [], ◌∷◌, ◌++◌, arith, set}
use opc_cli.Iterator.Strings.{
  Slot, null, wide, slot_at, Step, return, again, Enumerator, StringIterator, pending, cleared,
  release_pending, take_entry, new, step, refill, refill_and_take, count_empty_batch, yield_value,
}
use opc_cli.Iterator.Slots.{pending_past}

-- The strings that the iterator would free if it were dropped.
abbrev pub owned : StringIterator → List Slot
owned s = (release_pending s).0

abbrev pub state_after : Step → StringIterator
state_after (return result s) = s
state_after (again s) = s

-- The string of an entry, if it is not null.
abbrev pub entry : Slot → List Slot
entry null = []
entry (wide r) = wide r ∷ []

pending-entry :
    (i n : ℕ) (ss : List Slot)
    → i < n
    → pending i n ss ≡ entry (slot_at ss i) ++ pending (suc i) n (set ss i null)
unfolding pending
pending-entry zero zero ss h = elim h [ ]
pending-entry zero (suc n) [] h = refl
pending-entry zero (suc n) (null ∷ ss) h = refl
pending-entry zero (suc n) (wide r ∷ ss) h = refl
pending-entry (suc i) zero ss h = elim h [ ]
pending-entry (suc i) (suc n) [] h = refl
pending-entry (suc i) (suc n) (s ∷ ss) h = pending-entry i n ss (omega arith)

pending-cleared : (k n : ℕ) (ss : List Slot) → pending k n (cleared k n ss) ≡ []
unfolding pending cleared
pending-cleared zero zero ss = refl
pending-cleared zero (suc n) [] = refl
pending-cleared zero (suc n) (s ∷ ss) = pending-cleared zero n ss
pending-cleared (suc k) n [] = refl
pending-cleared (suc k) zero (s ∷ ss) = refl
pending-cleared (suc k) (suc n) (s ∷ ss) = pending-cleared k n ss

module _ (e : Enumerator) where
  take_entry_frame :
      (s : StringIterator)
      → ((state_after (take_entry e s)).cache ≡ set s.cache s.index null)
        × ((state_after (take_entry e s)).index ≡ s.index + 1)
        × ((state_after (take_entry e s)).populated ≡ s.populated)
  unfolding take_entry yield_value
  take_entry_frame s = ground arith

  -- What the iterator frees when it is dropped before an entry of the batch is taken is that entry's
  -- string, if it has one, and then what it frees when it is dropped after: whatever becomes of the
  -- string taken, it leaves the cache, and the others stay.
  owned-take_entry :
      (s : StringIterator)
      → s.index < s.populated
      → owned s ≡ entry (slot_at s.cache s.index) ++ owned (state_after (take_entry e s))
  unfolding release_pending
  owned-take_entry s h =
      let (cache, index, populated) = take_entry_frame s in
      let here : min s.index s.populated ≡ s.index = omega arith in
      let after : min (s.index + 1) s.populated ≡ suc s.index = omega arith in
      rw (cache, index, populated, here, after) (pending-entry s.index s.populated s.cache h)

  -- The steps of any calls, one after another.
  abbrev pub steps : ℕ → StringIterator
  steps zero = new
  steps (suc n) = state_after (step e (steps n))

  take_entry-populated :
      (s : StringIterator)
      → s.populated ≤ s.count
      → (state_after (take_entry e s)).populated ≤ (state_after (take_entry e s)).count
  unfolding take_entry yield_value
  take_entry-populated s h = ground arith

  refill-populated :
      (s : StringIterator) → (state_after (refill e s)).populated ≤ (state_after (refill e s)).count
  unfolding refill count_empty_batch
  refill-populated s = ground arith

  take_after-populated :
      (t : Step)
      → (state_after t).populated ≤ (state_after t).count
      → let t' : Step = elim t [
        | return result s1 ↦ return result s1
        | again s1 ↦ take_entry e s1
      ] in
        (state_after t').populated ≤ (state_after t').count
  take_after-populated (return result s1) h = h
  take_after-populated (again s1) h = take_entry-populated s1 h

  refill_and_take-populated :
      (s : StringIterator)
      → (state_after (refill_and_take e s)).populated ≤ (state_after (refill_and_take e s)).count
  unfolding refill_and_take
  refill_and_take-populated s = take_after-populated (refill e s) (refill-populated s)

  step-populated :
      (s : StringIterator)
      → s.populated ≤ s.count
      → (state_after (step e s)).populated ≤ (state_after (step e s)).count
  unfolding step
  step-populated s h =
      let s1 = record s { polls = s.polls + 1 } in
      let s2 = record s1 { refills_asked = s1.refills_asked + 1 } in
      ground (arith, refill_and_take-populated s2, take_entry-populated s1 h)

  steps-populated : (n : ℕ) → (steps n).populated ≤ (steps n).count
  unfolding new
  steps-populated zero = omega arith
  steps-populated (suc n) = step-populated (steps n) (steps-populated n)

  -- Whenever a call finds the batch read to its end, so that the refill overwrites the cache, there is
  -- no string left that the iterator would have had to free.
  refill_loses_nothing : (n : ℕ) → (steps n).count ≤ (steps n).index → owned (steps n) ≡ []
  unfolding release_pending
  refill_loses_nothing n h =
      pending_past (min (steps n).index (steps n).populated) (steps n).populated (steps n).cache
        (omega (arith, steps-populated n, h))

-- Dropping the iterator frees nothing a second time, and leaves no string among the slots that it
-- went through.
pub release_pending_once :
    (s : StringIterator)
    → (owned (release_pending s).1 ≡ [])
      × (pending (min s.index s.populated) s.populated (release_pending s).1.cache ≡ [])
unfolding release_pending
release_pending_once s = (
  pending_past (min s.index 0) 0 (release_pending s).1.cache (omega arith),
  pending-cleared (min s.index s.populated) s.populated s.cache,
)
