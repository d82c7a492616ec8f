-- ===== src/Inventory/Pacing.antt =====
-- The operations that the boundary of opc-da-client/src/inventory/boundary.rs lets start are paced.
use opc_cli.Prelude.{
  ℕ, ◌+◌, ◌≤◌, ◌<◌, ◌≡◌, refl, ◌∙◌, false, Option, none, some, List, [], ◌∷◌, arith, Bool-cases,
  inl, inr,
}
use opc_cli.Inventory.Boundary.{
  BoundaryResult, proceed, cancelled, InventoryBoundary, Reading, pacing_interval, is_waiting, turn,
  before_operation,
}

-- The readings of the loop at an operation of some cost.
abbrev pub Operation : Type 0
Operation = ℕ × List Reading

abbrev pub with_start : Option ℕ → List ℕ → List ℕ
with_start none ts = ts
with_start (some t) ts = t ∷ ts

abbrev pub start_of : Option BoundaryResult × InventoryBoundary → Option ℕ
start_of (some proceed, b) = b.last_started
start_of (some cancelled, b) = none
start_of (none, b) = none

-- Each reading asks for at least `d` between two operations, and no operation starts before the time that
-- was read last.
abbrev pub ArePaced : ℕ → List Reading → Type 0
ArePaced d [] = Unit
ArePaced d (r ∷ rs) = (d ≤ r.pacing.min_interval) × (r.now ≤ r.started) × ArePaced d rs

abbrev pub AllPaced : ℕ → List Operation → Type 0
AllPaced d [] = Unit
AllPaced d (o ∷ os) = ArePaced d o.1 × AllPaced d os

abbrev pub IsAfter : ℕ → Option ℕ → ℕ → Type 0
IsAfter d none t = Unit
IsAfter d (some last) t = last + d < t

-- Each time is more than `d` after the one before it.
abbrev pub AreSpaced : ℕ → Option ℕ → List ℕ → Type 0
AreSpaced d last [] = Unit
AreSpaced d last (t ∷ ts) = IsAfter d last t × AreSpaced d (some t) ts

module _ (item_interval : ℕ → ℕ → ℕ) where
  -- When the operations start that the boundary lets through.
  abbrev pub starts : List Operation → InventoryBoundary → List ℕ
  starts [] b = []
  starts ((cost, rs) ∷ os) b =
      let answer = before_operation item_interval cost rs b in
      with_start (start_of answer) (starts os answer.1)

  -- An operation that starts does so long enough after the last one, which it then is; else the last one
  -- is what it was.
  abbrev Waits : ℕ → InventoryBoundary → Option BoundaryResult × InventoryBoundary → Type 0
  Waits d b (some proceed, b') = (t : ℕ) × (b'.last_started ≡ some t) × IsAfter d b.last_started t
  Waits d b (some cancelled, b') = b'.last_started ≡ b.last_started
  Waits d b (none, b') = b'.last_started ≡ b.last_started

  IsAfter-elapsed :
      (d interval now t : ℕ) (last : Option ℕ)
      → d ≤ interval
      → now ≤ t
      → is_waiting item_interval last interval now ≡ false
      → IsAfter d last t
  IsAfter-elapsed d interval now t none le le' h = tt
  IsAfter-elapsed d interval now t (some last) le le' h = ground (arith, le, le', h)

  turn-Waits :
      (d cost : ℕ) (r : Reading) (b : InventoryBoundary)
      → d ≤ r.pacing.min_interval
      → r.now ≤ r.started
      → Waits d b (turn item_interval cost r b)
  unfolding turn pacing_interval
  turn-Waits d cost r b le le' = elim (Bool-cases r.is_cancelled) [
    | inl stops ↦ rw stops refl
    | inr going ↦ elim (Bool-cases r.is_paused) [
      | inl pauses ↦ rw (going, pauses) refl
      | inr runs ↦
          let interval = pacing_interval item_interval r.pacing cost in
          let long_enough : d ≤ interval = ground arith in
          elim (Bool-cases (is_waiting item_interval b.last_started interval r.now)) [
            | inl waits ↦ rw (going, runs, waits) refl
            | inr passed ↦ elim (Bool-cases r.interrupted) [
              | inl again ↦ rw (going, runs, passed, again) refl
              | inr starts ↦
                  rw (going, runs, passed, starts)
                    (
                      r.started,
                      refl,
                      IsAfter-elapsed d interval r.now r.started b.last_started long_enough le'
                          passed,
                    )
            ]
          ]
    ]
  ]

  Waits-continued :
      (d : ℕ) (b b' : InventoryBoundary) (o : Option BoundaryResult × InventoryBoundary)
      → b'.last_started ≡ b.last_started
      → Waits d b' o
      → Waits d b o
  Waits-continued d b b' (some proceed, b2) same (t, started, after) =
      (t, started, rw same at after)
  Waits-continued d b b' (some cancelled, b2) same kept = kept ∙ same
  Waits-continued d b b' (none, b2) same kept = kept ∙ same

  or_continued :
      (d cost : ℕ) (rs : List Reading) (b : InventoryBoundary)
      (o : Option BoundaryResult × InventoryBoundary)
      → Waits d b o
      → ((b' : InventoryBoundary) → Waits d b' (before_operation item_interval cost rs b'))
      → Waits d b (elim o.0 [
        | some result ↦ (some result, o.1)
        | none ↦ before_operation item_interval cost rs o.1
      ])
  or_continued d cost rs b (some proceed, b') h next = h
  or_continued d cost rs b (some cancelled, b') h next = h
  or_continued d cost rs b (none, b') h next = Waits-continued d b b' _ h (next b')

  before_operation-Waits :
      (d cost : ℕ) (rs : List Reading) (b : InventoryBoundary)
      → ArePaced d rs
      → Waits d b (before_operation item_interval cost rs b)
  unfolding before_operation
  before_operation-Waits d cost [] b h = refl
  before_operation-Waits d cost (r ∷ rs) b (le, le', rest) =
      or_continued d cost rs b (turn item_interval cost r b) (turn-Waits d cost r b le le')
        (λ b'. before_operation-Waits d cost rs b' rest)

  starts-after :
      (d : ℕ) (b : InventoryBoundary) (o : Option BoundaryResult × InventoryBoundary) (ts : List ℕ)
      → Waits d b o
      → AreSpaced d o.1.last_started ts
      → AreSpaced d b.last_started (with_start (start_of o) ts)
  starts-after d b (some proceed, b') ts (t, started, after) rest =
      rw started (after, rw started at rest)
  starts-after d b (some cancelled, b') ts kept rest = rw kept at rest
  starts-after d b (none, b') ts kept rest = rw kept at rest

  -- When the pacing asks for at least `d` at every turn of the boundary's loop, and the clock does not go
  -- back between a turn's test and the start of an operation, each operation that the boundary lets
  -- start does so more than `d` after the one before it, whatever their costs, and whichever pauses
  -- and cancellations come between.
  pub starts-AreSpaced :
      (d : ℕ) (os : List Operation) (b : InventoryBoundary)
      → AllPaced d os
      → AreSpaced d b.last_started (starts os b)
  starts-AreSpaced d [] b h = tt
  starts-AreSpaced d ((cost, rs) ∷ os) b (paced, rest) =
      starts-after d b (before_operation item_interval cost rs b) _
        (before_operation-Waits d cost rs b paced)
        (starts-AreSpaced d os (before_operation item_interval cost rs b).1 rest)
