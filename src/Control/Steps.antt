-- ===== src/Control/Steps.antt =====
-- What holds of a control handle after any sequence of operations on it and its clones.
use opc_cli.Prelude.{
  ℕ, ◌≤◌, ◌≡◌, ◌⊎◌, inr, refl, ◌∙◌, true, List, [], ◌∷◌, Option, none, some, arith,
}
use opc_cli.Control.{
  max_inventory_batch_size, InventoryControl, InventoryPacing, new_with_batch_size,
  cancel_with_reason, cancel, pause, resume, set_pacing, rate_or_zero, rate_option, pacing,
  set_batch_size, read_batch_size, is_cancelled,
}

pub data Operation : Type 0 where
  cancelling pausing resuming : Operation
  pacing_as : InventoryPacing → Operation
  batching_by : ℕ → Operation

abbrev pub operate : Operation → InventoryControl → InventoryControl
operate cancelling c = cancel c
operate pausing c = pause c
operate resuming c = resume c
operate (pacing_as p) c = set_pacing p c
operate (batching_by n) c = (set_batch_size n c).1

abbrev pub operate_all : List Operation → InventoryControl → InventoryControl
operate_all [] c = c
operate_all (o ∷ os) c = operate_all os (operate o c)

set_batch_size-cancelled :
    (n : ℕ) (c : InventoryControl) → (set_batch_size n c).1.cancelled ≡ c.cancelled
unfolding set_batch_size
set_batch_size-cancelled n c = ground arith

operate-cancelled :
    (o : Operation) (c : InventoryControl) → c.cancelled ≡ true → (operate o c).cancelled ≡ true
unfolding cancel cancel_with_reason pause resume set_pacing
operate-cancelled cancelling c h = refl
operate-cancelled pausing c h = h
operate-cancelled resuming c h = h
operate-cancelled (pacing_as p) c h = h
operate-cancelled (batching_by n) c h = set_batch_size-cancelled n c ∙ h

operate_all-cancelled :
    (os : List Operation) (c : InventoryControl)
    → c.cancelled ≡ true
    → (operate_all os c).cancelled ≡ true
operate_all-cancelled [] c h = h
operate_all-cancelled (o ∷ os) c h =
    operate_all-cancelled os (operate o c) (operate-cancelled o c h)

-- A handle that has been cancelled is cancelled after any further operations, resuming included.
pub cancelled_for_good :
    (os : List Operation) (c : InventoryControl) → is_cancelled (operate_all os (cancel c)) ≡ true
unfolding is_cancelled cancel cancel_with_reason
cancelled_for_good os c = operate_all-cancelled os (cancel c) refl

-- No batch size yet, or one that a slice may have.
abbrev InRange : InventoryControl → Type 0
InRange c = (c.batch_size ≡ 0) ⊎ ((1 ≤ c.batch_size) × (c.batch_size ≤ max_inventory_batch_size))

set_batch_size-InRange : (n : ℕ) (c : InventoryControl) → InRange c → InRange (set_batch_size n c).1
unfolding set_batch_size
set_batch_size-InRange n c h = ground arith

operate-InRange : (o : Operation) (c : InventoryControl) → InRange c → InRange (operate o c)
unfolding cancel cancel_with_reason pause resume set_pacing
operate-InRange cancelling c h = h
operate-InRange pausing c h = h
operate-InRange resuming c h = h
operate-InRange (pacing_as p) c h = h
operate-InRange (batching_by n) c h = set_batch_size-InRange n c h

operate_all-InRange :
    (os : List Operation) (c : InventoryControl) → InRange c → InRange (operate_all os c)
operate_all-InRange [] c h = h
operate_all-InRange (o ∷ os) c h = operate_all-InRange os (operate o c) (operate-InRange o c h)

abbrev pub IsBatchSize : Option ℕ → Type 0
IsBatchSize none = Unit
IsBatchSize (some n) = (1 ≤ n) × (n ≤ max_inventory_batch_size)

read_batch_size-InRange : (c : InventoryControl) → InRange c → IsBatchSize (read_batch_size c)
unfolding read_batch_size
read_batch_size-InRange c h = ground arith

-- Whatever operations a handle made for a batch size from 1 to 1,000 has seen, the refused sizes
-- included, the batch size read from it is none or one from 1 to 1,000.
operate_all-IsBatchSize :
    (os : List Operation) (n : ℕ)
    → 1 ≤ n
    → n ≤ max_inventory_batch_size
    → IsBatchSize (read_batch_size (operate_all os (new_with_batch_size n)))
unfolding new_with_batch_size
operate_all-IsBatchSize os n low high =
    read_batch_size-InRange (operate_all os (new_with_batch_size n))
      (operate_all-InRange os (new_with_batch_size n) (inr (low, high)))

-- A rate that the control can hold: a u32 other than 0.
abbrev pub IsRate : Option ℕ → Type 0
IsRate none = Unit
IsRate (some r) = (1 ≤ r) × (r ≤ 4294967295)

rate_option-rate_or_zero : (r : Option ℕ) → IsRate r → rate_option (rate_or_zero r) ≡ r
unfolding rate_option
rate_option-rate_or_zero none h = refl
rate_option-rate_or_zero (some r) h = ground arith

-- The pacing that was set is the pacing read back, when its interval is below 2 ^ 64 nanoseconds
-- and its rate is not 0.
pacing-set_pacing :
    (p : InventoryPacing) (c : InventoryControl)
    → p.min_interval ≤ 18446744073709551615
    → IsRate p.item_rate_per_second
    → pacing (set_pacing p c) ≡ p
unfolding pacing set_pacing
pacing-set_pacing p c h r = grind (arith, rate_option-rate_or_zero p.item_rate_per_second r)
