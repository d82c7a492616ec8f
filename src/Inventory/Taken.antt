-- ===== src/Inventory/Taken.antt =====
-- opc-da-client/src/inventory/da3.rs: what a page of an OPC DA 3.0 branch takes of the continuation tokens.
use mathlib.Core.Bool.{true≢false}
use opc_cli.Prelude.{
  ℕ, ◌<◌, ◌≡◌, refl, sym, ◌∙◌, Bool, true, false, Option, none, some, List, [], ◌∷◌, Text, text_eq,
  text_eq_refl, eq_of_text_eq, is_empty, leb, arith, Bool-cases, inl, inr,
}
use opc_cli.Server.{NativeBrowsePage}
use opc_cli.Browse.Da2.{has_text}
use opc_cli.Telemetry.Histogram.{add_u64}
use opc_cli.Inventory.State.{
  InventoryResult, ok, err, BranchWork, InventoryNode, InventoryContinuation, da3_page, da2_page,
  InventoryPage,
}
use opc_cli.Inventory.Da3.{
  next_continuation, take_token, count_empty_page, received_page, next_da3_page, da3_result,
  map_da3_page, no_elements, Da3Call, da3_request,
}

text_eq_swap : (a b : Text) → text_eq a b ≡ false → text_eq b a ≡ false
text_eq_swap a b h = elim (Bool-cases (text_eq b a)) [
  | inl same ↦
      let e : text_eq a b ≡ true = rw (eq_of_text_eq b a same) (text_eq_refl a) in
      absurd (true≢false (sym e ∙ h))
  | inr other ↦ other
]

-- No text of the first list is in the second.
abbrev pub AllNew : List Text → List Text → Type 0
AllNew [] seen = Unit
AllNew (t ∷ ts) seen = (has_text t seen ≡ false) × AllNew ts seen

-- New against a longer list.
pub AllNew-head :
    (v : Text) (ts seen : List Text)
    → AllNew ts (v ∷ seen)
    → (has_text v ts ≡ false) × AllNew ts seen
unfolding has_text
AllNew-head v [] seen h = (refl, tt)
AllNew-head v (t ∷ ts) seen (new, rest) =
    let (fresh, news) = AllNew-head v ts seen rest in
    let apart : text_eq v t ≡ false = ground (arith, new) in
    let unseen : has_text t seen ≡ false = ground (arith, new) in
    let swapped : text_eq t v ≡ false = text_eq_swap v t apart in
    (rw (swapped, fresh) refl, (unseen, news))

module _ (debug : Text → Text) where
  -- The token is new and is remembered, and empty pages in a row are limited.
  abbrev Taken : BranchWork → InventoryResult (Option Text) × BranchWork → Type 0
  Taken work (err e, work') = Unit
  Taken work (ok none, work') = Unit
  Taken work (ok (some v), work') =
      (has_text v work.da3_seen_continuations ≡ false)
      × (work'.da3_seen_continuations ≡ v ∷ work.da3_seen_continuations)
      × (work'.da3_consecutive_empty_pages < 64)

  count_empty_page-Taken :
      (empty : Bool) (v : Text) (work : BranchWork)
      → has_text v work.da3_seen_continuations ≡ false
      → Taken work (
          count_empty_page debug empty v
            (record work { da3_seen_continuations = v ∷ work.da3_seen_continuations }))
  unfolding count_empty_page
  count_empty_page-Taken false v work new = (new, refl, omega arith)
  count_empty_page-Taken true v work new =
      elim (Bool-cases (leb 64 (add_u64 work.da3_consecutive_empty_pages 1))) [
        | inl many ↦ rw many tt
        | inr few ↦ rw few (new, refl, ground (arith, few))
      ]

  take_token-Taken :
      (empty : Bool) (v : Text) (work : BranchWork) → Taken work (take_token debug empty v work)
  unfolding take_token
  take_token-Taken empty v work = elim (Bool-cases (is_empty v)) [
    | inl blank ↦ rw blank tt
    | inr visible ↦ elim (Bool-cases (has_text v work.da3_seen_continuations)) [
      | inl old ↦ rw (visible, old) tt
      | inr new ↦ rw (visible, new) (count_empty_page-Taken empty v work new)
    ]
  ]

  next_continuation-Taken :
      (more : Bool) (continuation : Option Text) (empty : Bool) (work : BranchWork)
      → Taken work (next_continuation debug more continuation empty work)
  unfolding next_continuation
  next_continuation-Taken false continuation empty work = tt
  next_continuation-Taken true none empty work = tt
  next_continuation-Taken true (some v) empty work = take_token-Taken empty v work

  -- The same of a page.
  abbrev pub TakenContinuation : BranchWork → BranchWork → Option InventoryContinuation → Type 0
  TakenContinuation work work' none = Unit
  TakenContinuation work work' (some (da2_page state)) = ⊥
  TakenContinuation work work' (some (da3_page v)) =
      (has_text v work.da3_seen_continuations ≡ false)
      × (work'.da3_seen_continuations ≡ v ∷ work.da3_seen_continuations)
      × (work'.da3_consecutive_empty_pages < 64)

  abbrev pub TakenPage : BranchWork → InventoryResult InventoryPage × BranchWork → Type 0
  TakenPage work (err e, work') = Unit
  TakenPage work (ok page, work') = TakenContinuation work work' page.continuation

  da3_result-TakenPage :
      (work : BranchWork) (r : InventoryResult (Option Text) × BranchWork)
      (nodes : InventoryResult (List InventoryNode))
      → Taken work r
      → TakenPage work (da3_result r nodes)
  da3_result-TakenPage work (err e, work') nodes h = tt
  da3_result-TakenPage work (ok none, work') (ok nodes) h = tt
  da3_result-TakenPage work (ok none, work') (err e) h = tt
  da3_result-TakenPage work (ok (some v), work') (ok nodes) h = h
  da3_result-TakenPage work (ok (some v), work') (err e) h = tt

  received_page-TakenPage :
      (item_id : Option Text) (work : BranchWork) (answer : InventoryResult NativeBrowsePage)
      → TakenPage work (received_page debug item_id work answer)
  unfolding received_page
  received_page-TakenPage item_id work (err e) = tt
  received_page-TakenPage item_id work (ok page) =
      da3_result-TakenPage work _ (map_da3_page page.elements) (
        next_continuation-Taken page.more_elements page.continuation (no_elements page.elements)
          work)

  pub next_da3_page-TakenPage :
      (batch_size : ℕ) (call : Da3Call) (item_id : Option Text) (work : BranchWork)
      → TakenPage work (next_da3_page debug batch_size call item_id work)
  unfolding next_da3_page
  next_da3_page-TakenPage batch_size call item_id work =
      received_page-TakenPage item_id work (call (da3_request batch_size item_id work))
