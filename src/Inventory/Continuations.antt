-- ===== src/Inventory/Continuations.antt =====
-- opc-da-client/src/inventory.rs and inventory/da3.rs: the continuation tokens in the requests for the
-- pages of a branch of an OPC DA 3.0 server.
use mathlib.Core.Path.{subst}
use opc_cli.Prelude.{ℕ, ◌≡◌, refl, Bool, false, Option, none, some, List, [], ◌∷◌, Text}
use opc_cli.Browse.Da2.{has_text}
use opc_cli.Inventory.State.{
  InventoryResult, ok, err, BranchLocation, BranchWork, unvisited, InventoryContinuation, da3_page,
  da2_page, InventoryPage,
}
use opc_cli.Inventory.Da3.{next_da3_page, Da3Request, Da3Call, da3_request}
use opc_cli.Inventory.Nodes.{Walk}
use opc_cli.Inventory.Walk.{push_back_work}
use opc_cli.Inventory.Entries.{Distinct}
use opc_cli.Inventory.Taken.{
  AllNew, AllNew-head, TakenContinuation, TakenPage, next_da3_page-TakenPage,
}

abbrev NewTokens : BranchWork → List Text → Type 0
NewTokens work ts = Distinct ts × AllNew ts work.da3_seen_continuations

-- The continuation points of requests.
abbrev pub continuations : List Da3Request → List (Option Text)
continuations [] = []
continuations (r ∷ rs) = r.continuation ∷ continuations rs

abbrev pub all_some : List Text → List (Option Text)
all_some [] = []
all_some (t ∷ ts) = some t ∷ all_some ts

module _ (debug : Text → Text) (rate : ℕ → ℕ → ℕ) (cancels accepts : ℕ → Bool) (w : Walk) where
  -- The requests of the branch that is first in the queue, if there is one.
  abbrev queued : (BranchWork → List Da3Request) → List BranchWork → List Da3Request
  queued rest [] = []
  queued rest (work ∷ works) = rest work

  -- The requests after a page: those of the branch that the traversal puts back, if it does.
  abbrev followed :
      (BranchWork → List Da3Request) → InventoryResult InventoryPage × BranchWork → List Da3Request
  followed rest (err e, work) = []
  followed rest (ok page, work) =
      queued rest
        (push_back_work debug rate cancels accepts page.continuation work
          (record w { queue = [] })).queue

  -- The requests that are made for the pages of a branch, one for each turn with it, up to the last page
  -- or an error; a turn has its batch size and what the call answers. A branch that is put back is at
  -- the front of the queue, so that the next turn is with it.
  abbrev pub requests : Option Text → List (ℕ × Da3Call) → BranchWork → List Da3Request
  requests item_id [] work = []
  requests item_id ((batch_size, call) ∷ turns) work =
      da3_request batch_size item_id work
      ∷ followed (requests item_id turns) (next_da3_page debug batch_size call item_id work)

  -- The requests carry tokens, all new.
  abbrev CarryNew : BranchWork → List Da3Request → Type 0
  CarryNew work rs = (ts : List Text) × (continuations rs ≡ all_some ts) × NewTokens work ts

  -- What holds of the requests of a branch: the first carries the token that the branch keeps.
  abbrev Carry : BranchWork → List Da3Request → Type 0
  Carry work [] = Unit
  Carry work (r ∷ rs) = (r.continuation ≡ work.da3_continuation) × CarryNew work rs

  put_back-CarryNew :
      (work next : BranchWork) (v : Text) (rs : List Da3Request)
      → has_text v work.da3_seen_continuations ≡ false
      → next.da3_seen_continuations ≡ v ∷ work.da3_seen_continuations
      → next.da3_continuation ≡ some v
      → Carry next rs
      → CarryNew work rs
  put_back-CarryNew work next v [] new remembered kept carried = ([], refl, (tt, tt))
  put_back-CarryNew work next v (r ∷ rs) new remembered kept (first, (ts, same, (distinct, news))) =
      let news' : AllNew ts (v ∷ work.da3_seen_continuations) =
        subst (λ seen. AllNew ts seen) remembered news in
      let (fresh, older) = AllNew-head v ts work.da3_seen_continuations news' in
      (v ∷ ts, rw (first, kept, same) refl, ((fresh, distinct), (new, older)))

  put_back_work-CarryNew :
      (work work' : BranchWork) (c : Option InventoryContinuation)
      (rest : BranchWork → List Da3Request)
      → TakenContinuation debug work work' c
      → ((next : BranchWork) → Carry next (rest next))
      → CarryNew work (
          queued rest
            (push_back_work debug rate cancels accepts c work' (record w { queue = [] })).queue)
  unfolding push_back_work
  put_back_work-CarryNew work work' none rest h later = ([], refl, (tt, tt))
  put_back_work-CarryNew work work' (some (da2_page state)) rest h later = elim h [ ]
  put_back_work-CarryNew work work' (some (da3_page v)) rest (new, remembered, few) later =
      let next = record work' { da3_continuation = some v } in
      put_back-CarryNew work next v (rest next) new remembered refl (later next)

  followed-CarryNew :
      (work : BranchWork) (r : InventoryResult InventoryPage × BranchWork)
      (rest : BranchWork → List Da3Request)
      → TakenPage debug work r
      → ((next : BranchWork) → Carry next (rest next))
      → CarryNew work (followed rest r)
  followed-CarryNew work (err e, work') rest h later = ([], refl, (tt, tt))
  followed-CarryNew work (ok page, work') rest h later =
      put_back_work-CarryNew work work' page.continuation rest h later

  requests-Carry :
      (item_id : Option Text) (turns : List (ℕ × Da3Call)) (work : BranchWork)
      → Carry work (requests item_id turns work)
  requests-Carry item_id [] work = tt
  requests-Carry item_id ((batch_size, call) ∷ turns) work = (
    refl,
    followed-CarryNew work (next_da3_page debug batch_size call item_id work)
        (requests item_id turns) (next_da3_page-TakenPage debug batch_size call item_id work)
        (requests-Carry item_id turns),
  )

  -- Whatever the server answers, of the requests for the pages of a branch the first carries no
  -- continuation token, each later one carries one, and no two carry the same.
  pub tokens-Distinct :
      (item_id : Option Text) (batch_size : ℕ) (call : Da3Call) (turns : List (ℕ × Da3Call))
      (location : BranchLocation) (breadcrumbs : List Text)
      → let asked =
          requests item_id ((batch_size, call) ∷ turns) (unvisited location breadcrumbs) in
        (ts : List Text) × (continuations asked ≡ none ∷ all_some ts) × Distinct ts
  tokens-Distinct item_id batch_size call turns location breadcrumbs =
      let work = unvisited location breadcrumbs in
      let (first, (ts, same, (distinct, news))) =
        requests-Carry item_id ((batch_size, call) ∷ turns) work in
      (ts, rw same refl, distinct)
