-- ===== src/Inventory/Turned.antt =====
-- A turn of the traversal reports nothing, and the loop is left early or when no branch waits.
use opc_cli.Prelude.{
  ℕ, ◌≡◌, refl, ap, ◌∙◌, ◌⊎◌, Bool, true, false, not, ◌&&◌, ◌||◌, Option, none, some, List, [], ◌∷◌,
  Text, Bool-cases, inl, inr,
}
use opc_cli.Errors.{OpcError, is_da3_browse_compatibility_error}
use opc_cli.Control.{InventoryOptions}
use opc_cli.Inventory.State.{
  was_cancelled, failed, invalid_da2_branch, InventoryResult, ok, err, BranchLocation, da3_branch,
  da2_branch, BranchWork, InventoryContinuation, InventoryPage, is_initial_da3_root,
}
use opc_cli.Inventory.Progress.{slice}
use opc_cli.Inventory.Nodes.{
  Walk, Turn, Next, continues, breaks, returns, send_progress, take_nodes,
}
use opc_cli.Inventory.Walk.{
  or_cancelled, progress_sent, push_back_work, end_slice, take_page, count_page, slice_of,
  page_failed, restart, after_page, after_call, next_page, visit, walk,
}
use opc_cli.Inventory.Complete.{
  IsUnreported, cancelled-IsUnreported, send_event-IsUnreported, take_nodes-IsUnreported,
}

module _ (debug : Text → Text) (rate : ℕ → ℕ → ℕ) (cancels accepts : ℕ → Bool)
    (options : InventoryOptions) where
  abbrev pub Unreported : Walk → Type 0
  Unreported w = IsUnreported debug rate cancels accepts options w

  -- The loop was left early, or no branch waits.
  abbrev pub Left : Walk → Type 0
  Left w = Unreported w × ((w.terminal.complete ≡ false) ⊎ (w.queue ≡ []))

  abbrev pub Turned : Next → Type 0
  Turned (continues w) = Unreported w
  Turned (breaks w) = Left w
  Turned (returns e w) = Unreported w

  progress-Turned :
      (r : Bool × Walk) → Unreported r.1 → Turned (progress_sent debug rate cancels accepts r)
  progress-Turned (true, w) h = h
  progress-Turned (false, w) h =
      (cancelled-IsUnreported debug rate cancels accepts options w h, inl refl)

  or_cancelled-Unreported :
      (r : Bool × Walk) → Unreported r.1 → Unreported (or_cancelled debug rate cancels accepts r)
  or_cancelled-Unreported (true, w) h = h
  or_cancelled-Unreported (false, w) h =
      cancelled-IsUnreported debug rate cancels accepts options w h

  push_back_work-Unreported :
      (c : Option InventoryContinuation) (work : BranchWork) (w : Walk)
      → Unreported w
      → Unreported (push_back_work debug rate cancels accepts c work w)
  unfolding push_back_work
  push_back_work-Unreported none work w h = h
  push_back_work-Unreported (some c) work w h = record { silent = h.silent; flags = h.flags }

  pub send_progress-Unreported :
      (paused : ℕ) (w : Walk)
      → Unreported w
      → Unreported (send_progress debug rate cancels accepts paused w).1
  unfolding send_progress
  send_progress-Unreported paused w h =
      send_event-IsUnreported debug rate cancels accepts options _ w refl h

  end_slice-Turned :
      (paused : ℕ) (c : Option InventoryContinuation) (work : BranchWork) (w : Walk)
      → Unreported w
      → Turned (end_slice debug rate cancels accepts paused c work w)
  unfolding end_slice
  end_slice-Turned paused c work w h =
      elim (Bool-cases (w.terminal.cancelled || w.terminal.truncated)) [
        | inl flagged ↦ rw flagged (h, inl (h.flags ∙ ap not flagged))
        | inr unflagged ↦ rw unflagged (
            progress-Turned _
              (send_progress-Unreported paused _ (push_back_work-Unreported c work w h)))
      ]

  take_page-Turned :
      (t : Turn) (work : BranchWork) (page : InventoryPage) (w : Walk)
      → Unreported w
      → Turned (take_page debug rate cancels accepts options t work page w)
  unfolding take_page
  take_page-Turned t work page w h =
      let counted = count_page debug rate cancels accepts page w in
      let w1 = take_nodes debug rate cancels accepts options work.breadcrumbs page.nodes counted in
      let h1 : Unreported w1 =
        take_nodes-IsUnreported debug rate cancels accepts options work.breadcrumbs page.nodes
          counted (record { silent = h.silent; flags = h.flags }) in
      end_slice-Turned t.paused_time page.continuation work _ (
        or_cancelled-Unreported _ (
          send_event-IsUnreported debug rate cancels accepts options
            (slice (slice_of debug rate cancels accepts t work page w1)) w1 refl h1))

  page_failed-Turned :
      (root : Option Text) (t : Turn) (work : BranchWork) (e : OpcError) (w : Walk)
      → Unreported w
      → Turned (page_failed debug rate cancels accepts root t work e w)
  unfolding page_failed restart
  page_failed-Turned root t work e w h =
      elim (Bool-cases (
        is_initial_da3_root work
        && (w.terminal.capabilities.supports_da2 && is_da3_browse_compatibility_error e))) [
          | inl compatible ↦ rw compatible (record { silent = h.silent; flags = h.flags })
          | inr other ↦ rw other (send_progress-Unreported t.paused_time w h)
        ]

  after_page-Turned :
      (root : Option Text) (t : Turn) (r : InventoryResult InventoryPage × BranchWork) (w : Walk)
      → Unreported w
      → Turned (after_page debug rate cancels accepts root options t r w)
  unfolding after_page
  after_page-Turned root t (ok page, work) w h = take_page-Turned t work page w h
  after_page-Turned root t (err was_cancelled, work) w h =
      (cancelled-IsUnreported debug rate cancels accepts options w h, inl refl)
  after_page-Turned root t (err (failed e), work) w h = page_failed-Turned root t work e w h
  after_page-Turned root t (err (invalid_da2_branch parent_path name), work) w h = record {
    silent = h.silent;
    flags = h.flags;
  }

  -- By the kind of the branch.
  context-Unreported :
      (location : BranchLocation) (t : Turn) (w : Walk)
      → Unreported w
      → Unreported (elim location [
        | da3_branch item_id ↦ w
        | da2_branch path ↦ record w {
          current_da2_path = t.da2_path;
          skipped_invalid_branches = t.skipped_invalid;
          skipped_non_progressing_branches = t.skipped_non_progressing;
        }
      ])
  context-Unreported (da3_branch item_id) t w h = h
  context-Unreported (da2_branch path) t w h = record { silent = h.silent; flags = h.flags }

  visit-Turned :
      (root : Option Text) (t : Turn) (work : BranchWork) (w : Walk)
      → Unreported w
      → Turned (visit debug rate cancels accepts root options t work w)
  unfolding visit after_call
  visit-Turned root t work w h =
      after_page-Turned root t (next_page debug rate cancels accepts options t work) _
        (context-Unreported work.location t _ (record { silent = h.silent; flags = h.flags }))

  -- After a turn, by how it ended.
  turn-Turned :
      (root : Option Text) (ts : List Turn) (r : Next)
      → Turned r
      → ((w : Walk) → Unreported w → Turned (walk debug rate cancels accepts root options ts w))
      → Turned (elim r [
        | continues w1 ↦ walk debug rate cancels accepts root options ts w1
        | breaks w1 ↦ breaks w1
        | returns e w1 ↦ returns e w1
      ])
  turn-Turned root ts (continues w) h rest = rest w h
  turn-Turned root ts (breaks w) h rest = h
  turn-Turned root ts (returns e w) h rest = h

  -- By the branch that is first in the queue.
  queue-Turned :
      (q : List BranchWork) (root : Option Text) (t : Turn) (ts : List Turn) (w : Walk)
      → w.queue ≡ q
      → Unreported w
      → ((w : Walk) → Unreported w → Turned (walk debug rate cancels accepts root options ts w))
      → Turned (walk debug rate cancels accepts root options (t ∷ ts) w)
  unfolding walk
  queue-Turned [] root t ts w e h rest = rw (e, walk) (h, inr e)
  queue-Turned (work ∷ works) root t ts w e h rest =
      let w1 = record w { queue = works } in
      rw (e, walk)
        (turn-Turned root ts (visit debug rate cancels accepts root options t work w1)
          (visit-Turned root t work w1 (record { silent = h.silent; flags = h.flags })) rest)

  pub walk-Turned :
      (root : Option Text) (ts : List Turn) (w : Walk)
      → Unreported w
      → Turned (walk debug rate cancels accepts root options ts w)
  unfolding walk
  walk-Turned root [] w h = h
  walk-Turned root (t ∷ ts) w h = queue-Turned w.queue root t ts w refl h (walk-Turned root ts)
