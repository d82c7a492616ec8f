-- ===== src/Inventory/Once.antt =====
-- Every turn of the traversal, and so the traversal, sends each item once.
use mathlib.Core.Bool.{true≢false}
use opc_cli.Prelude.{
  ℕ, ◌≡◌, refl, Bool, ◌&&◌, ◌||◌, Option, none, some, List, [], ◌∷◌, Text, Bool-cases, inl, inr,
}
use opc_cli.Errors.{OpcError, is_da3_browse_compatibility_error}
use opc_cli.Control.{InventoryOptions}
use opc_cli.Inventory.State.{
  was_cancelled, failed, invalid_da2_branch, InventoryResult, ok, err, BranchLocation, da3_branch,
  da2_branch, BranchWork, InventoryContinuation, InventoryPage, is_initial_da3_root,
}
use opc_cli.Inventory.Progress.{slice, InventorySliceObservation}
use opc_cli.Inventory.Nodes.{
  Walk, Turn, Next, continues, breaks, returns, send_event, send_progress, take_nodes,
}
use opc_cli.Inventory.Walk.{
  or_cancelled, progress_sent, push_back_work, take_page, end_slice, count_page, slice_of,
  page_failed, restart, after_page, after_call, next_page, visit, walk,
}
use opc_cli.Inventory.Entries.{IsGoing, IsEnded, IsGoing-IsEnded, AfterNodes, take_nodes-AfterNodes}

module _ (debug : Text → Text) (rate : ℕ → ℕ → ℕ) (cancels accepts : ℕ → Bool)
    (options : InventoryOptions) where
  abbrev Going : Walk → Type 0
  Going w = IsGoing debug rate cancels accepts options w

  abbrev Ended : Walk → Type 0
  Ended w = IsEnded debug rate cancels accepts options w

  abbrev pub NextHolds : Next → Type 0
  NextHolds (continues w) = Going w
  NextHolds (breaks w) = Ended w
  NextHolds (returns e w) = Ended w

  Going-Ended : (w : Walk) → Going w → Ended w
  Going-Ended w h = IsGoing-IsEnded debug rate cancels accepts options w h

  slice-AfterNodes :
      (o : InventorySliceObservation) (w : Walk)
      → AfterNodes debug rate cancels accepts options w
      → AfterNodes debug rate cancels accepts options (
          or_cancelled debug rate cancels accepts
            (send_event debug rate cancels accepts (slice o) w))
  unfolding send_event
  slice-AfterNodes o w (ended, going) = elim (Bool-cases (accepts w.sends)) [
    | inl taken ↦ rw taken (
      record { once = ended.once; within = ended.within },
      λ unflagged.
          let h = going unflagged in record { distinct = h.distinct; same = h.same; room = h.room },
    )
    | inr refused ↦ rw refused (
      record { once = ended.once; within = ended.within },
      λ unflagged. absurd (true≢false unflagged),
    )
  ]

  progress-NextHolds :
      (paused : ℕ) (w : Walk)
      → Going w
      → NextHolds (
          progress_sent debug rate cancels accepts
            (send_progress debug rate cancels accepts paused w))
  unfolding send_progress send_event
  progress-NextHolds paused w h =
      let ended = Going-Ended w h in
      elim (Bool-cases (accepts w.sends)) [
        | inl taken ↦ rw taken (record { distinct = h.distinct; same = h.same; room = h.room })
        | inr refused ↦ rw refused (record { once = ended.once; within = ended.within })
      ]

  push_back_work-Going :
      (c : Option InventoryContinuation) (work : BranchWork) (w : Walk)
      → Going w
      → Going (push_back_work debug rate cancels accepts c work w)
  unfolding push_back_work
  push_back_work-Going none work w h = h
  push_back_work-Going (some c) work w h = record {
    distinct = h.distinct;
    same = h.same;
    room = h.room;
  }

  end_slice-NextHolds :
      (paused : ℕ) (c : Option InventoryContinuation) (work : BranchWork) (w : Walk)
      → AfterNodes debug rate cancels accepts options w
      → NextHolds (end_slice debug rate cancels accepts paused c work w)
  unfolding end_slice
  end_slice-NextHolds paused c work w (ended, going) =
      elim (Bool-cases (w.terminal.cancelled || w.terminal.truncated)) [
        | inl flagged ↦ rw flagged ended
        | inr unflagged ↦ rw unflagged (
            progress-NextHolds paused (push_back_work debug rate cancels accepts c work w)
              (push_back_work-Going c work w (going unflagged)))
      ]

  take_page-NextHolds :
      (t : Turn) (work : BranchWork) (page : InventoryPage) (w : Walk)
      → Going w
      → NextHolds (take_page debug rate cancels accepts options t work page w)
  unfolding take_page
  take_page-NextHolds t work page w h =
      let counted = count_page debug rate cancels accepts page w in
      let w1 = take_nodes debug rate cancels accepts options work.breadcrumbs page.nodes counted in
      end_slice-NextHolds t.paused_time page.continuation work _ (
        slice-AfterNodes (slice_of debug rate cancels accepts t work page w1) w1 (
          take_nodes-AfterNodes debug rate cancels accepts options work.breadcrumbs page.nodes
            counted (record { distinct = h.distinct; same = h.same; room = h.room })))

  page_failed-NextHolds :
      (root : Option Text) (t : Turn) (work : BranchWork) (e : OpcError) (w : Walk)
      → Going w
      → NextHolds (page_failed debug rate cancels accepts root t work e w)
  unfolding page_failed restart send_progress send_event
  page_failed-NextHolds root t work e w h =
      let ended = Going-Ended w h in
      elim (Bool-cases (
        is_initial_da3_root work
        && (w.terminal.capabilities.supports_da2 && is_da3_browse_compatibility_error e))) [
          | inl compatible ↦
              rw compatible (record { distinct = h.distinct; same = h.same; room = h.room })
          | inr other ↦ rw other (elim (Bool-cases (accepts w.sends)) [
            | inl taken ↦ rw taken (record { once = ended.once; within = ended.within })
            | inr refused ↦ rw refused (record { once = ended.once; within = ended.within })
          ])
        ]

  after_page-NextHolds :
      (root : Option Text) (t : Turn) (r : InventoryResult InventoryPage × BranchWork) (w : Walk)
      → Going w
      → NextHolds (after_page debug rate cancels accepts root options t r w)
  unfolding after_page
  after_page-NextHolds root t (ok page, work) w h = take_page-NextHolds t work page w h
  after_page-NextHolds root t (err was_cancelled, work) w h =
      let ended = Going-Ended w h in record { once = ended.once; within = ended.within }
  after_page-NextHolds root t (err (failed e), work) w h = page_failed-NextHolds root t work e w h
  after_page-NextHolds root t (err (invalid_da2_branch parent_path name), work) w h = record {
    distinct = h.distinct;
    same = h.same;
    room = h.room;
  }

  -- By the kind of the branch.
  context-Going :
      (location : BranchLocation) (t : Turn) (w : Walk)
      → Going w
      → Going (elim location [
        | da3_branch item_id ↦ w
        | da2_branch path ↦ record w {
          current_da2_path = t.da2_path;
          skipped_invalid_branches = t.skipped_invalid;
          skipped_non_progressing_branches = t.skipped_non_progressing;
        }
      ])
  context-Going (da3_branch item_id) t w h = h
  context-Going (da2_branch path) t w h = record {
    distinct = h.distinct;
    same = h.same;
    room = h.room;
  }

  after_call-Going :
      (t : Turn) (work : BranchWork) (w : Walk)
      → Going w
      → Going (after_call debug rate cancels accepts t work w)
  unfolding after_call
  after_call-Going t work w h =
      context-Going work.location t _
        (record { distinct = h.distinct; same = h.same; room = h.room })

  visit-NextHolds :
      (root : Option Text) (t : Turn) (work : BranchWork) (w : Walk)
      → Going w
      → NextHolds (visit debug rate cancels accepts root options t work w)
  unfolding visit
  visit-NextHolds root t work w h =
      after_page-NextHolds root t (next_page debug rate cancels accepts options t work) _
        (after_call-Going t work _ (record { distinct = h.distinct; same = h.same; room = h.room }))

  -- After a turn, by how it ended.
  turn-NextHolds :
      (root : Option Text) (ts : List Turn) (r : Next)
      → NextHolds r
      → ((w : Walk) → Going w → NextHolds (walk debug rate cancels accepts root options ts w))
      → NextHolds (elim r [
        | continues w1 ↦ walk debug rate cancels accepts root options ts w1
        | breaks w1 ↦ breaks w1
        | returns e w1 ↦ returns e w1
      ])
  turn-NextHolds root ts (continues w) h rest = rest w h
  turn-NextHolds root ts (breaks w) h rest = h
  turn-NextHolds root ts (returns e w) h rest = h

  -- By the branch that is first in the queue.
  queue-NextHolds :
      (q : List BranchWork) (root : Option Text) (t : Turn) (ts : List Turn) (w : Walk)
      → w.queue ≡ q
      → Going w
      → ((w : Walk) → Going w → NextHolds (walk debug rate cancels accepts root options ts w))
      → NextHolds (walk debug rate cancels accepts root options (t ∷ ts) w)
  unfolding walk
  queue-NextHolds [] root t ts w e h rest = rw (e, walk) (Going-Ended w h)
  queue-NextHolds (work ∷ works) root t ts w e h rest =
      let w1 = record w { queue = works } in
      rw (e, walk)
        (turn-NextHolds root ts (visit debug rate cancels accepts root options t work w1)
          (visit-NextHolds root t work w1
            (record { distinct = h.distinct; same = h.same; room = h.room }))
          rest)

  pub walk-NextHolds :
      (root : Option Text) (ts : List Turn) (w : Walk)
      → Going w
      → NextHolds (walk debug rate cancels accepts root options ts w)
  unfolding walk
  walk-NextHolds root [] w h = h
  walk-NextHolds root (t ∷ ts) w h =
      queue-NextHolds w.queue root t ts w refl h (walk-NextHolds root ts)
