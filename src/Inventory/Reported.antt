-- ===== src/Inventory/Reported.antt =====
-- A traversal that reports itself complete has visited every branch that waited.
use mathlib.Core.Bool.{true≢false, false≢true}
use opc_cli.Prelude.{
  ℕ, suc, ◌≡◌, refl, sym, ◌∙◌, ◌⊎◌, Bool, true, false, not, Option, List, [], ◌∷◌, Text,
  if◌then◌else◌, Bool-cases, inl, inr,
}
use opc_cli.Errors.{OpcError, is_da3_browse_compatibility_error}
use opc_cli.Errors as Errors
use opc_cli.Provider.{BrowseCapabilities}
use opc_cli.Telemetry.Collector.{Observation}
use opc_cli.Control.{InventoryOptions}
use opc_cli.Inventory.State.{InventoryResult, BranchWork}
use opc_cli.Inventory.Progress.{InventoryCompleted}
use opc_cli.Inventory.Nodes.{
  Walk, Turn, Next, continues, breaks, returns, cancelled_walk, truncated_walk, send_event,
  send_progress,
}
use opc_cli.Inventory.Walk.{walk}
use opc_cli.Inventory.Run.{
  ended, stopped, send_completed, finish, after_walk, run_walk, run_inventory_at_root, start_walk,
  capabilities_or_none, with_warnings, is_zero_limit, has_bad_batch, no_capabilities,
}
use opc_cli.Inventory.Items.{final_walk}
use opc_cli.Inventory.Complete.{reports, is_flagged, truncated-IsUnreported}
use opc_cli.Inventory.Turned.{Unreported, Left, Turned, walk-Turned, send_progress-Unreported}

-- Who reports a complete traversal has no branch that waits, and was neither cancelled nor cut short.
abbrev pub Honest : List BranchWork → List InventoryCompleted → Type 0
Honest waiting [] = Unit
Honest waiting (c ∷ cs) =
    (c.complete ≡ true → (waiting ≡ []) × (is_flagged c ≡ false)) × Honest waiting cs

module _ (debug : Text → Text) (rate : ℕ → ℕ → ℕ) (cancels accepts : ℕ → Bool)
    (options : InventoryOptions) where
  abbrev Reports : Walk → Type 0
  Reports w = Honest w.queue (reports w.sent)

  silent-Reports : (w : Walk) → reports w.sent ≡ [] → Reports w
  silent-Reports w silent = rw silent tt

  not-true : (b : Bool) → not b ≡ true → b ≡ false
  not-true true h = absurd (false≢true h)
  not-true false h = refl

  left_queue :
      (w : Walk)
      → (w.terminal.complete ≡ false) ⊎ (w.queue ≡ [])
      → w.terminal.complete ≡ true
      → w.queue ≡ []
  left_queue w (inl incomplete) h = absurd (true≢false (sym h ∙ incomplete))
  left_queue w (inr empty) h = empty

  send_completed-Reports :
      (w : Walk)
      → Left debug rate cancels accepts options w
      → Reports (send_completed debug rate cancels accepts w)
  unfolding send_completed send_event
  send_completed-Reports w (h, left) = elim (Bool-cases (accepts w.sends)) [
    | inl taken ↦
        rw (send_completed, taken, h.silent)
          (λ is. (left_queue w left is, not-true (is_flagged w.terminal) (sym h.flags ∙ is)), tt)
    | inr refused ↦ rw (send_completed, refused) (silent-Reports w h.silent)
  ]

  finish-Reports :
      (w : Walk)
      → Left debug rate cancels accepts options w
      → Reports (finish debug rate cancels accepts w)
  unfolding finish
  finish-Reports w (h, left) = elim (Bool-cases (cancels w.readings)) [
    | inl cancelled ↦ rw cancelled (
        send_completed-Reports
          (with_warnings (cancelled_walk (record w { readings = suc w.readings })))
          (record { silent = h.silent; flags = refl }, inl refl))
    | inr going ↦ rw going (
        send_completed-Reports (with_warnings (record w { readings = suc w.readings }))
          (record { silent = h.silent; flags = h.flags }, left))
  ]

  after_walk-Reports :
      (r : Next)
      → Turned debug rate cancels accepts options r
      → Reports (final_walk (after_walk debug rate cancels accepts r))
  after_walk-Reports (continues w) h = silent-Reports w h.silent
  after_walk-Reports (breaks w) h = finish-Reports w h
  after_walk-Reports (returns e w) h = silent-Reports w h.silent

  -- After the first progress event.
  delivered-Reports :
      (root : Option Text) (ts : List Turn) (r : Bool × Walk)
      → Unreported debug rate cancels accepts options r.1
      → Reports (
          final_walk (
            if not r.0
            then ended r.1
            else if is_zero_limit debug rate cancels accepts options.max_entries
            then ended (send_completed debug rate cancels accepts (truncated_walk r.1))
            else after_walk debug rate cancels accepts
                (walk debug rate cancels accepts root options ts r.1)))
  delivered-Reports root ts (false, w) h = silent-Reports w h.silent
  delivered-Reports root ts (true, w) h =
      elim (Bool-cases (is_zero_limit debug rate cancels accepts options.max_entries)) [
        | inl zero_limit ↦ rw zero_limit (
            send_completed-Reports _
              (truncated-IsUnreported debug rate cancels accepts options w h, inl refl))
        | inr above ↦
            rw above
              (after_walk-Reports _ (walk-Turned debug rate cancels accepts options root ts w h))
      ]

  run_walk-Reports :
      (root : Option Text) (paused : ℕ) (ts : List Turn) (w : Walk)
      → Unreported debug rate cancels accepts options w
      → Reports (final_walk (run_walk debug rate cancels accepts root options paused ts w))
  unfolding run_walk
  run_walk-Reports root paused ts w h =
      delivered-Reports root ts (send_progress debug rate cancels accepts paused w)
        (send_progress-Unreported debug rate cancels accepts options paused w h)

  start_walk-Unreported :
      (capabilities : BrowseCapabilities) (observations : List Observation) (root : Option Text)
      → Unreported debug rate cancels accepts options (start_walk capabilities observations root)
  unfolding start_walk
  start_walk-Unreported capabilities observations root = record { silent = refl; flags = refl }

  detected-Reports :
      (r : Errors.OpcResult BrowseCapabilities) (root : Option Text)
      (observations : List Observation) (paused : ℕ) (ts : List Turn)
      → Reports (
          final_walk (elim r [
            | Errors.err e ↦ stopped e (start_walk no_capabilities [] root)
            | Errors.ok capabilities ↦
                run_walk debug rate cancels accepts root options paused ts
                  (start_walk capabilities observations root)
          ]))
  detected-Reports (Errors.err e) root observations paused ts =
      silent-Reports (start_walk no_capabilities [] root)
        (start_walk-Unreported no_capabilities [] root).silent
  detected-Reports (Errors.ok capabilities) root observations paused ts =
      run_walk-Reports root paused ts _ (start_walk-Unreported capabilities observations root)

  -- Whatever the server, the channel, the clock and the control do, when a traversal has reported itself
  -- complete, no branch waits to be visited, and it was neither cancelled nor cut short.
  pub run_inventory_at_root-Honest :
      (root : Option Text) (detected : InventoryResult BrowseCapabilities)
      (observations : List Observation) (paused : ℕ) (ts : List Turn)
      → let w = final_walk (
          run_inventory_at_root debug rate cancels accepts root options detected observations paused
            ts) in
        Honest w.queue (reports w.sent)
  unfolding run_inventory_at_root
  run_inventory_at_root-Honest root detected observations paused ts =
      elim (Bool-cases (has_bad_batch debug rate cancels accepts options)) [
        | inl bad ↦ rw bad (
            silent-Reports (start_walk no_capabilities [] root)
              (start_walk-Unreported no_capabilities [] root).silent)
        | inr good ↦ rw good (
            detected-Reports (capabilities_or_none (cancels 0) detected) root observations paused
              ts)
      ]
