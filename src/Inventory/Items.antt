-- ===== src/Inventory/Items.antt =====
-- What a whole traversal sends.
use opc_cli.Prelude.{
  ℕ, ◌≡◌, refl, Bool, true, false, not, Option, none, some, List, [], Text, arith, if◌then◌else◌,
  Bool-cases, inl, inr,
}
use opc_cli.Errors.{OpcError}
use opc_cli.Errors as Errors
use opc_cli.Provider.{BrowseCapabilities}
use opc_cli.Telemetry.Collector.{Observation}
use opc_cli.Control.{InventoryOptions}
use opc_cli.Inventory.State.{InventoryResult}
use opc_cli.Inventory.Nodes.{
  Walk, Turn, Next, continues, breaks, returns, send_event, send_progress, at_limit, truncated_walk,
}
use opc_cli.Inventory.Walk.{walk}
use opc_cli.Inventory.Run.{
  Run, running, ended, stopped, send_completed, finish, after_walk, run_walk, run_inventory_at_root,
  start_walk, capabilities_or_none, is_zero_limit, has_bad_batch, no_capabilities,
}
use opc_cli.Inventory.Entries.{item_ids, IsGoing, IsEnded, IsGoing-IsEnded}
use opc_cli.Inventory.Once.{NextHolds, walk-NextHolds}

abbrev pub final_walk : Run → Walk
final_walk (running w) = w
final_walk (ended w) = w
final_walk (stopped e w) = w

module _ (debug : Text → Text) (rate : ℕ → ℕ → ℕ) (cancels accepts : ℕ → Bool)
    (options : InventoryOptions) where
  abbrev Good : Walk → Type 0
  Good w = IsEnded debug rate cancels accepts options w

  send_completed-Good : (w : Walk) → Good w → Good (send_completed debug rate cancels accepts w)
  unfolding send_completed send_event
  send_completed-Good w h = elim (Bool-cases (accepts w.sends)) [
    | inl taken ↦ rw (send_completed, taken) (record { once = h.once; within = h.within })
    | inr refused ↦ rw (send_completed, refused) (record { once = h.once; within = h.within })
  ]

  finish-Good : (w : Walk) → Good w → Good (finish debug rate cancels accepts w)
  unfolding finish
  finish-Good w h = elim (Bool-cases (cancels w.readings)) [
    | inl cancelled ↦
        rw cancelled (send_completed-Good _ (record { once = h.once; within = h.within }))
    | inr going ↦ rw going (send_completed-Good _ (record { once = h.once; within = h.within }))
  ]

  after_walk-Good :
      (r : Next)
      → NextHolds debug rate cancels accepts options r
      → Good (final_walk (after_walk debug rate cancels accepts r))
  after_walk-Good (continues w) h = IsGoing-IsEnded debug rate cancels accepts options w h
  after_walk-Good (breaks w) h = finish-Good w h
  after_walk-Good (returns e w) h = h

  -- Nothing was seen and nothing was sent but progress.
  pub record IsFresh (w : Walk) : Type 0 where
    pub none_seen : w.seen_items ≡ []
    pub none_sent : item_ids w.sent ≡ []

  IsFresh-Good : (w : Walk) → IsFresh w → Good w
  IsFresh-Good w h = record {
    once = rw h.none_sent tt;
    within = λ limit e. rw h.none_sent (omega arith);
  }

  send_progress-IsFresh :
      (paused : ℕ) (w : Walk)
      → IsFresh w
      → IsFresh (send_progress debug rate cancels accepts paused w).1
  unfolding send_progress send_event
  send_progress-IsFresh paused w h = elim (Bool-cases (accepts w.sends)) [
    | inl taken ↦
        rw (send_progress, taken) (record { none_seen = h.none_seen; none_sent = h.none_sent })
    | inr refused ↦
        rw (send_progress, refused) (record { none_seen = h.none_seen; none_sent = h.none_sent })
  ]

  limit_above :
      (o : Option ℕ) → is_zero_limit debug rate cancels accepts o ≡ false → at_limit o 0 ≡ false
  limit_above none h = refl
  limit_above (some limit) h = ground (arith, h)

  IsFresh-IsGoing :
      (w : Walk)
      → IsFresh w
      → is_zero_limit debug rate cancels accepts options.max_entries ≡ false
      → IsGoing debug rate cancels accepts options w
  IsFresh-IsGoing w h above = record {
    distinct = rw h.none_seen tt;
    same = rw (h.none_seen, h.none_sent) refl;
    room = rw h.none_seen (limit_above options.max_entries above);
  }

  -- After the first progress event.
  delivered-Good :
      (root : Option Text) (ts : List Turn) (r : Bool × Walk)
      → IsFresh r.1
      → Good (
          final_walk (
            if not r.0
            then ended r.1
            else if is_zero_limit debug rate cancels accepts options.max_entries
            then ended (send_completed debug rate cancels accepts (truncated_walk r.1))
            else after_walk debug rate cancels accepts
                (walk debug rate cancels accepts root options ts r.1)))
  delivered-Good root ts (false, w) h = IsFresh-Good w h
  delivered-Good root ts (true, w) h =
      elim (Bool-cases (is_zero_limit debug rate cancels accepts options.max_entries)) [
        | inl zero_limit ↦
            let fresh = IsFresh-Good w h in
            rw zero_limit
              (send_completed-Good _ (record { once = fresh.once; within = fresh.within }))
        | inr above ↦ rw above (
            after_walk-Good _ (
              walk-NextHolds debug rate cancels accepts options root ts w
                (IsFresh-IsGoing w h above)))
      ]

  run_walk-Good :
      (root : Option Text) (paused : ℕ) (ts : List Turn) (w : Walk)
      → IsFresh w
      → Good (final_walk (run_walk debug rate cancels accepts root options paused ts w))
  unfolding run_walk
  run_walk-Good root paused ts w h =
      delivered-Good root ts (send_progress debug rate cancels accepts paused w)
        (send_progress-IsFresh paused w h)

  start_walk-IsFresh :
      (capabilities : BrowseCapabilities) (observations : List Observation) (root : Option Text)
      → IsFresh (start_walk capabilities observations root)
  unfolding start_walk
  start_walk-IsFresh capabilities observations root = record { none_seen = refl; none_sent = refl }

  detected-Good :
      (r : Errors.OpcResult BrowseCapabilities) (root : Option Text)
      (observations : List Observation) (paused : ℕ) (ts : List Turn)
      → Good (
          final_walk (elim r [
            | Errors.err e ↦ stopped e (start_walk no_capabilities [] root)
            | Errors.ok capabilities ↦
                run_walk debug rate cancels accepts root options paused ts
                  (start_walk capabilities observations root)
          ]))
  detected-Good (Errors.err e) root observations paused ts =
      IsFresh-Good _ (start_walk-IsFresh no_capabilities [] root)
  detected-Good (Errors.ok capabilities) root observations paused ts =
      run_walk-Good root paused ts _ (start_walk-IsFresh capabilities observations root)

  -- Whatever the server, the channel, the clock and the control do, and at every point of a traversal, no
  -- item was sent twice, and no more items than the limit, if there is one.
  pub run_inventory_at_root-IsEnded :
      (root : Option Text) (detected : InventoryResult BrowseCapabilities)
      (observations : List Observation) (paused : ℕ) (ts : List Turn)
      → IsEnded debug rate cancels accepts options (
          final_walk (
            run_inventory_at_root debug rate cancels accepts root options detected observations
              paused ts))
  unfolding run_inventory_at_root
  run_inventory_at_root-IsEnded root detected observations paused ts =
      elim (Bool-cases (has_bad_batch debug rate cancels accepts options)) [
        | inl bad ↦ rw bad (IsFresh-Good _ (start_walk-IsFresh no_capabilities [] root))
        | inr good ↦
            rw good (
              detected-Good (capabilities_or_none (cancels 0) detected) root observations paused ts)
      ]
