-- ===== src/App/Invariant/Run.antt =====
-- The invariant over whole runs of the loop.
use opc_cli.Prelude.{List, [], ◌∷◌, Option, none, some}
use opc_cli.Platform.{Platform}
use opc_cli.App.State.{App, CurrentScreen, new, exiting}
use opc_cli.App.Keys.{KeyEvent, handle_key_event}
use opc_cli.App.Run.{Round, stop_or, poll_all, draw, run_round, run_app}
use opc_cli.App.Invariant.{Inv, new-Inv}
use opc_cli.App.Invariant.Tasks.{maybe_auto_refresh-Inv}
use opc_cli.App.Invariant.Polls.{
  poll_fetch_result-Inv, poll_browse_result-Inv, poll_read_result-Inv, poll_write_result-Inv,
}
use opc_cli.App.Invariant.Keys.{handle_key_event-Inv}

stop_or-Inv :
    (s : CurrentScreen) (next rest : App) → Inv next → Inv rest → Inv (stop_or s next rest)
stop_or-Inv exiting next rest h k = h
stop_or-Inv _ next rest h k = k

module _ (p : Platform) where
  poll_all-Inv : (r : Round) (app : App) → Inv app → Inv (poll_all p r app)
  unfolding poll_all
  poll_all-Inv r app h = poll_write_result-Inv p r.written _ (
      poll_read_result-Inv p r.read_at r.read _
        (poll_browse_result-Inv p r.browsed _ (poll_fetch_result-Inv p r.fetched app h)))

  -- A round ends in a state that the keys or the refresh gave.
  key_or_none-Inv :
      (key : Option KeyEvent) (app : App)
      → Inv app
      → Inv (elim key [ none ↦ app | some k ↦ handle_key_event p k app ])
  key_or_none-Inv none app h = h
  key_or_none-Inv (some k) app h = handle_key_event-Inv p k app h

  draw-Inv : (r : Round) (app : App) → Inv app → Inv (draw p r app)
  draw-Inv r app h = record {
    messages_capped = h.messages_capped;
    flags_cover = h.flags_cover;
    loading_waits = h.loading_waits;
    write_has_tag = h.write_has_tag;
    refresh_together = h.refresh_together;
    match_index_bounded = h.match_index_bounded;
  }

  run_round-Inv : (r : Round) (app : App) → Inv app → Inv (run_round p r app)
  unfolding run_round
  run_round-Inv r app h =
      key_or_none-Inv r.key _ (draw-Inv r _ (maybe_auto_refresh-Inv r.now _ (poll_all-Inv r app h)))

  run_app-Inv : (rs : List Round) (app : App) → Inv app → Inv (run_app p rs app)
  unfolding run_app
  run_app-Inv [] app h = h
  run_app-Inv (r ∷ rs) app h =
      let h' = run_round-Inv r app h in
      stop_or-Inv (run_round p r app).current_screen _ _ h' (run_app-Inv rs (run_round p r app) h')

  -- In every state that the loop reaches from the start, whatever the keys, the clock and the tasks
  -- do, the invariant holds: at most ten messages, a flag for every tag, a tag to write on the write
  -- screen, tags to refresh with a server to refresh, a match index in range, and a task to wait for
  -- on the loading screen.
  pub run-Inv : (rs : List Round) → Inv (run_app p rs new)
  run-Inv rs = run_app-Inv rs new new-Inv
