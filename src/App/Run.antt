-- ===== src/App/Run.antt =====
-- opc-cli/src/main.rs: the loop of `run_app`, over the rounds that the terminal and the tasks give
-- it. Drawing reads the state, but the widgets may change the selection that they are drawn with; an
-- error of the terminal that ends the loop is not modelled.
use opc_cli.Prelude.{ℕ, Option, none, some, List, [], ◌∷◌, Text}
use opc_cli.Platform.{Platform}
use opc_cli.Provider.{TagValue, WriteResult}
use opc_cli.Errors.{OpcResult}
use opc_cli.App.State.{App, CurrentScreen, exiting}
use opc_cli.App.Tasks.{maybe_auto_refresh}
use opc_cli.App.Poll.{
  TryRecv, poll_fetch_result, poll_browse_result, poll_read_result, poll_write_result,
}
use opc_cli.App.Keys.{KeyEvent, handle_key_event}

-- The inputs of a round: what each poll finds, the clock at the poll of the read and at the refresh, and
-- the event, if there is one. What drawing makes of the two selections is up to the widgets.
pub record Round : Type 0 where
  pub fetched : TryRecv (OpcResult (List Text))
  pub browsed : TryRecv (OpcResult (List Text))
  pub read : TryRecv (OpcResult (List TagValue))
  pub written : TryRecv (OpcResult WriteResult)
  pub read_at : ℕ
  pub now : ℕ
  pub list_drawn : Option ℕ → Option ℕ
  pub table_drawn : Option ℕ → Option ℕ
  pub key : Option KeyEvent

-- The state that ends the loop, or the one that the rest of it ends in.
abbrev pub stop_or : CurrentScreen → App → App → App
stop_or exiting next rest = next
stop_or _ next rest = rest

module _ (p : Platform) where
  unfoldable pub poll_all : Round → App → App
  poll_all r app = poll_write_result p r.written (
      poll_read_result p r.read_at r.read
        (poll_browse_result p r.browsed (poll_fetch_result p r.fetched app)))

  -- `terminal.draw(|f| ui::render(f, app))`.
  abbrev pub draw : Round → App → App
  draw r app = record app {
    list_state = r.list_drawn app.list_state;
    table_state = r.table_drawn app.table_state;
  }

  unfoldable pub run_round : Round → App → App
  unfolding poll_all
  run_round r app =
      let drawn = draw r (maybe_auto_refresh r.now (poll_all r app)) in
      elim r.key [ none ↦ drawn | some key ↦ handle_key_event p key drawn ]

  -- `loop { …; if app.current_screen == CurrentScreen::Exiting { return Ok(()); } }`
  unfoldable pub run_app : List Round → App → App
  run_app [] app = app
  run_app (r ∷ rs) app =
      let next = run_round r app in
      let rest = run_app rs next in stop_or next.current_screen next rest
