-- ===== src/App/Reads.antt =====
-- Reads and writes of tag values, and what late answers do.
use opc_cli.Prelude.{
  ℕ, zero, suc, min, length, Option, ◌+◌, ◌≤◌, ◌≡◌, ◌≢◌, ◌↔◌, true, none, some, List, ◌∷◌, Text,
  arith, is_empty,
}
use opc_cli.Platform.{Platform}
use opc_cli.Provider.{TagValue, WriteResult}
use opc_cli.Errors.{ok}
use opc_cli.App.State.{App, loading, tag_list, tag_values, write_input}
use opc_cli.App.Select.{go_back, list_count}
use opc_cli.App.Tasks.{start_read_values, start_write_value, maybe_auto_refresh, enter_write_mode}
use opc_cli.App.Poll.{received, poll_read_result, poll_write_result}
use opc_cli.App.Invariant.{Inv, is_some}
use opc_cli.App.Selection.{IsInRange}
use opc_cli.App.Outcome.{flagged, selected_tag_ids-flagged}

-- The row of the cursor among that many rows: the one of before, kept in range.
abbrev pub row_kept : ℕ → Option ℕ → Option ℕ
row_kept zero before = none
row_kept (suc n) none = some 0
row_kept (suc n) (some i) = some (min i n)

module _ (p : Platform) where
  -- A read started on the tag list with a browsed server and a toggled tag asks for the toggled tags
  -- in their order; its answer is shown on the values screen, with the cursor and the selection of the
  -- table on the row of before, on the last row if that is past the end, on the first if there was
  -- no cursor, and nowhere exactly if there are no rows; what the refresh needs is kept.
  pub read_shows_values :
      (app : App) (server id : Text) (ids : List Text) (values : List TagValue) (now : ℕ)
      → app.current_screen ≡ tag_list
      → app.browsed_server ≡ some server
      → flagged app.tags app.selected_tags ≡ id ∷ ids
      → let sent = start_read_values app in
        let app' = poll_read_result p now (received (ok values)) sent in
        (sent.current_screen ≡ loading)
        × (sent.read_result_rx ≡ some (record { server = server; tag_ids = id ∷ ids }))
        × (app'.current_screen ≡ tag_values)
        × (app'.tag_values ≡ values)
        × IsInRange app'
        × (app'.selected_index ≡ row_kept (length values) app.selected_index)
        × (app'.table_state ≡ app'.selected_index)
        × (app'.refresh_server ≡ some server)
        × (app'.refresh_tag_ids ≡ id ∷ ids)
        × (app'.last_read_time ≡ some now)
        × (app'.read_result_rx ≡ none)
  unfolding poll_read_result start_read_values is_empty list_count
  read_shows_values app server id ids values now s b f =
      ground (arith, selected_tag_ids-flagged 0 app.tags app.selected_tags)

  -- Leaving the values screen does not drop a read in flight: when its values arrive the screen is
  -- the values screen again, with no server, where a refresh changes nothing at any time and starting
  -- a write sends none.
  late_read_returns :
      (app : App) (values : List TagValue) (now later : ℕ)
      → app.current_screen ≡ tag_values
      → is_some app.read_result_rx ≡ true
      → let left = go_back app in
        let app' = poll_read_result p now (received (ok values)) left in
        (left.current_screen ≡ tag_list)
        × (app'.current_screen ≡ tag_values)
        × (app'.refresh_server ≡ none)
        × (maybe_auto_refresh later app' ≡ app')
        × ((start_write_value p app').write_result_rx ≡ app.write_result_rx)
  unfolding poll_read_result go_back maybe_auto_refresh start_write_value
  late_read_returns app values now later s r = ground arith

  -- A read in flight when the write screen is entered takes the user off it when its values arrive.
  late_read_leaves_write_input :
      (app : App) (values : List TagValue) (now : ℕ)
      → (enter_write_mode app).current_screen ≡ write_input
      → app.current_screen ≢ write_input
      → is_some app.read_result_rx ≡ true
      → (poll_read_result p now (received (ok values)) (enter_write_mode app)).current_screen
        ≡ tag_values
  unfolding poll_read_result enter_write_mode
  late_read_leaves_write_input app values now s n r = ground arith

  -- A successful or refused write shows the values screen and starts no read, so the values shown, the
  -- read in flight (if any) and the time of the last read are those of before.
  pub write_starts_no_read :
      (app : App) (r : WriteResult)
      → is_some app.write_result_rx ≡ true
      → let app' = poll_write_result p (received (ok r)) app in
        (app'.current_screen ≡ tag_values)
        × (app'.read_result_rx ≡ app.read_result_rx)
        × (app'.tag_values ≡ app.tag_values)
        × (app'.last_read_time ≡ app.last_read_time)
        × (app'.write_result_rx ≡ none)
  unfolding poll_write_result
  write_starts_no_read app r w = ground arith

-- In a state of the invariant with no read in flight, the refresh starts one exactly when the values
-- screen is up, a server is kept, and the last read was a second ago or longer. The screen and the
-- values stay, and refreshing twice at one time is refreshing once.
pub maybe_auto_refresh_lem :
    (now : ℕ) (app : App)
    → Inv app
    → app.read_result_rx ≡ none
    → let app' = maybe_auto_refresh now app in
      ((is_some app'.read_result_rx ≡ true) ↔ (
        (app.current_screen ≡ tag_values)
        × (is_some app.refresh_server ≡ true)
        × ((t : ℕ) × (app.last_read_time ≡ some t) × (t + 1000000000 ≤ now))))
      × (app'.current_screen ≡ app.current_screen)
      × (app'.tag_values ≡ app.tag_values)
      × (maybe_auto_refresh now app' ≡ app')
unfolding maybe_auto_refresh
maybe_auto_refresh_lem now app h r = ground arith
