-- ===== src/App/TaskTests.antt =====
-- The theorems about the tasks, the loop and the keys at concrete inputs, and runs of them.
use opc_cli.Prelude.{
  ℕ, ◌+◌, ◌≤◌, ◌≡◌, ◌≢◌, ◌↔◌, refl, true, false, ◌&&◌, none, some, [], ◌∷◌, codes, arith, length,
  is_empty,
}
use opc_cli.Provider.{WriteResult, OpcValue, pos}
use opc_cli.Errors.{ok}
use opc_cli.App.State.{App, loading, tag_list, tag_values, exiting, new, push_message}
use opc_cli.App.Tasks.{
  start_fetch_servers, start_browse_tags, start_read_values, maybe_auto_refresh,
}
use opc_cli.App.Poll.{received, closed, poll_browse_result, poll_read_result, poll_write_result}
use opc_cli.App.Keys.{KeyEvent, home_key, char, esc, press, handle_key_event, KeyCode}
use opc_cli.App.Run.{Round, poll_all, run_app}
use opc_cli.App.Invariant.{Inv, is_some}
use opc_cli.App.Invariant.Run.{run-Inv}
use opc_cli.App.Selection.{IsInRange}
use opc_cli.App.Flow.{answers_end_loading}
use opc_cli.App.Outcome.{browse_shows_tags}
use opc_cli.App.Reads.{read_shows_values, write_starts_no_read, maybe_auto_refresh_lem}
use opc_cli.App.Exit.{quits, is_press, exits_exactly_when}
use opc_cli.App.Fixtures.{ascii, three_tags, at_tags, at_servers, a_value, at_values}

abbrev failed_round : Round
failed_round = record {
  fetched = closed;
  browsed = closed;
  read = closed;
  written = closed;
  read_at = 0;
  now = 0;
  list_drawn = λ i. i;
  table_drawn = λ i. i;
  key = none;
}

-- Enter on the home screen, with nothing to poll.
abbrev enter_round : Round
enter_round = record failed_round { key = some (record { code = KeyCode.enter; kind = press }) }

run-Inv_example : Inv (run_app ascii (enter_round ∷ failed_round ∷ []) new)
run-Inv_example = run-Inv ascii (enter_round ∷ failed_round ∷ [])

waiting : App
unfolding start_fetch_servers new
waiting = start_fetch_servers new

waiting_loads : waiting.current_screen ≡ loading
unfolding waiting
waiting_loads = refl

waiting-Inv : Inv waiting
unfolding waiting push_message is_empty
waiting-Inv = ground arith

answers_end_loading_example : (poll_all ascii failed_round waiting).current_screen ≢ loading
answers_end_loading_example =
    answers_end_loading ascii failed_round waiting waiting-Inv refl refl refl refl

browse_shows_tags_example :
    let app' = poll_browse_result ascii (received (ok three_tags)) (start_browse_tags at_servers) in
    (app'.current_screen ≡ tag_list)
    × (app'.tags ≡ three_tags)
    × (app'.browsed_server ≡ some (codes "S2"))
    × IsInRange app'
    × (app'.selected_index ≡ some 0)
    × (app'.list_state ≡ some 0)
    × (app'.selected_tags ≡ false ∷ false ∷ false ∷ [])
    × (length app'.selected_tags ≡ 3)
    × ((start_read_values app').read_result_rx ≡ at_servers.read_result_rx)
    × ((start_read_values app').current_screen ≡ tag_list)
unfolding is_empty
browse_shows_tags_example =
    browse_shows_tags ascii at_servers 1 (codes "S2") three_tags refl refl refl

read_shows_values_example :
    let sent = start_read_values at_tags in
    let app' = poll_read_result ascii 9 (received (ok (a_value ∷ []))) sent in
    (sent.current_screen ≡ loading)
    × (sent.read_result_rx
        ≡ some (record { server = codes "S1"; tag_ids = codes "Pump.A" ∷ codes "pump.B" ∷ [] }))
    × (app'.current_screen ≡ tag_values)
    × (app'.tag_values ≡ a_value ∷ [])
    × IsInRange app'
    × (app'.selected_index ≡ some 0)
    × (app'.table_state ≡ app'.selected_index)
    × (app'.refresh_server ≡ some (codes "S1"))
    × (app'.refresh_tag_ids ≡ codes "Pump.A" ∷ codes "pump.B" ∷ [])
    × (app'.last_read_time ≡ some 9)
    × (app'.read_result_rx ≡ none)
read_shows_values_example =
    read_shows_values ascii at_tags (codes "S1") (codes "Pump.A") (codes "pump.B" ∷ [])
      (a_value ∷ []) 9 refl refl refl

abbrev writing : App
writing = record at_values {
  current_screen = loading;
  write_result_rx =
      some (record { server = codes "S1"; tag_id = codes "Valve"; value = OpcValue.int (pos 3) });
}

abbrev written_ok : WriteResult
written_ok = record { tag_id = codes "Valve"; success = true; error = none }

write_starts_no_read_example :
    let app' = poll_write_result ascii (received (ok written_ok)) writing in
    (app'.current_screen ≡ tag_values)
    × (app'.read_result_rx ≡ writing.read_result_rx)
    × (app'.tag_values ≡ a_value ∷ [])
    × (app'.last_read_time ≡ some 5)
    × (app'.write_result_rx ≡ none)
write_starts_no_read_example = write_starts_no_read ascii writing written_ok refl

at_values-Inv : Inv at_values
unfolding new is_empty
at_values-Inv = ground arith

maybe_auto_refresh_example :
    let app' = maybe_auto_refresh 2000000000 at_values in
    ((is_some app'.read_result_rx ≡ true) ↔ (
      (at_values.current_screen ≡ tag_values)
      × (is_some at_values.refresh_server ≡ true)
      × ((t : ℕ) × (at_values.last_read_time ≡ some t) × (t + 1000000000 ≤ 2000000000))))
    × (app'.current_screen ≡ at_values.current_screen)
    × (app'.tag_values ≡ at_values.tag_values)
    × (maybe_auto_refresh 2000000000 app' ≡ app')
unfolding new
maybe_auto_refresh_example = maybe_auto_refresh_lem 2000000000 at_values at_values-Inv refl

abbrev press_esc : KeyEvent
press_esc = record { code = esc; kind = press }

exits_exactly_when_example :
    ((handle_key_event ascii press_esc new).current_screen ≡ exiting)
    ↔ ((is_press press_esc.kind && quits new.current_screen new.search_mode press_esc.code) ≡ true)
unfolding new
exits_exactly_when_example = exits_exactly_when ascii press_esc new (λ h. cc)

-- In search mode the letter q is text, as it is on the home screen.
q_is_text :
    (handle_key_event ascii (record { code = char b'q'; kind = press }) new).host_input
    ≡ codes "localhostq"
unfolding handle_key_event home_key new
q_is_text = refl
