-- ===== src/App/Keys.antt =====
-- opc-cli/src/main.rs: `handle_key_event`. The keys are those that the source names, and `other`.
use opc_cli.Prelude.{ℕ, Bool, ◌||◌, [], ◌∷◌, ◌++◌, drop_last, ◌==◌, if◌then◌else◌}
use opc_cli.Platform.{Platform}
use opc_cli.App.State.{
  App, home, loading, server_list, tag_list, tag_values, write_input, exiting, log_transition,
}
use opc_cli.App.Select.{select_next, select_prev, page_down, page_up, toggle_tag_selection, go_back}
use opc_cli.App.Search.{
  enter_search_mode, exit_search_mode, next_search_match, prev_search_match, update_search_query,
  search_backspace,
}
use opc_cli.App.Tasks.{
  start_fetch_servers, start_browse_tags, start_read_values, enter_write_mode, start_write_value,
}

pub data KeyCode : Type 0 where
  enter esc backspace tab back_tab up down page_up_key page_down_key : KeyCode
  char : ℕ → KeyCode
  other : KeyCode

pub data KeyEventKind : Type 0 where
  press repeat release : KeyEventKind

pub record KeyEvent : Type 0 where
  pub code : KeyCode
  pub kind : KeyEventKind

-- `'q' | 'Q'`
abbrev pub is_q : ℕ → Bool
is_q c = c == b'q' || c == b'Q'

unfoldable pub home_key : KeyCode → App → App
unfolding log_transition
home_key enter app = start_fetch_servers app
home_key (char c) app = record app { host_input = app.host_input ++ c ∷ [] }
home_key backspace app = record app { host_input = drop_last app.host_input }
home_key esc app = log_transition exiting app
home_key _ app = app

unfoldable pub server_list_key : KeyCode → App → App
unfolding log_transition
server_list_key esc app = go_back app
server_list_key page_down_key app = page_down app
server_list_key page_up_key app = page_up app
server_list_key down app = select_next app
server_list_key up app = select_prev app
server_list_key enter app = start_browse_tags app
server_list_key (char c) app = if is_q c then log_transition exiting app else app
server_list_key _ app = app

module _ (p : Platform) where
  unfoldable pub search_key : KeyCode → App → App
  search_key esc app = exit_search_mode app
  search_key backspace app = search_backspace p app
  search_key tab app = next_search_match app
  search_key back_tab app = prev_search_match app
  search_key enter app = start_read_values (exit_search_mode app)
  search_key (char c) app =
      if c == b' ' then toggle_tag_selection app else update_search_query p c app
  search_key _ app = app

unfoldable pub tag_list_key : KeyCode → App → App
unfolding log_transition
tag_list_key esc app = go_back app
tag_list_key page_down_key app = page_down app
tag_list_key page_up_key app = page_up app
tag_list_key down app = select_next app
tag_list_key up app = select_prev app
tag_list_key enter app = start_read_values app
tag_list_key (char c) app =
    if c == b' '
    then toggle_tag_selection app
    else if c == b's' || c == b'S'
    then enter_search_mode app
    else if is_q c
    then log_transition exiting app
    else app
tag_list_key _ app = app

unfoldable pub tag_values_key : KeyCode → App → App
unfolding log_transition
tag_values_key esc app = go_back app
tag_values_key page_down_key app = page_down app
tag_values_key page_up_key app = page_up app
tag_values_key down app = select_next app
tag_values_key up app = select_prev app
tag_values_key (char c) app =
    if c == b'w' || c == b'W'
    then enter_write_mode app
    else if is_q c
    then log_transition exiting app
    else app
tag_values_key _ app = app

module _ (p : Platform) where
  unfoldable pub write_input_key : KeyCode → App → App
  write_input_key enter app = start_write_value p app
  write_input_key esc app = go_back app
  write_input_key (char c) app = record app { write_value_input = app.write_value_input ++ c ∷ [] }
  write_input_key backspace app = record app { write_value_input = drop_last app.write_value_input }
  write_input_key _ app = app

  unfoldable pub loading_key : KeyCode → App → App
  loading_key esc app = go_back app
  loading_key _ app = app

  unfoldable pub screen_key : KeyCode → App → App
  screen_key code app = elim app.current_screen [
    | home ↦ home_key code app
    | server_list ↦ server_list_key code app
    | tag_list ↦ if app.search_mode then search_key p code app else tag_list_key code app
    | tag_values ↦ tag_values_key code app
    | write_input ↦ write_input_key code app
    | loading ↦ loading_key code app
    | exiting ↦ app
  ]

  unfoldable pub handle_key_event : KeyEvent → App → App
  unfolding screen_key
  handle_key_event key app = elim key.kind [ press ↦ screen_key key.code app | _ ↦ app ]
