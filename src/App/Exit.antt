-- ===== src/App/Exit.antt =====
-- Which keys end the program, and which keys do nothing.
use opc_cli.Prelude.{◌≡◌, refl, ◌≢◌, ◌↔◌, Bool, true, false, ◌&&◌, ◌||◌, not, arith, ◌==◌, ◌⊎◌}
use opc_cli.Platform.{Platform}
use opc_cli.App.State.{
  App, CurrentScreen, home, loading, server_list, tag_list, tag_values, write_input, exiting,
}
use opc_cli.App.Select.{select_next, select_prev, page_down, page_up, toggle_tag_selection, go_back}
use opc_cli.App.Search.{
  enter_search_mode, exit_search_mode, next_search_match, prev_search_match, update_search_query,
  search_backspace, recompute_search_matches,
}
use opc_cli.App.Tasks.{
  start_fetch_servers, start_browse_tags, start_read_values, enter_write_mode, start_write_value,
}
use opc_cli.App.Keys.{
  KeyCode, esc, char, KeyEvent, KeyEventKind, press, home_key, server_list_key, search_key,
  tag_list_key, tag_values_key, write_input_key, loading_key, screen_key, handle_key_event,
}

abbrev pub is_quit_char : KeyCode → Bool
is_quit_char (char c) = c == b'q' || c == b'Q'
is_quit_char _ = false

abbrev pub is_esc : KeyCode → Bool
is_esc esc = true
is_esc _ = false

-- The keys that end the program: Esc on the home screen; q and Q on the three lists, but not in
-- search mode.
abbrev pub quits : CurrentScreen → Bool → KeyCode → Bool
quits home searching code = is_esc code
quits server_list searching code = is_quit_char code
quits tag_list searching code = not searching && is_quit_char code
quits tag_values searching code = is_quit_char code
quits _ searching code = false

abbrev pub is_press : KeyEventKind → Bool
is_press press = true
is_press _ = false

abbrev is_exiting : CurrentScreen → Bool
is_exiting exiting = true
is_exiting _ = false

home_exit :
    (code : KeyCode) (app : App)
    → app.current_screen ≡ home
    → is_exiting (home_key code app).current_screen ≡ quits home app.search_mode code
unfolding home_key start_fetch_servers
home_exit (char c) app s = ground arith
home_exit _ app s = ground arith

server_list_exit :
    (code : KeyCode) (app : App)
    → app.current_screen ≡ server_list
    → is_exiting (server_list_key code app).current_screen ≡ quits server_list app.search_mode code
unfolding server_list_key start_browse_tags select_next select_prev page_down page_up go_back
server_list_exit (char c) app s = ground arith
server_list_exit _ app s = ground arith

tag_list_exit :
    (code : KeyCode) (app : App)
    → app.current_screen ≡ tag_list
    → is_exiting (tag_list_key code app).current_screen ≡ quits tag_list false code
unfolding tag_list_key start_read_values select_next select_prev page_down page_up go_back
    toggle_tag_selection enter_search_mode
tag_list_exit (char c) app s = ground arith
tag_list_exit _ app s = ground arith

tag_values_exit :
    (code : KeyCode) (app : App)
    → app.current_screen ≡ tag_values
    → is_exiting (tag_values_key code app).current_screen ≡ quits tag_values app.search_mode code
unfolding tag_values_key select_next select_prev page_down page_up go_back enter_write_mode
tag_values_exit (char c) app s = ground arith
tag_values_exit _ app s = ground arith

module _ (p : Platform) where
  recompute_screen :
      (app : App) → (recompute_search_matches p app).current_screen ≡ app.current_screen
  unfolding recompute_search_matches
  recompute_screen app = ground arith

  search_exit :
      (code : KeyCode) (app : App)
      → app.current_screen ≡ tag_list
      → is_exiting (search_key p code app).current_screen ≡ quits tag_list true code
  unfolding search_key start_read_values next_search_match prev_search_match exit_search_mode
      toggle_tag_selection update_search_query search_backspace
  search_exit (char c) app s = ground arith
  search_exit _ app s = ground arith

  write_input_exit :
      (code : KeyCode) (app : App)
      → app.current_screen ≡ write_input
      → is_exiting (write_input_key p code app).current_screen
        ≡ quits write_input app.search_mode code
  unfolding write_input_key start_write_value go_back
  write_input_exit (char c) app s = ground arith
  write_input_exit _ app s = ground arith

  loading_exit :
      (code : KeyCode) (app : App) → app.current_screen ≡ loading → loading_key p code app ≡ app
  unfolding loading_key go_back
  loading_exit (char c) app s = ground arith
  loading_exit _ app s = ground arith

  press_exit :
      (s : CurrentScreen) (code : KeyCode) (app : App)
      → app.current_screen ≡ s
      → s ≢ exiting
      → is_exiting (screen_key p code app).current_screen ≡ quits s app.search_mode code
  unfolding screen_key
  press_exit home code app e n = ground (arith, home_exit code app e)
  press_exit server_list code app e n = ground (arith, server_list_exit code app e)
  press_exit tag_list code app e n =
      ground (arith, tag_list_exit code app e, search_exit code app e)
  press_exit tag_values code app e n = ground (arith, tag_values_exit code app e)
  press_exit write_input code app e n = ground (arith, write_input_exit code app e)
  press_exit loading code app e n = ground (arith, loading_exit code app e)
  press_exit exiting code app e n = absurd (n refl)

  -- On every screen but the exiting one, a key event leads to the exiting screen exactly when it is a
  -- press of a key that quits on that screen.
  pub exits_exactly_when :
      (key : KeyEvent) (app : App)
      → app.current_screen ≢ exiting
      → ((handle_key_event p key app).current_screen ≡ exiting)
        ↔ ((is_press key.kind && quits app.current_screen app.search_mode key.code) ≡ true)
  unfolding handle_key_event
  exits_exactly_when key app n = ground (arith, press_exit app.current_screen key.code app refl)

  -- While a task is awaited, and once the program is exiting, no key event changes anything.
  keys_ignored :
      (key : KeyEvent) (app : App)
      → (app.current_screen ≡ loading) ⊎ (app.current_screen ≡ exiting)
      → handle_key_event p key app ≡ app
  unfolding handle_key_event
  keys_ignored key app s = ground (arith, loading_exit key.code app)
