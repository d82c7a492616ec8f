-- ===== src/App/Invariant/Keys.antt =====
-- Every key event keeps the invariant.
use opc_cli.Prelude.{arith}
use opc_cli.Platform.{Platform}
use opc_cli.App.State.{App}
use opc_cli.App.Search.{exit_search_mode}
use opc_cli.App.Keys.{
  KeyCode, char, enter, KeyEvent, home_key, server_list_key, search_key, tag_list_key,
  tag_values_key, write_input_key, loading_key, handle_key_event,
}
use opc_cli.App.Invariant.{
  Inv, select_next-Inv, select_prev-Inv, page_down-Inv, page_up-Inv, toggle_tag_selection-Inv,
  go_back-Inv, enter_search_mode-Inv, exit_search_mode-Inv, next_search_match-Inv,
  prev_search_match-Inv, update_search_query-Inv, search_backspace-Inv,
}
use opc_cli.App.Invariant.Tasks.{
  start_fetch_servers-Inv, start_browse_tags-Inv, start_read_values-Inv, enter_write_mode-Inv,
  start_write_value-Inv,
}

ruleset list_keys = (select_next-Inv, select_prev-Inv, page_down-Inv, page_up-Inv, go_back-Inv)

home_key-Inv : (code : KeyCode) (app : App) → Inv app → Inv (home_key code app)
unfolding home_key
home_key-Inv (char c) app h = ground arith
home_key-Inv _ app h = grind (arith, start_fetch_servers-Inv)

server_list_key-Inv : (code : KeyCode) (app : App) → Inv app → Inv (server_list_key code app)
unfolding server_list_key
server_list_key-Inv (char c) app h = ground arith
server_list_key-Inv _ app h = search (list_keys, start_browse_tags-Inv, h)

tag_list_key-Inv : (code : KeyCode) (app : App) → Inv app → Inv (tag_list_key code app)
unfolding tag_list_key
tag_list_key-Inv (char c) app h =
    ground (arith, toggle_tag_selection-Inv app h, enter_search_mode-Inv app h)
tag_list_key-Inv _ app h = search (list_keys, start_read_values-Inv, h)

tag_values_key-Inv : (code : KeyCode) (app : App) → Inv app → Inv (tag_values_key code app)
unfolding tag_values_key
tag_values_key-Inv (char c) app h = ground (arith, enter_write_mode-Inv app h)
tag_values_key-Inv _ app h = search (list_keys, h)

module _ (p : Platform) where
  search_key-Inv : (code : KeyCode) (app : App) → Inv app → Inv (search_key p code app)
  unfolding search_key
  search_key-Inv (char c) app h =
      ground (arith, toggle_tag_selection-Inv app h, update_search_query-Inv p c app h)
  search_key-Inv enter app h =
      start_read_values-Inv (exit_search_mode app) (exit_search_mode-Inv app h)
  search_key-Inv _ app h =
      search (
        exit_search_mode-Inv, search_backspace-Inv, next_search_match-Inv, prev_search_match-Inv, h,
      )

  write_input_key-Inv : (code : KeyCode) (app : App) → Inv app → Inv (write_input_key p code app)
  unfolding write_input_key
  write_input_key-Inv (char c) app h = ground arith
  write_input_key-Inv _ app h = grind (arith, start_write_value-Inv, go_back-Inv)

  loading_key-Inv : (code : KeyCode) (app : App) → Inv app → Inv (loading_key p code app)
  unfolding loading_key
  loading_key-Inv (char c) app h = h
  loading_key-Inv _ app h = search (go_back-Inv, h)

  -- Every key event, on every screen, keeps the invariant.
  pub handle_key_event-Inv :
      (key : KeyEvent) (app : App) → Inv app → Inv (handle_key_event p key app)
  unfolding handle_key_event
  handle_key_event-Inv key app h = ground (
    arith,
    home_key-Inv key.code app h,
    server_list_key-Inv key.code app h,
    search_key-Inv key.code app h,
    tag_list_key-Inv key.code app h,
    tag_values_key-Inv key.code app h,
    write_input_key-Inv key.code app h,
    loading_key-Inv key.code app h,
  )
