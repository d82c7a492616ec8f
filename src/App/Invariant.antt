-- ===== src/App/Invariant.antt =====
-- What holds of the interface between any two events, and that each operation keeps it.
pub mod Tasks
pub mod Polls
pub mod Keys
pub mod Run
use opc_cli.Prelude.{
  ℕ, ◌≤◌, ◌<◌, max, ◌≡◌, Bool, true, false, ◌||◌, Option, none, some, List, arith, length, is_empty,
  length-set,
}
use opc_cli.App.State.{App, loading, write_input, new}
use opc_cli.App.Select.{
  select_next, select_prev, page_down, page_up, flip, toggle_tag_selection, go_back,
}
use opc_cli.Platform.{Platform}
use opc_cli.App.Selection.{length-flip}
use opc_cli.App.Search.{
  enter_search_mode, exit_search_mode, next_search_match, prev_search_match,
  recompute_search_matches, update_search_query, search_backspace,
}

abbrev pub is_some {ℓ} : {A : Type ℓ} → Option A → Bool
is_some none = false
is_some (some a) = true

-- A task is to answer.
abbrev pub is_waiting : App → Bool
is_waiting app =
    is_some app.fetch_result_rx
    || is_some app.browse_result_rx
    || is_some app.read_result_rx
    || is_some app.write_result_rx

pub record Inv (app : App) : Type 0 where
  pub messages_capped : length app.messages ≤ 10
  pub flags_cover : length app.tags ≤ length app.selected_tags
  pub loading_waits : app.current_screen ≡ loading → is_waiting app ≡ true
  pub write_has_tag : app.current_screen ≡ write_input → is_some app.write_tag_id ≡ true
  pub refresh_together : is_some app.refresh_server ≡ true → is_empty app.refresh_tag_ids ≡ false
  pub match_index_bounded : app.search_match_index < max 1 (length app.search_matches)

pub new-Inv : Inv new
unfolding new is_empty
new-Inv = ground arith

pub select_next-Inv : (app : App) → Inv app → Inv (select_next app)
unfolding select_next
select_next-Inv app h = ground arith

pub select_prev-Inv : (app : App) → Inv app → Inv (select_prev app)
unfolding select_prev
select_prev-Inv app h = ground arith

pub page_down-Inv : (app : App) → Inv app → Inv (page_down app)
unfolding page_down
page_down-Inv app h = ground arith

pub page_up-Inv : (app : App) → Inv app → Inv (page_up app)
unfolding page_up
page_up-Inv app h = ground arith

pub toggle_tag_selection-Inv : (app : App) → Inv app → Inv (toggle_tag_selection app)
unfolding toggle_tag_selection
toggle_tag_selection-Inv app h = grind (arith, length-flip)

pub go_back-Inv : (app : App) → Inv app → Inv (go_back app)
unfolding go_back
go_back-Inv app h = ground arith

pub enter_search_mode-Inv : (app : App) → Inv app → Inv (enter_search_mode app)
unfolding enter_search_mode
enter_search_mode-Inv app h = ground arith

pub exit_search_mode-Inv : (app : App) → Inv app → Inv (exit_search_mode app)
unfolding exit_search_mode
exit_search_mode-Inv app h = ground arith

pub next_search_match-Inv : (app : App) → Inv app → Inv (next_search_match app)
unfolding next_search_match
next_search_match-Inv app h = ground arith

pub prev_search_match-Inv : (app : App) → Inv app → Inv (prev_search_match app)
unfolding prev_search_match
prev_search_match-Inv app h = ground arith

module _ (p : Platform) where
  pub recompute_search_matches-Inv : (app : App) → Inv app → Inv (recompute_search_matches p app)
  unfolding recompute_search_matches
  recompute_search_matches-Inv app h = ground arith

  pub update_search_query-Inv : (c : ℕ) (app : App) → Inv app → Inv (update_search_query p c app)
  unfolding update_search_query
  update_search_query-Inv c app h = ground arith

  pub search_backspace-Inv : (app : App) → Inv app → Inv (search_backspace p app)
  unfolding search_backspace
  search_backspace-Inv app h = ground arith
