-- ===== src/App/Search.antt =====
-- opc-cli/src/app.rs: the search mode of the tag list.
use opc_cli.Prelude.{
  ℕ, suc, ◌+◌, ◌-◌, ◌%◌, true, false, none, some, List, [], ◌∷◌, ◌++◌, Text, get_elem?, length,
  drop_last, contains, is_empty, ◌==◌, if◌then◌else◌,
}
use opc_cli.Platform.{Platform}
use opc_cli.App.State.{App, tag_list, select_list}

unfoldable pub enter_search_mode : App → App
enter_search_mode app = elim app.current_screen [
  | tag_list ↦ record app {
    search_mode = true;
    search_query = [];
    search_matches = [];
    search_match_index = 0;
  }
  | _ ↦ app
]

unfoldable pub exit_search_mode : App → App
exit_search_mode app = record app { search_mode = false }

-- The selected match becomes the cursor; `get` may find none.
unfoldable pub select_match : ℕ → App → App
select_match k app = elim (get_elem? app.search_matches k) [
  | none ↦ app
  | some i ↦ select_list (some i) app
]

unfoldable pub next_search_match : App → App
unfolding select_match is_empty
next_search_match app =
    if is_empty app.search_matches
    then app
    else let k = (app.search_match_index + 1) % length app.search_matches in
      select_match k (record app { search_match_index = k })

unfoldable pub prev_search_match : App → App
unfolding select_match is_empty
prev_search_match app =
    if is_empty app.search_matches
    then app
    else let k : ℕ =
        if app.search_match_index == 0
        then length app.search_matches - 1
        else app.search_match_index - 1 in
      select_match k (record app { search_match_index = k })

module _ (p : Platform) where
  -- `enumerate().filter_map(…)` from the index `i`.
  unfoldable pub matches_from : ℕ → Text → List Text → List ℕ
  matches_from i query [] = []
  matches_from i query (tag ∷ tags) =
      let rest = matches_from (suc i) query tags in
      if contains query (p.to_lowercase tag) then i ∷ rest else rest

  unfoldable pub recompute_search_matches : App → App
  unfolding matches_from select_match
  recompute_search_matches app =
      let found = matches_from 0 (p.to_lowercase app.search_query) app.tags in
      select_match 0 (record app { search_matches = found; search_match_index = 0 })

  unfoldable pub update_search_query : ℕ → App → App
  unfolding recompute_search_matches
  update_search_query c app =
      recompute_search_matches (record app { search_query = app.search_query ++ c ∷ [] })

  unfoldable pub search_backspace : App → App
  unfolding recompute_search_matches
  search_backspace app =
      recompute_search_matches (record app { search_query = drop_last app.search_query })
