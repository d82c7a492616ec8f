-- ===== src/App/Tests.antt =====
-- The theorems about the lists, the search, the log and the parser at concrete inputs.
use opc_cli.Prelude.{◌≡◌, refl, some, [], ◌∷◌, codes, contains}
use opc_cli.App.State.{App, new}
use opc_cli.App.Search.{recompute_search_matches}
use opc_cli.App.SearchLaws.{is_member, matches, Ascending, first_or, recompute_search_matches_lem}
use opc_cli.App.Fixtures.{ascii, three_tags, at_tags}

recompute_search_matches_example :
    let app' = recompute_search_matches ascii at_tags in
    (is_member 2 app'.search_matches ≡ matches ascii (codes "pump") three_tags 2)
    × Ascending 0 app'.search_matches
    × (app'.search_match_index ≡ 0)
    × (app'.selected_index ≡ first_or app'.search_matches (some 1))
recompute_search_matches_example = recompute_search_matches_lem ascii at_tags 2

searching : App
unfolding recompute_search_matches new contains
searching = recompute_search_matches ascii at_tags

searching_finds : searching.search_matches ≡ 0 ∷ 2 ∷ []
unfolding searching
searching_finds = refl
