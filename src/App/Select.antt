-- ===== src/App/Select.antt =====
-- opc-cli/src/app.rs: moving the cursor (`select_next`, `select_prev`, `page_down`, `page_up`), the
-- tag toggle and `go_back`.
use opc_cli.Prelude.{
  ℕ, ◌+◌, ◌-◌, min, Bool, not, none, some, [], List, get_elem?, set, length, ltb, ◌==◌,
  if◌then◌else◌, is_empty,
}
use opc_cli.App.State.{
  App, home, server_list, tag_list, tag_values, write_input, log_transition, select_list,
}

-- The `match` on the screen that gives the length of its list.
unfoldable pub list_count : App → ℕ
list_count app = elim app.current_screen [
  | server_list ↦ length app.servers
  | tag_list ↦ length app.tags
  | tag_values ↦ length app.tag_values
  | _ ↦ 0
]

-- `if self.current_screen == CurrentScreen::TagValues { self.table_state.select(Some(i)); }`
unfoldable pub select_row : ℕ → App → App
select_row i app = elim app.current_screen [
  | tag_values ↦ record app { table_state = some i }
  | _ ↦ app
]

unfoldable pub move_to : ℕ → App → App
unfolding select_row
move_to i app = select_row i (select_list (some i) app)

unfoldable pub select_next : App → App
unfolding list_count move_to
select_next app =
    let count = list_count app in
    if count == 0 then app else elim app.selected_index [
      | some idx ↦ if ltb idx (count - 1) then move_to (idx + 1) app else app
      | none ↦ select_list (some 0) app
    ]

unfoldable pub select_prev : App → App
unfolding move_to
select_prev app = elim app.selected_index [
  | some idx ↦ if ltb 0 idx then move_to (idx - 1) app else app
  | none ↦ app
]

abbrev pub page_size : ℕ
page_size = 20

unfoldable pub page_down : App → App
unfolding list_count move_to
page_down app =
    let count = list_count app in
    if count == 0 then app else elim app.selected_index [
      | some idx ↦ move_to (min (idx + page_size) (count - 1)) app
      | none ↦ move_to 0 app
    ]

-- `saturating_sub` is the subtraction of ℕ.
unfoldable pub page_up : App → App
unfolding move_to
page_up app = elim app.selected_index [
  | some idx ↦ move_to (idx - page_size) app
  | none ↦ move_to 0 app
]

-- `v[i] = !v[i]`, after the bounds test.
unfoldable pub flip : List Bool → ℕ → List Bool
flip bs i = elim (get_elem? bs i) [ none ↦ bs | some b ↦ set bs i (not b) ]

unfoldable pub toggle_tag_selection : App → App
toggle_tag_selection app = elim app.current_screen [
  | tag_list ↦ elim app.selected_index [
    | none ↦ app
    | some idx ↦
        if ltb idx (length app.selected_tags)
        then elim (get_elem? app.tags idx) [
          | none ↦ app
          | some tag ↦ record app { selected_tags = flip app.selected_tags idx }
        ]
        else app
  ]
  | _ ↦ app
]

unfoldable pub go_back : App → App
unfolding log_transition is_empty
go_back app = elim app.current_screen [
  | server_list ↦ select_list none (record (log_transition home app) { servers = [] })
  | tag_list ↦
      let back = record (log_transition server_list app) { tags = [] } in
      if is_empty app.servers then back else select_list (some 0) back
  | tag_values ↦
      let back = record (log_transition tag_list app) {
        tag_values = [];
        refresh_server = none;
        refresh_tag_ids = [];
        last_read_time = none;
      } in
      if is_empty app.tags then select_list none back else select_list (some 0) back
  | write_input ↦ record (log_transition tag_values app) {
    write_tag_id = none;
    write_value_input = [];
  }
  | _ ↦ app
]
