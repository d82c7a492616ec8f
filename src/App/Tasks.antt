-- ===== src/App/Tasks.antt =====
-- opc-cli/src/app.rs: the actions that spawn a task, and what each task sends back. A task's body is
-- a function of the outcome of `tokio::time::timeout`: the provider's answer, or that time ran out.
use opc_cli.Prelude.{
  ℕ, suc, ◌-◌, Bool, false, Bool, Option, none, some, List, [], ◌∷◌, ◌++◌, Text, codes, decimal,
  get_elem?, length, is_empty, trim, ltb, if◌then◌else◌,
}
use opc_cli.Platform.{Platform}
use opc_cli.Provider.{TagValue, WriteResult}
use opc_cli.Errors.{OpcResult, ok, err, internal}
use opc_cli.App.State.{
  App, CurrentScreen, loading, server_list, tag_list, tag_values, opc_timeout_secs, max_browse_tags,
  log_transition, add_message,
}
use opc_cli.App.Parse.{parse_opc_value}

pub data Timed {ℓ} (A : Type ℓ) : Type ℓ where
  elapsed : Timed A
  finished : A → Timed A

abbrev seconds : ℕ → Text
seconds n = codes " timed out (" ++ (decimal n ++ codes "s)")

unfoldable pub fetch_task_result : Timed (OpcResult (List Text)) → OpcResult (List Text)
fetch_task_result elapsed = err (internal (codes "Connection" ++ seconds opc_timeout_secs))
fetch_task_result (finished r) = r

-- The sink holds the tags found so far; `none` is a poisoned lock.
unfoldable pub browse_task_result :
    Text → Timed (OpcResult (List Text)) → Option (List Text) → OpcResult (List Text)
browse_task_result server (finished inner) sink = inner
browse_task_result server elapsed sink =
    let partial_tags : List Text = elim sink [ none ↦ [] | some tags ↦ tags ] in
    if is_empty partial_tags
    then err (
        internal (
          codes "Browse"
          ++ (seconds opc_timeout_secs
              ++ (codes " for '" ++ (server ++ codes "' with no tags found")))))
    else ok partial_tags

unfoldable pub read_task_result : Timed (OpcResult (List TagValue)) → OpcResult (List TagValue)
read_task_result elapsed = err (internal (codes "Read" ++ seconds opc_timeout_secs))
read_task_result (finished r) = r

unfoldable pub refresh_task_result : Timed (OpcResult (List TagValue)) → OpcResult (List TagValue)
refresh_task_result elapsed = err (internal (codes "Auto-refresh" ++ seconds opc_timeout_secs))
refresh_task_result (finished r) = r

abbrev pub opc_timeout_secs_write : ℕ
opc_timeout_secs_write = 10

unfoldable pub write_task_result : Timed (OpcResult WriteResult) → OpcResult WriteResult
write_task_result elapsed = err (internal (codes "Write" ++ seconds opc_timeout_secs_write))
write_task_result (finished r) = r

unfoldable pub start_fetch_servers : App → App
unfolding log_transition add_message
start_fetch_servers app =
    let message = codes "Connecting to " ++ (app.host_input ++ codes "...") in
    record (add_message message (log_transition loading app)) {
      fetch_result_rx = some (record { host = app.host_input });
    }

unfoldable pub browse_server : Text → App → App
unfolding log_transition add_message
browse_server server app =
    let app1 = log_transition loading (record app { browsed_server = some server }) in
    let message = codes "Browsing tags on " ++ (server ++ codes "...") in
    record (add_message message (record app1 { browse_progress = 0 })) {
      browse_result_rx = some (record { server = server; max_tags = max_browse_tags });
    }

unfoldable pub start_browse_tags : App → App
unfolding browse_server
start_browse_tags app = elim app.current_screen [
  | server_list ↦ elim app.selected_index [
    | none ↦ app
    | some idx ↦ elim (get_elem? app.servers idx) [
      | none ↦ app
      | some server ↦ browse_server server app
    ]
  ]
  | _ ↦ app
]

-- `selected_tags.get(idx).copied().unwrap_or(false)`
abbrev pub is_flagged : List Bool → ℕ → Bool
is_flagged flags idx = elim (get_elem? flags idx) [ none ↦ false | some flag ↦ flag ]

-- `enumerate().filter_map(…)` over the tags from the index `idx` on.
unfoldable pub selected_tag_ids : ℕ → List Text → List Bool → List Text
selected_tag_ids idx [] flags = []
selected_tag_ids idx (tag ∷ tags) flags =
    let rest = selected_tag_ids (suc idx) tags flags in
    if is_flagged flags idx then tag ∷ rest else rest

unfoldable pub send_read : Text → List Text → App → App
unfolding log_transition add_message
send_read server ids app =
    let app1 = record app { refresh_server = some server; refresh_tag_ids = ids } in
    let message = codes "Reading " ++ (decimal (length ids) ++ codes " tag values...") in
    record (add_message message (log_transition loading app1)) {
      read_result_rx = some (record { server = server; tag_ids = ids });
    }

unfoldable pub start_read_values : App → App
unfolding send_read is_empty
start_read_values app = elim app.current_screen [
  | tag_list ↦
      let ids = selected_tag_ids 0 app.tags app.selected_tags in
      if is_empty ids
      then add_message (codes "No tags selected. Press Space to select tags.") app
      else elim app.browsed_server [
        | none ↦ add_message (codes "No server context — please browse tags first") app
        | some server ↦ send_read server ids app
      ]
  | _ ↦ app
]

-- The only displayed tag, or the highlighted row.
unfoldable pub tag_to_write : App → Option Text
tag_to_write app = elim app.tag_values [
  | tv ∷ [] ↦ some tv.tag_id
  | _ ↦ elim app.table_state [
    | none ↦ none
    | some idx ↦ elim (get_elem? app.tag_values idx) [ none ↦ none | some tv ↦ some tv.tag_id ]
  ]
]

unfoldable pub enter_write_mode : App → App
unfolding tag_to_write log_transition add_message
enter_write_mode app = elim app.current_screen [
  | tag_values ↦ elim (tag_to_write app) [
    | some id ↦
        log_transition CurrentScreen.write_input
          (record app { write_tag_id = some id; write_value_input = [] })
    | none ↦ add_message (codes "No tag selected to write.") app
  ]
  | _ ↦ app
]

module _ (p : Platform) where
  unfoldable pub send_write : Text → Text → Text → App → App
  unfolding log_transition add_message
  send_write server tag_id value_str app =
      let message =
        codes "Writing '" ++ (value_str ++ (codes "' to " ++ (tag_id ++ codes "..."))) in
      record (add_message message (log_transition loading app)) {
        write_result_rx =
            some (record { server = server; tag_id = tag_id; value = parse_opc_value p value_str });
      }

  unfoldable pub start_write_value : App → App
  unfolding send_write is_empty
  start_write_value app = elim app.write_tag_id [
    | none ↦ app
    | some tag_id ↦
        let value_str = trim app.write_value_input in
        if is_empty value_str
        then add_message (codes "Value cannot be empty.") app
        else elim app.refresh_server [
          | none ↦ add_message (codes "No server context for write.") app
          | some server ↦ send_write server tag_id value_str app
        ]
  ]

abbrev pub refresh_period : ℕ
refresh_period = 1000000000

-- `Instant::elapsed` is 0 for an instant in the future.
unfoldable pub maybe_auto_refresh : ℕ → App → App
unfolding is_empty
maybe_auto_refresh now app = elim app.current_screen [
  | tag_values ↦ elim app.read_result_rx [
    | some _ ↦ app
    | none ↦ elim app.last_read_time [
      | none ↦ app
      | some t ↦ if ltb (now - t) refresh_period then app else elim app.refresh_server [
        | none ↦ app
        | some server ↦ if is_empty app.refresh_tag_ids then app else record app {
          read_result_rx = some (record { server = server; tag_ids = app.refresh_tag_ids });
        }
      ]
    ]
  ]
  | _ ↦ app
]
