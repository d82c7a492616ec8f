-- ===== src/App/Poll.antt =====
-- opc-cli/src/app.rs: the polls of the four background tasks. What `try_recv` finds on the
-- receiver is an argument; with no receiver it is not read.
use opc_cli.Prelude.{
  ℕ, ◌+◌, ◌-◌, min, false, none, some, List, [], ◌∷◌, ◌++◌, Text, codes, decimal, length, replicate,
  is_empty, text_eq, ltb, if◌then◌else◌,
}
use opc_cli.Platform.{Platform}
use opc_cli.Provider.{TagValue, WriteResult}
use opc_cli.Errors.{OpcError, OpcResult, ok, err, friendly_com_hint, display, unwrap_or}
use opc_cli.App.State.{
  App, CurrentScreen, home, server_list, tag_list, log_transition, add_message, select_list,
  select_table,
}
use opc_cli.App.Tasks.{start_read_values}

pub data TryRecv {ℓ} (A : Type ℓ) : Type ℓ where
  received : A → TryRecv A
  empty : TryRecv A
  closed : TryRecv A

-- The first row, if there is one.
unfoldable pub select_first {ℓ} : {A : Type ℓ} → List A → App → App
unfolding is_empty
select_first rows app = if is_empty rows then select_list none app else select_list (some 0) app

module _ (p : Platform) where
  unfoldable pub on_fetch : TryRecv (OpcResult (List Text)) → App → App
  unfolding log_transition add_message select_first
  on_fetch (received (ok servers)) app =
      let shown =
        select_first servers (log_transition server_list (record app { servers = servers })) in
      let message =
        codes "Found " ++ (decimal (length servers) ++ (codes " servers on " ++ app.host_input)) in
      record (add_message message shown) { fetch_result_rx = none }
  on_fetch (received (err e)) app =
      let message = codes "Error fetching servers: " ++ display p.debug e in
      record (add_message message (log_transition home app)) { fetch_result_rx = none }
  on_fetch closed app =
      let message = codes "Server listing task terminated unexpectedly" in
      record (add_message message (log_transition home app)) { fetch_result_rx = none }
  on_fetch empty app = app

  unfoldable pub poll_fetch_result : TryRecv (OpcResult (List Text)) → App → App
  unfolding on_fetch
  poll_fetch_result answer app = elim app.fetch_result_rx [
    | none ↦ app
    | some _ ↦ on_fetch answer app
  ]

  -- `Error: {hint} ({e})`, or `Error: {e}` with no hint.
  unfoldable pub error_message : Text → OpcError → Text
  error_message prefix e = elim (friendly_com_hint e) [
    | some h ↦ prefix ++ (h ++ (codes " (" ++ (display p.debug e ++ codes ")")))
    | none ↦ prefix ++ display p.debug e
  ]

  unfoldable pub on_browse : TryRecv (OpcResult (List Text)) → App → App
  unfolding log_transition add_message select_first error_message
  on_browse (received (ok tags)) app =
      let stored = record app { tags = tags; selected_tags = replicate (length tags) false } in
      let shown = select_first tags (log_transition tag_list stored) in
      let message = codes "Found " ++ (decimal (length tags) ++ codes " tags") in
      record (add_message message shown) { browse_result_rx = none }
  on_browse (received (err e)) app =
      let message = error_message (codes "Error: ") e in
      record (add_message message (log_transition server_list app)) { browse_result_rx = none }
  on_browse closed app =
      let message = codes "Browse task terminated unexpectedly" in
      record (add_message message (log_transition server_list app)) { browse_result_rx = none }
  on_browse empty app = app

  unfoldable pub poll_browse_result : TryRecv (OpcResult (List Text)) → App → App
  unfolding on_browse
  poll_browse_result answer app = elim app.browse_result_rx [
    | none ↦ app
    | some _ ↦ on_browse answer app
  ]

  -- `filter(|tv| tv.value == "Error").count()`
  unfoldable pub error_count : List TagValue → ℕ
  error_count [] = 0
  error_count (tv ∷ tvs) =
      let rest = error_count tvs in if text_eq tv.value (codes "Error") then rest + 1 else rest

  unfoldable pub read_message : List TagValue → Text
  unfolding error_count
  read_message values =
      let errors = error_count values in
      let count = codes "Read " ++ (decimal (length values) ++ codes " tag values") in
      if ltb 0 errors
      then count ++ (codes " (⚠ " ++ (decimal errors ++ codes " errors)"))
      else count

  -- The cursor is kept, clamped to the new rows.
  unfoldable pub select_read : List TagValue → App → App
  unfolding is_empty
  select_read values app =
      if is_empty values then select_table none app else elim app.selected_index [
        | some idx ↦ select_table (some (min idx (length values - 1))) app
        | none ↦ select_table (some 0) app
      ]

  unfoldable pub on_read : ℕ → TryRecv (OpcResult (List TagValue)) → App → App
  unfolding log_transition add_message select_read read_message error_message
  on_read now (received (ok values)) app =
      let stored = log_transition CurrentScreen.tag_values (record app { tag_values = values }) in
      record (add_message (read_message values) (select_read values stored)) {
        last_read_time = some now;
        read_result_rx = none;
      }
  on_read now (received (err e)) app =
      let message = error_message (codes "Error reading values: ") e in
      record (add_message message (log_transition tag_list app)) { read_result_rx = none }
  on_read now closed app =
      let message = codes "Read task terminated unexpectedly" in
      record (add_message message (log_transition tag_list app)) { read_result_rx = none }
  on_read now empty app = app

  unfoldable pub poll_read_result : ℕ → TryRecv (OpcResult (List TagValue)) → App → App
  unfolding on_read
  poll_read_result now answer app = elim app.read_result_rx [
    | none ↦ app
    | some _ ↦ on_read now answer app
  ]

  unfoldable pub write_message : WriteResult → Text
  write_message r =
      if r.success
      then codes "✓ Write to '" ++ (r.tag_id ++ codes "' succeeded")
      else codes "✗ Write to '" ++ (r.tag_id ++ (codes "' failed: " ++ unwrap_or r.error []))

  unfoldable pub on_write : TryRecv (OpcResult WriteResult) → App → App
  unfolding log_transition add_message write_message start_read_values
  on_write (received (ok r)) app =
      start_read_values
        (record (log_transition CurrentScreen.tag_values (add_message (write_message r) app)) {
          write_result_rx = none;
        })
  on_write (received (err e)) app =
      let message = codes "Browse error: " ++ display p.debug e in
      record (log_transition CurrentScreen.tag_values (add_message message app)) {
        write_result_rx = none;
      }
  on_write closed app =
      let message = codes "Write task terminated unexpectedly" in
      record (add_message message (log_transition CurrentScreen.tag_values app)) {
        write_result_rx = none;
      }
  on_write empty app = app

  unfoldable pub poll_write_result : TryRecv (OpcResult WriteResult) → App → App
  unfolding on_write
  poll_write_result answer app = elim app.write_result_rx [
    | none ↦ app
    | some _ ↦ on_write answer app
  ]
