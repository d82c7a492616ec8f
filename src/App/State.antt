-- ===== src/App/State.antt =====
-- opc-cli/src/app.rs: the state of the terminal interface, `new`, `log_transition`, `add_message`.
-- A oneshot receiver is the task that answers it; what `try_recv` returns is an input of the polls.
-- The provider and the trace log have no field: the provider's answers are inputs. A widget state
-- is the row that it has selected.
use opc_cli.Prelude.{
  ℕ, Bool, false, Option, none, List, [], ◌∷◌, ◌++◌, Text, codes, ltb, length, drop, if◌then◌else◌,
}
use opc_cli.Provider.{TagValue, OpcValue}

pub data CurrentScreen : Type 0 where
  home loading server_list tag_list tag_values write_input exiting : CurrentScreen

abbrev pub opc_timeout_secs : ℕ
opc_timeout_secs = 300

abbrev pub max_browse_tags : ℕ
max_browse_tags = 10000

pub record FetchTask : Type 0 where
  pub host : Text

pub record BrowseTask : Type 0 where
  pub server : Text
  pub max_tags : ℕ

pub record ReadTask : Type 0 where
  pub server : Text
  pub tag_ids : List Text

pub record WriteTask : Type 0 where
  pub server : Text
  pub tag_id : Text
  pub value : OpcValue

-- Times are nanoseconds of the monotonic clock.
pub record App : Type 0 where
  pub host_input : Text
  pub servers : List Text
  pub tags : List Text
  pub selected_index : Option ℕ
  pub current_screen : CurrentScreen
  pub messages : List Text
  pub list_state : Option ℕ
  pub table_state : Option ℕ
  pub browse_progress : ℕ
  pub browse_result_rx : Option BrowseTask
  pub fetch_result_rx : Option FetchTask
  pub selected_tags : List Bool
  pub tag_values : List TagValue
  pub read_result_rx : Option ReadTask
  pub refresh_server : Option Text
  pub refresh_tag_ids : List Text
  pub last_read_time : Option ℕ
  pub search_mode : Bool
  pub search_query : Text
  pub search_matches : List ℕ
  pub search_match_index : ℕ
  pub write_tag_id : Option Text
  pub write_value_input : Text
  pub write_result_rx : Option WriteTask
  pub browsed_server : Option Text

unfoldable pub log_transition : CurrentScreen → App → App
log_transition to app = record app { current_screen = to }

unfoldable pub new : App
new = record {
  host_input = codes "localhost";
  servers = [];
  tags = [];
  selected_index = none;
  current_screen = home;
  messages = [];
  list_state = none;
  table_state = none;
  browse_progress = 0;
  browse_result_rx = none;
  fetch_result_rx = none;
  selected_tags = [];
  tag_values = [];
  read_result_rx = none;
  refresh_server = none;
  refresh_tag_ids = [];
  last_read_time = none;
  search_mode = false;
  search_query = [];
  search_matches = [];
  search_match_index = 0;
  write_tag_id = none;
  write_value_input = [];
  write_result_rx = none;
  browsed_server = none;
}

-- `push`, then `remove(0)` past ten messages.
unfoldable pub push_message : Text → List Text → List Text
push_message m ms =
    let pushed = ms ++ m ∷ [] in if ltb 10 (length pushed) then drop 1 pushed else pushed

unfoldable pub add_message : Text → App → App
add_message m app = record app { messages = push_message m app.messages }

-- `self.selected_index = i; self.list_state.select(i);`
abbrev pub select_list : Option ℕ → App → App
select_list i app = record app { selected_index = i; list_state = i }

-- `self.selected_index = i; self.table_state.select(i);`
abbrev pub select_table : Option ℕ → App → App
select_table i app = record app { selected_index = i; table_state = i }
