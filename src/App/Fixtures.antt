-- ===== src/App/Fixtures.antt =====
-- States of the interface and a platform, for the runs at concrete inputs.
use opc_cli.Prelude.{
  ℕ, ◌+◌, true, false, ◌&&◌, none, some, List, [], ◌∷◌, map, Text, codes, leb, if◌then◌else◌,
}
use opc_cli.Platform.{Platform}
use opc_cli.Provider.{TagValue}
use opc_cli.App.State.{App, server_list, tag_list, tag_values, new}

abbrev pub lower : ℕ → ℕ
lower c = if leb b'A' c && leb c b'Z' then c + 32 else c

-- ASCII case, no escapes, no floats.
abbrev pub ascii : Platform
ascii = record { to_lowercase = map lower; debug = λ t. t; parse_f64 = λ t. none }

abbrev pub three_tags : List Text
three_tags = codes "Pump.A" ∷ codes "Valve" ∷ codes "pump.B" ∷ []

abbrev pub at_tags : App
at_tags = record new {
  current_screen = tag_list;
  tags = three_tags;
  selected_tags = true ∷ false ∷ true ∷ [];
  selected_index = some 1;
  browsed_server = some (codes "S1");
  search_query = codes "PUMP";
}

abbrev pub at_servers : App
at_servers = record new {
  current_screen = server_list;
  servers = codes "S1" ∷ codes "S2" ∷ [];
  selected_index = some 1;
}

abbrev pub a_value : TagValue
a_value = record {
  tag_id = codes "Valve";
  value = codes "1";
  quality = codes "Good";
  timestamp = codes "N/A";
}

abbrev pub at_values : App
at_values = record new {
  current_screen = tag_values;
  tags = three_tags;
  selected_tags = true ∷ false ∷ true ∷ [];
  tag_values = a_value ∷ [];
  selected_index = some 0;
  refresh_server = some (codes "S1");
  refresh_tag_ids = codes "Valve" ∷ [];
  last_read_time = some 5;
}

abbrev pub reading : App
reading = record at_values {
  read_result_rx = some (record { server = codes "S1"; tag_ids = codes "Valve" ∷ [] });
}
