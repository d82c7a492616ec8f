-- ===== src/App/Invariant/Tasks.antt =====
-- The actions that spawn a task keep the invariant.
use opc_cli.Prelude.{ℕ, arith}
use opc_cli.Platform.{Platform}
use opc_cli.App.State.{App}
use opc_cli.App.Tasks.{
  start_fetch_servers, start_browse_tags, start_read_values, enter_write_mode, start_write_value,
  maybe_auto_refresh,
}
use opc_cli.App.Messages.{length-push_message}
use opc_cli.App.Invariant.{Inv}

pub start_fetch_servers-Inv : (app : App) → Inv app → Inv (start_fetch_servers app)
unfolding start_fetch_servers
start_fetch_servers-Inv app h = grind (arith, length-push_message)

pub start_browse_tags-Inv : (app : App) → Inv app → Inv (start_browse_tags app)
unfolding start_browse_tags
start_browse_tags-Inv app h = grind (arith, length-push_message)

pub start_read_values-Inv : (app : App) → Inv app → Inv (start_read_values app)
unfolding start_read_values
start_read_values-Inv app h = grind (arith, length-push_message)

pub enter_write_mode-Inv : (app : App) → Inv app → Inv (enter_write_mode app)
unfolding enter_write_mode
enter_write_mode-Inv app h = grind (arith, length-push_message)

pub start_write_value-Inv : (p : Platform) (app : App) → Inv app → Inv (start_write_value p app)
unfolding start_write_value
start_write_value-Inv p app h = grind (arith, length-push_message)

pub maybe_auto_refresh-Inv : (now : ℕ) (app : App) → Inv app → Inv (maybe_auto_refresh now app)
unfolding maybe_auto_refresh
maybe_auto_refresh-Inv now app h = ground arith
