-- ===== src/App/Invariant/Polls.antt =====
-- The polls keep the invariant, whatever the channels hold.
use opc_cli.Prelude.{ℕ, List, Text, arith, length-replicate}
use opc_cli.Platform.{Platform}
use opc_cli.Provider.{TagValue, WriteResult}
use opc_cli.Errors.{OpcResult, ok}
use opc_cli.App.State.{App}
use opc_cli.App.Poll.{
  TryRecv, received, poll_fetch_result, poll_browse_result, poll_read_result, poll_write_result,
}
use opc_cli.App.Messages.{length-push_message}
use opc_cli.App.Invariant.{Inv}

module _ (p : Platform) where
  pub poll_fetch_result-Inv :
      (answer : TryRecv (OpcResult (List Text))) (app : App)
      → Inv app
      → Inv (poll_fetch_result p answer app)
  unfolding poll_fetch_result
  poll_fetch_result-Inv (received (ok servers)) app h = grind (arith, length-push_message)
  poll_fetch_result-Inv _ app h = grind (arith, length-push_message)

  pub poll_browse_result-Inv :
      (answer : TryRecv (OpcResult (List Text))) (app : App)
      → Inv app
      → Inv (poll_browse_result p answer app)
  unfolding poll_browse_result
  poll_browse_result-Inv (received (ok tags)) app h =
      grind (arith, length-push_message, length-replicate)
  poll_browse_result-Inv _ app h = grind (arith, length-push_message)

  pub poll_read_result-Inv :
      (now : ℕ) (answer : TryRecv (OpcResult (List TagValue))) (app : App)
      → Inv app
      → Inv (poll_read_result p now answer app)
  unfolding poll_read_result
  poll_read_result-Inv now (received (ok values)) app h = grind (arith, length-push_message)
  poll_read_result-Inv now _ app h = grind (arith, length-push_message)

  pub poll_write_result-Inv :
      (answer : TryRecv (OpcResult WriteResult)) (app : App)
      → Inv app
      → Inv (poll_write_result p answer app)
  unfolding poll_write_result
  poll_write_result-Inv (received (ok r)) app h = grind (arith, length-push_message)
  poll_write_result-Inv _ app h = grind (arith, length-push_message)
