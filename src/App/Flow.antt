-- ===== src/App/Flow.antt =====
-- The loading screen ends when the tasks answer.
use opc_cli.Prelude.{ℕ, ◌≡◌, ◌≢◌, Bool, true, false, List, Text, arith}
use opc_cli.Platform.{Platform}
use opc_cli.Provider.{TagValue, WriteResult}
use opc_cli.Errors.{OpcResult, ok}
use opc_cli.App.State.{App, loading}
use opc_cli.App.Poll.{
  TryRecv, received, empty, poll_fetch_result, poll_browse_result, poll_read_result,
  poll_write_result,
}
use opc_cli.App.Run.{Round, poll_all}
use opc_cli.App.Invariant.{Inv, is_some}

abbrev pub is_answer {ℓ} : {A : Type ℓ} → TryRecv A → Bool
is_answer empty = false
is_answer _ = true

-- After an answered poll the screen is not the loading one, unless it was and the poll had no task.
abbrev Leaves : Bool → App → App → Type 0
Leaves pending app app' =
    app'.current_screen ≡ loading → (app.current_screen ≡ loading) × (pending ≡ false)

module _ (p : Platform) where
  fetch-Leaves :
      (a : TryRecv (OpcResult (List Text))) (app : App)
      → is_answer a ≡ true
      → let app' = poll_fetch_result p a app in
        Leaves (is_some app.fetch_result_rx) app app'
        × (app'.browse_result_rx ≡ app.browse_result_rx)
        × (app'.read_result_rx ≡ app.read_result_rx)
        × (app'.write_result_rx ≡ app.write_result_rx)
  unfolding poll_fetch_result
  fetch-Leaves (received (ok a)) app h = ground arith
  fetch-Leaves _ app h = ground arith

  browse-Leaves :
      (a : TryRecv (OpcResult (List Text))) (app : App)
      → is_answer a ≡ true
      → let app' = poll_browse_result p a app in
        Leaves (is_some app.browse_result_rx) app app'
        × (app'.read_result_rx ≡ app.read_result_rx)
        × (app'.write_result_rx ≡ app.write_result_rx)
  unfolding poll_browse_result
  browse-Leaves (received (ok a)) app h = ground arith
  browse-Leaves _ app h = ground arith

  read-Leaves :
      (now : ℕ) (a : TryRecv (OpcResult (List TagValue))) (app : App)
      → is_answer a ≡ true
      → let app' = poll_read_result p now a app in
        Leaves (is_some app.read_result_rx) app app' × (app'.write_result_rx ≡ app.write_result_rx)
  unfolding poll_read_result
  read-Leaves now (received (ok a)) app h = ground arith
  read-Leaves now _ app h = ground arith

  write-Leaves :
      (a : TryRecv (OpcResult WriteResult)) (app : App)
      → is_answer a ≡ true
      → Leaves (is_some app.write_result_rx) app (poll_write_result p a app)
  unfolding poll_write_result
  write-Leaves (received (ok a)) app h = ground arith
  write-Leaves _ app h = ground arith

  -- When the answer to every pending task is there, one round of polls leaves the loading screen,
  -- in every state of the invariant.
  pub answers_end_loading :
      (r : Round) (app : App)
      → Inv app
      → is_answer r.fetched ≡ true
      → is_answer r.browsed ≡ true
      → is_answer r.read ≡ true
      → is_answer r.written ≡ true
      → (poll_all p r app).current_screen ≢ loading
  unfolding poll_all
  answers_end_loading r app h f b d w =
      let app1 = poll_fetch_result p r.fetched app in
      let app2 = poll_browse_result p r.browsed app1 in
      let app3 = poll_read_result p r.read_at r.read app2 in
      ground (
        arith,
        fetch-Leaves r.fetched app f,
        browse-Leaves r.browsed app1 b,
        read-Leaves r.read_at r.read app2 d,
        write-Leaves r.written app3 w,
      )
