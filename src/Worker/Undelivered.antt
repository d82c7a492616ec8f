-- ===== src/Worker/Undelivered.antt =====
-- Sessions of callers that are gone, in the loop of opc-da-client/src/com_worker.rs.
use opc_cli.Prelude.{ℕ, ◌≡◌, ◌⊎◌, inl, inr, true, false, none, Text, Bool-cases}
use opc_cli.Errors.{ok}
use opc_cli.Provider.{BrowsePageRequest}
use opc_cli.Act.{Outcome, done, failed, exhausted}
use opc_cli.Server.{Server}
use opc_cli.Browse.State.{lookup}
use opc_cli.Browse.Sessions.{BrowseSessions, open_session, cleanup_expired}
use opc_cli.Browse.Closed.{lookup-close}
use opc_cli.Values.{Formats}
use opc_cli.Worker.Groups.{GroupServer}
use opc_cli.Worker.Connection.{Connector}
use opc_cli.Worker.Requests.{
  open_browse_session, browse_page, Serving, ComWorker, open_on, serve_page, serve_request, serve,
  deliver_session,
}

module _ {K W : Type 0} (connector : Connector K W) (server : Server W) (groups : GroupServer W)
    (formats : Formats) (debug : Text → Text) (uuid : ℕ → ℕ) where
  -- A page whose reply cannot be sent ends its session.
  pub undelivered_page_closes :
      (t : Serving) (token : ℕ) (request : BrowsePageRequest) (c : ComWorker K W)
      → (t.reply_closed ≡ true) ⊎ (t.reply_taken ≡ false)
      → lookup token
          (serve connector server groups formats debug uuid t
            (browse_page token request)
            c).1.sessions.sessions
        ≡ none
  unfolding serve serve_request serve_page
  undelivered_page_closes t token request c (inl gone) =
      rw gone (lookup-close server debug uuid t.gave_up token (cleanup_expired t.now c.sessions))
  undelivered_page_closes t token request c (inr gone) = elim (Bool-cases t.reply_closed) [
    | inl shut ↦
        rw shut (lookup-close server debug uuid t.gave_up token (cleanup_expired t.now c.sessions))
    | inr open_still ↦ rw (open_still, gone) (lookup-close server debug uuid t.gave_up token _)
  ]

  deliver_session-closed :
      (t : Serving) (r : Outcome ℕ) (b : BrowseSessions W) (token : ℕ)
      → t.reply_taken ≡ false
      → r ≡ done token
      → lookup token (deliver_session t r b).sessions ≡ none
  deliver_session-closed t (done other) b token gone is =
      let same : other ≡ token = cc in
      rw (gone, same) (lookup-close server debug uuid t.gave_up token b)
  deliver_session-closed t (failed e) b token gone is = cc
  deliver_session-closed t exhausted b token gone is = cc

  -- A session whose token the caller does not take is closed at once.
  pub undelivered_session_closes :
      (t : Serving) (name : Text) (c : ComWorker K W) (w : W) (k : K) (token : ℕ)
      → t.reply_closed ≡ false
      → t.reply_taken ≡ false
      → connector.connect name c.world ≡ (ok w, k)
      → (open_session server debug uuid t.cleaned t.used w (cleanup_expired t.now c.sessions)).0
        ≡ done token
      → lookup token
          (serve connector server groups formats debug uuid t
            (open_browse_session name)
            c).1.sessions.sessions
        ≡ none
  unfolding serve serve_request open_on
  undelivered_session_closes t name c w k token waiting gone made opened =
      rw (waiting, made) (deliver_session-closed t _ _ token gone opened)
