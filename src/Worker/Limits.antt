-- ===== src/Worker/Limits.antt =====
-- The limits of the browse sessions, kept by the loop of opc-da-client/src/com_worker.rs.
use opc_cli.Prelude.{ℕ, Option, none, some, List, [], ◌∷◌, Text, Bool-cases, inl, inr}
use opc_cli.Errors.{OpcResult, ok, err}
use opc_cli.Provider.{BrowsePageRequest, TagValue}
use opc_cli.Act.{Outcome, done, failed, exhausted, update}
use opc_cli.Server.{Server}
use opc_cli.Browse.Sessions.{BrowseSessions, close, open_session}
use opc_cli.Browse.Tokens.{Injective}
use opc_cli.Browse.Limits.{IsWithinLimits, cleanup-IsWithinLimits, close-IsWithinLimits}
use opc_cli.Browse.Serve.{page-IsWithinLimits, open_session-IsWithinLimits}
use opc_cli.Values.{Formats}
use opc_cli.Worker.Groups.{GroupServer}
use opc_cli.Worker.Connection.{Connector}
use opc_cli.Worker.Requests.{
  ComRequest, list_servers, read_tag_values, write_tag_value, browse_tags, browse_capabilities,
  open_browse_session, browse_page, close_browse_session, Serving, ComWorker, read_answer,
  deliver_session, open_on, serve_page, serve_request, serve, work,
}

module _ {K W : Type 0} (connector : Connector K W) (server : Server W) (groups : GroupServer W)
    (formats : Formats) (debug : Text → Text) (uuid : ℕ → ℕ) where
  module _ (inj : Injective uuid) where
    abbrev Limited : ComWorker K W → Type 0
    Limited c = IsWithinLimits uuid c.sessions

    close-Limited :
        (now token : ℕ) (b : BrowseSessions W)
        → IsWithinLimits uuid b
        → IsWithinLimits uuid (close now token b).1
    close-Limited now token b h = (close-IsWithinLimits uuid now token).preserved b h

    deliver_session-Limited :
        (t : Serving) (r : Outcome ℕ) (b : BrowseSessions W)
        → IsWithinLimits uuid b
        → IsWithinLimits uuid (deliver_session t r b)
    deliver_session-Limited t (done token) b h = elim (Bool-cases t.reply_taken) [
      | inl taken ↦ rw taken h
      | inr gone ↦ rw gone (close-Limited t.gave_up token b h)
    ]
    deliver_session-Limited t (failed e) b h = h
    deliver_session-Limited t exhausted b h = h

    open_on-Limited :
        (t : Serving) (answer : OpcResult W × K) (c : ComWorker K W)
        → Limited c
        → Limited (open_on connector server groups formats debug uuid t answer c).1
    unfolding open_on
    open_on-Limited t (err e, k) c h = h
    open_on-Limited t (ok w, k) c h =
        let opened = open_session server debug uuid t.cleaned t.used w in
        deliver_session-Limited t (opened c.sessions).0 (opened c.sessions).1 (
          (open_session-IsWithinLimits server debug uuid inj t.cleaned t.used w).preserved
            c.sessions h)

    serve_page-Limited :
        (t : Serving) (token : ℕ) (request : BrowsePageRequest) (c : ComWorker K W)
        → Limited c
        → Limited (serve_page connector server groups formats debug uuid t token request c).1
    unfolding serve_page
    serve_page-Limited t token request c h =
        let paged =
          (page-IsWithinLimits server debug uuid inj t.fuel t.cleaned t.used token
              request).preserved
            c.sessions h in
        elim (Bool-cases t.reply_closed) [
          | inl shut ↦ rw shut (close-Limited t.gave_up token c.sessions h)
          | inr waiting ↦ elim (Bool-cases t.reply_taken) [
            | inl taken ↦ rw (waiting, taken) paged
            | inr gone ↦ rw (waiting, gone) (close-Limited t.gave_up token _ paged)
          ]
        ]

    read_answer-Limited :
        (r : Outcome (Option (List TagValue))) (c : ComWorker K W)
        → Limited c
        → Limited (read_answer r c).1
    read_answer-Limited (done none) c h = h
    read_answer-Limited (done (some vs)) c h = h
    read_answer-Limited (failed e) c h = h
    read_answer-Limited exhausted c h = h

    serve_request-Limited :
        (t : Serving) (request : ComRequest) (c : ComWorker K W)
        → Limited c
        → Limited (serve_request connector server groups formats debug uuid t request c).1
    unfolding serve_request
    serve_request-Limited t list_servers c h = h
    serve_request-Limited t (read_tag_values name tags presentation) c h = read_answer-Limited _ _ h
    serve_request-Limited t (write_tag_value name tag value) c h = h
    serve_request-Limited t (browse_tags name max_tags sink) c h = h
    serve_request-Limited t (browse_capabilities name) c h = elim (Bool-cases t.reply_closed) [
      | inl shut ↦ rw shut h
      | inr waiting ↦ rw waiting h
    ]
    serve_request-Limited t (open_browse_session name) c h = elim (Bool-cases t.reply_closed) [
      | inl shut ↦ rw shut h
      | inr waiting ↦ rw waiting (open_on-Limited t _ c h)
    ]
    serve_request-Limited t (browse_page token request) c h = serve_page-Limited t token request c h
    serve_request-Limited t (close_browse_session token) c h =
        close-Limited t.cleaned token c.sessions h

    -- When no two draws of UUIDs agree, the loop of the worker keeps its browse sessions within their limits,
    -- whatever the requests, the clock and the servers are, and whether replies are taken or not: at
    -- most 64 sessions, each with at most 100,000 node tokens and 256 page tokens.
    pub work-IsWithinLimits :
        (requests : List (Serving × ComRequest)) (c : ComWorker K W)
        → IsWithinLimits uuid c.sessions
        → IsWithinLimits uuid
            (work connector server groups formats debug uuid requests c).1.sessions
    unfolding work serve update
    work-IsWithinLimits [] c h = h
    work-IsWithinLimits ((t, request) ∷ requests) c h = elim (Bool-cases c.running) [
      | inl running ↦
          rw (running, work)
            (work-IsWithinLimits requests _ (
              serve_request-Limited t request _
                ((cleanup-IsWithinLimits uuid t.now).preserved c.sessions h)))
      | inr ended ↦ rw (ended, work) (work-IsWithinLimits requests c h)
    ]
