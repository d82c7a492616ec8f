-- ===== src/Worker/Requests.antt =====
-- opc-da-client/src/com_worker/request.rs and the loop of `ComWorker::start` in
-- opc-da-client/src/com_worker.rs. A request comes with what the loop finds while it serves it: the
-- readings of the clock, whether the receiver of the reply is closed before the work and whether it
-- takes the reply after it, and the fuel of the loops below. An index out of bounds in `handle_read`
-- unwinds the thread, and the loop with it: its receiver and the reply are dropped.
use opc_cli.Prelude.{ℕ, Bool, true, false, Option, none, List, [], ◌∷◌, Text, if◌then◌else◌}
use opc_cli.Errors.{OpcResult, ok, err}
use opc_cli.Provider.{
  TagValue, OpcValue, WriteResult, BrowseCapabilities, BrowsePageRequest, BrowsePage,
}
use opc_cli.Act.{Outcome, done, failed, Act, invoke, outcome}
use opc_cli.Server.{Server}
use opc_cli.Browse.Capabilities.{capabilities_for_server}
use opc_cli.Browse.Sessions.{BrowseSessions, cleanup_expired, open_session, page, close}
use opc_cli.Values.{Formats}
use opc_cli.Worker.Groups.{GroupServer}
use opc_cli.Worker.Read.{ReadPresentation, handle_read}
use opc_cli.Worker.Write.{handle_write}
use opc_cli.Worker.Browse.{TagSink, handle_browse}
use opc_cli.Worker.Connection.{Connector, Pool, dispatch_with_retry}

-- The arguments of a request; the reply channel is in `Serving`, and the host of a listing goes to the log.
pub data ComRequest : Type 0 where
  list_servers : ComRequest
  read_tag_values : Text → List Text → ReadPresentation → ComRequest
  write_tag_value : Text → Text → OpcValue → ComRequest
  browse_tags : Text → ℕ → TagSink → ComRequest
  browse_capabilities : Text → ComRequest
  open_browse_session : Text → ComRequest
  browse_page : ℕ → BrowsePageRequest → ComRequest
  close_browse_session : ℕ → ComRequest

-- What is sent as the reply; the sink of a browse is left as it stands here.
pub data Reply : Type 0 where
  no_reply : Reply
  servers : Outcome (List Text) → Reply
  values : Outcome (Option (List TagValue)) → Reply
  written : Outcome WriteResult → Reply
  tags : Outcome (List Text) → TagSink → Reply
  capabilities : Outcome BrowseCapabilities → Reply
  session : Outcome ℕ → Reply
  next_page : Outcome BrowsePage → Reply
  closed : Outcome (Unit {0}) → Reply

pub record Serving : Type 0 where
  pub now : ℕ
  pub cleaned : ℕ
  pub used : ℕ
  pub gave_up : ℕ
  pub reply_closed : Bool
  pub reply_taken : Bool
  pub fuel : ℕ

-- `running` is false when a panic has left the loop.
pub record ComWorker (K W : Type 0) : Type 0 where
  pub cache : List (Text × W)
  pub world : K
  pub sessions : BrowseSessions W
  pub running : Bool

module _ {W : Type 0} where
  -- An operation that shares nothing with its caller.
  abbrev pub alone : {A : Type 0} → Act W A → Act (W × Unit {0}) A
  alone m (w, x) = let (r, w') = m w in (r, (w', x))

  -- A session that was opened for a caller that has gone is closed.
  abbrev pub deliver_session : Serving → Outcome ℕ → BrowseSessions W → BrowseSessions W
  deliver_session t (done token) b = if t.reply_taken then b else (close t.gave_up token b).1
  deliver_session t _ b = b

module _ {K W : Type 0} where
  abbrev pub pool_of : {X : Type 0} → X → ComWorker K W → Pool K W X
  pool_of x c = record { cache = c.cache; world = c.world; shared = x }

  abbrev pub with_pool : {X : Type 0} → Pool K W X → ComWorker K W → ComWorker K W
  with_pool p c = record c { cache = p.cache; world = p.world }

  -- `reply.send(result)`, which a panic in `handle_read` does not reach.
  abbrev pub read_answer : Outcome (Option (List TagValue)) → ComWorker K W → Reply × ComWorker K W
  read_answer (done none) c = (no_reply, record c { running = false })
  read_answer r c = (values r, c)

module _ {K W : Type 0} (connector : Connector K W) (server : Server W) (groups : GroupServer W)
    (formats : Formats) (debug : Text → Text) (uuid : ℕ → ℕ) where
  -- `dispatch_with_retry` on the pool of the worker.
  unfoldable pub dispatch :
      {A X : Type 0} → Text → Act (W × X) A → X → ComWorker K W → Outcome A × Pool K W X
  unfolding dispatch_with_retry
  dispatch name operation x c = dispatch_with_retry connector name operation (pool_of x c)

  -- The new session, on a connection of its own.
  unfoldable pub open_on : Serving → OpcResult W × K → ComWorker K W → Reply × ComWorker K W
  unfolding open_session close
  open_on t (err e, k) c = (session (failed e), record c { world = k })
  open_on t (ok w, k) c =
      let (r, b) = open_session server debug uuid t.cleaned t.used w c.sessions in
      (session r, record c { world = k; sessions = deliver_session t r b })

  unfoldable pub serve_page :
      Serving → ℕ → BrowsePageRequest → ComWorker K W → Reply × ComWorker K W
  unfolding page close
  serve_page t token request c =
      if t.reply_closed
      then (no_reply, record c { sessions = (close t.gave_up token c.sessions).1 })
      else (let (r, b) = page server debug uuid t.fuel t.cleaned t.used token request c.sessions in
          (
            next_page r,
            record c { sessions = if t.reply_taken then b else (close t.gave_up token b).1 },
          ))

  unfoldable pub serve_request : Serving → ComRequest → ComWorker K W → Reply × ComWorker K W
  unfolding dispatch open_on serve_page handle_read handle_write handle_browse
      capabilities_for_server close
  serve_request t list_servers c =
      let (r, k) = connector.enumerate_servers c.world in
      (servers (outcome r), record c { world = k })
  serve_request t (read_tag_values name tag_ids presentation) c =
      let (r, p) = dispatch name (alone (handle_read formats groups tag_ids presentation)) tt c in
      read_answer r (with_pool p c)
  serve_request t (write_tag_value name tag_id value) c =
      let (r, p) = dispatch name (alone (handle_write groups tag_id value)) tt c in
      (written r, with_pool p c)
  serve_request t (browse_tags name max_tags sink) c =
      let (r, p) = dispatch name (handle_browse server debug max_tags t.fuel) sink c in
      (tags r p.shared, with_pool p c)
  serve_request t (browse_capabilities name) c =
      let (r, p) = dispatch name (alone (invoke (capabilities_for_server server))) tt c in
      if t.reply_closed then (no_reply, c) else (capabilities r, with_pool p c)
  serve_request t (open_browse_session name) c =
      if t.reply_closed then (no_reply, c) else open_on t (connector.connect name c.world) c
  serve_request t (browse_page token request) c = serve_page t token request c
  serve_request t (close_browse_session token) c =
      let (r, b) = close t.cleaned token c.sessions in (closed r, record c { sessions = b })

  -- A turn of the loop: first the expired sessions are dropped.
  unfoldable pub serve : Serving → ComRequest → ComWorker K W → Reply × ComWorker K W
  unfolding serve_request cleanup_expired
  serve t request c =
      serve_request t request (record c { sessions = cleanup_expired t.now c.sessions })

  abbrev pub and_then :
      (ComWorker K W → List Reply × ComWorker K W)
      → Reply × ComWorker K W
      → List Reply × ComWorker K W
  and_then rest (reply, c) = let (replies, c') = rest c in (reply ∷ replies, c')

  -- The loop; there is none to serve a request after a panic.
  unfoldable pub work : List (Serving × ComRequest) → ComWorker K W → List Reply × ComWorker K W
  unfolding serve
  work [] c = ([], c)
  work ((t, request) ∷ requests) c = elim c.running [
    | true ↦ and_then (work requests) (serve t request c)
    | false ↦ and_then (work requests) (no_reply, c)
  ]
