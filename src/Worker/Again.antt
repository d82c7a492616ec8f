-- ===== src/Worker/Again.antt =====
-- What the caller of a browse sees when the first attempt of `dispatch_with_retry` has lost its connection:
-- opc-da-client/src/com_worker/browse.rs under opc-da-client/src/com_worker/connection.rs.
use opc_cli.Prelude.{ℕ, ◌^◌, ◌<◌, ◌≡◌, ap, ◌∙◌, true, some, List, ◌++◌, Text, arith}
use opc_cli.Errors.{OpcError, ok}
use opc_cli.Act.{done, failed}
use opc_cli.Server.{Server}
use opc_cli.Worker.Connection.{Connector, Pool, is_connection_error, find, dispatch_with_retry}
use opc_cli.Worker.Retry.{stale_connection_replaced}
use opc_cli.Worker.Browse.{TagSink, handle_browse}
use opc_cli.Worker.Sink.{Shown, ShownSome, handle_browse-Shown}

module _ {K W : Type 0} (connector : Connector K W) (server : Server W) (debug : Text → Text)
    (max_tags fuel : ℕ) (name : Text) where
  -- A browse on a connection of the pool loses it after tags were found, and the browse on a new one gives
  -- tags: these are the result, and the sink of the caller holds both, those of the lost attempt
  -- first.
  pub retried_browse_shows_both :
      (p : Pool K W TagSink) (stale stale' fresh fresh' : W) (lost sink : TagSink) (e : OpcError)
      (k : K) (tags : List Text)
      → p.shared.progress < 2 ^ 64
      → find name p.cache ≡ some stale
      → handle_browse server debug max_tags fuel (stale, p.shared) ≡ (failed e, (stale', lost))
      → is_connection_error e ≡ true
      → connector.connect name p.world ≡ (ok fresh, k)
      → handle_browse server debug max_tags fuel (fresh, lost) ≡ (done tags, (fresh', sink))
      → let (r, p') =
          dispatch_with_retry connector name (handle_browse server debug max_tags fuel) p in
        (r ≡ done tags)
        × ((old : List Text) × (lost.tags ≡ p.shared.tags ++ old)
            × (p'.shared.tags ≡ (p.shared.tags ++ old) ++ tags))
  retried_browse_shows_both p stale stale' fresh fresh' lost sink e k tags small known broke is made
        again =
      let first : ShownSome max_tags p.shared (stale', lost) =
        (rw broke at (handle_browse-Shown server debug max_tags fuel stale p.shared small)) in
      let (old, (old_tags, old_count, few)) = first in
      let second : Shown max_tags lost tags (fresh', sink) =
        (rw again at (handle_browse-Shown server debug max_tags fuel fresh lost (omega arith))) in
      let (result, in_pool, shared, world) =
        stale_connection_replaced connector name (handle_browse server debug max_tags fuel) p stale
          stale' fresh lost e k known broke is made in
      (
        result ∙ ap (λ o. o.0) again,
        (
          old,
          old_tags,
          ap (λ (x : TagSink). x.tags) (shared ∙ ap (λ o. o.1.1) again)
              ∙ second.0
              ∙ ap (λ ts. ts ++ tags) old_tags,
        ),
      )
