-- ===== src/Worker/Connection.antt =====
-- opc-da-client/src/com_worker/connection.rs: `dispatch_with_retry`, an operation on a server of the pool
-- with one retry on a new connection. An operation acts on the server and on what it shares with its
-- caller, which both attempts change. The pool is an association list.
use opc_cli.Prelude.{
  Bool, false, ◌||◌, Option, none, some, List, [], ◌∷◌, Text, text_eq, ◌==◌, if◌then◌else◌,
}
use opc_cli.Errors.{OpcError, com_error, OpcResult, ok, err}
use opc_cli.Act.{Outcome, done, failed, exhausted, Act}

unfoldable pub is_connection_error : OpcError → Bool
is_connection_error (com_error source) =
    source.code == 0x800706BA
    || source.code == 0x800706BF
    || source.code == 0x800706BE
    || source.code == 0x80080005
is_connection_error _ = false

-- `ServerConnector`, on a world that changes.
pub record Connector (K W : Type 0) : Type 0 where
  pub enumerate_servers : K → OpcResult (List Text) × K
  pub connect : Text → K → OpcResult W × K

module _ {W : Type 0} where
  unfoldable pub find : Text → List (Text × W) → Option W
  find name [] = none
  find name ((key, w) ∷ rest) = if text_eq key name then some w else find name rest

  unfoldable pub evict : Text → List (Text × W) → List (Text × W)
  evict name [] = []
  evict name ((key, w) ∷ rest) =
      if text_eq key name then evict name rest else (key, w) ∷ evict name rest

  abbrev pub put : Text → W → List (Text × W) → List (Text × W)
  put name w cache = (name, w) ∷ evict name cache

pub record Pool (K W X : Type 0) : Type 0 where
  pub cache : List (Text × W)
  pub world : K
  pub shared : X

module _ {K W X A : Type 0} (connector : Connector K W) (name : Text)
    (operation : Act (W × X) A) where
  -- The operation on a server that is then in the pool.
  unfoldable pub run_on : W → Act (Pool K W X) A
  unfolding evict
  run_on w p =
      let (r, (w', x')) = operation (w, p.shared) in
      (r, record p { cache = put name w' p.cache; shared = x' })

  abbrev pub run_connected : OpcResult W × K → Pool K W X → Outcome A × Pool K W X
  run_connected (ok w, k) p = run_on w (record p { world = k })
  run_connected (err e, k) p = (failed e, record p { world = k })

  unfoldable pub connect_and_run : Act (Pool K W X) A
  unfolding run_on
  connect_and_run p = run_connected (connector.connect name p.world) p

  -- The retry after an error of the connection.
  abbrev pub retried : Outcome A × Pool K W X → Outcome A × Pool K W X
  retried (failed e, p) =
      if is_connection_error e
      then connect_and_run (record p { cache = evict name p.cache })
      else (failed e, p)
  retried (done a, p) = (done a, p)
  retried (exhausted, p) = (exhausted, p)

  -- A server that cannot be connected is no failed operation.
  abbrev pub attempted : OpcResult W × K → Pool K W X → Outcome A × Pool K W X
  attempted (ok w, k) p = retried (run_on w (record p { world = k }))
  attempted (err e, k) p = (failed e, record p { world = k })

  unfoldable pub dispatch_with_retry : Act (Pool K W X) A
  unfolding run_on connect_and_run is_connection_error find
  dispatch_with_retry p = elim (find name p.cache) [
    | some w ↦ retried (run_on w p)
    | none ↦ attempted (connector.connect name p.world) p
  ]
