-- ===== src/Browse/Path.antt =====
-- opc-da-client/src/native_browse/da2.rs: `move_to_da2_path`, which moves the server's browse position
-- from the path that the session remembers to another one.
use opc_cli.Prelude.{
  ℕ, zero, suc, ◌-◌, List, [], ◌∷◌, ◌++◌, Text, codes, text_eq, length, take, drop, if◌then◌else◌,
}
use opc_cli.Errors.{OpcResult, ok, err, invalid_state}
use opc_cli.Act.{Act, return, get, try, update, ◌>>=◌, ◌>>◌}
use opc_cli.Server.{Server, opc_browse_up, opc_browse_down}
use opc_cli.Browse.State.{BrowseSessionState, BrowseBackend, da3, da2, call}

-- `zip`, `take_while` and `count`.
unfoldable pub shared_length : List Text → List Text → ℕ
shared_length [] target = 0
shared_length (p ∷ ps) [] = 0
shared_length (p ∷ ps) (q ∷ qs) =
    let rest = shared_length ps qs in if text_eq p q then suc rest else 0

abbrev pub path_of : BrowseBackend → OpcResult (List Text)
path_of (da2 path) = ok path
path_of da3 = err (invalid_state (codes "DA2 browse position requested for a DA3 session"))

-- The path of a DA 2.x session is changed.
abbrev pub with_path : (List Text → List Text) → BrowseBackend → BrowseBackend
with_path f (da2 path) = da2 (f path)
with_path f da3 = da3

module _ {W : Type 0} (server : Server W) where
  unfoldable pub go_up : ℕ → Act (BrowseSessionState W) (Unit {0})
  go_up zero = return tt
  go_up (suc n) = do call (server.change_browse_position opc_browse_up (codes "")); go_up n

  unfoldable pub go_down : List Text → Act (BrowseSessionState W) (Unit {0})
  go_down [] = return tt
  go_down (branch ∷ branches) = do
    call (server.change_browse_position opc_browse_down branch)
    update (λ s. record s { backend = with_path (λ path. path ++ branch ∷ []) s.backend })
    go_down branches

  unfoldable pub move_to_da2_path : List Text → Act (BrowseSessionState W) (Unit {0})
  unfolding go_up go_down shared_length
  move_to_da2_path target = do
    backend ← get (λ s. s.backend)
    current ← try (path_of backend)
    let shared = shared_length current target
    go_up (length current - shared)
    update (λ s. record s { backend = with_path (take shared) s.backend })
    go_down (drop shared target)
