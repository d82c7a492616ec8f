-- ===== src/Inventory/Capabilities.antt =====
-- opc-da-client/src/inventory/capabilities.rs: what a server can browse, asked through the boundary.
use opc_cli.Prelude.{ℕ, Bool, not, ◌&&◌, if◌then◌else◌}
use opc_cli.Provider.{BrowseCapabilities, BrowseNamespace, unknown_namespace}
use opc_cli.Act.{return, fail, get, outcome_as, ◌>>=◌}
use opc_cli.Errors.{OpcResult}
use opc_cli.Server.{Server}
use opc_cli.Browse.Capabilities.{max_browse_page_size, namespace_of, neither_browsing}
use opc_cli.Inventory.State.{failed}
use opc_cli.Inventory.Context.{Paged, paced_call}

module _ {W : Type 0} (server : Server W) (proceeds : ℕ → Bool) where
  unfoldable pub known_namespace : OpcResult BrowseNamespace → Paged W BrowseNamespace
  known_namespace r s = (outcome_as failed r, s)

  unfoldable pub namespace_of_server : Bool → Paged W BrowseNamespace
  unfolding paced_call known_namespace
  namespace_of_server supports_da2 = if not supports_da2 then return unknown_namespace else do
    organization ← paced_call proceeds server.query_organization
    known_namespace (namespace_of organization)

  unfoldable pub capabilities_for_inventory : Paged W BrowseCapabilities
  unfolding namespace_of_server neither_browsing
  capabilities_for_inventory = do
    da3 ← get (λ s. server.supports_da3_browse s.server)
    da2 ← get (λ s. server.supports_da2_browse s.server)
    if not da3 && not da2 then fail (failed neither_browsing) else do
      namespace ← namespace_of_server da2
      return (record {
        namespace = namespace;
        supports_da3 = da3;
        supports_da2 = da2;
        max_page_size = max_browse_page_size;
      })
