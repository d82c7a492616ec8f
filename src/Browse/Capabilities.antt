-- ===== src/Browse/Capabilities.antt =====
-- opc-da-client/src/native_browse/capabilities.rs: what a server can browse, and its namespace.
use opc_cli.Prelude.{ℕ, Bool, true, false, codes, ◌==◌, if◌then◌else◌}
use opc_cli.Errors.{OpcError, OpcResult, ok, err, not_implemented}
use opc_cli.Provider.{
  BrowseNamespace, flat_namespace, hierarchical, unknown_namespace, BrowseCapabilities,
}
use opc_cli.Server.{Server, opc_ns_flat, opc_ns_hierarchial}

abbrev pub max_browse_page_size : ℕ
max_browse_page_size = 1000

abbrev pub namespace_of : ℕ → OpcResult BrowseNamespace
namespace_of organization =
    if organization == opc_ns_flat
    then ok flat_namespace
    else if organization == opc_ns_hierarchial
    then ok hierarchical
    else err
        (OpcError.server (codes "Server returned an unknown namespace organization") organization)

abbrev pub capabilities_with : Bool → OpcResult BrowseNamespace → OpcResult BrowseCapabilities
capabilities_with da3_too (err e) = err e
capabilities_with da3_too (ok namespace) = ok (record {
  namespace = namespace;
  supports_da3 = da3_too;
  supports_da2 = true;
  max_page_size = max_browse_page_size;
})

abbrev pub organized : OpcResult ℕ → OpcResult BrowseNamespace
organized (err e) = err e
organized (ok organization) = namespace_of organization

unfoldable pub neither_browsing : OpcError
neither_browsing =
    not_implemented (codes "Server exposes neither OPC DA 3.0 nor OPC DA 2.x browsing")

unfoldable pub capabilities_for_server :
    {W : Type 0} → Server W → W → OpcResult BrowseCapabilities × W
capabilities_for_server server w =
    if server.supports_da2_browse w
    then (let (organization, w') = server.query_organization w in
        (capabilities_with (server.supports_da3_browse w) (organized organization), w'))
    else if server.supports_da3_browse w
    then (
      ok (record {
        namespace = unknown_namespace;
        supports_da3 = true;
        supports_da2 = false;
        max_page_size = max_browse_page_size;
      }),
      w,
    )
    else (err neither_browsing, w)
