-- ===== src/Browse/Da3.antt =====
-- opc-da-client/src/native_browse/da3.rs: a page of an OPC DA 3.0 server.
use opc_cli.Prelude.{
  ℕ, Bool, true, false, not, Option, none, some, List, [], ◌∷◌, ◌++◌, Text, codes, if◌then◌else◌,
}
use opc_cli.Errors.{OpcError, OpcResult, ok, err, invalid_state, internal}
use opc_cli.Provider.{
  BrowseNodeKind, branch, item, branch_and_item, has_children, is_item, BrowseNodeFilter,
  BrowseNode, BrowsePage,
}
use opc_cli.Act.{Act, return, get, try, ◌>>=◌}
use opc_cli.Server.{Server, NativeBrowseElement}
use opc_cli.Browse.State.{
  BrowseSessionState, NodeState, NodeLocation, da2_location, da3_location, item_location,
  da3_continuation, lookup, call, insert_node, store_continuation,
}

unfoldable pub unknown_parent : OpcError
unknown_parent = invalid_state (codes "Browse parent node is invalid or belongs to another session")

unfoldable pub childless_parent : OpcError
childless_parent = invalid_state (codes "Browse parent node has no children")

unfoldable pub incompatible_parent : OpcError
incompatible_parent = invalid_state (codes "Browse parent node is incompatible with this session")

abbrev pub da3_item_of : NodeLocation → OpcResult (Option Text)
da3_item_of (da3_location item_id) = ok (some item_id)
da3_item_of (da2_location path) = err incompatible_parent
da3_item_of item_location = err incompatible_parent

-- The item ID to browse at: none at the root.
unfoldable pub da3_parent : Option ℕ → List (ℕ × NodeState) → OpcResult (Option Text)
unfolding lookup
da3_parent none nodes = ok none
da3_parent (some token) nodes = elim (lookup token nodes) [
  | none ↦ err unknown_parent
  | some node ↦
      if not (has_children node.kind) then err childless_parent else da3_item_of node.location
]

abbrev pub kind_of_flags : Bool → Bool → Option BrowseNodeKind
kind_of_flags true true = some branch_and_item
kind_of_flags true false = some branch
kind_of_flags false true = some item
kind_of_flags false false = none

unfoldable pub da3_kind : NativeBrowseElement → OpcResult BrowseNodeKind
da3_kind e = elim (kind_of_flags e.has_children e.is_item) [
  | none ↦ err (
      internal
        (codes "DA3 browse element '" ++ (e.name ++ codes "' is neither a branch nor an item")))
  | some kind ↦ elim e.item_id [
    | some item_id ↦ ok kind
    | none ↦
        if is_item kind
        then err (internal (codes "DA3 item '" ++ (e.name ++ codes "' did not include an item ID")))
        else ok kind
  ]
]

unfoldable pub da3_location_of : BrowseNodeKind → NativeBrowseElement → OpcResult NodeLocation
da3_location_of kind e =
    if has_children kind
    then elim e.item_id [
      | some item_id ↦ ok (da3_location item_id)
      | none ↦
          err (internal (codes "DA3 branch '" ++ (e.name ++ codes "' did not include an item ID")))
    ]
    else ok item_location

abbrev pub da3_node : ℕ → BrowseNodeKind → NativeBrowseElement → BrowseNode
da3_node token kind e = record {
  token = token;
  name = e.name;
  item_id = if is_item kind then e.item_id else none;
  kind = kind;
}

abbrev pub raw_or_error : Option Text → OpcResult Text
raw_or_error (some raw) = ok raw
raw_or_error none =
    err (internal (codes "DA3 server reported more elements without a continuation point"))

module _ {W : Type 0} (server : Server W) (uuid : ℕ → ℕ) where
  unfoldable pub map_da3_nodes :
      List NativeBrowseElement → Act (BrowseSessionState W) (List BrowseNode)
  unfolding da3_kind da3_location_of insert_node
  map_da3_nodes [] = return []
  map_da3_nodes (e ∷ es) = do
    kind ← try (da3_kind e)
    location ← try (da3_location_of kind e)
    token ← insert_node uuid kind location
    nodes ← map_da3_nodes es
    return (da3_node token kind e ∷ nodes)

  unfoldable pub store_da3_continuation :
      Option ℕ → BrowseNodeFilter → Bool → Option Text → Act (BrowseSessionState W) (Option ℕ)
  unfolding store_continuation
  store_da3_continuation parent filter more_elements raw_continuation =
      if not more_elements then return none else do
        raw ← try (raw_or_error raw_continuation)
        token ← store_continuation uuid (da3_continuation parent filter raw)
        return (some token)

  unfoldable pub browse_da3 :
      Option ℕ → BrowseNodeFilter → ℕ → Option Text → Act (BrowseSessionState W) BrowsePage
  unfolding da3_parent map_da3_nodes store_da3_continuation
  browse_da3 parent filter max_elements continuation = do
    known ← get (λ s. s.nodes)
    item_id ← try (da3_parent parent known)
    page ← call (server.browse_da3 item_id continuation max_elements filter)
    nodes ← map_da3_nodes page.elements
    next ← store_da3_continuation parent filter page.more_elements page.continuation
    return (record { nodes = nodes; continuation = next })
