-- ===== src/Browse/Da2.antt =====
-- opc-da-client/src/native_browse/da2.rs: a page of an OPC DA 2.x server, the branches first and then
-- the items that no branch has named.
use opc_cli.Prelude.{
  ℕ, zero, suc, Bool, true, false, not, ◌||◌, Option, none, some, List, [], ◌∷◌, ◌++◌, Text, codes,
  text_eq, if◌then◌else◌,
}
use opc_cli.Errors.{OpcError, OpcResult, ok, err, internal, contextual_browse_error}
use opc_cli.Provider.{
  is_flat, BrowseNodeKind, branch, item, branch_and_item, has_children, BrowseNodeFilter, branches,
  items, filter_eq, BrowseNode, BrowsePage,
}
use opc_cli.Act.{Act, return, fail, out_of_fuel, get, try, ◌>>=◌, ◌>>◌}
use opc_cli.Server.{
  Server, opc_branch, opc_leaf, opc_flat, navigable, rejected_invalid_argument,
  Da2BranchClassification, classify_da2_branch,
}
use opc_cli.Browse.Buffer.{BufferedBrowseIterator, new_buffered, Da2PageState, next, has_more}
use opc_cli.Browse.State.{
  BrowseSessionState, NodeState, NodeLocation, da2_location, da3_location, item_location,
  da2_continuation, lookup, call, call_map_err, insert_node, store_continuation,
}
use opc_cli.Browse.Path.{move_to_da2_path}
use opc_cli.Browse.Da3.{unknown_parent, childless_parent, incompatible_parent}

abbrev pub da2_path_of : NodeLocation → OpcResult (List Text)
da2_path_of (da2_location path) = ok path
da2_path_of (da3_location item_id) = err incompatible_parent
da2_path_of item_location = err incompatible_parent

unfoldable pub da2_parent : Option ℕ → List (ℕ × NodeState) → OpcResult (List Text)
unfolding lookup
da2_parent none nodes = ok []
da2_parent (some token) nodes = elim (lookup token nodes) [
  | none ↦ err unknown_parent
  | some node ↦
      if not (has_children node.kind) then err childless_parent else da2_path_of node.location
]

-- `HashSet::contains`.
unfoldable pub has_text : Text → List Text → Bool
has_text name [] = false
has_text name (t ∷ ts) = text_eq t name || has_text name ts

-- An iteration of the loop over the names: no name is left, the name is passed over, or it is a node.
pub data Turn : Type 0 where
  ended skipped : Da2PageState → Turn
  found : BrowseNode → Da2PageState → Turn

-- What a name of a branch becomes, if it is to be listed.
pub record Mapped : Type 0 where
  pub kind : BrowseNodeKind
  pub item_id : Option Text
  pub location : NodeLocation

abbrev pub merge : Text → Da2PageState → Da2PageState
merge name state = record state { merged_items = name ∷ state.merged_items }

unfoldable pub map_browse_da2_branch :
    BrowseNodeFilter → Text → Da2BranchClassification → Da2PageState → Option Mapped × Da2PageState
map_browse_da2_branch filter name c state =
    let path = state.parent_path ++ name ∷ [] in
    elim c.item_id [
      | some item_id ↦ elim c.navigation [
        | navigable ↦ (
          some (record {
            kind = branch_and_item;
            item_id = some item_id;
            location = da2_location path;
          }),
          merge name state,
        )
        | rejected_invalid_argument ↦
            if filter_eq filter branches then (none, merge name state) else (
              some (record { kind = item; item_id = some item_id; location = item_location }),
              merge name state,
            )
      ]
      | none ↦ elim c.navigation [
        | navigable ↦
            (some (record { kind = branch; item_id = none; location = da2_location path }), state)
        | rejected_invalid_argument ↦ (none, state)
      ]
    ]

module _ {W : Type 0} (server : Server W) (debug : Text → Text) (uuid : ℕ → ℕ) where
  -- An iterator of names, if the filter asks for it.
  unfoldable pub begin_names :
      Bool → ℕ → Text → List Text → Act (BrowseSessionState W) (Option BufferedBrowseIterator)
  begin_names wanted browse_type iterator_type path = if not wanted then return none else do
    source ← call (server.begin_da2_browse browse_type (some (codes "")) 0 0)
    return (some (new_buffered source iterator_type path))

  unfoldable pub start_da2_page :
      Option ℕ → BrowseNodeFilter → Act (BrowseSessionState W) Da2PageState
  unfolding da2_parent begin_names
  start_da2_page parent filter = do
    known ← get (λ s. s.nodes)
    parent_path ← try (da2_parent parent known)
    capabilities ← get (λ s. s.capabilities)
    let with_branches = not (filter_eq filter items)
    let with_items = not (filter_eq filter branches)
    if is_flat capabilities.namespace
        then (do
          names ← begin_names with_items opc_flat (codes "native DA2 flat iterator") parent_path
          return (record {
            parent_path = parent_path;
            branches = none;
            items = names;
            flat = true;
            merged_items = [];
          }))
        else do
          move_to_da2_path server parent_path
          below ←
              begin_names with_branches opc_branch (codes "native DA2 branch iterator") parent_path
          names ← begin_names with_items opc_leaf (codes "native DA2 item iterator") parent_path
          return (record {
            parent_path = parent_path;
            branches = below;
            items = names;
            flat = false;
            merged_items = [];
          })

  -- A name that is listed gets a token.
  unfoldable pub list_name : Text → Mapped → Da2PageState → Act (BrowseSessionState W) Turn
  unfolding insert_node
  list_name name m state = do
    token ← insert_node uuid m.kind m.location
    return (found (record { token = token; name = name; item_id = m.item_id; kind = m.kind }) state)

  unfoldable pub turn_branch :
      BrowseNodeFilter → Text → Da2PageState → Act (BrowseSessionState W) Turn
  unfolding map_browse_da2_branch list_name
  turn_branch filter name state = do
    let context = λ (e : OpcError).
        contextual_browse_error debug e (codes "classify_da2_branch") state.parent_path (some name)
    c ← call_map_err context (classify_da2_branch server name)
    let (mapped, state') = map_browse_da2_branch filter name c state
    elim mapped [ none ↦ return (skipped state') | some m ↦ list_name name m state' ]

  -- The item ID and whether the item has children: in a flat namespace the name is the ID.
  unfoldable pub map_item : Text → Da2PageState → Act (BrowseSessionState W) Mapped
  map_item name state =
      if state.flat
      then return (record { kind = item; item_id = some name; location = item_location })
      else do
        let context = λ (operation : Text) (e : OpcError).
            contextual_browse_error debug e operation state.parent_path (some name)
        item_id ← call_map_err (context (codes "get_item_id")) (server.get_item_id name)
        below ←
            call_map_err (context (codes "probe_da2_branch")) (server.da2_name_has_children name)
        return (
            if below
            then record {
              kind = branch_and_item;
              item_id = some item_id;
              location = da2_location (state.parent_path ++ name ∷ []);
            }
            else record { kind = item; item_id = some item_id; location = item_location })

  unfoldable pub turn_item : Text → Da2PageState → Act (BrowseSessionState W) Turn
  unfolding has_text map_item list_name
  turn_item name state =
      if has_text name state.merged_items
      then return (skipped state)
      else do m ← map_item name state; list_name name m state

  unfoldable pub turn_name :
      BrowseNodeFilter
      → Option (BrowseNodeKind × Text)
      → Da2PageState
      → Act (BrowseSessionState W) Turn
  unfolding turn_branch turn_item
  turn_name filter none state = return (ended state)
  turn_name filter (some (branch, name)) state = turn_branch filter name state
  turn_name filter (some (item, name)) state = turn_item name state
  turn_name filter (some (branch_and_item, name)) state =
      fail (internal (codes "DA2 browse returned an impossible combined node kind"))

  abbrev pub Collect : Type 0
  Collect = Da2PageState → Act (BrowseSessionState W) (List BrowseNode × Da2PageState)

  -- The loop goes on after a name that was passed over, and after one that was listed.
  abbrev pub after_turn :
      Collect → Collect → Turn → Act (BrowseSessionState W) (List BrowseNode × Da2PageState)
  after_turn skip add (ended state) = return ([], state)
  after_turn skip add (skipped state) = skip state
  after_turn skip add (found node state) = do rest ← add state; return (node ∷ rest.0, rest.1)

  -- The loop, with the room that is left in the page, on fuel.
  unfoldable pub collect :
      ℕ
      → ℕ
      → BrowseNodeFilter
      → Da2PageState
      → Act (BrowseSessionState W) (List BrowseNode × Da2PageState)
  unfolding turn_name
  collect fuel zero filter state = return ([], state)
  collect zero (suc room) filter state = out_of_fuel
  collect (suc fuel) (suc room) filter state = do
    let (name, state1) = next debug state
    n ← try name
    turn ← turn_name filter n state1
    after_turn (collect fuel (suc room) filter) (collect fuel room filter) turn

  unfoldable pub browse_da2 :
      ℕ → Option ℕ → BrowseNodeFilter → ℕ → Da2PageState → Act (BrowseSessionState W) BrowsePage
  unfolding collect
  browse_da2 fuel parent filter max_elements state = do
    if state.flat then return tt else move_to_da2_path server state.parent_path
    page ← collect fuel max_elements filter state
    let (more, state1) = has_more debug page.1
    if not more then return (record { nodes = page.0; continuation = none }) else do
      token ← store_continuation uuid (da2_continuation parent filter state1)
      return (record { nodes = page.0; continuation = some token })
