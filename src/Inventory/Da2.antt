-- ===== src/Inventory/Da2.antt =====
-- opc-da-client/src/inventory/da2.rs: a page of an OPC DA 2.x branch, and the part of `next_page` in da3.rs
-- that asks for one. The loop over the names runs on fuel, since a server may repeat names that are
-- passed over. The state of a page that fails is dropped, as its owner drops it.
pub mod Names
use opc_cli.Prelude.{
  ℕ, zero, suc, Bool, true, false, Option, none, some, List, [], ◌∷◌, ◌++◌, Text, codes,
  if◌then◌else◌,
}
use opc_cli.Errors.{internal, contextual_browse_error, is_com_hresult, e_invalidarg_hresult}
use opc_cli.Provider.{BrowseNamespace, is_flat, BrowseNodeKind, branch, item, branch_and_item}
use opc_cli.Act.{return, fail, update, map_err, or_else, out_of_fuel, ◌>>=◌, ◌>>◌}
use opc_cli.Server.{Server, resolve_da2_item_id, opc_branch, opc_leaf, opc_flat}
use opc_cli.Browse.Da2.{has_text}
use opc_cli.Inventory.State.{
  InventoryError, failed, invalid_da2_branch, contextual_inventory_error, BufferedBrowseIterator,
  Da2PageState, Da2Path, da2_branch, BranchWork, InventoryNode, InventoryPage,
  InventoryContinuation, da2_page,
}
use opc_cli.Inventory.Progress.{record_skipped_invalid_branch}
use opc_cli.Inventory.Context.{PageContext, Paged, paced_call, new_buffered}
use opc_cli.Inventory.Navigation.{move_to_da2_path}
use opc_cli.Inventory.Da2.Names.{next, has_more}

abbrev pub kind_of_branch : Option Text → BrowseNodeKind
kind_of_branch none = branch
kind_of_branch (some item_id) = branch_and_item

-- The name of a branch that is an item too is passed over among the items.
abbrev pub merge : Text → Option Text → Da2PageState → Da2PageState
merge name none state = state
merge name (some item_id) state = record state { merged_items = name ∷ state.merged_items }

abbrev pub branch_node : List Text → Text → Option Text → InventoryNode
branch_node path name item_id = record {
  display_name = name;
  item_id = item_id;
  kind = kind_of_branch item_id;
  child = some (da2_branch (record { components = path ++ name ∷ []; item_id = item_id }));
}

abbrev pub item_node : Text → Text → InventoryNode
item_node name item_id = record {
  display_name = name;
  item_id = some item_id;
  kind = item;
  child = none;
}

module _ {W : Type 0} (server : Server W) (debug : Text → Text) (proceeds : ℕ → Bool) where
  -- `begin_da2_browse`, with the path in its errors.
  unfoldable pub begin_names : ℕ → Text → Text → List Text → Paged W BufferedBrowseIterator
  unfolding paced_call map_err contextual_inventory_error new_buffered
  begin_names browse_type operation iterator_type path = do
    source ←
        map_err (λ e. contextual_inventory_error debug e operation path none)
          (paced_call proceeds (server.begin_da2_browse browse_type (some (codes "")) 0 0))
    return (new_buffered source iterator_type path)

  unfoldable pub begin_branches : Bool → List Text → Paged W (Option BufferedBrowseIterator)
  unfolding begin_names
  begin_branches flat path = if flat then return none else do
    names ←
        begin_names opc_branch (codes "begin_da2_browse(branches)")
          (codes "inventory DA2 branch iterator") path
    return (some names)

  unfoldable pub begin_items : Bool → List Text → Paged W BufferedBrowseIterator
  unfolding begin_names
  begin_items flat path =
      if flat
      then begin_names opc_flat (codes "begin_da2_browse(flat)")
          (codes "inventory DA2 flat iterator") path
      else begin_names opc_leaf (codes "begin_da2_browse(items)")
          (codes "inventory DA2 item iterator") path

  unfoldable pub start_da2_page : BrowseNamespace → Da2Path → Paged W Da2PageState
  unfolding move_to_da2_path begin_branches begin_items
  start_da2_page namespace path = do
    move_to_da2_path server debug proceeds path
    below ← begin_branches (is_flat namespace) path.components
    names ← begin_items (is_flat namespace) path.components
    return (record {
      parent_path = path.components;
      parent_item_id = path.item_id;
      branches = below;
      items = some names;
      flat = is_flat namespace;
      merged_items = [];
    })

  -- A name that is no item, or that the server refuses as an invalid argument, has no item id.
  unfoldable pub without_item_id : List Text → Text → InventoryError → Paged W (Option Text)
  without_item_id path name (failed e) =
      if is_com_hresult e e_invalidarg_hresult
      then return none
      else fail (
          failed (
            contextual_browse_error debug e (codes "resolve_da2_item_id(get_item_id)") path
              (some name)))
  without_item_id path name e = fail e

  unfoldable pub map_inventory_da2_branch :
      Text → Da2PageState → Paged W (InventoryNode × Da2PageState)
  unfolding without_item_id paced_call or_else resolve_da2_item_id
  map_inventory_da2_branch name state = do
    item_id ←
        or_else (paced_call proceeds (resolve_da2_item_id server name))
          (without_item_id state.parent_path name)
    return (branch_node state.parent_path name item_id, merge name item_id state)

  -- In a flat namespace the name is the item id.
  unfoldable pub item_id_of : Text → Da2PageState → Paged W Text
  unfolding paced_call map_err contextual_inventory_error
  item_id_of name state =
      if state.flat
      then return name
      else map_err
          (λ e.
            contextual_inventory_error debug e (codes "get_item_id") state.parent_path (some name))
          (paced_call proceeds (server.get_item_id name))

  abbrev pub Collect : Type 0
  Collect = Da2PageState → Paged W (List InventoryNode × Da2PageState)

  abbrev pub add_node :
      Collect → InventoryNode × Da2PageState → Paged W (List InventoryNode × Da2PageState)
  add_node add (node, state) = do rest ← add state; return (node ∷ rest.0, rest.1)

  -- A turn of the loop: it goes on after a name that was passed over, and after a node that was added.
  unfoldable pub turn_name :
      Collect
      → Collect
      → Option (BrowseNodeKind × Text)
      → Da2PageState
      → Paged W (List InventoryNode × Da2PageState)
  unfolding map_inventory_da2_branch item_id_of has_text
  turn_name skip add none state = return ([], state)
  turn_name skip add (some (branch, name)) state = do
    found ← map_inventory_da2_branch name state
    add_node add found
  turn_name skip add (some (item, name)) state =
      if has_text name state.merged_items
      then skip state
      else do item_id ← item_id_of name state; add_node add (item_node name item_id, state)
  turn_name skip add (some (branch_and_item, name)) state =
      fail (failed (internal (codes "DA2 browse returned an impossible combined node kind")))

  -- The loop, with the room that is left in the page.
  unfoldable pub collect : ℕ → ℕ → Da2PageState → Paged W (List InventoryNode × Da2PageState)
  unfolding turn_name next map_err contextual_inventory_error
  collect fuel zero state = return ([], state)
  collect zero (suc room) state = out_of_fuel
  collect (suc fuel) (suc room) state = do
    named ←
        map_err
          (λ e.
            contextual_inventory_error debug e (codes "enumerate_da2_names") state.parent_path none)
          (next proceeds debug state)
    turn_name (collect fuel (suc room)) (collect fuel room) named.0 named.1

  unfoldable pub browse_da2_page :
      ℕ → ℕ → Da2PageState → Paged W (List InventoryNode × Option Da2PageState)
  unfolding collect has_more move_to_da2_path
  browse_da2_page fuel batch_size state = do
    move_to_da2_path server debug proceeds
        (record { components = state.parent_path; item_id = state.parent_item_id })
    page ← collect fuel batch_size state
    rest ← has_more proceeds debug page.1
    return (page.0, if rest.0 then some rest.1 else none)

  abbrev pub continued : Option Da2PageState → Option InventoryContinuation
  continued none = none
  continued (some state) = some (da2_page state)

  unfoldable pub state_of : BrowseNamespace → Da2Path → BranchWork → Paged W Da2PageState
  unfolding start_da2_page
  state_of namespace path work = elim work.da2_state [
    | some state ↦ return state
    | none ↦ start_da2_page namespace path
  ]

  -- A branch that cannot be entered is passed over: its page is empty.
  unfoldable pub pass_over : BranchWork → InventoryError → Paged W (InventoryPage × BranchWork)
  unfolding record_skipped_invalid_branch
  pass_over work (invalid_da2_branch parent_path name) = do
    update (λ s. record s {
      skipped_invalid_branches =
          record_skipped_invalid_branch debug s.skipped_invalid_branches parent_path name;
    })
    return (record { nodes = []; continuation = none }, record work { da2_state = none })
  pass_over work e = fail e

  unfoldable pub page_of_branch :
      BrowseNamespace → ℕ → ℕ → Da2Path → BranchWork → Paged W (InventoryPage × BranchWork)
  unfolding state_of browse_da2_page
  page_of_branch namespace fuel batch_size path work = do
    state ← state_of namespace path work
    page ← browse_da2_page fuel batch_size state
    return (
      record { nodes = page.0; continuation = continued page.1 },
      record work { da2_state = none },
    )

  -- `next_page` on an OPC DA 2.x branch.
  unfoldable pub next_da2_page :
      BrowseNamespace → ℕ → ℕ → Da2Path → BranchWork → Paged W (InventoryPage × BranchWork)
  unfolding page_of_branch or_else pass_over
  next_da2_page namespace fuel batch_size path work =
      or_else (page_of_branch namespace fuel batch_size path work) (pass_over work)
