-- ===== src/Inventory/State.antt =====
-- opc-da-client/src/inventory/state.rs and error.rs: branches to visit, pages and errors of the traversal.
use opc_cli.Prelude.{
  ℕ, Bool, true, false, ◌&&◌, Option, none, some, List, [], ◌∷◌, Text, if◌then◌else◌,
}
use opc_cli.Errors.{OpcError, OpcResult, contextual_browse_error}
use opc_cli.Provider.{BrowseCapabilities, BrowseNodeKind}
use opc_cli.Server.Guard.{GuardedBrowseIterator}

pub data InventoryError : Type 0 where
  was_cancelled : InventoryError
  failed : OpcError → InventoryError
  invalid_da2_branch : List Text → Text → InventoryError

-- `Result<T, InventoryError>`.
pub data InventoryResult (A : Type 0) : Type 0 where
  ok : A → InventoryResult A
  err : InventoryError → InventoryResult A

unfoldable pub contextual_inventory_error :
    (Text → Text) → InventoryError → Text → List Text → Option Text → InventoryError
contextual_inventory_error debug (failed e) operation path item =
    failed (contextual_browse_error debug e operation path item)
contextual_inventory_error debug was_cancelled operation path item = was_cancelled
contextual_inventory_error debug (invalid_da2_branch parent name) operation path item =
    invalid_da2_branch parent name

pub record BufferedBrowseIterator : Type 0 where
  pub inner : GuardedBrowseIterator
  pub pending : Option (OpcResult Text)

pub record Da2PageState : Type 0 where
  pub parent_path : List Text
  pub parent_item_id : Option Text
  pub branches : Option BufferedBrowseIterator
  pub items : Option BufferedBrowseIterator
  pub flat : Bool
  pub merged_items : List Text

pub record Da2Path : Type 0 where
  pub components : List Text
  pub item_id : Option Text

pub data BranchLocation : Type 0 where
  da3_branch : Option Text → BranchLocation
  da2_branch : Da2Path → BranchLocation

pub record BranchWork : Type 0 where
  pub location : BranchLocation
  pub breadcrumbs : List Text
  pub da3_continuation : Option Text
  pub da3_seen_continuations : List Text
  pub da3_consecutive_empty_pages : ℕ
  pub da2_state : Option Da2PageState

pub record InventoryNode : Type 0 where
  pub display_name : Text
  pub item_id : Option Text
  pub kind : BrowseNodeKind
  pub child : Option BranchLocation

pub data InventoryContinuation : Type 0 where
  da3_page : Text → InventoryContinuation
  da2_page : Da2PageState → InventoryContinuation

pub record InventoryPage : Type 0 where
  pub nodes : List InventoryNode
  pub continuation : Option InventoryContinuation

-- `root_item_id.map(|item_id| vec![item_id.to_owned()]).unwrap_or_default()`.
abbrev pub singleton_or_empty : Option Text → List Text
singleton_or_empty none = []
singleton_or_empty (some item_id) = item_id ∷ []

-- A branch of which no page was asked for yet.
abbrev pub unvisited : BranchLocation → List Text → BranchWork
unvisited location breadcrumbs = record {
  location = location;
  breadcrumbs = breadcrumbs;
  da3_continuation = none;
  da3_seen_continuations = [];
  da3_consecutive_empty_pages = 0;
  da2_state = none;
}

unfoldable pub initial_work : BrowseCapabilities → Option Text → BranchWork
initial_work capabilities root_item_id =
    unvisited
      (if capabilities.supports_da3
        then da3_branch root_item_id
        else da2_branch
            (record { components = singleton_or_empty root_item_id; item_id = root_item_id }))
      (singleton_or_empty root_item_id)

abbrev pub is_none : {A : Type 0} → Option A → Bool
is_none none = true
is_none (some a) = false

abbrev pub is_empty_list : List Text → Bool
is_empty_list [] = true
is_empty_list (t ∷ ts) = false

abbrev pub is_da3_root : BranchLocation → Bool
is_da3_root (da3_branch none) = true
is_da3_root _ = false

unfoldable pub is_initial_da3_root : BranchWork → Bool
is_initial_da3_root work =
    is_da3_root work.location && (is_none work.da3_continuation && is_empty_list work.breadcrumbs)
