-- ===== src/Server.antt =====
-- opc-da-client/src/backend/connector.rs: the trait `ConnectedServer` as far as browsing uses it, the
-- values that it returns, the classification of DA 2.x names, and the guard of name iterators. A
-- server is a state `W` with the methods of the trait as functions; a method takes `&self`, but the
-- server behind it keeps a browse position, so each call gives the next state. An iterator of names is
-- its answer to each call.
pub mod Guard
use opc_cli.Prelude.{
  ℕ, Bool, true, false, Option, none, some, List, Text, codes, ◌||◌, ◌==◌, if◌then◌else◌,
}
use opc_cli.Errors.{
  OpcError, OpcResult, ok, err, com_error, not_implemented, is_com_hresult, e_invalidarg_hresult,
}
use opc_cli.Provider.{BrowseNodeFilter}

-- The constants of opc-da-client/src/bindings/da/bindings.rs.
abbrev pub opc_ns_hierarchial : ℕ
opc_ns_hierarchial = 1

abbrev pub opc_ns_flat : ℕ
opc_ns_flat = 2

abbrev pub opc_browse_up : ℕ
opc_browse_up = 1

abbrev pub opc_browse_down : ℕ
opc_browse_down = 2

abbrev pub opc_browse_to : ℕ
opc_browse_to = 3

abbrev pub opc_branch : ℕ
opc_branch = 1

abbrev pub opc_leaf : ℕ
opc_leaf = 2

abbrev pub opc_flat : ℕ
opc_flat = 3

pub record NativeBrowseElement : Type 0 where
  pub name : Text
  pub item_id : Option Text
  pub has_children : Bool
  pub is_item : Bool

pub record NativeBrowsePage : Type 0 where
  pub elements : List NativeBrowseElement
  pub more_elements : Bool
  pub continuation : Option Text

-- `Box<dyn BrowseStringIterator>`: what `next_string` answers to each call, and the calls made.
pub record NameSource : Type 0 where
  pub answers : ℕ → Option (OpcResult Text)
  pub calls : ℕ

-- The methods of `ConnectedServer` that browse; those of groups are left out.
pub record Server (W : Type 0) : Type 0 where
  pub supports_da3_browse : W → Bool
  pub supports_da2_browse : W → Bool
  pub query_organization : W → OpcResult ℕ × W
  pub change_browse_position : ℕ → Text → W → OpcResult (Unit {0}) × W
  pub get_item_id : Text → W → OpcResult Text × W
  pub da2_name_has_children : Text → W → OpcResult Bool × W
  pub begin_da2_browse : ℕ → Option Text → ℕ → ℕ → W → OpcResult NameSource × W
  pub browse_da3 :
      Option Text → Option Text → ℕ → BrowseNodeFilter → W → OpcResult NativeBrowsePage × W

pub data Da2BranchNavigation : Type 0 where
  navigable rejected_invalid_argument : Da2BranchNavigation

pub record Da2BranchClassification : Type 0 where
  pub item_id : Option Text
  pub navigation : Da2BranchNavigation

module _ {W : Type 0} (server : Server W) where
  -- The trait's default method.
  unfoldable pub change_browse_position_to : Text → W → OpcResult (Unit {0}) × W
  change_browse_position_to item_id w = server.change_browse_position opc_browse_to item_id w

  -- OPC_E_UNKNOWNITEMID and OPC_E_INVALIDITEMID say that the name is no item.
  unfoldable pub item_or_none : OpcResult Text → OpcResult (Option Text)
  item_or_none (ok item_id) = ok (some item_id)
  item_or_none (err e) =
      if is_com_hresult e 0xC0040007 || is_com_hresult e 0xC0040008 then ok none else err e

  -- The trait's default method.
  unfoldable pub resolve_da2_item_id : Text → W → OpcResult (Option Text) × W
  unfolding item_or_none
  resolve_da2_item_id name w = let (r, w') = server.get_item_id name w in (item_or_none r, w')

  unfoldable pub item_of_branch : OpcResult (Option Text) → OpcResult (Option Text)
  item_of_branch (ok item_id) = ok item_id
  item_of_branch (err e) = if is_com_hresult e e_invalidarg_hresult then ok none else err e

  -- What the movement back up says: an error there is the error of the probe.
  abbrev pub came_back : OpcResult (Unit {0}) × W → OpcResult Da2BranchNavigation × W
  came_back (ok _, w) = (ok navigable, w)
  came_back (err e, w) = (err e, w)

  unfoldable pub went_down : OpcResult (Unit {0}) × W → OpcResult Da2BranchNavigation × W
  went_down (ok _, w) = came_back (server.change_browse_position opc_browse_up (codes "") w)
  went_down (err e, w) =
      if is_com_hresult e e_invalidarg_hresult
      then (ok rejected_invalid_argument, w)
      else (err e, w)

  abbrev pub classified :
      Option Text → OpcResult Da2BranchNavigation × W → OpcResult Da2BranchClassification × W
  classified item_id (ok navigation, w) =
      (ok (record { item_id = item_id; navigation = navigation }), w)
  classified item_id (err e, w) = (err e, w)

  unfoldable pub classify_da2_branch : Text → W → OpcResult Da2BranchClassification × W
  unfolding item_of_branch went_down resolve_da2_item_id
  classify_da2_branch name w =
      let (resolved, w1) = resolve_da2_item_id name w in
      elim (item_of_branch resolved) [
        | err e ↦ (err e, w1)
        | ok item_id ↦
            classified item_id (went_down (server.change_browse_position opc_browse_down name w1))
      ]
