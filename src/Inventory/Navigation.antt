-- ===== src/Inventory/Navigation.antt =====
-- opc-da-client/src/inventory/navigation.rs: `move_to_da2_path`, by the item id of the target where it has
-- one and the server can browse to it, else component by component.
use opc_cli.Prelude.{
  ℕ, zero, suc, ◌-◌, Bool, true, false, ◌&&◌, Option, none, some, List, [], ◌∷◌, ◌++◌, Text, codes,
  text_eq, length, take, drop, if◌then◌else◌,
}
use opc_cli.Errors.{
  contextual_browse_error, is_com_hresult, e_invalidarg_hresult, is_da2_browse_to_fallback_error,
}
use opc_cli.Act.{return, fail, get, update, catch, map_err, ◌>>=◌, ◌>>◌}
use opc_cli.Server.{Server, change_browse_position_to, opc_browse_up, opc_browse_down}
use opc_cli.Browse.Path.{shared_length}
use opc_cli.Inventory.State.{
  InventoryError, failed, invalid_da2_branch, contextual_inventory_error, Da2Path,
}
use opc_cli.Inventory.Context.{PageContext, Paged, paced_call}

abbrev pub same_path : List Text → List Text → Bool
same_path [] [] = true
same_path (p ∷ ps) (q ∷ qs) = text_eq p q && same_path ps qs
same_path _ _ = false

abbrev pub last : List Text → Option Text
last [] = none
last (t ∷ []) = some t
last (t ∷ u ∷ ts) = last (u ∷ ts)

module _ {W : Type 0} where
  abbrev pub with_path : (List Text → List Text) → PageContext W → PageContext W
  with_path f s = record s { current_da2_path = f s.current_da2_path }

module _ {W : Type 0} (server : Server W) (debug : Text → Text) (proceeds : ℕ → Bool) where
  unfoldable pub go_up : ℕ → List Text → Paged W (Unit {0})
  unfolding paced_call map_err contextual_inventory_error
  go_up zero path = return tt
  go_up (suc n) path = do
    map_err
        (λ e.
          contextual_inventory_error debug e (codes "change_browse_position(up)") path (last path))
        (paced_call proceeds (server.change_browse_position opc_browse_up (codes "")))
    go_up n path

  -- A component that the server refuses as an invalid argument is an invalid branch.
  unfoldable pub refused : Text → List Text → InventoryError → InventoryError
  unfolding contextual_inventory_error
  refused branch path (failed e) =
      if is_com_hresult e e_invalidarg_hresult
      then invalid_da2_branch path branch
      else contextual_inventory_error debug (failed e) (codes "change_browse_position(down)") path
          (some branch)
  refused branch path e =
      contextual_inventory_error debug e (codes "change_browse_position(down)") path (some branch)

  unfoldable pub go_down : List Text → Paged W (Unit {0})
  unfolding refused paced_call map_err
  go_down [] = return tt
  go_down (branch ∷ branches) = do
    path ← get (λ s. s.current_da2_path)
    map_err (refused branch path)
        (paced_call proceeds (server.change_browse_position opc_browse_down branch))
    update (with_path (λ path. path ++ branch ∷ []))
    go_down branches

  unfoldable pub move_by_components : List Text → Paged W (Unit {0})
  unfolding go_up go_down shared_length
  move_by_components target = do
    current ← get (λ s. s.current_da2_path)
    let shared = shared_length current target
    go_up (length current - shared) current
    update (with_path (take shared))
    go_down (drop shared target)

  -- What comes after the call that browses to the item: where the server cannot, the components.
  unfoldable pub after_browse_to : List Text → Text → Option InventoryError → Paged W (Unit {0})
  unfolding move_by_components
  after_browse_to target item_id none = update (with_path (λ _. target))
  after_browse_to target item_id (some (failed e)) =
      if is_da2_browse_to_fallback_error e
      then move_by_components target
      else fail (
          failed (
            contextual_browse_error debug e (codes "change_browse_position_to") target
              (some item_id)))
  after_browse_to target item_id (some e) = fail e

  unfoldable pub browse_to : List Text → Text → Paged W (Unit {0})
  unfolding after_browse_to paced_call change_browse_position_to
  browse_to target item_id = do
    error ← catch (paced_call proceeds (change_browse_position_to server item_id))
    after_browse_to target item_id error

  unfoldable pub move_to_da2_path : Da2Path → Paged W (Unit {0})
  unfolding browse_to move_by_components
  move_to_da2_path target = elim target.item_id [
    | none ↦ move_by_components target.components
    | some item_id ↦ do
      current ← get (λ s. s.current_da2_path)
      if same_path current target.components
          then move_by_components target.components
          else browse_to target.components item_id
  ]
