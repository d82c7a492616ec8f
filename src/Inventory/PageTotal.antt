-- ===== src/Inventory/PageTotal.antt =====
-- The parts of an OPC DA 2.x page of opc-da-client/src/inventory/ that have no loop on fuel return.
use opc_cli.Prelude.{
  ℕ, zero, suc, Bool, Option, none, some, List, [], ◌∷◌, Text, Option-cases, inl, inr,
}
use opc_cli.Errors.{OpcResult, ok, err}
use opc_cli.Act.{outcome_as, return}
use opc_cli.Act.Returns.{HasReturned}
use opc_cli.Act.Total.{
  IsTotal, total_rules, IsTotal-return, IsTotal-fail, IsTotal-bind, IsTotal-update, IsTotal-get,
  IsTotal-catch, IsTotal-map_err,
}
use opc_cli.Server.{Server}
use opc_cli.Inventory.State.{
  InventoryError, was_cancelled, failed, invalid_da2_branch, BufferedBrowseIterator, Da2PageState,
  Da2Path, BranchWork,
}
use opc_cli.Inventory.Context.{ask_boundary, ask_server, paced_call, next_native, look_ahead}
use opc_cli.Inventory.Navigation.{
  go_up, go_down, move_by_components, after_browse_to, browse_to, move_to_da2_path,
}
use opc_cli.Inventory.Da2.Names.{skip_branches, items_have_more, branches_have_more, has_more}
use opc_cli.Inventory.Da2.{without_item_id, item_id_of, pass_over}

module _ {W : Type 0} (server : Server W) (debug : Text → Text) (proceeds : ℕ → Bool) where
  outcome_as-returns :
      {A : Type 0} (r : OpcResult A) → HasReturned (λ _. Unit) (outcome_as failed r)
  outcome_as-returns (ok a) = tt
  outcome_as-returns (err e) = tt

  pub ask_boundary-IsTotal : IsTotal (ask_boundary {W = W} proceeds)
  unfolding ask_boundary return
  ask_boundary-IsTotal = record { from = λ s h. tt }

  ask_server-IsTotal :
      {A : Type 0} (method : W → OpcResult A × W) → IsTotal (ask_server proceeds method)
  unfolding ask_server
  ask_server-IsTotal method = record { from = λ s h. outcome_as-returns (method s.server).0 }

  pub paced_call-IsTotal :
      {A : Type 0} (method : W → OpcResult A × W) → IsTotal (paced_call proceeds method)
  unfolding paced_call
  paced_call-IsTotal method = search (total_rules, ask_boundary-IsTotal, ask_server-IsTotal)

  look_ahead-IsTotal : (b : BufferedBrowseIterator) → IsTotal (look_ahead {W = W} proceeds debug b)
  unfolding look_ahead next_native
  look_ahead-IsTotal b = elim (Option-cases b.pending) [
    | inl e ↦ rw (e, look_ahead) (search (total_rules, ask_boundary-IsTotal))
    | inr (v, e) ↦ rw (e, look_ahead) (IsTotal-return _)
  ]

  pub skip_branches-IsTotal :
      (state : Da2PageState) → IsTotal (skip_branches {W = W} proceeds debug state)
  unfolding skip_branches
  skip_branches-IsTotal state = search (total_rules)

  items_have_more-IsTotal :
      (state : Da2PageState) → IsTotal (items_have_more {W = W} proceeds debug state)
  unfolding items_have_more
  items_have_more-IsTotal state = elim (Option-cases state.items) [
    | inl e ↦ rw (e, items_have_more) (IsTotal-return _)
    | inr (b, e) ↦ rw (e, items_have_more) (search (total_rules, look_ahead-IsTotal))
  ]

  branches_have_more-IsTotal :
      (state : Da2PageState) (b : BufferedBrowseIterator)
      → IsTotal (branches_have_more {W = W} proceeds debug state b)
  unfolding branches_have_more
  branches_have_more-IsTotal state b =
      search (total_rules, skip_branches-IsTotal, items_have_more-IsTotal) depth 8

  pub has_more-IsTotal : (state : Da2PageState) → IsTotal (has_more {W = W} proceeds debug state)
  unfolding has_more
  has_more-IsTotal state = elim (Option-cases state.branches) [
    | inl e ↦ rw (e, has_more) (items_have_more-IsTotal state)
    | inr (b, e) ↦
        rw (e, has_more) (search (total_rules, look_ahead-IsTotal, branches_have_more-IsTotal))
  ]

  go_up-IsTotal : (n : ℕ) (path : List Text) → IsTotal (go_up server debug proceeds n path)
  unfolding go_up
  go_up-IsTotal zero path = IsTotal-return tt
  go_up-IsTotal (suc n) path =
      IsTotal-bind _ _ (IsTotal-map_err _ _ (paced_call-IsTotal _)) (λ _. go_up-IsTotal n path)

  go_down-IsTotal : (bs : List Text) → IsTotal (go_down server debug proceeds bs)
  unfolding go_down
  go_down-IsTotal [] = IsTotal-return tt
  go_down-IsTotal (b ∷ bs) = IsTotal-bind _ _ (IsTotal-get (λ s. s.current_da2_path)) λ path.
      IsTotal-bind _ _ (IsTotal-map_err _ _ (paced_call-IsTotal _))
        (λ _. IsTotal-bind _ _ (IsTotal-update _) (λ _. go_down-IsTotal bs))

  move_by_components-IsTotal :
      (target : List Text) → IsTotal (move_by_components server debug proceeds target)
  unfolding move_by_components
  move_by_components-IsTotal target = search (total_rules, go_up-IsTotal, go_down-IsTotal) depth 9

  after_browse_to-IsTotal :
      (target : List Text) (id : Text) (o : Option InventoryError)
      → IsTotal (after_browse_to server debug proceeds target id o)
  unfolding after_browse_to
  after_browse_to-IsTotal target id none = IsTotal-update _
  after_browse_to-IsTotal target id (some (failed e)) =
      search (total_rules, move_by_components-IsTotal)
  after_browse_to-IsTotal target id (some was_cancelled) = IsTotal-fail was_cancelled
  after_browse_to-IsTotal target id (some (invalid_da2_branch parent b)) =
      IsTotal-fail (invalid_da2_branch parent b)

  browse_to-IsTotal :
      (target : List Text) (id : Text) → IsTotal (browse_to server debug proceeds target id)
  unfolding browse_to
  browse_to-IsTotal target id =
      search (total_rules, IsTotal-catch, paced_call-IsTotal, after_browse_to-IsTotal)

  pub move_to_da2_path-IsTotal :
      (target : Da2Path) → IsTotal (move_to_da2_path server debug proceeds target)
  unfolding move_to_da2_path
  move_to_da2_path-IsTotal target = elim (Option-cases target.item_id) [
    | inl e ↦ rw (e, move_to_da2_path) (move_by_components-IsTotal target.components)
    | inr (id, e) ↦
        rw (e, move_to_da2_path)
          (search (total_rules, move_by_components-IsTotal, browse_to-IsTotal))
  ]

  pub without_item_id-IsTotal :
      (path : List Text) (name : Text) (e : InventoryError)
      → IsTotal (without_item_id server debug proceeds path name e)
  unfolding without_item_id
  without_item_id-IsTotal path name (failed e) = search (total_rules)
  without_item_id-IsTotal path name was_cancelled = IsTotal-fail was_cancelled
  without_item_id-IsTotal path name (invalid_da2_branch parent b) =
      IsTotal-fail (invalid_da2_branch parent b)

  pub item_id_of-IsTotal :
      (name : Text) (state : Da2PageState) → IsTotal (item_id_of server debug proceeds name state)
  unfolding item_id_of
  item_id_of-IsTotal name state = search (total_rules, paced_call-IsTotal)

  pub pass_over-IsTotal :
      (work : BranchWork) (e : InventoryError) → IsTotal (pass_over server debug proceeds work e)
  unfolding pass_over
  pass_over-IsTotal work (failed e) = IsTotal-fail (failed e)
  pass_over-IsTotal work was_cancelled = IsTotal-fail was_cancelled
  pass_over-IsTotal work (invalid_da2_branch parent b) = search (total_rules)
