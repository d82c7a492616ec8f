-- ===== src/Inventory/MovedTo.antt =====
-- `move_to_da2_path` of opc-da-client/src/inventory/navigation.rs puts the server at its target.
use opc_cli.Prelude.{
  ℕ, ◌+◌, ◌-◌, ◌≡◌, refl, sym, ap, ◌∙◌, Bool, Option, none, some, List, Text, length, take, drop,
  arith, Option-cases, inl, inr,
}
use opc_cli.Errors.{is_da2_browse_to_fallback_error}
use opc_cli.Act.Triple.{
  Triple, Triple-bind, Triple-fail, Triple-if, Triple-get, Triple-update, Triple-catch, Triple-fact,
  Triple-after,
}
use opc_cli.Server.{Server}
use opc_cli.Browse.Cursor.{Moves}
use opc_cli.Browse.Levels.{take-shared_length, shared_length_le, above-take}
use opc_cli.Browse.Path.{shared_length}
use opc_cli.Inventory.State.{InventoryError, was_cancelled, failed, invalid_da2_branch, Da2Path}
use opc_cli.Inventory.Context.{PageContext}
use opc_cli.Inventory.Navigation.{
  with_path, go_down, move_by_components, after_browse_to, browse_to, move_to_da2_path, same_path,
}
use opc_cli.Inventory.Moved.{
  BrowsesTo, Denotes, IsAt, IsSynced, Passes, paced_call-Triple, go_up-IsAt, go_down-IsAt,
}

module _ {W : Type 0} (server : Server W) (position : W → List Text) (debug : Text → Text)
    (proceeds : ℕ → Bool) where
  module _ (moves : Moves server position) where
    subst_target :
        (bs from there target : List Text)
        → there ≡ target
        → Triple
            (IsAt server position from from)
            (λ _. IsAt server position there there)
            (Passes server position)
            (go_down server debug proceeds bs)
        → Triple
            (IsAt server position from from)
            (λ _. IsAt server position target target)
            (Passes server position)
            (go_down server debug proceeds bs)
    subst_target bs from there target same h = rw (← same) h

    move_by_components-IsAt :
        (target path : List Text)
        → Triple
            (IsAt server position path path)
            (λ _. IsAt server position target target)
            (Passes server position)
            (move_by_components server debug proceeds target)
    unfolding move_by_components
    move_by_components-IsAt target path =
        let k = shared_length path target in
        let n_up : k + (length path - k) ≡ length path =
          omega (arith, shared_length_le path target) in
        Triple-bind (λ shown s. (shown ≡ path) × IsAt server position path path s) _ _
          (Triple-get (λ s. s.current_da2_path) (λ s h. (h.0, h)))
          λ shown. Triple-fact λ is. rw is (
            Triple-bind (λ _. IsAt server position path (take k path)) _ _
              (rw (← above-take (length path - k) k path n_up)
                (go_up-IsAt server position debug proceeds moves (length path - k) path path path))
              λ _.
                Triple-bind (λ _. IsAt server position (take k path) (take k path)) _ _
                  (Triple-update (with_path (take k)) (λ s h. (ap (take k) h.0, h.1)))
                  (λ _. subst_target _ _ _ target (take-shared_length path target) (
                    go_down-IsAt server position debug proceeds moves (drop k target)
                      (take k path))))

    -- Where the server is after the call that browses to the target.
    abbrev IsSent : List Text → List Text → Option InventoryError → PageContext W → Type 0
    IsSent path target none s = IsAt server position path target s
    IsSent path target (some e) s = IsAt server position path path s

    after_browse_to-IsAt :
        (target path : List Text) (id : Text) (o : Option InventoryError)
        → Triple
            (IsSent path target o)
            (λ _. IsAt server position target target)
            (Passes server position)
            (after_browse_to server debug proceeds target id o)
    unfolding after_browse_to
    after_browse_to-IsAt target path id none =
        Triple-update (with_path (λ _. target)) (λ s h. (refl, h.1))
    after_browse_to-IsAt target path id (some (failed e)) =
        Triple-if (is_da2_browse_to_fallback_error e) _ _
          (λ can. move_by_components-IsAt target path) (λ cannot. Triple-fail _ (λ s h. tt))
    after_browse_to-IsAt target path id (some was_cancelled) = Triple-fail was_cancelled (λ s h. tt)
    after_browse_to-IsAt target path id (some (invalid_da2_branch parent name)) =
        Triple-fail (invalid_da2_branch parent name) (λ s h. h.0 ∙ sym h.1)

  module _ (path_of : Text → List Text) (browses : BrowsesTo server position path_of) where
    browse_to-IsAt :
        (target path : List Text) (id : Text)
        → path_of id ≡ target
        → Triple
            (IsAt server position path path)
            (λ _. IsAt server position target target)
            (Passes server position)
            (browse_to server debug proceeds target id)
    unfolding browse_to
    browse_to-IsAt target path id denotes =
        Triple-bind (IsSent browses.moves path target) _ _
          (Triple-catch (λ _. IsAt server position path target)
            (λ _. IsAt server position path path) _
            (paced_call-Triple server position proceeds (IsAt server position path path)
              (λ _. IsAt server position path target) (λ _. IsAt server position path path) _
              (λ s a w n e h. (h.0, browses.to_ok id s.server w e ∙ denotes))
              (λ s x w n e h. (h.0, browses.to_err id s.server w x e ∙ h.1)) (λ s n h. h))
            (λ a s h. h) (λ e s h. h))
          (after_browse_to-IsAt browses.moves target path id)

    move_from :
        (target : Da2Path) (path : List Text)
        → Denotes path_of target
        → Triple
            (IsAt server position path path)
            (λ _. IsAt server position target.components target.components)
            (Passes server position)
            (move_to_da2_path server debug proceeds target)
    unfolding move_to_da2_path
    move_from target path denotes = elim (Option-cases target.item_id) [
      | inl none_there ↦
          rw (none_there, move_to_da2_path)
            (move_by_components-IsAt browses.moves target.components path)
      | inr (id, there) ↦
          rw (there, move_to_da2_path)
            (Triple-bind (λ _. IsAt server position path path) _ _
              (Triple-get (λ s. s.current_da2_path) (λ s h. h))
              λ current.
                Triple-if (same_path current target.components) _ _
                  (λ same. move_by_components-IsAt browses.moves target.components path)
                  (λ differs. browse_to-IsAt target.components path id (rw there at denotes)))
    ]

    -- On a server that browses as OPC DA documents, when the traversal remembers where the server is,
    -- `move_to_da2_path` that succeeds leaves the server at the target, and the target remembered;
    -- one that ends at an invalid branch, which is passed over, leaves what is remembered right.
    pub move_to_da2_path-IsMoved :
        (target : Da2Path)
        → Denotes path_of target
        → Triple
            (IsSynced server position)
            (λ _ s. IsSynced server position s × (position s.server ≡ target.components))
            (Passes server position)
            (move_to_da2_path server debug proceeds target)
    move_to_da2_path-IsMoved target denotes = record {
      from = λ s h.
          (Triple-after (λ _. IsAt server position target.components target.components)
              (λ _ s'. IsSynced server position s' × (position s'.server ≡ target.components)) _
              (λ a s' at. (at.0 ∙ sym at.1, at.1))
              (move_from target s.current_da2_path denotes)).from
            s (refl, sym h);
    }
