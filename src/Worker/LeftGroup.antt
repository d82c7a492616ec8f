-- ===== src/Worker/LeftGroup.antt =====
-- The groups that an operation of opc-da-client/src/com_worker/ that fails leaves on its server.
use mathlib.Core.Path.{subst}
use opc_cli.Prelude.{
  ℕ, ◌≡◌, refl, sym, ap, ◌∙◌, true, false, arith, List, [], ◌∷◌, Text, codes, is_empty, length, not,
  ◌||◌, ◌==◌,
}
use opc_cli.Errors.{OpcError, OpcResult, ok, err}
use opc_cli.Provider.{OpcValue, WriteResult}
use opc_cli.Act.{failed, return, invoke, try, ◌>>=◌}
use opc_cli.Act.Triple.{Triple, EndsWith, Triple-bind, Triple-invoke, Triple-if, Triple-try}
use opc_cli.Values.{Formats}
use opc_cli.Worker.Groups.{
  GroupServer, AddedGroup, HoldsGroups, item_defs, update_rate, is_success, opc_ds_device, cleanup,
}
use opc_cli.Worker.Read.{ReadPresentation, read_items, handle_read, accepted, handles_of}
use opc_cli.Worker.Write.{finish_write, write_item, handle_write, first_or}

-- With its group added, the items of a read cannot be added, or those that were cannot be read.
pub data FailsToRead {W : Type 0} (server : GroupServer W) (tags : List Text) (a : AddedGroup)
    (e : OpcError) (w w' : W) : Type 0 where
  no_items :
      server.add_items a.group (item_defs 0 tags) w ≡ (err e, w') → FailsToRead server tags a e w w'
  no_read :
      (results errors : List ℕ) (w1 : W)
      → server.add_items a.group (item_defs 0 tags) w ≡ (ok (results, errors), w1)
      → length results ≡ length tags
      → length errors ≡ length tags
      → is_empty (accepted 0 results errors) ≡ false
      → server.read a.group opc_ds_device (handles_of (accepted 0 results errors)) w1 ≡ (err e, w')
      → FailsToRead server tags a e w w'

module _ {W : Type 0} (server : GroupServer W) (held_groups : W → List ℕ)
    (holds : HoldsGroups server held_groups) (gs : List ℕ) where
  handle_read-fails :
      (f : Formats) (tags : List Text) (presentation : ReadPresentation) (a : AddedGroup)
      (e : OpcError) (w w1 w' : W)
      → server.add_group (codes "opc-da-client-read") true update_rate w ≡ (ok a, w1)
      → FailsToRead server tags a e w1 w'
      → handle_read f server tags presentation w ≡ (failed e, w')
  unfolding handle_read read_items ◌>>=◌ invoke
  handle_read-fails f tags presentation a e w w1 w' was_added (no_items refused) =
      rw (was_added, refused)
  handle_read-fails f tags presentation a e w w1 w' was_added
        (no_read results errors w2 had_items all_results all_errors some_added refused) =
      let answered : (not (length results == length tags) || not (length errors == length tags))
          ≡ false =
        ground arith in
      rw (was_added, had_items, answered, some_added, refused)

  FailsToRead-kept :
      (tags : List Text) (a : AddedGroup) (e : OpcError) (w w' : W)
      → FailsToRead server tags a e w w'
      → held_groups w' ≡ held_groups w
  FailsToRead-kept tags a e w w' (no_items refused) =
      sym (ap (λ p. held_groups p.1) refused) ∙ holds.items_kept a.group (item_defs 0 tags) w
  FailsToRead-kept tags a e w w'
        (no_read results errors w1 had_items all_results all_errors some_added refused) =
      sym (ap (λ p. held_groups p.1) refused)
      ∙ holds.read_kept a.group (handles_of (accepted 0 results errors)) w1
      ∙ sym (ap (λ p. held_groups p.1) had_items)
      ∙ holds.items_kept a.group (item_defs 0 tags) w

  -- On a server that holds a group until it is removed, `handle_read` for which the group was added, but
  -- the items cannot be added or the read of those that were added fails, fails with that error and
  -- leaves its group on the server.
  pub failed_read_leaves_group :
      (f : Formats) (tags : List Text) (presentation : ReadPresentation) (a : AddedGroup)
      (e : OpcError) (w w1 w' : W)
      → held_groups w ≡ gs
      → server.add_group (codes "opc-da-client-read") true update_rate w ≡ (ok a, w1)
      → FailsToRead server tags a e w1 w'
      → (handle_read f server tags presentation w ≡ (failed e, w'))
        × (held_groups w' ≡ a.server_handle ∷ gs)
  failed_read_leaves_group f tags presentation a e w w1 w' before was_added fails = (
    handle_read-fails f tags presentation a e w w1 w' was_added fails,
    FailsToRead-kept tags a e w1 w' fails
        ∙ holds.added (codes "opc-da-client-read") a w w1 was_added
        ∙ ap (λ hs. a.server_handle ∷ hs) before,
  )

  -- The groups `gs` and the one of `a` before them.
  abbrev Left : AddedGroup → W → Type 0
  Left a w = held_groups w ≡ a.server_handle ∷ gs

  -- A call that keeps the groups.
  invoke-Left :
      {A : Type 0} (a : AddedGroup) (method : W → OpcResult A × W)
      → ((w : W) → held_groups (method w).1 ≡ held_groups w)
      → Triple (Left a) (λ x. Left a) (λ e. Left a) (invoke method)
  invoke-Left a method kept =
      Triple-invoke method (λ x w w' e h. sym (ap (λ p. held_groups p.1) e) ∙ kept w ∙ h)
        (λ x w w' e h. sym (ap (λ p. held_groups p.1) e) ∙ kept w ∙ h)

  add_group-Left :
      (name : Text) (a : AddedGroup) (w w1 : W)
      → held_groups w ≡ gs
      → server.add_group name true update_rate w ≡ (ok a, w1)
      → Triple
          (λ s. s ≡ w)
          (λ x. Left a)
          (λ e. Left a)
          (invoke (server.add_group name true update_rate))
  unfolding invoke
  add_group-Left name a w w1 before was_added = record {
    from = λ s same.
        rw (same, was_added)
          (holds.added name a w w1 was_added ∙ ap (λ hs. a.server_handle ∷ hs) before);
  }

  first_or-Left :
      (a : AddedGroup) (answers : List ℕ) (message : Text)
      → Triple (Left a) (λ x. Left a) (λ e. Left a) (try (first_or answers message))
  first_or-Left a answers message =
      Triple-try (first_or answers message) (λ x w e h. h) (λ x w e h. h)

  -- The end of a write does not fail.
  finish_write-done :
      (a : AddedGroup) (handle : ℕ) (result : WriteResult)
      → Triple (Left a) (λ x w. Unit) (λ e. Left a) (finish_write server handle result)
  unfolding finish_write cleanup return ◌>>=◌
  finish_write-done a handle result = record { from = λ w h. tt }

  write_item-Left :
      (tag : Text) (value : OpcValue) (a added : AddedGroup) (handle : ℕ)
      → Triple (Left a) (λ x w. Unit) (λ e. Left a) (write_item server tag value added handle)
  unfolding write_item
  write_item-Left tag value a added handle =
      Triple-bind (λ x. Left a) _ _ (invoke-Left a _ (λ w. holds.write_kept added.group _ _ w))
        λ errors.
          Triple-bind (λ x. Left a) _ _ (first_or-Left a errors _)
            (λ error. finish_write-done a added.server_handle _)

  handle_write-Left :
      (tag : Text) (value : OpcValue) (a : AddedGroup) (w w1 : W)
      → held_groups w ≡ gs
      → server.add_group (codes "opc-da-client-write") true update_rate w ≡ (ok a, w1)
      → Triple (λ s. s ≡ w) (λ x s. Unit) (λ e. Left a) (handle_write server tag value)
  unfolding handle_write
  handle_write-Left tag value a w w1 before was_added =
      Triple-bind (λ x. Left a) _ _ (add_group-Left _ a w w1 before was_added)
        λ added.
          Triple-bind (λ x. Left a) _ _
            (invoke-Left a _ (λ w. holds.items_kept added.group (item_defs 0 (tag ∷ [])) w))
            λ answer.
              Triple-bind (λ x. Left a) _ _ (first_or-Left a answer.0 _)
                λ handle.
                  Triple-bind (λ x. Left a) _ _ (first_or-Left a answer.1 _)
                    λ error.
                      Triple-if (is_success error) _ _
                        (λ good. write_item-Left tag value a added handle)
                        (λ bad. finish_write-done a added.server_handle _)

  -- On a server that holds a group until it is removed, `handle_write` that fails after its group was
  -- added, in whichever way, leaves the group on the server.
  pub failed_write_leaves_group :
      (tag : Text) (value : OpcValue) (a : AddedGroup) (e : OpcError) (w w1 w' : W)
      → held_groups w ≡ gs
      → server.add_group (codes "opc-da-client-write") true update_rate w ≡ (ok a, w1)
      → handle_write server tag value w ≡ (failed e, w')
      → held_groups w' ≡ a.server_handle ∷ gs
  failed_write_leaves_group tag value a e w w1 w' before was_added fails =
      subst (λ o. EndsWith (λ x s. Unit) (λ x. Left a) o) fails
        ((handle_write-Left tag value a w w1 before was_added).from w refl)
