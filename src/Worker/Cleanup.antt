-- ===== src/Worker/Cleanup.antt =====
-- Which groups a server is left with by `handle_read` and `handle_write` of
-- opc-da-client/src/com_worker/.
use opc_cli.Prelude.{
  ℕ, ◌≡◌, ◌⊎◌, inl, inr, sym, ap, ◌∙◌, true, Option, none, some, List, [], ◌∷◌, Text, is_empty,
  length, not, ◌||◌, ◌==◌,
}
use opc_cli.Errors.{OpcError, OpcResult}
use opc_cli.Provider.{TagValue, OpcValue, WriteResult}
use opc_cli.Act.{return, invoke, try}
use opc_cli.Act.Triple.{
  Triple, Triple-bind, Triple-invoke, Triple-return, Triple-fail, Triple-if, Triple-try,
}
use opc_cli.Values.{Formats}
use opc_cli.Worker.Groups.{
  GroupServer, AddedGroup, HoldsGroups, item_defs, update_rate, is_success, cleanup,
}
use opc_cli.Worker.Read.{
  ReadPresentation, finish_read, read_items, handle_read, accepted, placeholders, fill,
}
use opc_cli.Worker.Write.{finish_write, write_item, handle_write, first_or}

module _ {W : Type 0} (held_groups : W → List ℕ) (gs : List ℕ) where
  abbrev pub Holds : W → Type 0
  Holds w = held_groups w ≡ gs

  -- The groups `gs` and one before them.
  abbrev pub HoldsOneMore : ℕ → W → Type 0
  HoldsOneMore handle w = held_groups w ≡ handle ∷ gs

  abbrev pub KeptOrLeft : OpcError → W → Type 0
  KeptOrLeft e w = Holds w ⊎ ((handle : ℕ) × HoldsOneMore handle w)

  -- `none` is a panic.
  abbrev pub KeptByRead : Option (List TagValue) → W → Type 0
  KeptByRead none w = Unit
  KeptByRead (some values) w = Holds w

module _ {W : Type 0} (server : GroupServer W) (held_groups : W → List ℕ)
    (holds : HoldsGroups server held_groups) (gs : List ℕ) where
  -- A call that keeps the groups.
  invoke-kept :
      {A : Type 0} (method : W → OpcResult A × W) (handle : ℕ)
      → ((w : W) → held_groups (method w).1 ≡ held_groups w)
      → Triple
          (HoldsOneMore held_groups gs handle)
          (λ a. HoldsOneMore held_groups gs handle)
          (KeptOrLeft held_groups gs)
          (invoke method)
  invoke-kept method handle kept =
      Triple-invoke method (λ a w w' e h. sym (ap (λ p. held_groups p.1) e) ∙ kept w ∙ h)
        (λ x w w' e h. inr (handle, sym (ap (λ p. held_groups p.1) e) ∙ kept w ∙ h))

  add_group-Holds :
      (name : Text)
      → Triple
          (Holds held_groups gs)
          (λ a. HoldsOneMore held_groups gs a.server_handle)
          (KeptOrLeft held_groups gs)
          (invoke (server.add_group name true update_rate))
  add_group-Holds name =
      Triple-invoke (server.add_group name true update_rate)
        (λ a w w' e h. holds.added name a w w' e ∙ ap (λ hs. a.server_handle ∷ hs) h)
        (λ x w w' e h. inl (holds.not_added name x w w' e ∙ h))

  add_items-Holds :
      (a : AddedGroup) (tags : List Text)
      → Triple
          (HoldsOneMore held_groups gs a.server_handle)
          (λ answer. HoldsOneMore held_groups gs a.server_handle)
          (KeptOrLeft held_groups gs)
          (invoke (server.add_items a.group (item_defs 0 tags)))
  add_items-Holds a tags =
      invoke-kept (server.add_items a.group (item_defs 0 tags)) a.server_handle
        (λ w. holds.items_kept a.group (item_defs 0 tags) w)

  cleanup-Holds :
      (handle : ℕ)
      → Triple
          (HoldsOneMore held_groups gs handle)
          (λ _. Holds held_groups gs)
          (KeptOrLeft held_groups gs)
          (cleanup server handle)
  unfolding cleanup return
  cleanup-Holds handle = record { from = λ w h. holds.removed handle gs w h }

  finish_read-Holds :
      (handle : ℕ) (o : Option (List TagValue)) (f : Formats)
      → Triple
          (HoldsOneMore held_groups gs handle)
          (KeptByRead held_groups gs)
          (KeptOrLeft held_groups gs)
          (finish_read f server handle o)
  unfolding finish_read
  finish_read-Holds handle none f = Triple-return none (λ w h. tt)
  finish_read-Holds handle (some values) f =
      Triple-bind (λ _. Holds held_groups gs) _ _ (cleanup-Holds handle)
        (λ _. Triple-return (some values) (λ w h. h))

  read_items-Holds :
      (f : Formats) (presentation : ReadPresentation) (tags : List Text) (a : AddedGroup)
      (answer : List ℕ × List ℕ)
      → Triple
          (HoldsOneMore held_groups gs a.server_handle)
          (KeptByRead held_groups gs)
          (KeptOrLeft held_groups gs)
          (read_items f server presentation tags a answer)
  unfolding read_items
  read_items-Holds f presentation tags a answer =
      Triple-if (is_empty (accepted 0 answer.0 answer.1)) _ _
        (λ nothing. finish_read-Holds a.server_handle (some (placeholders tags answer.1)) f)
        λ something.
          Triple-bind (λ _. HoldsOneMore held_groups gs a.server_handle) _ _
            (invoke-kept _ a.server_handle (λ w. holds.read_kept a.group _ w))
            (λ read.
              finish_read-Holds a.server_handle
                (fill f presentation tags (accepted 0 answer.0 answer.1) read.0 read.1
                  (placeholders tags answer.1))
                f)

  -- On a server that holds a group until it is removed, `handle_read` that gives values leaves the groups
  -- as they were; one that fails leaves them as they were or with one group more.
  pub read_removes_group :
      (f : Formats) (tags : List Text) (presentation : ReadPresentation)
      → Triple
          (Holds held_groups gs)
          (KeptByRead held_groups gs)
          (KeptOrLeft held_groups gs)
          (handle_read f server tags presentation)
  unfolding handle_read
  read_removes_group f tags presentation =
      Triple-bind (λ a. HoldsOneMore held_groups gs a.server_handle) _ _ (add_group-Holds _)
        λ a.
          Triple-bind (λ _. HoldsOneMore held_groups gs a.server_handle) _ _
            (add_items-Holds a tags)
            λ answer.
              Triple-if
                (not (length answer.0 == length tags) || not (length answer.1 == length tags)) _ _
                (λ mismatched.
                  Triple-bind (λ _. Holds held_groups gs) _ _ (cleanup-Holds a.server_handle)
                    (λ _. Triple-fail _ (λ w h. inl h)))
                (λ matched. read_items-Holds f presentation tags a answer)

  finish_write-Holds :
      (handle : ℕ) (result : WriteResult)
      → Triple
          (HoldsOneMore held_groups gs handle)
          (λ _. Holds held_groups gs)
          (KeptOrLeft held_groups gs)
          (finish_write server handle result)
  unfolding finish_write
  finish_write-Holds handle result =
      Triple-bind (λ _. Holds held_groups gs) _ _ (cleanup-Holds handle)
        (λ _. Triple-return result (λ w h. h))

  first_or-Holds :
      (handle : ℕ) (answers : List ℕ) (message : Text)
      → Triple
          (HoldsOneMore held_groups gs handle)
          (λ _. HoldsOneMore held_groups gs handle)
          (KeptOrLeft held_groups gs)
          (try (first_or answers message))
  first_or-Holds handle answers message =
      Triple-try (first_or answers message) (λ x w e h. h) (λ x w e h. inr (handle, h))

  write_item-Holds :
      (tag : Text) (value : OpcValue) (a : AddedGroup) (handle : ℕ)
      → Triple
          (HoldsOneMore held_groups gs a.server_handle)
          (λ _. Holds held_groups gs)
          (KeptOrLeft held_groups gs)
          (write_item server tag value a handle)
  unfolding write_item
  write_item-Holds tag value a handle =
      Triple-bind (λ _. HoldsOneMore held_groups gs a.server_handle) _ _
        (invoke-kept _ a.server_handle (λ w. holds.write_kept a.group _ _ w))
        λ errors.
          Triple-bind (λ _. HoldsOneMore held_groups gs a.server_handle) _ _
            (first_or-Holds a.server_handle errors _)
            (λ error. finish_write-Holds a.server_handle _)

  -- On a server that holds a group until it is removed, `handle_write` that gives a result, be it a
  -- success or not, leaves the groups as they were; one that fails leaves them as they were or
  -- with one group more.
  pub write_removes_group :
      (tag : Text) (value : OpcValue)
      → Triple
          (Holds held_groups gs)
          (λ _. Holds held_groups gs)
          (KeptOrLeft held_groups gs)
          (handle_write server tag value)
  unfolding handle_write
  write_removes_group tag value =
      Triple-bind (λ a. HoldsOneMore held_groups gs a.server_handle) _ _ (add_group-Holds _)
        λ a.
          Triple-bind (λ _. HoldsOneMore held_groups gs a.server_handle) _ _
            (add_items-Holds a (tag ∷ []))
            λ answer.
              Triple-bind (λ _. HoldsOneMore held_groups gs a.server_handle) _ _
                (first_or-Holds a.server_handle answer.0 _)
                λ handle.
                  Triple-bind (λ _. HoldsOneMore held_groups gs a.server_handle) _ _
                    (first_or-Holds a.server_handle answer.1 _)
                    λ error.
                      Triple-if (is_success error) _ _ (λ good. write_item-Holds tag value a handle)
                        (λ bad. finish_write-Holds a.server_handle _)
