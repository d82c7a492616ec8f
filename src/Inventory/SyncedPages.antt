-- ===== src/Inventory/SyncedPages.antt =====
-- The pages of opc-da-client/src/inventory/da2.rs and da3.rs leave the traversal with the browse position
-- that it remembers.
use opc_cli.Prelude.{
  ℕ, zero, suc, ◌≡◌, Bool, Option, none, some, List, Text, Option-cases, inl, inr,
}
use opc_cli.Provider.{BrowseNamespace, BrowseNodeKind, branch, item, branch_and_item, is_flat}
use opc_cli.Act
use opc_cli.Act.{
  Failable, done, exhausted, return, fail, get, update, or_else, map_err, ◌>>=◌, ◌>>◌,
}
use opc_cli.Act.Rules.{
  Keeps-return, Keeps-fail, Keeps-out_of_fuel, Keeps-if, Keeps-bind, Keeps-or_else, keeps_rules,
}
use opc_cli.Act.Triple.{
  Triple, EndsWith, Triple-after, Triple-fact, Triple-fail, Triple-update, Triple-bind,
  Triple-return, Triple-or_else,
}
use opc_cli.Server.{Server, resolve_da2_item_id}
use opc_cli.Browse.Da2.{has_text}
use opc_cli.Inventory.State.{
  InventoryError, was_cancelled, failed, invalid_da2_branch, Da2PageState, Da2Path, BranchWork,
}
use opc_cli.Inventory.Context.{PageContext, Paged}
use opc_cli.Inventory.Da2.{
  begin_names, begin_branches, begin_items, start_da2_page, without_item_id,
  map_inventory_da2_branch, item_id_of, Collect, turn_name, collect, browse_da2_page, state_of,
  pass_over, page_of_branch, next_da2_page,
}
use opc_cli.Inventory.Navigation.{move_to_da2_path}
use opc_cli.Inventory.Moved.{BrowsesTo, Denotes, IsSynced, Passes, IsSynced-Passes}
use opc_cli.Inventory.MovedTo.{move_to_da2_path-IsMoved}
use opc_cli.Inventory.Synced.{Stays, paced_call-Stays, next-Stays, has_more-Stays}

module _ {W : Type 0} (server : Server W) (debug : Text → Text) (proceeds : ℕ → Bool)
    (position : W → List Text) (path_of : Text → List Text)
    (browses : BrowsesTo server position path_of) where
  map_err-Stays :
      {A : Type 0} (f : InventoryError → InventoryError) (m : Paged W A)
      → Stays server debug proceeds position path_of browses m
      → Stays server debug proceeds position path_of browses (map_err f m)
  unfolding map_err
  map_err-Stays f m h = Keeps-or_else m _ h (λ e. Keeps-fail (f e))

  begin_names-Stays :
      (kind : ℕ) (operation iterator_type : Text) (path : List Text)
      → Stays server debug proceeds position path_of browses
          (begin_names server debug proceeds kind operation iterator_type path)
  unfolding begin_names
  begin_names-Stays kind operation iterator_type path =
      Keeps-bind _ _
        (map_err-Stays _ _
          (paced_call-Stays server debug proceeds position path_of browses _ (browses.begun kind)))
        (λ source. Keeps-return _)

  begin_branches-Stays :
      (flat : Bool) (path : List Text)
      → Stays server debug proceeds position path_of browses
          (begin_branches server debug proceeds flat path)
  unfolding begin_branches
  begin_branches-Stays flat path = search (keeps_rules, begin_names-Stays)

  begin_items-Stays :
      (flat : Bool) (path : List Text)
      → Stays server debug proceeds position path_of browses
          (begin_items server debug proceeds flat path)
  unfolding begin_items
  begin_items-Stays flat path = search (keeps_rules, begin_names-Stays)

  without_item_id-Stays :
      (path : List Text) (name : Text) (e : InventoryError)
      → Stays server debug proceeds position path_of browses
          (without_item_id server debug proceeds path name e)
  unfolding without_item_id
  without_item_id-Stays path name (failed e) = search (keeps_rules)
  without_item_id-Stays path name was_cancelled = Keeps-fail was_cancelled
  without_item_id-Stays path name (invalid_da2_branch parent b) =
      Keeps-fail (invalid_da2_branch parent b)

  resolve-kept : (name : Text) (w : W) → position (resolve_da2_item_id server name w).1 ≡ position w
  unfolding resolve_da2_item_id
  resolve-kept name w = browses.named name w

  map_branch-Stays :
      (name : Text) (state : Da2PageState)
      → Stays server debug proceeds position path_of browses
          (map_inventory_da2_branch server debug proceeds name state)
  unfolding map_inventory_da2_branch
  map_branch-Stays name state =
      Keeps-bind _ _
        (Keeps-or_else _ _
          (paced_call-Stays server debug proceeds position path_of browses _ (resolve-kept name))
          (without_item_id-Stays state.parent_path name))
        (λ item_id. Keeps-return _)

  item_id_of-Stays :
      (name : Text) (state : Da2PageState)
      → Stays server debug proceeds position path_of browses
          (item_id_of server debug proceeds name state)
  unfolding item_id_of
  item_id_of-Stays name state = Keeps-if state.flat _ _ (Keeps-return name) (
      map_err-Stays _ _
        (paced_call-Stays server debug proceeds position path_of browses _ (browses.named name)))

  turn_name-Stays :
      (skip add : Collect server debug proceeds)
      → ((state : Da2PageState) → Stays server debug proceeds position path_of browses (skip state))
      → ((state : Da2PageState) → Stays server debug proceeds position path_of browses (add state))
      → (named : Option (BrowseNodeKind × Text)) (state : Da2PageState)
      → Stays server debug proceeds position path_of browses
          (turn_name server debug proceeds skip add named state)
  unfolding turn_name
  turn_name-Stays skip add ks ka none state = Keeps-return _
  turn_name-Stays skip add ks ka (some (branch, name)) state =
      Keeps-bind _ _ (map_branch-Stays name state)
        (λ found. Keeps-bind _ _ (ka found.1) (λ rest. Keeps-return _))
  turn_name-Stays skip add ks ka (some (item, name)) state =
      Keeps-if (has_text name state.merged_items) _ _ (ks state) (
        Keeps-bind _ _ (item_id_of-Stays name state)
          (λ id. Keeps-bind _ _ (ka state) (λ rest. Keeps-return _)))
  turn_name-Stays skip add ks ka (some (branch_and_item, name)) state = Keeps-fail _

  collect-Stays :
      (fuel room : ℕ) (state : Da2PageState)
      → Stays server debug proceeds position path_of browses
          (collect server debug proceeds fuel room state)
  unfolding collect
  collect-Stays fuel zero state = Keeps-return _
  collect-Stays zero (suc room) state = Keeps-out_of_fuel
  collect-Stays (suc fuel) (suc room) state =
      Keeps-bind _ _
        (map_err-Stays _ _ (next-Stays server debug proceeds position path_of browses state))
        (λ named.
          turn_name-Stays _ _ (collect-Stays fuel (suc room)) (collect-Stays fuel room) named.0
            named.1)

  -- An action that keeps what is remembered right, as a step between others.
  abbrev pub Goes : {A : Type 0} → Paged W A → Type 0
  Goes m =
      Triple (IsSynced server position) (λ _. IsSynced server position) (Passes server position) m

  Stays-ends :
      {A : Type 0} (o : Failable InventoryError A × PageContext W)
      → IsSynced server position o.1
      → EndsWith (λ _. IsSynced server position) (Passes server position) o
  Stays-ends (done a, s) h = h
  Stays-ends (Act.failed e, s) h = IsSynced-Passes server position e s h
  Stays-ends (exhausted, s) h = tt

  Stays-Goes :
      {A : Type 0} (m : Paged W A) → Stays server debug proceeds position path_of browses m → Goes m
  Stays-Goes m k = record { from = λ s h. Stays-ends (m s) (k.preserved s h) }

  move-Goes :
      (target : Da2Path)
      → Denotes path_of target
      → Goes (move_to_da2_path server debug proceeds target)
  move-Goes target denotes =
      Triple-after _ (λ _. IsSynced server position) _ (λ a s at. at.0)
        (move_to_da2_path-IsMoved server position debug proceeds path_of browses target denotes)

  abbrev StateDenotes : Option Da2PageState → Type 0
  StateDenotes none = Unit
  StateDenotes (some state) =
      Denotes path_of (record { components = state.parent_path; item_id = state.parent_item_id })

  start_da2_page-Goes :
      (namespace : BrowseNamespace) (path : Da2Path)
      → Denotes path_of path
      → Triple
          (IsSynced server position)
          (λ state s. StateDenotes (some state) × IsSynced server position s)
          (Passes server position)
          (start_da2_page server debug proceeds namespace path)
  unfolding start_da2_page
  start_da2_page-Goes namespace path denotes =
      Triple-bind (λ _. IsSynced server position) _ _ (move-Goes path denotes)
        λ _.
          Triple-bind (λ _. IsSynced server position) _ _
            (Stays-Goes _ (begin_branches-Stays (is_flat namespace) path.components))
            λ below.
              Triple-bind (λ _. IsSynced server position) _ _
                (Stays-Goes _ (begin_items-Stays (is_flat namespace) path.components))
                (λ names. Triple-return _ (λ s h. (denotes, h)))

  state_of-Goes :
      (namespace : BrowseNamespace) (path : Da2Path) (work : BranchWork)
      → Denotes path_of path
      → StateDenotes work.da2_state
      → Triple
          (IsSynced server position)
          (λ state s. StateDenotes (some state) × IsSynced server position s)
          (Passes server position)
          (state_of server debug proceeds namespace path work)
  unfolding state_of
  state_of-Goes namespace path work denotes begun = elim (Option-cases work.da2_state) [
    | inl e ↦ rw (e, state_of) (start_da2_page-Goes namespace path denotes)
    | inr (state, e) ↦ rw (e, state_of) (Triple-return state (λ s h. (rw e at begun, h)))
  ]

  browse_da2_page-Goes :
      (fuel batch_size : ℕ) (state : Da2PageState)
      → StateDenotes (some state)
      → Goes (browse_da2_page server debug proceeds fuel batch_size state)
  unfolding browse_da2_page
  browse_da2_page-Goes fuel batch_size state denotes =
      Triple-bind (λ _. IsSynced server position) _ _ (move-Goes _ denotes)
        λ _. Stays-Goes _ (
          Keeps-bind _ _ (collect-Stays fuel batch_size state) λ page.
            Keeps-bind _ _ (has_more-Stays server debug proceeds position path_of browses page.1)
              (λ rest. Keeps-return _))

  page_of_branch-Goes :
      (namespace : BrowseNamespace) (fuel batch_size : ℕ) (path : Da2Path) (work : BranchWork)
      → Denotes path_of path
      → StateDenotes work.da2_state
      → Goes (page_of_branch server debug proceeds namespace fuel batch_size path work)
  unfolding page_of_branch
  page_of_branch-Goes namespace fuel batch_size path work denotes begun =
      Triple-bind (λ state s. StateDenotes (some state) × IsSynced server position s) _ _
        (state_of-Goes namespace path work denotes begun)
        λ state. Triple-fact λ known.
          Triple-bind (λ _. IsSynced server position) _ _
            (browse_da2_page-Goes fuel batch_size state known) (λ page. Triple-return _ (λ s h. h))

  pass_over-Goes :
      (work : BranchWork) (e : InventoryError)
      → Triple
          (Passes server position e)
          (λ _. IsSynced server position)
          (Passes server position)
          (pass_over server debug proceeds work e)
  unfolding pass_over
  pass_over-Goes work was_cancelled = Triple-fail was_cancelled (λ s h. tt)
  pass_over-Goes work (failed e) = Triple-fail (failed e) (λ s h. tt)
  pass_over-Goes work (invalid_da2_branch parent name) =
      Triple-bind (λ _. IsSynced server position) _ _ (Triple-update _ (λ s h. h))
        (λ _. Triple-return _ (λ s h. h))

  -- On a server that browses as OPC DA documents, when the traversal remembers where the server is before
  -- a page of an OPC DA 2.x branch and the page is given, be it the empty one of a branch that cannot
  -- be entered, the traversal remembers where the server is afterwards too. The item ids of the
  -- branch's path and of the page that is continued stand for their paths.
  pub next_da2_page-IsSynced :
      (namespace : BrowseNamespace) (fuel batch_size : ℕ) (path : Da2Path) (work : BranchWork)
      → Denotes path_of path
      → StateDenotes work.da2_state
      → Goes (next_da2_page server debug proceeds namespace fuel batch_size path work)
  unfolding next_da2_page
  next_da2_page-IsSynced namespace fuel batch_size path work denotes begun =
      Triple-or_else (Passes server position) _ _
        (page_of_branch-Goes namespace fuel batch_size path work denotes begun)
        (pass_over-Goes work)
