-- ===== src/Inventory/Complete.antt =====
-- What the last event of a traversal reports.
use opc_cli.Prelude.{
  ℕ, suc, ◌≡◌, refl, ◌∙◌, Bool, true, false, not, ◌&&◌, ◌||◌, Option, none, some, List, [], ◌∷◌,
  Text, length, if◌then◌else◌, Bool-cases, inl, inr,
}
use opc_cli.Provider.{is_item}
use opc_cli.Control.{InventoryOptions}
use opc_cli.Browse.Da2.{has_text}
use opc_cli.Inventory.State.{BranchLocation, InventoryNode}
use opc_cli.Inventory.Progress.{
  InventoryEvent, entry, progress_event, slice, completed, InventoryCompleted,
}
use opc_cli.Inventory.Nodes.{
  Walk, cancelled_walk, truncated_walk, at_limit, send_event, offer, offer_node, enqueue_child,
  take_nodes,
}

-- The last events.
abbrev pub reports : List InventoryEvent → List InventoryCompleted
reports [] = []
reports (entry e ∷ events) = reports events
reports (progress_event p ∷ events) = reports events
reports (slice s ∷ events) = reports events
reports (completed c ∷ events) = c ∷ reports events

abbrev pub is_flagged : InventoryCompleted → Bool
is_flagged c = c.cancelled || c.truncated

module _ (debug : Text → Text) (rate : ℕ → ℕ → ℕ) (cancels accepts : ℕ → Bool)
    (options : InventoryOptions) where
  -- Nothing is reported yet, and the flags agree.
  pub record IsUnreported (w : Walk) : Type 0 where
    pub silent : reports w.sent ≡ []
    pub flags : w.terminal.complete ≡ not (is_flagged w.terminal)

  not_or_true : (b : Bool) → false ≡ not (b || true)
  not_or_true true = refl
  not_or_true false = refl

  pub cancelled-IsUnreported : (w : Walk) → IsUnreported w → IsUnreported (cancelled_walk w)
  cancelled-IsUnreported w h = record { silent = h.silent; flags = refl }

  pub truncated-IsUnreported : (w : Walk) → IsUnreported w → IsUnreported (truncated_walk w)
  truncated-IsUnreported w h = record {
    silent = h.silent;
    flags = not_or_true w.terminal.cancelled;
  }

  -- An event that is no last one.
  pub send_event-IsUnreported :
      (event : InventoryEvent) (w : Walk)
      → reports (event ∷ w.sent) ≡ reports w.sent
      → IsUnreported w
      → IsUnreported (send_event debug rate cancels accepts event w).1
  unfolding send_event
  send_event-IsUnreported event w quiet h = elim (Bool-cases (accepts w.sends)) [
    | inl taken ↦ rw (send_event, taken) (record { silent = quiet ∙ h.silent; flags = h.flags })
    | inr refused ↦ rw (send_event, refused) (record { silent = h.silent; flags = h.flags })
  ]

  -- After an item was sent or refused.
  abbrev offered : Bool × Walk → Bool × Walk
  offered r =
      if not r.0
      then (false, cancelled_walk r.1)
      else if at_limit options.max_entries (length r.1.seen_items)
      then (false, truncated_walk r.1)
      else (true, r.1)

  offered-IsUnreported : (r : Bool × Walk) → IsUnreported r.1 → IsUnreported (offered r).1
  offered-IsUnreported (false, w) h = cancelled-IsUnreported w h
  offered-IsUnreported (true, w) h =
      elim (Bool-cases (at_limit options.max_entries (length w.seen_items))) [
        | inl full ↦ rw full (truncated-IsUnreported w h)
        | inr room ↦ rw room h
      ]

  offer-IsUnreported :
      (breadcrumbs : List Text) (node : InventoryNode) (item_id : Text) (w : Walk)
      → IsUnreported w
      → IsUnreported (offer debug rate cancels accepts options breadcrumbs node item_id w).1
  unfolding offer
  offer-IsUnreported breadcrumbs node item_id w h = offered-IsUnreported _ (
      send_event-IsUnreported _ (record w { seen_items = item_id ∷ w.seen_items }) refl
        (record { silent = h.silent; flags = h.flags }))

  offer_node-IsUnreported :
      (o : Option Text) (breadcrumbs : List Text) (node : InventoryNode) (w : Walk)
      → node.item_id ≡ o
      → IsUnreported w
      → IsUnreported (offer_node debug rate cancels accepts options breadcrumbs node w).1
  unfolding offer_node
  offer_node-IsUnreported none breadcrumbs node w e h = rw (e, offer_node) h
  offer_node-IsUnreported (some item_id) breadcrumbs node w e h =
      elim (Bool-cases (is_item node.kind && not (has_text item_id w.seen_items))) [
        | inl new ↦ rw (e, offer_node, new) (offer-IsUnreported breadcrumbs node item_id w h)
        | inr old ↦ rw (e, offer_node, old) h
      ]

  child-IsUnreported :
      (o : Option BranchLocation) (breadcrumbs : List Text) (node : InventoryNode) (w : Walk)
      → node.child ≡ o
      → IsUnreported w
      → IsUnreported (enqueue_child debug rate cancels accepts breadcrumbs node w)
  unfolding enqueue_child
  child-IsUnreported none breadcrumbs node w e h = rw (e, enqueue_child) h
  child-IsUnreported (some location) breadcrumbs node w e h =
      rw (e, enqueue_child) (record { silent = h.silent; flags = h.flags })

  node-IsUnreported :
      (breadcrumbs : List Text) (node : InventoryNode) (nodes : List InventoryNode)
      (r : Bool × Walk)
      → IsUnreported r.1
      → ((w : Walk)
          → IsUnreported w
          → IsUnreported (take_nodes debug rate cancels accepts options breadcrumbs nodes w))
      → IsUnreported (
          if r.0
          then take_nodes debug rate cancels accepts options breadcrumbs nodes
              (enqueue_child debug rate cancels accepts breadcrumbs node r.1)
          else r.1)
  node-IsUnreported breadcrumbs node nodes (true, w) h rest =
      rest (enqueue_child debug rate cancels accepts breadcrumbs node w)
        (child-IsUnreported node.child breadcrumbs node w refl h)
  node-IsUnreported breadcrumbs node nodes (false, w) h rest = h

  pub take_nodes-IsUnreported :
      (breadcrumbs : List Text) (nodes : List InventoryNode) (w : Walk)
      → IsUnreported w
      → IsUnreported (take_nodes debug rate cancels accepts options breadcrumbs nodes w)
  unfolding take_nodes
  take_nodes-IsUnreported breadcrumbs [] w h = h
  take_nodes-IsUnreported breadcrumbs (node ∷ nodes) w h =
      let w1 = record w { readings = suc w.readings } in
      let h1 : IsUnreported w1 = record { silent = h.silent; flags = h.flags } in
      elim (Bool-cases (cancels w.readings)) [
        | inl cancelled ↦ rw cancelled (cancelled-IsUnreported w1 h1)
        | inr going ↦ rw going (
            node-IsUnreported breadcrumbs node nodes
              (offer_node debug rate cancels accepts options breadcrumbs node w1)
              (offer_node-IsUnreported node.item_id breadcrumbs node w1 refl h1)
              (take_nodes-IsUnreported breadcrumbs nodes))
      ]
