-- ===== src/Inventory/Entries.antt =====
-- The items that the traversal sends: each once, and no more than were asked for.
use mathlib.Core.Bool.{true≢false}
use opc_cli.Prelude.{
  ℕ, suc, ◌≤◌, ◌<◌, ◌≡◌, refl, sym, ap, ◌∙◌, Bool, true, false, not, ◌&&◌, ◌||◌, Option, none, some,
  List, [], ◌∷◌, Text, length, arith, if◌then◌else◌, Bool-cases, inl, inr,
}
use opc_cli.Provider.{is_item}
use opc_cli.Control.{InventoryOptions}
use opc_cli.Browse.Da2.{has_text}
use opc_cli.Inventory.State.{BranchLocation, InventoryNode}
use opc_cli.Inventory.Progress.{InventoryEvent, entry, progress_event, slice, completed}
use opc_cli.Inventory.Nodes.{
  Walk, at_limit, send_event, offer, offer_node, enqueue_child, take_nodes,
}

-- The items of the events, the last one first.
abbrev pub item_ids : List InventoryEvent → List Text
item_ids [] = []
item_ids (entry e ∷ events) = e.item_id ∷ item_ids events
item_ids (progress_event p ∷ events) = item_ids events
item_ids (slice s ∷ events) = item_ids events
item_ids (completed c ∷ events) = item_ids events

-- No text twice.
abbrev pub Distinct : List Text → Type 0
Distinct [] = Unit
Distinct (t ∷ ts) = (has_text t ts ≡ false) × Distinct ts

module _ (debug : Text → Text) (rate : ℕ → ℕ → ℕ) (cancels accepts : ℕ → Bool)
    (options : InventoryOptions) where
  -- The items that were seen are those that were sent, and there may be more.
  pub record IsGoing (w : Walk) : Type 0 where
    pub distinct : Distinct w.seen_items
    pub same : item_ids w.sent ≡ w.seen_items
    pub room : at_limit options.max_entries (length w.seen_items) ≡ false

  pub record IsEnded (w : Walk) : Type 0 where
    pub once : Distinct (item_ids w.sent)
    pub within : (limit : ℕ) → options.max_entries ≡ some limit → length (item_ids w.sent) ≤ limit

  room_below : (o : Option ℕ) (n limit : ℕ) → at_limit o n ≡ false → o ≡ some limit → n < limit
  room_below none n limit h e = cc
  room_below (some m) n limit h e = let same : m ≡ limit = cc in ground (arith, same)

  pub IsGoing-IsEnded : (w : Walk) → IsGoing w → IsEnded w
  IsGoing-IsEnded w h = record {
    once = rw h.same h.distinct;
    within = λ limit e.
        let below = room_below options.max_entries (length w.seen_items) limit h.room e in
        rw h.same (omega (arith, below));
  }

  or_true : (b : Bool) → (b || true) ≡ true
  or_true true = refl
  or_true false = refl

  -- The walk goes on, or it has ended.
  abbrev pub After : Bool × Walk → Type 0
  After (true, w) = IsGoing w
  After (false, w) = IsEnded w × ((w.terminal.cancelled || w.terminal.truncated) ≡ true)

  offer-After :
      (breadcrumbs : List Text) (node : InventoryNode) (item_id : Text) (w : Walk)
      → IsGoing w
      → has_text item_id w.seen_items ≡ false
      → After (offer debug rate cancels accepts options breadcrumbs node item_id w)
  unfolding offer send_event
  offer-After breadcrumbs node item_id w h new = elim (Bool-cases (accepts w.sends)) [
    | inl taken ↦ elim (Bool-cases (at_limit options.max_entries (suc (length w.seen_items)))) [
      | inl full ↦
          rw (taken, full)
            (
              record {
                once = rw h.same (new, h.distinct);
                within = λ limit e.
                    let below =
                      room_below options.max_entries (length w.seen_items) limit h.room e in
                    rw h.same (omega (arith, below));
              },
              or_true w.terminal.cancelled,
            )
      | inr room ↦
          rw (taken, room)
            (record { distinct = (new, h.distinct); same = ap (◌∷◌ item_id) h.same; room = room })
    ]
    | inr refused ↦
        let ended = IsGoing-IsEnded w h in
        rw refused (record { once = ended.once; within = ended.within }, refl)
  ]

  -- A node with or without an item.
  offer_node-After :
      (o : Option Text) (breadcrumbs : List Text) (node : InventoryNode) (w : Walk)
      → node.item_id ≡ o
      → IsGoing w
      → After (offer_node debug rate cancels accepts options breadcrumbs node w)
  unfolding offer_node
  offer_node-After none breadcrumbs node w e h = rw (e, offer_node) h
  offer_node-After (some item_id) breadcrumbs node w e h =
      elim (Bool-cases (is_item node.kind && not (has_text item_id w.seen_items))) [
        | inl new ↦
            let unseen : has_text item_id w.seen_items ≡ false = ground (arith, new) in
            rw (e, offer_node, new) (offer-After breadcrumbs node item_id w h unseen)
        | inr old ↦ rw (e, offer_node, old) h
      ]

  child-IsGoing :
      (o : Option BranchLocation) (breadcrumbs : List Text) (node : InventoryNode) (w : Walk)
      → node.child ≡ o
      → IsGoing w
      → IsGoing (enqueue_child debug rate cancels accepts breadcrumbs node w)
  unfolding enqueue_child
  child-IsGoing none breadcrumbs node w e h = rw (e, enqueue_child) h
  child-IsGoing (some location) breadcrumbs node w e h =
      rw (e, enqueue_child) (record { distinct = h.distinct; same = h.same; room = h.room })

  -- At the end of the nodes the walk goes on, or it has ended and its flags say so.
  abbrev pub AfterNodes : Walk → Type 0
  AfterNodes w = IsEnded w × ((w.terminal.cancelled || w.terminal.truncated) ≡ false → IsGoing w)

  -- What is made of the nodes that follow.
  node-After :
      (breadcrumbs : List Text) (node : InventoryNode) (nodes : List InventoryNode)
      (r : Bool × Walk)
      → After r
      → ((w : Walk)
          → IsGoing w
          → AfterNodes (take_nodes debug rate cancels accepts options breadcrumbs nodes w))
      → AfterNodes (
          if r.0
          then take_nodes debug rate cancels accepts options breadcrumbs nodes
              (enqueue_child debug rate cancels accepts breadcrumbs node r.1)
          else r.1)
  node-After breadcrumbs node nodes (true, w) h rest =
      rest (enqueue_child debug rate cancels accepts breadcrumbs node w)
        (child-IsGoing node.child breadcrumbs node w refl h)
  node-After breadcrumbs node nodes (false, w) (ended, flagged) rest =
      (ended, λ unflagged. absurd (true≢false (sym flagged ∙ unflagged)))

  pub take_nodes-AfterNodes :
      (breadcrumbs : List Text) (nodes : List InventoryNode) (w : Walk)
      → IsGoing w
      → AfterNodes (take_nodes debug rate cancels accepts options breadcrumbs nodes w)
  unfolding take_nodes
  take_nodes-AfterNodes breadcrumbs [] w h = (IsGoing-IsEnded w h, λ _. h)
  take_nodes-AfterNodes breadcrumbs (node ∷ nodes) w h =
      let w1 = record w { readings = suc w.readings } in
      let h1 : IsGoing w1 = record { distinct = h.distinct; same = h.same; room = h.room } in
      elim (Bool-cases (cancels w.readings)) [
        | inl cancelled ↦
            let ended = IsGoing-IsEnded w h in
            rw cancelled (
              record { once = ended.once; within = ended.within },
              λ unflagged. absurd (true≢false unflagged),
            )
        | inr going ↦ rw going (
            node-After breadcrumbs node nodes
              (offer_node debug rate cancels accepts options breadcrumbs node w1)
              (offer_node-After node.item_id breadcrumbs node w1 refl h1)
              (take_nodes-AfterNodes breadcrumbs nodes))
      ]
