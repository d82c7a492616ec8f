-- ===== src/Inventory/Synced.antt =====
-- What OPC DA 2.x pages ask of the server, of opc-da-client/src/inventory/iterator.rs and da2.rs, leaves
-- the browse position as the traversal remembers it: the calls, and the names of a branch.
use opc_cli.Prelude.{
  ℕ, ◌≡◌, refl, sym, ap, ◌∙◌, Bool, Option, none, some, List, Text, Option-cases, Bool-cases, inl,
  inr,
}
use opc_cli.Errors.{OpcResult, ok, err, is_non_progress_browse_error}
use opc_cli.Act.{return, fail, update, ◌>>=◌}
use opc_cli.Act.Rules.{Keeps, Keeps-return, Keeps-fail, Keeps-if, Keeps-bind, keeps_rules}
use opc_cli.Server.{Server}
use opc_cli.Inventory.State.{failed, BufferedBrowseIterator, Da2PageState}
use opc_cli.Inventory.Context.{
  PageContext, Paged, ask_boundary, ask_server, paced_call, next_native, next_buffered, look_ahead,
  is_pending, takes_non_progress,
}
use opc_cli.Inventory.Da2.Names.{
  skip_branches, item_answer, next_item, branch_answer, next, items_have_more, branches_have_more,
  has_more,
}
use opc_cli.Inventory.Moved.{BrowsesTo, IsSynced}

module _ {W : Type 0} (server : Server W) (debug : Text → Text) (proceeds : ℕ → Bool)
    (position : W → List Text) (path_of : Text → List Text)
    (browses : BrowsesTo server position path_of) where
  abbrev pub Stays : {A : Type 0} → Paged W A → Type 0
  Stays m = Keeps (IsSynced server position) m

  update-Stays :
      (f : PageContext W → PageContext W)
      → ((s : PageContext W)
          → ((f s).server ≡ s.server) × ((f s).current_da2_path ≡ s.current_da2_path))
      → Stays (update f)
  unfolding update
  update-Stays f same = record { preserved = λ s h. (same s).1 ∙ h ∙ ap position (sym (same s).0) }

  pub paced_call-Stays :
      {A : Type 0} (method : W → OpcResult A × W)
      → ((w : W) → position (method w).1 ≡ position w)
      → Stays (paced_call proceeds method)
  unfolding paced_call ask_boundary ask_server ◌>>=◌ return fail
  paced_call-Stays method kept = record {
    preserved = λ s h. elim (Bool-cases (proceeds s.boundaries)) [
      | inl goes ↦ rw goes (h ∙ sym (kept s.server))
      | inr closed ↦ rw closed h
    ];
  }

  ask_boundary-Stays : Stays (ask_boundary {W = W} proceeds)
  unfolding ask_boundary return
  ask_boundary-Stays = record { preserved = λ s h. h }

  next_native-Stays : (b : BufferedBrowseIterator) → Stays (next_native proceeds debug b)
  unfolding next_native
  next_native-Stays b = search (keeps_rules, ask_boundary-Stays)

  next_buffered-Stays : (b : BufferedBrowseIterator) → Stays (next_buffered proceeds debug b)
  unfolding next_buffered
  next_buffered-Stays b = elim (Option-cases b.pending) [
    | inl e ↦ rw (e, next_buffered) (next_native-Stays b)
    | inr (v, e) ↦ rw (e, next_buffered) (Keeps-return _)
  ]

  look_ahead-Stays : (b : BufferedBrowseIterator) → Stays (look_ahead proceeds debug b)
  unfolding look_ahead
  look_ahead-Stays b = elim (Option-cases b.pending) [
    | inl e ↦ rw (e, look_ahead) (search (keeps_rules, next_native-Stays))
    | inr (v, e) ↦ rw (e, look_ahead) (Keeps-return _)
  ]

  skip_branches-Stays : (state : Da2PageState) → Stays (skip_branches proceeds debug state)
  unfolding skip_branches
  skip_branches-Stays state =
      Keeps-bind _ _ (update-Stays _ (λ s. (refl, refl))) (λ _. Keeps-return _)

  item_answer-Stays :
      (state : Da2PageState) (r : Option (OpcResult Text) × BufferedBrowseIterator)
      → Stays (item_answer proceeds debug state r)
  unfolding item_answer
  item_answer-Stays state (some (ok name), b) = Keeps-return _
  item_answer-Stays state (some (err e), b) = Keeps-fail (failed e)
  item_answer-Stays state (none, b) = Keeps-return _

  next_item-Stays : (state : Da2PageState) → Stays (next_item proceeds debug state)
  unfolding next_item
  next_item-Stays state = elim (Option-cases state.items) [
    | inl e ↦ rw (e, next_item) (Keeps-return _)
    | inr (b, e) ↦
        rw (e, next_item) (Keeps-bind _ _ (next_buffered-Stays b) (item_answer-Stays state))
  ]

  branch_answer-Stays :
      (state : Da2PageState) (r : Option (OpcResult Text) × BufferedBrowseIterator)
      → Stays (branch_answer proceeds debug state r)
  unfolding branch_answer
  branch_answer-Stays state (some (ok name), b) = Keeps-return _
  branch_answer-Stays state (some (err e), b) =
      Keeps-if (is_non_progress_browse_error e) _ _
        (Keeps-bind _ _ (skip_branches-Stays state) next_item-Stays) (Keeps-fail (failed e))
  branch_answer-Stays state (none, b) = next_item-Stays _

  pub next-Stays : (state : Da2PageState) → Stays (next proceeds debug state)
  unfolding next
  next-Stays state = elim (Option-cases state.branches) [
    | inl e ↦ rw (e, next) (next_item-Stays state)
    | inr (b, e) ↦ rw (e, next) (Keeps-bind _ _ (next_buffered-Stays b) (branch_answer-Stays state))
  ]

  items_have_more-Stays : (state : Da2PageState) → Stays (items_have_more proceeds debug state)
  unfolding items_have_more
  items_have_more-Stays state = elim (Option-cases state.items) [
    | inl e ↦ rw (e, items_have_more) (Keeps-return _)
    | inr (b, e) ↦
        rw (e, items_have_more) (Keeps-bind _ _ (look_ahead-Stays b) (λ b'. Keeps-return _))
  ]

  branches_have_more-Stays :
      (state : Da2PageState) (b : BufferedBrowseIterator)
      → Stays (branches_have_more proceeds debug state b)
  unfolding branches_have_more
  branches_have_more-Stays state b =
      Keeps-if (is_pending b) _ _
        (Keeps-if (takes_non_progress b.pending) _ _
          (Keeps-bind _ _ (skip_branches-Stays state) items_have_more-Stays) (Keeps-return _))
        (items_have_more-Stays _)

  pub has_more-Stays : (state : Da2PageState) → Stays (has_more proceeds debug state)
  unfolding has_more
  has_more-Stays state = elim (Option-cases state.branches) [
    | inl e ↦ rw (e, has_more) (items_have_more-Stays state)
    | inr (b, e) ↦
        rw (e, has_more) (Keeps-bind _ _ (look_ahead-Stays b) (branches_have_more-Stays state))
  ]
