-- ===== src/Browse/Termination.antt =====
-- The loops of a page of an OPC DA 2.x server end when the server's iterators do.
use opc_cli.Prelude.{
  ℕ, zero, suc, ◌<◌, ◌≡◌, refl, ap, ◌∙◌, Option, none, some, Text, length, leb, arith, Bool-cases,
  inl, inr,
}
use opc_cli.Errors.{OpcResult, ok, err, OpcError}
use opc_cli.Provider.{BrowseNodeKind, branch, item, branch_and_item, BrowseNodeFilter}
use opc_cli.Act.{Act, Outcome, return, fail, get, update, ◌>>=◌}
use opc_cli.Act.Rules.{Keeps-try}
use opc_cli.Act.Returns.{
  HasReturned, Returns, Returns-return, Returns-fail, Returns-if, Returns-try, Returns-bind,
  Returns-bind_anywhere,
}
use opc_cli.Server.{Server, Da2BranchClassification}
use opc_cli.Browse.Buffer.{Da2PageState}
use opc_cli.Browse.State.{
  BrowseSessionState, NodeLocation, BrowseContinuation, insert_node, store_continuation, call,
  call_map_err,
}
use opc_cli.Browse.Da2.{
  Turn, ended, skipped, found, Mapped, map_browse_da2_branch, list_name, turn_branch, map_item,
  turn_item, turn_name, Collect, after_turn, collect,
}
use opc_cli.Browse.Tokens.{Injective, draw_token_lem}
use opc_cli.Browse.Sound.{Past, IsSound, call_map_err-IsSound}
use opc_cli.Browse.SoundPages.{turn_name-IsSound, map_item-IsSound}
use opc_cli.Browse.Finite.{IsFinite, names_left, next-names_left}

-- What a server's method gives when it succeeds.
abbrev pub OnOk : {A : Type 0} → (A → Type 0) → OpcResult A → Type 0
OnOk Q (ok a) = Q a
OnOk Q (err e) = Unit

pub any-OnOk : {A : Type 0} (r : OpcResult A) → OnOk (λ _. Unit) r
any-OnOk (ok a) = tt
any-OnOk (err e) = tt

-- After a turn the state has an end, and fewer than `k` names are left.
abbrev Leaves : ℕ → ℕ → ℕ → Turn → Type 0
Leaves m n k (ended state) = Unit
Leaves m n k (skipped state) = IsFinite m n state × (names_left m n state < k)
Leaves m n k (found node state) = IsFinite m n state × (names_left m n state < k)

-- Only the names that are merged change.
map_browse_da2_branch_names :
    (filter : BrowseNodeFilter) (name : Text) (c : Da2BranchClassification) (state : Da2PageState)
    → let state' = (map_browse_da2_branch filter name c state).1 in
      (state'.branches ≡ state.branches) × (state'.items ≡ state.items)
unfolding map_browse_da2_branch
map_browse_da2_branch_names filter name c state = ground arith

module _ {W : Type 0} (server : Server W) (debug : Text → Text) (uuid : ℕ → ℕ)
    (inj : Injective uuid) (past : Past) where
  abbrev pub Ok : {A : Type 0} → Act (BrowseSessionState W) A → Type 0
  Ok m = Returns (IsSound uuid past) (λ _. Unit) m

  -- What is made of the answer of a method.
  answer-HasReturned :
      {A : Type 0} (Q : A → Type 0) (f : OpcError → OpcError) (r : OpcResult A)
      (s : BrowseSessionState W)
      → OnOk Q r
      → HasReturned Q
          (elim r as (λ _. Outcome A × BrowseSessionState W) [
            | ok a ↦ return a s
            | err e ↦ fail (f e) s
          ]).0
  unfolding return fail
  answer-HasReturned Q f (ok a) s q = q
  answer-HasReturned Q f (err e) s q = tt

  call_map_err-Returns :
      {A : Type 0} (Q : A → Type 0) (f : OpcError → OpcError) (method : W → OpcResult A × W)
      → ((w : W) → OnOk Q (method w).0)
      → Returns (IsSound uuid past) Q (call_map_err f method)
  unfolding call_map_err
  call_map_err-Returns Q f method good = record {
    from = λ s h.
        answer-HasReturned Q f (method s.server).0 (record s { server = (method s.server).1 })
          (good s.server);
  }

  pub call-Returns :
      {A : Type 0} (Q : A → Type 0) (method : W → OpcResult A × W)
      → ((w : W) → OnOk Q (method w).0)
      → Returns (IsSound uuid past) Q (call method)
  unfolding call
  call-Returns Q method good = call_map_err-Returns Q (λ e. e) method good

  insert_node-Returns :
      (kind : BrowseNodeKind) (location : NodeLocation) → Ok (insert_node uuid kind location)
  unfolding insert_node ◌>>=◌ get update return fail
  insert_node-Returns kind location = record {
    from = λ s h. elim (Bool-cases (leb 100000 (length s.nodes))) [
      | inl full ↦ rw full tt
      | inr room ↦ rw (room, draw_token_lem uuid inj s.nodes s h.nodes_drawn) tt
    ];
  }

  pub store_continuation-Returns : (c : BrowseContinuation) → Ok (store_continuation uuid c)
  unfolding store_continuation ◌>>=◌ get update return fail
  store_continuation-Returns c = record {
    from = λ s h. elim (Bool-cases (leb 256 (length s.continuations))) [
      | inl full ↦ rw full tt
      | inr room ↦ rw (room, draw_token_lem uuid inj s.continuations s h.pages_drawn) tt
    ];
  }

  list_name-Returns :
      (m n k : ℕ) (name : Text) (mapped : Mapped) (state : Da2PageState)
      → IsFinite m n state
      → names_left m n state < k
      → Returns
          (IsSound {W = W} uuid past)
          (Leaves m n k)
          (list_name server debug uuid name mapped state)
  unfolding list_name
  list_name-Returns m n k name mapped state finite few =
      Returns-bind_anywhere _ _ _ (insert_node-Returns mapped.kind mapped.location)
        λ token _. Returns-return _ (finite, few)

  -- A name that is passed over, or one that is listed.
  turn_mapped-Returns :
      (m n k : ℕ) (name : Text) (mapped : Option Mapped) (state : Da2PageState)
      → IsFinite m n state
      → names_left m n state < k
      → Returns {X = OpcError} (IsSound {W = W} uuid past) (Leaves m n k) (elim mapped [
        | none ↦ return (skipped state)
        | some x ↦ list_name server debug uuid name x state
      ])
  turn_mapped-Returns m n k name none state finite few = Returns-return _ (finite, few)
  turn_mapped-Returns m n k name (some x) state finite few =
      list_name-Returns m n k name x state finite few

  turn_branch-Returns :
      (m n k : ℕ) (filter : BrowseNodeFilter) (name : Text) (state : Da2PageState)
      → IsFinite m n state
      → names_left m n state < k
      → Returns (IsSound uuid past) (Leaves m n k) (turn_branch server debug uuid filter name state)
  unfolding turn_branch
  turn_branch-Returns m n k filter name state finite few =
      Returns-bind _ _ _ (call_map_err-Returns (λ _. Unit) _ _ λ w. any-OnOk _)
        (call_map_err-IsSound uuid past _ _)
        λ c _.
          let (below, names) = map_browse_da2_branch_names filter name c state in
          turn_mapped-Returns m n k name _ _ (rw (below, names) finite) (rw (below, names) few)

  map_item-Returns :
      (name : Text) (state : Da2PageState) → Ok (map_item server debug uuid name state)
  unfolding map_item
  map_item-Returns name state = Returns-if _ _ _ (Returns-return _ tt) (
      Returns-bind _ _ _ (call_map_err-Returns (λ _. Unit) _ _ λ w. any-OnOk _)
        (call_map_err-IsSound uuid past _ _)
        λ item_id _.
          Returns-bind _ _ _ (call_map_err-Returns (λ _. Unit) _ _ λ w. any-OnOk _)
            (call_map_err-IsSound uuid past _ _) λ below _. Returns-return _ tt)

  turn_item-Returns :
      (m n k : ℕ) (name : Text) (state : Da2PageState)
      → IsFinite m n state
      → names_left m n state < k
      → Returns (IsSound uuid past) (Leaves m n k) (turn_item server debug uuid name state)
  unfolding turn_item
  turn_item-Returns m n k name state finite few =
      Returns-if _ _ _ (Returns-return _ (finite, few)) (
        Returns-bind _ _ _ (map_item-Returns name state)
          (map_item-IsSound server debug uuid inj past name state)
          λ mapped _. list_name-Returns m n k name mapped state finite few)

  turn_name-Returns :
      (m n k : ℕ) (filter : BrowseNodeFilter) (o : Option (BrowseNodeKind × Text))
      (state : Da2PageState)
      → ((x : BrowseNodeKind × Text) → o ≡ some x → IsFinite m n state × (names_left m n state < k))
      → Returns (IsSound uuid past) (Leaves m n k) (turn_name server debug uuid filter o state)
  unfolding turn_name
  turn_name-Returns m n k filter none state h = Returns-return _ tt
  turn_name-Returns m n k filter (some (branch, name)) state h =
      let (finite, few) = h (branch, name) refl in
      turn_branch-Returns m n k filter name state finite few
  turn_name-Returns m n k filter (some (item, name)) state h =
      let (finite, few) = h (item, name) refl in turn_item-Returns m n k name state finite few
  turn_name-Returns m n k filter (some (branch_and_item, name)) state h = Returns-fail _

  after_turn-Returns :
      (m n k : ℕ) (skip add : Collect server debug uuid)
      → ((state : Da2PageState) → IsFinite m n state → names_left m n state < k → Ok (skip state))
      → ((state : Da2PageState) → IsFinite m n state → names_left m n state < k → Ok (add state))
      → (turn : Turn) → Leaves m n k turn
      → Ok (after_turn server debug uuid skip add turn)
  after_turn-Returns m n k skip add rs ra (ended state) h = Returns-return _ tt
  after_turn-Returns m n k skip add rs ra (skipped state) (finite, few) = rs state finite few
  after_turn-Returns m n k skip add rs ra (found node state) (finite, few) =
      Returns-bind_anywhere _ _ _ (ra state finite few) λ rest _. Returns-return _ tt

  -- A turn for each name, and one to see that there is none.
  pub collect-Returns :
      (m n fuel room : ℕ) (filter : BrowseNodeFilter) (state : Da2PageState)
      → IsFinite m n state
      → names_left m n state < fuel
      → Ok (collect server debug uuid fuel room filter state)
  unfolding collect
  collect-Returns m n fuel zero filter state finite few = Returns-return _ tt
  collect-Returns m n zero (suc room) filter state finite few = absurd (omega arith)
  collect-Returns m n (suc fuel) (suc room) filter state finite few =
      Returns-bind _ _ _ (Returns-try _) (Keeps-try _) λ o named.
        Returns-bind (Leaves m n (names_left m n state)) _ _
          (turn_name-Returns m n (names_left m n state) filter o _ (λ x is.
            let (finite', fewer) = next-names_left debug m n state x finite (named ∙ ap ok is) in
            (finite', omega (arith, fewer))))
          (turn_name-IsSound server debug uuid inj past filter o _)
          (after_turn-Returns m n (names_left m n state) _ _
            (λ s f le. collect-Returns m n fuel (suc room) filter s f (omega (arith, few, le)))
            (λ s f le. collect-Returns m n fuel room filter s f (omega (arith, few, le))))
