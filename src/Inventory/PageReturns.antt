-- ===== src/Inventory/PageReturns.antt =====
-- An OPC DA 2.x page of opc-da-client/src/inventory/ is given or refused when the server's iterators end.
use opc_cli.Prelude.{
  ℕ, zero, suc, ◌*◌, ◌≤◌, ◌<◌, Bool, Option, none, some, List, Text, codes, arith, Option-cases,
  inl, inr,
}
use opc_cli.Errors.{OpcResult, ok, err}
use opc_cli.Provider.{BrowseNamespace, is_flat, branch, item, branch_and_item}
use opc_cli.Act.{outcome_as}
use opc_cli.Act.Returns.{
  HasReturned, Returns-return, Returns-fail, Returns-if, Returns-bind_anywhere,
}
use opc_cli.Act.Total.{
  IsTotal, IsTotal-return, IsTotal-fail, IsTotal-bind, IsTotal-or_else, Returns-then,
  Returns-map_err,
}
use opc_cli.Server.{Server}
use opc_cli.Server.Guard.{guard_browse_iterator}
use opc_cli.Browse.Da2.{has_text}
use opc_cli.Browse.Finite.{EndsBy}
use opc_cli.Browse.Termination.{OnOk}
use opc_cli.Browse.PageReturns.{HasFiniteNames}
use opc_cli.Inventory.State.{was_cancelled, failed, Da2PageState, Da2Path, BranchWork}
use opc_cli.Inventory.Context.{ask_server, paced_call, new_buffered}
use opc_cli.Inventory.Da2.Names.{NextName}
use opc_cli.Inventory.Da2.{
  begin_names, begin_branches, begin_items, start_da2_page, map_inventory_da2_branch, merge,
  Collect, turn_name, collect, browse_da2_page, state_of, page_of_branch, next_da2_page,
}
use opc_cli.Inventory.PageTotal.{
  ask_boundary-IsTotal, paced_call-IsTotal, has_more-IsTotal, move_to_da2_path-IsTotal,
  item_id_of-IsTotal, pass_over-IsTotal, without_item_id-IsTotal,
}
use opc_cli.Inventory.PageNames.{
  IsFinite, names_left, FewerNames, EndsByOpt, left_opt, left, Gets, next-Gets,
}

module _ {W : Type 0} (server : Server W) (debug : Text → Text) (proceeds : ℕ → Bool) (n : ℕ) where
  -- The loop goes on with what is left of the names.
  abbrev Continues : ℕ → Collect server debug proceeds → Type 0
  Continues total go =
      (state : Da2PageState) → IsFinite n state → names_left n state < total → IsTotal (go state)

  merge-IsFinite :
      (total : ℕ) (name : Text) (id : Option Text) (state : Da2PageState)
      → IsFinite n state
      → names_left n state < total
      → IsFinite n (merge name id state) × (names_left n (merge name id state) < total)
  merge-IsFinite total name none state finite few = (finite, few)
  merge-IsFinite total name (some id) state finite few = (finite, few)

  map_branch-Gets :
      (total : ℕ) (name : Text) (state : Da2PageState)
      → IsFinite n state
      → names_left n state < total
      → Gets server debug proceeds n
          (λ found. IsFinite n found.1 × (names_left n found.1 < total))
          (map_inventory_da2_branch server debug proceeds name state)
  unfolding map_inventory_da2_branch
  map_branch-Gets total name state finite few =
      Returns-then _ _ _
        (IsTotal-or_else _ _ (paced_call-IsTotal server debug proceeds _)
          (without_item_id-IsTotal server debug proceeds state.parent_path name))
        (λ id. Returns-return _ (merge-IsFinite total name id state finite few))

  turn_name-IsTotal :
      (total : ℕ) (skip add : Collect server debug proceeds)
      → Continues total skip
      → Continues total add
      → (named : NextName) → FewerNames n total named
      → IsTotal (turn_name server debug proceeds skip add named.0 named.1)
  unfolding turn_name
  turn_name-IsTotal total skip add ts ta (none, state) h = IsTotal-return _
  turn_name-IsTotal total skip add ts ta (some (branch, name), state) (finite, few) =
      Returns-bind_anywhere _ _ _ (map_branch-Gets total name state finite few)
        (λ found few. IsTotal-bind _ _ (ta found.1 few.0 few.1) (λ rest. IsTotal-return _))
  turn_name-IsTotal total skip add ts ta (some (item, name), state) (finite, few) =
      Returns-if (has_text name state.merged_items) _ _ (ts state finite few) (
        IsTotal-bind _ _ (item_id_of-IsTotal server debug proceeds name state)
          (λ id. IsTotal-bind _ _ (ta state finite few) (λ rest. IsTotal-return _)))
  turn_name-IsTotal total skip add ts ta (some (branch_and_item, name), state) h = IsTotal-fail _

  collect-IsTotal :
      (fuel room : ℕ) (state : Da2PageState)
      → IsFinite n state
      → names_left n state < fuel
      → IsTotal (collect server debug proceeds fuel room state)
  unfolding collect
  collect-IsTotal fuel zero state finite few = IsTotal-return _
  collect-IsTotal zero (suc room) state finite few = absurd (omega (arith, few))
  collect-IsTotal (suc fuel) (suc room) state finite few =
      Returns-bind_anywhere _ _ _
        (Returns-map_err (FewerNames n (names_left n state)) _ _
          (next-Gets server debug proceeds n state finite))
        λ named fewer.
          turn_name-IsTotal (names_left n state) _ _
            (λ state' f less. collect-IsTotal fuel (suc room) state' f (omega (arith, less, few)))
            (λ state' f less. collect-IsTotal fuel room state' f (omega (arith, less, few))) named
            fewer

  outcome_as-Gets :
      {A : Type 0} (Q : A → Type 0) (r : OpcResult A)
      → OnOk Q r
      → HasReturned Q (outcome_as failed r)
  outcome_as-Gets Q (ok a) q = q
  outcome_as-Gets Q (err e) q = tt

  ask_server-Gets :
      {A : Type 0} (Q : A → Type 0) (method : W → OpcResult A × W)
      → ((w : W) → OnOk Q (method w).0)
      → Gets server debug proceeds n Q (ask_server proceeds method)
  unfolding ask_server
  ask_server-Gets Q method q = record {
    from = λ s h. outcome_as-Gets Q (method s.server).0 (q s.server);
  }

  paced_call-Gets :
      {A : Type 0} (Q : A → Type 0) (method : W → OpcResult A × W)
      → ((w : W) → OnOk Q (method w).0)
      → Gets server debug proceeds n Q (paced_call proceeds method)
  unfolding paced_call
  paced_call-Gets Q method q =
      Returns-then Q _ _ (ask_boundary-IsTotal server debug proceeds) (λ proceed.
        Returns-if proceed _ _ (ask_server-Gets Q method q) (Returns-fail was_cancelled))

  module _ (finite : HasFiniteNames n server) where
    begin_names-Gets :
        (kind : ℕ) (operation iterator_type : Text) (path : List Text)
        → Gets server debug proceeds n
            (λ b. EndsBy n b.inner.inner × (left n b ≤ n))
            (begin_names server debug proceeds kind operation iterator_type path)
    unfolding begin_names new_buffered guard_browse_iterator
    begin_names-Gets kind operation iterator_type path =
        Returns-bind_anywhere (EndsBy n) _ _
          (Returns-map_err (EndsBy n) _ _
            (paced_call-Gets (EndsBy n) _ (finite kind (some (codes "")) 0 0)))
          (λ source ends. Returns-return _ (ends, omega arith))

    begin_branches-Gets :
        (flat : Bool) (path : List Text)
        → Gets server debug proceeds n
            (λ o. EndsByOpt n o × (left_opt n o ≤ n))
            (begin_branches server debug proceeds flat path)
    unfolding begin_branches
    begin_branches-Gets flat path =
        Returns-if flat _ _ (Returns-return none (tt, omega arith))
          (Returns-bind_anywhere _ _ _ (begin_names-Gets _ _ _ path) (λ b h. Returns-return _ h))

    begin_items-Gets :
        (flat : Bool) (path : List Text)
        → Gets server debug proceeds n
            (λ b. EndsBy n b.inner.inner × (left n b ≤ n))
            (begin_items server debug proceeds flat path)
    unfolding begin_items
    begin_items-Gets flat path =
        Returns-if flat _ _ (begin_names-Gets _ _ _ path) (begin_names-Gets _ _ _ path)

    -- A page that is continued has no more names left than a page that begins.
    abbrev pub StateIsFinite : Option Da2PageState → Type 0
    StateIsFinite none = Unit
    StateIsFinite (some state) = IsFinite n state × (names_left n state ≤ 2 * n)

    start_da2_page-Gets :
        (namespace : BrowseNamespace) (path : Da2Path)
        → Gets server debug proceeds n
            (λ state. StateIsFinite (some state))
            (start_da2_page server debug proceeds namespace path)
    unfolding start_da2_page
    start_da2_page-Gets namespace path =
        Returns-then _ _ _ (move_to_da2_path-IsTotal server debug proceeds path) λ _.
          Returns-bind_anywhere _ _ _ (begin_branches-Gets (is_flat namespace) path.components)
            λ below few.
              Returns-bind_anywhere _ _ _ (begin_items-Gets (is_flat namespace) path.components)
                λ names less. Returns-return _ ((few.0, less.0), omega (arith, few.1, less.1))

    state_of-Gets :
        (namespace : BrowseNamespace) (path : Da2Path) (work : BranchWork)
        → StateIsFinite work.da2_state
        → Gets server debug proceeds n
            (λ state. StateIsFinite (some state))
            (state_of server debug proceeds namespace path work)
    unfolding state_of
    state_of-Gets namespace path work known = elim (Option-cases work.da2_state) [
      | inl e ↦ rw (e, state_of) (start_da2_page-Gets namespace path)
      | inr (state, e) ↦ rw (e, state_of) (Returns-return state (rw e at known))
    ]

    -- When every iterator of the server ends within `n` calls, fuel for more than `2 n` names is enough for
    -- a page of an OPC DA 2.x branch, whether it is the first one or continues one with at most that
    -- many names left: from every state of the traversal the page is given, or an error.
    pub next_da2_page-IsTotal :
        (namespace : BrowseNamespace) (fuel batch_size : ℕ) (path : Da2Path) (work : BranchWork)
        → StateIsFinite work.da2_state
        → 2 * n < fuel
        → IsTotal (next_da2_page server debug proceeds namespace fuel batch_size path work)
    unfolding next_da2_page page_of_branch browse_da2_page
    next_da2_page-IsTotal namespace fuel batch_size path work known enough =
        IsTotal-or_else _ _
          (Returns-bind_anywhere _ _ _ (state_of-Gets namespace path work known) λ state few.
            IsTotal-bind _ _
              (IsTotal-bind _ _ (move_to_da2_path-IsTotal server debug proceeds _) λ _.
                IsTotal-bind _ _
                  (collect-IsTotal fuel batch_size state few.0 (omega (arith, few.1, enough)))
                  (λ page.
                    IsTotal-bind _ _ (has_more-IsTotal server debug proceeds page.1)
                      (λ rest. IsTotal-return _)))
              (λ page. IsTotal-return _))
          (pass_over-IsTotal server debug proceeds work)
