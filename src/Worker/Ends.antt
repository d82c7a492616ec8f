-- ===== src/Worker/Ends.antt =====
-- `handle_browse` of opc-da-client/src/com_worker/browse.rs ends on a server whose iterators end.
use opc_cli.Prelude.{
  ℕ, zero, suc, ◌-◌, ◌<◌, ◌≡◌, ◌≢◌, true, false, Option, none, some, List, [], ◌∷◌, ◌++◌, Text,
  codes, ◌==◌, if◌then◌else◌, Option-cases, inl, inr, arith,
}
use opc_cli.Errors.{OpcError, OpcResult, ok, err, is_non_progress_browse_error}
use opc_cli.Act.{
  Act, Outcome, done, failed, exhausted, return, get, update, catch, caught, outcome, ◌>>=◌, ◌>>◌,
}
use opc_cli.Act.Returns.{
  HasReturned, Returns, Returns-return, Returns-fail, Returns-if, Returns-get, Returns-try,
  Returns-bind_anywhere,
}
use opc_cli.Server.{Server, opc_branch, opc_leaf, opc_ns_flat}
use opc_cli.Server.Guard.{GuardedBrowseIterator, next_string, guard_browse_iterator}
use opc_cli.Browse.Finite.{EndsBy}
use opc_cli.Browse.Termination.{OnOk, any-OnOk}
use opc_cli.Browse.PageReturns.{HasFiniteNames, not_exhausted}
use opc_cli.Worker.Browse.{
  TagSink, Browsing, ask_server, take_tag, is_full, push_path, pop_path, begin_guarded, flat_tags,
  branch_names, item_id_or_name, leaf_tags, after_branch, enter_branch, visit_branches,
  browse_level, browse_recursive, browse_all, handle_browse, max_levels,
}
use opc_cli.Worker.Asked.{next_string_fewer}

module _ {W : Type 0} (server : Server W) (debug : Text → Text) (max_tags n : ℕ)
    (finite : HasFiniteNames n server) where
  -- The action ends, with a result of which `Q` holds or an error.
  abbrev Gets : {A : Type 0} → (A → Type 0) → Act (Browsing W) A → Type 0
  Gets Q m = Returns (λ _. Unit) Q m

  abbrev Ok : {A : Type 0} → Act (Browsing W) A → Type 0
  Ok m = Gets (λ _. Unit) m

  -- What is left of an iterator is less than the fuel.
  abbrev HasFuel : ℕ → GuardedBrowseIterator → Type 0
  HasFuel fuel g = EndsBy n g.inner × (n - g.inner.calls < fuel)

  ask_server-has :
      {A : Type 0} (Q : A → Type 0) (r : OpcResult A) → OnOk Q r → HasReturned Q (outcome r)
  ask_server-has Q (ok a) q = q
  ask_server-has Q (err e) q = tt

  ask_server-Gets :
      {A : Type 0} (Q : A → Type 0) (method : W → OpcResult A × W)
      → ((w : W) → OnOk Q (method w).0)
      → Gets Q (ask_server method)
  unfolding ask_server
  ask_server-Gets Q method q = record {
    from = λ s h. ask_server-has Q (method s.server).0 (q s.server);
  }

  begin_guarded-Gets :
      (fuel kind : ℕ) (name : Text) (path : List Text)
      → n < fuel
      → Gets (HasFuel fuel) (begin_guarded server debug max_tags kind name path)
  unfolding begin_guarded guard_browse_iterator
  begin_guarded-Gets fuel kind name path enough =
      Returns-bind_anywhere (EndsBy n) _ _
        (ask_server-Gets (EndsBy n) _ (finite kind (some (codes "")) 0 0))
        (λ source ends. Returns-return _ (ends, omega (arith, enough)))

  update-Ok : (f : Browsing W → Browsing W) → Ok (update f)
  unfolding update
  update-Ok f = record { from = λ s h. tt }

  unless_full :
      {A : Type 0} (stop : A) (rest : Act (Browsing W) A)
      → Ok rest
      → Ok (do full ← get (is_full max_tags); if full then return stop else rest)
  unless_full stop rest h =
      Returns-bind_anywhere (λ _. Unit) _ _ (Returns-get (is_full max_tags))
        (λ full _. Returns-if full _ _ (Returns-return stop tt) h)

  take_then :
      {A : Type 0} (tag : Text) (rest : Act (Browsing W) A)
      → Ok rest
      → Ok (update (take_tag tag) >> rest)
  take_then tag rest h = Returns-bind_anywhere (λ _. Unit) _ _ (update-Ok (take_tag tag)) (λ _ _. h)

  after_call :
      (fuel : ℕ) (g : GuardedBrowseIterator) (x : OpcResult Text)
      → HasFuel (suc fuel) g
      → (next_string debug g).0 ≡ some x
      → HasFuel fuel (next_string debug g).1
  after_call fuel g x (ends, enough) e =
      let (ends', fewer) = next_string_fewer debug n g x ends e in
      (ends', omega (arith, enough, fewer))

  flat_tags-Ok :
      (fuel : ℕ) (g : GuardedBrowseIterator)
      → HasFuel fuel g
      → Ok (flat_tags server debug max_tags fuel g)
  unfolding flat_tags
  flat_tags-Ok zero g (ends, enough) = absurd (omega (arith, enough))
  flat_tags-Ok (suc fuel) g has = elim (Option-cases (next_string debug g).0) [
    | inl e ↦ rw (e, flat_tags) (Returns-return tt tt)
    | inr (name, e) ↦
        rw (e, flat_tags)
          (unless_full tt _ (
            Returns-bind_anywhere _ _ _ (Returns-try name) λ tag _.
              take_then tag _
                (flat_tags-Ok fuel (next_string debug g).1 (after_call fuel g name has e))))
  ]

  item_id_or_name-Ok : (name : Text) → Ok (item_id_or_name server debug max_tags name)
  unfolding item_id_or_name return
  item_id_or_name-Ok name = record { from = λ s h. tt }

  leaf_tags-Ok :
      (fuel : ℕ) (g : GuardedBrowseIterator)
      → HasFuel fuel g
      → Ok (leaf_tags server debug max_tags fuel g)
  unfolding leaf_tags
  leaf_tags-Ok zero g (ends, enough) = absurd (omega (arith, enough))
  leaf_tags-Ok (suc fuel) g has = elim (Option-cases (next_string debug g).0) [
    | inl e ↦ rw (e, leaf_tags) (Returns-return false tt)
    | inr (name, e) ↦
        rw (e, leaf_tags)
          (unless_full true _ (
            Returns-bind_anywhere _ _ _ (Returns-try name) λ browse_name _.
              Returns-bind_anywhere (λ _. Unit) _ _ (item_id_or_name-Ok browse_name)
                λ tag _.
                  take_then tag _
                    (leaf_tags-Ok fuel (next_string debug g).1 (after_call fuel g name has e))))
  ]

  branch_names-Ok :
      (fuel : ℕ) (path : List Text) (g : GuardedBrowseIterator) (names : List Text)
      → HasFuel fuel g
      → Ok (branch_names server debug max_tags fuel path g names)
  unfolding branch_names
  branch_names-Ok zero path g names (ends, enough) = absurd (omega (arith, enough))
  branch_names-Ok (suc fuel) path g names has = elim (Option-cases (next_string debug g).0) [
    | inl e ↦ rw (e, branch_names) (Returns-return names tt)
    | inr (ok name, e) ↦
        rw (e, branch_names)
          (branch_names-Ok fuel path (next_string debug g).1 (names ++ name ∷ [])
            (after_call fuel g (ok name) has e))
    | inr (err x, e) ↦
        rw (e, branch_names)
          (Returns-if (is_non_progress_browse_error x) _ _ (Returns-fail _) (
            branch_names-Ok fuel path (next_string debug g).1 names
              (after_call fuel g (err x) has e)))
  ]

  caught-has :
      {A : Type 0} (r : Outcome A) (s : Browsing W)
      → HasReturned (λ _. Unit) r
      → HasReturned (λ _. Unit) (caught r s).0
  caught-has (done a) s h = tt
  caught-has (failed e) s h = tt
  caught-has exhausted s h = h

  catch-Ok : {A : Type 0} (m : Act (Browsing W) A) → Ok m → Ok (catch m)
  unfolding catch
  catch-Ok m h = record { from = λ s p. caught-has (m s).0 (m s).1 (h.from s p) }

  call-Ok : {A : Type 0} (method : W → OpcResult A × W) → Ok (ask_server method)
  call-Ok method = ask_server-Gets (λ _. Unit) method (λ w. any-OnOk _)

  module _ (recurse : Act (Browsing W) (Unit {0})) (visited : Ok recurse) where
    after_branch-Ok :
        (error up : Option OpcError) (next : Act (Browsing W) (Unit {0}))
        → Ok next
        → Ok (after_branch server debug max_tags recurse error up next)
    unfolding after_branch
    after_branch-Ok none none next h = h
    after_branch-Ok none (some u) next h = Returns-return tt tt
    after_branch-Ok (some e) none next h =
        Returns-if (is_non_progress_browse_error e) _ _ (Returns-fail e) h
    after_branch-Ok (some e) (some u) next h =
        Returns-if (is_non_progress_browse_error e) _ _ (Returns-fail e) (Returns-return tt tt)

    enter_branch-Ok :
        (branch : Text) (next : Act (Browsing W) (Unit {0})) (down : Option OpcError)
        → Ok next
        → Ok (enter_branch server debug max_tags recurse branch next down)
    unfolding enter_branch
    enter_branch-Ok branch next (some e) h = h
    enter_branch-Ok branch next none h =
        Returns-bind_anywhere _ _ _ (update-Ok (push_path branch)) λ _ _.
          Returns-bind_anywhere _ _ _ (catch-Ok recurse visited) λ error _.
            Returns-bind_anywhere _ _ _ (catch-Ok _ (call-Ok _)) λ up _.
              Returns-bind_anywhere _ _ _ (update-Ok pop_path)
                (λ _ _. after_branch-Ok error up next h)

    visit_branches-Ok :
        (branches : List Text) → Ok (visit_branches server debug max_tags recurse branches)
    unfolding visit_branches
    visit_branches-Ok [] = Returns-return tt tt
    visit_branches-Ok (branch ∷ branches) = unless_full tt _ (
        Returns-bind_anywhere _ _ _ (catch-Ok _ (call-Ok _))
          (λ down _. enter_branch-Ok branch _ down (visit_branches-Ok branches)))

  browse_recursive-Ok :
      (fuel levels : ℕ) → n < fuel → Ok (browse_recursive server debug max_tags fuel levels)
  unfolding browse_recursive browse_level
  browse_recursive-Ok fuel zero enough = Returns-return tt tt
  browse_recursive-Ok fuel (suc levels) enough = unless_full tt _ (
      Returns-bind_anywhere _ _ _ (Returns-get (λ s. s.browse_path)) λ p _.
        Returns-bind_anywhere _ _ _ (begin_guarded-Gets fuel opc_branch _ p enough)
          λ branch_enum has.
            Returns-bind_anywhere _ _ _ (branch_names-Ok fuel p branch_enum [] has) λ branches _.
              Returns-bind_anywhere _ _ _ (begin_guarded-Gets fuel opc_leaf _ p enough)
                λ leaf_enum has'.
                  Returns-bind_anywhere _ _ _ (leaf_tags-Ok fuel leaf_enum has') λ ended _.
                    Returns-if ended _ _ (Returns-return tt tt) (
                      visit_branches-Ok (browse_recursive server debug max_tags fuel levels)
                        (browse_recursive-Ok fuel levels enough) branches))

  browse_all-Ok : (fuel : ℕ) → n < fuel → Ok (browse_all server debug max_tags fuel)
  unfolding browse_all
  browse_all-Ok fuel enough =
      Returns-bind_anywhere _ _ _ (call-Ok server.query_organization) λ organization _.
        Returns-if (organization == opc_ns_flat) _ _
          (Returns-bind_anywhere _ _ _ (begin_guarded-Gets fuel opc_leaf _ [] enough)
            (λ string_iter has. flat_tags-Ok fuel string_iter has))
          (browse_recursive-Ok fuel max_levels enough)

  -- When every iterator of the server ends within `n` calls, fuel for more than `n` names is enough for
  -- `handle_browse` to give tags or an error, however deep and wide the server's hierarchy is.
  pub handle_browse-Returns :
      (fuel : ℕ) (w : W) (sink : TagSink)
      → n < fuel
      → (handle_browse server debug max_tags fuel (w, sink)).0 ≢ exhausted
  unfolding handle_browse
  handle_browse-Returns fuel w sink enough =
      not_exhausted (λ _. Unit) _
        ((Returns-bind_anywhere (λ _. Unit) _ (λ _. get (λ s. s.tags)) (browse_all-Ok fuel enough)
            (λ _ _. Returns-get (λ s. s.tags))).from
          (record { server = w; tags = []; sink = sink; browse_path = [] }) tt)
