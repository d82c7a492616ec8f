-- ===== src/Worker/Restored.antt =====
-- The browse position after `handle_browse` of opc-da-client/src/com_worker/browse.rs, by way of the
-- branches that it enters and leaves.
use opc_cli.Prelude.{
  ℕ, zero, suc, ◌≡◌, refl, ap, ◌∙◌, Option, none, some, List, [], ◌∷◌, ◌++◌, Text, codes, drop_last,
  ◌==◌,
}
use opc_cli.Errors.{OpcError, OpcResult, ok, err, is_non_progress_browse_error}
use opc_cli.Act.{Act, Outcome, done, failed, exhausted, get, catch}
use opc_cli.Act.Triple.{
  Triple, EndsWith, Triple-bind, Triple-return, Triple-fail, Triple-if, Triple-get, Triple-update,
  Triple-catch,
}
use opc_cli.Server.{Server, opc_browse_up, opc_browse_down, opc_branch, opc_leaf, opc_ns_flat}
use opc_cli.Worker.Names.{branch_names-keeps}
use opc_cli.Worker.Browse.{
  TagSink, Browsing, ask_server, push_path, pop_path, after_branch, enter_branch, visit_branches,
  browse_level, browse_recursive, browse_all, handle_browse, max_levels,
}
use opc_cli.Worker.Position.{
  GoesUp, IsAt, ask_server-ends, ask_server-Stays, begin_guarded-Stays, unless_full,
  flat_tags-Stays, leaf_tags-Stays, drop_last-snoc,
}

module _ {W : Type 0} (server : Server W) (debug : Text → Text) (max_tags : ℕ)
    (position : W → List Text) (goes : GoesUp server position) where
  abbrev At : List Text → Browsing W → Type 0
  At = IsAt server debug max_tags position goes

  abbrev Remains : {A : Type 0} → List Text → Act (Browsing W) A → Type 0
  Remains path m = Triple (At path) (λ _. At path) (λ _. At path) m

  -- Where a movement down leads.
  abbrev WentDown : List Text → Text → Option OpcError → Browsing W → Type 0
  WentDown path branch none = At (path ++ branch ∷ [])
  WentDown path branch (some e) = At path

  pair_of :
      {A : Type 0} (m : W → OpcResult A × W) (w : W) (r : OpcResult A)
      → (m w).0 ≡ r
      → m w ≡ (r, (m w).1)
  pair_of m w r e = ap (λ q. (q, (m w).1)) e

  go_down-WentDown :
      (path : List Text) (branch : Text)
      → Triple
          (At path)
          (WentDown path branch)
          (λ _. At path)
          (catch (ask_server (server.change_browse_position opc_browse_down branch)))
  unfolding ask_server
  go_down-WentDown path branch =
      Triple-catch (λ _. At (path ++ branch ∷ [])) (λ _. At path) _
        (record {
          from = λ s at.
              let down = server.change_browse_position opc_browse_down branch in
              let w' = (down s.server).1 in
              ask_server-ends server debug max_tags position goes (λ _. At (path ++ branch ∷ []))
                (λ _. At path) (down s.server).0 w' s
                (λ a e.
                  goes.moves.down_ok branch s.server w' (pair_of down s.server (ok a) e)
                  ∙ ap (λ p. p ++ branch ∷ []) at)
                (λ x e.
                  goes.moves.down_err branch s.server w' x (pair_of down s.server (err x) e) ∙ at);
        })
        (λ a s h. h) (λ e s h. h)

  go_up-IsAt :
      (path : List Text) (branch : Text)
      → Triple
          (At (path ++ branch ∷ []))
          (λ _. At path)
          (λ _. At path)
          (catch (ask_server (server.change_browse_position opc_browse_up (codes ""))))
  unfolding ask_server
  go_up-IsAt path branch =
      Triple-catch (λ _. At path) (λ _. At path) _
        (record {
          from = λ s at.
              let up = server.change_browse_position opc_browse_up (codes "") in
              let w' = (up s.server).1 in
              ask_server-ends server debug max_tags position goes (λ _. At path) (λ _. At path)
                (up s.server).0 w' s
                (λ a e.
                  goes.moves.up_ok s.server w' (pair_of up s.server (ok a) e)
                  ∙ ap drop_last at
                  ∙ drop_last-snoc path branch)
                (λ x e. let works = goes.up_works path branch s.server at in cc);
        })
        (λ a s h. h) (λ e s h. h)

  module _ (recurse : Act (Browsing W) (Unit {0}))
      (visited : (path : List Text) → Remains path recurse) where
    after_branch-Stays :
        (path : List Text) (error up : Option OpcError) (next : Act (Browsing W) (Unit {0}))
        → Remains path next
        → Remains path (after_branch server debug max_tags recurse error up next)
    unfolding after_branch
    after_branch-Stays path none none next h = h
    after_branch-Stays path none (some u) next h = Triple-return tt (λ s p. p)
    after_branch-Stays path (some e) none next h =
        Triple-if (is_non_progress_browse_error e) _ _ (λ is. Triple-fail e (λ s p. p)) (λ is. h)
    after_branch-Stays path (some e) (some u) next h =
        Triple-if (is_non_progress_browse_error e) _ _ (λ is. Triple-fail e (λ s p. p))
          (λ is. Triple-return tt (λ s p. p))

    enter_branch-Stays :
        (path : List Text) (branch : Text) (next : Act (Browsing W) (Unit {0}))
        (down : Option OpcError)
        → Remains path next
        → Triple
            (WentDown path branch down)
            (λ _. At path)
            (λ _. At path)
            (enter_branch server debug max_tags recurse branch next down)
    unfolding enter_branch
    enter_branch-Stays path branch next (some e) h = h
    enter_branch-Stays path branch next none h =
        let below = path ++ branch ∷ [] in
        Triple-bind (λ _. At below) _ _ (Triple-update (push_path branch) (λ s at. at))
          λ _.
            Triple-bind (λ _. At below) _ _
              (Triple-catch (λ _. At below) (λ _. At below) recurse (visited below) (λ a s at. at)
                (λ e s at. at))
              λ error.
                Triple-bind (λ _. At path) _ _ (go_up-IsAt path branch)
                  λ up.
                    Triple-bind (λ _. At path) _ _ (Triple-update pop_path (λ s at. at))
                      (λ _. after_branch-Stays path error up next h)

    visit_branches-Stays :
        (path : List Text) (branches : List Text)
        → Remains path (visit_branches server debug max_tags recurse branches)
    unfolding visit_branches
    visit_branches-Stays path [] = Triple-return tt (λ s h. h)
    visit_branches-Stays path (branch ∷ branches) =
        unless_full server debug max_tags position goes path tt _ (
          Triple-bind (WentDown path branch) _ _ (go_down-WentDown path branch)
            λ down. enter_branch-Stays path branch _ down (visit_branches-Stays path branches))

  browse_recursive-Stays :
      (path : List Text) (fuel levels : ℕ)
      → Remains path (browse_recursive server debug max_tags fuel levels)
  unfolding browse_recursive browse_level
  browse_recursive-Stays path fuel zero = Triple-return tt (λ s h. h)
  browse_recursive-Stays path fuel (suc levels) =
      unless_full server debug max_tags position goes path tt _ (
        Triple-bind (λ _. At path) _ _ (Triple-get (λ s. s.browse_path) (λ s h. h))
          λ p.
            Triple-bind (λ _. At path) _ _
              (begin_guarded-Stays server debug max_tags position goes path opc_branch _ p)
              λ branch_enum.
                Triple-bind (λ _. At path) _ _
                  (branch_names-keeps server debug max_tags (At path) fuel p branch_enum [])
                  λ branches.
                    Triple-bind (λ _. At path) _ _
                      (begin_guarded-Stays server debug max_tags position goes path opc_leaf _ p)
                      λ leaf_enum.
                        Triple-bind (λ _. At path) _ _
                          (leaf_tags-Stays server debug max_tags position goes path fuel leaf_enum)
                          λ ended.
                            Triple-if ended _ _ (λ is. Triple-return tt (λ s h. h))
                              λ is.
                                visit_branches-Stays
                                  (browse_recursive server debug max_tags fuel levels)
                                  (λ q. browse_recursive-Stays q fuel levels) path branches)

  browse_all-Stays :
      (path : List Text) (fuel : ℕ) → Remains path (browse_all server debug max_tags fuel)
  unfolding browse_all
  browse_all-Stays path fuel =
      Triple-bind (λ _. At path) _ _
        (ask_server-Stays server debug max_tags position goes path server.query_organization
          goes.asked)
        λ organization.
          Triple-if (organization == opc_ns_flat) _ _
            (λ flat.
              Triple-bind (λ _. At path) _ _
                (begin_guarded-Stays server debug max_tags position goes path opc_leaf _ [])
                (λ string_iter.
                  flat_tags-Stays server debug max_tags position goes path fuel string_iter))
            (λ hierarchical. browse_recursive-Stays path fuel max_levels)

  abbrev pub IsBack : W → W × TagSink → Type 0
  IsBack w (w', sink) = position w' ≡ position w

  IsBack-ends :
      (w : W) (o : Outcome (List Text) × Browsing W)
      → EndsWith (λ tags. At (position w)) (λ e. At (position w)) o
      → EndsWith (λ tags. IsBack w) (λ e. IsBack w) (o.0, (o.1.server, o.1.sink))
  IsBack-ends w (done tags, s) at = at
  IsBack-ends w (failed e, s) at = at
  IsBack-ends w (exhausted, s) at = tt

  -- On a server whose position moves as OPC DA documents and that can always go up from below its root,
  -- `handle_browse` leaves the browse position where it was, whether it gives tags, stops at the
  -- limit of tags or of depth, or fails, and whichever branches cannot be entered. (Of a run on too
  -- little fuel nothing is said.)
  pub handle_browse-IsBack :
      (fuel : ℕ) (w : W) (sink : TagSink)
      → EndsWith
          (λ tags. IsBack w)
          (λ e. IsBack w)
          (handle_browse server debug max_tags fuel (w, sink))
  unfolding handle_browse
  handle_browse-IsBack fuel w sink = IsBack-ends w _ (
      (Triple-bind (λ _. At (position w)) _ (λ _. get (λ s. s.tags))
          (browse_all-Stays (position w) fuel) (λ _. Triple-get (λ s. s.tags) (λ s at. at))).from
        (record { server = w; tags = []; sink = sink; browse_path = [] }) refl)
