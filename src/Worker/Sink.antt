-- ===== src/Worker/Sink.antt =====
-- The tags that `handle_browse` of opc-da-client/src/com_worker/browse.rs finds, and what it shows of them
-- in the sink and the counter of its caller.
use opc_cli.Prelude.{
  ℕ, zero, suc, ◌+◌, ◌%◌, ◌^◌, ◌≤◌, ◌<◌, ◌≡◌, refl, sym, ◌∙◌, true, false, Option, none, some, List,
  [], ◌∷◌, ◌++◌, Text, length, length-append, ◌==◌, if◌then◌else◌, Option-cases, inl, inr, arith,
}
use mathlib.Core.List.{append-nil, append_assoc}
use opc_cli.Errors.{OpcError, OpcResult, ok, err, is_non_progress_browse_error}
use opc_cli.Act.{
  Act, Outcome, done, failed, exhausted, return, get, update, catch, outcome, ◌>>=◌, ◌>>◌,
}
use opc_cli.Act.Triple.{
  Triple, EndsWith, Triple-bind, Triple-return, Triple-fail, Triple-if, Triple-try, Triple-get,
  Triple-update, Triple-catch, Triple-out_of_fuel, Triple-before,
}
use opc_cli.Server.{Server, opc_branch, opc_leaf, opc_ns_flat}
use opc_cli.Server.Guard.{GuardedBrowseIterator, next_string}
use opc_cli.Worker.Names.{branch_names-keeps}
use opc_cli.Worker.Browse.{
  TagSink, Browsing, ask_server, take_tag, is_full, push_path, pop_path, begin_guarded, flat_tags,
  item_id_or_name, leaf_tags, after_branch, enter_branch, visit_branches, browse_level,
  browse_recursive, browse_all, handle_browse, max_levels,
}

module _ {W : Type 0} (server : Server W) (debug : Text → Text) (max_tags : ℕ)
    (sink : TagSink) where
  -- Since the sink was `sink` it has got the tags that were found, which are no more than asked for.
  abbrev pub IsFilling : Browsing W → Type 0
  IsFilling s =
      (s.sink.tags ≡ sink.tags ++ s.tags)
      × (s.sink.progress ≡ (sink.progress + length s.tags) % 2 ^ 64)
      × (length s.tags ≤ max_tags)

  abbrev Fills : {A : Type 0} → Act (Browsing W) A → Type 0
  Fills m = Triple IsFilling (λ _. IsFilling) (λ _. IsFilling) m

  ask_server-Fills : {A : Type 0} (method : W → OpcResult A × W) → Fills (ask_server method)
  unfolding ask_server
  ask_server-Fills method = record {
    from = λ s h. ends (method s.server).0 (method s.server).1 s h;
  }
    where
      ends :
          {A : Type 0} (r : OpcResult A) (w : W) (s : Browsing W)
          → IsFilling s
          → EndsWith (λ _. IsFilling) (λ _. IsFilling) (outcome r, record s { server = w })
      ends (ok a) w s h = h
      ends (err e) w s h = h

  take_tag-IsFilling :
      (tag : Text) (s : Browsing W)
      → IsFilling s
      → is_full max_tags s ≡ false
      → IsFilling (take_tag tag s)
  unfolding take_tag
  take_tag-IsFilling tag s (same, counted, few) room = (
    rw same (append_assoc sink.tags s.tags (tag ∷ [])),
    omega (arith, length-append s.tags (tag ∷ [])),
    ground (arith, length-append s.tags (tag ∷ [])),
  )

  -- An action that a test of the limit lets through.
  unless_full :
      {A : Type 0} (stop : A) (rest : Act (Browsing W) A)
      → Triple
          (λ s. IsFilling s × (is_full max_tags s ≡ false))
          (λ _. IsFilling)
          (λ _. IsFilling)
          rest
      → Fills (do full ← get (is_full max_tags); if full then return stop else rest)
  unless_full stop rest h =
      Triple-bind (λ full s. IsFilling s × (is_full max_tags s ≡ full)) (get (is_full max_tags)) _
        (Triple-get (is_full max_tags) (λ s filling. (filling, refl)))
        λ full.
          Triple-if full (return stop) rest (λ is. Triple-return stop (λ s p. p.0))
            λ is. Triple-before _ rest (λ s p. (p.0, p.1 ∙ is)) h

  begin_guarded-Fills :
      (kind : ℕ) (name : Text) (path : List Text)
      → Fills (begin_guarded server debug max_tags kind name path)
  unfolding begin_guarded
  begin_guarded-Fills kind name path =
      Triple-bind (λ _. IsFilling) _ _ (ask_server-Fills _) (λ source. Triple-return _ (λ s h. h))

  item_id_or_name-room :
      (name : Text)
      → Triple
          (λ s. IsFilling s × (is_full max_tags s ≡ false))
          (λ _ s. IsFilling s × (is_full max_tags s ≡ false))
          (λ _. IsFilling)
          (item_id_or_name server debug max_tags name)
  unfolding item_id_or_name return
  item_id_or_name-room name = record { from = λ s h. h }

  -- A tag is taken and the rest goes on.
  take_then :
      {A : Type 0} (tag : Text) (rest : Act (Browsing W) A)
      → Fills rest
      → Triple
          (λ s. IsFilling s × (is_full max_tags s ≡ false))
          (λ _. IsFilling)
          (λ _. IsFilling)
          (update (take_tag tag) >> rest)
  take_then tag rest h =
      Triple-bind (λ _. IsFilling) _ _
        (Triple-update (take_tag tag) (λ s p. take_tag-IsFilling tag s p.0 p.1)) (λ _. h)

  flat_tags-Fills :
      (fuel : ℕ) (g : GuardedBrowseIterator) → Fills (flat_tags server debug max_tags fuel g)
  unfolding flat_tags
  flat_tags-Fills zero g = Triple-out_of_fuel
  flat_tags-Fills (suc fuel) g = elim (Option-cases (next_string debug g).0) [
    | inl e ↦ rw (e, flat_tags) (Triple-return tt (λ s h. h))
    | inr (name, e) ↦
        rw (e, flat_tags)
          (unless_full tt _ (
            Triple-bind (λ _ s. IsFilling s × (is_full max_tags s ≡ false)) _ _
              (Triple-try name (λ a s e h. h) (λ x s e h. h.0))
              (λ tag. take_then tag _ (flat_tags-Fills fuel (next_string debug g).1))))
  ]

  leaf_tags-Fills :
      (fuel : ℕ) (g : GuardedBrowseIterator) → Fills (leaf_tags server debug max_tags fuel g)
  unfolding leaf_tags
  leaf_tags-Fills zero g = Triple-out_of_fuel
  leaf_tags-Fills (suc fuel) g = elim (Option-cases (next_string debug g).0) [
    | inl e ↦ rw (e, leaf_tags) (Triple-return false (λ s h. h))
    | inr (name, e) ↦
        rw (e, leaf_tags)
          (unless_full true _ (
            Triple-bind (λ _ s. IsFilling s × (is_full max_tags s ≡ false)) _ _
              (Triple-try name (λ a s e h. h) (λ x s e h. h.0))
              λ browse_name.
                Triple-bind (λ _ s. IsFilling s × (is_full max_tags s ≡ false)) _ _
                  (item_id_or_name-room browse_name)
                  (λ tag. take_then tag _ (leaf_tags-Fills fuel (next_string debug g).1))))
  ]

  module _ (recurse : Act (Browsing W) (Unit {0})) (visited : Fills recurse) where
    after_branch-Fills :
        (error up : Option OpcError) (next : Act (Browsing W) (Unit {0}))
        → Fills next
        → Fills (after_branch server debug max_tags recurse error up next)
    unfolding after_branch
    after_branch-Fills none none next h = h
    after_branch-Fills none (some u) next h = Triple-return tt (λ s p. p)
    after_branch-Fills (some e) none next h =
        Triple-if (is_non_progress_browse_error e) _ _ (λ is. Triple-fail e (λ s p. p)) (λ is. h)
    after_branch-Fills (some e) (some u) next h =
        Triple-if (is_non_progress_browse_error e) _ _ (λ is. Triple-fail e (λ s p. p))
          (λ is. Triple-return tt (λ s p. p))

    -- The error of an action is caught.
    catch-Fills : {A : Type 0} (m : Act (Browsing W) A) → Fills m → Fills (catch m)
    catch-Fills m h = Triple-catch (λ _. IsFilling) (λ _. IsFilling) m h (λ a s p. p) (λ e s p. p)

    enter_branch-Fills :
        (branch : Text) (next : Act (Browsing W) (Unit {0})) (down : Option OpcError)
        → Fills next
        → Fills (enter_branch server debug max_tags recurse branch next down)
    unfolding enter_branch
    enter_branch-Fills branch next (some e) h = h
    enter_branch-Fills branch next none h =
        Triple-bind (λ _. IsFilling) _ _ (Triple-update (push_path branch) (λ s p. p))
          λ _.
            Triple-bind (λ _. IsFilling) _ _ (catch-Fills recurse visited)
              λ error.
                Triple-bind (λ _. IsFilling) _ _ (catch-Fills _ (ask_server-Fills _))
                  λ up.
                    Triple-bind (λ _. IsFilling) _ _ (Triple-update pop_path (λ s p. p))
                      (λ _. after_branch-Fills error up next h)

    visit_branches-Fills :
        (branches : List Text) → Fills (visit_branches server debug max_tags recurse branches)
    unfolding visit_branches
    visit_branches-Fills [] = Triple-return tt (λ s h. h)
    visit_branches-Fills (branch ∷ branches) = unless_full tt _ (
        Triple-before IsFilling _ (λ s p. p.0)
          (Triple-bind (λ _. IsFilling) _ _ (catch-Fills _ (ask_server-Fills _))
            (λ down. enter_branch-Fills branch _ down (visit_branches-Fills branches))))

  browse_recursive-Fills :
      (fuel levels : ℕ) → Fills (browse_recursive server debug max_tags fuel levels)
  unfolding browse_recursive browse_level
  browse_recursive-Fills fuel zero = Triple-return tt (λ s h. h)
  browse_recursive-Fills fuel (suc levels) = unless_full tt _ (
      Triple-before IsFilling _ (λ s p. p.0)
        (Triple-bind (λ _. IsFilling) _ _ (Triple-get (λ s. s.browse_path) (λ s h. h))
          λ path.
            Triple-bind (λ _. IsFilling) _ _ (begin_guarded-Fills opc_branch _ path)
              λ branch_enum.
                Triple-bind (λ _. IsFilling) _ _
                  (branch_names-keeps server debug max_tags IsFilling fuel path branch_enum [])
                  λ branches.
                    Triple-bind (λ _. IsFilling) _ _ (begin_guarded-Fills opc_leaf _ path)
                      λ leaf_enum.
                        Triple-bind (λ _. IsFilling) _ _ (leaf_tags-Fills fuel leaf_enum)
                          λ ended.
                            Triple-if ended _ _ (λ is. Triple-return tt (λ s h. h))
                              λ is.
                                visit_branches-Fills
                                  (browse_recursive server debug max_tags fuel levels)
                                  (browse_recursive-Fills fuel levels) branches))

  browse_all-Fills : (fuel : ℕ) → Fills (browse_all server debug max_tags fuel)
  unfolding browse_all
  browse_all-Fills fuel =
      Triple-bind (λ _. IsFilling) _ _ (ask_server-Fills server.query_organization)
        λ organization.
          Triple-if (organization == opc_ns_flat) _ _
            (λ flat.
              Triple-bind (λ _. IsFilling) _ _ (begin_guarded-Fills opc_leaf _ [])
                (λ string_iter. flat_tags-Fills fuel string_iter))
            (λ hierarchical. browse_recursive-Fills fuel max_levels)

-- What an attempt leaves in the sink: that of before and the tags of the result, of which there are no
-- more than asked for; after an error, that of before and some tags.
abbrev pub Shown : {W : Type 0} → ℕ → TagSink → List Text → W × TagSink → Type 0
Shown max_tags sink tags (w, sink') =
    (sink'.tags ≡ sink.tags ++ tags)
    × (sink'.progress ≡ (sink.progress + length tags) % 2 ^ 64)
    × (length tags ≤ max_tags)

-- After an error, some tags were found.
abbrev pub ShownSome : {W : Type 0} → ℕ → TagSink → W × TagSink → Type 0
ShownSome max_tags sink p = (tags : List Text) × Shown max_tags sink tags p

module _ {W : Type 0} (server : Server W) (debug : Text → Text) (max_tags fuel : ℕ) where
  Shown-ends :
      (sink : TagSink) (o : Outcome (List Text) × Browsing W)
      → EndsWith
          (λ tags s. IsFilling server debug max_tags sink s × (s.tags ≡ tags))
          (λ e. IsFilling server debug max_tags sink)
          o
      → EndsWith (Shown max_tags sink) (λ e. ShownSome max_tags sink) (o.0, (o.1.server, o.1.sink))
  Shown-ends sink (done tags, s) (filling, same) = rw (← same) filling
  Shown-ends sink (failed e, s) filling = (s.tags, filling)
  Shown-ends sink (exhausted, s) filling = tt

  -- Whatever the server answers, when `handle_browse` gives tags, they are at most as many as asked for and
  -- stand in the sink, in their order, after what was there before, and the counter has grown by
  -- their number modulo 2^64; when it fails, this holds of the tags found before the error. (Of a
  -- run on too little fuel nothing is said.)
  pub handle_browse-Shown :
      (w : W) (sink : TagSink)
      → sink.progress < 2 ^ 64
      → EndsWith
          (Shown max_tags sink)
          (λ e. ShownSome max_tags sink)
          (handle_browse server debug max_tags fuel (w, sink))
  unfolding handle_browse
  handle_browse-Shown w sink small = Shown-ends sink _ (
      (Triple-bind (λ _. IsFilling server debug max_tags sink) _ (λ _. get (λ s. s.tags))
          (browse_all-Fills server debug max_tags sink fuel)
          (λ _. Triple-get (λ s. s.tags) (λ s h. (h, refl)))).from
        (record { server = w; tags = []; sink = sink; browse_path = [] })
        (sym (append-nil sink.tags), omega arith, omega arith))
