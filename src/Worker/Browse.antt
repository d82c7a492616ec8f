-- ===== src/Worker/Browse.antt =====
-- opc-da-client/src/com_worker/browse.rs: `handle_browse`, which lists the tags of a server, and
-- `browse_recursive` on a hierarchy. The counter and the sink are shared with the caller; the lock
-- of the sink is not poisoned, as nothing panics while it is held (a poisoned one would skip the
-- tag). A loop over the names of an iterator runs on fuel; the recursion on the levels that are
-- left above the greatest depth of 50.
use opc_cli.Prelude.{
  ℕ, zero, suc, ◌+◌, ◌%◌, ◌^◌, Bool, true, false, Option, none, some, List, [], ◌∷◌, ◌++◌, Text,
  codes, length, leb, drop_last, ◌==◌, if◌then◌else◌,
}
use opc_cli.Errors.{
  OpcError, OpcResult, ok, err, contextual_browse_error, is_non_progress_browse_error,
}
use opc_cli.Act.{Act, return, fail, get, try, update, catch, out_of_fuel, outcome, ◌>>=◌, ◌>>◌}
use opc_cli.Server.{Server, opc_ns_flat, opc_browse_up, opc_browse_down, opc_branch, opc_leaf}
use opc_cli.Server.Guard.{GuardedBrowseIterator, guard_browse_iterator, next_string}

-- The counter of tags and the tags that were found so far, which the caller reads meanwhile.
pub record TagSink : Type 0 where
  pub progress : ℕ
  pub tags : List Text

pub record Browsing (W : Type 0) : Type 0 where
  pub server : W
  pub tags : List Text
  pub sink : TagSink
  pub browse_path : List Text

-- `MAX_DEPTH` is 50, and the root has depth 0.
abbrev pub max_levels : ℕ
max_levels = 51

abbrev pub sink_tag : Text → TagSink → TagSink
sink_tag tag sink = record { progress = (sink.progress + 1) % 2 ^ 64; tags = sink.tags ++ tag ∷ [] }

module _ {W : Type 0} where
  -- A method of the server.
  unfoldable pub ask_server : {A : Type 0} → (W → OpcResult A × W) → Act (Browsing W) A
  ask_server method s = let (r, w) = method s.server in (outcome r, record s { server = w })

  unfoldable pub take_tag : Text → Browsing W → Browsing W
  take_tag tag s = record s { tags = s.tags ++ tag ∷ []; sink = sink_tag tag s.sink }

  abbrev pub is_full : ℕ → Browsing W → Bool
  is_full max_tags s = leb max_tags (length s.tags)

  abbrev pub push_path : Text → Browsing W → Browsing W
  push_path branch s = record s { browse_path = s.browse_path ++ branch ∷ [] }

  abbrev pub pop_path : Browsing W → Browsing W
  pop_path s = record s { browse_path = drop_last s.browse_path }

module _ {W : Type 0} (server : Server W) (debug : Text → Text) (max_tags : ℕ) where
  -- `begin_da2_browse` and the guard.
  unfoldable pub begin_guarded : ℕ → Text → List Text → Act (Browsing W) GuardedBrowseIterator
  unfolding ask_server guard_browse_iterator
  begin_guarded browse_type iterator_type path = do
    source ← ask_server (server.begin_da2_browse browse_type (some (codes "")) 0 0)
    return (guard_browse_iterator source iterator_type path)

  unfoldable pub flat_tags : ℕ → GuardedBrowseIterator → Act (Browsing W) (Unit {0})
  unfolding take_tag next_string
  flat_tags zero g = out_of_fuel
  flat_tags (suc fuel) g =
      let (answer, g') = next_string debug g in
      elim answer [
        | none ↦ return tt
        | some name ↦ do
          full ← get (is_full max_tags)
          if full then return tt else do tag ← try name; update (take_tag tag); flat_tags fuel g'
      ]

  -- The names of the branches; an error of the iterator is skipped, but for one that says that it makes
  -- no progress.
  unfoldable pub branch_names :
      ℕ → List Text → GuardedBrowseIterator → List Text → Act (Browsing W) (List Text)
  unfolding next_string
  branch_names zero path g names = out_of_fuel
  branch_names (suc fuel) path g names =
      let (answer, g') = next_string debug g in
      elim answer [
        | none ↦ return names
        | some (ok name) ↦ branch_names fuel path g' (names ++ name ∷ [])
        | some (err e) ↦
            let rest = branch_names fuel path g' names in
            if is_non_progress_browse_error e
            then fail
                (contextual_browse_error debug e (codes "browse_recursive(branches)") path none)
            else rest
      ]

  -- The name where the item id cannot be had.
  abbrev pub id_or_name : Text → OpcResult Text → Text
  id_or_name name (ok item_id) = item_id
  id_or_name name (err e) = name

  unfoldable pub item_id_or_name : Text → Act (Browsing W) Text
  item_id_or_name name s =
      let (r, w) = server.get_item_id name s.server in
      return (id_or_name name r) (record s { server = w })

  -- Whether the limit ended the level.
  unfoldable pub leaf_tags : ℕ → GuardedBrowseIterator → Act (Browsing W) Bool
  unfolding take_tag next_string item_id_or_name
  leaf_tags zero g = out_of_fuel
  leaf_tags (suc fuel) g =
      let (answer, g') = next_string debug g in
      elim answer [
        | none ↦ return false
        | some name ↦ do
          full ← get (is_full max_tags)
          if full then return true else do
            browse_name ← try name
            tag ← item_id_or_name browse_name
            update (take_tag tag)
            leaf_tags fuel g'
      ]

  module _ (recurse : Act (Browsing W) (Unit {0})) where
    -- What comes after a branch that was visited: its error, and that of the movement back up.
    unfoldable pub after_branch :
        Option OpcError
        → Option OpcError
        → Act (Browsing W) (Unit {0})
        → Act (Browsing W) (Unit {0})
    after_branch none none next = next
    after_branch none (some up_error) next = return tt
    after_branch (some e) none next = if is_non_progress_browse_error e then fail e else next
    after_branch (some e) (some up_error) next =
        if is_non_progress_browse_error e then fail e else return tt

    -- A branch that cannot be entered is skipped.
    unfoldable pub enter_branch :
        Text → Act (Browsing W) (Unit {0}) → Option OpcError → Act (Browsing W) (Unit {0})
    unfolding ask_server after_branch
    enter_branch branch next (some e) = next
    enter_branch branch next none = do
      update (push_path branch)
      error ← catch recurse
      up ← catch (ask_server (server.change_browse_position opc_browse_up (codes "")))
      update pop_path
      after_branch error up next

    unfoldable pub visit_branches : List Text → Act (Browsing W) (Unit {0})
    unfolding ask_server enter_branch
    visit_branches [] = return tt
    visit_branches (branch ∷ branches) = do
      full ← get (is_full max_tags)
      if full then return tt else do
        down ← catch (ask_server (server.change_browse_position opc_browse_down branch))
        enter_branch branch (visit_branches branches) down

  unfoldable pub browse_level :
      ℕ → Act (Browsing W) (Unit {0}) → List Text → Act (Browsing W) (Unit {0})
  unfolding begin_guarded branch_names leaf_tags visit_branches
  browse_level fuel recurse path = do
    branch_enum ← begin_guarded opc_branch (codes "recursive branch iterator") path
    branches ← branch_names fuel path branch_enum []
    leaf_enum ← begin_guarded opc_leaf (codes "recursive leaf iterator") path
    ended ← leaf_tags fuel leaf_enum
    if ended then return tt else visit_branches recurse branches

  -- `browse_recursive` at depth `51 - levels`.
  unfoldable pub browse_recursive : ℕ → ℕ → Act (Browsing W) (Unit {0})
  unfolding browse_level
  browse_recursive fuel zero = return tt
  browse_recursive fuel (suc levels) = do
    full ← get (is_full max_tags)
    if full then return tt else do
      path ← get (λ s. s.browse_path)
      browse_level fuel (browse_recursive fuel levels) path

  unfoldable pub browse_all : ℕ → Act (Browsing W) (Unit {0})
  unfolding begin_guarded flat_tags browse_recursive
  browse_all fuel = do
    organization ← ask_server server.query_organization
    if organization == opc_ns_flat
        then (do
          string_iter ← begin_guarded opc_leaf (codes "recursive flat iterator") []
          flat_tags fuel string_iter)
        else browse_recursive fuel max_levels

  -- The tags are the worker's own; the sink outlives the attempt.
  unfoldable pub handle_browse : ℕ → Act (W × TagSink) (List Text)
  unfolding browse_all
  handle_browse fuel (w, sink) =
      let (r, s) =
        (do browse_all fuel; get (λ s. s.tags))
          (record { server = w; tags = []; sink = sink; browse_path = [] }) in
      (r, (s.server, s.sink))
