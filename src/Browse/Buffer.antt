-- ===== src/Browse/Buffer.antt =====
-- opc-da-client/src/native_browse/da2.rs: `BufferedBrowseIterator`, which looks one name ahead, and
-- `Da2PageState`, the names of a branch that are left: its branches, then its items.
use opc_cli.Prelude.{Bool, true, false, Option, none, some, List, Text, if◌then◌else◌}
use opc_cli.Errors.{OpcResult, ok, err, is_non_progress_browse_error}
use opc_cli.Provider.{BrowseNodeKind, branch, item}
use opc_cli.Server.{NameSource}
use opc_cli.Server.Guard.{GuardedBrowseIterator, guard_browse_iterator, next_string}

pub record BufferedBrowseIterator : Type 0 where
  pub inner : GuardedBrowseIterator
  pub pending : Option (OpcResult Text)

unfoldable pub new_buffered : NameSource → Text → List Text → BufferedBrowseIterator
new_buffered inner iterator_type browse_path = record {
  inner = guard_browse_iterator inner iterator_type browse_path;
  pending = none;
}

pub record Da2PageState : Type 0 where
  pub parent_path : List Text
  pub branches : Option BufferedBrowseIterator
  pub items : Option BufferedBrowseIterator
  pub flat : Bool
  pub merged_items : List Text

module _ (debug : Text → Text) where
  unfoldable pub next_buffered :
      BufferedBrowseIterator → Option (OpcResult Text) × BufferedBrowseIterator
  next_buffered b = elim b.pending [
    | some value ↦ (some value, record b { pending = none })
    | none ↦ let (value, g) = next_string debug b.inner in (value, record b { inner = g })
  ]

  -- The iterator with a name looked up, unless one is.
  unfoldable pub look_ahead : BufferedBrowseIterator → BufferedBrowseIterator
  look_ahead b = elim b.pending [
    | some value ↦ b
    | none ↦ let (value, g) = next_string debug b.inner in record b { inner = g; pending = value }
  ]

  abbrev pub is_pending : BufferedBrowseIterator → Bool
  is_pending b = elim b.pending [ none ↦ false | some _ ↦ true ]

  -- `take_non_progress().is_some()`: the error is only logged, and the iterator is then dropped.
  abbrev pub is_non_progress : Option (OpcResult Text) → Bool
  is_non_progress (some (err e)) = is_non_progress_browse_error e
  is_non_progress _ = false

  -- What `next` gives: no name, or a name of a branch or of an item.
  abbrev pub NextName : Type 0
  NextName = OpcResult (Option (BrowseNodeKind × Text)) × Da2PageState

  abbrev pub item_answer :
      Da2PageState → Option (OpcResult Text) × BufferedBrowseIterator → NextName
  item_answer s (some (ok name), b) = (ok (some (item, name)), record s { items = some b })
  item_answer s (some (err e), b) = (err e, record s { items = some b })
  item_answer s (none, b) = (ok none, record s { items = none })

  unfoldable pub next_item : Da2PageState → NextName
  next_item s = elim s.items [ none ↦ (ok none, s) | some b ↦ item_answer s (next_buffered b) ]

  -- A branch iterator that is done, or makes no progress, is dropped.
  abbrev pub branch_answer :
      Da2PageState → Option (OpcResult Text) × BufferedBrowseIterator → NextName
  branch_answer s (some (ok name), b) = (ok (some (branch, name)), record s { branches = some b })
  branch_answer s (some (err e), b) =
      if is_non_progress_browse_error e
      then next_item (record s { branches = none })
      else (err e, record s { branches = some b })
  branch_answer s (none, b) = next_item (record s { branches = none })

  unfoldable pub next : Da2PageState → NextName
  unfolding next_item
  next s = elim s.branches [ none ↦ next_item s | some b ↦ branch_answer s (next_buffered b) ]

  unfoldable pub items_have_more : Da2PageState → Bool × Da2PageState
  items_have_more s = elim s.items [
    | none ↦ (false, s)
    | some b ↦ let b' = look_ahead b in (is_pending b', record s { items = some b' })
  ]

  unfoldable pub has_more : Da2PageState → Bool × Da2PageState
  unfolding items_have_more
  has_more s = elim s.branches [
    | none ↦ items_have_more s
    | some b ↦
        let b' = look_ahead b in
        if is_pending b'
        then if is_non_progress b'.pending
          then items_have_more (record s { branches = none })
          else (true, record s { branches = some b' })
        else items_have_more (record s { branches = some b' })
  ]
