-- ===== src/Inventory/PageNames.antt =====
-- The names of an OPC DA 2.x page of opc-da-client/src/inventory/da2.rs come to an end: what is left of them
-- when one is taken.
use opc_cli.Prelude.{
  ℕ, ◌+◌, ◌-◌, ◌≤◌, ◌<◌, ◌≡◌, refl, Bool, Option, none, some, Text, arith, Option-cases, inl, inr,
}
use opc_cli.Errors.{OpcResult, ok, err, is_non_progress_browse_error}
use opc_cli.Act.{return}
use opc_cli.Act.Returns.{Returns, Returns-return, Returns-fail, Returns-if, Returns-bind_anywhere}
use opc_cli.Act.Total.{IsTotal-update, Returns-then}
use opc_cli.Server.{Server}
use opc_cli.Server.Guard.{next_string}
use opc_cli.Browse.Finite.{EndsBy}
use opc_cli.Worker.Asked.{next_string_fewer}
use opc_cli.Inventory.State.{was_cancelled, failed, BufferedBrowseIterator, Da2PageState}
use opc_cli.Inventory.Context.{Paged, next_native, next_buffered}
use opc_cli.Inventory.Da2.Names.{
  NextName, skip_branches, item_answer, next_item, branch_answer, next,
}
use opc_cli.Inventory.PageTotal.{ask_boundary-IsTotal}

abbrev waiting : Option (OpcResult Text) → ℕ
waiting none = 0
waiting (some r) = 1

-- How many names an iterator still gives at most, that ends within `n` calls.
abbrev pub left : ℕ → BufferedBrowseIterator → ℕ
left n b = (n - b.inner.inner.calls) + waiting b.pending

abbrev pub EndsByOpt : ℕ → Option BufferedBrowseIterator → Type 0
EndsByOpt n none = Unit
EndsByOpt n (some b) = EndsBy n b.inner.inner

abbrev pub left_opt : ℕ → Option BufferedBrowseIterator → ℕ
left_opt n none = 0
left_opt n (some b) = left n b

abbrev pub IsFinite : ℕ → Da2PageState → Type 0
IsFinite n state = EndsByOpt n state.branches × EndsByOpt n state.items

abbrev pub names_left : ℕ → Da2PageState → ℕ
names_left n state = left_opt n state.branches + left_opt n state.items

-- A name that an iterator gives is one less to come.
abbrev FewerOf :
    ℕ → BufferedBrowseIterator → Option (OpcResult Text) × BufferedBrowseIterator → Type 0
FewerOf n b (none, b') = Unit
FewerOf n b (some r, b') = EndsBy n b'.inner.inner × (left n b' < left n b)

abbrev pub FewerNames : ℕ → ℕ → NextName → Type 0
FewerNames n total (none, state) = Unit
FewerNames n total (some x, state) = IsFinite n state × (names_left n state < total)

module _ {W : Type 0} (server : Server W) (debug : Text → Text) (proceeds : ℕ → Bool) (n : ℕ) where
  abbrev pub Gets : {A : Type 0} → (A → Type 0) → Paged W A → Type 0
  Gets Q m = Returns (λ _. Unit) Q m

  native_fewer :
      (b : BufferedBrowseIterator)
      → EndsBy n b.inner.inner
      → FewerOf n b
          ((next_string debug b.inner).0, record b { inner = (next_string debug b.inner).1 })
  native_fewer b ends = elim (Option-cases (next_string debug b.inner).0) [
    | inl e ↦ rw e tt
    | inr (x, e) ↦
        let (ends', fewer) = next_string_fewer debug n b.inner x ends e in
        rw e (ends', omega (arith, fewer))
  ]

  next_native-Gets :
      (b : BufferedBrowseIterator)
      → EndsBy n b.inner.inner
      → Gets (FewerOf n b) (next_native proceeds debug b)
  unfolding next_native
  next_native-Gets b ends =
      Returns-then (FewerOf n b) _ _ (ask_boundary-IsTotal server debug proceeds) (λ proceed.
        Returns-if proceed _ _ (Returns-return _ (native_fewer b ends))
          (Returns-fail was_cancelled))

  pending-Gets :
      (b : BufferedBrowseIterator) (o : Option (OpcResult Text))
      → b.pending ≡ o
      → EndsBy n b.inner.inner
      → Gets (FewerOf n b) (elim o [
        | some value ↦ return (some value, record b { pending = none })
        | none ↦ next_native proceeds debug b
      ])
  pending-Gets b none e ends = next_native-Gets b ends
  pending-Gets b (some v) e ends = Returns-return _ (ends, rw e (omega arith))

  next_buffered-Gets :
      (b : BufferedBrowseIterator)
      → EndsBy n b.inner.inner
      → Gets (FewerOf n b) (next_buffered proceeds debug b)
  unfolding next_buffered
  next_buffered-Gets b ends = pending-Gets b b.pending refl ends

  item_answer-Gets :
      (total : ℕ) (state : Da2PageState) (b : BufferedBrowseIterator)
      (r : Option (OpcResult Text) × BufferedBrowseIterator)
      → FewerOf n b r
      → EndsByOpt n state.branches
      → left_opt n state.branches + left n b ≤ total
      → Gets (FewerNames n total) (item_answer {W = W} proceeds debug state r)
  unfolding item_answer
  item_answer-Gets total state b (some (ok name), b') (ends, fewer) below le =
      Returns-return _ ((below, ends), omega (arith, fewer, le))
  item_answer-Gets total state b (some (err e), b') h below le = Returns-fail (failed e)
  item_answer-Gets total state b (none, b') h below le = Returns-return _ tt

  next_item-Gets :
      (total : ℕ) (state : Da2PageState)
      → IsFinite n state
      → names_left n state ≤ total
      → Gets (FewerNames n total) (next_item {W = W} proceeds debug state)
  unfolding next_item
  next_item-Gets total state (below, ends) le = elim (Option-cases state.items) [
    | inl e ↦ rw (e, next_item) (Returns-return _ tt)
    | inr (b, e) ↦
        rw (e, next_item)
          (Returns-bind_anywhere (FewerOf n b) _ _ (next_buffered-Gets b (rw e at ends))
            (λ r fewer. item_answer-Gets total state b r fewer below (rw e at le)))
  ]

  skip_branches-Gets :
      (state : Da2PageState)
      → Gets
          (λ state'. state' ≡ record state { branches = none })
          (skip_branches {W = W} proceeds debug state)
  unfolding skip_branches
  skip_branches-Gets state = Returns-then _ _ _ (IsTotal-update _) (λ _. Returns-return _ refl)

  branch_answer-Gets :
      (total : ℕ) (state : Da2PageState) (b : BufferedBrowseIterator)
      (r : Option (OpcResult Text) × BufferedBrowseIterator)
      → FewerOf n b r
      → EndsByOpt n state.items
      → left n b + left_opt n state.items ≤ total
      → Gets (FewerNames n total) (branch_answer {W = W} proceeds debug state r)
  unfolding branch_answer
  branch_answer-Gets total state b (some (ok name), b') (ends, fewer) items le =
      Returns-return _ ((ends, items), omega (arith, fewer, le))
  branch_answer-Gets total state b (some (err e), b') h items le =
      Returns-if (is_non_progress_browse_error e) _ _
        (Returns-bind_anywhere _ _ _ (skip_branches-Gets state) λ state' is.
          rw is (
            next_item-Gets total (record state { branches = none }) (tt, items)
              (omega (arith, le))))
        (Returns-fail (failed e))
  branch_answer-Gets total state b (none, b') h items le =
      next_item-Gets total (record state { branches = none }) (tt, items) (omega (arith, le))

  pub next-Gets :
      (state : Da2PageState)
      → IsFinite n state
      → Gets (FewerNames n (names_left n state)) (next {W = W} proceeds debug state)
  unfolding next
  next-Gets state (below, items) = elim (Option-cases state.branches) [
    | inl e ↦ rw (e, next) (next_item-Gets _ state (below, items) (rw e (omega arith)))
    | inr (b, e) ↦
        rw (e, next)
          (Returns-bind_anywhere (FewerOf n b) _ _ (next_buffered-Gets b (rw e at below))
            (λ r fewer. branch_answer-Gets _ state b r fewer items (omega arith)))
  ]
