-- ===== src/Browse/Finite.antt =====
-- Names of a branch that come to an end: what is left of them when one is taken.
use mathlib.Core.Bool.{false≢true}
use opc_cli.Prelude.{
  ℕ, suc, ◌+◌, ◌-◌, ◌≤◌, ◌<◌, ◌≡◌, refl, ap, ◌∙◌, Bool, true, false, Option, none, some, Text, leb,
  arith, Bool-cases, inl, inr,
}
use opc_cli.Errors.{OpcResult, ok, err, OpcError, browse_non_progress, is_non_progress_browse_error}
use opc_cli.Provider.{BrowseNodeKind}
use opc_cli.Server.{NameSource}
use opc_cli.Server.Guard.{GuardedBrowseIterator, next_string, observe, yield_value, yield_error}
use opc_cli.Browse.Buffer.{
  BufferedBrowseIterator, Da2PageState, next_buffered, next_item, next, item_answer, branch_answer,
  NextName,
}

-- After `n` calls the source gives nothing any more.
abbrev pub EndsBy : ℕ → NameSource → Type 0
EndsBy n source = (k : ℕ) → n ≤ k → source.answers k ≡ none

abbrev is_value : Option (OpcResult Text) → Bool
is_value (some (ok value)) = true
is_value _ = false

before_end :
    (n : ℕ) (source : NameSource) (k : ℕ)
    → EndsBy n source
    → is_value (source.answers k) ≡ true
    → k < n
before_end n source k ends h = elim (Bool-cases (leb n k)) [
  | inl late ↦
      let none_there : source.answers k ≡ none = ends k (ground arith) in
      absurd (false≢true (rw none_there at h))
  | inr early ↦ ground arith
]

abbrev waiting : Option (OpcResult Text) → ℕ
waiting none = 0
waiting (some r) = 1

-- How many names there are at most.
abbrev pub left : ℕ → BufferedBrowseIterator → ℕ
left n b = (n - b.inner.inner.calls) + waiting b.pending

abbrev pub EndsByOpt : ℕ → Option BufferedBrowseIterator → Type 0
EndsByOpt n none = Unit
EndsByOpt n (some b) = EndsBy n b.inner.inner

abbrev pub left_opt : ℕ → Option BufferedBrowseIterator → ℕ
left_opt n none = 0
left_opt n (some b) = left n b

-- The branches end by `m` calls and the items by `n`.
abbrev pub IsFinite : ℕ → ℕ → Da2PageState → Type 0
IsFinite m n s = EndsByOpt m s.branches × EndsByOpt n s.items

abbrev pub names_left : ℕ → ℕ → Da2PageState → ℕ
names_left m n s = left_opt m s.branches + left_opt n s.items

none_left :
    (m : ℕ) (o : Option BufferedBrowseIterator) → o ≡ none → EndsByOpt m o × (left_opt m o ≡ 0)
none_left m none h = (tt, refl)
none_left m (some b) h = cc

module _ (debug : Text → Text) where
  yield_error_inner :
      (e : OpcError) (g : GuardedBrowseIterator)
      → ((yield_error debug e g).1.inner ≡ g.inner)
        × (is_value (yield_error debug e g).0 ≡ true → false ≡ true)
  unfolding yield_error
  yield_error_inner (browse_non_progress i p r c y) g = (refl, λ h. h)
  yield_error_inner e g = (refl, λ h. h)

  -- The guard passes on what was asked of the source, and invents no value.
  observe_inner :
      (r : Option (OpcResult Text)) (g : GuardedBrowseIterator)
      → ((observe debug r g).1.inner ≡ g.inner)
        × (is_value (observe debug r g).0 ≡ true → is_value r ≡ true)
  unfolding observe yield_value
  observe_inner none g = (refl, λ h. h)
  observe_inner (some (ok value)) g = (ground arith, λ _. refl)
  observe_inner (some (err e)) g = yield_error_inner e g

  next_string_left :
      (n : ℕ) (g : GuardedBrowseIterator)
      → EndsBy n g.inner
      → let r = next_string debug g in
        (r.1.inner.answers ≡ g.inner.answers)
        × (is_value r.0 ≡ true → suc (n - r.1.inner.calls) ≤ n - g.inner.calls)
  unfolding next_string
  next_string_left n g ends = elim (Bool-cases g.done) [
    | inl stopped ↦ rw stopped (refl, λ h. absurd (false≢true h))
    | inr going ↦
        let asked = record g {
          inner = record g.inner { calls = suc g.inner.calls };
          done = false;
        } in
        let (kept, value) = observe_inner (g.inner.answers g.inner.calls) asked in
        rw (going, ap (λ i. i.answers) kept, ap (λ i. i.calls) kept)
          (
            refl,
            λ h.
                let early = before_end n g.inner g.inner.calls ends (value h) in
                omega (arith, early),
          )
  ]

  pending_left :
      (p : Option (OpcResult Text)) (n : ℕ) (b : BufferedBrowseIterator)
      → b.pending ≡ p
      → EndsBy n b.inner.inner
      → let r = next_buffered debug b in
        (r.1.inner.inner.answers ≡ b.inner.inner.answers)
        × (is_value r.0 ≡ true → suc (left n r.1) ≤ left n b)
  unfolding next_buffered
  pending_left (some value) n b held ends = rw held (refl, λ h. omega arith)
  pending_left none n b held ends =
      let (kept, fewer) = next_string_left n b.inner ends in
      rw held (kept, λ h. omega (arith, fewer h))

  -- What an item leaves: the branches as they are, and fewer items than of `o`.
  abbrev FewerItems :
      ℕ → Option BufferedBrowseIterator → Option BufferedBrowseIterator → NextName debug → Type 0
  FewerItems n below o r =
      (x : BrowseNodeKind × Text)
      → r.0 ≡ ok (some x)
      → (r.1.branches ≡ below) × EndsByOpt n r.1.items × (left_opt n r.1.items < left_opt n o)

  item_answer-left :
      (n : ℕ) (s : Da2PageState) (b : BufferedBrowseIterator)
      (r : Option (OpcResult Text) × BufferedBrowseIterator)
      → r.1.inner.inner.answers ≡ b.inner.inner.answers
      → (is_value r.0 ≡ true → suc (left n r.1) ≤ left n b)
      → EndsBy n b.inner.inner
      → FewerItems n s.branches (some b) (item_answer debug s r)
  item_answer-left n s b (some (ok name), b') kept fewer ends x h =
      (refl, λ k le. ap (λ f. f k) kept ∙ ends k le, fewer refl)
  item_answer-left n s b (some (err e), b') kept fewer ends x h = cc
  item_answer-left n s b (none, b') kept fewer ends x h = cc

  next_item_left :
      (o : Option BufferedBrowseIterator) (n : ℕ) (s : Da2PageState)
      → s.items ≡ o
      → EndsByOpt n o
      → FewerItems n s.branches o (next_item debug s)
  unfolding next_item
  next_item_left none n s held ends = rw (held, next_item) λ x h. cc
  next_item_left (some b) n s held ends =
      let (kept, fewer) = pending_left b.pending n b refl ends in
      rw (held, next_item) (item_answer-left n s b (next_buffered debug b) kept fewer ends)

  -- A name that the state gives is one less to come.
  abbrev FewerNames : ℕ → ℕ → ℕ → NextName debug → Type 0
  FewerNames m n total r =
      (x : BrowseNodeKind × Text)
      → r.0 ≡ ok (some x)
      → IsFinite m n r.1 × (names_left m n r.1 < total)

  -- The branches are dropped, and the name is one of an item.
  items_only :
      (m n total : ℕ) (s : Da2PageState)
      → EndsByOpt n s.items
      → left_opt n s.items ≤ total
      → FewerNames m n total (next_item debug (record s { branches = none }))
  items_only m n total s ends le x h =
      let s' = record s { branches = none } in
      let (same, ends', fewer) = next_item_left s.items n s' refl ends x h in
      rw same ((tt, ends'), omega (arith, fewer, le))

  branch_answer-left :
      (m n : ℕ) (s : Da2PageState) (b : BufferedBrowseIterator)
      (r : Option (OpcResult Text) × BufferedBrowseIterator)
      → r.1.inner.inner.answers ≡ b.inner.inner.answers
      → (is_value r.0 ≡ true → suc (left m r.1) ≤ left m b)
      → EndsBy m b.inner.inner
      → EndsByOpt n s.items
      → FewerNames m n (left m b + left_opt n s.items) (branch_answer debug s r)
  branch_answer-left m n s b (some (ok name), b') kept fewer ends ends' =
      λ x h. ((λ k le. ap (λ f. f k) kept ∙ ends k le, ends'), omega (arith, fewer refl))
  branch_answer-left m n s b (some (err e), b') kept fewer ends ends' =
      elim (Bool-cases (is_non_progress_browse_error e)) [
        | inl stuck ↦ rw stuck (items_only m n _ s ends' (omega arith))
        | inr other ↦ rw other λ x h. cc
      ]
  branch_answer-left m n s b (none, b') kept fewer ends ends' =
      items_only m n _ s ends' (omega arith)

  next_left :
      (o : Option BufferedBrowseIterator) (m n : ℕ) (s : Da2PageState)
      → s.branches ≡ o
      → EndsByOpt m o
      → EndsByOpt n s.items
      → FewerNames m n (left_opt m o + left_opt n s.items) (next debug s)
  unfolding next
  next_left none m n s held below ends =
      rw (held, next)
        λ x h.
          let (same, ends', fewer) = next_item_left s.items n s refl ends x h in
          let (below', nothing) = none_left m (next_item debug s).1.branches (same ∙ held) in
          ((below', ends'), omega (arith, fewer, nothing))
  next_left (some b) m n s held below ends =
      let (kept, fewer) = pending_left b.pending m b refl below in
      rw (held, next) (branch_answer-left m n s b (next_buffered debug b) kept fewer below ends)

  -- A name that a finite state gives leaves a finite state with fewer names.
  pub next-names_left :
      (m n : ℕ) (s : Da2PageState) (x : BrowseNodeKind × Text)
      → IsFinite m n s
      → (next debug s).0 ≡ ok (some x)
      → IsFinite m n (next debug s).1 × (names_left m n (next debug s).1 < names_left m n s)
  next-names_left m n s x (below, ends) h = next_left s.branches m n s refl below ends x h
