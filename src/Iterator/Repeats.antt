-- ===== src/Iterator/Repeats.antt =====
-- The string iterator never yields one value 64 times in a row.
use mathlib.Core.Path.{subst}
use opc_cli.Prelude.{
  ℕ, zero, suc, ◌+◌, ◌≤◌, ◌<◌, ◌≡◌, refl, ap, ◌∙◌, set, true, false, Option, none, some, Text,
  arith, text_eq_refl, eq_of_text_eq, if◌then◌else◌, text_eq,
}
use opc_cli.Errors.{OpcResult, ok, err}
use opc_cli.Iterator.Strings.{
  Enumerator, StringIterator, Step, return, again, Slot, null, wide, slot_at, count_empty_batch,
  refill, is_last, yield_value, take_entry, refill_and_take, step, next_with_gate,
}

same_last :
    (o : Option Text) (v : Text)
    → elim o [ none ↦ false | some last ↦ text_eq last v ] ≡ true
    → o ≡ some v
same_last none v h = cc
same_last (some last) v h = ap some (eq_of_text_eq last v h)

module _ (e : Enumerator) where
  -- After a value is yielded it is the last one, and its repetitions are counted.
  abbrev Yields : StringIterator → Text → StringIterator → Type 0
  Yields s v s' =
      (s'.consecutive < 64)
      × (s'.last_value ≡ some v)
      × (s'.consecutive ≡ (if is_last e s v then s.consecutive + 1 else 1))

  abbrev Tracks : StringIterator → Step → Type 0
  Tracks s (return (some (ok v)) s') = Yields s v s'
  Tracks s (return _ s') = Unit
  Tracks s (again s') = (s'.last_value ≡ s.last_value) × (s'.consecutive ≡ s.consecutive)

  last_eq : (s : StringIterator) (v : Text) → is_last e s v ≡ true → s.last_value ≡ some v
  last_eq s v h = same_last s.last_value v h

  yield_value-Tracks : (s : StringIterator) (v : Text) → Tracks s (yield_value e s v)
  unfolding yield_value
  yield_value-Tracks s v = ground (arith, last_eq s v)

  -- Only the last value and its count matter of the state before.
  Tracks-frame :
      (s s1 : StringIterator) (r : Step)
      → s1.last_value ≡ s.last_value
      → s1.consecutive ≡ s.consecutive
      → Tracks s1 r
      → Tracks s r
  Tracks-frame s s1 (return none s') p q t = tt
  Tracks-frame s s1 (return (some (err x)) s') p q t = tt
  Tracks-frame s s1 (return (some (ok v)) s') p q t = (t.0, t.1, rw (← p, ← q) t.2)
  Tracks-frame s s1 (again s') p q t = (t.0 ∙ p, t.1 ∙ q)

  take_slot-Tracks :
      (s : StringIterator) (slot : Slot)
      → Tracks s (elim slot [
        | null ↦ again s
        | wide (err error) ↦ return (some (err error)) s
        | wide (ok value) ↦ yield_value e s value
      ])
  take_slot-Tracks s null = (refl, refl)
  take_slot-Tracks s (wide (err error)) = tt
  take_slot-Tracks s (wide (ok value)) = yield_value-Tracks s value

  take_entry-Tracks : (s : StringIterator) → Tracks s (take_entry e s)
  unfolding take_entry
  take_entry-Tracks s =
      let s1 = record s { cache = set s.cache s.index null; index = s.index + 1 } in
      Tracks-frame s s1 (take_entry e s) refl refl (take_slot-Tracks s1 (slot_at s.cache s.index))

  refill-Tracks : (s : StringIterator) → Tracks s (refill e s)
  unfolding refill count_empty_batch
  refill-Tracks s = ground arith

  take_after-Tracks :
      (s : StringIterator) (r : Step)
      → Tracks s r
      → Tracks s (elim r [ return result s1 ↦ return result s1 | again s1 ↦ take_entry e s1 ])
  take_after-Tracks s (return result s1) t = t
  take_after-Tracks s (again s1) t =
      Tracks-frame s s1 (take_entry e s1) t.0 t.1 (take_entry-Tracks s1)

  refill_and_take-Tracks : (s : StringIterator) → Tracks s (refill_and_take e s)
  unfolding refill_and_take
  refill_and_take-Tracks s = take_after-Tracks s (refill e s) (refill-Tracks s)

  step-Tracks : (s : StringIterator) → Tracks s (step e s)
  unfolding step
  step-Tracks s =
      let s1 = record s { polls = s.polls + 1 } in
      let s2 = record s1 { refills_asked = s.refills_asked + 1 } in
      ground (
        arith,
        Tracks-frame s s1 (take_entry e s1) refl refl (take_entry-Tracks s1),
        Tracks-frame s s2 (refill_and_take e s2) refl refl (refill_and_take-Tracks s2),
      )

  -- What a call tells of its start and its end.
  abbrev TracksCall : StringIterator → Option (Option (OpcResult Text) × StringIterator) → Type 0
  TracksCall s (some (some (ok v), s')) = Yields s v s'
  TracksCall s _ = Unit

  TracksCall-frame :
      (s s1 : StringIterator) (o : Option (Option (OpcResult Text) × StringIterator))
      → s1.last_value ≡ s.last_value
      → s1.consecutive ≡ s.consecutive
      → TracksCall s1 o
      → TracksCall s o
  TracksCall-frame s s1 none p q t = tt
  TracksCall-frame s s1 (some (none, s')) p q t = tt
  TracksCall-frame s s1 (some (some (err x), s')) p q t = tt
  TracksCall-frame s s1 (some (some (ok v), s')) p q t = (t.0, t.1, rw (← p, ← q) t.2)

  loop_after :
      (fuel : ℕ) (s : StringIterator) (r : Step)
      → Tracks s r
      → ((s1 : StringIterator) → TracksCall s1 (next_with_gate e fuel s1))
      → TracksCall s
          (elim r [ return result s1 ↦ some (result, s1) | again s1 ↦ next_with_gate e fuel s1 ])
  loop_after fuel s (return none s') t ih = tt
  loop_after fuel s (return (some (err x)) s') t ih = tt
  loop_after fuel s (return (some (ok v)) s') t ih = t
  loop_after fuel s (again s1) t ih =
      TracksCall-frame s s1 (next_with_gate e fuel s1) t.0 t.1 (ih s1)

  call_tracks : (fuel : ℕ) (s : StringIterator) → TracksCall s (next_with_gate e fuel s)
  unfolding next_with_gate
  call_tracks zero s = tt
  call_tracks (suc fuel) s = loop_after fuel s (step e s) (step-Tracks s) (call_tracks fuel)

  last_again : (s : StringIterator) (v : Text) → s.last_value ≡ some v → is_last e s v ≡ true
  last_again s v h = rw h (text_eq_refl v)

  -- `k` calls in a row, each with some fuel, that all yield `v`.
  pub data YieldsSame (v : Text) : ℕ → StringIterator → StringIterator → Type 0 where
    start : (s : StringIterator) → YieldsSame v zero s s
    once_more :
        {k : ℕ} {s s1 s2 : StringIterator} (fuel : ℕ)
        → YieldsSame v k s s1
        → next_with_gate e fuel s1 ≡ some (some (ok v), s2)
        → YieldsSame v (suc k) s s2

  call-Yields :
      (fuel : ℕ) (s s' : StringIterator) (v : Text)
      → next_with_gate e fuel s ≡ some (some (ok v), s')
      → Yields s v s'
  call-Yields fuel s s' v h = subst (TracksCall s) h (call_tracks fuel s)

  -- After a run the value is the last one, and its count is at least the length of the run.
  AfterRun : Text → ℕ → StringIterator → Type 0
  AfterRun v zero s = Unit
  AfterRun v (suc k) s = (s.last_value ≡ some v) × (suc k ≤ s.consecutive) × (s.consecutive < 64)

  run_counts : {v : Text} {k : ℕ} {s s' : StringIterator} → YieldsSame v k s s' → AfterRun v k s'
  unfolding AfterRun
  run_counts (start s) = tt
  run_counts {v} (once_more {k = zero} {s1 = s1} {s2 = s2} fuel run call) =
      let y = call-Yields fuel s1 s2 v call in (y.1, ground arith, y.0)
  run_counts {v} (once_more {k = suc k} {s1 = s1} {s2 = s2} fuel run call) =
      let y = call-Yields fuel s1 s2 v call in
      let before = run_counts run in
      let again_last : is_last e s1 v ≡ true = last_again s1 v before.0 in (y.1, ground arith, y.0)

  -- From any state, at most 63 calls in a row yield the same value.
  pub YieldsSame-lt : (v : Text) (k : ℕ) (s s' : StringIterator) → YieldsSame v k s s' → k < 64
  unfolding AfterRun
  YieldsSame-lt v zero s s' run = omega arith
  YieldsSame-lt v (suc k) s s' run = omega (arith, run_counts run)
