-- ===== src/Iterator/Strings.antt =====
-- opc-da-client/src/opc_da/client/iterator.rs: `StringIterator`. The enumerator is the server's: it is
-- given by its reply to each call of `IEnumString::Next`, and the two closures of `next_with_gate`
-- by their answer to each call. The counters of those calls stand in the state.
use opc_cli.Prelude.{
  ℕ, zero, suc, ◌+◌, min, Bool, true, false, Option, none, some, List, [], ◌∷◌, ◌++◌, Text, codes,
  decimal, text_eq, set, take, replicate, ltb, leb, ◌==◌, if◌then◌else◌,
}
use opc_cli.Errors.{
  ComError, OpcResult, ok, err, com_error, internal, browse_non_progress_error,
  max_consecutive_identical_browse_values,
}

abbrev pub string_cache_size : ℕ
string_cache_size = 256

unfoldable pub validate_fetched_count : ℕ → ℕ → Text → OpcResult (Unit {0})
validate_fetched_count count capacity iterator =
    if ltb capacity count
    then err (
        internal (
          iterator
          ++ (codes " returned "
              ++ (decimal count
                  ++ (codes " entries for a " ++ (decimal capacity ++ codes "-entry cache"))))))
    else ok tt

-- A PWSTR of the cache: null, or a string that converts to text or to an error.
pub data Slot : Type 0 where
  null : Slot
  wide : OpcResult Text → Slot

-- What `IEnumString::Next` does: its HRESULT, the count and the slots that it writes.
pub record NextReply : Type 0 where
  pub is_ok : Bool
  pub error : ComError
  pub count : ℕ
  pub slots : List Slot

pub record StringIterator : Type 0 where
  pub cache : List Slot
  pub index : ℕ
  pub count : ℕ
  pub done : Bool
  pub populated : ℕ
  pub last_value : Option Text
  pub consecutive : ℕ
  pub yielded : ℕ
  pub empty_batches : ℕ
  pub calls : ℕ
  pub refills_asked : ℕ
  pub polls : ℕ

unfoldable pub new : StringIterator
new = record {
  cache = replicate string_cache_size null;
  index = string_cache_size;
  count = 0;
  done = false;
  populated = 0;
  last_value = none;
  consecutive = 0;
  yielded = 0;
  empty_batches = 0;
  calls = 0;
  refills_asked = 0;
  polls = 0;
}

abbrev pub slot_at : List Slot → ℕ → Slot
slot_at [] i = null
slot_at (s ∷ ss) zero = s
slot_at (s ∷ ss) (suc i) = slot_at ss i

abbrev pub is_null : Slot → Bool
is_null null = true
is_null (wide r) = false

-- The slots of the fetched range that are null.
unfoldable pub count_null : List Slot → ℕ
count_null [] = 0
count_null (s ∷ ss) = let rest = count_null ss in if is_null s then rest + 1 else rest

-- An iteration of the loop returns, or goes round again.
pub data Step : Type 0 where
  return : Option (OpcResult Text) → StringIterator → Step
  again : StringIterator → Step

-- The parameters of the iterator that are not its state.
pub record Enumerator : Type 0 where
  pub next : ℕ → NextReply
  pub before_refill : ℕ → Bool
  pub should_cancel : ℕ → Bool
  pub debug : Text → Text

-- The cache that was filled with nulls, and then written by the server.
unfoldable pub filled : List Slot → List Slot
filled slots = take string_cache_size (slots ++ replicate string_cache_size null)

module _ (e : Enumerator) where
  abbrev pub fetched : StringIterator → StringIterator
  fetched s =
      let r = e.next s.calls in
      record s {
        cache = filled r.slots;
        index = 0;
        count = r.count;
        populated = min r.count string_cache_size;
        calls = s.calls + 1;
      }

  -- A batch of nulls only is counted; the 64th in a row ends the iteration.
  unfoldable pub count_empty_batch : StringIterator → Step
  unfolding count_null
  count_empty_batch s =
      let batches = s.empty_batches + 1 in
      let stuck =
        browse_non_progress_error e.debug (codes "IEnumString") [] (codes "<null PWSTR>") batches
          s.yielded in
      if count_null (take s.populated s.cache) == s.populated
      then if leb max_consecutive_identical_browse_values batches
        then return (some (err stuck)) (record s { done = true; empty_batches = batches })
        else again (record s { empty_batches = batches })
      else again (record s { empty_batches = 0 })

  -- `again` hands on the state with a batch to read.
  unfoldable pub refill : StringIterator → Step
  unfolding validate_fetched_count
  refill s =
      let s1 = fetched s in
      let r = e.next s.calls in
      if r.is_ok
      then elim (validate_fetched_count r.count string_cache_size (codes "IEnumString")) [
        | err error ↦ return (some (err error)) (record s1 { done = true })
        | ok _ ↦
            if r.count == 0 then return none (record s1 { done = true }) else count_empty_batch s1
      ]
      else return (some (err (com_error r.error))) (record s1 { done = true })

  abbrev pub is_last : StringIterator → Text → Bool
  is_last s value = elim s.last_value [ none ↦ false | some last ↦ text_eq last value ]

  abbrev pub counted : StringIterator → Text → StringIterator
  counted s value =
      if is_last s value
      then record s { yielded = s.yielded + 1; consecutive = s.consecutive + 1 }
      else record s { yielded = s.yielded + 1; last_value = some value; consecutive = 1 }

  unfoldable pub yield_value : StringIterator → Text → Step
  yield_value s value =
      let s1 = counted s value in
      if leb max_consecutive_identical_browse_values s1.consecutive
      then return
          (some (
            err (
              browse_non_progress_error e.debug (codes "IEnumString") [] value s1.consecutive
                s1.yielded)))
          (record s1 { done = true })
      else return (some (ok value)) s1

  -- The slot is taken out of the cache; a null is skipped.
  unfoldable pub take_entry : StringIterator → Step
  unfolding yield_value
  take_entry s =
      let s1 = record s { cache = set s.cache s.index null; index = s.index + 1 } in
      elim (slot_at s.cache s.index) [
        | null ↦ again s1
        | wide (err error) ↦ return (some (err error)) s1
        | wide (ok value) ↦ yield_value s1 value
      ]

  -- The refill, and then the first entry of the batch.
  unfoldable pub refill_and_take : StringIterator → Step
  refill_and_take s = elim (refill s) [
    | return result s1 ↦ return result s1
    | again s1 ↦ take_entry s1
  ]

  unfoldable pub step : StringIterator → Step
  step s =
      let s1 = record s { polls = s.polls + 1 } in
      let s2 = record s1 { refills_asked = s.refills_asked + 1 } in
      if s.done
      then return none s
      else if e.should_cancel s.polls
      then return none s1
      else if leb s.count s.index
      then if e.before_refill s.refills_asked then refill_and_take s2 else return none s2
      else take_entry s1

  -- The loop on fuel; `none` means that the fuel ran out.
  unfoldable pub next_with_gate :
      ℕ → StringIterator → Option (Option (OpcResult Text) × StringIterator)
  next_with_gate zero s = none
  next_with_gate (suc fuel) s = elim (step s) [
    | return result s1 ↦ some (result, s1)
    | again s1 ↦ next_with_gate fuel s1
  ]

-- The slots of a range that hold a string.
unfoldable pub pending : ℕ → ℕ → List Slot → List Slot
pending zero zero ss = []
pending zero (suc n) [] = []
pending zero (suc n) (null ∷ ss) = pending zero n ss
pending zero (suc n) (wide r ∷ ss) = wide r ∷ pending zero n ss
pending (suc k) n [] = []
pending (suc k) zero (s ∷ ss) = []
pending (suc k) (suc n) (s ∷ ss) = pending k n ss

-- The cache with nulls in a range.
unfoldable pub cleared : ℕ → ℕ → List Slot → List Slot
cleared k n [] = []
cleared zero zero (s ∷ ss) = s ∷ ss
cleared zero (suc n) (s ∷ ss) = null ∷ cleared zero n ss
cleared (suc k) zero (s ∷ ss) = s ∷ ss
cleared (suc k) (suc n) (s ∷ ss) = s ∷ cleared k n ss

-- `release_pending`: the strings that are released, those from the index to the populated end, and the state.
unfoldable pub release_pending : StringIterator → List Slot × StringIterator
release_pending s =
    let start = min s.index s.populated in
    (
      pending start s.populated s.cache,
      record s { cache = cleared start s.populated s.cache; populated = 0 },
    )
