-- ===== src/Iterator/Tests.antt =====
-- The theorems about the iterators at concrete inputs.
use opc_cli.Prelude.{◌<◌, refl, true, false, Option, none, some, Text, [], ◌∷◌, codes, arith}
use opc_cli.Errors.{OpcResult, ok}
use opc_cli.Iterator.Strings.{
  NextReply, step, refill_and_take, refill, count_empty_batch, take_entry, filled, Enumerator,
  StringIterator, null, wide, new, next_with_gate,
}
use opc_cli.Iterator.Progress.{Returns, new-IsValid, next_with_gate-Returns}
use opc_cli.Iterator.Repeats.{YieldsSame, start, once_more, YieldsSame-lt}

-- A batch of a null and a string, again and again.
abbrev reply : NextReply
reply = record {
  is_ok = true;
  error = record { code = 0; display = [] };
  count = 2;
  slots = null ∷ wide (ok (codes "a")) ∷ [];
}

abbrev repeating : Enumerator
repeating = record {
  next = λ k. reply;
  before_refill = λ k. true;
  should_cancel = λ k. false;
  debug = λ t. t;
}

next_with_gate-Returns_example : Returns (next_with_gate repeating 16705 new)
next_with_gate-Returns_example =
    next_with_gate-Returns repeating 16705 new new-IsValid (omega arith)

-- The state after the first call.
abbrev state_of : Option (Option (OpcResult Text) × StringIterator) → StringIterator
state_of none = new
state_of (some (result, s)) = s

after_one : StringIterator
unfolding next_with_gate new
after_one = state_of (next_with_gate repeating 5 new)

one_call : YieldsSame repeating (codes "a") 1 new after_one
unfolding after_one next_with_gate new step refill_and_take refill count_empty_batch take_entry
    filled
one_call = once_more 5 (start new) refl

YieldsSame-lt_example : 1 < 64
YieldsSame-lt_example = YieldsSame-lt repeating (codes "a") 1 new after_one one_call

-- Two strings and a null, of which the first string has been taken.
abbrev half_read : StringIterator
half_read = record {
  cache = null ∷ wide (ok (codes "b")) ∷ null ∷ [];
  index = 1;
  count = 3;
  populated = 3;
  done = false;
  last_value = some (codes "a");
  consecutive = 1;
  yielded = 1;
  empty_batches = 0;
  calls = 1;
  refills_asked = 1;
  polls = 1;
}
