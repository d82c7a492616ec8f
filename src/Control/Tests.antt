-- ===== src/Control/Tests.antt =====
-- The control handle on concrete sequences of operations.
use opc_cli.Prelude.{◌≡◌, refl, List, [], ◌∷◌, some}
use opc_cli.Control.{
  InventoryPacing, new, new_with_batch_size, pacing, default_pacing, default_options,
  set_batch_size, read_batch_size, rate_option, is_paused, pause, resume,
}
use opc_cli.Control.Steps.{Operation, pausing, resuming, pacing_as, batching_by, operate_all}

abbrev slow : InventoryPacing
slow = record { min_interval = 20000000; item_rate_per_second = some 50 }

abbrev operations : List Operation
operations =
    batching_by 0 ∷ pausing ∷ pacing_as slow ∷ batching_by 256 ∷ resuming ∷ batching_by 1001 ∷ []

last_good_batch_size : read_batch_size (operate_all operations (new_with_batch_size 100)) ≡ some 256
unfolding read_batch_size set_batch_size resume
last_good_batch_size = refl

default_batch_size : read_batch_size (new_with_batch_size default_options.batch_size) ≡ some 100
unfolding read_batch_size new_with_batch_size default_options
default_batch_size = refl

new-unpaced : pacing new ≡ default_pacing
unfolding default_pacing pacing new rate_option
new-unpaced = refl

resume-pause : is_paused (resume (pause new)) ≡ is_paused new
unfolding resume pause is_paused new
resume-pause = refl
