-- ===== src/Inventory/Tests.antt =====
-- Runs of a traversal, and the theorems applied to them.
use opc_cli.Prelude.{
  ℕ, ◌≡◌, refl, Bool, true, false, Option, none, some, List, [], ◌∷◌, ◌++◌, Text, codes, text_eq,
  is_empty, if◌then◌else◌,
}
use opc_cli.Provider.{BrowseCapabilities, hierarchical}
use opc_cli.Server.{NativeBrowseElement, NativeBrowsePage}
use opc_cli.Control.{InventoryOptions}
use opc_cli.Inventory.State.{InventoryResult, ok, da3_branch, unvisited}
use opc_cli.Inventory.Nodes.{Walk, Turn}
use opc_cli.Inventory.Run.{run_inventory_at_root, none_skipped}
use opc_cli.Inventory.Entries.{item_ids, Distinct, IsEnded}
use opc_cli.Inventory.Items.{final_walk, run_inventory_at_root-IsEnded}
use opc_cli.Inventory.Progress.{InventoryCompleted}
use opc_cli.Inventory.Complete.{reports}
use opc_cli.Inventory.Reported.{Honest, run_inventory_at_root-Honest}
use opc_cli.Inventory.Continuations.{continuations, all_some, requests, tokens-Distinct}
use opc_cli.Inventory.Da3.{Da3Call, next_da3_page}
use opc_cli.Inventory.Walk.{push_back_work}
use opc_cli.Browse.Da2.{has_text}

abbrev debug : Text → Text
debug t = t

abbrev rate : ℕ → ℕ → ℕ
rate items time = 0

abbrev never : ℕ → Bool
never k = false

abbrev always : ℕ → Bool
always k = true

abbrev tag : Text → NativeBrowseElement
tag name = record { name = name; item_id = some name; has_children = false; is_item = true }

abbrev page_of : List NativeBrowseElement → Option Text → Bool → InventoryResult NativeBrowsePage
page_of elements continuation more =
    ok (record { elements = elements; more_elements = more; continuation = continuation })

abbrev turn : InventoryResult NativeBrowsePage → Turn
turn answer = record {
  batch_size = none;
  da3_call = λ request. answer;
  da2_answer = ok (record { nodes = []; continuation = none });
  da2_work = unvisited (da3_branch none) [];
  da2_path = [];
  skipped_invalid = none_skipped;
  skipped_non_progressing = none_skipped;
  elapsed = 0;
  paused_before = 0;
  paused_time = 0;
  native_operations = 1;
  observations = [];
}

abbrev options : InventoryOptions
options = record { batch_size = 10; max_entries = some 2 }

abbrev capabilities : BrowseCapabilities
capabilities = record {
  namespace = hierarchical;
  supports_da3 = true;
  supports_da2 = true;
  max_page_size = 1000;
}

-- Two pages, where the second one repeats an item.
abbrev turns : List Turn
turns =
    turn (page_of (tag (codes "a") ∷ tag (codes "a") ∷ []) (some (codes "p")) true)
    ∷ turn (page_of (tag (codes "a") ∷ tag (codes "b") ∷ tag (codes "c") ∷ []) none false)
    ∷ []

abbrev last_walk : Walk
last_walk =
    final_walk
      (run_inventory_at_root debug rate never always none options (ok capabilities) [] 0 turns)

run_inventory_at_root-IsEnded_example : IsEnded debug rate never always options last_walk
run_inventory_at_root-IsEnded_example =
    run_inventory_at_root-IsEnded debug rate never always options none (ok capabilities) [] 0 turns

two_items : item_ids last_walk.sent ≡ codes "b" ∷ codes "a" ∷ []
unfolding run_inventory_at_root opc_cli.Prelude.is_empty opc_cli.Prelude.text_eq
two_items = refl

-- A server with an empty page per token, which goes round in a circle.
abbrev circle : Da3Call
circle request = elim request.continuation [
  | none ↦ page_of [] (some (codes "p")) true
  | some token ↦ page_of [] (some (if text_eq token (codes "p") then codes "q" else codes "p")) true
]

abbrev three_turns : List (ℕ × Da3Call)
three_turns = (10, circle) ∷ (20, circle) ∷ (20, circle) ∷ []

tokens-Distinct_example :
    let asked =
      requests debug rate never always last_walk none
        ((10, circle) ∷ three_turns)
        (unvisited (da3_branch none) []) in
    (ts : List Text) × (continuations asked ≡ none ∷ all_some ts) × Distinct ts
tokens-Distinct_example =
    tokens-Distinct debug rate never always last_walk none 10 circle three_turns (da3_branch none)
      []

-- The token that comes back is not sent again.
circle_is_cut :
    continuations (
      requests debug rate never always last_walk none
        ((10, circle) ∷ three_turns)
        (unvisited (da3_branch none) []))
    ≡ none ∷ some (codes "p") ∷ some (codes "q") ∷ []
unfolding next_da3_page push_back_work text_eq is_empty has_text
circle_is_cut = refl

-- Without a limit, both pages are read and the traversal is complete.
abbrev whole_walk : Walk
whole_walk = final_walk (
    run_inventory_at_root debug rate never always none (record options { max_entries = none })
      (ok capabilities) [] 0 (turns ++ turns))

run_inventory_at_root-Honest_example : Honest whole_walk.queue (reports whole_walk.sent)
run_inventory_at_root-Honest_example =
    run_inventory_at_root-Honest debug rate never always (record options { max_entries = none })
      none (ok capabilities) [] 0 (turns ++ turns)

abbrev are_complete : List InventoryCompleted → List Bool
are_complete [] = []
are_complete (c ∷ cs) = c.complete ∷ are_complete cs

reported_complete : are_complete (reports whole_walk.sent) ≡ true ∷ []
unfolding run_inventory_at_root opc_cli.Prelude.is_empty opc_cli.Prelude.text_eq
reported_complete = refl
