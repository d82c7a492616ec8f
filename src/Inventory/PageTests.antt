-- ===== src/Inventory/PageTests.antt =====
-- Runs of the boundary and of OPC DA 2.x pages of a traversal, and the theorems applied to them.
use opc_cli.Prelude.{
  text_eq, ℕ, ◌≡◌, refl, Bool, true, false, none, some, List, [], ◌∷◌, ◌++◌, Text, codes, drop_last,
  arith, ◌==◌, if◌then◌else◌,
}
use opc_cli.Errors.{OpcResult, ok, err, connection}
use opc_cli.Provider.{hierarchical}
use opc_cli.Act.{Failable, done, return, get, update, or_else, map_err, catch, ◌>>=◌}
use opc_cli.Act.Total.{IsTotal}
use opc_cli.Browse.PageReturns.{HasFiniteNames}
use opc_cli.Inventory.PageReturns.{next_da2_page-IsTotal}
use opc_cli.Server.{
  change_browse_position_to, Server, NameSource, opc_browse_up, opc_browse_down, opc_branch,
}
use opc_cli.Inventory.State.{
  InventoryError, InventoryNode, InventoryPage, Da2Path, BranchWork, da2_branch, unvisited,
}
use opc_cli.Inventory.Run.{none_skipped}
use opc_cli.Inventory.Boundary.{InventoryBoundary, new_boundary, Reading}
use opc_cli.Inventory.Pacing.{Operation, AreSpaced, starts, starts-AreSpaced}
use opc_cli.Inventory.Da2.{next_da2_page, branch_node, item_node}
use opc_cli.Inventory.Context.{PageContext}
use opc_cli.Inventory.Moved.{BrowsesTo}
use opc_cli.Inventory.SyncedPages.{Goes, next_da2_page-IsSynced}

abbrev item_interval : ℕ → ℕ → ℕ
item_interval cost rate = 0

-- At a time, with an interval of five.
abbrev reading : ℕ → Reading
reading t = record {
  is_cancelled = false;
  is_paused = false;
  pause = 0;
  pacing = record { min_interval = 5; item_rate_per_second = none };
  now = t;
  interrupted = false;
  started = t;
}

abbrev operations : List Operation
operations =
    (1, reading 10 ∷ [])
    ∷ (1, reading 12 ∷ record (reading 20) { is_paused = true } ∷ reading 15 ∷ reading 16 ∷ [])
    ∷ (1, record (reading 40) { is_cancelled = true } ∷ [])
    ∷ []

started_at : starts item_interval operations new_boundary ≡ 10 ∷ 16 ∷ []
unfolding opc_cli.Inventory.Boundary.before_operation new_boundary
started_at = refl

starts-AreSpaced_example :
    AreSpaced 5 new_boundary.last_started (starts item_interval operations new_boundary)
starts-AreSpaced_example = starts-AreSpaced item_interval 5 operations new_boundary (
  (omega arith, omega arith, tt),
  (
    (
      omega arith,
      omega arith,
      (omega arith, omega arith, (omega arith, omega arith, (omega arith, omega arith, tt))),
    ),
    ((omega arith, omega arith, tt), tt),
  ),
)

-- A server that goes up, down and to an item, whose path is its id.
abbrev moved : ℕ → Text → List Text → OpcResult (Unit {0}) × List Text
moved kind name w =
    if kind == opc_browse_down
    then (ok tt, w ++ name ∷ [])
    else if kind == opc_browse_up
    then (ok tt, drop_last w)
    else (ok tt, name ∷ [])

abbrev names : Text → Text → NameSource
names a b = record {
  answers = λ k. if k == 0 then some (ok a) else if k == 1 then some (ok b) else none;
  calls = 0;
}

abbrev yard : Server (List Text)
yard = record {
  supports_da3_browse = λ w. false;
  supports_da2_browse = λ w. true;
  query_organization = λ w. (ok 1, w);
  change_browse_position = moved;
  get_item_id = λ name w. (ok name, w);
  da2_name_has_children = λ name w. (ok false, w);
  begin_da2_browse = λ kind filter data_type rights w. (
    ok (
        if kind == opc_branch
        then names (codes "pump") (codes "tank")
        else names (codes "tank") (codes "level")),
    w,
  );
  browse_da3 = λ item continuation count filter w. (err (connection (codes "refused")), w);
}

abbrev debug : Text → Text
debug t = t

abbrev always : ℕ → Bool
always k = true

abbrev path_of : Text → List Text
path_of id = id ∷ []

yard-BrowsesTo : BrowsesTo yard (λ w. w) path_of
unfolding change_browse_position_to
yard-BrowsesTo = record {
  moves = record {
    down_ok = λ b w w' h. ground arith;
    down_err = λ b w w' e h. ground arith;
    up_ok = λ w w' h. ground arith;
    up_err = λ w w' e h. ground arith;
  };
  to_ok = λ id w w' h. ground arith;
  to_err = λ id w w' e h. ground arith;
  begun = λ kind w. refl;
  named = λ name w. refl;
}

abbrev area : Da2Path
area = record { components = path_of (codes "area"); item_id = some (codes "area") }

abbrev work : BranchWork
work = unvisited (da2_branch area) []

next_da2_page-IsSynced_example :
    Goes yard debug always
      (λ w. w)
      path_of
      yard-BrowsesTo
      (next_da2_page yard debug always hierarchical 6 10 area work)
next_da2_page-IsSynced_example =
    next_da2_page-IsSynced yard debug always (λ w. w) path_of yard-BrowsesTo hierarchical 6 10 area
      work refl tt

yard-HasFiniteNames : HasFiniteNames 2 yard
yard-HasFiniteNames kind filter data_type rights w k le = ground arith

next_da2_page-IsTotal_example :
    IsTotal (next_da2_page yard debug always hierarchical 6 10 area work)
next_da2_page-IsTotal_example =
    next_da2_page-IsTotal yard debug always 2 yard-HasFiniteNames hierarchical 6 10 area work tt
      (omega arith)

-- A branch that is an item too is listed once.
abbrev at_root : PageContext (List Text)
at_root = record {
  server = [];
  current_da2_path = [];
  skipped_invalid_branches = none_skipped;
  skipped_non_progressing_branches = none_skipped;
  boundaries = 0;
}

abbrev nodes_of : Failable InventoryError (InventoryPage × BranchWork) → List InventoryNode
nodes_of (done (page, w)) = page.nodes
nodes_of r = []

three_nodes :
    nodes_of (next_da2_page yard debug always hierarchical 6 10 area work at_root).0
    ≡ branch_node area.components (codes "pump") (some (codes "pump"))
      ∷ branch_node area.components (codes "tank") (some (codes "tank"))
      ∷ item_node (codes "level") (codes "level")
      ∷ []
unfolding next_da2_page ◌>>=◌ return get update or_else map_err catch text_eq
    opc_cli.Provider.is_flat opc_cli.Server.Guard.guard_browse_iterator
three_nodes = refl
