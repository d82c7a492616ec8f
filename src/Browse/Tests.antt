-- ===== src/Browse/Tests.antt =====
-- Runs of browse sessions on a small server, and the theorems applied to them.
use mathlib.Core.Bool.{false≢true}
use opc_cli.Prelude.{
  ℕ, zero, suc, ◌-◌, ◌≤◌, ◌<◌, ◌≡◌, ◌≢◌, refl, Bool, true, false, Option, none, some, List, [], ◌∷◌,
  ◌++◌, Text, codes, length, drop_last, leb, arith, ◌==◌, if◌then◌else◌, inl, inr, ◌⊎◌,
}
use opc_cli.Errors.{OpcError, OpcResult, ok, err, connection}
use opc_cli.Provider.{is_flat, BrowseNode, hierarchical, all, BrowsePageRequest, BrowsePage}
use opc_cli.Act.{Outcome, done, failed, exhausted}
use opc_cli.Act.Rules.{OnDone}
use opc_cli.Server.{Server, NameSource, opc_browse_up, opc_browse_down, opc_branch}
use opc_cli.Browse.Buffer.{Da2PageState, new_buffered}
use opc_cli.Browse.State.{
  BrowseSessionState, BrowseBackend, da2, da3, BrowseContinuation, da2_continuation, lookup,
}
use opc_cli.Browse.Path.{move_to_da2_path, shared_length}
use opc_cli.Browse.Da2.{browse_da2}
use opc_cli.Browse.Sessions.{
  BrowseSessions, page, close, da2_page, open_session, closed_session, consumed_continuation,
  flat_children, bad_page_size, cleanup_expired,
}
use opc_cli.Browse.Cursor.{Moves, Ends, IsSynced, move_to_da2_path-IsSynced, move_to_da2_path_stale}
use opc_cli.Browse.Tokens.{Injective}
use opc_cli.Browse.Sound.{no_past, IsSound}
use opc_cli.Browse.Serve.{Request, opening, closing, paging, no_sessions}
use opc_cli.Browse.Consumed.{PageCall, ask, ask_all, ask_consumed, is_below_flat}
use opc_cli.Browse.Closed.{close-page, has_bad_size}
use opc_cli.Browse.PageSize.{browse_da2-length}
use opc_cli.Browse.PageReturns.{HasFiniteNames, da2_page-Returns}

abbrev refused : OpcError
refused = connection (codes "refused")

-- A server below its root: it does not go up from the first level.
abbrev moved : ℕ → Text → List Text → OpcResult (Unit {0}) × List Text
moved kind name w =
    if kind == opc_browse_down
    then (ok tt, w ++ name ∷ [])
    else if leb (length w) 1
    then (err refused, w)
    else (ok tt, drop_last w)

-- Two names in each branch.
abbrev two_names : NameSource
two_names = record {
  answers = λ k.
      if k == 0
      then some (ok (codes "north"))
      else if k == 1
      then some (ok (codes "south"))
      else none;
  calls = 0;
}

abbrev plant : Server (List Text)
plant = record {
  supports_da3_browse = λ w. false;
  supports_da2_browse = λ w. true;
  query_organization = λ w. (ok 1, w);
  change_browse_position = moved;
  get_item_id = λ name w. (ok name, w);
  da2_name_has_children = λ name w. (ok false, w);
  begin_da2_browse = λ kind filter data_type rights w. (ok two_names, w);
  browse_da3 = λ item continuation count filter w. (err refused, w);
}

abbrev uuid : ℕ → ℕ
uuid k = k

abbrev debug : Text → Text
debug t = t

uuid-Injective : Injective uuid
uuid-Injective a b h = h

abbrev at_path : List Text → BrowseSessionState (List Text)
at_path path = record {
  server = path;
  capabilities = record {
    namespace = hierarchical;
    supports_da3 = false;
    supports_da2 = true;
    max_page_size = 1000;
  };
  backend = da2 path;
  da3_root_succeeded = false;
  nodes = [];
  continuations = [];
  last_used = 0;
  draws = 0;
}

plant-Moves : Moves plant (λ w. w)
plant-Moves = record {
  down_ok = λ b w w' h. ground arith;
  down_err = λ b w w' e h. ground arith;
  up_ok = λ w w' h. ground arith;
  up_err = λ w w' e h. ground arith;
}

move_to_da2_path-IsSynced_example :
    Ends
      (λ s. IsSynced plant (λ w. w) plant-Moves s × (s.server ≡ codes "a" ∷ codes "c" ∷ []))
      (λ s. IsSynced plant (λ w. w) plant-Moves s ⊎ (s.backend ≡ da2 (codes "a" ∷ codes "b" ∷ [])))
      (move_to_da2_path plant (codes "a" ∷ codes "c" ∷ []) (at_path (codes "a" ∷ codes "b" ∷ [])))
move_to_da2_path-IsSynced_example =
    move_to_da2_path-IsSynced plant (λ w. w) plant-Moves (codes "a" ∷ codes "c" ∷ [])
      (at_path (codes "a" ∷ codes "b" ∷ [])) refl

move_to_da2_path_stale_example :
    (move_to_da2_path plant [] (at_path (codes "a" ∷ codes "b" ∷ []))
      ≡ (failed refused, record (at_path (codes "a" ∷ codes "b" ∷ [])) { server = codes "a" ∷ [] }))
    × (¬ IsSynced plant
        (λ w. w)
        plant-Moves
        (record (at_path (codes "a" ∷ codes "b" ∷ [])) { server = codes "a" ∷ [] }))
unfolding shared_length
move_to_da2_path_stale_example =
    move_to_da2_path_stale plant (λ w. w) plant-Moves [] (at_path (codes "a" ∷ codes "b" ∷ [])) 0
      refused (codes "a" ∷ []) (codes "a" ∷ []) refl refl refl refl

abbrev again : BrowsePageRequest
again = record { parent = none; filter = all; max_elements = 1; continuation = some 0 }

abbrev requests : List (Request (List Text))
requests =
    opening 0 0 []
    ∷ paging 9 1 1 0 (record again { continuation = none })
    ∷ opening 2 2 []
    ∷ closing 3 0
    ∷ []

abbrev two_items : Da2PageState
two_items = record {
  parent_path = [];
  branches = none;
  items = some (new_buffered two_names (codes "items") []);
  flat = false;
  merged_items = [];
}

-- A session with one page to come, under the token 0.
abbrev with_page : BrowseSessionState (List Text)
with_page = record (at_path []) {
  continuations = (0, da2_continuation none all two_items) ∷ [];
  draws = 1;
}

with_page-IsSound : IsSound uuid no_past with_page
with_page-IsSound = record {
  nodes_bounded = omega arith;
  pages_bounded = omega arith;
  nodes_drawn = tt;
  pages_drawn = ((0, omega arith, refl), tt);
  nodes_fit = tt;
  draws_grow = omega arith;
  consumed_stay = λ k is. absurd (false≢true is);
}

abbrev call_again : PageCall
call_again = record { fuel = 9; now = 5; request = again }

abbrev afterwards : BrowseSessionState (List Text)
afterwards = ask_all plant debug uuid (call_again ∷ call_again ∷ []) with_page

ask_consumed_example : ask plant debug uuid call_again afterwards ≡ (
  failed (if is_below_flat again afterwards then flat_children else consumed_continuation),
  record afterwards { last_used = 5 },
)
unfolding lookup is_flat
ask_consumed_example =
    ask_consumed plant debug uuid uuid-Injective no_past call_again call_again (call_again ∷ []) 0
      (da2_continuation none all two_items) with_page with_page-IsSound refl refl refl refl refl

abbrev opened : BrowseSessions (List Text)
opened = (open_session plant debug uuid 0 0 [] no_sessions).1

close-page_example :
    let b = (close 1 0 opened).1 in
    (page plant debug uuid 9 2 2 0 again b ≡ (
      failed (if has_bad_size again then bad_page_size else closed_session),
      cleanup_expired 2 b,
    ))
    × (close 2 0 b ≡ (failed closed_session, cleanup_expired 2 b))
close-page_example = close-page plant debug uuid 9 1 2 2 0 again opened

browse_da2-length_example :
    OnDone
      (λ page. length page.nodes ≤ 1)
      (browse_da2 plant debug uuid 9 none all 1 two_items (at_path [])).0
browse_da2-length_example = browse_da2-length plant debug uuid 9 none all 1 two_items (at_path [])

plant-HasFiniteNames : HasFiniteNames 2 plant
plant-HasFiniteNames kind filter data_type rights w k le = ground arith

da2_page-Returns_example : (da2_page plant debug uuid 5 none all 3 with_page).0 ≢ exhausted
da2_page-Returns_example =
    da2_page-Returns plant debug uuid uuid-Injective no_past 2 plant-HasFiniteNames 5 none all 3
      with_page with_page-IsSound (omega arith)

abbrev listed : List BrowseNode → List (ℕ × Text)
listed [] = []
listed (n ∷ ns) = (n.token, n.name) ∷ listed ns

abbrev names_of : Outcome BrowsePage → List (ℕ × Text) × Option ℕ
names_of (done page) = (listed page.nodes, page.continuation)
names_of _ = ([], none)

-- The first of two names is a node, and a token is stored for the second one.
one_of_two :
    names_of (browse_da2 plant debug uuid 9 none all 1 two_items (at_path [])).0
    ≡ ((0, codes "north") ∷ [], some 1)
unfolding browse_da2 opc_cli.Act.◌>>=◌ move_to_da2_path opc_cli.Act.get opc_cli.Act.try
    opc_cli.Act.return opc_cli.Act.update opc_cli.Browse.Buffer.next
    opc_cli.Browse.Buffer.next_buffered new_buffered opc_cli.Server.Guard.next_string
    opc_cli.Server.Guard.guard_browse_iterator opc_cli.Browse.State.call_map_err
    opc_cli.Browse.Buffer.has_more opc_cli.Prelude.text_eq opc_cli.Browse.Buffer.look_ahead
    opc_cli.Browse.State.store_continuation
one_of_two = refl

-- Both, with room for more.
two_of_two :
    names_of (browse_da2 plant debug uuid 9 none all 5 two_items (at_path [])).0
    ≡ ((0, codes "north") ∷ (1, codes "south") ∷ [], none)
unfolding browse_da2 opc_cli.Act.◌>>=◌ move_to_da2_path opc_cli.Act.get opc_cli.Act.try
    opc_cli.Act.return opc_cli.Act.update opc_cli.Browse.Buffer.next
    opc_cli.Browse.Buffer.next_buffered new_buffered opc_cli.Server.Guard.next_string
    opc_cli.Server.Guard.guard_browse_iterator opc_cli.Browse.State.call_map_err
    opc_cli.Browse.Buffer.has_more opc_cli.Prelude.text_eq
two_of_two = refl
