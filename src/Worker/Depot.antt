-- ===== src/Worker/Depot.antt =====
-- A small server with a browse position and groups, on which the tests of the worker run.
use opc_cli.Prelude.{
  ℕ, ◌≡◌, refl, sym, ap, ◌∙◌, Bool, true, false, none, some, List, [], ◌∷◌, ◌++◌, Text, codes,
  length, drop, drop_last, replicate, arith, ◌==◌, if◌then◌else◌,
}
use opc_cli.Errors.{OpcError, com_error, connection, OpcResult, ok, err}
use opc_cli.Provider.{ℤ}
use opc_cli.Server.{Server, NameSource, opc_browse_down}
use opc_cli.Browse.Cursor.{Moves}
use opc_cli.Values.{Formats, payload, null_array}
use opc_cli.Worker.Groups.{GroupServer, AddedGroup, ItemState, HoldsGroups}
use opc_cli.Worker.Browse.{TagSink}
use opc_cli.Worker.Position.{GoesUp}

abbrev pub refused : OpcError
refused = connection (codes "refused")

abbrev pub lost : OpcError
lost = com_error (record { code = 0x800706BA; display = codes "RPC" })

-- A server with a browse position and groups; on a line that breaks, a listing fails at its second name.
pub record Depot : Type 0 where
  pub path : List Text
  pub groups : List ℕ
  pub breaks : Bool

abbrev pub gone_up : List Text → Depot → OpcResult (Unit {0}) × Depot
gone_up [] w = (err refused, w)
gone_up (p ∷ ps) w = (ok tt, record w { path = drop_last w.path })

abbrev pub moved : ℕ → Text → Depot → OpcResult (Unit {0}) × Depot
moved kind name w =
    if kind == opc_browse_down
    then (ok tt, record w { path = w.path ++ name ∷ [] })
    else gone_up w.path w

abbrev pub names : Bool → NameSource
names breaks = record {
  answers = λ k.
      if k == 0
      then some (ok (codes "north"))
      else if k == 1
      then some (if breaks then err lost else ok (codes "south"))
      else none;
  calls = 0;
}

abbrev pub depot : Server Depot
depot = record {
  supports_da3_browse = λ w. false;
  supports_da2_browse = λ w. true;
  query_organization = λ w. (ok 2, w);
  change_browse_position = moved;
  get_item_id = λ name w. (ok name, w);
  da2_name_has_children = λ name w. (ok false, w);
  begin_da2_browse = λ kind filter data_type rights w. (ok (names w.breaks), w);
  browse_da3 = λ item continuation count filter w. (err refused, w);
}

abbrev pub seven : ItemState
seven = record {
  value = record { vt = 3; contents = payload 7 [] null_array };
  quality = 0xC0;
  time_high = 0;
  time_low = 0;
}

-- Every item is added, under the handle 5; a read answers with `states` states.
abbrev pub stock : ℕ → GroupServer Depot
stock states = record {
  add_group = λ name active rate w.
      (ok (record { group = 1; server_handle = 9 }), record w { groups = 9 ∷ w.groups });
  add_items = λ group items w. (ok (replicate (length items) 5, replicate (length items) 0), w);
  read = λ group source handles w. (ok (replicate states seven, replicate states 0), w);
  write = λ group handles values w. (ok (0 ∷ []), w);
  remove_group = λ handle forced w. (ok tt, record w { groups = drop 1 w.groups });
}

pub stock-HoldsGroups : (states : ℕ) → HoldsGroups (stock states) (λ w. w.groups)
stock-HoldsGroups states = record {
  added = λ name a w w' e. ground arith;
  not_added = λ name e w w' h. cc;
  items_kept = λ group items w. refl;
  read_kept = λ group handles w. refl;
  write_kept = λ group handles values w. refl;
  removed = λ handle others w e. ap (drop 1) e;
}

gone_up-below :
    (path above : List Text) (branch : Text) (w : Depot)
    → path ≡ above ++ branch ∷ []
    → (gone_up path w).0 ≡ ok tt
gone_up-below [] [] branch w e = cc
gone_up-below [] (a ∷ above) branch w e = cc
gone_up-below (p ∷ path) above branch w e = refl

gone_up-path :
    (path : List Text) (w w' : Depot) (r : OpcResult (Unit {0}))
    → w.path ≡ path
    → gone_up path w ≡ (r, w')
    → w'.path ≡ drop_last w.path
gone_up-path [] w w' r is e = rw is (sym (ap (λ p. p.1.path) e) ∙ is)
gone_up-path (p ∷ path) w w' r is e = sym (ap (λ q. q.1.path) e)

gone_up-failed :
    (path : List Text) (w w' : Depot) (e : OpcError)
    → gone_up path w ≡ (err e, w')
    → w'.path ≡ w.path
gone_up-failed [] w w' e h = sym (ap (λ p. p.1.path) h)
gone_up-failed (p ∷ path) w w' e h = cc

pub depot-Moves : Moves depot (λ w. w.path)
depot-Moves = record {
  down_ok = λ b w w' h. sym (ap (λ p. p.1.path) h);
  down_err = λ b w w' e h. cc;
  up_ok = λ w w' h. gone_up-path w.path w w' (ok tt) refl h;
  up_err = λ w w' e h. gone_up-failed w.path w w' e h;
}

pub depot-GoesUp : GoesUp depot (λ w. w.path)
depot-GoesUp = record {
  moves = depot-Moves;
  asked = λ w. refl;
  begun = λ kind w. refl;
  named = λ name w. refl;
  up_works = λ above branch w e. gone_up-below w.path above branch w e;
}

abbrev pub formats : Formats
formats = record {
  fixed2_f32 = λ b. [];
  fixed2_f64 = λ b. [];
  fixed6_f64 = λ b. [];
  ole_seconds = λ b. ℤ.pos 0;
  local_time = λ s n. some (codes "time");
  debug_varenum = λ vt. [];
}

abbrev pub debug : Text → Text
debug t = t

abbrev pub empty_depot : Depot
empty_depot = record { path = []; groups = []; breaks = false }

abbrev pub broken_depot : Depot
broken_depot = record { path = []; groups = []; breaks = true }

abbrev pub no_tags : TagSink
no_tags = record { progress = 0; tags = [] }

abbrev pub two_tags : List Text
two_tags = codes "a" ∷ codes "b" ∷ []

abbrev pub nine : AddedGroup
nine = record { group = 1; server_handle = 9 }

abbrev pub with_group : Depot
with_group = record empty_depot { groups = 9 ∷ [] }
