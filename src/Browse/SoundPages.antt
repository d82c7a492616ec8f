-- ===== src/Browse/SoundPages.antt =====
-- Every method of a session keeps it sound.
use opc_cli.Prelude.{ℕ, zero, suc, ◌≡◌, refl, Bool, Option, none, some, List, [], ◌∷◌, Text, arith}
use opc_cli.Errors.{OpcError, ok}
use opc_cli.Provider.{BrowseNodeKind, branch, item, branch_and_item, BrowseNodeFilter}
use opc_cli.Act.{return}
use opc_cli.Act.Rules.{
  Gives, Gives-return, Gives-bind, Gives-if, Keeps-bind_given, Keeps, Keeps-bind_try, Keeps-bind,
  Keeps-try, Keeps-return, Keeps-fail, Keeps-if, Keeps-out_of_fuel, keeps_rules,
}
use opc_cli.Server.{Server, NativeBrowseElement, Da2BranchClassification}
use opc_cli.Browse.Buffer.{Da2PageState}
use opc_cli.Browse.State.{NodeLocation, BrowseContinuation, insert_node, store_continuation}
use opc_cli.Browse.Path.{go_up, go_down, move_to_da2_path}
use opc_cli.Browse.Da3.{map_da3_nodes, store_da3_continuation, browse_da3, da3_location_of}
use opc_cli.Browse.Da2.{
  begin_names, start_da2_page, Turn, ended, skipped, found, Mapped, map_browse_da2_branch,
  list_name, turn_branch, map_item, turn_item, turn_name, Collect, after_turn, collect, browse_da2,
}
use opc_cli.Browse.Tokens.{Injective}
use opc_cli.Browse.Sound.{
  Fits, Past, IsSound, call_map_err-IsSound, call-IsSound, with_backend-IsSound,
  insert_node-IsSound, store_continuation-IsSound,
}

da3_location_of-Fits :
    (kind : BrowseNodeKind) (e : NativeBrowseElement) {location : NodeLocation}
    → da3_location_of kind e ≡ ok location
    → Fits kind location
unfolding da3_location_of
da3_location_of-Fits kind e h = ground arith

abbrev MappedFits : Mapped → Type 0
MappedFits m = Fits m.kind m.location

map_browse_da2_branch-Fits :
    (filter : BrowseNodeFilter) (name : Text) (c : Da2BranchClassification) (state : Da2PageState)
    {m : Mapped}
    → (map_browse_da2_branch filter name c state).0 ≡ some m
    → MappedFits m
unfolding map_browse_da2_branch
map_browse_da2_branch-Fits filter name c state h = ground arith

module _ {W : Type 0} (server : Server W) (debug : Text → Text) (uuid : ℕ → ℕ) where
  map_item-Fits :
      (name : Text) (state : Da2PageState)
      → Gives MappedFits (map_item server debug uuid name state)
  unfolding map_item
  map_item-Fits name state =
      Gives-if _ _ _ (Gives-return _ refl)
        (Gives-bind _ _ λ item_id. Gives-bind _ _ λ below. Gives-return _ (ground arith))

module _ {W : Type 0} (server : Server W) (debug : Text → Text) (uuid : ℕ → ℕ)
    (inj : Injective uuid) (n : Past) where
  pub insert-IsSound :
      (kind : BrowseNodeKind) (location : NodeLocation)
      → Fits kind location
      → Keeps (IsSound {W = W} uuid n) (insert_node uuid kind location)
  insert-IsSound = insert_node-IsSound uuid n inj

  pub store-IsSound :
      (c : BrowseContinuation) → Keeps (IsSound {W = W} uuid n) (store_continuation uuid c)
  store-IsSound = store_continuation-IsSound uuid n inj

  pub go_up-IsSound : (k : ℕ) → Keeps (IsSound uuid n) (go_up server k)
  unfolding go_up
  go_up-IsSound zero = Keeps-return tt
  go_up-IsSound (suc k) = let ih = go_up-IsSound k in search (keeps_rules, call-IsSound)

  pub go_down-IsSound : (bs : List Text) → Keeps (IsSound uuid n) (go_down server bs)
  unfolding go_down
  go_down-IsSound [] = Keeps-return tt
  go_down-IsSound (b ∷ bs) =
      let ih = go_down-IsSound bs in search (keeps_rules, call-IsSound, with_backend-IsSound)

  pub move_to_da2_path-IsSound :
      (target : List Text) → Keeps (IsSound uuid n) (move_to_da2_path server target)
  unfolding move_to_da2_path
  move_to_da2_path-IsSound target =
      search (keeps_rules, with_backend-IsSound, go_up-IsSound, go_down-IsSound)

  map_da3_nodes-IsSound :
      (es : List NativeBrowseElement) → Keeps (IsSound uuid n) (map_da3_nodes server uuid es)
  unfolding map_da3_nodes
  map_da3_nodes-IsSound [] = Keeps-return []
  map_da3_nodes-IsSound (e ∷ es) =
      let ih = map_da3_nodes-IsSound es in
      Keeps-bind _ _ (Keeps-try _) λ kind. Keeps-bind_try _ _ λ location known.
        let fits = da3_location_of-Fits kind e known in search (keeps_rules, insert-IsSound)

  pub browse_da3-IsSound :
      (parent : Option ℕ) (filter : BrowseNodeFilter) (max_elements : ℕ)
      (continuation : Option Text)
      → Keeps (IsSound uuid n) (browse_da3 server uuid parent filter max_elements continuation)
  unfolding browse_da3 store_da3_continuation
  browse_da3-IsSound parent filter max_elements continuation =
      search (keeps_rules, call-IsSound, map_da3_nodes-IsSound, store-IsSound) depth 12

  pub begin_names-IsSound :
      (wanted : Bool) (browse_type : ℕ) (iterator_type : Text) (path : List Text)
      → Keeps (IsSound uuid n) (begin_names server debug uuid wanted browse_type iterator_type path)
  unfolding begin_names
  begin_names-IsSound wanted browse_type iterator_type path = search (keeps_rules, call-IsSound)

  pub start_da2_page-IsSound :
      (parent : Option ℕ) (filter : BrowseNodeFilter)
      → Keeps (IsSound uuid n) (start_da2_page server debug uuid parent filter)
  unfolding start_da2_page
  start_da2_page-IsSound parent filter =
      search (keeps_rules, move_to_da2_path-IsSound, begin_names-IsSound) depth 9

  list_name-IsSound :
      (name : Text) (m : Mapped) (state : Da2PageState)
      → MappedFits m
      → Keeps (IsSound uuid n) (list_name server debug uuid name m state)
  unfolding list_name
  list_name-IsSound name m state fits = search (keeps_rules, insert-IsSound)

  -- What a branch becomes is listed, if it is to be.
  turn_mapped-IsSound :
      (name : Text) (state : Da2PageState) (mapped : Option Mapped)
      → ((m : Mapped) → mapped ≡ some m → MappedFits m)
      → Keeps {X = OpcError} (IsSound {W = W} uuid n) (elim mapped [
        | none ↦ return (skipped state)
        | some m ↦ list_name server debug uuid name m state
      ])
  turn_mapped-IsSound name state none fits = Keeps-return _
  turn_mapped-IsSound name state (some m) fits = list_name-IsSound name m state (fits m refl)

  turn_branch-IsSound :
      (filter : BrowseNodeFilter) (name : Text) (state : Da2PageState)
      → Keeps (IsSound uuid n) (turn_branch server debug uuid filter name state)
  unfolding turn_branch
  turn_branch-IsSound filter name state =
      Keeps-bind _ _ (call_map_err-IsSound uuid n _ _)
        λ c. turn_mapped-IsSound name _ _ (λ m. map_browse_da2_branch-Fits filter name c state)

  pub map_item-IsSound :
      (name : Text) (state : Da2PageState)
      → Keeps (IsSound uuid n) (map_item server debug uuid name state)
  unfolding map_item
  map_item-IsSound name state = search (keeps_rules, call_map_err-IsSound)

  turn_item-IsSound :
      (name : Text) (state : Da2PageState)
      → Keeps (IsSound uuid n) (turn_item server debug uuid name state)
  unfolding turn_item
  turn_item-IsSound name state = Keeps-if _ _ _ (Keeps-return _) (
      Keeps-bind_given MappedFits _ _ (map_item-Fits server debug uuid name state)
        (map_item-IsSound name state) λ m fits. list_name-IsSound name m state fits)

  pub turn_name-IsSound :
      (filter : BrowseNodeFilter) (o : Option (BrowseNodeKind × Text)) (state : Da2PageState)
      → Keeps (IsSound uuid n) (turn_name server debug uuid filter o state)
  unfolding turn_name
  turn_name-IsSound filter none state = Keeps-return _
  turn_name-IsSound filter (some (branch, name)) state = turn_branch-IsSound filter name state
  turn_name-IsSound filter (some (item, name)) state = turn_item-IsSound name state
  turn_name-IsSound filter (some (branch_and_item, name)) state = Keeps-fail _

  after_turn-IsSound :
      (skip add : Collect server debug uuid)
      → ((state : Da2PageState) → Keeps (IsSound uuid n) (skip state))
      → ((state : Da2PageState) → Keeps (IsSound uuid n) (add state))
      → (turn : Turn) → Keeps (IsSound uuid n) (after_turn server debug uuid skip add turn)
  after_turn-IsSound skip add ks ka (ended state) = Keeps-return _
  after_turn-IsSound skip add ks ka (skipped state) = ks state
  after_turn-IsSound skip add ks ka (found node state) =
      Keeps-bind _ _ (ka state) (λ rest. Keeps-return _)

  pub collect-IsSound :
      (fuel room : ℕ) (filter : BrowseNodeFilter) (state : Da2PageState)
      → Keeps (IsSound uuid n) (collect server debug uuid fuel room filter state)
  unfolding collect
  collect-IsSound fuel zero filter state = Keeps-return _
  collect-IsSound zero (suc room) filter state = Keeps-out_of_fuel
  collect-IsSound (suc fuel) (suc room) filter state = Keeps-bind _ _ (Keeps-try _) λ o.
      Keeps-bind _ _ (turn_name-IsSound filter o _) (
        after_turn-IsSound _ _ (collect-IsSound fuel (suc room) filter)
          (collect-IsSound fuel room filter))

  pub browse_da2-IsSound :
      (fuel : ℕ) (parent : Option ℕ) (filter : BrowseNodeFilter) (max_elements : ℕ)
      (state : Da2PageState)
      → Keeps (IsSound uuid n) (browse_da2 server debug uuid fuel parent filter max_elements state)
  unfolding browse_da2
  browse_da2-IsSound fuel parent filter max_elements state =
      search (keeps_rules, move_to_da2_path-IsSound, collect-IsSound, store-IsSound) depth 9
