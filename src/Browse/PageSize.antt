-- ===== src/Browse/PageSize.antt =====
-- A page of an OPC DA 2.x server has no more nodes than were asked for.
use opc_cli.Prelude.{ℕ, zero, suc, ◌≤◌, Option, List, Text, length, arith}
use opc_cli.Provider.{BrowseNodeFilter, BrowseNode}
use opc_cli.Act.Rules.{
  Gives, OnDone, Gives-return, Gives-bind, Gives-bind_given, Gives-if, Gives-out_of_fuel,
}
use opc_cli.Server.{Server}
use opc_cli.Browse.Buffer.{Da2PageState}
use opc_cli.Browse.State.{BrowseSessionState}
use opc_cli.Browse.Da2.{Turn, ended, skipped, found, Collect, after_turn, collect, browse_da2}

abbrev AtMost : ℕ → List BrowseNode × Da2PageState → Type 0
AtMost room r = length r.0 ≤ room

module _ {W : Type 0} (server : Server W) (debug : Text → Text) (uuid : ℕ → ℕ) where
  after_turn-AtMost :
      (room : ℕ) (skip add : Collect server debug uuid)
      → ((state : Da2PageState) → Gives (AtMost (suc room)) (skip state))
      → ((state : Da2PageState) → Gives (AtMost room) (add state))
      → (turn : Turn) → Gives (AtMost (suc room)) (after_turn server debug uuid skip add turn)
  after_turn-AtMost room skip add gs ga (ended state) = Gives-return _ (omega arith)
  after_turn-AtMost room skip add gs ga (skipped state) = gs state
  after_turn-AtMost room skip add gs ga (found node state) =
      Gives-bind_given (AtMost room) _ _ (ga state) λ rest few. Gives-return _ (omega (arith, few))

  collect-AtMost :
      (fuel room : ℕ) (filter : BrowseNodeFilter) (state : Da2PageState)
      → Gives (AtMost room) (collect server debug uuid fuel room filter state)
  unfolding collect
  collect-AtMost fuel zero filter state = Gives-return _ (omega arith)
  collect-AtMost zero (suc room) filter state = Gives-out_of_fuel
  collect-AtMost (suc fuel) (suc room) filter state = Gives-bind _ _ λ o. Gives-bind _ _ (
      after_turn-AtMost room _ _ (collect-AtMost fuel (suc room) filter)
        (collect-AtMost fuel room filter))

  page_size :
      (fuel : ℕ) (parent : Option ℕ) (filter : BrowseNodeFilter) (max_elements : ℕ)
      (state : Da2PageState)
      → Gives
          (λ page. length page.nodes ≤ max_elements)
          (browse_da2 server debug uuid fuel parent filter max_elements state)
  unfolding browse_da2
  page_size fuel parent filter max_elements state = Gives-bind _ _ λ _.
      Gives-bind_given (AtMost max_elements) _ _ (collect-AtMost fuel max_elements filter state)
        λ page few. Gives-if _ _ _ (Gives-return _ few) (Gives-bind _ _ λ token. Gives-return _ few)

  -- A page that `browse_da2` gives has at most as many nodes as were asked for.
  pub browse_da2-length :
      (fuel : ℕ) (parent : Option ℕ) (filter : BrowseNodeFilter) (max_elements : ℕ)
      (state : Da2PageState) (s : BrowseSessionState W)
      → OnDone
          (λ page. length page.nodes ≤ max_elements)
          (browse_da2 server debug uuid fuel parent filter max_elements state s).0
  browse_da2-length fuel parent filter max_elements state s =
      (page_size fuel parent filter max_elements state).given s
