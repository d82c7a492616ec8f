-- ===== src/Browse/Sound.antt =====
-- What holds of a session whatever the server does: its limits, its tokens, and that a node can be
-- opened exactly when its kind says so.
use opc_cli.Prelude.{
  ℕ, suc, ◌≤◌, ◌<◌, ◌≡◌, refl, Bool, true, false, not, List, [], ◌∷◌, length, leb, arith,
  Bool-cases, inl, inr,
}
use opc_cli.Errors.{OpcResult, OpcError}
use opc_cli.Provider.{BrowseNodeKind, has_children}
use opc_cli.Act.{return, fail, get, update, ◌>>=◌}
use opc_cli.Act.Rules.{Keeps}
use opc_cli.Browse.State.{
  BrowseSessionState, NodeState, NodeLocation, item_location, BrowseContinuation, insert_node,
  contains_key, store_continuation, call, call_map_err, BrowseBackend,
}
use opc_cli.Browse.Tokens.{Injective, Drawn, Drawn-mono, draw_token_lem, draw_differs}

abbrev pub is_item_location : NodeLocation → Bool
is_item_location item_location = true
is_item_location _ = false

abbrev pub Fits : BrowseNodeKind → NodeLocation → Type 0
Fits kind location = is_item_location location ≡ not (has_children kind)

abbrev pub AllFit : List (ℕ × NodeState) → Type 0
AllFit [] = Unit
AllFit ((t, n) ∷ rest) = Fits n.kind n.location × AllFit rest

-- What has happened: how many draws, and the numbers of those that were page tokens and are consumed.
pub record Past : Type 0 where
  pub draws : ℕ
  pub consumed : ℕ → Bool

abbrev pub no_past : Past
no_past = record { draws = 0; consumed = λ k. false }

module _ {W : Type 0} (uuid : ℕ → ℕ) where
  abbrev pub IsConsumed : ℕ → BrowseSessionState W → Type 0
  IsConsumed k s = (k < s.draws) × (contains_key (uuid k) s.continuations ≡ false)

  pub record IsSound (past : Past) (s : BrowseSessionState W) : Type 0 where
    pub nodes_bounded : length s.nodes ≤ 100000
    pub pages_bounded : length s.continuations ≤ 256
    pub nodes_drawn : Drawn uuid s.draws s.nodes
    pub pages_drawn : Drawn uuid s.draws s.continuations
    pub nodes_fit : AllFit s.nodes
    pub draws_grow : past.draws ≤ s.draws
    pub consumed_stay : (k : ℕ) → past.consumed k ≡ true → IsConsumed k s

  module _ (n : Past) where
    pub call_map_err-IsSound :
        {A : Type 0} (f : OpcError → OpcError) (method : W → OpcResult A × W)
        → Keeps (IsSound n) (call_map_err f method)
    unfolding call_map_err return fail
    call_map_err-IsSound f method = record { preserved = λ s h. ground arith }

    pub call-IsSound : {A : Type 0} (method : W → OpcResult A × W) → Keeps (IsSound n) (call method)
    unfolding call
    call-IsSound method = call_map_err-IsSound (λ e. e) method

    -- A change of the backend only.
    pub with_backend-IsSound :
        (f : BrowseSessionState W → BrowseBackend)
        → Keeps {X = OpcError} (IsSound n) (update (λ s. record s { backend = f s }))
    unfolding update
    with_backend-IsSound f = record { preserved = λ s h. ground arith }

    module _ (inj : Injective uuid) where
      pub insert_node-IsSound :
          (kind : BrowseNodeKind) (location : NodeLocation)
          → Fits kind location
          → Keeps (IsSound n) (insert_node uuid kind location)
      unfolding insert_node ◌>>=◌ get update return fail
      insert_node-IsSound kind location fits = record {
        preserved = λ s h. elim (Bool-cases (leb 100000 (length s.nodes))) [
          | inl full ↦ rw full h
          | inr room ↦
              rw (room, draw_token_lem uuid inj s.nodes s h.nodes_drawn)
                (record {
                  nodes_bounded = ground arith;
                  pages_bounded = h.pages_bounded;
                  nodes_drawn = (
                    (s.draws, omega arith, refl),
                    Drawn-mono uuid s.draws (suc s.draws) s.nodes (omega arith) h.nodes_drawn,
                  );
                  pages_drawn =
                      Drawn-mono uuid s.draws (suc s.draws) s.continuations (omega arith)
                        h.pages_drawn;
                  nodes_fit = (fits, h.nodes_fit);
                  draws_grow = omega (arith, h.draws_grow);
                  consumed_stay =
                      λ k is. let (lt, gone) = h.consumed_stay k is in (omega arith, gone);
                })
        ];
      }

      pub store_continuation-IsSound :
          (c : BrowseContinuation) → Keeps (IsSound n) (store_continuation uuid c)
      unfolding store_continuation ◌>>=◌ get update return fail
      store_continuation-IsSound c = record {
        preserved = λ s h. elim (Bool-cases (leb 256 (length s.continuations))) [
          | inl full ↦ rw full h
          | inr room ↦
              rw (room, draw_token_lem uuid inj s.continuations s h.pages_drawn)
                (record {
                  nodes_bounded = h.nodes_bounded;
                  pages_bounded = ground arith;
                  nodes_drawn =
                      Drawn-mono uuid s.draws (suc s.draws) s.nodes (omega arith) h.nodes_drawn;
                  pages_drawn = (
                    (s.draws, omega arith, refl),
                    Drawn-mono uuid s.draws (suc s.draws) s.continuations (omega arith)
                        h.pages_drawn,
                  );
                  nodes_fit = h.nodes_fit;
                  draws_grow = omega (arith, h.draws_grow);
                  consumed_stay = λ k is.
                      let (lt, gone) = h.consumed_stay k is in
                      (omega arith, draw_differs uuid inj c k s.draws s.continuations lt gone);
                })
        ];
      }
