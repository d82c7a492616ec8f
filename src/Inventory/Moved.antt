-- ===== src/Inventory/Moved.antt =====
-- The browse position of the server during the OPC DA 2.x pages of opc-da-client/src/inventory/: a
-- traversal that goes on after a page remembers where the server is.
use opc_cli.Prelude.{
  ℕ, zero, suc, ◌≡◌, refl, sym, ap, ◌∙◌, Bool, Option, none, some, List, [], ◌∷◌, ◌++◌, Text, codes,
  drop_last, Bool-cases, inl, inr,
}
use mathlib.Core.List.{append-nil, append_assoc}
use opc_cli.Errors.{OpcError, OpcResult, ok, err}
use opc_cli.Act.{return, fail, outcome_as, ◌>>=◌}
use opc_cli.Act.Triple.{
  Triple, EndsWith, Triple-bind, Triple-return, Triple-get, Triple-update, Triple-map_err,
}
use opc_cli.Server.{Server, change_browse_position_to}
use opc_cli.Browse.Cursor.{Moves}
use opc_cli.Browse.Levels.{above}
use opc_cli.Inventory.State.{
  InventoryError, was_cancelled, failed, invalid_da2_branch, contextual_inventory_error, Da2Path,
}
use opc_cli.Inventory.Context.{PageContext, ask_boundary, ask_server, paced_call}
use opc_cli.Inventory.Navigation.{with_path, go_up, refused, go_down}

-- The server moves as OPC DA documents, a browse to an item id goes to the path that the id stands for,
-- and the other methods do not move it.
pub record BrowsesTo {W : Type 0} (server : Server W) (position : W → List Text)
    (path_of : Text → List Text) : Type 0 where
  pub moves : Moves server position
  pub to_ok :
      (id : Text) (w w' : W)
      → change_browse_position_to server id w ≡ (ok tt, w')
      → position w' ≡ path_of id
  pub to_err :
      (id : Text) (w w' : W) (e : OpcError)
      → change_browse_position_to server id w ≡ (err e, w')
      → position w' ≡ position w
  pub begun :
      (kind : ℕ) (w : W)
      → position (server.begin_da2_browse kind (some (codes "")) 0 0 w).1 ≡ position w
  pub named : (name : Text) (w : W) → position (server.get_item_id name w).1 ≡ position w

-- The path of the target is what its item id stands for, where it has one.
abbrev pub Denotes : (Text → List Text) → Da2Path → Type 0
Denotes path_of target = elim target.item_id [
  | none ↦ Unit
  | some id ↦ path_of id ≡ target.components
]

pair_lem : {A B : Type 0} {a : A} {b : B} (p : A × B) → p.0 ≡ a → p.1 ≡ b → p ≡ (a, b)
pair_lem p e f = cc

module _ {W : Type 0} (server : Server W) (position : W → List Text) where
  -- What is remembered, and where the server is.
  abbrev pub IsAt : List Text → List Text → PageContext W → Type 0
  IsAt path there s = (s.current_da2_path ≡ path) × (position s.server ≡ there)

  abbrev pub IsSynced : PageContext W → Type 0
  IsSynced s = s.current_da2_path ≡ position s.server

  -- After an error: a branch that is passed over leaves what is remembered right; others end the
  -- traversal.
  abbrev pub Passes : InventoryError → PageContext W → Type 0
  Passes was_cancelled s = Unit
  Passes (failed e) s = Unit
  Passes (invalid_da2_branch parent name) s = IsSynced s

  asked-ends :
      {A : Type 0} (Q : A → PageContext W → Type 0) (E : InventoryError → PageContext W → Type 0)
      (r : OpcResult A) (s : PageContext W)
      → ((a : A) → r ≡ ok a → Q a s)
      → ((e : OpcError) → r ≡ err e → E (failed e) s)
      → EndsWith Q E (outcome_as failed r, s)
  asked-ends Q E (ok a) s good bad = good a refl
  asked-ends Q E (err e) s good bad = bad e refl

  module _ (proceeds : ℕ → Bool) where
    -- A call through the boundary, by what the method answers and leaves.
    pub paced_call-Triple :
        {A : Type 0} (P : PageContext W → Type 0) (Q : A → PageContext W → Type 0)
        (E : InventoryError → PageContext W → Type 0) (method : W → OpcResult A × W)
        → ((s : PageContext W) (a : A) (w : W) (n : ℕ)
            → method s.server ≡ (ok a, w)
            → P s
            → Q a (record s { server = w; boundaries = n }))
        → ((s : PageContext W) (e : OpcError) (w : W) (n : ℕ)
            → method s.server ≡ (err e, w)
            → P s
            → E (failed e) (record s { server = w; boundaries = n }))
        → ((s : PageContext W) (n : ℕ) → P s → E was_cancelled (record s { boundaries = n }))
        → Triple P Q E (paced_call proceeds method)
    unfolding paced_call ask_boundary ask_server ◌>>=◌ return fail
    paced_call-Triple P Q E method good bad stopped = record {
      from = λ s h. elim (Bool-cases (proceeds s.boundaries)) [
        | inl goes ↦ rw goes (
            asked-ends Q E (method s.server).0
              (record s { server = (method s.server).1; boundaries = suc s.boundaries })
              (λ a e.
                good s a (method s.server).1 (suc s.boundaries) (pair_lem (method s.server) e refl)
                  h)
              (λ x e.
                bad s x (method s.server).1 (suc s.boundaries) (pair_lem (method s.server) e refl)
                  h))
        | inr closed ↦ rw closed (stopped s (suc s.boundaries) h)
      ];
    }

    -- A call that does not move the server.
    pub paced_call-IsSynced :
        {A : Type 0} (method : W → OpcResult A × W)
        → ((w : W) → position (method w).1 ≡ position w)
        → Triple IsSynced (λ _. IsSynced) (λ _. IsSynced) (paced_call proceeds method)
    paced_call-IsSynced method kept =
        paced_call-Triple IsSynced (λ _. IsSynced) (λ _. IsSynced) method
          (λ s a w n e h. h ∙ sym (kept s.server) ∙ ap (λ p. position p.1) e)
          (λ s x w n e h. h ∙ sym (kept s.server) ∙ ap (λ p. position p.1) e) (λ s n h. h)

  Passes-contextual :
      (debug : Text → Text) (operation : Text) (path : List Text) (item : Option Text)
      (e : InventoryError) (s : PageContext W)
      → Passes e s
      → Passes (contextual_inventory_error debug e operation path item) s
  unfolding contextual_inventory_error
  Passes-contextual debug operation path item was_cancelled s h = tt
  Passes-contextual debug operation path item (failed e) s h = tt
  Passes-contextual debug operation path item (invalid_da2_branch parent name) s h = h

  pub IsSynced-Passes : (e : InventoryError) (s : PageContext W) → IsSynced s → Passes e s
  IsSynced-Passes was_cancelled s h = tt
  IsSynced-Passes (failed e) s h = tt
  IsSynced-Passes (invalid_da2_branch parent name) s h = h

  module _ (debug : Text → Text) (proceeds : ℕ → Bool) (moves : Moves server position) where
    -- Of an error that is no invalid branch nothing is said.
    abbrev IsNoBranch : InventoryError → PageContext W → Type 0
    IsNoBranch was_cancelled s = Unit
    IsNoBranch (failed e) s = Unit
    IsNoBranch (invalid_da2_branch parent name) s = ⊥

    IsNoBranch-Passes :
        (operation : Text) (path : List Text) (item : Option Text) (e : InventoryError)
        (s : PageContext W)
        → IsNoBranch e s
        → Passes (contextual_inventory_error debug e operation path item) s
    unfolding contextual_inventory_error
    IsNoBranch-Passes operation path item was_cancelled s h = tt
    IsNoBranch-Passes operation path item (failed e) s h = tt
    IsNoBranch-Passes operation path item (invalid_da2_branch parent name) s h = absurd h

    pub go_up-IsAt :
        (n : ℕ) (shown path there : List Text)
        → Triple
            (IsAt path there)
            (λ _. IsAt path (above n there))
            Passes
            (go_up server debug proceeds n shown)
    unfolding go_up
    go_up-IsAt zero shown path there = Triple-return tt (λ s h. h)
    go_up-IsAt (suc n) shown path there =
        Triple-bind (λ _. IsAt path (drop_last there)) _ _
          (Triple-map_err IsNoBranch _ _
            (paced_call-Triple proceeds (IsAt path there) (λ _. IsAt path (drop_last there))
              IsNoBranch _ (λ s a w n e h. (h.0, moves.up_ok s.server w e ∙ ap drop_last h.1))
              (λ s x w n e h. tt) (λ s n h. tt))
            (λ e s. IsNoBranch-Passes _ _ _ e s))
          (λ _. go_up-IsAt n shown path (drop_last there))

    refused-Passes :
        (branch : Text) (path : List Text) (e : InventoryError) (s : PageContext W)
        → IsSynced s
        → Passes (refused server debug proceeds branch path e) s
    unfolding refused
    refused-Passes branch path e s h = IsSynced-Passes _ s h

    pub go_down-IsAt :
        (bs path : List Text)
        → Triple
            (IsAt path path)
            (λ _. IsAt (path ++ bs) (path ++ bs))
            Passes
            (go_down server debug proceeds bs)
    unfolding go_down
    go_down-IsAt [] path = Triple-return tt (λ s h. rw (append-nil path) h)
    go_down-IsAt (b ∷ bs) path =
        Triple-bind (λ _. IsAt path path) _ _ (Triple-get (λ s. s.current_da2_path) (λ s h. h))
          λ shown.
            Triple-bind (λ _. IsAt path (path ++ b ∷ [])) _ _
              (Triple-map_err (λ _. IsSynced) _ _
                (paced_call-Triple proceeds (IsAt path path) (λ _. IsAt path (path ++ b ∷ []))
                  (λ _. IsSynced) _
                  (λ s a w n e h. (h.0, moves.down_ok b s.server w e ∙ ap (λ p. p ++ b ∷ []) h.1))
                  (λ s x w n e h. h.0 ∙ sym h.1 ∙ sym (moves.down_err b s.server w x e))
                  (λ s n h. h.0 ∙ sym h.1))
                (λ e s h. refused-Passes b shown e s h))
              λ _.
                Triple-bind (λ _. IsAt (path ++ b ∷ []) (path ++ b ∷ [])) _ _
                  (Triple-update (with_path (λ p. p ++ b ∷ []))
                    (λ s h. (ap (λ p. p ++ b ∷ []) h.0, h.1)))
                  (λ _. rw (← append_assoc path (b ∷ []) bs) (go_down-IsAt bs (path ++ b ∷ [])))
