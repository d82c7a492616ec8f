-- ===== src/Worker/Position.antt =====
-- The browse position of the server during `handle_browse` of opc-da-client/src/com_worker/browse.rs: the
-- connection stays in the pool, and the next browse starts where this one ends.
use opc_cli.Prelude.{
  ℕ, zero, suc, ◌≡◌, refl, ap, ◌∙◌, true, false, some, List, [], ◌∷◌, ◌++◌, Text, codes, drop_last,
  if◌then◌else◌, Option-cases, inl, inr,
}
use opc_cli.Errors.{OpcError, OpcResult, ok, err}
use opc_cli.Act.{Act, return, get, update, outcome, ◌>>=◌, ◌>>◌}
use opc_cli.Act.Triple.{
  Triple, EndsWith, Triple-bind, Triple-return, Triple-if, Triple-try, Triple-get, Triple-update,
  Triple-out_of_fuel,
}
use opc_cli.Server.{Server, opc_browse_up}
use opc_cli.Server.Guard.{GuardedBrowseIterator, next_string}
use opc_cli.Browse.Cursor.{Moves}
use opc_cli.Worker.Browse.{
  Browsing, ask_server, take_tag, is_full, begin_guarded, flat_tags, item_id_or_name, leaf_tags,
}

-- The other methods do not move the position, and a server that is below its root can go up.
pub record GoesUp {W : Type 0} (server : Server W) (position : W → List Text) : Type 0 where
  pub moves : Moves server position
  pub asked : (w : W) → position (server.query_organization w).1 ≡ position w
  pub begun :
      (kind : ℕ) (w : W)
      → position (server.begin_da2_browse kind (some (codes "")) 0 0 w).1 ≡ position w
  pub named : (name : Text) (w : W) → position (server.get_item_id name w).1 ≡ position w
  pub up_works :
      (above : List Text) (branch : Text) (w : W)
      → position w ≡ above ++ branch ∷ []
      → (server.change_browse_position opc_browse_up (codes "") w).0 ≡ ok tt

pub drop_last-snoc : (path : List Text) (b : Text) → drop_last (path ++ b ∷ []) ≡ path
drop_last-snoc [] b = refl
drop_last-snoc (p ∷ []) b = refl
drop_last-snoc (p ∷ q ∷ path) b = ap (λ r. p ∷ r) (drop_last-snoc (q ∷ path) b)

module _ {W : Type 0} (server : Server W) (debug : Text → Text) (max_tags : ℕ)
    (position : W → List Text) (goes : GoesUp server position) where
  abbrev pub IsAt : List Text → Browsing W → Type 0
  IsAt path s = position s.server ≡ path

  abbrev pub Stays : {A : Type 0} → List Text → Act (Browsing W) A → Type 0
  Stays path m = Triple (IsAt path) (λ _. IsAt path) (λ _. IsAt path) m

  pub ask_server-ends :
      {A : Type 0} (Q : A → Browsing W → Type 0) (E : OpcError → Browsing W → Type 0)
      (r : OpcResult A) (w : W) (s : Browsing W)
      → ((a : A) → r ≡ ok a → Q a (record s { server = w }))
      → ((e : OpcError) → r ≡ err e → E e (record s { server = w }))
      → EndsWith Q E (outcome r, record s { server = w })
  ask_server-ends Q E (ok a) w s good bad = good a refl
  ask_server-ends Q E (err e) w s good bad = bad e refl

  pub ask_server-Stays :
      {A : Type 0} (path : List Text) (method : W → OpcResult A × W)
      → ((w : W) → position (method w).1 ≡ position w)
      → Stays path (ask_server method)
  unfolding ask_server
  ask_server-Stays path method kept = record {
    from = λ s at.
        ask_server-ends (λ _. IsAt path) (λ _. IsAt path) (method s.server).0 (method s.server).1 s
          (λ a e. kept s.server ∙ at) (λ x e. kept s.server ∙ at);
  }

  pub begin_guarded-Stays :
      (path : List Text) (kind : ℕ) (name : Text) (p : List Text)
      → Stays path (begin_guarded server debug max_tags kind name p)
  unfolding begin_guarded
  begin_guarded-Stays path kind name p =
      Triple-bind (λ _. IsAt path) _ _ (ask_server-Stays path _ (goes.begun kind))
        (λ source. Triple-return _ (λ s h. h))

  -- A test of the limit moves nothing.
  pub unless_full :
      {A : Type 0} (path : List Text) (stop : A) (rest : Act (Browsing W) A)
      → Stays path rest
      → Stays path (do full ← get (is_full max_tags); if full then return stop else rest)
  unless_full path stop rest h =
      Triple-bind (λ _. IsAt path) (get (is_full max_tags)) _
        (Triple-get (is_full max_tags) (λ s at. at))
        λ full. Triple-if full (return stop) rest (λ is. Triple-return stop (λ s p. p)) (λ is. h)

  take_then :
      {A : Type 0} (path : List Text) (tag : Text) (rest : Act (Browsing W) A)
      → Stays path rest
      → Stays path (update (take_tag tag) >> rest)
  unfolding take_tag
  take_then path tag rest h =
      Triple-bind (λ _. IsAt path) _ _ (Triple-update (take_tag tag) (λ s at. at)) (λ _. h)

  pub flat_tags-Stays :
      (path : List Text) (fuel : ℕ) (g : GuardedBrowseIterator)
      → Stays path (flat_tags server debug max_tags fuel g)
  unfolding flat_tags
  flat_tags-Stays path zero g = Triple-out_of_fuel
  flat_tags-Stays path (suc fuel) g = elim (Option-cases (next_string debug g).0) [
    | inl e ↦ rw (e, flat_tags) (Triple-return tt (λ s h. h))
    | inr (name, e) ↦
        rw (e, flat_tags)
          (unless_full path tt _ (
            Triple-bind (λ _. IsAt path) _ _ (Triple-try name (λ a s e h. h) (λ x s e h. h))
              (λ tag. take_then path tag _ (flat_tags-Stays path fuel (next_string debug g).1))))
  ]

  item_id_or_name-Stays :
      (path : List Text) (name : Text) → Stays path (item_id_or_name server debug max_tags name)
  unfolding item_id_or_name return
  item_id_or_name-Stays path name = record { from = λ s at. goes.named name s.server ∙ at }

  pub leaf_tags-Stays :
      (path : List Text) (fuel : ℕ) (g : GuardedBrowseIterator)
      → Stays path (leaf_tags server debug max_tags fuel g)
  unfolding leaf_tags
  leaf_tags-Stays path zero g = Triple-out_of_fuel
  leaf_tags-Stays path (suc fuel) g = elim (Option-cases (next_string debug g).0) [
    | inl e ↦ rw (e, leaf_tags) (Triple-return false (λ s h. h))
    | inr (name, e) ↦
        rw (e, leaf_tags)
          (unless_full path true _ (
            Triple-bind (λ _. IsAt path) _ _ (Triple-try name (λ a s e h. h) (λ x s e h. h))
              λ browse_name.
                Triple-bind (λ _. IsAt path) _ _ (item_id_or_name-Stays path browse_name)
                  λ tag. take_then path tag _ (leaf_tags-Stays path fuel (next_string debug g).1)))
  ]
