-- ===== src/Worker/Names.antt =====
-- The names of the branches, for opc-da-client/src/com_worker/browse.rs: reading them changes nothing of
-- the state of a browse.
use opc_cli.Prelude.{ℕ, zero, suc, List, ◌∷◌, [], ◌++◌, Text, Option-cases, inl, inr}
use opc_cli.Errors.{ok, err, is_non_progress_browse_error}
use opc_cli.Act.Triple.{Triple, Triple-return, Triple-fail, Triple-if, Triple-out_of_fuel}
use opc_cli.Server.{Server}
use opc_cli.Server.Guard.{GuardedBrowseIterator, next_string}
use opc_cli.Worker.Browse.{Browsing, branch_names}

module _ {W : Type 0} (server : Server W) (debug : Text → Text) (max_tags : ℕ)
    (P : Browsing W → Type 0) where
  pub branch_names-keeps :
      (fuel : ℕ) (path : List Text) (g : GuardedBrowseIterator) (names : List Text)
      → Triple P (λ _. P) (λ _. P) (branch_names server debug max_tags fuel path g names)
  unfolding branch_names
  branch_names-keeps zero path g names = Triple-out_of_fuel
  branch_names-keeps (suc fuel) path g names = elim (Option-cases (next_string debug g).0) [
    | inl e ↦ rw (e, branch_names) (Triple-return names (λ s h. h))
    | inr (ok name, e) ↦
        rw (e, branch_names)
          (branch_names-keeps fuel path (next_string debug g).1 (names ++ name ∷ []))
    | inr (err x, e) ↦
        rw (e, branch_names)
          (Triple-if (is_non_progress_browse_error x) _ _ (λ is. Triple-fail _ (λ s h. h))
            (λ is. branch_names-keeps fuel path (next_string debug g).1 names))
  ]
