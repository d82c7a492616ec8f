-- ===== src/Browse/Tokens.antt =====
-- The tokens of a session: UUIDs that were drawn before, so that a new draw is no key.
use opc_cli.Prelude.{
  ℕ, suc, ◌≤◌, ◌<◌, ◌≡◌, refl, sym, ◌∙◌, false, none, some, List, [], ◌∷◌, length, arith, ◌==◌,
  Bool-cases, inl, inr, ==_iff,
}
use opc_cli.Act.{done, return}
use opc_cli.Browse.State.{lookup, erase, contains_key, free_draw, BrowseSessionState, draw_token}

abbrev pub Injective : (ℕ → ℕ) → Type 0
Injective f = (a b : ℕ) → f a ≡ f b → a ≡ b

module _ {V : Type 0} (uuid : ℕ → ℕ) where
  -- Every key is a draw with a number below `n`.
  abbrev pub Drawn : ℕ → List (ℕ × V) → Type 0
  Drawn n [] = Unit
  Drawn n ((t, v) ∷ rest) = ((k : ℕ) × (k < n) × (t ≡ uuid k)) × Drawn n rest

  pub Drawn-mono : (m n : ℕ) (l : List (ℕ × V)) → m ≤ n → Drawn m l → Drawn n l
  Drawn-mono m n [] h d = tt
  Drawn-mono m n ((t, v) ∷ rest) h ((k, lt, e), d) = ((k, omega arith, e), Drawn-mono m n rest h d)

  pub Drawn-erase : (n t : ℕ) (l : List (ℕ × V)) → Drawn n l → Drawn n (erase t l)
  unfolding erase
  Drawn-erase n t [] d = tt
  Drawn-erase n t ((k, v) ∷ rest) (p, d) = elim (Bool-cases (k == t)) [
    | inl same ↦ rw same (Drawn-erase n t rest d)
    | inr other ↦ rw other (p, Drawn-erase n t rest d)
  ]

  module _ (inj : Injective uuid) where
    pub draw_fresh : (n : ℕ) (l : List (ℕ × V)) → Drawn n l → contains_key (uuid n) l ≡ false
    unfolding contains_key
    draw_fresh n [] d = refl
    draw_fresh n ((t, v) ∷ rest) ((k, lt, e), d) = elim (Bool-cases (t == uuid n)) [
      | inl same ↦ absurd (omega (arith, lt, inj k n (sym e ∙ (==_iff t (uuid n)).0 same)))
      | inr other ↦ rw other (draw_fresh n rest d)
    ]

    pub draw_differs :
        (v : V) (k n : ℕ) (l : List (ℕ × V))
        → k < n
        → contains_key (uuid k) l ≡ false
        → contains_key (uuid k) ((uuid n, v) ∷ l) ≡ false
    unfolding contains_key
    draw_differs v k n l lt h = elim (Bool-cases (uuid n == uuid k)) [
      | inl same ↦ absurd (omega (arith, lt, inj n k ((==_iff (uuid n) (uuid k)).0 same)))
      | inr other ↦ rw other h
    ]

  pub lookup-Drawn :
      (n t : ℕ) (l : List (ℕ × V)) {v : V}
      → Drawn n l
      → lookup t l ≡ some v
      → (k : ℕ) × (k < n) × (t ≡ uuid k)
  unfolding lookup
  lookup-Drawn n t [] d h = cc
  lookup-Drawn n t ((key, v) ∷ rest) ((k, lt, e), d) h = elim (Bool-cases (key == t)) [
    | inl same ↦ (k, lt, sym ((==_iff key t).0 same) ∙ e)
    | inr other ↦ lookup-Drawn n t rest d (rw other at h)
  ]

  pub contains_key-erase :
      (t k : ℕ) (l : List (ℕ × V)) → contains_key k l ≡ false → contains_key k (erase t l) ≡ false
  unfolding contains_key erase
  contains_key-erase t k [] h = refl
  contains_key-erase t k ((key, v) ∷ rest) h = ground (arith, contains_key-erase t k rest)

  pub contains_key-erase_same : (t : ℕ) (l : List (ℕ × V)) → contains_key t (erase t l) ≡ false
  unfolding contains_key erase
  contains_key-erase_same t [] = refl
  contains_key-erase_same t ((key, v) ∷ rest) = ground (arith, contains_key-erase_same t rest)

  pub lookup_fresh : (t : ℕ) (l : List (ℕ × V)) → contains_key t l ≡ false → lookup t l ≡ none
  unfolding lookup contains_key
  lookup_fresh t [] h = refl
  lookup_fresh t ((k, v) ∷ rest) h = ground (arith, lookup_fresh t rest)

  pub lookup-erase : (t : ℕ) (l : List (ℕ × V)) → lookup t (erase t l) ≡ none
  unfolding lookup erase
  lookup-erase t [] = refl
  lookup-erase t ((k, v) ∷ rest) = ground (arith, lookup-erase t rest)

  pub length-erase_le : (t : ℕ) (l : List (ℕ × V)) → length (erase t l) ≤ length l
  unfolding erase
  length-erase_le t [] = omega arith
  length-erase_le t ((k, v) ∷ rest) = ground (arith, length-erase_le t rest)

module _ {V W : Type 0} (uuid : ℕ → ℕ) (inj : Injective uuid) where
  -- The first draw is free, so the loop ends at once.
  pub draw_token_lem :
      (l : List (ℕ × V)) (s : BrowseSessionState W)
      → Drawn uuid s.draws l
      → draw_token uuid l s ≡ (done (uuid s.draws), record s { draws = suc s.draws })
  unfolding draw_token return
  draw_token_lem l s d = rw (draw_fresh uuid inj s.draws l d, draw_token, free_draw)
