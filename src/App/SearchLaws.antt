-- ===== src/App/SearchLaws.antt =====
-- The search mode: which tags match.
use opc_cli.Prelude.{
  ℕ, zero, suc, ◌+◌, ◌≤◌, ◌<◌, ◌≡◌, refl, sym, ◌∙◌, ap, Bool, false, ◌||◌, Option, none, some, List,
  [], ◌∷◌, Text, arith, get_elem?, contains, ◌==◌, Bool-cases, inl, inr,
}
use native.Mathlib.Nat.{zero-add}
use opc_cli.Platform.{Platform}
use opc_cli.App.State.{App}
use opc_cli.App.Search.{matches_from, recompute_search_matches}

abbrev pub is_member : ℕ → List ℕ → Bool
is_member i [] = false
is_member i (x ∷ xs) = i == x || is_member i xs

-- Each element is below the next, and the first is at least `lo`.
abbrev pub Ascending : ℕ → List ℕ → Type 0
Ascending lo [] = Unit
Ascending lo (x ∷ xs) = (lo ≤ x) × Ascending (suc x) xs

Ascending-weaken : (lo hi : ℕ) (xs : List ℕ) → lo ≤ hi → Ascending hi xs → Ascending lo xs
Ascending-weaken lo hi [] h a = tt
Ascending-weaken lo hi (x ∷ xs) h a = (omega arith, a.1)

not_member_below : (i lo : ℕ) (xs : List ℕ) → i < lo → Ascending lo xs → is_member i xs ≡ false
not_member_below i lo [] h a = refl
not_member_below i lo (x ∷ xs) h a = ground (arith, not_member_below i (suc x) xs)

-- The first match, or the cursor as it was.
abbrev pub first_or : List ℕ → Option ℕ → Option ℕ
first_or [] cursor = cursor
first_or (i ∷ is) cursor = some i

module _ (p : Platform) where
  -- The lower-case tag at an index contains the query.
  abbrev pub matches : Text → List Text → ℕ → Bool
  matches query tags i = elim (get_elem? tags i) [
    | none ↦ false
    | some tag ↦ contains query (p.to_lowercase tag)
  ]

  matches_from-Ascending :
      (i : ℕ) (query : Text) (tags : List Text) → Ascending i (matches_from p i query tags)
  unfolding matches_from
  matches_from-Ascending i query [] = tt
  matches_from-Ascending i query (tag ∷ tags) =
      elim (Bool-cases (contains query (p.to_lowercase tag))) [
        | inl e ↦ rw e (omega arith, matches_from-Ascending (suc i) query tags)
        | inr e ↦
            rw e (
              Ascending-weaken i (suc i) _ (omega arith)
                (matches_from-Ascending (suc i) query tags))
      ]

  is_member-matches_from :
      (k i : ℕ) (query : Text) (tags : List Text)
      → is_member (i + k) (matches_from p i query tags) ≡ matches query tags k
  unfolding matches_from
  is_member-matches_from k i query [] = refl
  is_member-matches_from zero i query (tag ∷ tags) = ground (
    arith,
    not_member_below i (suc i) (matches_from p (suc i) query tags),
    matches_from-Ascending (suc i) query tags,
  )
  is_member-matches_from (suc k) i query (tag ∷ tags) =
      ground (arith, is_member-matches_from k (suc i) query tags)

  abbrev found : App → List ℕ
  found app = matches_from p 0 (p.to_lowercase app.search_query) app.tags

  recompute_fields :
      (app : App)
      → let app' = recompute_search_matches p app in
        (app'.search_matches ≡ found app)
        × (app'.search_match_index ≡ 0)
        × (app'.selected_index ≡ first_or (found app) app.selected_index)
  unfolding recompute_search_matches
  recompute_fields app = ground arith

  -- After the matches are computed anew, an index `i` is among them exactly when it is that of a tag
  -- whose lower-case text contains the lower-case query; they ascend; the first is current, and is
  -- the cursor, which stays where it was when there is none.
  pub recompute_search_matches_lem :
      (app : App) (i : ℕ)
      → let app' = recompute_search_matches p app in
        (is_member i app'.search_matches ≡ matches (p.to_lowercase app.search_query) app.tags i)
        × Ascending 0 app'.search_matches
        × (app'.search_match_index ≡ 0)
        × (app'.selected_index ≡ first_or app'.search_matches app.selected_index)
  recompute_search_matches_lem app i =
      let q = p.to_lowercase app.search_query in
      let (same, index, cursor) = recompute_fields app in
      (
        ap (is_member i) same
            ∙ (ap (λ j. is_member j (found app)) (sym (zero-add i))
                ∙ is_member-matches_from i 0 q app.tags),
        rw same (matches_from-Ascending 0 q app.tags),
        index,
        cursor ∙ ap (λ l. first_or l app.selected_index) (sym same),
      )
