-- ===== src/App/SearchCycle.antt =====
-- The search mode: how the matches are cycled through.
use opc_cli.Prelude.{
  ℕ, zero, suc, ◌+◌, ◌-◌, ◌%◌, ◌<◌, ◌≡◌, refl, sym, ◌∙◌, ap, arith, length, get_elem?, ◌==◌,
  if◌then◌else◌, get_elem?_lt,
}
use native.Mathlib.Nat.{add-zero, mod-eq_of_lt, mod_self, mod-lt, mod-add-mod, add-mod_right}
use native.Mathlib.Decide.{dec_lt}
use opc_cli.App.State.{App}
use opc_cli.App.Selection.{iterate}
use opc_cli.App.Search.{next_search_match, prev_search_match}

-- The number of matches is not 0 and the current one is in range.
abbrev pub HasMatch : App → Type 0
HasMatch app = app.search_match_index < length app.search_matches

next_search_match_lem :
    (app : App)
    → HasMatch app
    → let app' = next_search_match app in
      (app'.search_match_index ≡ (app.search_match_index + 1) % length app.search_matches)
      × (app'.search_matches ≡ app.search_matches)
      × (app'.selected_index ≡ get_elem? app.search_matches app'.search_match_index)
unfolding next_search_match
next_search_match_lem app h = ground (
  arith,
  get_elem?_lt app.search_matches ((app.search_match_index + 1) % length app.search_matches),
)

-- One step back in a cycle of `n`.
abbrev before : ℕ → ℕ → ℕ
before n k = if k == 0 then n - 1 else k - 1

prev_search_match_lem :
    (app : App)
    → HasMatch app
    → let app' = prev_search_match app in
      (app'.search_match_index ≡ before (length app.search_matches) app.search_match_index)
      × (app'.search_matches ≡ app.search_matches)
      × (app'.selected_index ≡ get_elem? app.search_matches app'.search_match_index)
unfolding prev_search_match
prev_search_match_lem app h = ground (
  arith,
  get_elem?_lt app.search_matches (before (length app.search_matches) app.search_match_index),
)

step_back : (n k : ℕ) → k < n → before n ((k + 1) % n) ≡ k
step_back n k h = elim (dec_lt (k + 1) n) [
  | yes more ↦ rw (mod-eq_of_lt more) (ground arith)
  | no last ↦ let e : k + 1 ≡ n = omega arith in rw e (rw (mod_self n) (omega arith))
]

step_on : (n k : ℕ) → k < n → (before n k + 1) % n ≡ k
step_on n zero h = let e : n - 1 + 1 ≡ n = omega arith in rw e (rw (mod_self n))
step_on n (suc k) h = let e : before n (suc k) + 1 ≡ suc k = ground arith in rw (e, mod-eq_of_lt h)

next-HasMatch : (app : App) → HasMatch app → HasMatch (next_search_match app)
next-HasMatch app h =
    let (index, same, _) = next_search_match_lem app h in rw (same, index) (mod-lt _ (omega arith))

prev-HasMatch : (app : App) → HasMatch app → HasMatch (prev_search_match app)
prev-HasMatch app h = ground (arith, prev_search_match_lem app h)

-- With a current match, a step forward and one back, in either order, return to the current match
-- and leave the cursor on it.
next_prev_return :
    (app : App)
    → HasMatch app
    → let here = get_elem? app.search_matches app.search_match_index in
      ((prev_search_match (next_search_match app)).search_match_index ≡ app.search_match_index)
      × ((prev_search_match (next_search_match app)).selected_index ≡ here)
      × ((next_search_match (prev_search_match app)).search_match_index ≡ app.search_match_index)
      × ((next_search_match (prev_search_match app)).selected_index ≡ here)
next_prev_return app h =
    let n = length app.search_matches in
    let k = app.search_match_index in
    ground (
      arith,
      next_search_match_lem app h,
      prev_search_match_lem (next_search_match app) (next-HasMatch app h),
      prev_search_match_lem app h,
      next_search_match_lem (prev_search_match app) (prev-HasMatch app h),
      step_back n k h,
      step_on n k h,
    )

around_lem : (n k : ℕ) → k < n → (k + n) % n ≡ k
around_lem n k h = add-mod_right k n ∙ mod-eq_of_lt h

step_first : (n k j : ℕ) → (k + suc j) % n ≡ ((k + 1) % n + j) % n
step_first n k j =
    let e : k + suc j ≡ k + 1 + j = omega arith in rw e (sym (mod-add-mod (k + 1) n j))

-- The state `app'` is at position `k` of the matches of `app`, with the cursor there.
abbrev pub IsAt : App → ℕ → App → Type 0
IsAt app k app' =
    (app'.search_match_index ≡ k)
    × (app'.search_matches ≡ app.search_matches)
    × (app'.selected_index ≡ get_elem? app.search_matches k)

next-IsAt :
    (app : App)
    → HasMatch app
    → IsAt app ((app.search_match_index + 1) % length app.search_matches) (next_search_match app)
next-IsAt app h = ground (arith, next_search_match_lem app h)

iterate-IsAt :
    (j k : ℕ) (app app' : App)
    → k < length app.search_matches
    → IsAt app k app'
    → IsAt app ((k + j) % length app.search_matches) (iterate j next_search_match app')
iterate-IsAt zero k app app' h at =
    let e : (k + 0) % length app.search_matches ≡ k = rw (add-zero, mod-eq_of_lt h) in rw e at
iterate-IsAt (suc j) k app app' h at =
    let n = length app.search_matches in
    let inside : (k + 1) % n < n = mod-lt (k + 1) (omega arith) in
    let here : HasMatch app' = ground arith in
    let step : IsAt app ((k + 1) % n) (next_search_match app') =
      ground (arith, next-IsAt app' here) in
    rw (step_first n k j) (iterate-IsAt j ((k + 1) % n) app (next_search_match app') inside step)

iterate_steps :
    (j : ℕ) (app : App)
    → HasMatch app
    → IsAt app
        ((app.search_match_index + suc j) % length app.search_matches)
        (iterate (suc j) next_search_match app)
iterate_steps j app h =
    let n = length app.search_matches in
    let k = app.search_match_index in
    let inside : (k + 1) % n < n = mod-lt (k + 1) (omega arith) in
    rw (step_first n k j)
      (iterate-IsAt j ((k + 1) % n) app (next_search_match app) inside (next-IsAt app h))

full_cycle :
    (n : ℕ) (app : App)
    → n ≡ length app.search_matches
    → HasMatch app
    → IsAt app app.search_match_index (iterate n next_search_match app)
full_cycle zero app e h = absurd (omega arith)
full_cycle (suc j) app e h =
    let back : (app.search_match_index + suc j) % length app.search_matches
        ≡ app.search_match_index =
      ap (λ m. (app.search_match_index + m) % length app.search_matches) e
      ∙ around_lem (length app.search_matches) app.search_match_index h in
    rw back at (iterate_steps j app h)

-- From a current match, as many steps forward as there are matches return to it, with the cursor on
-- it; any number `j + 1` of steps lead to the position `j + 1` further, modulo
-- their number, also with the cursor there.
next_search_match_cycle :
    (j : ℕ) (app : App)
    → HasMatch app
    → let n = length app.search_matches in
      let k = app.search_match_index in
      IsAt app ((k + suc j) % n) (iterate (suc j) next_search_match app)
      × IsAt app k (iterate n next_search_match app)
next_search_match_cycle j app h =
    (iterate_steps j app h, full_cycle (length app.search_matches) app refl h)
