-- ===== src/App/Selection.antt =====
-- The cursor of the list screens.
use opc_cli.Prelude.{
  ℕ, zero, suc, ◌+◌, ◌-◌, ◌≤◌, ◌<◌, min, ◌≡◌, refl, sym, ◌∙◌, ap, Bool, not, true, false, none,
  some, List, [], ◌∷◌, arith, length, get_elem?, set, get_elem?_lt, length-set, ◌==◌, if◌then◌else◌,
}
use opc_cli.App.State.{App, tag_list}
use opc_cli.App.Tasks.{is_flagged}
use opc_cli.App.Select.{
  list_count, select_next, select_prev, page_down, page_up, flip, toggle_tag_selection,
}

-- The cursor is on a row of the screen's list, or there is none.
abbrev pub IsInRange : App → Type 0
IsInRange app = elim app.selected_index [ none ↦ Unit | some i ↦ i < list_count app ]

-- On a screen whose list has a row, each of the four moves keeps the cursor in range: where it was
-- on a row or nowhere, it is on a row or nowhere.
moves-IsInRange :
    (app : App)
    → 0 < list_count app
    → IsInRange app
    → (IsInRange (select_next app) × IsInRange (select_prev app))
      × (IsInRange (page_down app) × IsInRange (page_up app))
unfolding select_next select_prev page_down page_up
moves-IsInRange app n h = ground arith

-- On an empty list with no cursor, three of the moves change nothing, and `page_up` puts the cursor
-- on row 0, which is not there.
page_up-empty :
    (app : App)
    → list_count app ≡ 0
    → app.selected_index ≡ none
    → (select_next app ≡ app)
      × (select_prev app ≡ app)
      × (page_down app ≡ app)
      × ((page_up app).selected_index ≡ some 0)
unfolding select_next select_prev page_down page_up
page_up-empty app n s = ground arith

abbrev pub iterate {ℓ} : {A : Type ℓ} → ℕ → (A → A) → A → A
iterate zero f a = a
iterate (suc n) f a = iterate n f (f a)

select_next_lem :
    (app : App) (i : ℕ)
    → app.selected_index ≡ some i
    → i < list_count app
    → ((select_next app).selected_index ≡ some (min (i + 1) (list_count app - 1)))
      × (list_count (select_next app) ≡ list_count app)
unfolding select_next
select_next_lem app i s h = ground arith

iterate-select_next :
    (n : ℕ) (app : App) (i : ℕ)
    → app.selected_index ≡ some i
    → i < list_count app
    → (iterate n select_next app).selected_index ≡ some (min (i + n) (list_count app - 1))
iterate-select_next zero app i s h = ground arith
iterate-select_next (suc n) app i s h = ground (
  arith,
  select_next_lem app i s h,
  iterate-select_next n (select_next app) (min (i + 1) (list_count app - 1)),
)

select_prev_lem :
    (app : App) (i : ℕ)
    → app.selected_index ≡ some i
    → (select_prev app).selected_index ≡ some (i - 1)
unfolding select_prev
select_prev_lem app i s = ground arith

iterate-select_prev :
    (n : ℕ) (app : App) (i : ℕ)
    → app.selected_index ≡ some i
    → (iterate n select_prev app).selected_index ≡ some (i - n)
iterate-select_prev zero app i s = ground arith
iterate-select_prev (suc n) app i s =
    ground (arith, select_prev_lem app i s, iterate-select_prev n (select_prev app) (i - 1))

page_lem :
    (app : App) (i : ℕ)
    → app.selected_index ≡ some i
    → i < list_count app
    → ((page_down app).selected_index ≡ some (min (i + 20) (list_count app - 1)))
      × ((page_up app).selected_index ≡ some (i - 20))
unfolding page_down page_up
page_lem app i s h = ground arith

-- With the cursor on a row, a page down puts it where twenty single steps down do, and a page up
-- where twenty single steps up do.
pub page_is_twenty_steps :
    (app : App) (i : ℕ)
    → app.selected_index ≡ some i
    → i < list_count app
    → ((page_down app).selected_index ≡ (iterate 20 select_next app).selected_index)
      × ((page_up app).selected_index ≡ (iterate 20 select_prev app).selected_index)
page_is_twenty_steps app i s h =
    let down : (iterate 20 select_next app).selected_index
        ≡ some (min (i + 20) (list_count app - 1)) =
      iterate-select_next 20 app i s h in
    let up : (iterate 20 select_prev app).selected_index ≡ some (i - 20) =
      iterate-select_prev 20 app i s in
    ((page_lem app i s h).0 ∙ sym down, (page_lem app i s h).1 ∙ sym up)

set-set_self {ℓ} :
    {A : Type ℓ} (xs : List A) (i : ℕ) (v w : A)
    → get_elem? xs i ≡ some w
    → (get_elem? (set xs i v) i ≡ some v) × (set (set xs i v) i w ≡ xs)
set-set_self [] i v w e = cc
set-set_self (x ∷ xs) zero v w e = ground arith
set-set_self (x ∷ xs) (suc i) v w e =
    let (read, back) = set-set_self xs i v w e in (read, ap (λ l. x ∷ l) back)

pub length-flip : (bs : List Bool) (i : ℕ) → length (flip bs i) ≡ length bs
unfolding flip
length-flip bs i = ground (arith, length-set bs i true, length-set bs i false)

flip-flip : (bs : List Bool) (i : ℕ) → flip (flip bs i) i ≡ bs
unfolding flip
flip-flip bs i = ground (arith, set-set_self bs i true false, set-set_self bs i false true)

-- Toggling twice changes nothing.
pub toggle-toggle : (app : App) → toggle_tag_selection (toggle_tag_selection app) ≡ app
unfolding toggle_tag_selection
toggle-toggle app = grind (arith, flip-flip, length-flip)

is_flagged-set :
    (bs : List Bool) (i j : ℕ) (b : Bool)
    → i < length bs
    → is_flagged (set bs i b) j ≡ (if i == j then b else is_flagged bs j)
is_flagged-set [] i j b h = elim h [ ]
is_flagged-set (x ∷ bs) zero zero b h = refl
is_flagged-set (x ∷ bs) zero (suc j) b h = ground arith
is_flagged-set (x ∷ bs) (suc i) zero b h = ground arith
is_flagged-set (x ∷ bs) (suc i) (suc j) b h = ground (arith, is_flagged-set bs i j b)

is_flagged-flip :
    (bs : List Bool) (i j : ℕ)
    → i < length bs
    → is_flagged (flip bs i) j ≡ (if i == j then not (is_flagged bs j) else is_flagged bs j)
unfolding flip
is_flagged-flip bs i j h =
    ground (arith, get_elem?_lt bs i h, is_flagged-set bs i j true h, is_flagged-set bs i j false h)

-- In the tag list, with the cursor on a tag and a flag for every tag, a toggle changes the flag of
-- that tag and no other flag.
toggle_one_flag :
    (app : App) (i j : ℕ)
    → app.current_screen ≡ tag_list
    → app.selected_index ≡ some i
    → i < length app.tags
    → length app.tags ≤ length app.selected_tags
    → is_flagged (toggle_tag_selection app).selected_tags j
      ≡ (if i == j then not (is_flagged app.selected_tags j) else is_flagged app.selected_tags j)
unfolding toggle_tag_selection
toggle_one_flag app i j s c t f =
    ground (arith, get_elem?_lt app.tags i t, is_flagged-flip app.selected_tags i j)
