-- ===== src/Browse/Levels.antt =====
-- Parts of a browse path: the shared beginning of two paths, and the levels above a path.
use opc_cli.Prelude.{
  ℕ, zero, suc, ◌+◌, ◌-◌, ◌≤◌, ◌<◌, ◌≡◌, refl, sym, ap, ◌∙◌, List, [], ◌∷◌, ◌++◌, Text, text_eq,
  eq_of_text_eq, length, take, drop, drop_last, arith, Bool-cases, inl, inr,
}
use opc_cli.Browse.Path.{shared_length}

pub take-shared_length :
    (p q : List Text) → take (shared_length p q) p ++ drop (shared_length p q) q ≡ q
unfolding shared_length
take-shared_length [] q = refl
take-shared_length (a ∷ p) [] = refl
take-shared_length (a ∷ p) (b ∷ q) = elim (Bool-cases (text_eq a b)) [
  | inl same ↦ rw same (cc (eq_of_text_eq a b same, take-shared_length p q))
  | inr other ↦ rw other
]

pub shared_length_le : (p q : List Text) → shared_length p q ≤ length p
unfolding shared_length
shared_length_le [] q = omega arith
shared_length_le (a ∷ p) [] = omega arith
shared_length_le (a ∷ p) (b ∷ q) = ground (arith, shared_length_le p q)

-- `n` levels up.
abbrev pub above : ℕ → List Text → List Text
above zero p = p
above (suc n) p = above n (drop_last p)

pub length-drop_last : (p : List Text) → length (drop_last p) ≡ length p - 1
length-drop_last [] = omega arith
length-drop_last (a ∷ []) = omega arith
length-drop_last (a ∷ b ∷ p) = omega (arith, length-drop_last (b ∷ p))

take-drop_last : (k : ℕ) (p : List Text) → k < length p → take k (drop_last p) ≡ take k p
take-drop_last zero p h = refl
take-drop_last (suc k) [] h = elim h [ ]
take-drop_last (suc k) (a ∷ []) h = absurd (omega arith)
take-drop_last (suc k) (a ∷ b ∷ p) h = ap (◌∷◌ a) (take-drop_last k (b ∷ p) (omega arith))

take_all : (k : ℕ) (p : List Text) → length p ≤ k → take k p ≡ p
take_all zero [] h = refl
take_all zero (a ∷ p) h = absurd (omega arith)
take_all (suc k) [] h = refl
take_all (suc k) (a ∷ p) h = ap (◌∷◌ a) (take_all k p (omega arith))

pub above-take : (n k : ℕ) (p : List Text) → k + n ≡ length p → above n p ≡ take k p
above-take zero k p h = sym (take_all k p (omega arith))
above-take (suc n) k p h =
    above-take n k (drop_last p) (omega (arith, length-drop_last p, h))
    ∙ take-drop_last k p (omega arith)
