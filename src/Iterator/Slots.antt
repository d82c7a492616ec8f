-- ===== src/Iterator/Slots.antt =====
-- The cache of the string iterator: what a refill and a taken entry leave to be read.
use opc_cli.Prelude.{
  ℕ, zero, suc, ◌+◌, ◌≤◌, ◌<◌, min, ◌≡◌, refl, List, [], ◌∷◌, ◌++◌, arith, length, set, take,
  replicate, length-append, length-replicate,
}
use opc_cli.Iterator.Strings.{Slot, null, wide, slot_at, pending, count_null, filled}

pub pending-set :
    (i n : ℕ) (ss : List Slot)
    → i < n
    → slot_at ss i ≡ null
    → pending (suc i) n (set ss i null) ≡ pending i n ss
unfolding pending
pending-set zero zero ss h e = elim h [ ]
pending-set zero (suc n) [] h e = refl
pending-set zero (suc n) (null ∷ ss) h e = refl
pending-set zero (suc n) (wide r ∷ ss) h e = cc
pending-set (suc i) zero ss h e = elim h [ ]
pending-set (suc i) (suc n) [] h e = refl
pending-set (suc i) (suc n) (s ∷ ss) h e = pending-set i n ss (omega arith) e

pub pending_past : (k n : ℕ) (ss : List Slot) → n ≤ k → pending k n ss ≡ []
unfolding pending
pending_past zero zero ss h = refl
pending_past zero (suc n) ss h = elim h [ ]
pending_past (suc k) n [] h = refl
pending_past (suc k) zero (s ∷ ss) h = refl
pending_past (suc k) (suc n) (s ∷ ss) h = pending_past k n ss (omega arith)

pub count_null-pending :
    (n : ℕ) (ss : List Slot) → count_null (take n ss) + length (pending 0 n ss) ≡ min n (length ss)
unfolding count_null pending
count_null-pending zero ss = omega arith
count_null-pending (suc n) [] = omega arith
count_null-pending (suc n) (null ∷ ss) = ground (arith, count_null-pending n ss)
count_null-pending (suc n) (wide r ∷ ss) = ground (arith, count_null-pending n ss)

length-take {ℓ} : {A : Type ℓ} (n : ℕ) (xs : List A) → length (take n xs) ≡ min n (length xs)
length-take zero xs = omega arith
length-take (suc n) [] = omega arith
length-take (suc n) (x ∷ xs) = omega (arith, length-take n xs)

pub length-filled : (slots : List Slot) → length (filled slots) ≡ 256
unfolding filled
length-filled slots = omega (
  arith,
  length-take 256 (slots ++ replicate 256 null),
  length-append slots (replicate 256 null),
  length-replicate 256 null,
)
