-- ===== src/App/Messages.antt =====
-- The message log of the interface.
use mathlib.Core.List.{append_assoc, append-nil}
use opc_cli.Prelude.{
  ℕ, zero, suc, ◌+◌, ◌-◌, ◌≤◌, ◌≡◌, ap, List, [], ◌∷◌, ◌++◌, Text, arith, length, drop,
  length-append, length-drop, ltb, Bool-cases, inl, inr, ltb→lt, ◌∙◌,
}
use opc_cli.App.State.{push_message}

-- The log after the messages `ms` are pushed on `log`.
abbrev pub push_all : List Text → List Text → List Text
push_all log [] = log
push_all log (m ∷ ms) = push_all (push_message m log) ms

-- The last `n` elements.
abbrev pub take_last {ℓ} : {A : Type ℓ} → ℕ → List A → List A
take_last n xs = drop (length xs - n) xs

module _ {ℓ} {A : Type ℓ} where
  drop_append_drop :
      (k j m : ℕ) (xs ys : List A)
      → k ≤ length xs
      → k + j ≡ m
      → drop j (drop k xs ++ ys) ≡ drop m (xs ++ ys)
  drop_append_drop zero j m xs ys h e = let e' : j ≡ m = omega arith in rw e'
  drop_append_drop (suc k) j zero xs ys h e = absurd (omega arith)
  drop_append_drop (suc k) j (suc m) [] ys h e = elim h [ ]
  drop_append_drop (suc k) j (suc m) (x ∷ xs) ys h e =
      drop_append_drop k j m xs ys (omega arith) (omega arith)

  -- What is not among the last `n` does not matter to what follows.
  take_last-append :
      (n : ℕ) (xs ys : List A) → take_last n (take_last n xs ++ ys) ≡ take_last n (xs ++ ys)
  take_last-append n xs ys =
      drop_append_drop (length xs - n) (length (take_last n xs ++ ys) - n) (length (xs ++ ys) - n)
        xs ys (omega arith)
        (omega (
          arith,
          length-append (take_last n xs) ys,
          length-append xs ys,
          length-drop (length xs - n) xs,
        ))

pub length-push_message :
    (m : Text) (log : List Text) → length log ≤ 10 → length (push_message m log) ≤ 10
unfolding push_message
length-push_message m log h =
    ground (arith, length-append log (m ∷ []), length-drop 1 (log ++ m ∷ []))

push_message-take_last :
    (m : Text) (log : List Text)
    → length log ≤ 10
    → push_message m log ≡ take_last 10 (log ++ m ∷ [])
unfolding push_message
push_message-take_last m log h = elim (Bool-cases (ltb 10 (length (log ++ m ∷ [])))) [
  | inl e ↦
      let one : length (log ++ m ∷ []) - 10 ≡ 1 =
        omega (arith, ltb→lt _ _ e, length-append log (m ∷ [])) in
      rw (e, one)
  | inr e ↦ let none_over : length (log ++ m ∷ []) - 10 ≡ 0 = ground arith in rw (e, none_over)
]

-- After any messages, the log shows the last ten of those shown before and those pushed, in order.
push_all_shows_last_ten :
    (log ms : List Text) → length log ≤ 10 → push_all log ms ≡ take_last 10 (log ++ ms)
push_all_shows_last_ten log [] h = let e : length log - 10 ≡ 0 = omega arith in rw (append-nil, e)
push_all_shows_last_ten log (m ∷ ms) h =
    push_all_shows_last_ten (push_message m log) ms (length-push_message m log h)
    ∙ (ap (λ l. take_last 10 (l ++ ms)) (push_message-take_last m log h)
        ∙ (take_last-append 10 (log ++ m ∷ []) ms
            ∙ ap (take_last 10) (append_assoc log (m ∷ []) ms)))
