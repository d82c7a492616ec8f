-- ===== src/Act/Total.antt =====
-- Actions that return from every state: those without a loop on fuel, by the way an action is built.
use opc_cli.Prelude.{Bool, if◌then◌else◌}
use opc_cli.Act.{
  Failable, done, failed, exhausted, Failing, return, fail, get, update, resume, recover, or_else,
  map_err, caught, catch, ◌>>=◌,
}
use opc_cli.Act.Returns.{HasReturned, Returns, Returns-return, Returns-fail, Returns-if}

abbrev pub IsTotal : {X S A : Type 0} → Failing X S A → Type 0
IsTotal m = Returns (λ _. Unit) (λ _. Unit) m

module _ {X S A : Type 0} where
  pub IsTotal-return : (a : A) → IsTotal {X = X} {S = S} (return a)
  IsTotal-return a = Returns-return a tt

  pub IsTotal-fail : (e : X) → IsTotal {S = S} {A = A} (fail e)
  IsTotal-fail e = Returns-fail e

  pub IsTotal-get : (f : S → A) → IsTotal {X = X} (get f)
  unfolding get
  IsTotal-get f = record { from = λ s h. tt }

  pub IsTotal-if :
      (b : Bool) (m n : Failing X S A) → IsTotal m → IsTotal n → IsTotal (if b then m else n)
  IsTotal-if b m n hm hn = Returns-if b m n hm hn

  recover-returns :
      (r : Failable X A) (f : X → Failing X S A) (s : S)
      → HasReturned (λ _. Unit) r
      → ((e : X) → IsTotal (f e))
      → HasReturned (λ _. Unit) (recover r f s).0
  recover-returns (done a) f s h next = tt
  recover-returns (failed e) f s h next = (next e).from s tt
  recover-returns exhausted f s h next = h

  pub IsTotal-or_else :
      (m : Failing X S A) (f : X → Failing X S A)
      → IsTotal m
      → ((e : X) → IsTotal (f e))
      → IsTotal (or_else m f)
  unfolding or_else
  IsTotal-or_else m f h next = record {
    from = λ s p. recover-returns (m s).0 f (m s).1 (h.from s tt) next;
  }

  pub IsTotal-map_err : (f : X → X) (m : Failing X S A) → IsTotal m → IsTotal (map_err f m)
  unfolding map_err
  IsTotal-map_err f m h = IsTotal-or_else m _ h (λ e. IsTotal-fail (f e))

  module _ (Q : A → Type 0) where
    recover-gets :
        (r : Failable X A) (f : X → X) (s : S)
        → HasReturned Q r
        → HasReturned Q (recover {S = S} r (λ e. fail (f e)) s).0
    unfolding fail
    recover-gets (done a) f s h = h
    recover-gets (failed e) f s h = tt
    recover-gets exhausted f s h = h

    pub Returns-map_err :
        (f : X → X) (m : Failing X S A)
        → Returns (λ _. Unit) Q m
        → Returns (λ _. Unit) Q (map_err f m)
    unfolding map_err or_else
    Returns-map_err f m h = record { from = λ s p. recover-gets (m s).0 f (m s).1 (h.from s tt) }

module _ {X S : Type 0} where
  pub IsTotal-update : (f : S → S) → IsTotal {X = X} (update f)
  unfolding update
  IsTotal-update f = record { from = λ s h. tt }

module _ {X S A B : Type 0} where
  resume-Returns :
      (R : B → Type 0) (r : Failable X A) (f : A → Failing X S B) (s : S)
      → HasReturned (λ _. Unit) r
      → ((a : A) → Returns (λ _. Unit) R (f a))
      → HasReturned R (resume r f s).0
  resume-Returns R (done a) f s h next = (next a).from s tt
  resume-Returns R (failed e) f s h next = tt
  resume-Returns R exhausted f s h next = h

  pub Returns-then :
      (R : B → Type 0) (m : Failing X S A) (f : A → Failing X S B)
      → IsTotal m
      → ((a : A) → Returns (λ _. Unit) R (f a))
      → Returns (λ _. Unit) R (m >>= f)
  unfolding ◌>>=◌
  Returns-then R m f h next = record {
    from = λ s p. resume-Returns R (m s).0 f (m s).1 (h.from s tt) next;
  }

  pub IsTotal-bind :
      (m : Failing X S A) (f : A → Failing X S B)
      → IsTotal m
      → ((a : A) → IsTotal (f a))
      → IsTotal (m >>= f)
  IsTotal-bind m f h next = Returns-then (λ _. Unit) m f h next

module _ {X S A : Type 0} where
  caught-returns :
      (r : Failable X A) (s : S)
      → HasReturned (λ _. Unit) r
      → HasReturned (λ _. Unit) (caught r s).0
  caught-returns (done a) s h = tt
  caught-returns (failed e) s h = tt
  caught-returns exhausted s h = h

  pub IsTotal-catch : (m : Failing X S A) → IsTotal m → IsTotal (catch m)
  unfolding catch
  IsTotal-catch m h = record { from = λ s p. caught-returns (m s).0 (m s).1 (h.from s tt) }

pub ruleset total_rules = (
  IsTotal-return, IsTotal-fail, IsTotal-get, IsTotal-update, IsTotal-if, IsTotal-bind,
  IsTotal-or_else, IsTotal-map_err,
)
