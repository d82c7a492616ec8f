-- ===== src/Act.antt =====
-- Methods on `&mut self` that return an `OpcResult`: what was written before an error stays written. A
-- loop on fuel that runs out of it is `exhausted`, which no method of the source returns.
pub mod Rules
pub mod Returns
pub mod Triple
pub mod Total
use opc_cli.Prelude.{Option, none, some}
use opc_cli.Errors.{OpcError, OpcResult, ok, err}

pub data Failable {ℓ} (E : Type 0) (A : Type ℓ) : Type ℓ where
  done : A → Failable E A
  failed : E → Failable E A
  exhausted : Failable E A

-- A method with errors in `E`.
abbrev pub Failing {ℓ} : Type 0 → Type ℓ → Type ℓ → Type ℓ
Failing E S A = S → Failable E A × S

abbrev pub Outcome {ℓ} : Type ℓ → Type ℓ
Outcome A = Failable OpcError A

abbrev pub Act {ℓ} : Type ℓ → Type ℓ → Type ℓ
Act S A = Failing OpcError S A

abbrev pub outcome {ℓ} : {A : Type ℓ} → OpcResult A → Outcome A
outcome (ok a) = done a
outcome (err e) = failed e

-- The result of a method with errors of its own.
abbrev pub outcome_as {ℓ} : {E : Type 0} {A : Type ℓ} → (OpcError → E) → OpcResult A → Failable E A
outcome_as f (ok a) = done a
outcome_as f (err e) = failed (f e)

module _ {ℓ} {E : Type 0} {S A : Type ℓ} where
  unfoldable pub return : A → Failing E S A
  return a s = (done a, s)

  unfoldable pub fail : E → Failing E S A
  fail e s = (failed e, s)

  unfoldable pub out_of_fuel : Failing E S A
  out_of_fuel s = (exhausted, s)

  unfoldable pub get : (S → A) → Failing E S A
  get f s = (done (f s), s)

module _ {ℓ} {E : Type 0} {S : Type ℓ} where
  unfoldable pub update : (S → S) → Failing E S (Unit {ℓ})
  update f s = (done tt, f s)

module _ {ℓ} {E : Type 0} {S A B : Type ℓ} where
  abbrev pub resume : Failable E A → (A → Failing E S B) → Failing E S B
  resume (done a) f s = f a s
  resume (failed e) f s = (failed e, s)
  resume exhausted f s = (exhausted, s)

  infixl 10 ◌>>=◌ ◌>>◌
  unfoldable pub ◌>>=◌ : Failing E S A → (A → Failing E S B) → Failing E S B
  ◌>>=◌ m f s = let (r, s') = m s in resume r f s'

  abbrev pub ◌>>◌ : Failing E S A → Failing E S B → Failing E S B
  m >> n = m >>= λ _. n

module _ {ℓ} {E : Type 0} {S A : Type ℓ} where
  -- What is done after an error, in the state that it left.
  abbrev pub recover : Failable E A → (E → Failing E S A) → Failing E S A
  recover (done a) f s = (done a, s)
  recover (failed e) f s = f e s
  recover exhausted f s = (exhausted, s)

  unfoldable pub or_else : Failing E S A → (E → Failing E S A) → Failing E S A
  or_else m f s = let (r, s') = m s in recover r f s'

module _ {ℓ} {E : Type 0} {S A : Type ℓ} where
  -- `Result::map_err`.
  unfoldable pub map_err : (E → E) → Failing E S A → Failing E S A
  map_err f m = or_else m λ e. fail (f e)

module _ {ℓ} {S A : Type ℓ} where
  -- The result of a call that does not touch the state: `?` on it.
  unfoldable pub try : OpcResult A → Act S A
  try r s = (outcome r, s)

  -- A method that is called on the state itself.
  unfoldable pub invoke : (S → OpcResult A × S) → Act S A
  invoke method s = let (r, s') = method s in (outcome r, s')

module _ {E : Type 0} {S A : Type 0} where
  abbrev pub caught : Failable E A → S → Failable E (Option E) × S
  caught (done a) s = (done none, s)
  caught (failed e) s = (done (some e), s)
  caught exhausted s = (exhausted, s)

  -- The error of an action, if it has one.
  unfoldable pub catch : Failing E S A → Failing E S (Option E)
  catch m s = let (r, s') = m s in caught r s'
