-- ===== src/Prelude/Exec.antt =====
-- Code that acts on the outside: it writes down each effect, in order, and returns, fails with an
-- error or panics. What was written before a failure stays written. A response of the outside may
-- depend on all that has happened.
pub mod Rules
pub mod Gives
use mathlib.Core.Path.{◌≡◌, refl}
use mathlib.Core.Bool.{Bool}
use mathlib.Core.Option.{Option, none, some}
use mathlib.Core.List.{List, [], ◌∷◌, ◌++◌}
use qnch_chain.Prelude.Results.{Result, ok, err}

-- Why a run ends early.
pub data Stop (E : Type 0) : Type 0 where
  failed : E → Stop E
  panicked : Stop E

-- `V` are the effects.
abbrev pub Exec : Type 0 → Type 0 → Type 0 → Type 0
Exec V E A = List V → Result A (Stop E) × List V

abbrev pub respond : {E A : Type 0} → Result A E → Result A (Stop E)
respond (ok a) = ok a
respond (err e) = err (failed e)

module _ {V E A : Type 0} where
  unfoldable pub pure : A → Exec V E A
  pure a s = (ok a, s)

  unfoldable pub fail : E → Exec V E A
  fail e s = (err (failed e), s)

  -- A Rust panic, as by `expect` on a missing value.
  unfoldable pub panic : Exec V E A
  panic s = (err panicked, s)

  -- The effect `v`, which may fail: `f(…)?`.
  unfoldable pub attempt : V → (List V → Result A E) → Exec V E A
  attempt v f s = (respond (f s), s ++ (v ∷ []))

  -- A question to the outside that has no effect of its own.
  unfoldable pub consult : (List V → Result A E) → Exec V E A
  consult f s = (respond (f s), s)

  -- `o.expect(…)`
  unfoldable pub expect : Option A → Exec V E A
  expect (some a) s = (ok a, s)
  expect none s = (err panicked, s)

-- An effect that cannot fail.
unfoldable pub emit : {V E : Type 0} → V → Exec V E (Unit {0})
emit v s = (ok tt, s ++ (v ∷ []))

module _ {V E A B : Type 0} where
  abbrev pub continue : Result A (Stop E) → (A → Exec V E B) → Exec V E B
  continue (ok a) f s = f a s
  continue (err e) f s = (err e, s)

  infixl 5 ◌>>=◌ ◌>>◌
  unfoldable pub ◌>>=◌ : Exec V E A → (A → Exec V E B) → Exec V E B
  ◌>>=◌ m f s = continue (m s).0 f (m s).1

  abbrev pub ◌>>◌ : Exec V E A → Exec V E B → Exec V E B
  m >> k = m >>= λ _. k
