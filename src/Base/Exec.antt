-- ===== src/Base/Exec.antt =====
-- Code that acts on a state and may fail. What was done before an error stays done.
use byssus.Base.Tests.{Result, ok, err, map_err}

abbrev pub Exec : Type 0 → Type 0 → Type 0 → Type 0
Exec S E A = S → Result E A × S

module _ {S E A : Type 0} where
  abbrev pub pure : A → Exec S E A
  pure a s = (ok a, s)

  abbrev pub raise : E → Exec S E A
  raise e s = (err e, s)

  abbrev pub lift : Result E A → Exec S E A
  lift r s = (r, s)

  -- `map_err` on the result of a call
  abbrev pub map_error : {F : Type 0} → (E → F) → Exec S E A → Exec S F A
  map_error f m s = let (r, s') = m s in (map_err f r, s')

  -- The call's result as a value, for a `match` on it.
  abbrev pub attempt : {F : Type 0} → Exec S E A → Exec S F (Result E A)
  attempt m s = let (r, s') = m s in (ok r, s')

module _ {S E A B : Type 0} where
  abbrev pub continue : Result E A → (A → Exec S E B) → Exec S E B
  continue (ok a) f s = f a s
  continue (err e) f s = (err e, s)

  infixl 10 ◌>>=◌ ◌>>◌
  abbrev pub ◌>>=◌ : Exec S E A → (A → Exec S E B) → Exec S E B
  ◌>>=◌ m f s = let (r, s') = m s in continue r f s'

  abbrev pub ◌>>◌ : Exec S E A → Exec S E B → Exec S E B
  m >> n = m >>= λ _. n
