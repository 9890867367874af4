-- ===== src/Base/Action.antt =====
-- Functions that change a state `N` and return a value or an error: a monad.
use slack_mcp_extender.Base.Result.{Result, err, ok}

abbrev pub Action : Type 0 → Type 0 → Type 0 → Type 0
Action N E V = N → Result E V × N

module _ {N E : Type 0} where
  abbrev pub lift : {V : Type 0} → Result E V → Action N E V
  lift r s = (r, s)

  -- The part that follows an outcome; an error ends the chain.
  abbrev pub next : {V W : Type 0} → (V → Action N E W) → Result E V × N → Result E W × N
  next f (err e, s) = (err e, s)
  next f (ok v, s) = f v s

  infixl 5 ◌>>=◌ ◌>>◌
  abbrev pub ◌>>=◌ : {V W : Type 0} → Action N E V → (V → Action N E W) → Action N E W
  ◌>>=◌ m f s = next f (m s)

  abbrev pub ◌>>◌ : {W : Type 0} → Action N E (Unit {0}) → Action N E W → Action N E W
  m >> k = m >>= λ _. k

  abbrev pub gets : {V : Type 0} → (N → V) → Action N E V
  gets f s = (ok (f s), s)

  abbrev pub modify : (N → N) → Action N E (Unit {0})
  modify f s = (ok tt, f s)
