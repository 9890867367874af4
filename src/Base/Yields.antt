-- ===== src/Base/Yields.antt =====
-- What holds of the value of each run that has one, with a rule for chains.
use mathlib.Core.Path.{◌≡◌, refl}
use slack_mcp_extender.Base.Result.{Result, err, ok}
use slack_mcp_extender.Base.Action.{Action, lift, next, ◌>>=◌}

abbrev pub Holds {κ} : {N E V : Type 0} → (V → Type κ) → Result E V × N → Type κ
Holds P (err e, s) = Unit
Holds P (ok v, s) = P v

abbrev pub Yields {κ} : {N E V : Type 0} → (V → Type κ) → Action N E V → Type κ
Yields P m = (s : _) → Holds P (m s)

pub lift-Yields {κ} :
    {N E V : Type 0} (P : V → Type κ) (r : Result E V)
    → ((v : V) → r ≡ ok v → P v)
    → Yields {N = N} P (lift r)
lift-Yields P (err e) h s = tt
lift-Yields P (ok v) h s = h v refl

pub any-Yields : {N E V : Type 0} (m : Action N E V) → Yields (λ v. Unit {0}) m
any-Yields m s = by_outcome (m s)
  where
    by_outcome : {N E V : Type 0} (outcome : Result E V × N) → Holds (λ v. Unit {0}) outcome
    by_outcome (err e, s) = tt
    by_outcome (ok v, s) = tt

pub >>=-Yields {κ μ} :
    {N E V W : Type 0} (P : V → Type κ) (Q : W → Type μ) (m : Action N E V) (f : V → Action N E W)
    → Yields P m
    → ((v : V) → P v → Yields Q (f v))
    → Yields Q (m >>= f)
>>=-Yields {N} {E} {V} P Q m f p q s = by_outcome (m s) (p s)
  where
    by_outcome : (outcome : Result E V × N) → Holds P outcome → Holds Q (next f outcome)
    by_outcome (err e, t) h = tt
    by_outcome (ok v, t) h = q v h t
