-- ===== src/Base/Result.antt =====
-- Go's `(value, error)`: one of the two.
use Prim.Native.String.{String, ◌++◌ as ◌<>◌}
use mathlib.Core.Path.{◌≡◌, refl}
use mathlib.Core.Logic.{◌⊎◌, inl, inr}
use mathlib.Core.Bool.{Bool, true, false}
use slack_mcp_extender.Base.Tests.{if◌then◌else◌}

pub data Result {ℓ κ} (E : Type ℓ) (V : Type κ) : Type (ℓ ⊔ κ) where
  err : E → Result E V
  ok : V → Result E V

-- `if err != nil { return err }` before what follows.
infixl 5 ◌>>=◌ ◌>>◌
abbrev pub ◌>>=◌ {ℓ κ μ} :
    {E : Type ℓ} {V : Type κ} {W : Type μ} → Result E V → (V → Result E W) → Result E W
◌>>=◌ (err e) next = err e
◌>>=◌ (ok v) next = next v

abbrev pub ◌>>◌ {ℓ κ} : {E : Type ℓ} {W : Type κ} → Result E (Unit {0}) → Result E W → Result E W
◌>>◌ (err e) next = err e
◌>>◌ (ok _) next = next

-- `if !test { return e }`
abbrev pub guard {ℓ} : {E : Type ℓ} → Bool → E → Result E (Unit {0})
guard false e = err e
guard true e = ok tt

-- `fmt.Errorf` around an error's text.
abbrev pub wrapped {ℓ} : {V : Type ℓ} → String → Result String V → Result String V
wrapped what (ok v) = ok v
wrapped what (err e) = err (what <> e)

pub wrapped-eq-ok {ℓ} :
    {V : Type ℓ} (what : String) (r : Result String V) (v : V) → wrapped what r ≡ ok v → r ≡ ok v
wrapped-eq-ok what (err e) v h = cc
wrapped-eq-ok what (ok w) v h = h

module _ {ℓ κ} {E : Type ℓ} {V : Type κ} where
  pub Result-cases : (r : Result E V) → ((v : V) × (r ≡ ok v)) ⊎ ((e : E) × (r ≡ err e))
  Result-cases (err e) = inr (e, refl)
  Result-cases (ok v) = inl (v, refl)

  -- What each kind of step says of a chain that succeeds.
  pub guard->>-eq-ok :
      (test : Bool) (e : E) (next : Result E V) {v : V}
      → (guard test e >> next) ≡ ok v
      → (test ≡ true) × (next ≡ ok v)
  guard->>-eq-ok false e next h = cc
  guard->>-eq-ok true e next h = (refl, h)

  pub >>-eq-ok :
      (step : Result E (Unit {0})) (next : Result E V) {v : V}
      → (step >> next) ≡ ok v
      → (step ≡ ok tt) × (next ≡ ok v)
  >>-eq-ok (err e) next h = cc
  >>-eq-ok (ok tt) next h = (refl, h)

pub >>=-eq-ok {ℓ κ μ} :
    {E : Type ℓ} {V : Type κ} {W : Type μ} (step : Result E V) (next : V → Result E W) {w : W}
    → (step >>= next) ≡ ok w
    → (v : V) × (step ≡ ok v) × (next v ≡ ok w)
>>=-eq-ok (err e) next h = cc
>>=-eq-ok (ok v) next h = (v, refl, h)

-- A chain of four tests, of which three succeed.
pub last_of_four {ℓ κ} :
    {E : Type ℓ} {V : Type κ} (a b c d : Bool) (e f g h : E) (rest : Result E V)
    → a ≡ true
    → b ≡ true
    → c ≡ true
    → (guard a e >> (guard b f >> (guard c g >> (guard d h >> rest)))) ≡ (if d then rest else err h)
last_of_four true true true true e f g h r i j k = refl
last_of_four true true true false e f g h r i j k = refl
last_of_four true true false d e f g h r i j k = cc
last_of_four true false c d e f g h r i j k = cc
last_of_four false b c d e f g h r i j k = cc
