-- ===== src/Config/Load/Usable.antt =====
-- What `Load` promises of a configuration.
use slack_mcp_extender.Base.{
  ℕ, ◌<◌, String, ◌≡◌, refl, true, ◌||◌, not, subst, Bool-cases, inl, inr, eqb, arith,
}
use Prim.Native.Nat.{◌%◌}
use slack_mcp_extender.Base.Int.{ℤ, pos, negsuc, ◌≤ℤ◌}
use slack_mcp_extender.Base.Result.{Result, err, ok, >>=-eq-ok, guard->>-eq-ok}
use slack_mcp_extender.Config.Types.{Config, System}
use slack_mcp_extender.Config.Validate.{validate}
use slack_mcp_extender.Config.Validate.Valid.{IsValid, validate-IsValid}
use slack_mcp_extender.Config.Load.{
  or_default_number, apply_defaults, wrapped, is_private, validated, load, default_max_file_size,
  default_timeout_ms,
}

-- A positive integer.
abbrev pub IsPositive : ℤ → Type 0
IsPositive (pos n) = 0 < n
IsPositive (negsuc n) = ⊥

or_default_number-IsPositive :
    (n default : ℤ)
    → IsPositive default
    → pos 0 ≤ℤ or_default_number n default
    → IsPositive (or_default_number n default)
or_default_number-IsPositive (pos n) default d h = elim (Bool-cases (eqb n 0)) [
  | inl t ↦ rw t d
  | inr f ↦ rw f (ground arith)
]
or_default_number-IsPositive (negsuc n) default d h = ground arith

-- A loaded configuration comes from a file that only its owner can access, is valid, stands at an
-- absolute place, and has a cap and a time limit that are positive.
pub record IsUsable (sys : System) (path : String) (c : Config) : Type 0 where
  pub mode : ℕ
  pub permitted : sys.permissions path ≡ ok mode
  pub private_file : (sys.windows || eqb (mode % 64) 0) ≡ true
  pub place : sys.abs path ≡ ok c.path
  pub valid : IsValid sys c
  pub capped : IsPositive c.max_file_size
  pub timed : IsPositive c.timeout_ms

module _ (sys : System) where
  unwrapped :
      {V : Type 0} (path : String) (r : Result String V) (v : V)
      → wrapped sys path r ≡ ok v
      → r ≡ ok v
  unwrapped path (err e) v h = cc
  unwrapped path (ok w) v h = h

  IsValid-of_validated :
      (c c' : Config) (r : Result String (Unit {0}))
      → validate sys c ≡ r
      → validated sys c r ≡ ok c'
      → (c ≡ c') × IsValid sys c
  IsValid-of_validated c c' (err e) v h = cc
  IsValid-of_validated c c' (ok tt) v h = (cc, validate-IsValid sys c v)

  apply_defaults-IsUsable :
      (path : String) (c : Config) (mode : ℕ)
      → sys.permissions path ≡ ok mode
      → is_private sys mode ≡ true
      → sys.abs path ≡ ok c.path
      → IsValid sys (apply_defaults c)
      → IsUsable sys path (apply_defaults c)
  unfolding apply_defaults
  apply_defaults-IsUsable path c mode permitted private_file place valid = record {
    mode = mode;
    permitted = permitted;
    private_file = private_file;
    place = place;
    valid = valid;
    capped =
        or_default_number-IsPositive c.max_file_size default_max_file_size (ground arith)
          valid.capped;
    timed = or_default_number-IsPositive c.timeout_ms default_timeout_ms (ground arith) valid.timed;
  }

  -- A configuration that Load returns comes from a file that, unless on Windows, only its owner can
  -- access; it is valid, stands at the absolute form of the path, and has a positive size cap and a
  -- positive time limit.
  pub load-IsUsable : (path : String) (c : Config) → load sys path ≡ ok c → IsUsable sys path c
  unfolding load
  load-IsUsable path c h =
      let (mode, p, h1) = >>=-eq-ok (wrapped sys path (sys.permissions path)) _ h in
      let (private_file, h2) = guard->>-eq-ok (is_private sys mode) _ _ h1 in
      let (text, _, h3) = >>=-eq-ok (wrapped sys path (sys.open_file path)) _ h2 in
      let (decoded, _, h4) = >>=-eq-ok (wrapped sys path (sys.decode text)) _ h3 in
      let (_, h5) = guard->>-eq-ok (not decoded.1) _ _ h4 in
      let (place, a, h6) = >>=-eq-ok (wrapped sys path (sys.abs path)) _ h5 in
      let c' : Config = apply_defaults (record decoded.0 { path = place }) in
      let (same, valid) =
        IsValid-of_validated c' c (validate sys c') refl (unwrapped path _ c h6) in
      subst (IsUsable sys path) same (
        apply_defaults-IsUsable path (record decoded.0 { path = place }) mode
          (unwrapped path _ mode p) private_file (unwrapped path _ place a) valid)
