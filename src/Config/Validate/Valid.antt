-- ===== src/Config/Validate/Valid.antt =====
-- What a configuration that validates satisfies.
use slack_mcp_extender.Base.{
  String, ◌≡◌, ◌≢◌, refl, Bool, true, false, not, ◌||◌, inl, inr, ◌⊎◌, List, [], ◌∷◌, All, ◌==◌,
  eq_iff, arith,
}
use slack_mcp_extender.Base.Int.{ℤ, pos, ltb_ℤ, ◌≤ℤ◌}
use slack_mcp_extender.Base.Result.{ok, guard->>-eq-ok}
use slack_mcp_extender.Config.Types.{Config, System}
use slack_mcp_extender.Config.Validate.{
  is_env_var_name, is_http_url, is_empty, run_checks, checks, validate,
}

pub record IsValid (sys : System) (c : Config) : Type 0 where
  pub upstream : is_http_url (sys.parse_url c.upstream_url) ≡ true
  pub identified :
      (c.oauth.authorize_url ≢ "") × (c.oauth.token_url ≢ "") × (c.oauth.client_id ≢ "")
  pub one_secret : (c.oauth.client_secret ≡ "") ⊎ (c.oauth.client_secret_env ≡ "")
  pub secret_name :
      (c.oauth.client_secret_env ≡ "") ⊎ (is_env_var_name c.oauth.client_secret_env ≡ true)
  pub scoped : c.oauth.scopes ≢ []
  pub callback : (c.oauth.callback_scheme ≡ "http") ⊎ (c.oauth.callback_scheme ≡ "https")
  pub authenticated :
      (((c.oauth.client_auth_method ≡ "") ⊎ (c.oauth.client_auth_method ≡ "post"))
        ⊎ (c.oauth.client_auth_method ≡ "basic"))
      ⊎ (c.oauth.client_auth_method ≡ "none")
  pub no_roots : c.allowed_roots ≡ []
  pub capped : pos 0 ≤ℤ c.max_file_size
  pub timed : pos 0 ≤ℤ c.timeout_ms

either : (a b : Bool) → (a || b) ≡ true → (a ≡ true) ⊎ (b ≡ true)
either true b h = inl refl
either false b h = inr h

neither_of_three :
    (a b c : Bool) → not (a || b || c) ≡ true → (a ≡ false) × (b ≡ false) × (c ≡ false)
neither_of_three true b c h = cc
neither_of_three false true c h = cc
neither_of_three false false true h = cc
neither_of_three false false false h = (refl, refl, refl)

text_of_eq : (s t : String) → (s == t) ≡ true → s ≡ t
text_of_eq s t h = ground (arith, eq_iff s t)

text_of_ne : (s t : String) → (s == t) ≡ false → s ≢ t
text_of_ne s t h = λ e. ground (arith, eq_iff s t)

nil_of_empty : (xs : List String) → is_empty xs ≡ true → xs ≡ []
nil_of_empty [] h = refl
nil_of_empty (x ∷ xs) h = cc

not_nil : (xs : List String) → not (is_empty xs) ≡ true → xs ≢ []
not_nil [] h = λ e. cc
not_nil (x ∷ xs) h = λ e. cc

not_below : (n : ℤ) → not (ltb_ℤ n (pos 0)) ≡ true → pos 0 ≤ℤ n
not_below n h = ground arith

abbrev Passes : Bool × String → Type 0
Passes (test, e) = test ≡ true

all_pass : (checks : List (Bool × String)) → run_checks checks ≡ ok tt → All Passes checks
all_pass [] h = tt
all_pass ((test, e) ∷ checks) h =
    let (passed, rest) = guard->>-eq-ok test e (run_checks checks) h in
    (passed, all_pass checks rest)

first : {A B : Type 0} {a b : Bool} → (a ≡ true → A) → (b ≡ true → B) → (a || b) ≡ true → A ⊎ B
first {a = a} {b = b} f g h = elim (either a b h) [ inl t ↦ inl (f t) | inr t ↦ inr (g t) ]

IsValid-of_checks : (sys : System) (c : Config) → All Passes (checks sys c) → IsValid sys c
unfolding checks
IsValid-of_checks sys c
      (
        upstream,
        (named, (one, (name, (scoped, (scheme, (method, (roots, (capped, (timed, _))))))))),
      ) =
    let (a, b, d) = neither_of_three _ _ _ named in
    record {
      upstream = upstream;
      identified = (text_of_ne _ _ a, text_of_ne _ _ b, text_of_ne _ _ d);
      one_secret = first (text_of_eq _ _) (text_of_eq _ _) one;
      secret_name = first (text_of_eq _ _) (λ t. t) name;
      scoped = not_nil _ scoped;
      callback = first (text_of_eq _ _) (text_of_eq _ _) scheme;
      authenticated =
          first (first (first (text_of_eq _ _) (text_of_eq _ _)) (text_of_eq _ _)) (text_of_eq _ _)
            method;
      no_roots = nil_of_empty _ roots;
      capped = not_below _ capped;
      timed = not_below _ timed;
    }

pub validate-IsValid : (sys : System) (c : Config) → validate sys c ≡ ok tt → IsValid sys c
unfolding validate
validate-IsValid sys c h = IsValid-of_checks sys c (all_pass (checks sys c) h)
