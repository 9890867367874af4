-- ===== src/App/Init/Written.antt =====
-- Whether the other commands accept the configuration that `init` writes.
use slack_mcp_extender.Base.{
  ℕ, suc, String, ◌≡◌, ◌≢◌, refl, ap, subst, not, true, ◌||◌, each_branch, Option, none, some, List,
  [], ◌∷◌, ◌⊎◌, inl, inr, if◌then◌else◌, ◌==◌, eq_iff, arith,
}
use slack_mcp_extender.Base.Int.{ℤ, pos}
use slack_mcp_extender.Base.Result.{Result, err, ok, last_of_four}
use slack_mcp_extender.Base.Action.{◌>>=◌, lift}
use slack_mcp_extender.Base.Yields.{Holds, Yields, lift-Yields, any-Yields, >>=-Yields}
use slack_mcp_extender.Config.Types.{Config, System}
use slack_mcp_extender.Config.Validate.{is_env_var_name, is_http_url, validate}
use slack_mcp_extender.Config.Load.{default_upstream_url, apply_defaults}
use slack_mcp_extender.App.Init.{
  Stop, Dialog, ask, ask_until, Terminal, Secret, init_config, in_range, port_of, ask_secret,
  ask_config,
}

abbrev pub bad_variable : String
bad_variable =
    "oauth.client_secret_env must be the NAME of an environment variable (e.g. SLACK_MCP_EXTENDER_CLIENT_SECRET); if you meant to store the secret value itself, use oauth.client_secret"

-- Validation refuses the name of the variable, or nothing.
abbrev pub verdict : String → Result String (Unit {0})
verdict variable = if variable == "" || is_env_var_name variable then ok tt else err bad_variable

abbrev pub IsExclusive : Secret → Type 0
IsExclusive secret = (secret.variable ≡ "") ⊎ (secret.literal ≡ "")

abbrev number : Result Stop ℤ → ℤ
number (err e) = pos 0
number (ok n) = n

exclusive_test :
    (secret : Secret) → IsExclusive secret → (secret.literal == "" || secret.variable == "") ≡ true
exclusive_test secret (inl no_variable) =
    ground (arith, eq_iff secret.variable "", eq_iff secret.literal "")
exclusive_test secret (inr no_literal) = rw no_literal refl

module _ (sys : System) (terminal : Terminal) (fuel : ℕ) where
  -- What a written configuration is, at any place.
  pub record IsReady (c : Config) : Type 0 where
    pub has_id : c.oauth.client_id ≢ ""
    pub port : in_range sys terminal fuel c.oauth.callback_port ≡ true
    pub exclusive : (c.oauth.client_secret_env ≡ "") ⊎ (c.oauth.client_secret ≡ "")
    pub validates :
        (place : String)
        → validate sys (apply_defaults (record c { path = place }))
          ≡ verdict c.oauth.client_secret_env

  abbrev IsFilled : String → Type 0
  IsFilled answer = answer ≢ ""

  unless_empty-Yields :
      (answer : String) (lines : List String) (rest : Result Stop String × List String)
      → Holds IsFilled rest
      → Holds IsFilled (if answer == "" then rest else (ok answer, lines))
  unless_empty-Yields answer lines rest h =
      each_branch (Holds IsFilled) (answer == "") (λ t. h) (λ f e. ground (arith, eq_iff answer ""))

  ask_until-Yields : (n : ℕ) → Yields IsFilled (ask_until n)
  unfolding ask_until
  ask_until-Yields ℕ.zero lines = tt
  ask_until-Yields (suc n) [] = ask_until-Yields n []
  ask_until-Yields (suc n) (line ∷ lines) =
      unless_empty-Yields _ lines (ask_until n lines) (ask_until-Yields n lines)

  ask_secret-Yields : (choice : String) → Yields IsExclusive (ask_secret sys terminal fuel choice)
  ask_secret-Yields choice =
      each_branch (Yields IsExclusive) (choice == "2")
        (λ t.
          >>=-Yields (λ _. Unit {0}) IsExclusive (ask_until fuel) _ (any-Yields (ask_until fuel))
            (λ literal _ lines. inl refl))
        (λ f.
          >>=-Yields (λ _. Unit {0}) IsExclusive (ask _) _ (any-Yields (ask _))
            (λ variable _ lines. inr refl))

  port_of-in_range :
      (text : String) (read : Option ℤ) (port : ℤ)
      → port_of sys terminal fuel text read ≡ ok port
      → in_range sys terminal fuel port ≡ true
  port_of-in_range text none port = λ h. cc
  port_of-in_range text (some p) port =
      each_branch (λ r. r ≡ ok port → in_range sys terminal fuel port ≡ true)
        (in_range sys terminal fuel p)
        (λ t h. subst (λ q. in_range sys terminal fuel q ≡ true) (ap number h) t) (λ f h. cc)

  -- The exclusive secrets that can be written.
  init_config-validates :
      is_http_url (sys.parse_url default_upstream_url) ≡ true
      → (client_id : String) (secret : Secret) (port : ℤ) → client_id ≢ ""
      → IsExclusive secret
      → (place : String)
      → validate sys (apply_defaults (record (init_config client_id secret port) { path = place }))
        ≡ verdict secret.variable
  unfolding validate apply_defaults init_config
  init_config-validates known client_id secret port filled exclusive place =
      last_of_four (is_http_url (sys.parse_url default_upstream_url)) (not (client_id == ""))
        (secret.literal == "" || secret.variable == "")
        (secret.variable == "" || is_env_var_name secret.variable) _ _ _ bad_variable (ok tt) known
        (ground (arith, eq_iff client_id "")) (exclusive_test secret exclusive)

  ready :
      is_http_url (sys.parse_url default_upstream_url) ≡ true
      → (client_id : String) (secret : Secret) (port : ℤ) → client_id ≢ ""
      → IsExclusive secret
      → in_range sys terminal fuel port ≡ true
      → IsReady (init_config client_id secret port)
  unfolding init_config
  ready known client_id secret port filled exclusive inside = record {
    has_id = filled;
    port = inside;
    exclusive = exclusive;
    validates = init_config-validates known client_id secret port filled exclusive;
  }

  after_any :
      {V W : Type 0} (Q : W → Type 0) (m : Dialog V) (f : V → Dialog W)
      → ((v : V) → Yields Q (f v))
      → Yields Q (m >>= f)
  after_any Q m f q = >>=-Yields (λ v. Unit {0}) Q m f (any-Yields m) (λ v _. q v)

  -- If the default URL of the upstream is one with a host, then, on every input, a configuration that
  -- init writes has a client id, a port from 1 to 65535, and not both kinds of secret; and wherever it
  -- stands, with the defaults that Load puts in, it is valid if the secret's variable has a proper name
  -- or none is given, and else refused for that name.
  pub ask_config-IsReady :
      is_http_url (sys.parse_url default_upstream_url) ≡ true
      → Yields IsReady (ask_config sys terminal fuel)
  unfolding ask_config
  ask_config-IsReady known =
      >>=-Yields IsFilled IsReady (ask_until fuel) _ (ask_until-Yields fuel) (λ client_id filled.
        after_any IsReady (ask "1") _ (λ choice.
          >>=-Yields IsExclusive IsReady (ask_secret sys terminal fuel choice) _
            (ask_secret-Yields choice)
            (λ secret exclusive. after_any IsReady (ask "7777") _ (λ text.
              >>=-Yields (λ port. in_range sys terminal fuel port ≡ true) IsReady
                (lift (port_of sys terminal fuel text (terminal.atoi text))) _
                (lift-Yields (λ port. in_range sys terminal fuel port ≡ true) _
                  (port_of-in_range text (terminal.atoi text)))
                (λ port inside lines. ready known client_id secret port filled exclusive inside)))))
