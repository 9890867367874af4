-- ===== src/App/Init/Loaded.antt =====
-- What `init` leaves where the configuration that it wrote is read back.
use slack_mcp_extender.Base.{
  ℕ, String, ◌<>◌, ◌≡◌, refl, ap, subst, ◌∙◌, Bool, true, false, ◌||◌, eqb, none, some, List,
  if◌then◌else◌, ◌==◌,
}
use Prim.Native.Nat.{◌%◌}
use slack_mcp_extender.Base.Result.{err, ok}
use slack_mcp_extender.Base.Yields.{Holds}
use slack_mcp_extender.Config.Types.{Config, System}
use slack_mcp_extender.Config.Validate.{is_env_var_name, is_http_url, validate}
use slack_mcp_extender.Config.Load.{default_upstream_url, apply_defaults, wrapped, validated, load}
use slack_mcp_extender.App.Init.{
  Terminal, Outcome, after_load, success, failure, ask_config, write_config,
}
use slack_mcp_extender.App.Init.Written.{IsReady, bad_variable, verdict, ask_config-IsReady}

-- The file that was written is read back as the configuration that was.
pub record ReadsBack (sys : System) (path : String) (c : Config) : Type 0 where
  pub mode : sys.permissions path ≡ ok 384
  pub text : String
  pub opened : sys.open_file path ≡ ok text
  pub decoded : sys.decode text ≡ ok (c, false)
  pub place : String
  pub absolute : sys.abs path ≡ ok place

readable-384 : (windows : Bool) → (windows || eqb (384 % 64) 0) ≡ true
readable-384 true = refl
readable-384 false = refl

module _ (sys : System) (terminal : Terminal) (fuel : ℕ) (path : String) (c : Config) where
  -- The file is there, and is reported as one that cannot be loaded.
  abbrev pub refusal : Outcome sys terminal fuel
  refusal = failure sys terminal fuel (some (path, c)) (
      "init: wrote "
      <> (path
          <> (" but it fails to load: "
              <> ("config " <> (sys.quote path <> (": " <> bad_variable))))))

  asked-IsReady :
      (lines rest : List String)
      → is_http_url (sys.parse_url default_upstream_url) ≡ true
      → ask_config sys terminal fuel lines ≡ (ok c, rest)
      → IsReady sys terminal fuel c
  asked-IsReady lines rest known asked =
      subst (Holds (IsReady sys terminal fuel)) asked
        (ask_config-IsReady sys terminal fuel known lines)

module _ (sys : System) (terminal : Terminal) (fuel : ℕ) (path : String) (c : Config)
    (reads : ReadsBack sys path c) where
  abbrev with_place : Config
  with_place = record c { path = reads.place }

  load-validated :
      load sys path
      ≡ wrapped sys path
          (validated sys (apply_defaults with_place) (validate sys (apply_defaults with_place)))
  unfolding load
  load-validated =
      rw (reads.mode, readable-384 sys.windows, reads.opened, reads.decoded, reads.absolute) refl

  load-verdict :
      IsReady sys terminal fuel c
      → load sys path
        ≡ wrapped sys path
            (validated sys (apply_defaults with_place) (verdict c.oauth.client_secret_env))
  load-verdict is_ready =
      load-validated
      ∙ ap (λ v. wrapped sys path (validated sys (apply_defaults with_place) v))
          (is_ready.validates reads.place)

  -- If the default URL of the upstream is one with a host, a configuration that init's questions gave
  -- is written to a disk that takes the file, and the file is read back as that configuration, with
  -- its owner's permissions only and an absolute path, then Load accepts it and the exit code is 0 if
  -- the secret's variable is empty or has a proper name. Else the exit code is 2, and the file that no
  -- command loads stays.
  pub write_config-verdict :
      (lines rest : List String)
      → is_http_url (sys.parse_url default_upstream_url) ≡ true
      → ask_config sys terminal fuel lines ≡ (ok c, rest)
      → terminal.marshal_error c ≡ none
      → terminal.mkdir_error ≡ none
      → terminal.write_error ≡ none
      → write_config sys terminal fuel path c ≡ (
          if c.oauth.client_secret_env == "" || is_env_var_name c.oauth.client_secret_env
          then success sys terminal fuel (some (path, c))
          else refusal sys terminal fuel path c)
  unfolding write_config
  write_config-verdict lines rest known asked m d w =
      rw (m, d, w, load-verdict (asked-IsReady sys terminal fuel path c lines rest known asked))
        (by_test (c.oauth.client_secret_env == "" || is_env_var_name c.oauth.client_secret_env))
    where
      by_test :
          (test : Bool)
          → after_load sys terminal fuel path c (
              wrapped sys path (
                validated sys
                  (apply_defaults with_place)
                  (if test then ok tt else err bad_variable)))
            ≡ (if test
                then success sys terminal fuel (some (path, c))
                else refusal sys terminal fuel path c)
      by_test true = refl
      by_test false = refl
