-- ===== src/App/Mcp/Guarded.antt =====
-- What a proxy that `mcp` puts together rests on.
use slack_mcp_extender.Base.{
  String, ◌≡◌, ◌≢◌, refl, ap, subst, ◌∙◌, not, List, [], ◌∷◌, ◌++◌, In, inl, inr, each_branch, ◌==◌,
  eq_iff, arith,
}
use slack_mcp_extender.Base.Result.{
  Result, err, ok, wrapped, wrapped-eq-ok, >>=-eq-ok, guard->>-eq-ok,
}
use slack_mcp_extender.Filepath.{join, dir}
use slack_mcp_extender.Config.Types.{Config, System}
use slack_mcp_extender.Config.Load.{load, server_owned_dirs}
use slack_mcp_extender.Config.Load.Usable.{IsUsable, IsPositive, load-IsUsable}
use slack_mcp_extender.Transport.Tokenfile.{StoredTokens, StateDir, Disk, load_tokens}
use slack_mcp_extender.Transport.Tokens.{Provider, new_provider}
use slack_mcp_extender.App.Commands.{Shell, parse_config_flag}
use slack_mcp_extender.App.Mcp.{Built, built_of, build_proxy, start_mcp}

abbrev built_in : Built → Result String Built → Built
built_in other (err e) = other
built_in other (ok b) = b

module _ (sys : System) (disk : Disk) (dirs : String → StateDir) where
  -- Built from a configuration that `Load` returns, whose directories the tools take for their server's, with the
  -- tokens that are stored.
  pub record IsGuarded (shell : Shell) (args : List String) (built : Built) : Type 0 where
    pub path : String
    pub named : parse_config_flag sys shell "mcp" args ≡ ok path
    pub c : Config
    pub loaded : load sys path ≡ ok c
    pub usable : IsUsable sys path c
    pub capped : IsPositive built.tools.max_file_size
    pub timed : IsPositive built.timeout_ms
    pub server_dirs : built.tools.server_dirs ≡ server_owned_dirs sys c
    pub own_dir :
        (place : String)
        → c.path ≢ ""
        → sys.abs c.path ≡ ok place
        → In (dir place) built.tools.server_dirs
    pub state_dir :
        (place : String)
        → c.state_dir ≢ ""
        → sys.abs c.state_dir ≡ ok place
        → In place built.tools.server_dirs
    pub stored : load_tokens disk (dirs c.state_dir) ≡ ok built.provider.tokens
    pub audited : built.audit_path ≡ join c.state_dir "audit.jsonl"

  In-append_left : (x : String) (xs ys : List String) → In x xs → In x (xs ++ ys)
  In-append_left x (y ∷ xs) ys (inl e) = inl e
  In-append_left x (y ∷ xs) ys (inr i) = inr (In-append_left x xs ys i)
  In-append_left x [] ys i = absurd i

  In-append_right : (x : String) (xs ys : List String) → In x ys → In x (xs ++ ys)
  In-append_right x [] ys i = i
  In-append_right x (y ∷ xs) ys i = inr (In-append_right x xs ys i)

  own_dir-In :
      (c : Config) (place : String)
      → c.path ≢ ""
      → sys.abs c.path ≡ ok place
      → In (dir place) (server_owned_dirs sys c)
  unfolding server_owned_dirs
  own_dir-In c place n h = In-append_right (dir place) _ _ (
      In-append_left (dir place) _ _ (
        each_branch (λ l. In (dir place) l) (c.path == "")
          (λ t. n (ground (arith, eq_iff c.path ""))) (λ f. rw h (inl refl))))

  state_dir-In :
      (c : Config) (place : String)
      → c.state_dir ≢ ""
      → sys.abs c.state_dir ≡ ok place
      → In place (server_owned_dirs sys c)
  unfolding server_owned_dirs
  state_dir-In c place n h = In-append_left place _ _ (
      each_branch (λ l. In place l) (c.state_dir == "")
        (λ t. n (ground (arith, eq_iff c.state_dir ""))) (λ f. rw h (inl refl)))

  abbrev provider_tokens : Result String Provider → Result String StoredTokens
  provider_tokens (err e) = err e
  provider_tokens (ok p) = ok p.tokens

  new_provider-stored :
      (d : StateDir) (p : Provider) → new_provider disk d ≡ ok p → load_tokens disk d ≡ ok p.tokens
  unfolding new_provider
  new_provider-stored d p h =
      let (tokens, loaded, made) = >>=-eq-ok (wrapped _ (load_tokens disk d)) _ h in
      wrapped-eq-ok _ (load_tokens disk d) tokens loaded ∙ ap provider_tokens made

  guarded :
      (shell : Shell) (args : List String) (path : String) (c : Config) (built : Built)
      → parse_config_flag sys shell "mcp" args ≡ ok path
      → load sys path ≡ ok c
      → build_proxy sys disk c (dirs c.state_dir) ≡ ok built
      → IsGuarded shell args built
  unfolding build_proxy
  guarded shell args path c built named loaded h =
      let usable = load-IsUsable sys path c loaded in
      let (provider, made, h1) = >>=-eq-ok (new_provider disk (dirs c.state_dir)) _ h in
      let (_, h2) = guard->>-eq-ok (not (c.upstream_url == "")) _ _ h1 in
      subst (IsGuarded shell args) (ap (built_in (built_of sys disk c provider)) h2) (record {
        path = path;
        c = c;
        named = named;
        loaded = loaded;
        usable = usable;
        capped = usable.capped;
        timed = usable.timed;
        server_dirs = refl;
        own_dir = own_dir-In c;
        state_dir = state_dir-In c;
        stored = new_provider-stored (dirs c.state_dir) provider made;
        audited = refl;
      })

  -- A proxy that mcp puts together comes from the configuration that Load returns for the path that
  -- --config stands for, and that is usable: its tools have a positive size cap, and take for the
  -- server's own the absolute form of the state directory and the directory of the configuration, if
  -- these have a path; it has a positive time limit, the tokens that are stored, and its log in the
  -- state directory.
  pub start_mcp-IsGuarded :
      (shell : Shell) (args : List String) (built : Built)
      → start_mcp sys disk shell dirs args ≡ ok built
      → IsGuarded shell args built
  unfolding start_mcp
  start_mcp-IsGuarded shell args built h =
      let (path, named, h1) = >>=-eq-ok (parse_config_flag sys shell "mcp" args) _ h in
      let (c, loaded, h2) = >>=-eq-ok (load sys path) _ h1 in
      guarded shell args path c built named loaded h2
