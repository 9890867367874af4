-- ===== src/Config/Lookup.antt =====
-- `ResolveConfigArg` and `DefaultScopes`.
pub mod Found
use slack_mcp_extender.Base.{
  String, ◌<>◌, Bool, false, ◌||◌, not, List, [], ◌∷◌, ◌++◌, any, if◌then◌else◌, ◌==◌, eqb, code,
}
use Prim.Native.String.{[], ◌∷◌}
use slack_mcp_extender.Base.Result.{Result, err, ok}
use slack_mcp_extender.Filepath.{join}
use slack_mcp_extender.Config.Types.{System}
use slack_mcp_extender.Config.Load.{extension, default_config_dir}

-- `strings.ContainsRune(arg, os.PathSeparator)`
unfoldable pub has_separator : String → Bool
has_separator [] = false
has_separator (c ∷ s) = eqb (code c) b'/' || has_separator s

unfoldable pub candidates : String → String → List String
unfolding extension join
candidates arg d =
    join d arg ∷ (if not (extension arg == ".json") then join d (arg <> ".json") ∷ [] else [])

-- `strings.Join(candidates, ", ")`
abbrev pub listed : List String → String
listed [] = ""
listed (c ∷ []) = c
listed (c ∷ next ∷ cs) = c <> (", " <> listed (next ∷ cs))

-- `exists` tells where `os.Stat` gives no error.
module _ (sys : System) (exists : String → Bool) where
  abbrev pub first_existing : List String → String → Result String String
  first_existing [] e = err e
  first_existing (c ∷ cs) e = let rest = first_existing cs e in if exists c then ok c else rest

  abbrev pub in_default_dir : String → Result String String → Result String String
  in_default_dir arg (err e) = err ("resolve config " <> (sys.quote arg <> (": " <> e)))
  in_default_dir arg (ok d) = first_existing (candidates arg d) (
      "config "
      <> (sys.quote arg
          <> (" not found (looked in the current directory and "
              <> (listed (candidates arg d) <> ")"))))

  unfoldable pub resolve_config_arg : String → Result String String
  unfolding has_separator candidates default_config_dir
  resolve_config_arg arg =
      if has_separator arg
      then ok arg
      else (if exists arg then ok arg else in_default_dir arg (default_config_dir sys))

abbrev pub default_scopes : List String
default_scopes =
    "canvases:read" ∷ "canvases:write" ∷ "channels:history" ∷ "channels:read" ∷ "channels:write"
    ∷ "chat:write" ∷ "emoji:read" ∷ "files:read" ∷ "files:write" ∷ "groups:history" ∷ "groups:read"
    ∷ "groups:write" ∷ "im:history" ∷ "im:read" ∷ "im:write" ∷ "mpim:history" ∷ "mpim:read"
    ∷ "mpim:write" ∷ "reactions:write" ∷ "search:read" ∷ "search:read.files" ∷ "search:read.im"
    ∷ "search:read.mpim" ∷ "search:read.private" ∷ "search:read.public" ∷ "search:read.users"
    ∷ "users:read" ∷ "users:read.email" ∷ []
