-- ===== src/Workdir.antt =====
-- internal/workdir/workdir.go: the adapter onto the module nlink-jp/pathguard. That module is not
-- part of the repository, so it is the parameter `Pathguard`.
use slack_mcp_extender.Base.{String, ◌||◌, Option, none, some, List, map, if◌then◌else◌, ◌==◌}
use slack_mcp_extender.Base.Result.{Result}
use slack_mcp_extender.Json.{Json, lookup, text_of}

-- A request's `_meta` object.
abbrev pub Meta : Type 0
Meta = List (String × Json)

-- pathguard's `workdir.Error`
pub record Refusal : Type 0 where
  pub code : String
  pub message : String
  pub details : List (String × Json)

-- An error that pathguard returns: a refusal, or another error with its text.
pub data Failure : Type 0 where
  refused : Refusal → Failure
  failed : String → Failure

-- What the program calls of pathguard. A verdict is a reason and a sentence, both "" if the path
-- is not denied; `place` is `pathguard.Where`, which has no answer for a path that does not resolve.
pub record Pathguard : Type 1 where
  pub Place : Type 0
  pub Resolver : Type 0
  pub server_dir : String → String → Place
  pub new_resolver : List Place → String → Resolver
  pub resolve : Resolver → String → Meta → Result Failure String
  pub validate : Resolver → String → Result Failure String
  pub outbound_path : Resolver → String → String → String × String
  pub local_path : Resolver → String → String → String × String
  pub check_beneath : Resolver → String → Option Failure
  pub place : String → Option String

abbrev pub required_hint : String
required_hint = "Uploads are taken from it and downloads land in it."

abbrev pub server_dir_reason : String
server_dir_reason = "which holds its configuration and its OAuth tokens"

module _ (pg : Pathguard) where
  unfoldable pub resolver : List String → pg.Resolver
  resolver server_dirs =
      pg.new_resolver (map (λ d. pg.server_dir d server_dir_reason) server_dirs) required_hint

  unfoldable pub resolve : String → Meta → List String → Result Failure String
  resolve arg meta server_dirs = pg.resolve (resolver server_dirs) arg meta

  unfoldable pub validate : String → List String → Result Failure String
  validate dir server_dirs = pg.validate (resolver server_dirs) dir

  unfoldable pub upload_denied : String → String → List String → String × String
  upload_denied raw resolved server_dirs = pg.outbound_path (resolver server_dirs) raw resolved

  unfoldable pub download_denied : String → String → List String → String × String
  download_denied raw resolved server_dirs = pg.local_path (resolver server_dirs) raw resolved

  -- `Where`: the path itself if pathguard has no answer.
  unfoldable pub where_is : String → String
  where_is path = elim (pg.place path) [ some found ↦ found | none ↦ path ]

  -- The verdict of `DirDenied` on what `CheckBeneath` returns.
  abbrev dir_verdict : Option Failure → String × String
  dir_verdict none = ("", "")
  dir_verdict (some (failed text)) = ("", "")
  dir_verdict (some (refused e)) =
      let reason = text_of (lookup "reason" e.details) in
      if reason == "sensitive_path" || reason == "server_dir" then ("", "") else (reason, e.message)

  unfoldable pub dir_denied : String → List String → String × String
  dir_denied dir server_dirs = dir_verdict (pg.check_beneath (resolver server_dirs) dir)
