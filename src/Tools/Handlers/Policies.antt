-- ===== src/Tools/Handlers/Policies.antt =====
-- The policy of a call has the resolved work directory for its only root.
use slack_mcp_extender.Base.{String, ◌≡◌, refl, ap, subst, true, List, [], ◌∷◌, arith, All}
use slack_mcp_extender.Base.Result.{Result, ok, err}
use slack_mcp_extender.Filepath.{is_abs}
use slack_mcp_extender.Json.{Codec}
use slack_mcp_extender.Workdir.{Pathguard, Meta, resolve, Failure, refused, failed}
use slack_mcp_extender.Containment.Types.{Policy, Os}
use slack_mcp_extender.Containment.Policy.{RootError, new_policy}
use slack_mcp_extender.Containment.Policy.Canonical.{
  KeepsAbsolute, IsRootOf, AreRootsOf, new_policy_sound,
}
use slack_mcp_extender.Tools.Replies.{ToolResult, error_result, text_result}
use slack_mcp_extender.Tools.Handlers.{InjectedTools, policy_for, policy_in, with_directory}

-- The policy of an accepted work directory.
pub record IsPolicyFor (os : Os) (tools : InjectedTools) (dir : String) (p : Policy) : Type 0 where
  pub root : String
  pub only_root : p.roots ≡ root ∷ []
  pub root_of : IsRootOf os dir root
  pub absolute : All (λ r. is_abs r ≡ true) p.roots
  pub server_dirs : p.server_dirs ≡ tools.server_dirs
  pub allow_hidden : p.allow_hidden ≡ tools.allow_hidden
  pub max_size : p.max_size ≡ tools.max_file_size

single_root :
    (os : Os) (dir : String) (roots : List String)
    → AreRootsOf os (dir ∷ []) roots
    → (root : String) × (roots ≡ root ∷ []) × IsRootOf os dir root
single_root os dir [] h = absurd h
single_root os dir (root ∷ []) (h, _) = (root, refl, h)
single_root os dir (root ∷ next ∷ roots) (_, h) = absurd h

new_policy-IsPolicyFor :
    (os : Os) (tools : InjectedTools) (dir : String) (p : Policy)
    → KeepsAbsolute os
    → new_policy os (dir ∷ []) tools.server_dirs tools.allow_hidden tools.max_file_size ≡ ok p
    → IsPolicyFor os tools dir p
new_policy-IsPolicyFor os tools dir p keeps e =
    let (roots_of, absolute, server_dirs, allow_hidden, max_size) =
      new_policy_sound os (dir ∷ []) tools.server_dirs tools.allow_hidden tools.max_file_size p
        keeps e in
    let (root, only_root, root_of) = single_root os dir p.roots roots_of in
    record {
      root = root;
      only_root = only_root;
      root_of = root_of;
      absolute = absolute;
      server_dirs = server_dirs;
      allow_hidden = allow_hidden;
      max_size = max_size;
    }

with_directory-eq-ok :
    (codec : Codec) (dir found : String) (r : Result RootError Policy) (p : Policy)
    → with_directory codec dir r ≡ ok (found, p)
    → (dir ≡ found) × (r ≡ ok p)
with_directory-eq-ok codec dir found (ok q) p h = ground arith
with_directory-eq-ok codec dir found (err e) p h = cc

policy_in-IsPolicyFor :
    (codec : Codec) (os : Os) (tools : InjectedTools) (r : Result Failure String) (dir : String)
    (p : Policy)
    → KeepsAbsolute os
    → policy_in codec os tools r ≡ ok (dir, p)
    → (r ≡ ok dir) × IsPolicyFor os tools dir p
policy_in-IsPolicyFor codec os tools (ok found) dir p keeps h =
    let (same, e) = with_directory-eq-ok codec found dir _ p h in
    (
      ap ok same,
      subst (λ d. IsPolicyFor os tools d p) same (new_policy-IsPolicyFor os tools found p keeps e),
    )
policy_in-IsPolicyFor codec os tools (err e) dir p keeps h = cc

-- A call that is given a directory and a policy has them from the work directory it names.
pub policy_for-IsPolicyFor :
    (codec : Codec) (os : Os) (pg : Pathguard) (tools : InjectedTools) (arg : String) (meta : Meta)
    (dir : String) (p : Policy)
    → KeepsAbsolute os
    → policy_for codec os pg tools arg meta ≡ ok (dir, p)
    → (resolve pg arg meta tools.server_dirs ≡ ok dir) × IsPolicyFor os tools dir p
unfolding policy_for
policy_for-IsPolicyFor codec os pg tools arg meta dir p keeps h =
    policy_in-IsPolicyFor codec os tools (resolve pg arg meta tools.server_dirs) dir p keeps h

is_error-with_directory :
    (codec : Codec) (dir : String) (r : Result RootError Policy) (refusal : ToolResult)
    → with_directory codec dir r ≡ err refusal
    → refusal.is_error ≡ true
unfolding error_result text_result
is_error-with_directory codec dir (ok p) refusal h = cc
is_error-with_directory codec dir (err e) refusal h = ground arith

is_error-policy_in :
    (codec : Codec) (os : Os) (tools : InjectedTools) (r : Result Failure String)
    (refusal : ToolResult)
    → policy_in codec os tools r ≡ err refusal
    → refusal.is_error ≡ true
unfolding error_result text_result
is_error-policy_in codec os tools (ok dir) refusal h = is_error-with_directory codec dir _ refusal h
is_error-policy_in codec os tools (err (refused e)) refusal h = ground arith
is_error-policy_in codec os tools (err (failed text)) refusal h = ground arith

-- A call that is refused its work directory is told an error.
pub is_error-policy_for :
    (codec : Codec) (os : Os) (pg : Pathguard) (tools : InjectedTools) (arg : String) (meta : Meta)
    (refusal : ToolResult)
    → policy_for codec os pg tools arg meta ≡ err refusal
    → refusal.is_error ≡ true
unfolding policy_for
is_error-policy_for codec os pg tools arg meta refusal h =
    is_error-policy_in codec os tools (resolve pg arg meta tools.server_dirs) refusal h
