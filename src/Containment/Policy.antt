-- ===== src/Containment/Policy.antt =====
-- The policy, and the judgements that both directions make.
pub mod Roots
pub mod Hidden
pub mod Canonical
use slack_mcp_extender.Base.{
  String, ◌≡◌, ◌≢◌, refl, Bool, true, false, ◌&&◌, not, Option, none, some, List, [], ◌∷◌,
  if◌then◌else◌, ◌==◌, has_prefix,
}
use slack_mcp_extender.Base.Int.{ℤ}
use slack_mcp_extender.Base.Result.{Result, ok, err, ◌>>=◌, ◌>>◌, guard}
use slack_mcp_extender.Filepath.{is_abs, clean, join, rel, split_slash}
use slack_mcp_extender.Filepath.Rel.{leads_out}
use slack_mcp_extender.Workdir.{Pathguard, dir_denied}
use slack_mcp_extender.Containment.Types.{
  Detail, Violation, Policy, FileInfo, Os, no_root_configured, work_dir_must_be_absolute,
  refused_path, denied_dir, hidden, reason_no_roots, reason_not_absolute, reason_outside_roots,
  reason_sensitive_path, reason_hidden_component,
}

-- Why `NewPolicy` refuses a root.
pub data RootError : Type 0 where
  not_absolute not_directory : String → RootError
  unresolved : String → String → RootError

-- `fmt.Errorf("allowed root %q: %w", root, err)`
abbrev pub at_root {ℓ} : {A : Type ℓ} → String → Result String A → Result RootError A
at_root root (ok a) = ok a
at_root root (err e) = err (unresolved root e)

unfoldable pub canonical_root : Os → String → Result RootError String
canonical_root os root = do
  guard (is_abs root) (not_absolute root)
  resolved ← at_root root (os.eval_symlinks (clean root))
  fi ← at_root root (os.stat resolved)
  guard fi.is_dir (not_directory root)
  ok resolved

unfoldable pub canonical_roots : Os → List String → Result RootError (List String)
canonical_roots os [] = ok []
canonical_roots os (root ∷ roots) = do
  resolved ← canonical_root os root
  more ← canonical_roots os roots
  ok (resolved ∷ more)

unfoldable pub new_policy : Os → List String → List String → Bool → ℤ → Result RootError Policy
unfolding canonical_roots canonical_root
new_policy os roots server_dirs allow_hidden max_size = do
  canonical ← canonical_roots os roots
  ok (record {
    roots = canonical;
    server_dirs = server_dirs;
    allow_hidden = allow_hidden;
    max_size = max_size;
  })

-- A direction's judgement of a path as named and as placed: pathguard's reason and sentence.
abbrev pub Deny : Type 0
Deny = String → String → List String → String × String

abbrev pub forbid : Option Violation → Result Violation (Unit {0})
forbid none = ok tt
forbid (some v) = err v

pub forbid->>-eq-ok {ℓ} :
    {A : Type ℓ} (o : Option Violation) (m : Result Violation A) {a : A}
    → (forbid o >> m) ≡ ok a
    → (o ≡ none) × (m ≡ ok a)
forbid->>-eq-ok none m h = (refl, h)
forbid->>-eq-ok (some v) m h = cc

abbrev refusal : Policy → String → String → String → String → Violation
refusal p raw resolved reason why =
    let named = if reason == "unresolvable_path" then raw else resolved in
    record {
      reason = reason_sensitive_path;
      path = named;
      roots = p.roots;
      detail = refused_path named why;
      floor = reason;
    }

unfoldable pub sensitive : Policy → String → String → Deny → Option Violation
sensitive p raw resolved deny =
    let (reason, why) = deny raw resolved p.server_dirs in
    if why == "" then none else some (refusal p raw resolved reason why)

unfoldable pub denied_directory : Pathguard → Policy → String → String → Option Violation
denied_directory pg p dir path =
    let (reason, why) = dir_denied pg dir p.server_dirs in
    if why == ""
    then none
    else some (record {
      reason = reason_sensitive_path;
      path = path;
      roots = p.roots;
      detail = denied_dir why;
      floor = reason;
    })

-- Whether the loop of `matchRoot` takes a root, from the answer of `Rel`.
abbrev pub accepts : Bool → Option String → Bool
accepts allow_root none = false
accepts allow_root (some way) = not (leads_out way) && not (way == "." && not allow_root)

unfoldable pub match_roots : List String → String → Bool → String
match_roots [] path allow_root = ""
match_roots (root ∷ roots) path allow_root =
    let later = match_roots roots path allow_root in
    if accepts allow_root (rel root path) then root else later

unfoldable pub match_root : Policy → String → Bool → String
match_root p path allow_root = match_roots p.roots path allow_root

unfoldable pub outside : Policy → String → Detail → Violation
outside p path detail = record {
  reason = reason_outside_roots;
  path = path;
  roots = p.roots;
  detail = detail;
  floor = "";
}

-- `len(p.roots) == 0`
unfoldable pub require_roots : Policy → String → Result Violation (Unit {0})
require_roots p named = elim p.roots [
  | [] ↦ err (record {
    reason = reason_no_roots;
    path = named;
    roots = [];
    detail = no_root_configured;
    floor = "";
  })
  | _ ∷ _ ↦ ok tt
]

roots-ne-nil :
    (roots : List String) (v : Violation)
    → roots ≢ []
    → (elim roots as (λ _. Result Violation (Unit {0})) [ [] ↦ err v | _ ∷ _ ↦ ok tt ]) ≡ ok tt
roots-ne-nil [] v h = absurd (h refl)
roots-ne-nil (root ∷ roots) v h = refl

pub require_roots-eq-ok :
    (p : Policy) (named : String) → p.roots ≢ [] → require_roots p named ≡ ok tt
unfolding require_roots
require_roots-eq-ok p named h = roots-ne-nil p.roots _ h

-- The path that the arguments name: as it is, or relative to the work directory.
unfoldable pub assemble : Policy → String → String → Detail → Result Violation String
assemble p work_dir named relative =
    let not_absolute_at = λ (path : String) (detail : Detail).
      let v : Violation = record {
        reason = reason_not_absolute;
        path = path;
        roots = p.roots;
        detail = detail;
        floor = "";
      } in
      v in
    if is_abs named
    then ok named
    else if work_dir == ""
    then err (not_absolute_at named relative)
    else if is_abs work_dir
    then ok (join work_dir named)
    else err (not_absolute_at work_dir (work_dir_must_be_absolute work_dir))

-- The first component that begins with a dot.
abbrev pub first_hidden : List String → Option String
first_hidden [] = none
first_hidden (component ∷ components) =
    let later = first_hidden components in
    if has_prefix component "." then some component else later

-- `rel, _ := filepath.Rel(…)`: "" where it fails.
abbrev pub way_or_empty : Option String → String
way_or_empty none = ""
way_or_empty (some way) = way

abbrev pub no_hidden : Policy → String → Option String → Result Violation (Unit {0})
no_hidden p path none = ok tt
no_hidden p path (some component) = err (record {
  reason = reason_hidden_component;
  path = path;
  roots = p.roots;
  detail = hidden component;
  floor = "";
})

unfoldable pub check_hidden : Policy → String → String → Result Violation (Unit {0})
check_hidden p root path =
    if p.allow_hidden
    then ok tt
    else no_hidden p path (first_hidden (split_slash (way_or_empty (rel root path))))
