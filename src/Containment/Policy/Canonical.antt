-- ===== src/Containment/Policy/Canonical.antt =====
-- `NewPolicy` accepts only absolute roots, and keeps each as the file system resolves it.
use slack_mcp_extender.Base.{String, ◌≡◌, refl, subst, Bool, true, List, [], ◌∷◌, arith, All}
use slack_mcp_extender.Base.Int.{ℤ}
use slack_mcp_extender.Base.Result.{Result, ok, err, ◌>>=◌, guard->>-eq-ok, >>=-eq-ok}
use slack_mcp_extender.Filepath.{is_abs, clean}
use slack_mcp_extender.Filepath.Parts.{is_abs-clean}
use slack_mcp_extender.Containment.Types.{Os, FileInfo, Policy}
use slack_mcp_extender.Containment.Policy.{
  RootError, at_root, canonical_root, canonical_roots, new_policy,
}

-- Documented of `filepath.EvalSymlinks`: an absolute path is resolved to an absolute path.
abbrev pub KeepsAbsolute : Os → Type 0
KeepsAbsolute os =
    (path resolved : String)
    → is_abs path ≡ true
    → os.eval_symlinks path ≡ ok resolved
    → is_abs resolved ≡ true

at_root->>=-eq-ok :
    {A B : Type 0} (root : String) (r : Result String A) (f : A → Result RootError B) {b : B}
    → (at_root root r >>= f) ≡ ok b
    → (a : A) × (r ≡ ok a) × (f a ≡ ok b)
at_root->>=-eq-ok root (ok a) f h = (a, refl, h)
at_root->>=-eq-ok root (err e) f h = cc

-- A directory that a configured root names.
abbrev pub IsRootOf : Os → String → String → Type 0
IsRootOf os root resolved =
    (is_abs root ≡ true)
    × (os.eval_symlinks (clean root) ≡ ok resolved)
    × ((fi : FileInfo) × (os.stat resolved ≡ ok fi) × (fi.is_dir ≡ true))

canonical_root_sound :
    (os : Os) (root resolved : String)
    → canonical_root os root ≡ ok resolved
    → IsRootOf os root resolved
unfolding canonical_root
canonical_root_sound os root resolved h =
    let (a, h₁) = guard->>-eq-ok (is_abs root) _ _ h in
    let (found, e, h₂) = at_root->>=-eq-ok root (os.eval_symlinks (clean root)) _ h₁ in
    let (fi, stated, h₃) = at_root->>=-eq-ok root (os.stat found) _ h₂ in
    let (d, h₄) = guard->>-eq-ok fi.is_dir _ _ h₃ in
    let same : found ≡ resolved = cc in subst (λ r. IsRootOf os root r) same (a, e, (fi, stated, d))

-- Each root of one list is a directory that the root at its place in the other names.
abbrev pub AreRootsOf : Os → List String → List String → Type 0
AreRootsOf os [] [] = Unit
AreRootsOf os (root ∷ roots) (resolved ∷ more) =
    IsRootOf os root resolved × AreRootsOf os roots more
AreRootsOf os _ _ = ⊥

canonical_roots_sound :
    (os : Os) (roots found : List String)
    → canonical_roots os roots ≡ ok found
    → AreRootsOf os roots found
unfolding canonical_roots
canonical_roots_sound os [] [] h = tt
canonical_roots_sound os [] (_ ∷ _) h = cc
canonical_roots_sound os (root ∷ roots) found h =
    let (resolved, e, h₁) = >>=-eq-ok (canonical_root os root) _ h in
    let (more, f, h₂) = >>=-eq-ok (canonical_roots os roots) _ h₁ in
    let same : resolved ∷ more ≡ found = cc in
    subst (λ l. AreRootsOf os (root ∷ roots) l) same
      (canonical_root_sound os root resolved e, canonical_roots_sound os roots more f)

all_absolute :
    (os : Os) (roots found : List String)
    → KeepsAbsolute os
    → AreRootsOf os roots found
    → All (λ r. is_abs r ≡ true) found
all_absolute os [] [] keeps h = tt
all_absolute os (root ∷ roots) (resolved ∷ more) keeps ((a, e, _), h) =
    (keeps (clean root) resolved (is_abs-clean root a) e, all_absolute os roots more keeps h)
all_absolute os [] (_ ∷ _) keeps h = absurd h
all_absolute os (_ ∷ _) [] keeps h = absurd h

-- The policy's roots are the resolved configured roots, each an existing directory, and all are
-- absolute; the other settings are kept.
pub new_policy_sound :
    (os : Os) (roots server_dirs : List String) (allow_hidden : Bool) (max_size : ℤ) (p : Policy)
    → KeepsAbsolute os
    → new_policy os roots server_dirs allow_hidden max_size ≡ ok p
    → AreRootsOf os roots p.roots
      × All (λ r. is_abs r ≡ true) p.roots
      × (p.server_dirs ≡ server_dirs)
      × (p.allow_hidden ≡ allow_hidden)
      × (p.max_size ≡ max_size)
unfolding new_policy
new_policy_sound os roots server_dirs allow_hidden max_size p keeps h =
    let (found, e, h₁) = >>=-eq-ok (canonical_roots os roots) _ h in
    let named : AreRootsOf os roots found = canonical_roots_sound os roots found e in
    let same : found ≡ p.roots = ground arith in
    (
      subst (λ l. AreRootsOf os roots l) same named,
      subst (λ l. All (λ r. is_abs r ≡ true) l) same (all_absolute os roots found keeps named),
      ground arith,
      ground arith,
      ground arith,
    )
