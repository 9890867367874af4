-- ===== src/Tests/Containment.antt =====
-- The containment policy on the small disk.
use slack_mcp_extender.Base.{
  String, ◌≡◌, refl, Lacks, ◌≢◌, true, some, [], ◌∷◌, All, arith, eq_iff, inl, inr, ◌==◌,
  Bool-cases, subst, ◌||◌,
}
use slack_mcp_extender.Base.Result.{ok, err}
use slack_mcp_extender.Filepath.{is_abs, clean, rel, join, dir, base}
use slack_mcp_extender.Filepath.Parts.{IsPlain}
use slack_mcp_extender.Workdir.{Pathguard, upload_denied, download_denied, dir_denied, where_is}
use slack_mcp_extender.Containment.Types.{
  Detail, Os, Violation, file_requires_work_dir, dest_dir_requires_work_dir,
}
use slack_mcp_extender.Containment.Policy.{
  sensitive, denied_directory, match_roots, match_root, outside, require_roots, assemble,
  check_hidden, new_policy,
}
use slack_mcp_extender.Containment.Policy.Canonical.{KeepsAbsolute, AreRootsOf, new_policy_sound}
use slack_mcp_extender.Containment.Upload.{resolve}
use slack_mcp_extender.Containment.Upload.Confined.{IsSendable, resolve-IsSendable}
use slack_mcp_extender.Containment.Upload.Oblivious.{
  Agree, IsJudgement, IsDenied, resolve-oblivious,
}
use slack_mcp_extender.Containment.Download.{resolve_new_file, sanitize_filename}
use slack_mcp_extender.Containment.Download.Sanitize.{IsPrintable, sanitize_filename-IsPlain}
use slack_mcp_extender.Containment.Download.Confined.{IsCreatable, resolve_new_file-IsCreatable}
use slack_mcp_extender.Containment.Download.Oblivious.{
  Agree as AgreeOnTarget, IsDenied as IsDeniedTarget, resolve_new_file-oblivious,
}
use slack_mcp_extender.Tests.World.{disk, guard, policy}

unfoldable pub containment : Unit {0}
unfolding resolve resolve_new_file sensitive denied_directory match_roots match_root outside
    require_roots assemble check_hidden upload_denied download_denied dir_denied where_is new_policy
    rel join dir sanitize_filename
containment = tt

filepath :
    (clean "/a/../../etc//./x" ≡ "/etc/x")
    × (clean "a/.." ≡ ".")
    × (clean "../a/../.." ≡ "../..")
    × (join "/w" "../x" ≡ "/x")
    × (dir "/w/a.txt" ≡ "/w")
    × (base "/w/a//" ≡ "a")
    × (rel "/w" "/w/a/b" ≡ some "a/b")
    × (rel "/w/c" "/w/a" ≡ some "../a")
unfolding containment base
filepath = (refl, refl, refl, refl, refl, refl, refl, refl)

sent : resolve disk guard policy "/w" "x/../a.txt" ≡ ok "/w/a.txt"
unfolding containment
sent = refl

created : resolve_new_file disk guard policy "/w" "." "../b.txt" ≡ ok "/w/b.txt"
unfolding containment
created = refl

rooted : All (λ r. is_abs r ≡ true) policy.roots
unfolding is_abs
rooted = (refl, tt)

resolve-IsSendable_example :
    (raw : String) × (assemble policy "/w" "x/../a.txt" (file_requires_work_dir "x/../a.txt")
      ≡ ok raw)
    × IsSendable disk guard policy raw "/w/a.txt"
resolve-IsSendable_example =
    resolve-IsSendable disk guard policy "/w" "x/../a.txt" "/w/a.txt" rooted sent

policy_built :
    new_policy disk ("/w/" ∷ []) policy.server_dirs policy.allow_hidden policy.max_size ≡ ok policy
unfolding containment
policy_built = refl

-- Whatever the small disk resolves is absolute.
pub disk-KeepsAbsolute : KeepsAbsolute disk
disk-KeepsAbsolute path resolved a e = elim (Bool-cases (path == "/w" || path == "/w/a.txt")) [
  | inl found ↦ let same : path ≡ resolved = ground arith in subst (λ q. is_abs q ≡ true) same a
  | inr missing ↦ ground arith
]

new_policy_sound_example :
    AreRootsOf disk ("/w/" ∷ []) policy.roots
    × All (λ r. is_abs r ≡ true) policy.roots
    × (policy.server_dirs ≡ policy.server_dirs)
    × (policy.allow_hidden ≡ policy.allow_hidden)
    × (policy.max_size ≡ policy.max_size)
new_policy_sound_example =
    new_policy_sound disk ("/w/" ∷ []) policy.server_dirs policy.allow_hidden policy.max_size policy
      disk-KeepsAbsolute policy_built

key_assembled :
    assemble policy "/w" ".ssh/id_rsa" (file_requires_work_dir ".ssh/id_rsa") ≡ ok "/w/.ssh/id_rsa"
unfolding containment
key_assembled = refl

sentence : ◌≢◌ {A = String} "it is a credential file" ""
sentence = ground (arith, eq_iff "it is a credential file" "")

key-IsDenied : IsDenied guard policy "/w/.ssh/id_rsa" (where_is guard (clean "/w/.ssh/id_rsa"))
unfolding containment
key-IsDenied = inl sentence

some_root : policy.roots ≢ []
some_root e = cc

resolve-oblivious_example :
    (v : Violation) × IsJudgement v
    × ((os : Os) (pg : Pathguard)
        → Agree guard pg policy "/w/.ssh/id_rsa"
        → resolve os pg policy "/w" ".ssh/id_rsa" ≡ err v)
resolve-oblivious_example =
    resolve-oblivious guard policy "/w" ".ssh/id_rsa" "/w/.ssh/id_rsa" rooted some_root
      key_assembled key-IsDenied

-- A name that Slack supplies cannot leave the directory.
name_sanitized : sanitize_filename "..\\..\\etc/b.txt" ≡ ok "b.txt"
unfolding containment
name_sanitized = refl

name_refused : (v : Detail) × (sanitize_filename "a/.." ≡ err v)
unfolding containment
name_refused = (_, refl)

sanitize_filename-IsPlain_example : IsPlain "b.txt" × Lacks 0x5c "b.txt" × IsPrintable "b.txt"
sanitize_filename-IsPlain_example =
    sanitize_filename-IsPlain "..\\..\\etc/b.txt" "b.txt" name_sanitized

resolve_new_file-IsCreatable_example :
    (raw name : String) × (assemble policy "/w" "." (dest_dir_requires_work_dir ".") ≡ ok raw)
    × (sanitize_filename "../b.txt" ≡ ok name)
    × IsCreatable disk guard policy raw name "/w/b.txt"
resolve_new_file-IsCreatable_example =
    resolve_new_file-IsCreatable disk guard policy "/w" "." "../b.txt" "/w/b.txt" rooted created

ssh_assembled : assemble policy "/w" ".ssh" (dest_dir_requires_work_dir ".ssh") ≡ ok "/w/.ssh"
unfolding containment
ssh_assembled = refl

id_rsa_sanitized : sanitize_filename "id_rsa" ≡ ok "id_rsa"
unfolding containment
id_rsa_sanitized = refl

target-IsDenied : IsDeniedTarget guard policy "/w/.ssh" "id_rsa" (where_is guard (clean "/w/.ssh"))
unfolding containment
target-IsDenied = inl sentence

resolve_new_file-oblivious_example :
    (v : Violation) × IsJudgement v
    × ((os : Os) (pg : Pathguard)
        → AgreeOnTarget guard pg policy "/w/.ssh" "id_rsa"
        → resolve_new_file os pg policy "/w" ".ssh" "id_rsa" ≡ err v)
resolve_new_file-oblivious_example =
    resolve_new_file-oblivious guard policy "/w" ".ssh" "id_rsa" "/w/.ssh" "id_rsa" rooted some_root
      id_rsa_sanitized ssh_assembled target-IsDenied
