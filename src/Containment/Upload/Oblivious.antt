-- ===== src/Containment/Upload/Oblivious.antt =====
-- The answer to a path that the judgements deny rests on pathguard alone, and not on the policy's
-- own reads of the disk.
use slack_mcp_extender.Base.{
  String, ◌≡◌, ◌≢◌, refl, ◌∙◌, true, false, [], arith, All, All-In, ◌⊎◌, inl, inr,
}
use slack_mcp_extender.Base.Result.{ok, err, Result-cases}
use slack_mcp_extender.Filepath.{is_abs, clean, dir}
use slack_mcp_extender.Filepath.Rel.{IsWithin}
use slack_mcp_extender.Workdir.{Pathguard, upload_denied, dir_denied, where_is}
use slack_mcp_extender.Containment.Types.{
  Policy, Os, Violation, file_requires_work_dir, reason_sensitive_path, reason_outside_roots,
}
use slack_mcp_extender.Containment.Policy.{
  sensitive, denied_directory, outside, require_roots-eq-ok, assemble,
}
use slack_mcp_extender.Containment.Upload.{judge_source, resolve}
use slack_mcp_extender.Containment.Upload.Confined.{IsJudged, judge_source-IsJudged}

-- The floor refuses the place, it lies below no root, or its directory is denied.
abbrev pub IsDenied : Pathguard → Policy → String → String → Type 0
IsDenied pg p raw path =
    ((upload_denied pg (clean raw) path p.server_dirs).1 ≢ "")
    ⊎ All (λ r. ¬ IsWithin false r path) p.roots
    ⊎ ((dir_denied pg (dir path) p.server_dirs).1 ≢ "")

-- Two states of pathguard put the raw path in the same place, and judge it and its directory alike.
pub record Agree (pg pg' : Pathguard) (p : Policy) (raw : String) : Type 0 where
  pub placed : where_is pg' (clean raw) ≡ where_is pg (clean raw)
  pub judged :
      upload_denied pg' (clean raw) (where_is pg (clean raw)) p.server_dirs
      ≡ upload_denied pg (clean raw) (where_is pg (clean raw)) p.server_dirs
  pub directory :
      dir_denied pg' (dir (where_is pg (clean raw))) p.server_dirs
      ≡ dir_denied pg (dir (where_is pg (clean raw))) p.server_dirs

judge_source-Agree :
    (pg pg' : Pathguard) (p : Policy) (raw : String)
    → Agree pg pg' p raw
    → judge_source pg' p raw (where_is pg' (clean raw))
      ≡ judge_source pg p raw (where_is pg (clean raw))
unfolding judge_source sensitive denied_directory
judge_source-Agree pg pg' p raw same = rw (same.placed, same.judged, same.directory) refl

abbrev pub IsJudgement : Violation → Type 0
IsJudgement v = (v.reason ≡ reason_sensitive_path) ⊎ (v.reason ≡ reason_outside_roots)

denied-not-IsJudged :
    (pg : Pathguard) (p : Policy) (raw path root : String)
    → IsDenied pg p raw path
    → ¬ IsJudged pg p raw path root
denied-not-IsJudged pg p raw path root (inl floor) j = floor j.floor
denied-not-IsJudged pg p raw path root (inr (inl out)) j =
    All-In (λ r. ¬ IsWithin false r path) root p.roots out j.listed j.within
denied-not-IsJudged pg p raw path root (inr (inr directory)) j = directory j.directory

judge_source-IsJudgement :
    (pg : Pathguard) (p : Policy) (raw path : String) (v : Violation)
    → judge_source pg p raw path ≡ err v
    → IsJudgement v
unfolding judge_source sensitive denied_directory outside
judge_source-IsJudgement pg p raw path v h = ground arith

resolve_of_judge_err :
    (os : Os) (pg : Pathguard) (p : Policy) (work_dir file raw : String) (v : Violation)
    → p.roots ≢ []
    → assemble p work_dir file (file_requires_work_dir file) ≡ ok raw
    → judge_source pg p raw (where_is pg (clean raw)) ≡ err v
    → resolve os pg p work_dir file ≡ err v
unfolding resolve
resolve_of_judge_err os pg p work_dir file raw v some_root assembled e =
    rw (require_roots-eq-ok p file some_root, assembled, e) refl

-- With absolute roots, at least one, and arguments that name a path whose place the floor refuses,
-- that lies below no root, or whose directory is denied, the answer is a violation for the floor or
-- for containment, and one and the same for whatever EvalSymlinks, Stat and Lstat answer, and in
-- every state of pathguard that puts the path in the same place and judges it and its directory
-- alike.
pub resolve-oblivious :
    (pg : Pathguard) (p : Policy) (work_dir file raw : String)
    → All (λ r. is_abs r ≡ true) p.roots
    → p.roots ≢ []
    → assemble p work_dir file (file_requires_work_dir file) ≡ ok raw
    → IsDenied pg p raw (where_is pg (clean raw))
    → (v : Violation) × IsJudgement v
      × ((os : Os) (pg' : Pathguard) → Agree pg pg' p raw → resolve os pg' p work_dir file ≡ err v)
resolve-oblivious pg p work_dir file raw roots some_root assembled denied =
    elim (Result-cases (judge_source pg p raw (where_is pg (clean raw)))) [
      | inl (root, e) ↦ absurd (
          denied-not-IsJudged pg p raw _ root denied
            (judge_source-IsJudged pg p raw _ root roots e))
      | inr (v, e) ↦ (
        v,
        judge_source-IsJudgement pg p raw _ v e,
        λ os pg' same.
            resolve_of_judge_err os pg' p work_dir file raw v some_root assembled
              (judge_source-Agree pg pg' p raw same ∙ e),
      )
    ]
