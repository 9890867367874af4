-- ===== src/Containment/Download/Oblivious.antt =====
-- The answer to a destination that the judgements deny rests on pathguard alone, and not on the
-- policy's own reads of the disk.
use slack_mcp_extender.Base.{
  String, ◌≡◌, ◌≢◌, refl, ◌∙◌, true, [], arith, All, All-In, ◌⊎◌, inl, inr,
}
use slack_mcp_extender.Base.Result.{ok, err, Result-cases}
use slack_mcp_extender.Filepath.{is_abs, clean, join}
use slack_mcp_extender.Filepath.Rel.{IsWithin}
use slack_mcp_extender.Workdir.{Pathguard, download_denied, dir_denied, where_is}
use slack_mcp_extender.Containment.Types.{Policy, Os, Violation, dest_dir_requires_work_dir}
use slack_mcp_extender.Containment.Policy.{
  sensitive, denied_directory, outside, require_roots-eq-ok, assemble,
}
use slack_mcp_extender.Containment.Upload.Oblivious.{IsJudgement}
use slack_mcp_extender.Containment.Download.{sanitize_filename, judge_target, resolve_new_file}
use slack_mcp_extender.Containment.Download.Confined.{IsJudged, judge_target-IsJudged}

-- The floor refuses the file in the place, the place lies under no root, or it is denied.
abbrev pub IsDenied : Pathguard → Policy → String → String → String → Type 0
IsDenied pg p raw name place =
    ((download_denied pg (join (clean raw) name) (join place name) p.server_dirs).1 ≢ "")
    ⊎ All (λ r. ¬ IsWithin true r place) p.roots
    ⊎ ((dir_denied pg place p.server_dirs).1 ≢ "")

denied-not-IsJudged :
    (pg : Pathguard) (p : Policy) (raw name place root : String)
    → IsDenied pg p raw name place
    → ¬ IsJudged pg p raw name place root
denied-not-IsJudged pg p raw name place root (inl floor) j = floor j.floor
denied-not-IsJudged pg p raw name place root (inr (inl out)) j =
    All-In (λ r. ¬ IsWithin true r place) root p.roots out j.listed j.within
denied-not-IsJudged pg p raw name place root (inr (inr directory)) j = directory j.directory

-- Two states of pathguard put the raw path in the same place, and judge the file in it and the place
-- itself alike.
pub record Agree (pg pg' : Pathguard) (p : Policy) (raw name : String) : Type 0 where
  pub placed : where_is pg' (clean raw) ≡ where_is pg (clean raw)
  pub judged :
      let place = where_is pg (clean raw) in
      download_denied pg' (join (clean raw) name) (join place name) p.server_dirs
      ≡ download_denied pg (join (clean raw) name) (join place name) p.server_dirs
  pub directory :
      dir_denied pg' (where_is pg (clean raw)) p.server_dirs
      ≡ dir_denied pg (where_is pg (clean raw)) p.server_dirs

judge_target-Agree :
    (pg pg' : Pathguard) (p : Policy) (raw name : String)
    → Agree pg pg' p raw name
    → judge_target pg' p raw name (where_is pg' (clean raw))
      ≡ judge_target pg p raw name (where_is pg (clean raw))
unfolding judge_target sensitive denied_directory
judge_target-Agree pg pg' p raw name same = rw (same.placed, same.judged, same.directory) refl

judge_target-IsJudgement :
    (pg : Pathguard) (p : Policy) (raw name place : String) (v : Violation)
    → judge_target pg p raw name place ≡ err v
    → IsJudgement v
unfolding judge_target sensitive denied_directory outside
judge_target-IsJudgement pg p raw name place v h = ground arith

resolve_of_judge_err :
    (os : Os) (pg : Pathguard) (p : Policy) (work_dir dest_dir filename raw name : String)
    (v : Violation)
    → p.roots ≢ []
    → sanitize_filename filename ≡ ok name
    → assemble p work_dir dest_dir (dest_dir_requires_work_dir dest_dir) ≡ ok raw
    → judge_target pg p raw name (where_is pg (clean raw)) ≡ err v
    → resolve_new_file os pg p work_dir dest_dir filename ≡ err v
unfolding resolve_new_file
resolve_of_judge_err os pg p work_dir dest_dir filename raw name v some_root sane assembled e =
    rw (require_roots-eq-ok p dest_dir some_root, sane, assembled, e) refl

-- With absolute roots, at least one, and arguments that name a directory and a usable file name,
-- where the floor refuses the file, the directory's place lies under no root, or it is denied, the
-- answer is a violation for the floor or for containment, and one and the same for whatever
-- EvalSymlinks, Stat and Lstat answer, and in every state of pathguard that puts the directory in
-- the same place and judges the file in it and the place alike.
pub resolve_new_file-oblivious :
    (pg : Pathguard) (p : Policy) (work_dir dest_dir filename raw name : String)
    → All (λ r. is_abs r ≡ true) p.roots
    → p.roots ≢ []
    → sanitize_filename filename ≡ ok name
    → assemble p work_dir dest_dir (dest_dir_requires_work_dir dest_dir) ≡ ok raw
    → IsDenied pg p raw name (where_is pg (clean raw))
    → (v : Violation) × IsJudgement v
      × ((os : Os) (pg' : Pathguard)
          → Agree pg pg' p raw name
          → resolve_new_file os pg' p work_dir dest_dir filename ≡ err v)
resolve_new_file-oblivious pg p work_dir dest_dir filename raw name roots some_root sane assembled
      denied =
    let place = where_is pg (clean raw) in
    elim (Result-cases (judge_target pg p raw name place)) [
      | inl (root, e) ↦ absurd (
          denied-not-IsJudged pg p raw name place root denied
            (judge_target-IsJudged pg p raw name place root roots e))
      | inr (v, e) ↦ (
        v,
        judge_target-IsJudgement pg p raw name place v e,
        λ os pg' same.
            resolve_of_judge_err os pg' p work_dir dest_dir filename raw name v some_root sane
              assembled (judge_target-Agree pg pg' p raw name same ∙ e),
      )
    ]
