-- ===== src/Containment/Upload.antt =====
-- `Policy.Resolve`: the file that an upload reads.
pub mod Confined
pub mod Oblivious
use slack_mcp_extender.Base.{String, ◌≡◌, refl, false, ◌&&◌, not, if◌then◌else◌, ◌==◌}
use slack_mcp_extender.Base.Int.{pos, ltb_ℤ}
use slack_mcp_extender.Base.Result.{Result, ok, err, ◌>>=◌, ◌>>◌, guard}
use slack_mcp_extender.Filepath.{clean, dir}
use slack_mcp_extender.Workdir.{Pathguard, upload_denied, where_is}
use slack_mcp_extender.Containment.Types.{
  Detail, Violation, Policy, Os, file_requires_work_dir, file_outside, cannot_resolve, cannot_stat,
  not_regular, exceeds_cap, reason_not_found, reason_not_regular_file, reason_too_large,
}
use slack_mcp_extender.Containment.Policy.{
  forbid, sensitive, denied_directory, match_root, outside, require_roots, assemble, check_hidden,
}

-- A violation that names a file and has no floor reason.
abbrev pub violation : Policy → String → String → Detail → Violation
violation p reason path detail = record {
  reason = reason;
  path = path;
  roots = p.roots;
  detail = detail;
  floor = "";
}

-- Go's `(value, error)` at a path: the error's text becomes the violation.
abbrev pub found {ℓ} : {A : Type ℓ} → (String → Violation) → Result String A → Result Violation A
found v (ok a) = ok a
found v (err e) = err (v e)

pub found->>=-eq-ok {ℓ κ} :
    {A : Type ℓ} {B : Type κ} (v : String → Violation) (r : Result String A)
    (f : A → Result Violation B) {b : B}
    → (found v r >>= f) ≡ ok b
    → (a : A) × (r ≡ ok a) × (f a ≡ ok b)
found->>=-eq-ok v (ok a) f h = (a, refl, h)
found->>=-eq-ok v (err e) f h = cc

module _ (pg : Pathguard) where
  -- Stages 2 and 3 on a place: the floor, containment, and the directory. The result is the root.
  unfoldable pub judge_source : Policy → String → String → Result Violation String
  judge_source p raw place = do
    forbid (sensitive p (clean raw) place (upload_denied pg))
    let root = match_root p place false
    guard (not (root == "")) (outside p place (file_outside raw))
    forbid (denied_directory pg p (dir place) place)
    ok root

  -- The judgement of the resolved file: again if it is not where it was placed.
  abbrev pub rejudge : Policy → String → String → String → String → Result Violation String
  rejudge p raw place root canonical =
      if canonical == place then ok root else judge_source p raw canonical

-- Stages 4 to 6: a regular file, not hidden, within the cap.
unfoldable pub check_file : Os → Policy → String → String → Result Violation String
check_file os p root canonical = do
  fi ←
      found (λ e. violation p reason_not_found canonical (cannot_stat canonical e))
        (os.stat canonical)
  guard fi.is_regular
      (violation p reason_not_regular_file canonical (not_regular canonical fi.mode))
  check_hidden p root canonical
  guard (not (ltb_ℤ (pos 0) p.max_size && ltb_ℤ p.max_size fi.size))
      (violation p reason_too_large canonical (exceeds_cap fi.size p.max_size))
  ok canonical

module _ (os : Os) (pg : Pathguard) where
  unfoldable pub resolve : Policy → String → String → Result Violation String
  unfolding judge_source check_file
  resolve p work_dir file = do
    require_roots p file
    raw ← assemble p work_dir file (file_requires_work_dir file)
    let place = where_is pg (clean raw)
    root ← judge_source pg p raw place
    canonical ←
        found (λ e. violation p reason_not_found raw (cannot_resolve raw e))
          (os.eval_symlinks place)
    root' ← rejudge pg p raw place root canonical
    check_file os p root' canonical
