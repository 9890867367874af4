-- ===== src/Containment/Download.antt =====
-- `SanitizeFilename` and `Policy.ResolveNewFile`: the file that a download creates.
pub mod Sanitize
pub mod Confined
pub mod Oblivious
use slack_mcp_extender.Base.{
  ℕ, String, Char, code, ◌<>◌, Bool, true, false, ◌&&◌, ◌||◌, not, if◌then◌else◌, ◌==◌, ltb, eqb,
  replace,
}
use Prim.Native.String.{[], ◌∷◌}
use slack_mcp_extender.Base.Result.{Result, ok, err, ◌>>=◌, ◌>>◌, guard}
use slack_mcp_extender.Filepath.{clean, join, base}
use slack_mcp_extender.Workdir.{Pathguard, download_denied, where_is}
use slack_mcp_extender.Containment.Types.{
  Detail, Violation, Policy, FileInfo, Os, dest_dir_requires_work_dir, dest_dir_outside,
  cannot_resolve_dest_dir, not_existing_directory, already_exists, no_usable_name,
  has_control_characters, reason_not_found, reason_already_exists, reason_bad_filename,
}
use slack_mcp_extender.Containment.Policy.{
  forbid, sensitive, denied_directory, match_root, outside, require_roots, assemble, check_hidden,
}
use slack_mcp_extender.Containment.Upload.{violation, found}

abbrev pub is_control : ℕ → Bool
is_control c = ltb c 0x20 || eqb c 0x7f

unfoldable pub has_control : String → Bool
has_control [] = false
has_control (c ∷ s) = is_control (code c) || has_control s

abbrev slash : Char
slash = "/"

unfoldable pub sanitize_filename : String → Result Detail String
unfolding base has_control replace
sanitize_filename name =
    let last = base (replace 0x5c slash name) in
    if last == "." || last == ".." || last == "/" || last == ""
    then err (no_usable_name name)
    else if has_control last
    then err (has_control_characters name)
    else ok last

module _ (pg : Pathguard) where
  -- The floor, containment and the directory, on the place of the destination directory.
  unfoldable pub judge_target : Policy → String → String → String → Result Violation String
  judge_target p raw name place = do
    let target = join place name
    forbid (sensitive p (join (clean raw) name) target (download_denied pg))
    let root = match_root p place true
    guard (not (root == "")) (outside p place (dest_dir_outside raw))
    forbid (denied_directory pg p place target)
    ok root

  abbrev pub rejudge : Policy → String → String → String → String → String → Result Violation String
  rejudge p raw name place root canonical =
      if canonical == place then ok root else judge_target p raw name canonical

-- `err == nil && fi.IsDir()`
abbrev pub is_directory : Result String FileInfo → Bool
is_directory (ok fi) = fi.is_dir
is_directory (err e) = false

-- The directory exists, and nothing is hidden or there yet.
unfoldable pub check_target :
    Os → Policy → String → String → String → String → Result Violation String
check_target os p root raw name canonical = do
  guard (is_directory (os.stat canonical))
      (violation p reason_not_found canonical (not_existing_directory raw))
  let target = join canonical name
  check_hidden p root target
  guard (not (os.lstat target)) (violation p reason_already_exists target (already_exists target))
  ok target

-- `SanitizeFilename`'s error becomes the violation.
abbrev pub named_file : Policy → String → Result Detail String → Result Violation String
named_file p filename (ok name) = ok name
named_file p filename (err e) = err (violation p reason_bad_filename filename e)

unfoldable pub resolve_new_file :
    Os → Pathguard → Policy → String → String → String → Result Violation String
unfolding judge_target check_target
resolve_new_file os pg p work_dir dest_dir filename = do
  require_roots p dest_dir
  name ← named_file p filename (sanitize_filename filename)
  raw ← assemble p work_dir dest_dir (dest_dir_requires_work_dir dest_dir)
  let place = where_is pg (clean raw)
  root ← judge_target pg p raw name place
  canonical ←
      found (λ e. violation p reason_not_found raw (cannot_resolve_dest_dir raw e))
        (os.eval_symlinks place)
  root' ← rejudge pg p raw name place root canonical
  check_target os p root' raw name canonical
