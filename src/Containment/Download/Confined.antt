-- ===== src/Containment/Download/Confined.antt =====
-- What holds of every path at which `ResolveNewFile` lets a download create a file.
use slack_mcp_extender.Base.{
  String, ◌≡◌, subst, true, false, not, [], ◌∷◌, ◌++◌, append_assoc, ◌∙◌, ap, arith, All, All-In,
  In, inl, inr, Bool-cases, ◌==◌, concat-ne-nil, eq_iff, sym, refl,
}
use slack_mcp_extender.Base.Result.{Result, ok, err, guard->>-eq-ok, >>-eq-ok, >>=-eq-ok}
use slack_mcp_extender.Filepath.{is_abs, clean, join, parts}
use slack_mcp_extender.Filepath.Parts.{IsPlain, parts-join}
use slack_mcp_extender.Filepath.Rel.{IsWithin}
use slack_mcp_extender.Workdir.{Pathguard, download_denied, dir_denied, where_is}
use slack_mcp_extender.Containment.Types.{Policy, FileInfo, Os, Detail, dest_dir_requires_work_dir}
use slack_mcp_extender.Containment.Policy.{
  forbid->>-eq-ok, sensitive, denied_directory, match_root, require_roots, assemble, check_hidden,
}
use slack_mcp_extender.Containment.Policy.Roots.{match_roots_sound}
use slack_mcp_extender.Containment.Policy.Hidden.{IsVisible, check_hidden-IsVisible}
use slack_mcp_extender.Containment.Upload.{found->>=-eq-ok}
use slack_mcp_extender.Containment.Upload.Confined.{sensitive-eq-none, denied_directory-eq-none}
use slack_mcp_extender.Containment.Download.{
  sanitize_filename, named_file, judge_target, rejudge, check_target, is_directory,
  resolve_new_file,
}
use slack_mcp_extender.Containment.Download.Sanitize.{sanitize_filename-IsPlain}

module _ (pg : Pathguard) (p : Policy) (raw name : String) where
  -- The file named in the directory passes the floor; the directory is a root or lies below one,
  -- and is not denied.
  pub record IsJudged (place root : String) : Type 0 where
    pub floor : (download_denied pg (join (clean raw) name) (join place name) p.server_dirs).1 ≡ ""
    pub listed : In root p.roots
    pub rooted : is_abs place ≡ true
    pub within : IsWithin true root place
    pub directory : (dir_denied pg place p.server_dirs).1 ≡ ""

  pub judge_target-IsJudged :
      (place root : String)
      → All (λ r. is_abs r ≡ true) p.roots
      → judge_target pg p raw name place ≡ ok root
      → IsJudged place root
  unfolding judge_target match_root
  judge_target-IsJudged place root roots h =
      let named = join (clean raw) name in
      let target = join place name in
      let (floor, h₁) = forbid->>-eq-ok (sensitive p named target (download_denied pg)) _ h in
      let (matched, h₂) = guard->>-eq-ok (not (match_root p place true == "")) _ _ h₁ in
      let (allowed, h₃) = forbid->>-eq-ok (denied_directory pg p place target) _ h₂ in
      let same : match_root p place true ≡ root = cc in
      let some_root : (root == "") ≡ false = rw (← same) (ground arith) in
      let (listed, rooted, within) =
        match_roots_sound p.roots place true root roots same some_root in
      record {
        floor = sensitive-eq-none p named target (download_denied pg) floor;
        listed = listed;
        rooted = rooted;
        within = within;
        directory = denied_directory-eq-none pg p place target allowed;
      }

  rejudge-IsJudged :
      (place root canonical root' : String)
      → All (λ r. is_abs r ≡ true) p.roots
      → judge_target pg p raw name place ≡ ok root
      → rejudge pg p raw name place root canonical ≡ ok root'
      → IsJudged canonical root'
  rejudge-IsJudged place root canonical root' roots h k = elim (Bool-cases (canonical == place)) [
    | inl same ↦
        let e : root ≡ root' = ground arith in
        rw ((eq_iff canonical place).0 same) (judge_target-IsJudged place root' roots (rw (← e) h))
    | inr moved ↦ judge_target-IsJudged canonical root' roots (rw moved at k)
  ]

is_directory_sound :
    (r : Result String FileInfo)
    → is_directory r ≡ true
    → (fi : FileInfo) × (r ≡ ok fi) × (fi.is_dir ≡ true)
is_directory_sound (ok fi) h = (fi, refl, h)
is_directory_sound (err e) h = cc

check_target_sound :
    (os : Os) (p : Policy) (root raw name canonical path : String)
    → check_target os p root raw name canonical ≡ ok path
    → (join canonical name ≡ path)
      × (check_hidden p root path ≡ ok tt)
      × (os.lstat path ≡ false)
      × ((fi : FileInfo) × (os.stat canonical ≡ ok fi) × (fi.is_dir ≡ true))
unfolding check_target
check_target_sound os p root raw name canonical path h =
    let (directory, h₁) = guard->>-eq-ok (is_directory (os.stat canonical)) _ _ h in
    let (visible, h₂) = >>-eq-ok (check_hidden p root (join canonical name)) _ h₁ in
    let (fresh, h₃) = guard->>-eq-ok (not (os.lstat (join canonical name))) _ _ h₂ in
    let same : join canonical name ≡ path = cc in
    (
      same,
      rw (← same) visible,
      rw (← same) (ground arith),
      is_directory_sound (os.stat canonical) directory,
    )

named_file-eq-ok :
    (p : Policy) (filename name : String) (r : Result Detail String)
    → named_file p filename r ≡ ok name
    → r ≡ ok name
named_file-eq-ok p filename name (ok n) h = cc
named_file-eq-ok p filename name (err e) h = cc

-- A path at which a file may be created: it is the name in the directory where the named directory
-- leads, and no deeper or other place; the directory exists, is a root of the policy or lies below
-- one, and is not denied; the file passes the floor as named and as placed, has no hidden component
-- below the root, and nothing is there yet.
pub record IsCreatable (os : Os) (pg : Pathguard) (p : Policy) (raw name path : String)
    : Type 0 where
  pub directory : String
  pub root : String
  pub resolved : os.eval_symlinks (where_is pg (clean raw)) ≡ ok directory
  pub judged : IsJudged pg p raw name directory root
  pub named : path ≡ join directory name
  pub lands : parts path ≡ parts directory ++ name ∷ []
  pub info : FileInfo
  pub stated : os.stat directory ≡ ok info
  pub is_dir : info.is_dir ≡ true
  pub fresh : os.lstat path ≡ false
  pub visible : IsVisible p root path

IsVisible-of_judged :
    (pg : Pathguard) (p : Policy) (raw name place root : String)
    → All (λ r. is_abs r ≡ true) p.roots
    → IsPlain name
    → IsJudged pg p raw name place root
    → check_hidden p root (join place name) ≡ ok tt
    → IsVisible p root (join place name)
IsVisible-of_judged pg p raw name place root roots plain j h =
    let (rest, under, _) = j.within in
    let (rooted, lands) = parts-join place name j.rooted plain in
    check_hidden-IsVisible p root (join place name)
      (All-In (λ r. is_abs r ≡ true) root p.roots roots j.listed) rooted (rest ++ name ∷ [])
      (lands ∙ ap (λ l. l ++ name ∷ []) under ∙ append_assoc (parts root) rest (name ∷ []))
      (λ e. concat-ne-nil rest name e) h

creatable :
    (os : Os) (pg : Pathguard) (p : Policy) (raw name directory root path : String)
    → All (λ r. is_abs r ≡ true) p.roots
    → IsPlain name
    → os.eval_symlinks (where_is pg (clean raw)) ≡ ok directory
    → IsJudged pg p raw name directory root
    → join directory name ≡ path
    → check_hidden p root path ≡ ok tt
    → os.lstat path ≡ false
    → (fi : FileInfo) × (os.stat directory ≡ ok fi) × (fi.is_dir ≡ true)
    → IsCreatable os pg p raw name path
creatable os pg p raw name directory root path roots plain resolved j same hidden fresh
      (fi, stated, is_dir) =
    record {
      directory = directory;
      root = root;
      resolved = resolved;
      judged = j;
      named = sym same;
      lands =
          subst (λ t. parts t ≡ parts directory ++ name ∷ []) same
            (parts-join directory name j.rooted plain).1;
      info = fi;
      stated = stated;
      is_dir = is_dir;
      fresh = fresh;
      visible =
          subst (λ t. IsVisible p root t) same
            (IsVisible-of_judged pg p raw name directory root roots plain j
              (subst (λ t. check_hidden p root t ≡ ok tt) (sym same) hidden));
    }

-- With absolute roots, a path that `ResolveNewFile` returns is one at which a file may be created,
-- under a name that is sanitized from the given one.
pub resolve_new_file-IsCreatable :
    (os : Os) (pg : Pathguard) (p : Policy) (work_dir dest_dir filename path : String)
    → All (λ r. is_abs r ≡ true) p.roots
    → resolve_new_file os pg p work_dir dest_dir filename ≡ ok path
    → (raw name : String) × (assemble p work_dir dest_dir (dest_dir_requires_work_dir dest_dir)
        ≡ ok raw)
      × (sanitize_filename filename ≡ ok name)
      × IsCreatable os pg p raw name path
unfolding resolve_new_file
resolve_new_file-IsCreatable os pg p work_dir dest_dir filename path roots h =
    let (_, h₁) = >>-eq-ok (require_roots p dest_dir) _ h in
    let (name, accepted, h₂) =
      >>=-eq-ok (named_file p filename (sanitize_filename filename)) _ h₁ in
    let (raw, assembled, h₃) =
      >>=-eq-ok (assemble p work_dir dest_dir (dest_dir_requires_work_dir dest_dir)) _ h₂ in
    let place = where_is pg (clean raw) in
    let (root, judged, h₄) = >>=-eq-ok (judge_target pg p raw name place) _ h₃ in
    let (canonical, resolved, h₅) = found->>=-eq-ok _ (os.eval_symlinks place) _ h₄ in
    let (root', rejudged, h₆) = >>=-eq-ok (rejudge pg p raw name place root canonical) _ h₅ in
    let (same, hidden, fresh, found_dir) =
      check_target_sound os p root' raw name canonical path h₆ in
    let sane = named_file-eq-ok p filename name (sanitize_filename filename) accepted in
    let plain = (sanitize_filename-IsPlain filename name sane).0 in
    let j = rejudge-IsJudged pg p raw name place root canonical root' roots judged rejudged in
    (
      raw,
      name,
      assembled,
      sane,
      creatable os pg p raw name canonical root' path roots plain resolved j same hidden fresh
          found_dir,
    )
