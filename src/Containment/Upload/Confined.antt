-- ===== src/Containment/Upload/Confined.antt =====
-- What holds of every file that `Resolve` lets an upload read.
use mathlib.Core.Bool.{false≢true}
use slack_mcp_extender.Base.{
  String, ◌≡◌, ◌≢◌, true, false, ◌&&◌, not, none, List, [], arith, All, All-In, In, ◌⊎◌, inl, inr,
  Bool-cases, ◌==◌, eq_iff,
}
use slack_mcp_extender.Base.Int.{ℤ, pos, ◌≤ℤ◌, ltb_ℤ}
use slack_mcp_extender.Base.Result.{ok, guard->>-eq-ok, >>-eq-ok, >>=-eq-ok}
use slack_mcp_extender.Filepath.{is_abs, clean, dir}
use slack_mcp_extender.Filepath.Rel.{IsWithin}
use slack_mcp_extender.Workdir.{Pathguard, upload_denied, dir_denied, where_is}
use slack_mcp_extender.Containment.Types.{Policy, FileInfo, Os, file_requires_work_dir}
use slack_mcp_extender.Containment.Policy.{
  Deny, forbid->>-eq-ok, sensitive, denied_directory, match_root, require_roots, assemble,
  check_hidden,
}
use slack_mcp_extender.Containment.Policy.Roots.{match_roots_sound}
use slack_mcp_extender.Containment.Policy.Hidden.{IsVisible, check_hidden-IsVisible}
use slack_mcp_extender.Containment.Upload.{
  found->>=-eq-ok, judge_source, rejudge, check_file, resolve,
}

pub sensitive-eq-none :
    (p : Policy) (raw path : String) (deny : Deny)
    → sensitive p raw path deny ≡ none
    → (deny raw path p.server_dirs).1 ≡ ""
unfolding sensitive
sensitive-eq-none p raw path deny h = ground (arith, eq_iff (deny raw path p.server_dirs).1 "")

pub denied_directory-eq-none :
    (pg : Pathguard) (p : Policy) (d path : String)
    → denied_directory pg p d path ≡ none
    → (dir_denied pg d p.server_dirs).1 ≡ ""
unfolding denied_directory
denied_directory-eq-none pg p d path h = ground (arith, eq_iff (dir_denied pg d p.server_dirs).1 "")

module _ (pg : Pathguard) (p : Policy) (raw : String) where
  -- The place passes the floor, lies below the root, and in a directory that is not denied.
  pub record IsJudged (path root : String) : Type 0 where
    pub floor : (upload_denied pg (clean raw) path p.server_dirs).1 ≡ ""
    pub listed : In root p.roots
    pub rooted : is_abs path ≡ true
    pub within : IsWithin false root path
    pub directory : (dir_denied pg (dir path) p.server_dirs).1 ≡ ""

  pub judge_source-IsJudged :
      (path root : String)
      → All (λ r. is_abs r ≡ true) p.roots
      → judge_source pg p raw path ≡ ok root
      → IsJudged path root
  unfolding judge_source match_root
  judge_source-IsJudged path root roots h =
      let (floor, h₁) = forbid->>-eq-ok (sensitive p (clean raw) path (upload_denied pg)) _ h in
      let (matched, h₂) = guard->>-eq-ok (not (match_root p path false == "")) _ _ h₁ in
      let (allowed, h₃) = forbid->>-eq-ok (denied_directory pg p (dir path) path) _ h₂ in
      let same : match_root p path false ≡ root = cc in
      let named : (root == "") ≡ false = rw (← same) (ground arith) in
      let (listed, rooted, within) = match_roots_sound p.roots path false root roots same named in
      record {
        floor = sensitive-eq-none p (clean raw) path (upload_denied pg) floor;
        listed = listed;
        rooted = rooted;
        within = within;
        directory = denied_directory-eq-none pg p (dir path) path allowed;
      }

  rejudge-IsJudged :
      (place root canonical root' : String)
      → All (λ r. is_abs r ≡ true) p.roots
      → judge_source pg p raw place ≡ ok root
      → rejudge pg p raw place root canonical ≡ ok root'
      → IsJudged canonical root'
  rejudge-IsJudged place root canonical root' roots h k = elim (Bool-cases (canonical == place)) [
    | inl same ↦
        let e : root ≡ root' = ground arith in
        rw ((eq_iff canonical place).0 same) (judge_source-IsJudged place root' roots (rw (← e) h))
    | inr moved ↦ judge_source-IsJudged canonical root' roots (rw moved at k)
  ]

-- What `stat` must say of the file.
pub record IsPlainFile (p : Policy) (fi : FileInfo) : Type 0 where
  pub regular : fi.is_regular ≡ true
  pub within_cap : (p.max_size ≤ℤ pos 0) ⊎ (fi.size ≤ℤ p.max_size)

cap_test :
    (cap size : ℤ)
    → not (ltb_ℤ (pos 0) cap && ltb_ℤ cap size) ≡ true
    → (cap ≤ℤ pos 0) ⊎ (size ≤ℤ cap)
cap_test cap size h = ground arith

check_file_sound :
    (os : Os) (p : Policy) (root canonical path : String)
    → check_file os p root canonical ≡ ok path
    → (canonical ≡ path)
      × (check_hidden p root canonical ≡ ok tt)
      × ((fi : FileInfo) × (os.stat canonical ≡ ok fi) × IsPlainFile p fi)
unfolding check_file
check_file_sound os p root canonical path h =
    let (fi, e, h₁) = found->>=-eq-ok _ (os.stat canonical) _ h in
    let (regular, h₂) = guard->>-eq-ok fi.is_regular _ _ h₁ in
    let (visible, h₃) = >>-eq-ok (check_hidden p root canonical) _ h₂ in
    let (small, h₄) =
      guard->>-eq-ok (not (ltb_ℤ (pos 0) p.max_size && ltb_ℤ p.max_size fi.size)) _ _ h₃ in
    (
      cc,
      visible,
      (fi, e, record { regular = regular; within_cap = cap_test p.max_size fi.size small }),
    )

-- A file that may be sent: it is where the named path leads, passes the floor as named and as
-- resolved, lies strictly below a root of the policy and in a directory that is not denied, has no
-- hidden component below that root, and is a regular file within the cap.
pub record IsSendable (os : Os) (pg : Pathguard) (p : Policy) (raw path : String) : Type 0 where
  pub root : String
  pub judged : IsJudged pg p raw path root
  pub resolved : os.eval_symlinks (where_is pg (clean raw)) ≡ ok path
  pub visible : IsVisible p root path
  pub info : FileInfo
  pub stated : os.stat path ≡ ok info
  pub plain : IsPlainFile p info

IsVisible-of_judged :
    (pg : Pathguard) (p : Policy) (raw path root : String)
    → All (λ r. is_abs r ≡ true) p.roots
    → IsJudged pg p raw path root
    → check_hidden p root path ≡ ok tt
    → IsVisible p root path
IsVisible-of_judged pg p raw path root roots j h =
    let (rest, under, below) = j.within in
    check_hidden-IsVisible p root path (All-In (λ r. is_abs r ≡ true) root p.roots roots j.listed)
      j.rooted rest under (strict below) h
  where
    strict : {rest : List String} → (false ≡ true) ⊎ (rest ≢ []) → rest ≢ []
    strict (inl e) = absurd (false≢true e)
    strict (inr n) = n

-- With absolute roots, a path that `Resolve` returns is a file that may be sent: the named path is
-- assembled from the arguments, and leads to it.
pub resolve-IsSendable :
    (os : Os) (pg : Pathguard) (p : Policy) (work_dir file path : String)
    → All (λ r. is_abs r ≡ true) p.roots
    → resolve os pg p work_dir file ≡ ok path
    → (raw : String) × (assemble p work_dir file (file_requires_work_dir file) ≡ ok raw)
      × IsSendable os pg p raw path
unfolding resolve
resolve-IsSendable os pg p work_dir file path roots h =
    let (_, h₁) = >>-eq-ok (require_roots p file) _ h in
    let (raw, assembled, h₂) =
      >>=-eq-ok (assemble p work_dir file (file_requires_work_dir file)) _ h₁ in
    let place = where_is pg (clean raw) in
    let (root, judged, h₃) = >>=-eq-ok (judge_source pg p raw place) _ h₂ in
    let (canonical, resolved, h₄) = found->>=-eq-ok _ (os.eval_symlinks place) _ h₃ in
    let (root', rejudged, h₅) = >>=-eq-ok (rejudge pg p raw place root canonical) _ h₄ in
    let (same, hidden, (fi, stated, plain)) = check_file_sound os p root' canonical path h₅ in
    let j = rejudge-IsJudged pg p raw place root canonical root' roots judged rejudged in
    (
      raw,
      assembled,
      rw (← same) (record {
        root = root';
        judged = j;
        resolved = resolved;
        visible = IsVisible-of_judged pg p raw canonical root' roots j hidden;
        info = fi;
        stated = stated;
        plain = plain;
      }),
    )
