-- ===== src/Containment/Types.antt =====
-- The violations, the policy and the file system that it is judged on.
use slack_mcp_extender.Base.{String, Bool, List}
use slack_mcp_extender.Base.Int.{ℤ}
use slack_mcp_extender.Base.Result.{Result}

-- The codes of a violation.
abbrev pub reason_no_roots : String
reason_no_roots = "no_allowed_roots"

abbrev pub reason_not_absolute : String
reason_not_absolute = "not_absolute"

abbrev pub reason_not_found : String
reason_not_found = "not_found"

abbrev pub reason_outside_roots : String
reason_outside_roots = "outside_allowed_roots"

abbrev pub reason_not_regular_file : String
reason_not_regular_file = "not_regular_file"

abbrev pub reason_sensitive_path : String
reason_sensitive_path = "sensitive_path"

abbrev pub reason_hidden_component : String
reason_hidden_component = "hidden_component"

abbrev pub reason_too_large : String
reason_too_large = "too_large"

abbrev pub reason_already_exists : String
reason_already_exists = "already_exists"

abbrev pub reason_bad_filename : String
reason_bad_filename = "bad_filename"

-- The sentence of a violation, with its arguments and not yet formatted.
pub data Detail : Type 0 where
  no_root_configured : Detail
  file_requires_work_dir dest_dir_requires_work_dir : String → Detail
  work_dir_must_be_absolute : String → Detail
  refused_path : String → String → Detail
  denied_dir : String → Detail
  file_outside dest_dir_outside : String → Detail
  cannot_resolve cannot_stat cannot_resolve_dest_dir : String → String → Detail
  not_regular : String → String → Detail
  not_existing_directory : String → Detail
  hidden : String → Detail
  exceeds_cap : ℤ → ℤ → Detail
  already_exists : String → Detail
  no_usable_name has_control_characters : String → Detail

pub record Violation : Type 0 where
  pub reason : String
  pub path : String
  pub roots : List String
  pub detail : Detail
  pub floor : String

pub record Policy : Type 0 where
  pub roots : List String
  pub server_dirs : List String
  pub allow_hidden : Bool
  pub max_size : ℤ

-- `os.FileInfo`
pub record FileInfo : Type 0 where
  pub is_regular : Bool
  pub mode : String
  pub is_dir : Bool
  pub size : ℤ

-- What the policy's own reads of the disk answer during one call: `filepath.EvalSymlinks`, `os.Stat`
-- and whether `os.Lstat` finds something. Errors are their texts. That pathguard too reads the disk is
-- in its answers, the parameter `Pathguard`, and not here.
pub record Os : Type 0 where
  pub eval_symlinks : String → Result String String
  pub stat : String → Result String FileInfo
  pub lstat : String → Bool
