-- ===== src/Tests/World.antt =====
-- A small disk and a small pathguard, on which the runs of the other modules take place.
use slack_mcp_extender.Base.{
  String, true, false, ◌||◌, none, some, List, [], ◌∷◌, if◌then◌else◌, ◌==◌,
}
use slack_mcp_extender.Base.Int.{pos}
use slack_mcp_extender.Base.Result.{ok, err}
use slack_mcp_extender.Workdir.{Pathguard, refused}
use slack_mcp_extender.Containment.Types.{Policy, FileInfo, Os}

abbrev pub regular : FileInfo
regular = record { is_regular = true; mode = "-rw-r--r--"; is_dir = false; size = pos 5 }

abbrev pub directory : FileInfo
directory = record { is_regular = false; mode = "drwxr-xr-x"; is_dir = true; size = pos 64 }

-- A directory with one file.
abbrev pub disk : Os
disk = record {
  eval_symlinks = λ path.
      if path == "/w" || path == "/w/a.txt" then ok path else err "no such file or directory";
  stat = λ path.
      if path == "/w"
      then ok directory
      else if path == "/w/a.txt"
      then ok regular
      else err "no such file or directory";
  lstat = λ path. path == "/w" || path == "/w/a.txt";
}

abbrev pub empty_disk : Os
empty_disk = record {
  eval_symlinks = λ path. err "no such file or directory";
  stat = λ path. err "no such file or directory";
  lstat = λ path. false;
}

-- A guard that refuses one credential directory, and places each path where it is named.
abbrev verdict : String → String × String
verdict path =
    if path == "/w/.ssh/id_rsa" then ("sensitive_path", "it is a credential file") else ("", "")

abbrev pub guard : Pathguard
guard = record {
  Place = String;
  Resolver = List String;
  server_dir = λ dir reason. dir;
  new_resolver = λ places hint. places;
  resolve = λ resolver arg meta.
      if arg == "/w"
      then ok arg
      else err
          (refused (record { code = "work_dir_not_found"; message = "not found"; details = [] }));
  validate = λ resolver dir. ok dir;
  outbound_path = λ resolver raw resolved. verdict resolved;
  local_path = λ resolver raw resolved. verdict resolved;
  check_beneath = λ resolver dir. none;
  place = λ path. some path;
}

abbrev pub policy : Policy
policy = record {
  roots = "/w" ∷ [];
  server_dirs = "/home/u/.config/slack-mcp-extender" ∷ [];
  allow_hidden = false;
  max_size = pos 100;
}
