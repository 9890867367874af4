-- ===== src/Transport/Tokenfile.antt =====
-- internal/transport/tokens.go: the tokens, and their file in the state directory.
pub mod Saved
use slack_mcp_extender.Base.{String, Option, none, some}
use slack_mcp_extender.Base.Int.{ℤ}
use slack_mcp_extender.Base.Result.{Result, err, ok, ◌>>=◌}

-- `expires_at` is in seconds; 0 stands for no known expiry.
pub record StoredTokens : Type 0 where
  pub access_token : String
  pub refresh_token : String
  pub token_type : String
  pub expires_at : ℤ

-- The texts of tokens.json and of tokens.json.tmp, where the files are.
pub record StateDir : Type 0 where
  pub stored : Option String
  pub temporary : Option String

-- encoding/json on tokens, the error for a file that is not there, and the errors of the file
-- system's calls. A write that fails leaves some
-- text or no file.
pub record Disk : Type 0 where
  pub encode : StoredTokens → Result String String
  pub decode : String → Result String StoredTokens
  pub missing : String
  pub read_error : Option String
  pub mkdir_error : Option String
  pub write_error : Option (String × Option String)
  pub rename_error : Option String

module _ (disk : Disk) where
  abbrev pub contents : Option String → Option String → Result String String
  contents stored (some e) = err e
  contents none none = err disk.missing
  contents (some text) none = ok text

  unfoldable pub load_tokens : StateDir → Result String StoredTokens
  load_tokens dir = do text ← contents dir.stored disk.read_error; disk.decode text

  abbrev pub Saved : Type 0
  Saved = Option String × StateDir

  abbrev pub after_write : String → Option String → StateDir → Saved
  after_write text none dir = (none, record { stored = some text; temporary = none })
  after_write text (some e) dir = (some e, record dir { temporary = some text })

  abbrev pub after_encode :
      Result String String → Option (String × Option String) → StateDir → Saved
  after_encode (err e) _ dir = (some e, dir)
  after_encode (ok text) none dir = after_write text disk.rename_error dir
  after_encode (ok text) (some (e, left)) dir = (some e, record dir { temporary = left })

  abbrev pub after_mkdir : Option String → StoredTokens → StateDir → Saved
  after_mkdir (some e) tokens dir = (some e, dir)
  after_mkdir none tokens dir = after_encode (disk.encode tokens) disk.write_error dir

  unfoldable pub save_tokens : StoredTokens → StateDir → Saved
  save_tokens tokens dir = after_mkdir disk.mkdir_error tokens dir
