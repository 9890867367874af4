-- ===== src/Transfer/Audit.antt =====
-- internal/transfer/audit.go: `AuditLog.Append`.
pub mod Appended
use slack_mcp_extender.Base.{
  String, ◌<>◌, Option, none, some, List, [], ◌∷◌, ◌++◌, if◌then◌else◌, ◌==◌,
}
use slack_mcp_extender.Base.Result.{Result, err, ok}
use slack_mcp_extender.Transfer.Types.{AuditEntry}

-- What encoding/json, the clock and the file system answer to one call: the entry's line with its
-- time, and the errors of the steps, for a failed write or close with what it leaves of the line at
-- the end of the file.
pub record LogAnswers : Type 0 where
  pub line : AuditEntry → Result String String
  pub dir_error : Option String
  pub open_error : Option String
  pub write_error : Option (String × List String)
  pub close_error : Option (String × List String)

-- `AuditLog.Path`; a log that is nil is one without a path.
pub record AuditLog : Type 0 where
  pub path : String
  pub answers : LogAnswers

-- The error, if there is one, and the lines of the file, which is open for appending.
abbrev pub Written : Type 0
Written = Option String × List String

module _ (log : AuditLog) where
  abbrev after_close : List String → String → Option (String × List String) → Written
  after_close lines line none = (none, lines ++ (line ∷ []))
  after_close lines line (some (e, left)) = (some ("close audit log: " <> e), lines ++ left)

  abbrev after_write : List String → String → Option (String × List String) → Written
  after_write lines line none = after_close lines line log.answers.close_error
  after_write lines line (some (e, left)) = (some ("write audit log: " <> e), lines ++ left)

  abbrev after_open : List String → String → Option String → Written
  after_open lines line none = after_write lines line log.answers.write_error
  after_open lines line (some e) = (some ("open audit log: " <> e), lines)

  abbrev after_dir : List String → String → Option String → Written
  after_dir lines line none = after_open lines line log.answers.open_error
  after_dir lines line (some e) = (some ("audit dir: " <> e), lines)

  abbrev after_marshal : List String → Result String String → Written
  after_marshal lines (err e) = (some ("marshal audit entry: " <> e), lines)
  after_marshal lines (ok line) = after_dir lines line log.answers.dir_error

  unfoldable pub append : AuditEntry → List String → Written
  append entry lines =
      if log.path == "" then (none, lines) else after_marshal lines (log.answers.line entry)
