-- ===== src/Transfer/Audit/Appended.antt =====
-- What an entry does to the log.
use slack_mcp_extender.Base.{
  String, ◌<>◌, ◌≡◌, ◌≢◌, refl, Option, none, some, List, [], ◌∷◌, ◌++◌, each_branch, ◌==◌, eq_iff,
  arith,
}
use slack_mcp_extender.Base.Result.{Result, err, ok}
use slack_mcp_extender.Transfer.Types.{AuditEntry}
use slack_mcp_extender.Transfer.Audit.{
  AuditLog, Written, after_close, after_write, after_open, after_dir, after_marshal, append,
}

module _ (log : AuditLog) (entry : AuditEntry) (lines : List String) where
  -- The file could be opened for the entry's line.
  pub record IsOpen (line : String) : Type 0 where
    pub kept : log.path ≢ ""
    pub encoded : log.answers.line entry ≡ ok line
    pub dir : log.answers.dir_error ≡ none
    pub opened : log.answers.open_error ≡ none

  -- No log is kept; no step fails, and the entry's line stands at the end; or the first step that
  -- fails gives the error, and it alone decides what stands after the lines that were there.
  pub data IsAppended : Written → Type 0 where
    discarded : log.path ≡ "" → IsAppended (none, lines)
    appended :
        {line : String}
        → IsOpen line
        → log.answers.write_error ≡ none
        → log.answers.close_error ≡ none
        → IsAppended (none, lines ++ (line ∷ []))
    not_closed :
        (line : String) {e : String} {left : List String}
        → IsOpen line
        → log.answers.write_error ≡ none
        → log.answers.close_error ≡ some (e, left)
        → IsAppended (some ("close audit log: " <> e), lines ++ left)
    not_written :
        (line : String) {e : String} {left : List String}
        → IsOpen line
        → log.answers.write_error ≡ some (e, left)
        → IsAppended (some ("write audit log: " <> e), lines ++ left)
    not_opened :
        (line : String) {e : String}
        → log.answers.line entry ≡ ok line
        → log.answers.dir_error ≡ none
        → log.answers.open_error ≡ some e
        → IsAppended (some ("open audit log: " <> e), lines)
    no_dir :
        (line : String) {e : String}
        → log.answers.line entry ≡ ok line
        → log.answers.dir_error ≡ some e
        → IsAppended (some ("audit dir: " <> e), lines)
    not_encoded :
        {e : String}
        → log.answers.line entry ≡ err e
        → IsAppended (some ("marshal audit entry: " <> e), lines)

  module _ (line : String) where
    after_close-IsAppended :
        IsOpen line
        → log.answers.write_error ≡ none
        → (e : Option (String × List String)) → log.answers.close_error ≡ e
        → IsAppended (after_close log lines line e)
    after_close-IsAppended o w none h = appended o w h
    after_close-IsAppended o w (some (e, left)) h = not_closed line o w h

    after_write-IsAppended :
        IsOpen line
        → (e : Option (String × List String)) → log.answers.write_error ≡ e
        → IsAppended (after_write log lines line e)
    after_write-IsAppended o none h = after_close-IsAppended o h log.answers.close_error refl
    after_write-IsAppended o (some (e, left)) h = not_written line o h

    module _ (kept : log.path ≢ "") (encoded : log.answers.line entry ≡ ok line) where
      after_open-IsAppended :
          log.answers.dir_error ≡ none
          → (e : Option String) → log.answers.open_error ≡ e
          → IsAppended (after_open log lines line e)
      after_open-IsAppended d none h =
          after_write-IsAppended (record { kept = kept; encoded = encoded; dir = d; opened = h })
            log.answers.write_error refl
      after_open-IsAppended d (some e) h = not_opened line encoded d h

      after_dir-IsAppended :
          (e : Option String) → log.answers.dir_error ≡ e → IsAppended (after_dir log lines line e)
      after_dir-IsAppended none h = after_open-IsAppended h log.answers.open_error refl
      after_dir-IsAppended (some e) h = no_dir line encoded h

  after_marshal-IsAppended :
      log.path ≢ ""
      → (line : Result String String) → log.answers.line entry ≡ line
      → IsAppended (after_marshal log lines line)
  after_marshal-IsAppended kept (err e) h = not_encoded h
  after_marshal-IsAppended kept (ok line) h =
      after_dir-IsAppended line kept h log.answers.dir_error refl

-- An append to a log without a path does nothing. Any other returns no error just if the entry is
-- encoded, the directory is made, and the file is opened, written and closed without an error, and
-- then the entry's line is added at the end; else it returns the error of the first of these steps
-- that fails, with the lines unchanged if that is before the write, and followed by what the failed
-- write or close leaves otherwise.
pub append-IsAppended :
    (log : AuditLog) (entry : AuditEntry) (lines : List String)
    → IsAppended log entry lines (append log entry lines)
unfolding append
append-IsAppended log entry lines =
    each_branch (IsAppended log entry lines) (log.path == "")
      (λ t. discarded (ground (arith, eq_iff log.path "")))
      (λ f.
        after_marshal-IsAppended log entry lines (λ e. ground (arith, eq_iff log.path ""))
          (log.answers.line entry) refl)
