-- ===== src/Transfer/Types.antt =====
-- The requests, results and errors of a transfer, and the entries of the audit log.
use slack_mcp_extender.Base.{String, ◌<>◌, Option}
use slack_mcp_extender.Base.Int.{ℤ}
use slack_mcp_extender.Base.Result.{Result}

pub record UploadRequest : Type 0 where
  pub path : String
  pub filename : String
  pub channel_id : String
  pub comment : String
  pub thread_ts : String

pub record UploadResult : Type 0 where
  pub file_id : String
  pub filename : String
  pub size : ℤ
  pub channel_id : String
  pub thread_ts : String

-- What `files.info` says of a file.
pub record FileInfo : Type 0 where
  pub id : String
  pub name : String
  pub size : ℤ
  pub download_url : String

-- The errors that callers tell apart: `*SlackError`, those that wrap `ErrTooLarge`, and the rest.
pub data TransferError : Type 0 where
  slack_error : (method reason : String) → TransferError
  too_large : String → TransferError
  failed : String → TransferError

-- `err.Error()`
unfoldable pub error_text : TransferError → String
error_text (slack_error method reason) = method <> (": " <> reason)
error_text (too_large text) = text
error_text (failed text) = text

-- The time is stamped when the entry is written.
pub record AuditEntry : Type 0 where
  pub tool : String
  pub path : String
  pub size : ℤ
  pub channel_id : String
  pub thread_ts : String
  pub file_id : String
  pub outcome : String
  pub error : String

-- The interface `FileTransfer` over the state of the outside world, and `AuditLog.Append`, which
-- returns the text of its error if it fails, over the state of the log's file.
pub record Services (S A : Type 0) : Type 0 where
  pub upload : UploadRequest → S → Result TransferError UploadResult × S
  pub info : String → S → Result TransferError FileInfo × S
  pub fetch_to : FileInfo → String → ℤ → S → Result TransferError ℤ × S
  pub append : AuditEntry → A → Option String × A
