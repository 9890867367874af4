-- ===== src/Tools/Handlers/Audit.antt =====
-- One entry in the audit log, and what it says of the call.
use slack_mcp_extender.Base.{String, ◌≡◌, refl, Bool, true, false, [], ◌∷◌, ◌++◌, ◌⊎◌, inl, inr}
use slack_mcp_extender.Base.Result.{Result, ok, err}
use slack_mcp_extender.Json.{Codec}
use slack_mcp_extender.Containment.Types.{Violation, Policy}
use slack_mcp_extender.Transfer.Types.{
  Services, AuditEntry, TransferError, slack_error, too_large, failed,
}
use slack_mcp_extender.Tools.Replies.{ToolResult, error_result, text_result}
use slack_mcp_extender.Tools.Handlers.{State, path_denied, transfer_failure}

-- The outcome in the log is the one that the caller is told.
abbrev pub Agrees : AuditEntry → ToolResult → Type 0
Agrees entry result =
    ((entry.outcome ≡ "ok") × (result.is_error ≡ false))
    ⊎ ((entry.outcome ≡ "denied") × (result.is_error ≡ true))
    ⊎ ((entry.outcome ≡ "error") × (result.is_error ≡ true))

module _ {S A : Type 0} where
  -- The call adds one entry for the tool to those handed to the log, and it agrees with the result.
  pub record IsRecorded (tool : String) (before : State S A) (out : ToolResult × State S A)
      : Type 0 where
    pub entry : AuditEntry
    pub appended : out.1.audited ≡ before.audited ++ entry ∷ []
    pub of_tool : entry.tool ≡ tool
    pub agrees : Agrees entry out.0

module _ {S A : Type 0} (codec : Codec) (svc : Services S A) where
  pub path_denied-IsRecorded :
      (tool : String) (v : Violation) (channel_id thread_ts : String) (st : State S A)
      → IsRecorded tool st (path_denied codec svc tool v channel_id thread_ts st)
  unfolding path_denied error_result text_result
  path_denied-IsRecorded tool v channel_id thread_ts st = record {
    entry = _;
    appended = refl;
    of_tool = refl;
    agrees = inr (inl (refl, refl));
  }

pub is_error-transfer_failure :
    (codec : Codec) (code : String) (e : TransferError)
    → (transfer_failure codec code e).is_error ≡ true
unfolding transfer_failure error_result text_result
is_error-transfer_failure codec code (slack_error method reason) = refl
is_error-transfer_failure codec code (too_large text) = refl
is_error-transfer_failure codec code (failed text) = refl

-- With the test whether arguments are missing and the outcome of the policy for the work directory,
-- a call that lacks an argument, or whose work directory is refused, is told an error and changes
-- nothing; any other is recorded.
pub data IsAccounted {S A : Type 0} (tool : String) (lacking : Bool)
    (policed : Result ToolResult (String × Policy)) (before : State S A)
    (out : ToolResult × State S A) : Type 0 where
  lacks :
      lacking ≡ true
      → out.0.is_error ≡ true
      → out.1 ≡ before
      → IsAccounted tool lacking policed before out
  no_directory :
      (refusal : ToolResult)
      → lacking ≡ false
      → policed ≡ err refusal
      → refusal.is_error ≡ true
      → out ≡ (refusal, before)
      → IsAccounted tool lacking policed before out
  recorded :
      (dir : String) (p : Policy)
      → lacking ≡ false
      → policed ≡ ok (dir, p)
      → IsRecorded tool before out
      → IsAccounted tool lacking policed before out
