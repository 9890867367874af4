-- ===== src/Tools/Replies.antt =====
-- The results of a tool call, and the texts of the refusals.
use slack_mcp_extender.Base.{String, ◌<>◌, Bool, true, List, [], ◌∷◌, ◌++◌}
use slack_mcp_extender.Json.{Json, str, object, Codec}
use slack_mcp_extender.Containment.Types.{
  Detail, Violation, no_root_configured, file_requires_work_dir, dest_dir_requires_work_dir,
  work_dir_must_be_absolute, refused_path, denied_dir, file_outside, dest_dir_outside,
  cannot_resolve, cannot_stat, cannot_resolve_dest_dir, not_regular, not_existing_directory, hidden,
  exceeds_cap, already_exists, no_usable_name, has_control_characters,
}

-- internal/jsonrpc's `ToolContent`, and `ToolResult`.
pub record ToolContent : Type 0 where
  pub kind : String
  pub text : String

pub record ToolResult : Type 0 where
  pub content : List ToolContent
  pub is_error : Bool

module _ (codec : Codec) where
  open codec use {quote, decimal, marshal}

  unfoldable pub detail_text : Detail → String
  detail_text no_root_configured =
      "no root configured for this policy; the root is the work_dir the call named (ADR-0003)"
  detail_text (file_requires_work_dir file) =
      "relative file " <> (quote file <> " requires work_dir")
  detail_text (dest_dir_requires_work_dir dir) =
      "relative dest_dir " <> (quote dir <> " requires work_dir")
  detail_text (work_dir_must_be_absolute dir) = "work_dir " <> (quote dir <> " must be absolute")
  detail_text (refused_path path why) = quote path <> (" is refused: " <> why)
  detail_text (denied_dir why) = why
  detail_text (file_outside raw) = quote raw <> " resolves outside every allowed root"
  detail_text (dest_dir_outside raw) =
      "dest_dir " <> (quote raw <> " resolves outside every allowed root")
  detail_text (cannot_resolve raw e) = "cannot resolve " <> (quote raw <> (": " <> e))
  detail_text (cannot_stat path e) = "cannot stat " <> (quote path <> (": " <> e))
  detail_text (cannot_resolve_dest_dir raw e) =
      "cannot resolve dest_dir " <> (quote raw <> (": " <> e))
  detail_text (not_regular path mode) =
      quote path <> (" is not a regular file (mode " <> (mode <> ")"))
  detail_text (not_existing_directory raw) =
      "dest_dir " <> (quote raw <> " is not an existing directory")
  detail_text (hidden component) =
      "path component "
      <> (quote component <> " below allowed root is hidden (set allow_hidden to permit)")
  detail_text (exceeds_cap size cap) =
      "file is " <> (decimal size <> (" bytes, cap is " <> decimal cap))
  detail_text (already_exists target) = quote target <> " already exists; choose another filename"
  detail_text (no_usable_name name) = "filename " <> (quote name <> " reduces to no usable name")
  detail_text (has_control_characters name) =
      "filename " <> (quote name <> " contains control characters")

  -- `Violation.Error`
  unfoldable pub violation_text : Violation → String
  unfolding detail_text
  violation_text v = "path denied (" <> (v.reason <> ("): " <> detail_text v.detail))

  -- One text item that holds a marshalled object.
  unfoldable pub text_result : Bool → List (String × Json) → ToolResult
  text_result is_error fields = record {
    content = record { kind = "text"; text = marshal (object fields) } ∷ [];
    is_error = is_error;
  }

  -- `details` stand in the object only if there are some; a Go map is written in its keys' order.
  abbrev detail_field : List (String × Json) → List (String × Json)
  detail_field [] = []
  detail_field (field ∷ more) = ("details", object (field ∷ more)) ∷ []

  unfoldable pub error_result : String → String → List (String × Json) → ToolResult
  unfolding text_result
  error_result code message details =
      text_result true
        ((("code", str code) ∷ []) ++ (detail_field details ++ (("message", str message) ∷ [])))
