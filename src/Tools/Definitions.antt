-- ===== src/Tools/Definitions.antt =====
-- `InjectedTools.Definitions`: the tools that are merged into tools/list, with the texts of their schemas.
use slack_mcp_extender.Base.{String, ◌<>◌, List, [], ◌∷◌}
use slack_mcp_extender.Jsonrpc.{ToolInfo}
use slack_mcp_extender.Tools.Handlers.{
  tool_file_upload, tool_file_upload_to_thread, tool_file_download,
}

abbrev upload_args : String
upload_args =
    "\n"
    <> ("\t\t\"channel_id\": {\"type\": \"string\", \"description\": \"ID of the channel "
        <> ("to post into (C…/G…/D…). Find it via the Slack tools, e.g. from a channel listing "
            <> ("or search result.\"},\n"
                <> ("\t\t\"file\": {\"type\": \"string\", \"description\": \"File to upload: a path "
                    <> ("relative to work_dir, or an absolute path inside it. Nothing outside work_dir "
                        <> ("can be uploaded — this file leaves the machine.\"},\n"
                            <> ("\t\t\"work_dir\": {\"type\": \"string\", \"description\": \"Absolute path to a "
                                <> ("directory you can read back — your session or working directory. Uploads are taken "
                                    <> ("from inside it and downloads land in it. It must already exist, and nothing here "
                                        <> ("expands ~ or resolves a relative path.\"},\n"
                                            <> ("\t\t\"comment\": {\"type\": \"string\", \"description\": \"Optional message text "
                                                <> ("posted together with the file.\"},\n"
                                                    <> ("\t\t\"filename\": {\"type\": \"string\", \"description\": \"Display name shown "
                                                        <> "in Slack (default: the file's basename).\"}")))))))))))))

abbrev file_upload_description : String
file_upload_description =
    "[extension] Upload a local file to Slack and post it as a new root message in "
    <> ("a channel. Not part of the official Slack MCP. The file must lie inside the work_dir "
        <> ("you name on the call — it leaves the machine, so nothing outside the directory "
            <> ("you are working in can be sent; the post appears under the authorizing user's "
                <> "own identity.")))

abbrev file_upload_schema : String
file_upload_schema =
    "{\n"
    <> ("\t\t\t\t\"type\": \"object\",\n"
        <> ("\t\t\t\t\"properties\": {"
            <> (upload_args
                <> ("},\n"
                    <> ("\t\t\t\t\"required\": [\"work_dir\", \"channel_id\", \"file\"]\n"
                        <> "\t\t\t}")))))

abbrev file_upload_to_thread_description : String
file_upload_to_thread_description =
    "[extension] Upload a local file to Slack and post it as a reply in an existing "
    <> ("thread. Same containment rules as ext_file_upload; thread_ts is the timestamp "
        <> "of the thread's root message.")

abbrev file_upload_to_thread_schema : String
file_upload_to_thread_schema =
    "{\n"
    <> ("\t\t\t\t\"type\": \"object\",\n"
        <> ("\t\t\t\t\"properties\": {"
            <> (upload_args
                <> (",\n"
                    <> ("\t\t\t\t\t\"thread_ts\": {\"type\": \"string\", \"description\": \"Timestamp (ts) "
                        <> ("of the message to reply to.\"}},\n"
                            <> ("\t\t\t\t\"required\": [\"work_dir\", \"channel_id\", \"file\", \"thread_ts\"]\n"
                                <> "\t\t\t}")))))))

abbrev file_download_description : String
file_download_description =
    "[extension] Download a Slack file to the local disk. The symmetric counterpart "
    <> ("of ext_file_upload: use it to get real files (binaries, archives, anything too "
        <> ("large for context) into the work_dir you name on the call. For reading textual "
            <> ("content into context, prefer the official slack_read_file. Never overwrites an "
                <> "existing file.")))

abbrev file_download_schema : String
file_download_schema =
    "{\n"
    <> ("\t\t\t\t\"type\": \"object\",\n"
        <> ("\t\t\t\t\"properties\": {\n"
            <> ("\t\t\t\t\t\"file_id\": {\"type\": \"string\", \"description\": \"Slack file ID "
                <> ("(F…), e.g. from a message's file attachment listing.\"},\n"
                    <> ("\t\t\t\t\t\"dest_dir\": {\"type\": \"string\", \"description\": \"Directory to "
                        <> ("place the file in: relative to work_dir, or an absolute path inside it. Defaults "
                            <> ("to work_dir itself. Must exist.\"},\n"
                                <> ("\t\t\t\t\t\"work_dir\": {\"type\": \"string\", \"description\": \"Absolute path "
                                    <> ("to a directory you can read back — your session or working directory. Downloads "
                                        <> ("land in it. It must already exist, and nothing here expands ~ or resolves a relative "
                                            <> ("path.\"},\n"
                                                <> ("\t\t\t\t\t\"filename\": {\"type\": \"string\", \"description\": \"Local filename "
                                                    <> ("to save as (default: the file's Slack name, sanitized to a bare basename).\"}\n"
                                                        <> ("\t\t\t\t},\n"
                                                            <> ("\t\t\t\t\"required\": [\"work_dir\", \"file_id\"]\n"
                                                            <> "\t\t\t}")))))))))))))))

unfoldable pub definitions : List ToolInfo
definitions =
    record {
      name = tool_file_upload;
      description = file_upload_description;
      input_schema = file_upload_schema;
    }
    ∷ record {
      name = tool_file_upload_to_thread;
      description = file_upload_to_thread_description;
      input_schema = file_upload_to_thread_schema;
    }
    ∷ record {
      name = tool_file_download;
      description = file_download_description;
      input_schema = file_download_schema;
    }
    ∷ []
