-- ===== src/Jsonrpc.antt =====
-- internal/jsonrpc/jsonrpc.go: messages whose members stay as raw text, and the merge of the injected
-- tools into a tools/list result.
pub mod Merged
pub mod Panics
use slack_mcp_extender.Base.{
  String, Bool, true, false, ◌&&◌, ◌||◌, not, Option, none, some, List, [], ◌∷◌, ◌++◌, map,
  if◌then◌else◌, ◌==◌,
}
use slack_mcp_extender.Base.Int.{ℤ, negsuc}
use slack_mcp_extender.Base.Result.{Result, err, ok}
use slack_mcp_extender.Json.{Json, lookup, insert}
use slack_mcp_extender.Tools.Replies.{ToolResult}

-- A `json.RawMessage` is its text, "" where it is absent; a result that is present is `some`.
pub record RpcError : Type 0 where
  pub error_code : ℤ
  pub message : String
  pub error_data : String

pub record Message : Type 0 where
  pub jsonrpc : String
  pub id : String
  pub method : String
  pub params : String
  pub result : Option String
  pub error : Option RpcError

abbrev pub has_id : Message → Bool
has_id m = not (m.id == "") && not (m.id == "null")

unfoldable pub is_request : Message → Bool
is_request m = not (m.method == "") && has_id m

unfoldable pub is_notification : Message → Bool
is_notification m = not (m.method == "") && (m.id == "" || m.id == "null")

abbrev pub is_some {ℓ} : {A : Type ℓ} → Option A → Bool
is_some none = false
is_some (some a) = true

unfoldable pub is_response : Message → Bool
is_response m = m.method == "" && (is_some m.result || is_some m.error)

unfoldable pub comparable : String → String
comparable id = if id == "" || id == "null" then "" else id

abbrev pub id_string : Message → String
id_string m = comparable m.id

pub record ToolCallParams : Type 0 where
  pub name : String
  pub arguments : List (String × Json)
  pub meta : List (String × Json)

pub record ToolInfo : Type 0 where
  pub name : String
  pub description : String
  pub input_schema : String

-- A decoded object; `null` decodes to a nil map, into which nothing can be written.
pub data RawObject : Type 0 where
  nil_map : RawObject
  entries : List (String × String) → RawObject

-- `encoding/json` on raw text; `none` is its error, which where it is reported has a text. A tool's
-- entry is probed for its name.
pub record RawCodec : Type 0 where
  pub parse : String → Option Message
  pub marshal_message : Message → Result String String
  pub marshal_result : ToolResult → Result String String
  pub parse_tool_call : String → Option ToolCallParams
  pub object_of : String → Option RawObject
  pub array_of : String → Option (List String)
  pub name_of : String → Option String
  pub marshal_tool : ToolInfo → Option String
  pub marshal_array : List String → Option String
  pub marshal_object : List (String × String) → Option String

unfoldable pub new_error_response : String → ℤ → String → Message
new_error_response id error_code message = record {
  jsonrpc = "2.0";
  id = id;
  method = "";
  params = "";
  result = none;
  error = some (record { error_code = error_code; message = message; error_data = "" });
}

abbrev pub result_message : String → Result String String → Result String Message
result_message id (err e) = err e
result_message id (ok text) = ok (record {
  jsonrpc = "2.0";
  id = id;
  method = "";
  params = "";
  result = some text;
  error = none;
})

unfoldable pub new_result_response : RawCodec → String → ToolResult → Result String Message
new_result_response codec id result = result_message id (codec.marshal_result result)

-- The outcome of a merge: the new result with the names that collided, an error, or a panic.
pub data Merge : Type 0 where
  merged : String → List String → Merge
  failed : Merge
  panicked : Merge

abbrev pub names : List ToolInfo → List String
names [] = []
names (tool ∷ tools) = tool.name ∷ names tools

abbrev pub mentions : String → List String → Bool
mentions name [] = false
mentions name (n ∷ ns) = n == name || mentions name ns

abbrev pub collided : List String → Option String → Option String
collided injected none = none
collided injected (some name) = if mentions name injected then some name else none

abbrev pub keep_unless : Option String → String → List String → List String
keep_unless none entry kept = entry ∷ kept
keep_unless (some name) entry kept = kept

abbrev pub report : Option String → List String → List String
report none found = found
report (some name) found = name ∷ found

abbrev pub marshalled : List String → Option String → Merge
marshalled found none = failed
marshalled found (some result) = merged result found

module _ (codec : RawCodec) where
  -- The upstream entries that do not collide, and the names of those that do; an entry that cannot
  -- be decoded does not.
  unfoldable pub kept_entries : List String → List String → List String
  kept_entries injected [] = []
  kept_entries injected (entry ∷ tools) =
      keep_unless (collided injected (codec.name_of entry)) entry (kept_entries injected tools)

  unfoldable pub collisions : List String → List String → List String
  collisions injected [] = []
  collisions injected (entry ∷ tools) =
      report (collided injected (codec.name_of entry)) (collisions injected tools)

  unfoldable pub marshal_tools : List ToolInfo → Option (List String)
  marshal_tools [] = some []
  marshal_tools (tool ∷ tools) = elim (codec.marshal_tool tool) [
    | none ↦ none
    | some text ↦ elim (marshal_tools tools) [ none ↦ none | some more ↦ some (text ∷ more) ]
  ]

  -- The upstream tools of a decoded result: none where it has no such member.
  abbrev pub tools_member : Option String → Option (List String)
  tools_member none = some []
  tools_member (some text) = codec.array_of text

  abbrev pub upstream_tools : RawObject → Option (List String)
  upstream_tools nil_map = some []
  upstream_tools (entries ms) = tools_member (lookup "tools" ms)

  -- `resultObj["tools"] = …` panics on a nil map.
  abbrev pub write_tools : RawObject → List String → Option String → Merge
  write_tools object found none = failed
  write_tools nil_map found (some text) = panicked
  write_tools (entries ms) found (some text) =
      marshalled found (codec.marshal_object (insert "tools" text ms))

  abbrev pub with_tools : RawObject → List String → List String → Option (List String) → Merge
  with_tools object injected tools none = failed
  with_tools object injected tools (some texts) =
      write_tools object (collisions injected tools)
        (codec.marshal_array (kept_entries injected tools ++ texts))

  abbrev pub merge_object : List ToolInfo → RawObject → Option (List String) → Merge
  merge_object injected object none = failed
  merge_object injected object (some tools) =
      with_tools object (names injected) tools (marshal_tools injected)

  abbrev pub merge_decoded : List ToolInfo → Option RawObject → Merge
  merge_decoded injected none = failed
  merge_decoded injected (some object) = merge_object injected object (upstream_tools object)

  unfoldable pub merge_tools_list_result : String → List ToolInfo → Merge
  unfolding kept_entries collisions marshal_tools
  merge_tools_list_result result injected = merge_decoded injected (codec.object_of result)
