-- ===== src/Tests/Jsonrpc.antt =====
-- A merge of tools/list results, with texts that a small codec of its own writes and reads.
use slack_mcp_extender.Base.{
  String, Char, code, ◌≡◌, refl, ap, ◌∙◌, ◌↔◌, sym, ◌==◌, Option, none, some, List, [], ◌∷◌, map,
  if◌then◌else◌, eqb, grow,
}
use Prim.Native.String.{[], ◌∷◌}
use slack_mcp_extender.Base.Result.{ok}
use mathlib.Core.Option.{some-injective}
use slack_mcp_extender.Json.{lookup, insert}
use slack_mcp_extender.Jsonrpc.{
  RawCodec, nil_map, entries, ToolInfo, merged, panicked, merge_tools_list_result,
}
use slack_mcp_extender.Jsonrpc.Panics.{IsWritable, merge_tools_list_result-panics}
use slack_mcp_extender.Jsonrpc.Merged.{
  WritesCompact, IsMerged, merge_tools_list_result-IsMerged, written,
}

-- Each character after an "x", each text ended by "..".
abbrev dot : Char
dot = "."

abbrev ex : Char
ex = "x"

abbrev pub write_text : String → String → String
write_text [] rest = dot ∷ dot ∷ rest
write_text (c ∷ s) rest = ex ∷ c ∷ write_text s rest

abbrev pub write_texts : List String → String
write_texts [] = ""
write_texts (e ∷ es) = write_text e (write_texts es)

abbrev pub read_texts : String → List String
read_texts [] = []
read_texts (c ∷ []) = []
read_texts (c ∷ d ∷ s) =
    let rest = read_texts s in if eqb (code c) 46 then [] ∷ rest else grow d rest

read_texts-write_text : (e rest : String) → read_texts (write_text e rest) ≡ e ∷ read_texts rest
read_texts-write_text [] rest = refl
read_texts-write_text (c ∷ e) rest = ap (grow c) (read_texts-write_text e rest)

read_texts-write_texts : (es : List String) → read_texts (write_texts es) ≡ es
read_texts-write_texts [] = refl
read_texts-write_texts (e ∷ es) =
    read_texts-write_text e (write_texts es) ∙ ap (λ l. e ∷ l) (read_texts-write_texts es)

abbrev pub flat : List (String × String) → List String
flat [] = []
flat ((k, v) ∷ ms) = k ∷ v ∷ flat ms

abbrev pub pairs : List String → List (String × String)
pairs [] = []
pairs (k ∷ []) = []
pairs (k ∷ v ∷ es) = (k, v) ∷ pairs es

pairs-flat : (ms : List (String × String)) → pairs (flat ms) ≡ ms
pairs-flat [] = refl
pairs-flat ((k, v) ∷ ms) = ap (λ l. (k, v) ∷ l) (pairs-flat ms)

map_same : (es : List String) → map (λ e. e) es ≡ es
map_same [] = refl
map_same (e ∷ es) = ap (λ l. e ∷ l) (map_same es)

written_same : (o : Option String) → written (λ e. e) o ≡ o
written_same none = refl
written_same (some text) = refl

-- A tool is written as its name.
abbrev pub small : RawCodec
small = record {
  parse = λ text. none;
  marshal_message = λ m. ok m.id;
  marshal_result = λ r. ok "{}";
  parse_tool_call = λ text. none;
  object_of = λ text. some (entries (pairs (read_texts text)));
  array_of = λ text. some (read_texts text);
  name_of = λ text. some text;
  marshal_tool = λ tool. some tool.name;
  marshal_array = λ es. some (write_texts es);
  marshal_object = λ ms. some (write_texts (flat ms));
}

read_array :
    (es : List String) (text : String)
    → ◌≡◌ {A = Option String} (some (write_texts es)) (some text)
    → read_texts text ≡ map (λ e. e) es
read_array es text h =
    ap read_texts (sym (some-injective (write_texts es) text h))
    ∙ (read_texts-write_texts es ∙ sym (map_same es))

read_object :
    (ms : List (String × String)) (text : String)
    → ◌≡◌ {A = Option String} (some (write_texts (flat ms))) (some text)
    → read_texts text ≡ flat ms
read_object ms text h =
    ap read_texts (sym (some-injective (write_texts (flat ms)) text h))
    ∙ read_texts-write_texts (flat ms)

small-WritesCompact : WritesCompact small (λ text. text)
small-WritesCompact = record {
  array = λ es text h. (ap some (read_array es text h), refl);
  object = λ ms text h. (
    ms,
    ap (λ l. some (entries (pairs l))) (read_object ms text h)
        ∙ ap (λ l. some (entries l)) (pairs-flat ms),
    λ key. sym (written_same (lookup key ms)),
  );
}

abbrev upload_tool : ToolInfo
upload_tool = record { name = "up"; description = ""; input_schema = "" }

abbrev upstream_result : String
upstream_result = write_texts ("tools" ∷ write_texts ("read" ∷ "up" ∷ []) ∷ "cursor" ∷ "7" ∷ [])

abbrev merged_result : String
merged_result = write_texts ("tools" ∷ write_texts ("read" ∷ "up" ∷ []) ∷ "cursor" ∷ "7" ∷ [])

runs :
    merge_tools_list_result small upstream_result (upload_tool ∷ [])
    ≡ merged merged_result ("up" ∷ [])
unfolding merge_tools_list_result lookup insert
runs = refl

merge_tools_list_result-IsMerged_example :
    IsMerged small (λ text. text) upstream_result (upload_tool ∷ []) merged_result ("up" ∷ [])
merge_tools_list_result-IsMerged_example =
    merge_tools_list_result-IsMerged small (λ text. text) small-WritesCompact upstream_result
      (upload_tool ∷ []) merged_result ("up" ∷ []) runs

-- A codec that decodes null alone.
abbrev null_codec : RawCodec
null_codec = record small { object_of = λ text. if text == "null" then some nil_map else none }

panics_on_null : merge_tools_list_result null_codec "null" (upload_tool ∷ []) ≡ panicked
unfolding merge_tools_list_result
panics_on_null = refl

merge_tools_list_result-panics_example :
    (merge_tools_list_result null_codec "null" (upload_tool ∷ []) ≡ panicked)
    ↔ ((null_codec.object_of "null" ≡ some nil_map) × IsWritable null_codec (upload_tool ∷ []))
merge_tools_list_result-panics_example =
    merge_tools_list_result-panics null_codec (upload_tool ∷ []) "null"
