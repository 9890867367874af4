-- ===== src/Jsonrpc/Panics.antt =====
-- When the merge of a tools/list result panics.
use slack_mcp_extender.Base.{String, ◌≡◌, ◌↔◌, refl, Option, none, some, List, [], ◌++◌}
use slack_mcp_extender.Json.{insert}
use slack_mcp_extender.Jsonrpc.{
  RawCodec, RawObject, nil_map, entries, ToolInfo, panicked, names, marshalled, kept_entries,
  collisions, marshal_tools, write_tools, with_tools, merge_object, merge_decoded, upstream_tools,
  merge_tools_list_result,
}

module _ (codec : RawCodec) (injected : List ToolInfo) where
  -- The injected tools can be written alone.
  pub record IsWritable : Type 0 where
    pub texts : List String
    pub text : String
    pub tools : marshal_tools codec injected ≡ some texts
    pub array : codec.marshal_array (kept_entries codec (names injected) [] ++ texts) ≡ some text

  IsWritable-of_array :
      (texts : List String) (text : Option String)
      → marshal_tools codec injected ≡ some texts
      → codec.marshal_array (kept_entries codec (names injected) [] ++ texts) ≡ text
      → write_tools codec nil_map (collisions codec (names injected) []) text ≡ panicked
      → IsWritable
  IsWritable-of_array texts none h k p = cc
  IsWritable-of_array texts (some text) h k p = record {
    texts = texts;
    text = text;
    tools = h;
    array = k;
  }

  IsWritable-of_tools :
      (texts : Option (List String))
      → marshal_tools codec injected ≡ texts
      → with_tools codec nil_map (names injected) [] texts ≡ panicked
      → IsWritable
  IsWritable-of_tools none h p = cc
  IsWritable-of_tools (some texts) h p = IsWritable-of_array texts _ h refl p

  -- A result that is an object merges or fails.
  marshalled-no_panic :
      (found : List String) (r : Option String) → marshalled found r ≡ panicked → ⊥
  marshalled-no_panic found none p = cc
  marshalled-no_panic found (some result) p = cc

  write_tools-no_panic :
      (ms : List (String × String)) (found : List String) (text : Option String)
      → write_tools codec (entries ms) found text ≡ panicked
      → ⊥
  write_tools-no_panic ms found none p = cc
  write_tools-no_panic ms found (some text) p =
      marshalled-no_panic found (codec.marshal_object (insert "tools" text ms)) p

  with_tools-no_panic :
      (ms : List (String × String)) (tools : List String) (texts : Option (List String))
      → with_tools codec (entries ms) (names injected) tools texts ≡ panicked
      → ⊥
  with_tools-no_panic ms tools none p = cc
  with_tools-no_panic ms tools (some texts) p = write_tools-no_panic ms _ _ p

  merge_object-no_panic :
      (ms : List (String × String)) (tools : Option (List String))
      → merge_object codec injected (entries ms) tools ≡ panicked
      → ⊥
  merge_object-no_panic ms none p = cc
  merge_object-no_panic ms (some tools) p =
      with_tools-no_panic ms tools (marshal_tools codec injected) p

  merge_decoded-panics :
      (o : Option RawObject)
      → merge_decoded codec injected o ≡ panicked
      → (o ≡ some nil_map) × IsWritable
  merge_decoded-panics none p = cc
  merge_decoded-panics (some nil_map) p =
      (refl, IsWritable-of_tools (marshal_tools codec injected) refl p)
  merge_decoded-panics (some (entries ms)) p =
      absurd (merge_object-no_panic ms (upstream_tools codec (entries ms)) p)

  -- The merge panics exactly where the upstream's result decodes to a nil map, as null does, and the
  -- injected tools can be marshalled.
  pub merge_tools_list_result-panics :
      (result : String)
      → (merge_tools_list_result codec result injected ≡ panicked)
        ↔ ((codec.object_of result ≡ some nil_map) × IsWritable)
  unfolding merge_tools_list_result
  merge_tools_list_result-panics result =
      (merge_decoded-panics (codec.object_of result), λ h. rw (h.0, h.1.tools, h.1.array) refl)
