-- ===== src/Jsonrpc/Merged.antt =====
-- What a merged tools/list result holds.
use slack_mcp_extender.Base.{
  String, ◌≡◌, ◌≢◌, refl, sym, subst, ap, ◌∙◌, true, false, Option, none, some, List, [], ◌∷◌, ◌++◌,
  map, arith, Bool-cases, inl, inr, ◌==◌, eq_iff, if◌then◌else◌,
}
use mathlib.Core.Option.{some-injective}
use slack_mcp_extender.Json.{lookup, insert}
use slack_mcp_extender.Jsonrpc.{
  RawCodec, RawObject, nil_map, entries, ToolInfo, merged, names, mentions, collided, keep_unless,
  report, marshalled, merge_decoded, kept_entries, collisions, marshal_tools, upstream_tools,
  write_tools, with_tools, merge_object, merge_tools_list_result,
}

lookup-insert :
    (key k : String) (v : String) (ms : List (String × String))
    → lookup key (insert k v ms) ≡ (if k == key then some v else lookup key ms)
unfolding lookup insert
lookup-insert key k v [] = refl
lookup-insert key k v ((j, w) ∷ ms) =
    ground (arith, eq_iff j k, eq_iff k key, eq_iff j key, lookup-insert key k v ms)

abbrev pub written : (String → String) → Option String → Option String
written compact none = none
written compact (some text) = some (compact text)

-- Documented of `json.Marshal`: raw members and entries are written in their compact form, and what
-- is written decodes again.
pub record WritesCompact (codec : RawCodec) (compact : String → String) : Type 0 where
  pub array :
      (es : List String) (text : String)
      → codec.marshal_array es ≡ some text
      → (codec.array_of text ≡ some (map compact es)) × (compact text ≡ text)
  pub object :
      (ms : List (String × String)) (text : String)
      → codec.marshal_object ms ≡ some text
      → (ms' : List (String × String)) × (codec.object_of text ≡ some (entries ms'))
        × ((key : String) → lookup key ms' ≡ written compact (lookup key ms))

-- How the upstream entries are parted into those that are kept and the names that collide.
pub data Parted (codec : RawCodec) (injected : List String)
    : List String → List String → List String → Type 0 where
  done : Parted codec injected [] [] []
  keep :
      {e : String} {es kept found : List String}
      → ((name : String) → codec.name_of e ≡ some name → mentions name injected ≡ false)
      → Parted codec injected es kept found
      → Parted codec injected (e ∷ es) (e ∷ kept) found
  drop :
      {e name : String} {es kept found : List String}
      → codec.name_of e ≡ some name
      → mentions name injected ≡ true
      → Parted codec injected es kept found
      → Parted codec injected (e ∷ es) kept (name ∷ found)

entry-Parted :
    (codec : RawCodec) (injected : List String) (e : String) (es kept found : List String)
    → Parted codec injected es kept found
    → (probe : Option String) → codec.name_of e ≡ probe
    → Parted codec injected
        (e ∷ es)
        (keep_unless (collided injected probe) e kept)
        (report (collided injected probe) found)
entry-Parted codec injected e es kept found p none q =
    keep (λ name r. let no : ◌≡◌ {A = Option String} none (some name) = sym q ∙ r in cc) p
entry-Parted codec injected e es kept found p (some name) q =
    elim (Bool-cases (mentions name injected)) [
      | inl t ↦ rw t (drop q t p)
      | inr f ↦ rw f (keep (λ n r. rw (some-injective n name (sym r ∙ q)) f) p)
    ]

entries-Parted :
    (codec : RawCodec) (injected es : List String)
    → Parted codec injected es (kept_entries codec injected es) (collisions codec injected es)
unfolding kept_entries collisions
entries-Parted codec injected [] = done
entries-Parted codec injected (e ∷ es) =
    entry-Parted codec injected e es _ _ (entries-Parted codec injected es) (codec.name_of e) refl

module _ (codec : RawCodec) (compact : String → String) where
  -- The merged result: its tools are the upstream entries that do not collide, in their order,
  -- followed by the injected definitions; its other members are those of the upstream result.
  pub record IsMerged (result : String) (injected : List ToolInfo) (out : String)
      (found : List String) : Type 0 where
    pub ms : List (String × String)
    pub ms' : List (String × String)
    pub tools : List String
    pub kept : List String
    pub texts : List String
    pub text : String
    pub decoded : codec.object_of result ≡ some (entries ms)
    pub upstream : upstream_tools codec (entries ms) ≡ some tools
    pub local : marshal_tools codec injected ≡ some texts
    pub parted : Parted codec (names injected) tools kept found
    pub reads : codec.object_of out ≡ some (entries ms')
    pub listed : lookup "tools" ms' ≡ some text
    pub merged_tools : codec.array_of text ≡ some (map compact (kept ++ texts))
    pub others : (key : String) → key ≢ "tools" → lookup key ms' ≡ written compact (lookup key ms)

  module _ (w : WritesCompact codec compact) where
    written_of_other :
        (key text : String) (ms : List (String × String))
        → key ≢ "tools"
        → written compact (lookup key (insert "tools" text ms)) ≡ written compact (lookup key ms)
    written_of_other key text ms n =
        ap (written compact)
          (lookup-insert key "tools" text ms ∙ ground (arith, eq_iff "tools" key))

    written_of_tools :
        (text : String) (ms : List (String × String))
        → compact text ≡ text
        → written compact (lookup "tools" (insert "tools" text ms)) ≡ some text
    written_of_tools text ms fixed =
        ap (written compact) (lookup-insert "tools" "tools" text ms) ∙ ap some fixed

    parts-IsMerged :
        (result out text : String) (injected : List ToolInfo) (ms : List (String × String))
        (tools texts : List String)
        → codec.object_of result ≡ some (entries ms)
        → upstream_tools codec (entries ms) ≡ some tools
        → marshal_tools codec injected ≡ some texts
        → codec.marshal_array (kept_entries codec (names injected) tools ++ texts) ≡ some text
        → codec.marshal_object (insert "tools" text ms) ≡ some out
        → IsMerged result injected out (collisions codec (names injected) tools)
    parts-IsMerged result out text injected ms tools texts decoded upstream local arrayed
          marshalled =
        let (reads_tools, fixed) = w.array _ text arrayed in
        let (ms', reads, members) = w.object _ out marshalled in
        record {
          ms = ms;
          ms' = ms';
          tools = tools;
          kept = kept_entries codec (names injected) tools;
          texts = texts;
          text = text;
          decoded = decoded;
          upstream = upstream;
          local = local;
          parted = entries-Parted codec (names injected) tools;
          reads = reads;
          listed = members "tools" ∙ written_of_tools text ms fixed;
          merged_tools = reads_tools;
          others = λ key n. members key ∙ written_of_other key text ms n;
        }

    marshalled-IsMerged :
        (result out text : String) (injected : List ToolInfo) (ms : List (String × String))
        (tools texts found : List String)
        → codec.object_of result ≡ some (entries ms)
        → upstream_tools codec (entries ms) ≡ some tools
        → marshal_tools codec injected ≡ some texts
        → codec.marshal_array (kept_entries codec (names injected) tools ++ texts) ≡ some text
        → (written_out : Option String)
        → codec.marshal_object (insert "tools" text ms) ≡ written_out
        → marshalled (collisions codec (names injected) tools) written_out ≡ merged out found
        → IsMerged result injected out found
    marshalled-IsMerged result out text injected ms tools texts found d u l a none m h = cc
    marshalled-IsMerged result out text injected ms tools texts found d u l a (some out') m h =
        let same_out : out' ≡ out = cc in
        let same_found : collisions codec (names injected) tools ≡ found = cc in
        subst (λ o. IsMerged result injected o found) same_out
          (subst (λ f. IsMerged result injected out' f) same_found
            (parts-IsMerged result out' text injected ms tools texts d u l a m))

    written-IsMerged :
        (result out : String) (injected : List ToolInfo) (object : RawObject)
        (tools texts found : List String)
        → codec.object_of result ≡ some object
        → upstream_tools codec object ≡ some tools
        → marshal_tools codec injected ≡ some texts
        → (arrayed : Option String)
        → codec.marshal_array (kept_entries codec (names injected) tools ++ texts) ≡ arrayed
        → write_tools codec object (collisions codec (names injected) tools) arrayed
          ≡ merged out found
        → IsMerged result injected out found
    written-IsMerged result out injected object tools texts found d u l none a h = cc
    written-IsMerged result out injected nil_map tools texts found d u l (some text) a h = cc
    written-IsMerged result out injected (entries ms) tools texts found d u l (some text) a h =
        marshalled-IsMerged result out text injected ms tools texts found d u l a
          (codec.marshal_object (insert "tools" text ms)) refl h

    with_tools-IsMerged :
        (result out : String) (injected : List ToolInfo) (object : RawObject)
        (tools found : List String)
        → codec.object_of result ≡ some object
        → upstream_tools codec object ≡ some tools
        → (local : Option (List String)) → marshal_tools codec injected ≡ local
        → with_tools codec object (names injected) tools local ≡ merged out found
        → IsMerged result injected out found
    with_tools-IsMerged result out injected object tools found d u none l h = cc
    with_tools-IsMerged result out injected object tools found d u (some texts) l h =
        written-IsMerged result out injected object tools texts found d u l _ refl h

    merge_object-IsMerged :
        (result out : String) (injected : List ToolInfo) (object : RawObject) (found : List String)
        → codec.object_of result ≡ some object
        → (upstream : Option (List String)) → upstream_tools codec object ≡ upstream
        → merge_object codec injected object upstream ≡ merged out found
        → IsMerged result injected out found
    merge_object-IsMerged result out injected object found d none u h = cc
    merge_object-IsMerged result out injected object found d (some tools) u h =
        with_tools-IsMerged result out injected object tools found d u _ refl h

    merge_decoded-IsMerged :
        (result out : String) (injected : List ToolInfo) (found : List String)
        (decoded : Option RawObject)
        → codec.object_of result ≡ decoded
        → merge_decoded codec injected decoded ≡ merged out found
        → IsMerged result injected out found
    merge_decoded-IsMerged result out injected found none d h = cc
    merge_decoded-IsMerged result out injected found (some object) d h =
        merge_object-IsMerged result out injected object found d _ refl h

    -- Where marshalling writes compact forms that decode again, a merge that succeeds keeps every
    -- upstream tool that does not collide, compactly written and in order, before the injected ones,
    -- reports the names of the others, and keeps the result's other members.
    pub merge_tools_list_result-IsMerged :
        (result : String) (injected : List ToolInfo) (out : String) (found : List String)
        → merge_tools_list_result codec result injected ≡ merged out found
        → IsMerged result injected out found
    unfolding merge_tools_list_result
    merge_tools_list_result-IsMerged result injected out found h =
        merge_decoded-IsMerged result out injected found (codec.object_of result) refl h
