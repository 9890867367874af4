-- ===== src/Config/Lookup/Found.antt =====
-- Where a configuration that is looked up by name may lie.
use slack_mcp_extender.Base.{
  String, ◌≡◌, refl, sym, subst, ◌∙◌, All, Bool, true, false, each_branch, List, [], ◌∷◌, inl, inr,
  In,
}
use slack_mcp_extender.Base.Result.{Result, err, ok}
use slack_mcp_extender.Config.Types.{System}
use slack_mcp_extender.Config.Load.{default_config_dir}
use slack_mcp_extender.Config.Lookup.{
  has_separator, candidates, first_existing, in_default_dir, resolve_config_arg,
}

module _ (sys : System) (exists : String → Bool) (arg : String) where
  abbrev pub IsMissing : String → Type 0
  IsMissing path = exists path ≡ false

  -- The argument itself; or an existing candidate of the default directory, where there is no file
  -- of the argument's name; or an error, where none of these exists.
  pub data IsFound : Result String String → Type 0 where
    as_path : has_separator arg ≡ true → IsFound (ok arg)
    here : has_separator arg ≡ false → exists arg ≡ true → IsFound (ok arg)
    by_name :
        {d c : String}
        → has_separator arg ≡ false
        → exists arg ≡ false
        → default_config_dir sys ≡ ok d
        → In c (candidates arg d)
        → exists c ≡ true
        → IsFound (ok c)
    not_found :
        {e : String}
        → has_separator arg ≡ false
        → exists arg ≡ false
        → ((d : String) → default_config_dir sys ≡ ok d → All IsMissing (candidates arg d))
        → IsFound (err e)

  module _ (absent : exists arg ≡ false) (bare : has_separator arg ≡ false) where
    same_dir :
        (d d' : String) → default_config_dir sys ≡ ok d → default_config_dir sys ≡ ok d' → d ≡ d'
    same_dir d d' h h' = let e : ◌≡◌ {A = Result String String} (ok d) (ok d') = sym h ∙ h' in cc

    first_existing-IsFound :
        (d : String)
        → default_config_dir sys ≡ ok d
        → (cs : List String) → ((c : String) → In c cs → In c (candidates arg d))
        → (All IsMissing cs → All IsMissing (candidates arg d))
        → (e : String) → IsFound (first_existing sys exists cs e)
    first_existing-IsFound d h [] among missing e =
        not_found bare absent
          (λ d' h'. subst (λ d. All IsMissing (candidates arg d)) (same_dir d d' h h') (missing tt))
    first_existing-IsFound d h (c ∷ cs) among missing e =
        each_branch IsFound (exists c) (λ t. by_name bare absent h (among c (inl refl)) t)
          (λ f.
            first_existing-IsFound d h cs (λ x i. among x (inr i)) (λ rest. missing (f, rest)) e)

    in_default_dir-IsFound :
        (r : Result String String)
        → default_config_dir sys ≡ r
        → IsFound (in_default_dir sys exists arg r)
    in_default_dir-IsFound (err e) h =
        not_found bare absent
          (λ d h'. let no : ◌≡◌ {A = Result String String} (err e) (ok d) = sym h ∙ h' in cc)
    in_default_dir-IsFound (ok d) h =
        first_existing-IsFound d h (candidates arg d) (λ c i. i) (λ m. m) _

  -- An argument of --config with a slash, or that names an existing file, is used as it is; any
  -- other stands for an existing file of that name, or of that name with ".json", in the default
  -- directory, or gets an error, and then there is no default directory or neither file exists
  -- there.
  pub resolve_config_arg-IsFound : IsFound (resolve_config_arg sys exists arg)
  unfolding resolve_config_arg
  resolve_config_arg-IsFound = each_branch IsFound (has_separator arg) as_path (λ bare.
      each_branch IsFound (exists arg) (here bare)
        (λ absent. in_default_dir-IsFound absent bare (default_config_dir sys) refl))
