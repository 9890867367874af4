-- ===== src/Containment/Policy/Hidden.antt =====
-- The hidden rule: what the check on the relative path says of the path's parts.
use slack_mcp_extender.Base.{
  String, ◌≡◌, ◌≢◌, refl, sym, ◌∙◌, true, false, none, List, [], ◌∷◌, arith, All, ◌⊎◌, inl, inr,
  has_prefix, Bool-cases,
}
use slack_mcp_extender.Base.Result.{ok}
use slack_mcp_extender.Filepath.{is_abs, split_slash, dot_if_empty}
use slack_mcp_extender.Filepath.Split.{split_slash-join_slash}
use slack_mcp_extender.Filepath.Parts.{IsPlain, All-NoSlash}
use slack_mcp_extender.Filepath.Rel.{IsUnder, rel_of_IsUnder, rest-IsPlain}
use slack_mcp_extender.Containment.Types.{Policy}
use slack_mcp_extender.Containment.Policy.{first_hidden, check_hidden, no_hidden}

-- No component of the way from the root is hidden, unless that is allowed.
abbrev pub IsVisible : Policy → String → String → Type 0
IsVisible p root path =
    (p.allow_hidden ≡ true)
    ⊎ ((rest : List String) × IsUnder root path rest
        × (rest ≢ [])
        × All (λ c. has_prefix c "." ≡ false) rest)

first_hidden-eq-none :
    (cs : List String) → first_hidden cs ≡ none → All (λ c. has_prefix c "." ≡ false) cs
first_hidden-eq-none [] h = tt
first_hidden-eq-none (c ∷ cs) h = elim (Bool-cases (has_prefix c ".")) [
  | inl e ↦ ground arith
  | inr e ↦ (e, first_hidden-eq-none cs (ground arith))
]

split_slash-dot_if_empty :
    (rest : List String) → rest ≢ [] → All IsPlain rest → split_slash (dot_if_empty rest) ≡ rest
split_slash-dot_if_empty [] n h = absurd (n refl)
split_slash-dot_if_empty (part ∷ rest) n h =
    split_slash-join_slash part rest (All-NoSlash (part ∷ rest) h)

no_hidden-eq-ok :
    (p : Policy) (path : String) (cs : List String)
    → no_hidden p path (first_hidden cs) ≡ ok tt
    → first_hidden cs ≡ none
no_hidden-eq-ok p path cs h = ground arith

module _ (p : Policy) (root path : String) (a : is_abs root ≡ true) (b : is_abs path ≡ true) where
  check_hidden_of_visible :
      (rest : List String)
      → IsUnder root path rest
      → rest ≢ []
      → p.allow_hidden ≡ false
      → check_hidden p root path ≡ no_hidden p path (first_hidden rest)
  unfolding check_hidden
  check_hidden_of_visible rest u n off =
      rw
        (
          off,
          (rel_of_IsUnder root path a b rest u).0,
          split_slash-dot_if_empty rest n (rest-IsPlain root path b rest u),
        )
        refl

  pub check_hidden-IsVisible :
      (rest : List String)
      → IsUnder root path rest
      → rest ≢ []
      → check_hidden p root path ≡ ok tt
      → IsVisible p root path
  check_hidden-IsVisible rest u n h = elim (Bool-cases p.allow_hidden) [
    | inl on ↦ inl on
    | inr off ↦ inr (
      rest,
      u,
      n,
      first_hidden-eq-none rest
          (no_hidden-eq-ok p path rest (sym (check_hidden_of_visible rest u n off) ∙ h)),
    )
  ]
