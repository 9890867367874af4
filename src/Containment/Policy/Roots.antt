-- ===== src/Containment/Policy/Roots.antt =====
-- `matchRoot`: the root that it returns, if any, is the first under which the path lies.
use mathlib.Core.Bool.{false≢true}
use slack_mcp_extender.Base.{
  String, ◌≡◌, ◌≢◌, refl, Bool, true, false, none, some, List, [], ◌∷◌, arith, All, In, ◌⊎◌, inl,
  inr, sym, ◌∙◌, subst, Option-cases, Bool-cases, eq_iff, ◌==◌,
}
use slack_mcp_extender.Filepath.{is_abs, rel, dot_if_empty}
use slack_mcp_extender.Filepath.Rel.{
  IsWithin, rel-IsUnder, rel_of_IsUnder, rest-IsPlain, dot-nil, leads_out,
}
use slack_mcp_extender.Containment.Policy.{accepts, match_roots}

relative_empty : is_abs "" ≢ true
unfolding is_abs
relative_empty h = cc

way-ne-dot :
    (allow_root : Bool) (way : String)
    → accepts allow_root (some way) ≡ true
    → (allow_root ≡ true) ⊎ (way ≢ ".")
way-ne-dot true way h = inl refl
way-ne-dot false way h = inr (ground (arith, eq_iff way "."))

stays_of_accepts :
    (allow_root : Bool) (way : String)
    → accepts allow_root (some way) ≡ true
    → leads_out way ≡ false
stays_of_accepts allow_root way h = ground arith

accepts_of_stays :
    (allow_root : Bool) (way : String)
    → leads_out way ≡ false
    → (allow_root ≡ true) ⊎ (way ≢ ".")
    → accepts allow_root (some way) ≡ true
accepts_of_stays true way out h = ground arith
accepts_of_stays false way out (inl h) = cc
accepts_of_stays false way out (inr h) = rw out (ground (arith, eq_iff way "."))

module _ (allow_root : Bool) (root path : String) (a : is_abs root ≡ true) where
  rel_relative : is_abs path ≡ false → rel root path ≡ none
  unfolding rel
  rel_relative b = rw (a, b) refl

  is_abs_of_accepts : accepts allow_root (rel root path) ≡ true → is_abs path ≡ true
  is_abs_of_accepts h = elim (Bool-cases (is_abs path)) [
    | inl b ↦ b
    | inr b ↦ let none_accepted : accepts allow_root none ≡ true = rw (rel_relative b) at h in cc
  ]

  accepts_sound : accepts allow_root (rel root path) ≡ true → IsWithin allow_root root path
  accepts_sound h = elim (Option-cases (rel root path)) [
    | inl e ↦ let none_accepted : accepts allow_root none ≡ true = rw e at h in cc
    | inr (way, e) ↦
        let some_accepted : accepts allow_root (some way) ≡ true = rw e at h in
        let (rest, under, same) =
          rel-IsUnder root path a (is_abs_of_accepts h) way e
            (stays_of_accepts allow_root way some_accepted) in
        (rest, under, below rest way same (way-ne-dot allow_root way some_accepted))
  ]
    where
      below :
          (rest : List String) (way : String)
          → way ≡ dot_if_empty rest
          → (allow_root ≡ true) ⊎ (way ≢ ".")
          → (allow_root ≡ true) ⊎ (rest ≢ [])
      below rest way same (inl t) = inl t
      below rest way same (inr n) = inr (λ e. n (rw e at same))

  accepts_complete :
      is_abs path ≡ true → IsWithin allow_root root path → accepts allow_root (rel root path) ≡ true
  accepts_complete b (rest, u, w) =
      let (e, out) = rel_of_IsUnder root path a b rest u in
      rw e (accepts_of_stays allow_root (dot_if_empty rest) out (below w))
    where
      below : (allow_root ≡ true) ⊎ (rest ≢ []) → (allow_root ≡ true) ⊎ (dot_if_empty rest ≢ ".")
      below (inl t) = inl t
      below (inr n) = inr (λ e. n (dot-nil rest (rest-IsPlain root path b rest u) e))

-- The root that is found is one of the roots, and the path lies under it.
pub match_roots_sound :
    (roots : List String) (path : String) (allow_root : Bool) (root : String)
    → All (λ r. is_abs r ≡ true) roots
    → match_roots roots path allow_root ≡ root
    → (root == "") ≡ false
    → In root roots × (is_abs path ≡ true) × IsWithin allow_root root path
unfolding match_roots
match_roots_sound [] path allow_root root _ e h =
    absurd (false≢true (sym h ∙ (eq_iff root "").1 (sym e)))
match_roots_sound (first ∷ roots) path allow_root root (a, as_abs) e h =
    elim (Bool-cases (accepts allow_root (rel first path))) [
      | inl t ↦
          let same : first ≡ root = rw t at e in
          rw (← same) (
            inl refl,
            is_abs_of_accepts allow_root first path a t,
            accepts_sound allow_root first path a t,
          )
      | inr f ↦
          let (listed, path_abs, within) =
            match_roots_sound roots path allow_root root as_abs (rw f at e) h in
          (inr listed, path_abs, within)
    ]

-- Where no root is found, the absolute path lies under none.
pub match_roots_complete :
    (roots : List String) (path : String) (allow_root : Bool)
    → All (λ root. is_abs root ≡ true) roots
    → is_abs path ≡ true
    → (match_roots roots path allow_root == "") ≡ true
    → All (λ root. ¬ IsWithin allow_root root path) roots
unfolding match_roots
match_roots_complete [] path allow_root _ b h = tt
match_roots_complete (root ∷ roots) path allow_root (a, as_abs) b h =
    elim (Bool-cases (accepts allow_root (rel root path))) [
      | inl e ↦
          let empty : (root == "") ≡ true = rw e at h in
          let no_root : is_abs "" ≡ true =
            subst (λ r. is_abs r ≡ true) ((eq_iff root "").0 empty) a in
          absurd (relative_empty no_root)
      | inr e ↦ (
        λ w. false≢true (sym e ∙ accepts_complete allow_root root path a b w),
        match_roots_complete roots path allow_root as_abs b (rw e at h),
      )
    ]
