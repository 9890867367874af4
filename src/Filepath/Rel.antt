-- ===== src/Filepath/Rel.antt =====
-- `filepath.Rel` between absolute paths, against the order "lies under" on their parts.
use text.Mathlib.TextLemmas.{append_assoc as append_assoc_text}
use mathlib.Core.Option
use slack_mcp_extender.Base.{
  String, ◌<>◌, ◌≡◌, ◌≢◌, refl, sym, ◌∙◌, Bool, true, false, ◌||◌, some, List, [], ◌∷◌, ◌++◌, arith,
  All, All-append_right, ◌==◌, eq_iff, eq_refl, has_prefix, split, Bool-cases, inl, inr, ◌⊎◌,
}
use slack_mcp_extender.Filepath.{
  split_slash, join_slash, is_abs, parts, ups, rel_parts, rel, dot_if_empty,
}
use slack_mcp_extender.Filepath.Split.{
  split_slash-join_slash, split_slash-append, has_prefix-append, has_prefix_of_append,
}
use slack_mcp_extender.Filepath.Parts.{IsPlain, parts-IsPlain, All-NoSlash}

-- The relative path leads out of its root, as the program tests it.
abbrev pub leads_out : String → Bool
leads_out way = way == ".." || has_prefix way "../"

-- The path is the root followed by `rest`.
abbrev pub IsUnder : String → String → List String → Type 0
IsUnder root path rest = parts path ≡ parts root ++ rest

rel_parts-append : (xs rest : List String) → rel_parts xs (xs ++ rest) ≡ some rest
unfolding rel_parts
rel_parts-append [] rest = refl
rel_parts-append (x ∷ xs) rest = rw eq_refl (rel_parts-append xs rest)

-- Whatever way is found leads down, or its first step is "..".
abbrev WayFrom : List String → List String → List String → Type 0
WayFrom root target way = (target ≡ root ++ way) ⊎ ((rest : List String) × (way ≡ ".." ∷ rest))

WayFrom-cons :
    (x y : String) (xs ys way : List String)
    → x ≡ y
    → WayFrom xs ys way
    → WayFrom (x ∷ xs) (y ∷ ys) way
WayFrom-cons x y xs ys way e (inl d) = inl (cc)
WayFrom-cons x y xs ys way e (inr u) = inr u

rel_parts-WayFrom : (xs ys way : List String) → rel_parts xs ys ≡ some way → WayFrom xs ys way
unfolding rel_parts
rel_parts-WayFrom [] ys way e = inl (ground arith)
rel_parts-WayFrom (x ∷ xs) [] way e = inr (ups xs, cc)
rel_parts-WayFrom (x ∷ xs) (y ∷ ys) way e = elim (Bool-cases (x == y)) [
  | inl same ↦
      WayFrom-cons x y xs ys way ((eq_iff x y).0 same) (rel_parts-WayFrom xs ys way (ground arith))
  | inr other ↦ inr (ups xs ++ y ∷ ys, ground arith)
]

prefix_of_climb : (s : String) → has_prefix (".." <> ("/" <> s)) "../" ≡ true
prefix_of_climb s = rw (← append_assoc_text ".." "/" s) (has_prefix_of_append "../" s)

leads_out_of_climb : (rest : List String) → leads_out (dot_if_empty (".." ∷ rest)) ≡ true
unfolding join_slash
leads_out_of_climb [] = refl
leads_out_of_climb (part ∷ rest) = ground (arith, prefix_of_climb (join_slash (part ∷ rest)))

-- A text that begins like a climb has ".." for its first piece.
split_of_prefix :
    (s : String) → has_prefix s "../" ≡ true → (rest : List String) × (split_slash s ≡ ".." ∷ rest)
split_of_prefix s h =
    let (rest, e) = has_prefix-append s "../" h in
    (
      split_slash rest,
      rw (e, append_assoc_text ".." "/" rest) (split_slash-append ".." rest (omega arith)),
    )

first-eq-dots :
    (s part : String) (way rest : List String)
    → split_slash s ≡ part ∷ way
    → split_slash s ≡ ".." ∷ rest
    → part ≡ ".."
first-eq-dots s part way rest e f = cc

split_dots : split_slash ".." ≡ ".." ∷ []
unfolding split
split_dots = refl

not-leads_out :
    (part : String) (way : List String)
    → All IsPlain (part ∷ way)
    → leads_out (join_slash (part ∷ way)) ≡ false
not-leads_out part way h =
    let s = join_slash (part ∷ way) in
    let e = split_slash-join_slash part way (All-NoSlash (part ∷ way) h) in
    elim (Bool-cases (s == "..")) [
      | inl q ↦ absurd (h.0.2 (first-eq-dots s part way [] e (rw ((eq_iff s "..").0 q) split_dots)))
      | inr n ↦ elim (Bool-cases (has_prefix s "../")) [
        | inl q ↦
            let (rest, f) = split_of_prefix s q in
            absurd (h.0.2 (first-eq-dots s part way rest e f))
        | inr m ↦ rw (n, m) refl
      ]
    ]

-- A way down, with plain names, is not mistaken for one that leads out.
leads_out_down : (way : List String) → All IsPlain way → leads_out (dot_if_empty way) ≡ false
leads_out_down [] h = unfold has_prefix in refl
leads_out_down (part ∷ way) h = not-leads_out part way h

-- What an absolute path adds to the parts of another path is plain.
pub rest-IsPlain :
    (root path : String)
    → is_abs path ≡ true
    → (rest : List String) → IsUnder root path rest
    → All IsPlain rest
rest-IsPlain root path b rest u =
    All-append_right IsPlain (parts root) rest (rw u at (parts-IsPlain path b))

module _ (root path : String) (a : is_abs root ≡ true) (b : is_abs path ≡ true) where
  rel_of_is_abs : rel root path ≡ Option.map dot_if_empty (rel_parts (parts root) (parts path))
  unfolding rel
  rel_of_is_abs = rw (a, b) refl

  -- What `Rel` finds and does not lead out are the parts below the root.
  pub rel-IsUnder :
      (way : String)
      → rel root path ≡ some way
      → leads_out way ≡ false
      → (rest : List String) × IsUnder root path rest × (way ≡ dot_if_empty rest)
  rel-IsUnder way e stays =
      let (found, matched, same) = (Option.map-eq-some_iff _ _).0 (sym rel_of_is_abs ∙ e) in
      elim (rel_parts-WayFrom (parts root) (parts path) found matched) [
        | inl under ↦ (found, under, sym same)
        | inr (rest, u) ↦
            let out : leads_out way ≡ true = rw (← same, u) (leads_out_of_climb rest) in cc
      ]

  -- And it finds them wherever there are such parts.
  pub rel_of_IsUnder :
      (rest : List String)
      → IsUnder root path rest
      → (rel root path ≡ some (dot_if_empty rest)) × (leads_out (dot_if_empty rest) ≡ false)
  rel_of_IsUnder rest u = (
    rel_of_is_abs ∙ rw (u, rel_parts-append) refl,
    leads_out_down rest (rest-IsPlain root path b rest u),
  )

single_dot : split_slash "." ≡ "." ∷ []
unfolding split
single_dot = refl

-- A way down is "." only if it is empty.
pub dot-nil : (way : List String) → All IsPlain way → dot_if_empty way ≡ "." → way ≡ []
dot-nil [] h e = refl
dot-nil (part ∷ way) h e =
    let s : split_slash "." ≡ part ∷ way =
      rw (← e) (split_slash-join_slash part way (All-NoSlash (part ∷ way) h)) in
    absurd (h.0.1 (first-eq-dot part way s single_dot))
  where
    first-eq-dot :
        (name : String) (names : List String)
        → split_slash "." ≡ name ∷ names
        → split_slash "." ≡ "." ∷ []
        → name ≡ "."
    first-eq-dot name names p q = cc

-- The path lies under the root; only if allowed it is the root itself.
abbrev pub IsWithin : Bool → String → String → Type 0
IsWithin allow_root root path =
    (rest : List String) × IsUnder root path rest × ((allow_root ≡ true) ⊎ (rest ≢ []))
