-- ===== src/Filepath/Parts.antt =====
-- The parts of an absolute path: plain names, which cleaning and joining keep.
use mathlib.Core.List.{reverse-reverse}
use text.Mathlib.TextLemmas.{nil-append, cons-append, append_assoc as append_assoc_text}
use slack_mcp_extender.Base.{
  String, ◌<>◌, ◌≡◌, refl, sym, ◌∙◌, ◌≢◌, ◌≡⟨◌⟩◌, ◌∎, Bool, true, false, List, [], ◌∷◌, ◌++◌,
  reverse, append_assoc, append-nil, reverse-cons, arith, All, All-reverse_aux, eq_iff, has_prefix,
  subst, split, ◌==◌, Bool-cases, inl, inr,
}
use slack_mcp_extender.Filepath.{
  split_slash, join_slash, is_abs, climb, resolve_part, resolve_parts, parts, clean, join,
}
use slack_mcp_extender.Filepath.Split.{
  NoSlash, split_slash-NoSlash, split_slash-join_slash, split_slash-append, split_slash-concat,
  split_slash_single, has_prefix-append,
}

-- The name of an entry of a directory.
abbrev pub IsPlain : String → Type 0
IsPlain part = (part ≢ "") × (part ≢ ".") × (part ≢ "..") × NoSlash part

climb-IsPlain : (stack : List String) → All IsPlain stack → All IsPlain (climb true stack)
unfolding climb
climb-IsPlain [] h = tt
climb-IsPlain (top ∷ stack) (p, h) = ground (arith, eq_iff top "..")

resolve_part-IsPlain :
    (stack : List String) (part : String)
    → All IsPlain stack
    → NoSlash part
    → All IsPlain (resolve_part true stack part)
unfolding resolve_part
resolve_part-IsPlain stack part h k =
    ground (arith, eq_iff part "", eq_iff part ".", eq_iff part "..", climb-IsPlain stack h)

resolve_parts-IsPlain :
    (stack ps : List String)
    → All IsPlain stack
    → All NoSlash ps
    → All IsPlain (resolve_parts true stack ps)
unfolding resolve_parts
resolve_parts-IsPlain stack [] h _ = All-reverse_aux IsPlain stack [] h tt
resolve_parts-IsPlain stack (part ∷ ps) h (k, ks) =
    resolve_parts-IsPlain (resolve_part true stack part) ps (resolve_part-IsPlain stack part h k) ks

-- The parts of an absolute path are plain: no "", ".", ".." and no separator.
pub parts-IsPlain : (path : String) → is_abs path ≡ true → All IsPlain (parts path)
unfolding parts
parts-IsPlain path a =
    rw a (resolve_parts-IsPlain [] (split_slash path) tt (split_slash-NoSlash path))

resolve_part_of_IsPlain :
    (stack : List String) (part : String)
    → IsPlain part
    → resolve_part true stack part ≡ part ∷ stack
unfolding resolve_part
resolve_part_of_IsPlain stack part h =
    ground (arith, eq_iff part "", eq_iff part ".", eq_iff part "..")

resolve_parts_of_IsPlain :
    (stack ps : List String) → All IsPlain ps → resolve_parts true stack ps ≡ reverse stack ++ ps
unfolding resolve_parts
resolve_parts_of_IsPlain stack [] _ = sym (append-nil _)
resolve_parts_of_IsPlain stack (part ∷ ps) (p, h) =
    rw (resolve_part_of_IsPlain stack part p, resolve_parts_of_IsPlain (part ∷ stack) ps h)
      (simp (reverse-cons, append_assoc))

resolve_parts-append :
    (rooted : Bool) (stack xs ys : List String)
    → resolve_parts rooted stack (xs ++ ys)
      ≡ resolve_parts rooted (reverse (resolve_parts rooted stack xs)) ys
unfolding resolve_parts
resolve_parts-append rooted stack [] ys = rw reverse-reverse
resolve_parts-append rooted stack (part ∷ xs) ys =
    resolve_parts-append rooted (resolve_part rooted stack part) xs ys

pub All-NoSlash : (ps : List String) → All IsPlain ps → All NoSlash ps
All-NoSlash [] h = tt
All-NoSlash (part ∷ ps) (p, h) = (p.3, All-NoSlash ps h)

is_abs_rooted : (s : String) → is_abs ("/" <> s) ≡ true
unfolding is_abs has_prefix
is_abs_rooted s = rw cons-append refl

parts_of_is_abs :
    (path : String) → is_abs path ≡ true → parts path ≡ resolve_parts true [] (split_slash path)
unfolding parts
parts_of_is_abs path a = rw a refl

clean_of_is_abs : (path : String) → is_abs path ≡ true → clean path ≡ "/" <> join_slash (parts path)
unfolding clean
clean_of_is_abs path a = rw a refl

split_slash_rooted : (s : String) → split_slash ("/" <> s) ≡ "" ∷ split_slash s
split_slash_rooted s =
    subst (λ t. split_slash t ≡ "" ∷ split_slash s) (nil-append ("/" <> s))
      (split_slash-append "" s tt)

resolve_parts_empty :
    (ps : List String) → resolve_parts true [] ("" ∷ ps) ≡ resolve_parts true [] ps
unfolding resolve_parts
resolve_parts_empty ps = refl

split_slash_empty : resolve_parts true [] (split_slash "") ≡ []
unfolding resolve_parts split
split_slash_empty = refl

-- The parts of a rooted text that is joined from plain parts.
resolve-join_slash :
    (ps : List String) → All IsPlain ps → resolve_parts true [] (split_slash (join_slash ps)) ≡ ps
resolve-join_slash [] h = unfold join_slash in split_slash_empty
resolve-join_slash (part ∷ ps) h =
    rw (split_slash-join_slash part ps (All-NoSlash (part ∷ ps) h))
      (resolve_parts_of_IsPlain [] (part ∷ ps) h)

parts_rooted : (ps : List String) → All IsPlain ps → parts ("/" <> join_slash ps) ≡ ps
parts_rooted ps h =
    parts_of_is_abs _ (is_abs_rooted (join_slash ps))
    ∙ rw (split_slash_rooted, resolve_parts_empty) (resolve-join_slash ps h)

-- Cleaning an absolute path keeps it absolute, and keeps its parts.
pub is_abs-clean : (path : String) → is_abs path ≡ true → is_abs (clean path) ≡ true
is_abs-clean path a = rw (clean_of_is_abs path a) (is_abs_rooted (join_slash (parts path)))

pub parts-clean : (path : String) → is_abs path ≡ true → parts (clean path) ≡ parts path
parts-clean path a = rw (clean_of_is_abs path a) (parts_rooted (parts path) (parts-IsPlain path a))

is_abs-append : (s t : String) → is_abs s ≡ true → is_abs (s <> t) ≡ true
is_abs-append s t a =
    let (rest, e) = has_prefix-append s "/" (unfold is_abs in a) in
    rw (e, append_assoc_text) (is_abs_rooted (rest <> t))

is_abs-ne-nil : (s : String) → is_abs s ≡ true → (s == "") ≡ false
unfolding is_abs
is_abs-ne-nil s a = elim (Bool-cases (s == "")) [
  | inl e ↦
      let no_root : is_abs "" ≡ true = subst (λ t. is_abs t ≡ true) ((eq_iff s "").0 e) a in cc
  | inr e ↦ e
]

join_lem :
    (dir name : String)
    → is_abs dir ≡ true
    → name ≢ ""
    → join dir name ≡ clean (dir <> ("/" <> name))
unfolding join
join_lem dir name a n = rw (is_abs-ne-nil dir a) (ground (arith, eq_iff name ""))

parts-concat :
    (dir name : String)
    → is_abs dir ≡ true
    → IsPlain name
    → parts (dir <> ("/" <> name)) ≡ parts dir ++ name ∷ []
parts-concat dir name a p =
    parts (dir <> ("/" <> name))
    ≡⟨ parts_of_is_abs _ (is_abs-append dir _ a) ⟩
      resolve_parts true [] (split_slash (dir <> ("/" <> name)))
    ≡⟨ (rw (split_slash-concat, split_slash_single name p.3)) ⟩
      resolve_parts true [] (split_slash dir ++ name ∷ [])
    ≡⟨ resolve_parts-append true [] (split_slash dir) (name ∷ []) ⟩
      resolve_parts true (reverse (resolve_parts true [] (split_slash dir))) (name ∷ [])
    ≡⟨ resolve_parts_of_IsPlain _ (name ∷ []) (p, tt) ⟩
      reverse (reverse (resolve_parts true [] (split_slash dir))) ++ name ∷ []
    ≡⟨ (rw (reverse-reverse, parts_of_is_abs dir a)) ⟩ parts dir ++ name ∷ [] ∎

-- A plain name is joined to an absolute directory as its last part.
pub parts-join :
    (dir name : String)
    → is_abs dir ≡ true
    → IsPlain name
    → (is_abs (join dir name) ≡ true) × (parts (join dir name) ≡ parts dir ++ name ∷ [])
parts-join dir name a p =
    let rooted : is_abs (dir <> ("/" <> name)) ≡ true = is_abs-append dir _ a in
    rw (join_lem dir name a p.0)
      (is_abs-clean _ rooted, parts-clean _ rooted ∙ parts-concat dir name a p)
