-- ===== src/Containment/Download/Sanitize.antt =====
-- A sanitized name is a plain name with no control character: it cannot choose a directory.
use Prim.Native.String.{[], ◌∷◌}
use mathlib.Core.List.{[], ◌∷◌}
use slack_mcp_extender.Base.{
  String, Char, code, ◌≤◌, ◌≡◌, ◌≢◌, refl, false, List, arith, All, ◌⊎◌, inl, inr, Lacks, eqb,
  replace, split, grow, if◌then◌else◌, eq_iff, ◌==◌, Bool-cases,
}
use slack_mcp_extender.Base.Result.{ok}
use slack_mcp_extender.Filepath.{base, last_piece, split_slash}
use slack_mcp_extender.Filepath.Split.{NoSlash, split_slash-NoSlash}
use slack_mcp_extender.Filepath.Parts.{IsPlain}
use slack_mcp_extender.Containment.Download.{has_control, slash, sanitize_filename}

abbrev pub IsPrintable : String → Type 0
IsPrintable [] = Unit
IsPrintable (c ∷ s) = (0x20 ≤ code c) × (code c ≢ 0x7f) × IsPrintable s

has_control-IsPrintable : (s : String) → has_control s ≡ false → IsPrintable s
unfolding has_control
has_control-IsPrintable [] h = tt
has_control-IsPrintable (c ∷ s) h =
    let rest = has_control-IsPrintable s (ground arith) in (ground arith, ground arith, rest)

replace-Lacks : (s : String) → Lacks 0x5c (replace 0x5c slash s)
unfolding replace
replace-Lacks [] = tt
replace-Lacks (c ∷ s) = (replaced c, replace-Lacks s)
  where
    replaced : (c : Char) → code (if eqb (code c) 0x5c then slash else c) ≢ 0x5c
    replaced c = elim (Bool-cases (eqb (code c) 0x5c)) [
      | inl e ↦ rw e (omega arith)
      | inr e ↦ rw e (ground arith)
    ]

grow-Lacks :
    (c : Char) (pieces : List String)
    → code c ≢ 0x5c
    → All (Lacks 0x5c) pieces
    → All (Lacks 0x5c) (grow c pieces)
grow-Lacks c [] h k = ((h, tt), tt)
grow-Lacks c (piece ∷ pieces) h (k, ks) = ((h, k), ks)

split_slash-Lacks : (s : String) → Lacks 0x5c s → All (Lacks 0x5c) (split_slash s)
unfolding split
split_slash-Lacks [] h = (tt, tt)
split_slash-Lacks (c ∷ s) (h, k) =
    ground (arith, split_slash-Lacks s k, grow-Lacks c (split_slash s) h)

All-last_piece :
    (P : String → Type 0) (found : String) (pieces : List String)
    → P found
    → All P pieces
    → P (last_piece found pieces)
All-last_piece P found [] p h = p
All-last_piece P found (piece ∷ pieces) p (q, h) = elim (Bool-cases (piece == "")) [
  | inl e ↦ rw e (All-last_piece P found pieces p h)
  | inr e ↦ rw e (All-last_piece P piece pieces q h)
]

-- What `base` returns has no separator, unless it is the separator.
abbrev IsElement : String → Type 0
IsElement s = ((s ≡ "/") ⊎ NoSlash s) × Lacks 0x5c s

All-both :
    (pieces : List String) → All NoSlash pieces → All (Lacks 0x5c) pieces → All IsElement pieces
All-both [] h k = tt
All-both (piece ∷ pieces) (p, h) (q, k) = ((inr p, q), All-both pieces h k)

base-IsElement : (s : String) → Lacks 0x5c s → IsElement (base s)
unfolding base
base-IsElement s h = elim (Bool-cases (s == "")) [
  | inl e ↦ rw e (omega arith)
  | inr e ↦ rw e (
      All-last_piece IsElement "/" (split_slash s) (inl refl, omega arith)
        (All-both (split_slash s) (split_slash-NoSlash s) (split_slash-Lacks s h)))
]

NoSlash-of_IsElement : (s : String) → IsElement s → s ≢ "/" → NoSlash s
NoSlash-of_IsElement s (inl e, _) n = absurd (n e)
NoSlash-of_IsElement s (inr h, _) n = h

accepted_name :
    (filename name : String)
    → sanitize_filename filename ≡ ok name
    → (base (replace 0x5c slash filename) ≡ name)
      × (name ≢ ".")
      × (name ≢ "..")
      × (name ≢ "/")
      × (name ≢ "")
      × (has_control name ≡ false)
unfolding sanitize_filename
accepted_name filename name h =
    let last = base (replace 0x5c slash filename) in
    ground (arith, eq_iff last ".", eq_iff last "..", eq_iff last "/", eq_iff last "")

-- A name that is accepted is plain, has no backslash and no control character.
pub sanitize_filename-IsPlain :
    (filename name : String)
    → sanitize_filename filename ≡ ok name
    → IsPlain name × Lacks 0x5c name × IsPrintable name
sanitize_filename-IsPlain filename name h =
    let (same, dot, dots, slashed, empty, printable) = accepted_name filename name h in
    let element : IsElement name =
      rw (← same) (base-IsElement (replace 0x5c slash filename) (replace-Lacks filename)) in
    (
      (empty, dot, dots, NoSlash-of_IsElement name element slashed),
      element.1,
      has_control-IsPrintable name printable,
    )
