-- ===== src/Filepath/Split.antt =====
-- Cutting a text at its separators, and joining the pieces again.
use Prim.Native.String.{[], ◌∷◌}
use mathlib.Core.List.{[], ◌∷◌}
use text.Mathlib.TextLemmas.{nil-append, cons-append}
use slack_mcp_extender.Base.{
  String, ◌<>◌, Char, code, ◌≡◌, refl, ap, ◌∙◌, ◌≢◌, true, List, ◌++◌, arith, All, has_prefix,
  split, grow, Lacks, Char-path,
}
use slack_mcp_extender.Filepath.{split_slash, join_slash}

abbrev pub NoSlash : String → Type 0
NoSlash = Lacks b'/'

All-grow :
    (c : Char) (pieces : List String)
    → code c ≢ b'/'
    → All NoSlash pieces
    → All NoSlash (grow c pieces)
All-grow c [] h k = ((h, tt), tt)
All-grow c (piece ∷ pieces) h (k, ks) = ((h, k), ks)

pub split_slash-NoSlash : (s : String) → All NoSlash (split_slash s)
unfolding split
split_slash-NoSlash [] = (tt, tt)
split_slash-NoSlash (c ∷ s) = ground (arith, split_slash-NoSlash s, All-grow c (split_slash s))

-- A piece before a separator is the first piece.
pub split_slash-append :
    (piece s : String) → NoSlash piece → split_slash (piece <> ("/" <> s)) ≡ piece ∷ split_slash s
unfolding split
split_slash-append [] s h = rw (nil-append, cons-append, nil-append) refl
split_slash-append (c ∷ piece) s (h, k) =
    rw (cons-append, split_slash-append piece s k) (ground arith)

pub split_slash_single : (piece : String) → NoSlash piece → split_slash piece ≡ piece ∷ []
unfolding split
split_slash_single [] h = refl
split_slash_single (c ∷ piece) (h, k) = rw (split_slash_single piece k) (ground arith)

-- Splitting is the inverse of joining.
pub split_slash-join_slash :
    (piece : String) (pieces : List String)
    → All NoSlash (piece ∷ pieces)
    → split_slash (join_slash (piece ∷ pieces)) ≡ piece ∷ pieces
unfolding join_slash
split_slash-join_slash piece [] (h, _) = split_slash_single piece h
split_slash-join_slash piece (next ∷ pieces) (h, k) =
    split_slash-append piece _ h
    ∙ ap (λ (l : List String). piece ∷ l) (split_slash-join_slash next pieces k)

-- A text with a prefix is the prefix and the rest.
pub has_prefix-append : (s t : String) → has_prefix s t ≡ true → (rest : String) × (s ≡ t <> rest)
unfolding has_prefix
has_prefix-append s [] h = (s, rw nil-append)
has_prefix-append [] (d ∷ t) h = cc
has_prefix-append (c ∷ s) (d ∷ t) h =
    let (rest, e) = has_prefix-append s t (ground arith) in
    (rest, rw (cons-append, ← e, Char-path c d (ground arith)))

pub has_prefix_of_append : (t rest : String) → has_prefix (t <> rest) t ≡ true
unfolding has_prefix
has_prefix_of_append [] rest = refl
has_prefix_of_append (c ∷ t) rest = rw cons-append (ground (arith, has_prefix_of_append t rest))

split_slash-ne-nil : (s : String) → split_slash s ≢ []
unfolding split
split_slash-ne-nil [] e = cc
split_slash-ne-nil (c ∷ s) e = ground arith

grow-append : (c : Char) (xs ys : List String) → xs ≢ [] → grow c (xs ++ ys) ≡ grow c xs ++ ys
grow-append c [] ys h = absurd (h refl)
grow-append c (x ∷ xs) ys h = refl

-- The same where the text before the separator has separators of its own.
pub split_slash-concat :
    (s t : String) → split_slash (s <> ("/" <> t)) ≡ split_slash s ++ split_slash t
unfolding split
split_slash-concat [] t = rw (nil-append, cons-append, nil-append) refl
split_slash-concat (c ∷ s) t =
    rw (cons-append, split_slash-concat s t)
      (ground (arith, grow-append c (split_slash s) (split_slash t) (split_slash-ne-nil s)))
