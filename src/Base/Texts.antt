-- ===== src/Base/Texts.antt =====
-- Texts character by character: `strings.HasPrefix`, `strings.Split` and `strings.Join` at a
-- separator, and what the proofs need of them.
use Prim.Native.Nat.{ℕ}
use Prim.Native.Char.{Char, code}
use Prim.Native.String.{String, [], ◌∷◌}
use mathlib.Core.Logic.{◌≢◌}
use mathlib.Core.Bool.{Bool, true, false, ◌&&◌}
use mathlib.Core.List.{List, [], ◌∷◌}
use slack_mcp_extender.Base.Tests.{eqb, if◌then◌else◌}

-- `strings.HasPrefix`
unfoldable pub has_prefix : String → String → Bool
has_prefix s [] = true
has_prefix [] (d ∷ t) = false
has_prefix (c ∷ s) (d ∷ t) = eqb (code c) (code d) && has_prefix s t

-- The first piece and the others, of a text that a separator cuts.
abbrev pub grow : Char → List String → List String
grow c [] = (c ∷ []) ∷ []
grow c (piece ∷ pieces) = (c ∷ piece) ∷ pieces

-- `strings.Split` at one character: always one piece at least.
unfoldable pub split : ℕ → String → List String
split sep [] = [] ∷ []
split sep (c ∷ s) = let rest = split sep s in if eqb (code c) sep then [] ∷ rest else grow c rest

-- The character does not occur in the text.
abbrev pub Lacks : ℕ → String → Type 0
Lacks sep [] = Unit
Lacks sep (c ∷ s) = (code c ≢ sep) × Lacks sep s

-- `strings.ReplaceAll` of one character by another.
unfoldable pub replace : ℕ → Char → String → String
replace old new [] = []
replace old new (c ∷ s) = (if eqb (code c) old then new else c) ∷ replace old new s
