-- ===== src/Json.antt =====
-- The values of `encoding/json`, and its two functions as the program uses them: the bytes of a
-- text are not modelled, so decoding and encoding are a codec that the other parts take.
use slack_mcp_extender.Base.{String, Bool, List, [], ◌∷◌, Option, none, some, if◌then◌else◌, ◌==◌}
use slack_mcp_extender.Base.Int.{ℤ}

-- A number that is not an integer keeps its text.
mutual
  pub data Json : Type 0 where
    null : Json
    bool : Bool → Json
    int : ℤ → Json
    decimal : String → Json
    str : String → Json
    arr : Items → Json
    obj : Members → Json

  pub data Items : Type 0 where
    nil : Items
    cons : Json → Items → Items

  pub data Members : Type 0 where
    end : Members
    member : String → Json → Members → Members

abbrev pub items : Items → List Json
items nil = []
items (cons v vs) = v ∷ items vs

abbrev pub members : Members → List (String × Json)
members end = []
members (member k v ms) = (k, v) ∷ members ms

abbrev pub to_items : List Json → Items
to_items [] = nil
to_items (v ∷ vs) = cons v (to_items vs)

abbrev pub to_members : List (String × Json) → Members
to_members [] = end
to_members ((k, v) ∷ ms) = member k v (to_members ms)

abbrev pub object : List (String × Json) → Json
object ms = obj (to_members ms)

abbrev pub array : List Json → Json
array vs = arr (to_items vs)

abbrev pub strings : List String → List Json
strings [] = []
strings (s ∷ ss) = str s ∷ strings ss

-- A Go map of a decoded object: a key's value, if it has one.
unfoldable pub lookup {ℓ} : {V : Type ℓ} → String → List (String × V) → Option V
lookup key [] = none
lookup key ((k, v) ∷ m) = if k == key then some v else lookup key m

-- `m[key] = v`
unfoldable pub insert {ℓ} : {V : Type ℓ} → String → V → List (String × V) → List (String × V)
insert key v [] = (key, v) ∷ []
insert key v ((k, w) ∷ m) = if k == key then (k, v) ∷ m else (k, w) ∷ insert key v m

-- `s, _ := v.(string)` on a map's entry: the text, or "".
unfoldable pub text_of : Option Json → String
text_of (some (str s)) = s
text_of _ = ""

-- `json.Unmarshal` on the bytes of a text, `json.Marshal` into them, and the two verbs of `fmt`:
-- `%q` on a text and `%d` on a number.
pub record Codec : Type 0 where
  pub unmarshal : String → Option Json
  pub marshal : Json → String
  pub quote : String → String
  pub decimal : ℤ → String
