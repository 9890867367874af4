-- ===== src/Transfer/Http.antt =====
-- Responses, and the reading of their bodies.
use slack_mcp_extender.Base.{
  ℕ, suc, String, ◌<>◌, Option, none, List, [], ◌∷◌, length, leb, if◌then◌else◌,
}
use slack_mcp_extender.Base.Int.{ℤ, pos, negsuc}

-- The bytes that a body delivers, and the error that ends it if it does not end well.
pub record Body : Type 0 where
  pub bytes : List ℕ
  pub broken : Option String

pub record Response : Type 0 where
  pub status : ℕ
  pub body : Body

abbrev pub take : ℕ → List ℕ → List ℕ
take ℕ.zero bytes = []
take (suc n) [] = []
take (suc n) (b ∷ bytes) = b ∷ take n bytes

-- `io.LimitReader`: it ends well after the limit, before it reads an error behind it; it delivers
-- nothing if the limit is not positive.
unfoldable pub limit_reader : Body → ℤ → Body
limit_reader body (negsuc n) = record { bytes = []; broken = none }
limit_reader body (pos n) =
    if leb n (length body.bytes) then record { bytes = take n body.bytes; broken = none } else body

-- `string(b)` of bytes, which are not decoded here, is a parameter of its users.
unfoldable pub truncate : (List ℕ → String) → List ℕ → ℕ → String
truncate text bytes n = if leb (length bytes) n then text bytes else text (take n bytes) <> "..."
