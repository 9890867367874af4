-- ===== src/Transport/Stream.antt =====
-- internal/transport/sse.go: the parser of an event stream, over the lines that its scanner gives.
pub mod Delivered
use slack_mcp_extender.Base.{
  ℕ, String, Char, code, ◌<>◌, Bool, true, false, ◌&&◌, ◌||◌, Option, none, some, List, [], ◌∷◌,
  ◌++◌, if◌then◌else◌, ◌==◌, eqb, leb, has_prefix,
}
use Prim.Native.String.{[], ◌∷◌}

-- `unicode.IsSpace`
abbrev pub is_space : ℕ → Bool
is_space c =
    (leb 9 c && leb c 13)
    || eqb c 32
    || eqb c 0x85
    || eqb c 0xa0
    || eqb c 0x1680
    || (leb 0x2000 c && leb c 0x200a)
    || eqb c 0x2028
    || eqb c 0x2029
    || eqb c 0x202f
    || eqb c 0x205f
    || eqb c 0x3000

unfoldable pub trim_left : String → String
trim_left [] = []
trim_left (c ∷ s) = let rest = trim_left s in if is_space (code c) then rest else c ∷ s

abbrev pub is_blank : String → Bool
is_blank [] = true
is_blank (c ∷ s) = false

unfoldable pub trim_right : String → String
trim_right [] = []
trim_right (c ∷ s) =
    let rest = trim_right s in if is_blank rest && is_space (code c) then [] else c ∷ rest

-- `strings.TrimSpace`
abbrev pub trim_space : String → String
trim_space s = trim_right (trim_left s)

-- `strings.TrimPrefix` of a prefix that is there.
unfoldable pub drop_prefix : String → String → String
drop_prefix s [] = s
drop_prefix [] (d ∷ t) = []
drop_prefix (c ∷ s) (d ∷ t) = drop_prefix s t

unfoldable pub join_lines : List String → String
join_lines [] = ""
join_lines (line ∷ []) = line
join_lines (line ∷ next ∷ lines) = line <> ("\n" <> join_lines (next ∷ lines))

-- The type and the lines of the event so far, and the messages that were queued.
pub record Stream : Type 0 where
  pub event_type : String
  pub data_lines : List String
  pub incoming : List String

abbrev pub starts_batch : String → Bool
starts_batch [] = false
starts_batch (c ∷ s) = eqb (code c) b'['

-- Decoding an array of raw messages is encoding/json's.
module _ (array_of : String → Option (List String)) where
  abbrev pub batch_or : String → Option (List String) → List String
  batch_or text none = text ∷ []
  batch_or text (some messages) = messages

  abbrev pub trimmed_messages : String → List String
  trimmed_messages text =
      if is_blank text
      then []
      else (if starts_batch text then batch_or text (array_of text) else text ∷ [])

  unfoldable pub dispatch_data : String → List String
  unfolding trim_left trim_right
  dispatch_data text = trimmed_messages (trim_space text)

  abbrev pub has_lines : List String → Bool
  has_lines [] = false
  has_lines (line ∷ lines) = true

  unfoldable pub flush : Stream → Stream
  unfolding dispatch_data join_lines
  flush st = record {
    event_type = "";
    data_lines = [];
    incoming =
        st.incoming
        ++ (if has_lines st.data_lines && (is_blank st.event_type || st.event_type == "message")
            then dispatch_data (join_lines st.data_lines)
            else []);
  }

  unfoldable pub on_line : String → Stream → Stream
  unfolding flush drop_prefix trim_left trim_right
  on_line line st =
      if is_blank line
      then flush st
      else (if has_prefix line "event:"
          then record st { event_type = trim_space (drop_prefix line "event:") }
          else (if has_prefix line "data:"
              then record st {
                data_lines = st.data_lines ++ (trim_space (drop_prefix line "data:") ∷ []);
              }
              else st))

  unfoldable pub consume : List String → Stream → Stream
  unfolding on_line flush
  consume [] st = flush st
  consume (line ∷ lines) st = consume lines (on_line line st)
