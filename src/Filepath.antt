-- ===== src/Filepath.antt =====
-- The functions of Go's `path/filepath` that the program calls, on a Unix system: they are lexical,
-- and touch no file. A path's parts are those of its cleaned form.
pub mod Split
pub mod Parts
pub mod Rel
use mathlib.Core.Option
use slack_mcp_extender.Base.{
  String, ◌<>◌, Bool, true, false, ◌||◌, ◌&&◌, not, Option, none, some, List, [], ◌∷◌, ◌++◌,
  reverse, if◌then◌else◌, ◌==◌, has_prefix, split, replace,
}

abbrev pub split_slash : String → List String
split_slash = split b'/'

-- `strings.Join(parts, "/")`
unfoldable pub join_slash : List String → String
join_slash [] = ""
join_slash (part ∷ []) = part
join_slash (part ∷ next ∷ parts) = part <> ("/" <> join_slash (next ∷ parts))

-- `filepath.IsAbs`
unfoldable pub is_abs : String → Bool
unfolding has_prefix
is_abs path = has_prefix path "/"

-- ".." after the parts of a stack, whose top is its head: dropped at the root, and kept where a
-- relative path climbs above its start.
unfoldable pub climb : Bool → List String → List String
climb true [] = []
climb false [] = ".." ∷ []
climb rooted (top ∷ stack) = if top == ".." then ".." ∷ top ∷ stack else stack

unfoldable pub resolve_part : Bool → List String → String → List String
unfolding climb
resolve_part rooted stack part =
    if part == "" || part == "."
    then stack
    else if part == ".."
    then climb rooted stack
    else part ∷ stack

unfoldable pub resolve_parts : Bool → List String → List String → List String
unfolding resolve_part
resolve_parts rooted stack [] = reverse stack
resolve_parts rooted stack (part ∷ more) =
    resolve_parts rooted (resolve_part rooted stack part) more

-- The parts of the cleaned path.
unfoldable pub parts : String → List String
unfolding resolve_parts is_abs split
parts path = resolve_parts (is_abs path) [] (split_slash path)

abbrev pub dot_if_empty : List String → String
dot_if_empty [] = "."
dot_if_empty (part ∷ more) = join_slash (part ∷ more)

-- `filepath.Clean`
unfoldable pub clean : String → String
unfolding parts join_slash
clean path = if is_abs path then "/" <> join_slash (parts path) else dot_if_empty (parts path)

-- `filepath.Join(dir, name)`: empty elements are left out.
unfoldable pub join : String → String → String
unfolding clean
join dir name =
    if dir == ""
    then if name == "" then "" else clean name
    else if name == ""
    then clean dir
    else clean (dir <> ("/" <> name))

-- The last piece, and what stands before it.
abbrev pub last_piece : String → List String → String
last_piece found [] = found
last_piece found (piece ∷ more) = last_piece (if piece == "" then found else piece) more

-- `filepath.Base`: the last element, trailing separators left out.
unfoldable pub base : String → String
unfolding split
base path = if path == "" then "." else last_piece "/" (split_slash path)

abbrev init : List String → List String
init [] = []
init (piece ∷ []) = []
init (piece ∷ next ∷ more) = piece ∷ init (next ∷ more)

abbrev slashed : List String → String
slashed [] = ""
slashed (piece ∷ more) = piece <> ("/" <> slashed more)

-- `filepath.Dir`: all up to the last separator, cleaned.
unfoldable pub dir : String → String
unfolding clean split
dir path = clean (slashed (init (split_slash path)))

abbrev ups : List String → List String
ups [] = []
ups (part ∷ more) = ".." ∷ ups more

-- The way from the parts of one path to those of another.
unfoldable pub rel_parts : List String → List String → Option (List String)
rel_parts [] target = some target
rel_parts (part ∷ more) [] = some (ups (part ∷ more))
rel_parts (part ∷ more) (next ∷ target) =
    let rest = rel_parts more target in
    if part == next
    then rest
    else if part == ".."
    then none
    else some (ups (part ∷ more) ++ next ∷ target)

abbrev same : Bool → Bool → Bool
same true b = b
same false b = not b

-- `filepath.Rel`; `none` is its error.
unfoldable pub rel : String → String → Option String
unfolding rel_parts parts join_slash
rel root path =
    if same (is_abs root) (is_abs path)
    then Option.map dot_if_empty (rel_parts (parts root) (parts path))
    else none
