-- ===== src/Commands/Paths.antt =====
-- filepath.Join, as cmd/agent/main.go calls it.
use Prim.Native.Char.{code}
use edge_fleet_operator_demo.Base.{
  ◌≡◌, refl, String, ◌<>◌, Bool, true, false, List, [], ◌∷◌, str_eq, ◌==◌, if◌then◌else◌,
}
use edge_fleet_operator_demo.Agent.Text.{extend_first}

-- The texts between the slashes.
split_slashes : String → List String
split_slashes String.[] = "" ∷ []
split_slashes (String.◌∷◌ c s) =
    let rest = split_slashes s in
    if code c == b'/' then "" ∷ rest else extend_first (String.◌∷◌ c String.[]) rest

-- `..` takes the part before it away; at the root it is dropped, and with nothing before it, kept.
parent_of : Bool → List String → List String
parent_of true [] = []
parent_of false [] = ".." ∷ []
parent_of rooted (part ∷ parts) = if str_eq part ".." then ".." ∷ part ∷ parts else parts

-- The parts so far, the last one first, with one more.
with_part : Bool → String → List String → List String
unfolding parent_of
with_part rooted part kept =
    if str_eq part ""
    then kept
    else if str_eq part "."
    then kept
    else if str_eq part ".."
    then parent_of rooted kept
    else part ∷ kept

clean_parts : Bool → List String → List String → List String
unfolding with_part
clean_parts rooted kept [] = kept
clean_parts rooted kept (part ∷ parts) = clean_parts rooted (with_part rooted part kept) parts

join_reversed : String → List String → String
join_reversed path [] = path
join_reversed path (part ∷ parts) = join_reversed (part <> "/" <> path) parts

print_parts : Bool → List String → String
unfolding join_reversed
print_parts true [] = "/"
print_parts false [] = "."
print_parts true (part ∷ parts) = "/" <> join_reversed part parts
print_parts false (part ∷ parts) = join_reversed part parts

is_rooted : String → Bool
is_rooted String.[] = false
is_rooted (String.◌∷◌ c s) = code c == b'/'

-- filepath.Clean on a system whose separator is a slash
pub clean : String → String
unfolding split_slashes clean_parts print_parts is_rooted
clean path = print_parts (is_rooted path) (clean_parts (is_rooted path) [] (split_slashes path))

-- The elements that are not empty, with slashes between them.
with_slashes : List String → String
with_slashes [] = ""
with_slashes (part ∷ parts) =
    let rest = with_slashes parts in
    if str_eq part "" then rest else if str_eq rest "" then part else part <> "/" <> rest

-- filepath.Join
unfoldable pub join : List String → String
unfolding clean with_slashes
join parts = let path = with_slashes parts in if str_eq path "" then "" else clean path

join_test : join ("/home/edge" ∷ ".edge-fleet" ∷ "../device-1" ∷ []) ≡ "/home/edge/device-1"
unfolding join
join_test = refl
