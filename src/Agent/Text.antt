-- ===== src/Agent/Text.antt =====
-- The functions of Go's strings, strconv and path/filepath that internal/agent/slot.go calls.
pub mod Trim
use Prim.Native.Char.{code}
use Prim.Native.String.{len, slice}
use text.Mathlib.Text.{starts_with}
use edge_fleet_operator_demo.Base.{
  ℕ, zero, suc, ◌+◌, ◌-◌, ◌*◌, ◌/◌, ◌%◌, String, ◌<>◌, Bool, true, false, ◌&&◌, ◌||◌, Option, none,
  some, List, [], ◌∷◌, ltb, leb, ◌==◌, if◌then◌else◌,
}

-- unicode.IsSpace
unfoldable pub is_space : ℕ → Bool
is_space c =
    leb 9 c && leb c 13
    || c == 32
    || c == 0x85
    || c == 0xa0
    || c == 0x1680
    || leb 0x2000 c && leb c 0x200a
    || c == 0x2028
    || c == 0x2029
    || c == 0x202f
    || c == 0x205f
    || c == 0x3000

unfoldable pub all_spaces : String → Bool
all_spaces String.[] = true
all_spaces (String.◌∷◌ c s) = is_space (code c) && all_spaces s

unfoldable pub trim_right : String → String
trim_right String.[] = String.[]
trim_right (String.◌∷◌ c s) =
    let rest = trim_right s in
    if is_space (code c) && all_spaces s then String.[] else String.◌∷◌ c rest

pub trim_left : String → String
trim_left String.[] = String.[]
trim_left (String.◌∷◌ c s) =
    let rest = trim_left s in if is_space (code c) then rest else String.◌∷◌ c s

-- strings.TrimSpace
unfoldable pub trim_space : String → String
unfolding is_space all_spaces trim_right trim_left
trim_space s = trim_right (trim_left s)

-- strings.TrimPrefix
unfoldable pub trim_prefix : String → String → String
trim_prefix s p = if starts_with s p then slice s (len p) (len s) else s

only_slashes : String → Bool
only_slashes String.[] = true
only_slashes (String.◌∷◌ c s) = code c == b'/' && only_slashes s

-- The last element so far, and what is left to read.
base_loop : String → String → String
base_loop last String.[] = last
base_loop last (String.◌∷◌ c s) =
    let next = base_loop "" s in
    let more = base_loop (last <> String.◌∷◌ c String.[]) s in
    if code c == b'/' then (if only_slashes s then last else next) else more

-- filepath.Base
unfoldable pub base : String → String
unfolding only_slashes base_loop
base String.[] = "."
base (String.◌∷◌ c s) = if only_slashes (String.◌∷◌ c s) then "/" else base_loop "" (String.◌∷◌ c s)

-- A list of texts with one more character at the beginning of the first.
abbrev pub extend_first : String → List String → List String
extend_first c [] = c ∷ []
extend_first c (part ∷ parts) = (c <> part) ∷ parts

-- An int, by its sign: `negsuc n` is -(n + 1).
pub data ℤ : Type 0 where
  pos : ℕ → ℤ
  negsuc : ℕ → ℤ

abbrev max_int : ℕ
max_int = 9223372036854775807

digits_value : ℕ → String → Option ℕ
digits_value n String.[] = some n
digits_value n (String.◌∷◌ c s) =
    let rest = digits_value (n * 10 + (code c - b'0')) s in
    if leb b'0' (code c) && leb (code c) b'9' then rest else none

-- A number of at least one digit; past the range the value is the end of the range.
natural : String → Option ℕ
unfolding digits_value
natural String.[] = none
natural (String.◌∷◌ c s) = digits_value 0 (String.◌∷◌ c s)

clamp : ℕ → ℕ → ℕ
clamp top n = if ltb top n then top else n

abbrev negated : ℕ → ℤ
negated zero = pos 0
negated (suc n) = negsuc n

signed : Bool → Option ℕ → ℤ
unfolding clamp
signed negative none = pos 0
signed true (some n) = negated (clamp (max_int + 1) n)
signed false (some n) = pos (clamp max_int n)

-- strconv.Atoi with its error dropped: 0 for what is no number, the end of the range past it.
unfoldable pub atoi : String → ℤ
unfolding natural signed
atoi String.[] = pos 0
atoi (String.◌∷◌ c s) =
    if code c == b'-'
    then signed true (natural s)
    else if code c == b'+'
    then signed false (natural s)
    else signed false (natural (String.◌∷◌ c s))

digit_text : ℕ → String
digit_text d =
    if d == 0
    then "0"
    else if d == 1
    then "1"
    else if d == 2
    then "2"
    else if d == 3
    then "3"
    else if d == 4
    then "4"
    else if d == 5
    then "5"
    else if d == 6
    then "6"
    else if d == 7
    then "7"
    else if d == 8
    then "8"
    else "9"

-- The digits of a number with at most as many as the first argument says.
decimal : ℕ → ℕ → String
unfolding digit_text
decimal zero n = digit_text n
decimal (suc k) n =
    let more = decimal k (n / 10) in if ltb n 10 then digit_text n else more <> digit_text (n % 10)

-- strconv.Itoa; an int has at most 19 digits.
unfoldable pub itoa : ℤ → String
unfolding decimal
itoa (pos n) = decimal 19 n
itoa (negsuc n) = "-" <> decimal 19 (n + 1)

-- i + 1
abbrev pub successor : ℤ → ℤ
successor (pos n) = pos (n + 1)
successor (negsuc n) = negated n
