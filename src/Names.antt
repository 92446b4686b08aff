-- ===== src/Names.antt =====
-- The names of sessions and shots in website-backend/ava/capture/views.py: cleaning, numbering, and
-- the loops that look for a name that is not taken.
pub mod Numerals
pub mod Fresh
use Prim.Native.Char.{Char, code}
use Prim.Native.String.{◌++◌ as ◌<>◌, count}
use ava_capture.Base.{
  ℕ, zero, suc, ◌+◌, ◌-◌, ◌*◌, String, ◌==◌, leb, if◌then◌else◌, Bool, true, false, not, ◌&&◌, ◌||◌,
  Option, none, some, List, contains_text, str_eq, length,
}
use ava_capture.Base.Decimal.{decimal}

abbrev pub between : ℕ → ℕ → ℕ → Bool
between low high n = leb low n && leb n high

-- `[a-zA-Z0-9_-]`
abbrev pub is_allowed : ℕ → Bool
is_allowed n =
    between b'a' b'z' n || between b'A' b'Z' n || between b'0' b'9' n || n == b'_' || n == b'-'

-- `re.sub('[^a-zA-Z0-9_-]', '', s)`
unfoldable pub clean : String → String
clean String.[] = String.[]
clean (String.◌∷◌ c s) = if is_allowed (code c) then String.◌∷◌ c (clean s) else clean s

abbrev pub is_digit : Char → Bool
is_digit c = between b'0' b'9' (code c)

unfoldable pub all_digits : String → Bool
all_digits String.[] = true
all_digits (String.◌∷◌ c s) = is_digit c && all_digits s

-- `\d+$`
abbrev pub is_number : String → Bool
is_number s = not (str_eq s "") && all_digits s

-- `int` of digits, after the digits with the value `n`
unfoldable pub value_from : ℕ → String → ℕ
value_from n String.[] = n
value_from n (String.◌∷◌ c s) = value_from (n * 10 + (code c - b'0')) s

unfoldable pub zeros : ℕ → String
zeros zero = ""
zeros (suc n) = "0" <> zeros n

-- `'%0<width>d' % n`
unfoldable pub padded : ℕ → ℕ → String
padded width n = zeros (width - count (decimal n)) <> decimal n

abbrev pub prepend : Char → Option (String × String) → Option (String × String)
prepend c none = none
prepend c (some (p, n)) = some (String.◌∷◌ c p, n)

-- `re.match(r'(.+?)(\d+)$', s)`: the shortest prefix that leaves a number.
unfoldable pub split_number : String → Option (String × String)
split_number String.[] = none
split_number (String.◌∷◌ c s) =
    if is_number s then some (String.◌∷◌ c String.[], s) else prepend c (split_number s)

-- `while name in taken: name = candidate i; i = i + 1`, on fuel
unfoldable pub first_free : (ℕ → String) → List String → ℕ → ℕ → String → String
first_free candidate taken zero i name = name
first_free candidate taken (suc fuel) i name =
    let rest = first_free candidate taken fuel (suc i) (candidate i) in
    if contains_text taken name then rest else name

-- Rounds that are enough for the loop.
abbrev pub rounds : List String → ℕ
rounds taken = suc (suc (length taken))

-- The prefix and the first number of `unique_shot_name`.
abbrev pub numbering : String → Option (String × String) → String × ℕ
numbering name none = (name <> "_", 0)
numbering name (some (p, n)) = (p, value_from 0 n)

abbrev pub or_shot : String → String
or_shot name = if str_eq name "" then "Shot" else name

-- `'%s%03d' % (prefix, i)`
abbrev pub numbered : String → ℕ → String
numbered prefix i = prefix <> padded 3 i

-- `unique_shot_name`, among the names of the shots of the session
unfoldable pub unique_shot_name : String → List String → String
unique_shot_name wanted taken =
    let name = or_shot (clean wanted) in
    let (prefix, i) = numbering name (split_number name) in
    first_free (numbered prefix) taken (rounds taken) i name

-- The loop of `post_new_session`, from the cleaned name on: it numbers the name as it was given.
unfoldable pub unique_session_name : (given cleaned : String) → List String → String
unique_session_name given cleaned taken =
    first_free (numbered (given <> "_")) taken (rounds taken) 0 cleaned
