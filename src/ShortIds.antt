-- ===== src/ShortIds.antt =====
-- The short ids of website-backend/ava/common/uuid_utils.py. A text is the list of its characters'
-- codes, and `has_long` tells whether the interpreter has the type `long`, as Python 2 does.
pub mod RoundTrip
use ava_capture.Base.{
  ℕ, zero, suc, ◌+◌, ◌-◌, ◌*◌, ◌/◌, ◌%◌, ltb, leb, ◌==◌, if◌then◌else◌, Bool, true, false, Option,
  List, [], ◌∷◌,
}
use ava_capture.Base.Int.{ℤ, pos, negsuc}
use ava_capture.Base.Effects.{Result, ok, err, name_error}

-- `alphabet[i]`
abbrev pub alphabet_at : ℕ → ℕ
alphabet_at i = if ltb i 10 then b'0' + i else b'A' + (i - 10)

-- `while number != 0`, on fuel
unfoldable pub digits36 : ℕ → ℕ → List ℕ → List ℕ
digits36 zero number base36 = base36
digits36 (suc fuel) number base36 =
    let rest = digits36 fuel (number / 36) (alphabet_at (number % 36) ∷ base36) in
    if number == 0 then base36 else rest

-- The encoding of what is not negative. Each round divides by 36, so `number` rounds are enough.
unfoldable pub magnitude36 : ℕ → List ℕ
magnitude36 number = if ltb number 36 then alphabet_at number ∷ [] else digits36 number number []

-- The sign and the digits.
abbrev pub signed36 : ℤ → List ℕ
signed36 (pos n) = magnitude36 n
signed36 (negsuc n) = b'-' ∷ magnitude36 (suc n)

-- `base36encode`
unfoldable pub base36encode : (has_long : Bool) → ℤ → Result (List ℕ)
base36encode true number = ok (signed36 number)
base36encode false number = err name_error

-- `uuid_node_base36`, of a hardware address
unfoldable pub uuid_node_base36 : (has_long : Bool) → ℕ → Result (List ℕ)
uuid_node_base36 has_long node = base36encode has_long (pos node)
