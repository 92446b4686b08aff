-- ===== src/Archive/Files.antt =====
-- The files of a take: the text `all_files` of a recording, and the lists that the views make of it.
pub mod RoundTrip
use Prim.Native.Char.{Char, code}
use ava_capture.Base.{
  ℕ, suc, ◌==◌, leb, String, str_eq, if◌then◌else◌, Bool, true, false, Option, none, some, List, [],
  ◌∷◌, ◌++◌, select,
}
use ava_capture.Site.{Site, Take, Recording}

-- The first part of a text, with one more character.
abbrev pub onto : Char → List String → List String
onto c [] = String.◌∷◌ c String.[] ∷ []
onto c (x ∷ xs) = String.◌∷◌ c x ∷ xs

-- `text.split(';')`
unfoldable pub split : String → List String
split String.[] = "" ∷ []
split (String.◌∷◌ c s) = if code c == b';' then "" ∷ split s else onto c (split s)

-- `dict` of lists, in the order in which the keys came: `d[key].extend(values)`, where a new key has
-- an empty list.
unfoldable pub extend_at :
    {A : Type 0} → String → List A → List (String × List A) → List (String × List A)
extend_at key values [] = (key, values) ∷ []
extend_at key values ((k, vs) ∷ rest) =
    if str_eq k key then (k, vs ++ values) ∷ rest else (k, vs) ∷ extend_at key values rest

unfoldable pub insert_by_unique_id :
    (String → String → Bool) → Recording → List Recording → List Recording
insert_by_unique_id le r [] = r ∷ []
insert_by_unique_id le r (x ∷ xs) =
    if le r.unique_id x.unique_id then r ∷ x ∷ xs else x ∷ insert_by_unique_id le r xs

unfoldable pub order_by_unique_id : (String → String → Bool) → List Recording → List Recording
order_by_unique_id le [] = []
order_by_unique_id le (r ∷ rs) = insert_by_unique_id le r (order_by_unique_id le rs)

-- `take.cameras.all()`
unfoldable pub cameras_of : (String → String → Bool) → (take : ℕ) → Site → List Recording
cameras_of le take w =
    order_by_unique_id le (select (λ (r : Recording). r.take == take) w.recordings)

abbrev at_least : ℕ → Option ℕ → Option ℕ
at_least n none = some n
at_least n (some m) = some (if leb n m then m else n)

-- The largest of the numbers of frames.
unfoldable pub largest_frame_count : List Recording → Option ℕ
largest_frame_count [] = none
largest_frame_count (r ∷ rs) = at_least r.frame_count (largest_frame_count rs)

-- `Take.frame_count`
unfoldable pub frame_count : (take : ℕ) → Site → Option ℕ
frame_count take w = largest_frame_count (select (λ (r : Recording). r.take == take) w.recordings)
