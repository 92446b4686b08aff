-- ===== src/Tests/NameRuns.antt =====
-- Names and short ids.
use ava_capture.Base.{ℕ, String, ◌≡◌, true, false, List, [], ◌∷◌, contains_text}
use ava_capture.Base.Int.{negsuc}
use ava_capture.Base.Effects.{ok}
use ava_capture.Names.{unique_shot_name, unique_session_name}
use ava_capture.Names.Fresh.{unique_names_fresh}
use ava_capture.ShortIds.{base36encode}
use ava_capture.ShortIds.RoundTrip.{decode36, base36encode-decode36}

abbrev taken : List String
taken = "Shot_001" ∷ "Shot_002" ∷ "Day" ∷ []

unique_names_fresh_example :
    (contains_text taken (unique_shot_name "Shot_001" taken) ≡ false)
    × (contains_text taken (unique_session_name "Day" "Shot_001" taken) ≡ false)
unique_names_fresh_example = unique_names_fresh "Day" "Shot_001" taken

base36encode-decode36_example :
    (s : List ℕ) × (base36encode true (negsuc 1294) ≡ ok s) × (decode36 s ≡ negsuc 1294)
base36encode-decode36_example = base36encode-decode36 (negsuc 1294)
