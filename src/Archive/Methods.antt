-- ===== src/Archive/Methods.antt =====
-- The methods of website-backend/ava/archive/models.py that compute something, and the rules by which
-- jobs depend on assets.
use ava_capture.Base.{
  ℕ, ◌+◌, String, str_eq, ◌==◌, if◌then◌else◌, Bool, true, false, not, ◌&&◌, ◌||◌, Option, none,
  some, List, [], ◌∷◌, head?, select, count_where,
}
use ava_capture.Base.Table.{find}
use ava_capture.Base.Int.{ℤ, pos}
use ava_capture.Site.{
  Site, Project, Session, Shot, Take, Recording, ScanAsset, TrackingAsset, Result, ok, err,
  type_error, shot_key, session_key, take_key,
}
use ava_capture.Archive.Files.{frame_count}

-- The session of a take, and its project.
abbrev pub session_of : Take → Site → Option Session
session_of t w = elim (find shot_key t.shot w.shots) [
  | none ↦ none
  | some s ↦ find session_key s.session w.sessions
]

abbrev is_of_project : ℕ → Site → Take → Bool
is_of_project k w t = elim (session_of t w) [ none ↦ false | some s ↦ s.project == k ]

-- The takes of a project with a flag: `bested_takes`, `calib_takes` and `colorchart_takes`.
unfoldable pub flagged_takes : (flag : String) → Project → Site → List Take
flagged_takes flag p w = select (λ t. is_of_project p.id w t && str_eq t.flag flag) w.takes

-- `singleframe_takes`
unfoldable pub singleframe_takes : Project → Site → List Take
singleframe_takes p w =
    select (λ (t : Take). elim (frame_count t.id w) [ none ↦ false | some n ↦ n == 1 ])
      (flagged_takes "best" p w)

-- The flag of the take of an asset.
abbrev take_flag : Option ℕ → Site → Option String
take_flag none w = none
take_flag (some k) w = elim (find take_key k w.takes) [ none ↦ none | some t ↦ some t.flag ]

abbrev has_flag : String → Option String → Bool
has_flag flag none = false
has_flag flag (some f) = str_eq f flag

unfoldable pub best_staticscanassets : Project → Site → List ScanAsset
best_staticscanassets p w =
    select (λ (a : ScanAsset). a.project == p.id && has_flag "best" (take_flag a.take w))
      w.scan_assets

unfoldable pub calib_staticscanassets : Project → Site → List ScanAsset
calib_staticscanassets p w =
    select
      (λ (a : ScanAsset).
        a.project == p.id
        && (has_flag "calib" (take_flag a.take w) || has_flag "colorchart" (take_flag a.take w)))
      w.scan_assets

-- `shot_count` and `take_count`
unfoldable pub shot_count : Session → Site → ℕ
shot_count s w = count_where (λ (sh : Shot). sh.session == s.id) w.shots

abbrev is_of_session : ℕ → Site → Take → Bool
is_of_session k w t = elim (find shot_key t.shot w.shots) [
  | none ↦ false
  | some sh ↦ sh.session == k
]

unfoldable pub take_count : Session → Site → ℕ
take_count s w = count_where (is_of_session s.id w) w.takes

-- `Take.total_size`
unfoldable pub sum_of_sizes : List Recording → Option ℕ
sum_of_sizes [] = none
sum_of_sizes (r ∷ rs) = elim (sum_of_sizes rs) [
  | none ↦ some r.total_size
  | some n ↦ some (r.total_size + n)
]

unfoldable pub total_size : (take : ℕ) → Site → Option ℕ
total_size take w = sum_of_sizes (select (λ (r : Recording). r.take == take) w.recordings)

-- `scanAssetHasSequence`
abbrev is_some : Option String → Bool
is_some none = false
is_some (some _) = true

unfoldable pub scan_asset_has_sequence : ScanAsset → Bool
scan_asset_has_sequence a =
    is_some a.take_neutral_start_time
    && is_some a.take_neutral_end_time
    && is_some a.take_mixed_w_time
    && is_some a.take_pattern_start_time
    && is_some a.take_pattern_last_time

-- `get_neutral_work_folder`: that of the first scan of the neutral take, or its own.
abbrev scans_of : ℕ → Site → List ScanAsset
scans_of k w =
    select (λ (a : ScanAsset). elim a.take [ none ↦ false | some t ↦ t == k ]) w.scan_assets

abbrev folder_of : Option Take → Option ScanAsset → Option String
folder_of none scan = none
folder_of (some t) none = t.work_folder
folder_of (some t) (some scan) = some scan.work_folder

unfoldable pub get_neutral_work_folder : Session → Site → Option String
get_neutral_work_folder s w = elim s.session_neutral_take [
  | none ↦ none
  | some k ↦ folder_of (find take_key k w.takes) (head? (scans_of k w))
]

-- `session_master_calib_path` and `session_master_colorchart_path`: a file in the folder of a take; an
-- empty text counts as none.
abbrev in_folder : (String → String → String) → String → Option String → Option String
in_folder join file none = none
in_folder join file (some folder) = if str_eq folder "" then none else some (join folder file)

unfoldable pub path_in_take : (String → String → String) → String → Option ℕ → Site → Option String
path_in_take join file none w = none
path_in_take join file (some k) w = elim (find take_key k w.takes) [
  | none ↦ none
  | some t ↦ in_folder join file t.work_folder
]

abbrev is_tracking_of : ℕ → Site → TrackingAsset → Bool
is_tracking_of k w a = elim (find take_key a.take w.takes) [
  | none ↦ false
  | some t ↦ is_of_project k w t
]

-- `all_trackingassets` and `best_trackingassets`
unfoldable pub all_trackingassets : Project → Site → List TrackingAsset
all_trackingassets p w = select (is_tracking_of p.id w) w.tracking_assets

unfoldable pub best_trackingassets : Project → Site → List TrackingAsset
best_trackingassets p w =
    select (λ a. has_flag "best" (take_flag (some a.take) w)) (all_trackingassets p w)

-- `frontal_framerate`: that of the first recording by the frontal camera of the session.
abbrev is_frontal : Option String → Recording → Bool
is_frontal none r = false
is_frontal (some uid) r = str_eq r.unique_id uid

abbrev framerate_of : Option Recording → Option String
framerate_of none = none
framerate_of (some r) = some r.framerate

unfoldable pub frontal_framerate : Take → Site → Option String
frontal_framerate t w = elim (session_of t w) [
  | none ↦ none
  | some s ↦ framerate_of (
      head?
        (select (λ (r : Recording). r.take == t.id && is_frontal s.frontal_cam_id r) w.recordings))
]

-- `get_neutral_frame`: `times` multiplies numbers with decimals and cuts the product to an integer, and
-- `is_zero` tells whether one is 0, which counts as none.
abbrev frame_at :
    (times : String → String → ℤ) → (framerate : String) → Option String → Result (Option ℤ)
frame_at times framerate none = err type_error
frame_at times framerate (some time) = ok (some (times time framerate))

unfoldable pub neutral_frame :
    (is_zero : String → Bool)
    → (times : String → String → ℤ) → Option ScanAsset
    → (framerate : Option String) → Result (Option ℤ)
neutral_frame is_zero times none framerate = ok (some (pos 0))
neutral_frame is_zero times (some scan) none = ok (some (pos 0))
neutral_frame is_zero times (some scan) (some framerate) =
    if scan.has_tracking && not (is_zero framerate)
    then frame_at times framerate scan.take_mixed_w_time
    else ok (some (pos 0))

abbrev framerate_of_take : Option Take → Site → Option String
framerate_of_take none w = none
framerate_of_take (some t) w = frontal_framerate t w

unfoldable pub get_neutral_frame :
    (is_zero : String → Bool) → (times : String → String → ℤ) → Session → Site → Result (Option ℤ)
get_neutral_frame is_zero times s w = elim s.session_neutral_take [
  | none ↦ ok none
  | some k ↦
      neutral_frame is_zero times (head? (scans_of k w))
        (framerate_of_take (find take_key k w.takes) w)
]
