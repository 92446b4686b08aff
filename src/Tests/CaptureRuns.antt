-- ===== src/Tests/CaptureRuns.antt =====
-- Requests to the capture views, on the sample site.
use text.Mathlib.TextEquality.{eq_iff}
use ava_capture.Base.{
  ◌⊎◌, ℕ, ◌≡◌, refl, sym, ap, ◌∙◌, inl, str_eq, true, false, none, some, List, [], ◌∷◌, ◌++◌, inr,
  contains_text, any_of, select,
}
use ava_capture.Base.Int.{pos}
use ava_capture.Base.Table.{find, save}
use ava_capture.Farm.{User}
use ava_capture.Site.{
  Site, LocationAccess, Take, Shot, Result, ok, err, for_each, send, create_take, create_recording,
  save_shot, save_location, location_key,
}
use ava_capture.ShortIds.{uuid_node_base36, base36encode}
use ava_capture.Capture.{
  has_write_access_location_id, post_toggle_using_sync, post_set_camera_rotation,
  post_toggle_capturing,
}
use ava_capture.Capture.Rights.{IsLeft, IsStranger, camera_stranger}
use ava_capture.Capture.Allowed.{IsWriter, NoneForbidden, AllForbidden, location_by_rights}
use ava_capture.Capture.Shots.{NewSession, post_new_shot, shot_names}
use ava_capture.Capture.Shots.Unique.{post_new_shot-fresh}
use ava_capture.Capture.Discover.{sync_cameras}
use ava_capture.Capture.Discover.Synced.{Synced, sync_cameras-Synced}
use ava_capture.Capture.Takes.Reports.{cameras_named, cameras_of_machine}
use ava_capture.Capture.Takes.Rows.{thumbnail, thumb_name, add_row, row_by_parts, video_row}
use ava_capture.Capture.Takes.{
  take_if_chosen, take_in, add_take, count_on, register_nodes, register_node, register_cameras,
  register_camera, register_new_take, next_take_of,
}
use ava_capture.Capture.Takes.Numbering.{IsNumbered}
use ava_capture.Capture.Recording.{
  RecordAnswer, status, post_stop_recording, at_location, stop_recording, online_nodes, collect,
  add_rotation_info_to_cameras, turn_cameras,
}
use ava_capture.Capture.Recording.Numbered.{recording-IsNumbered}
use ava_capture.Capture.Locations.Settings.{LocationRequest}
use ava_capture.Tests.SiteSamples.{
  site, studio, reports, record_request, sample_shot, studio_location,
}
use ava_capture.Tests.Samples.{ann}

abbrev eve : User
eve = record { username = "eve"; is_superuser = false }

-- The only row of the sample's access table is ann's.
eve-IsStranger : (l : ℕ) → IsStranger eve l site
eve-IsStranger l a (inl same) named here =
    let hit : str_eq "ann" "eve" ≡ true =
      (eq_iff "ann" "eve").1 (sym (ap (λ (b : LocationAccess). b.user) same) ∙ named) in
    absurd (cc)
eve-IsStranger l a (inr none_left) named here = absurd none_left

camera_stranger_example :
    IsLeft (post_toggle_using_sync eve (some 2) site) site
    × IsLeft (post_set_camera_rotation eve (some 2) (some (pos 180)) site) site
    × IsLeft (post_toggle_capturing eve (some 2) site) site
camera_stranger_example =
    camera_stranger eve site (some 2) (some (pos 180)) (λ k _ _ _ l _ _ _. eve-IsStranger l)

post_new_shot-fresh_example :
    (shot : Shot) × (w' : Site) × (post_new_shot ann 1 (some "Shot_000") site ≡ (ok 200, w'))
    × (w'.shots ≡ site.shots ++ shot ∷ [])
    × (contains_text (shot_names 1 site) shot.name ≡ false)
    × (shot.session ≡ 1)
    × (shot.next_take ≡ 1)
    × (w'.locations
        ≡ save location_key (record studio_location { cur_shot = some shot.id }) site.locations)
unfolding has_write_access_location_id any_of find
post_new_shot-fresh_example =
    post_new_shot-fresh ann 1 1 "Shot_000" studio_location site refl refl refl

sync_cameras-Synced_example :
    (cams : List _) × (k : ℕ) × (sync_cameras 1 ("B" ∷ "C" ∷ []) site
      ≡ (ok tt, record site { cameras = cams; next_camera = k }))
    × Synced 1 ("B" ∷ "C" ∷ []) site.cameras cams
sync_cameras-Synced_example = sync_cameras-Synced 1 ("B" ∷ "C" ∷ []) site

abbrev third_take : Take
third_take = record (next_take_of studio sample_shot false false) { id = 7 }

no_session : NewSession
no_session = record { name = some "Day"; project_id = none; project_name = none }

no_config : LocationRequest
no_config = record {
  pulse_duration = some (pos 100);
  frequency = none;
  external_sync = none;
  display_focus_peak = none;
  display_overexposed = none;
  display_histogram = none;
  bitdepth_avi = none;
  bitdepth_single = none;
  image_format = none;
  wb_R = none;
  wb_G = none;
  wb_B = none;
}

location_by_rights_example :
    IsWriter eve 1 site
      × NoneForbidden eve 1 site studio reports record_request "hello" (some "Shot")
    ⊎ IsStranger eve 1 site
      × AllForbidden eve 1 site studio reports record_request true 5 2 no_session
          (some "Shot")
          "hello"
          "{}"
          "gain"
          "1.0"
          no_config
location_by_rights_example =
    location_by_rights eve 1 site studio reports record_request true 5 2 no_session (some "Shot")
      "hello" "{}" "gain" "1.0" no_config refl

-- What the end of a recording leaves of the sample site.
abbrev recorded : Result RecordAnswer × Site
recorded = post_stop_recording studio reports ann record_request site

abbrev given_answer : Result RecordAnswer × Site → RecordAnswer
given_answer (ok a, w) = a
given_answer (err e, w) = status 500

recording-IsNumbered_example : IsNumbered recorded.1
unfolding post_stop_recording at_location has_write_access_location_id any_of stop_recording
    online_nodes select for_each send collect add_rotation_info_to_cameras turn_cameras find
    register_new_take take_if_chosen take_in add_take create_take register_nodes register_node
    register_cameras register_camera thumbnail thumb_name uuid_node_base36 base36encode
    cameras_named cameras_of_machine add_row row_by_parts video_row create_recording count_on
    save_shot save_location
recording-IsNumbered_example =
    recording-IsNumbered studio reports ann record_request site recorded.1 (given_answer recorded)
      (tt, tt) (inr refl)
