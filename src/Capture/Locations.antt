-- ===== src/Capture/Locations.antt =====
-- The cameras of a location in detail: `cameras_detailed` and `camera_detailed` of website-backend/ava/capture/views.py.
--
-- The rows that the serializers print are given as rows. What a node answers to `cameras` is given by
-- `details`; the large preview of `camera_detailed` is never fetched, since `urllib2` is not imported.
pub mod Settings
use Prim.Native.String.{◌++◌ as ◌<>◌}
use ava_capture.Base.{
  ⊤, ℕ, ◌+◌, ltb, String, str_eq, ◌==◌, if◌then◌else◌, Bool, true, false, not, ◌&&◌, ◌||◌, Option,
  none, some, List, [], ◌∷◌, ◌++◌, head?, select, map, any_of, count_where,
}
use ava_capture.Base.Int.{ℤ}
use ava_capture.Base.Table.{find, update_where}
use ava_capture.Farm.{Env, Job, Node, User, is, running, ready, seconds}
use ava_capture.Site.{
  Site, Task, Location, CaptureNode, Camera, text, pure, gets, modify, ◌>>=◌, ◌>>◌, get_location,
  save_location, create_project, send, for_each, location_key,
}
use ava_capture.Capture.{has_write_access_location_id, has_read_access_location_id}
use ava_capture.Capture.Discover.{or_old}
use ava_capture.Capture.Recording.{online_nodes}
use ava_capture.Capture.Locations.Settings.{is_alive, is_in, location}

-- A camera in the answer of a node, with what the view adds to it: `rest` is all the node says.
pub record CameraDetail : Type 0 where
  pub unique_id : String
  pub rest : String
  pub ip_address : Option String
  pub machine_name : Option String
  pub id : Option ℕ
  pub rotation : Option ℤ

pub record NodeDetail : Type 0 where
  pub node : CaptureNode
  pub cameras : List Camera
  pub camera_details : Option (List CameraDetail)

-- `cam_id_map`: of two cameras with one id the later counts.
unfoldable pub cam_id_map : String → List Camera → Option Camera
cam_id_map unique_id [] = none
cam_id_map unique_id (c ∷ cs) = elim (cam_id_map unique_id cs) [
  | some later ↦ some later
  | none ↦ if str_eq c.unique_id unique_id then some c else none
]

abbrev identified : Option Camera → CameraDetail → CameraDetail
identified none d = d
identified (some c) d = record d { id = some c.id; rotation = some c.rotation }

abbrev with_ids : CaptureNode → List Camera → CameraDetail → CameraDetail
with_ids n cams d =
    identified (cam_id_map d.unique_id cams)
      (record d { ip_address = some n.ip_address; machine_name = some n.machine_name })

abbrev all_with_ids :
    CaptureNode → List Camera → Option (List CameraDetail) → Option (List CameraDetail)
all_with_ids n cams none = none
all_with_ids n cams (some ds) = some (map (with_ids n cams) ds)

abbrev detail_of : (CaptureNode → Option (List CameraDetail)) → Site → CaptureNode → NodeDetail
detail_of details w n =
    let cams = select (λ (c : Camera). c.node == n.id) w.cameras in
    record { node = n; cameras = cams; camera_details = all_with_ids n cams (details n) }

unfoldable pub insert_by_name :
    (String → String → Bool) → CaptureNode → List CaptureNode → List CaptureNode
insert_by_name le n [] = n ∷ []
insert_by_name le n (m ∷ ms) =
    if le n.machine_name m.machine_name then n ∷ m ∷ ms else m ∷ insert_by_name le n ms

unfoldable pub order_by_name : (String → String → Bool) → List CaptureNode → List CaptureNode
order_by_name le [] = []
order_by_name le (n ∷ ns) = insert_by_name le n (order_by_name le ns)

-- The nodes of a location that were seen in the last 90 seconds, by name.
unfoldable pub live_nodes : Env → ℕ → Site → List CaptureNode
live_nodes env location_id w =
    order_by_name env.name_le
      (select (λ n. is_alive env.now n && is_in (some location_id) n) w.nodes)

-- The location of the answer, whose keys `project_id`, `session_id`, `shot_id` and their names are
-- read from the rows that it names.
pub record Details : Type 0 where
  pub write_access : Bool
  pub location : Location
  pub nodes : List NodeDetail

pub data CamerasAnswer : Type 0 where
  denied : ℕ → CamerasAnswer
  cameras_shown : Details → CamerasAnswer

-- A location without a project gets a default one.
unfoldable pub with_project : Location → Task Location
with_project loc = elim loc.cur_project [
  | some _ ↦ pure loc
  | none ↦ do
    prj ← create_project (record { id = 0; name = "Default_" <> loc.name; archived = false })
    save_location (record loc { cur_project = some prj.id })
    pure (record loc { cur_project = some prj.id })
]

-- `cameras_detailed`, for a user who may read the location.
unfoldable pub show_cameras :
    Env → (CaptureNode → Option (List CameraDetail)) → User → Location → Task CamerasAnswer
show_cameras env details user loc = do
  write_access ← gets (has_write_access_location_id user loc.id)
  nodes ← gets (live_nodes env loc.id)
  shown ← with_project loc
  listed ← gets (λ w. map (detail_of details w) nodes)
  pure (cameras_shown (record { write_access = write_access; location = shown; nodes = listed }))

unfoldable pub cameras_detailed :
    Env → (CaptureNode → Option (List CameraDetail)) → User → ℕ → Task CamerasAnswer
cameras_detailed env details user location_id = if location_id == 0 then pure (denied 500) else do
  loc ← get_location location_id
  allowed ← gets (λ w. loc.read_access_all || has_read_access_location_id user location_id w)
  (if not allowed then pure (denied 403) else show_cameras env details user loc)

pub data CameraAnswer : Type 0 where
  no_camera : ℕ → CameraAnswer
  one_camera : Camera → CameraAnswer

abbrev camera_answer : Option Camera → CameraAnswer
camera_answer none = no_camera 404
camera_answer (some c) = one_camera c

-- The camera with a key, in a location.
unfoldable pub find_camera : (location_id camera_id : ℕ) → Site → CameraAnswer
find_camera location_id camera_id w = camera_answer (
    head? (
      select
        (λ (c : Camera).
          c.id == camera_id
          && any_of (λ (n : CaptureNode). n.id == c.node && is_in (some location_id) n) w.nodes)
        w.cameras))

-- `camera_detailed`
unfoldable pub camera_detailed : User → (location_id camera_id : ℕ) → Task CameraAnswer
camera_detailed user location_id camera_id =
    if location_id == 0 then gets (find_camera location_id camera_id) else do
      loc ← get_location location_id
      allowed ← gets (λ w. loc.read_access_all || has_read_access_location_id user location_id w)
      (if not allowed then pure (no_camera 403) else gets (find_camera location_id camera_id))
