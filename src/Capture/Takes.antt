-- ===== src/Capture/Takes.antt =====
-- The row of a new take and of what its cameras recorded: `register_new_take` of
-- website-backend/ava/capture/views.py.
--
-- The thumbnails that are written to files are left out. What the nodes report is given as records;
-- a number with decimals is kept as its text.
pub mod Reports
pub mod Rows
pub mod Framing
pub mod Numbering
pub mod Returning
pub mod Complete
use Prim.Native.String.{◌++◌ as ◌<>◌}
use ava_capture.Base.{
  ⊤, ℕ, zero, suc, ◌+◌, String, str_eq, ◌==◌, if◌then◌else◌, Bool, true, false, ◌&&◌, Option, none,
  some, List, [], ◌∷◌, ◌++◌, head?, select, any_of,
}
use ava_capture.Base.Int.{ℤ, pos}
use ava_capture.Names.{padded}
use ava_capture.ShortIds.{uuid_node_base36}
use ava_capture.Site.{
  Site, Task, Location, CaptureNode, Camera, Project, Session, Shot, Take, Recording, Result, ok,
  err, pure, raise, gets, or_raise, index_error, unbound_local, ◌>>=◌, ◌>>◌, get_project,
  get_session, get_shot, save_location, save_shot, create_take, create_recording,
}
use ava_capture.Capture.Takes.Reports.{
  Studio, Recorder, Meta, Audio, CameraReport, NodeReport, TakeInfo, all_files, join,
  cameras_of_machine, cameras_named,
}
use ava_capture.Capture.Takes.Rows.{thumbnail, add_row}

-- A round of the loop on the cameras: the variable `filename` outlives it.
unfoldable pub register_camera :
    Studio
    → (location : ℕ) → Take
    → String
    → ℕ
    → Option String
    → CameraReport
    → Task (Option String)
register_camera studio location take machine cam_index filename cam = do
  filename' ← thumbnail studio take cam_index filename cam.unique_id cam.jpeg_thumbnail
  known ← gets (λ w. cameras_named cam.unique_id (cameras_of_machine location machine w))
  db_cam ← or_raise (head? known) index_error
  add_row studio take machine cam db_cam.rotation filename'
  pure filename'

unfoldable pub register_cameras :
    Studio
    → (location : ℕ) → Take
    → String
    → ℕ
    → Option String
    → List CameraReport
    → Task (Option String)
register_cameras studio location take machine cam_index filename [] = pure filename
register_cameras studio location take machine cam_index filename (cam ∷ cams) = do
  filename' ← register_camera studio location take machine cam_index filename cam
  register_cameras studio location take machine (suc cam_index) filename' cams

-- The cameras of a node, if it reports any.
unfoldable pub register_node :
    Studio
    → (location : ℕ) → Take
    → String
    → Option String
    → Option (List CameraReport)
    → Task (Option String)
register_node studio location take machine filename none = pure filename
register_node studio location take machine filename (some cams) =
    register_cameras studio location take machine 0 filename cams

unfoldable pub register_nodes :
    Studio → (location : ℕ) → Take → Option String → List NodeReport → Task ⊤
register_nodes studio location take filename [] = pure tt
register_nodes studio location take filename (node ∷ nodes) = do
  filename' ← register_node studio location take node.machine_name filename node.cameras
  register_nodes studio location take filename' nodes

-- The take that is next in a shot.
abbrev pub next_take_of : Studio → Shot → (is_burst is_scan : Bool) → Take
next_take_of studio shot is_burst is_scan = record {
  id = 0;
  name = "Take_" <> padded 4 shot.next_take;
  shot = shot.id;
  capture_time = studio.now;
  sequence = shot.next_take;
  export_path = none;
  work_folder = none;
  video_thumb = none;
  flag = "none";
  is_burst = is_burst;
  is_scan_burst = is_scan;
}

-- `loc.cur_shot.increment_take()` and `loc.save()`
unfoldable pub count_on : Location → Shot → Take → Task Take
count_on loc shot take = do
  save_shot (record shot { next_take = shot.next_take + 1 })
  save_location loc
  pure take

-- The take of a shot, with its cameras, and the shot's next number.
unfoldable pub add_take :
    Studio → Location → Shot → List NodeReport → (is_burst is_scan : Bool) → Task Take
add_take studio loc shot nodes is_burst is_scan = do
  take ← create_take (next_take_of studio shot is_burst is_scan)
  register_nodes studio loc.id take none nodes
  count_on loc shot take

abbrev pub info_of : Project → Session → Shot → Take → TakeInfo
info_of project session shot take = record {
  project_name = project.name;
  session_name = session.name;
  shot_name = shot.name;
  take_index = take.sequence;
  take_id = take.id;
}

-- The take of a location whose project, session and shot are chosen.
unfoldable pub take_in :
    Studio
    → Location
    → (project session shot : ℕ) → List NodeReport
    → (is_burst is_scan : Bool) → Task TakeInfo
take_in studio loc project_id session_id shot_id nodes is_burst is_scan = do
  project ← get_project project_id
  session ← get_session session_id
  shot ← get_shot shot_id
  take ← add_take studio loc shot nodes is_burst is_scan
  pure (info_of project session shot take)

-- Only where the project, the session and the shot are chosen.
unfoldable pub take_if_chosen :
    Studio
    → Location
    → (project session shot : Option ℕ) → List NodeReport
    → (is_burst is_scan : Bool) → Task (Option TakeInfo)
take_if_chosen studio loc (some project) (some session) (some shot) nodes is_burst is_scan = do
  info ← take_in studio loc project session shot nodes is_burst is_scan
  pure (some info)
take_if_chosen studio loc _ _ _ nodes is_burst is_scan = pure none

-- `register_new_take`
unfoldable pub register_new_take :
    Studio → Location → List NodeReport → (is_burst is_scan : Bool) → Task (Option TakeInfo)
register_new_take studio loc nodes is_burst is_scan =
    take_if_chosen studio loc loc.cur_project loc.cur_session loc.cur_shot nodes is_burst is_scan
