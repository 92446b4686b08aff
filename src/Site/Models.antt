-- ===== src/Site/Models.antt =====
-- The tables of website-backend/ava/capture/models.py and archive/models.py, together with the job
-- farm, and what the views take from outside.
--
-- A number with decimals, which is only stored and sent, is kept as its text. The keys that only the
-- forms of the REST framework set are left out.
use ava_capture.Base.{ℕ, String, Bool, Option, List}
use ava_capture.Base.Int.{ℤ}
use ava_capture.Base.Effects.{Effect}
use ava_capture.Farm.{Farm}

-- `CaptureLocation`
pub record Location : Type 0 where
  pub id : ℕ
  pub name : String
  pub hardware_sync_frequency : ℤ
  pub pulse_duration : ℤ
  pub external_sync : Bool
  pub display_focus_peak : Bool
  pub display_overexposed : Bool
  pub display_histogram : Bool
  pub bitdepth_avi : ℤ
  pub bitdepth_single : ℤ
  pub image_format : String
  pub wb_R : String
  pub wb_G : String
  pub wb_B : String
  pub cur_project : Option ℕ
  pub cur_session : Option ℕ
  pub cur_shot : Option ℕ
  pub read_access_all : Bool

-- `LocationAccess`
pub record LocationAccess : Type 0 where
  pub user : String
  pub location : ℕ
  pub read_access : Bool
  pub write_access : Bool

-- `CaptureNode`
pub record CaptureNode : Type 0 where
  pub id : ℕ
  pub ip_address : String
  pub machine_name : String
  pub os : Option String
  pub last_seen : ℕ
  pub online : Bool
  pub location : Option ℕ
  pub sync_found : Bool
  pub drive_info : String
  pub code_version : ℤ
  pub build_version : String

-- `Camera` of a capture node
pub record Camera : Type 0 where
  pub id : ℕ
  pub node : ℕ
  pub unique_id : String
  pub model : String
  pub version : String
  pub exposure : String
  pub gain : String
  pub lens_aperture : String
  pub using_sync : Bool
  pub rotation : ℤ

pub record Project : Type 0 where
  pub id : ℕ
  pub name : String
  pub archived : Bool

pub record Session : Type 0 where
  pub id : ℕ
  pub name : String
  pub project : ℕ
  pub start_time : ℕ
  pub frontal_cam_id : Option String
  pub session_master_calib : Option ℕ
  pub session_master_colorchart : Option ℕ
  pub session_neutral_take : Option ℕ
  pub invert_polarization : Bool

pub record Shot : Type 0 where
  pub id : ℕ
  pub name : String
  pub session : ℕ
  pub next_take : ℕ

pub record Take : Type 0 where
  pub id : ℕ
  pub name : String
  pub shot : ℕ
  pub capture_time : ℕ
  pub sequence : ℕ
  pub export_path : Option String
  pub work_folder : Option String
  pub video_thumb : Option String
  pub flag : String
  pub is_burst : Bool
  pub is_scan_burst : Bool

-- `Camera` of the archive: what one camera has recorded in a take
pub record Recording : Type 0 where
  pub id : ℕ
  pub take : ℕ
  pub machine_name : String
  pub unique_id : String
  pub model : String
  pub version : String
  pub using_sync : Bool
  pub folder : String
  pub thumbnail_filename : Option String
  pub width : ℕ
  pub height : ℕ
  pub bitdepth : ℕ
  pub frame_count : ℕ
  pub dropped_frames : ℕ
  pub total_size : ℕ
  pub duration : String
  pub framerate : String
  pub all_files : Option String
  pub rotation : ℤ
  pub exposure_ms : String

-- `StaticScanAsset`
pub record ScanAsset : Type 0 where
  pub id : ℕ
  pub project : ℕ
  pub name : String
  pub image_folder : String
  pub work_folder : String
  pub thumbnail_filename : Option String
  pub take : Option ℕ
  pub take_neutral_start_time : Option String
  pub take_neutral_end_time : Option String
  pub take_mixed_w_time : Option String
  pub take_pattern_start_time : Option String
  pub take_pattern_last_time : Option String
  pub has_tracking : Bool

pub record TrackingAsset : Type 0 where
  pub id : ℕ
  pub take : ℕ
  pub work_folder : Option String
  pub start_time : String
  pub end_time : String
  pub video_thumb : Option String

-- The options of one camera in a request to its node.
pub record CameraOptions : Type 0 where
  pub unique_id : String
  pub using_sync : Option Bool
  pub image_rotation : Option ℤ

-- The body of a request to a capture node.
pub data Body : Type 0 where
  no_body : Body
  text : String → Body
  options : CameraOptions → Body
  cameras : List (String × ℤ) → Body

-- A request to a capture node, by its address and path.
pub record Message : Type 0 where
  pub ip_address : String
  pub path : String
  pub body : Body

-- The database, the exports that users last made, and the requests that were sent to the nodes.
pub record Site : Type 0 where
  pub farm : Farm
  pub locations : List Location
  pub accesses : List LocationAccess
  pub nodes : List CaptureNode
  pub cameras : List Camera
  pub projects : List Project
  pub sessions : List Session
  pub shots : List Shot
  pub takes : List Take
  pub recordings : List Recording
  pub scan_assets : List ScanAsset
  pub tracking_assets : List TrackingAsset
  pub export_paths : List (String × String)
  pub next_node : ℕ
  pub next_camera : ℕ
  pub next_project : ℕ
  pub next_session : ℕ
  pub next_shot : ℕ
  pub next_take : ℕ
  pub next_recording : ℕ
  pub next_scan : ℕ
  pub next_tracking : ℕ
  pub sent : List Message

-- A view of the site.
abbrev pub Task : Type 0 → Type 0
Task A = Effect Site A
