-- ===== src/Tests/SiteSamples.antt =====
-- A small site: a studio with a node and two cameras, and a project with a session and a shot.
use ava_capture.Base.{ℕ, String, str_eq, if◌then◌else◌, true, false, none, some, [], ◌∷◌}
use ava_capture.Base.Int.{pos}
use ava_capture.Site.{Site, Location, CaptureNode, Camera, Project, Session, Shot}
use ava_capture.Capture.Takes.Reports.{Studio, CameraReport, NodeReport}
use ava_capture.Capture.Recording.{Reports, RecordRequest}
use ava_capture.Tests.Samples.{farm}

abbrev pub studio_location : Location
studio_location = record {
  id = 1;
  name = "Studio";
  hardware_sync_frequency = pos 30;
  pulse_duration = pos 2000;
  external_sync = false;
  display_focus_peak = false;
  display_overexposed = false;
  display_histogram = false;
  bitdepth_avi = pos 8;
  bitdepth_single = pos 12;
  image_format = "raw";
  wb_R = "1.37";
  wb_G = "1.0";
  wb_B = "2.65";
  cur_project = some 1;
  cur_session = some 1;
  cur_shot = some 1;
  read_access_all = false;
}

abbrev pub camera_node : ℕ → String → CaptureNode
camera_node id ip = record {
  id = id;
  ip_address = ip;
  machine_name = "stage";
  os = none;
  last_seen = 0;
  online = true;
  location = some 1;
  sync_found = true;
  drive_info = "";
  code_version = pos 1024;
  build_version = "";
}

abbrev pub stage_camera : ℕ → String → Camera
stage_camera id unique_id = record {
  id = id;
  node = 1;
  unique_id = unique_id;
  model = "";
  version = "";
  exposure = "5000.0";
  gain = "0.0";
  lens_aperture = "5.6";
  using_sync = true;
  rotation = pos 90;
}

abbrev pub sample_project : Project
sample_project = record { id = 1; name = "Film"; archived = false }

abbrev pub sample_session : Session
sample_session = record {
  id = 1;
  name = "Day";
  project = 1;
  start_time = 0;
  frontal_cam_id = none;
  session_master_calib = none;
  session_master_colorchart = none;
  session_neutral_take = none;
  invert_polarization = false;
}

abbrev pub sample_shot : Shot
sample_shot = record { id = 1; name = "Shot_000"; session = 1; next_take = 3 }

-- Ann may write the studio.
abbrev pub site : Site
site = record {
  farm = farm [];
  locations = studio_location ∷ [];
  accesses = record { user = "ann"; location = 1; read_access = true; write_access = true } ∷ [];
  nodes = camera_node 1 "10.0.0.1" ∷ camera_node 2 "10.0.0.2" ∷ [];
  cameras = stage_camera 1 "A" ∷ stage_camera 2 "B" ∷ [];
  projects = sample_project ∷ [];
  sessions = sample_session ∷ [];
  shots = sample_shot ∷ [];
  takes = [];
  recordings = [];
  scan_assets = [];
  tracking_assets = [];
  export_paths = [];
  next_node = 3;
  next_camera = 3;
  next_project = 2;
  next_session = 2;
  next_shot = 2;
  next_take = 7;
  next_recording = 1;
  next_scan = 1;
  next_tracking = 1;
  sent = [];
}

-- The interpreter has `long`.
abbrev pub studio : Studio
studio = record {
  has_long = true;
  hardware_address = 35;
  now = 5;
  text_of = λ _. "Z";
  per_thousand = λ t. t;
}

abbrev pub video : CameraReport
video = record {
  unique_id = "A";
  model = "XiC";
  version = "1";
  using_hardware_sync = true;
  width = 4096;
  height = 3000;
  framerate = "30.0";
  jpeg_thumbnail = some "…";
  recorder = some (record { filenames = "take.avi" ∷ []; total_size = 9 });
  metadata = some (record {
    meta_filename = "take.txt";
    bitdepth = 8;
    frame_count = 12;
    missing_frames = 0;
    duration = "0.4";
  });
  audio = none;
  exposure = none;
  rotation = none;
}

abbrev pub report : NodeReport
report = record { machine_name = "stage"; ip_address = "10.0.0.1"; cameras = some (video ∷ []) }

-- Only the first node answers.
abbrev pub reports : Reports
reports _ ip = if str_eq ip "10.0.0.1" then some report else none

-- A request to record, in the session and the shot that are there.
abbrev pub record_request : RecordRequest
record_request = record {
  location = some 1;
  session_id = none;
  shot = some "Shot_000";
  burst_length = none;
  burst_is_scan = none;
}
