-- ===== src/Capture/Takes/Reports.antt =====
-- What the capture nodes report of a take, for `register_new_take` of
-- website-backend/ava/capture/views.py. A number with decimals is kept as its text.
use Prim.Native.String.{◌++◌ as ◌<>◌}
use ava_capture.Base.{
  ℕ, String, str_eq, ◌==◌, Bool, false, ◌&&◌, Option, none, some, List, [], ◌∷◌, ◌++◌, select,
  any_of,
}
use ava_capture.Base.Int.{ℤ}
use ava_capture.Site.{Site, CaptureNode, Camera}

-- The interpreter (`long`), the machine (`uuid.getnode`), the clock, the text of characters given by
-- their codes, and the division of a number with decimals by 1000.
pub record Studio : Type 0 where
  pub has_long : Bool
  pub hardware_address : ℕ
  pub now : ℕ
  pub text_of : List ℕ → String
  pub per_thousand : String → String

-- `cam['recorder']`, `cam['meta']` and `cam['audio']`
pub record Recorder : Type 0 where
  pub filenames : List String
  pub total_size : ℕ

pub record Meta : Type 0 where
  pub meta_filename : String
  pub bitdepth : ℕ
  pub frame_count : ℕ
  pub missing_frames : ℕ
  pub duration : String

pub record Audio : Type 0 where
  pub filename : String
  pub bits_per_sample : ℕ
  pub recorded_samples : ℕ
  pub duration : String
  pub sample_rate : String

-- What a node reports of a camera: its `camera`, the thumbnail, and the parts that are there.
pub record CameraReport : Type 0 where
  pub unique_id : String
  pub model : String
  pub version : String
  pub using_hardware_sync : Bool
  pub width : ℕ
  pub height : ℕ
  pub framerate : String
  pub jpeg_thumbnail : Option String
  pub recorder : Option Recorder
  pub metadata : Option Meta
  pub audio : Option Audio
  pub exposure : Option String
  pub rotation : Option ℤ

-- What a node reports; `cameras` may be missing.
pub record NodeReport : Type 0 where
  pub machine_name : String
  pub ip_address : String
  pub cameras : Option (List CameraReport)

-- What `register_new_take` adds to the summary.
pub record TakeInfo : Type 0 where
  pub project_name : String
  pub session_name : String
  pub shot_name : String
  pub take_index : ℕ
  pub take_id : ℕ

abbrev files_of_recorder : Option Recorder → List String
files_of_recorder none = []
files_of_recorder (some r) = r.filenames

abbrev files_of_meta : Option Meta → List String
files_of_meta none = []
files_of_meta (some m) = m.meta_filename ∷ []

abbrev files_of_audio : Option Audio → List String
files_of_audio none = []
files_of_audio (some a) = a.filename ∷ []

abbrev pub all_files : CameraReport → List String
all_files cam =
    files_of_recorder cam.recorder ++ files_of_meta cam.metadata ++ files_of_audio cam.audio

-- `';'.join(files)`
unfoldable pub join : List String → String
join [] = ""
join (x ∷ []) = x
join (x ∷ y ∷ rest) = x <> ";" <> join (y ∷ rest)

-- `Camera.objects.filter(node__location=…, node__machine_name=…)`
abbrev is_of_machine : (location : ℕ) → (machine : String) → CaptureNode → Bool
is_of_machine location machine n =
    str_eq n.machine_name machine && elim n.location [ none ↦ false | some l ↦ l == location ]

unfoldable pub cameras_of_machine : (location : ℕ) → (machine : String) → Site → List Camera
cameras_of_machine location machine w =
    select
      (λ (c : Camera).
        any_of (λ (n : CaptureNode). n.id == c.node && is_of_machine location machine n) w.nodes)
      w.cameras

unfoldable pub cameras_named : String → List Camera → List Camera
cameras_named unique_id cams = select (λ c. str_eq c.unique_id unique_id) cams
