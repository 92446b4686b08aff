-- ===== src/Capture/Takes/Rows.antt =====
-- The row of one camera of a take: the body of the loop of `register_new_take` in
-- website-backend/ava/capture/views.py.
use Prim.Native.String.{◌++◌ as ◌<>◌}
use ava_capture.Base.{⊤, ℕ, String, false, Option, none, some, head?}
use ava_capture.Base.Int.{ℤ, pos}
use ava_capture.Names.{padded}
use ava_capture.ShortIds.{uuid_node_base36}
use ava_capture.Site.{
  Task, Take, Result, ok, err, pure, raise, or_raise, index_error, unbound_local, ◌>>=◌,
  create_recording,
}
use ava_capture.Capture.Takes.Reports.{Studio, Recorder, Meta, Audio, CameraReport, all_files, join}

-- A result without effects.
abbrev pub returning : {A : Type 0} → Result A → Task A
returning (ok a) = pure a
returning (err e) = raise e

-- The name of the thumbnail's file.
unfoldable pub thumb_name : Studio → Take → (cam_index : ℕ) → (unique_id : String) → Task String
thumb_name studio take cam_index unique_id = do
  node_id ← returning (uuid_node_base36 studio.has_long studio.hardware_address)
  pure (
      padded 8 take.id
      <> "_"
      <> padded 3 cam_index
      <> "_"
      <> unique_id
      <> "_"
      <> studio.text_of node_id
      <> ".jpg")

-- The variable `filename`, which a camera without a thumbnail leaves as it was.
unfoldable pub thumbnail :
    Studio
    → Take
    → ℕ
    → (filename : Option String) → (unique_id : String) → (jpeg_thumbnail : Option String)
    → Task (Option String)
thumbnail studio take cam_index filename unique_id none = pure filename
thumbnail studio take cam_index filename unique_id (some _) = do
  name ← thumb_name studio take cam_index unique_id
  pure (some name)

abbrev pub exposure_of : Studio → CameraReport → String
exposure_of studio cam = elim cam.exposure [ none ↦ "0.0" | some e ↦ studio.per_thousand e ]

-- The row of a camera with a recorder and metadata.
unfoldable pub video_row :
    Studio → Take → String → CameraReport → ℤ → Recorder → Meta → Option String → Task ⊤
video_row studio take machine cam rotation r m filename = do
  folder ← or_raise (head? r.filenames) index_error
  name ← or_raise filename unbound_local
  create_recording (record {
    id = 0;
    take = take.id;
    machine_name = machine;
    unique_id = cam.unique_id;
    model = cam.model;
    version = cam.version;
    using_sync = cam.using_hardware_sync;
    folder = folder;
    thumbnail_filename = some name;
    width = cam.width;
    height = cam.height;
    bitdepth = m.bitdepth;
    frame_count = m.frame_count;
    dropped_frames = m.missing_frames;
    total_size = r.total_size;
    duration = m.duration;
    framerate = cam.framerate;
    all_files = some (join (all_files cam));
    rotation = rotation;
    exposure_ms = exposure_of studio cam;
  })

-- `text[0]`
abbrev pub first_character : String → Option String
first_character String.[] = none
first_character (String.◌∷◌ c s) = some (String.◌∷◌ c String.[])

-- The row of a camera that recorded sound: its folder is the first character of the file's name.
unfoldable pub audio_row : Take → String → CameraReport → Audio → Task ⊤
audio_row take machine cam a = do
  folder ← or_raise (first_character a.filename) index_error
  create_recording (record {
    id = 0;
    take = take.id;
    machine_name = machine;
    unique_id = cam.unique_id;
    model = cam.model;
    version = cam.version;
    using_sync = false;
    folder = folder;
    thumbnail_filename = none;
    width = 0;
    height = 0;
    bitdepth = a.bits_per_sample;
    frame_count = a.recorded_samples;
    dropped_frames = 0;
    total_size = 0;
    duration = a.duration;
    framerate = a.sample_rate;
    all_files = some (join (all_files cam));
    rotation = pos 0;
    exposure_ms = "0.0";
  })

-- The row of a camera, by the parts that its report has.
unfoldable pub row_by_parts :
    Studio
    → Take
    → String
    → CameraReport
    → ℤ
    → Option String
    → Option Recorder
    → Option Meta
    → Option Audio
    → Task ⊤
row_by_parts studio take machine cam rotation filename (some r) (some m) _ =
    video_row studio take machine cam rotation r m filename
row_by_parts studio take machine cam rotation filename _ _ (some a) = audio_row take machine cam a
row_by_parts studio take machine cam rotation filename _ _ none = pure tt

unfoldable pub add_row : Studio → Take → String → CameraReport → ℤ → Option String → Task ⊤
add_row studio take machine cam rotation filename =
    row_by_parts studio take machine cam rotation filename cam.recorder cam.metadata cam.audio
