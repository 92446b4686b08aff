-- ===== src/Archive/Deletion/Recorded.antt =====
-- The files of a camera, from the report of a recording to their deletion: the row that
-- `register_new_take` adds, and what `post_delete_takes` reads in it.
use ava_capture.Base.{String, some}
use ava_capture.Base.Int.{ℤ}
use ava_capture.Site.{Site, Take, Recording}
use ava_capture.Capture.Takes.Reports.{Studio, Recorder, Meta, CameraReport, all_files, join}
use ava_capture.Capture.Takes.Rows.{exposure_of}

-- The row of a camera that recorded a video.
abbrev recorded_row :
    Studio → Take → String → CameraReport → ℤ → Recorder → Meta → String → String → Recording
recorded_row studio take machine cam rotation r m folder name = record {
  id = 0;
  take = take.id;
  machine_name = machine;
  unique_id = cam.unique_id;
  model = cam.model;
  version = cam.version;
  using_sync = cam.using_hardware_sync;
  folder = folder;
  thumbnail_filename = some name;
  width = cam.width;
  height = cam.height;
  bitdepth = m.bitdepth;
  frame_count = m.frame_count;
  dropped_frames = m.missing_frames;
  total_size = r.total_size;
  duration = m.duration;
  framerate = cam.framerate;
  all_files = some (join (all_files cam));
  rotation = rotation;
  exposure_ms = exposure_of studio cam;
}
