-- ===== src/Tests/SequenceRuns.antt =====
-- A sequence of three frames, the second of which is missing.
use ava_capture.Base.{refl, false, [], ◌∷◌, arith}
use ava_capture.Sequence.{Reader, read_frame}
use ava_capture.Sequence.Frames.{InData, read_frame-InData}

abbrev recording : Reader
recording = record {
  frame_count = 3;
  index_offset = 300;
  frame_indices = 48 ∷ 0 ∷ 200 ∷ [];
  img_data_size = 1000;
  raise_error_on_missing_frame = false;
}

read_frame-InData_example : InData 48 300 (read_frame recording 0)
read_frame-InData_example =
    read_frame-InData recording 0 47 (omega arith, (omega arith, omega arith)) refl
