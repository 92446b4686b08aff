-- ===== src/Capture/Takes/Framing.antt =====
-- What registering the cameras of a take leaves alone.
use ava_capture.Base.{ℕ, suc, ◌≡◌, refl, String, Option, none, some, List, [], ◌∷◌, head?}
use ava_capture.Base.Int.{ℤ}
use ava_capture.ShortIds.{uuid_node_base36}
use ava_capture.Site.{
  Site, Take, Recording, Camera, Result, ok, err, index_error, unbound_local, Keeps, Keeps-bind,
  Keeps-or_raise, Keeps-gets, Keeps-pure, Keeps-raise, create_recording,
}
use ava_capture.Capture.Takes.Reports.{
  Studio, CameraReport, NodeReport, Recorder, Meta, Audio, cameras_named, cameras_of_machine,
}
use ava_capture.Capture.Takes.Rows.{
  returning, thumb_name, thumbnail, video_row, audio_row, row_by_parts, add_row, first_character,
}
use ava_capture.Capture.Takes.{register_camera, register_cameras, register_node, register_nodes}

-- Only the recordings differ.
pub record SameButRecordings (w w' : Site) : Type 0 where
  pub takes : w'.takes ≡ w.takes
  pub shots : w'.shots ≡ w.shots
  pub nodes : w'.nodes ≡ w.nodes
  pub cameras : w'.cameras ≡ w.cameras
  pub locations : w'.locations ≡ w.locations

pub same_refl : (w : Site) → SameButRecordings w w
same_refl w = record { takes = refl; shots = refl; nodes = refl; cameras = refl; locations = refl }

module _ (w₀ : Site) where
  abbrev Kept : Site → Type 0
  Kept = SameButRecordings w₀

  returning-Kept : {A : Type 0} (r : Result A) → Keeps Kept (returning r)
  returning-Kept (ok a) = Keeps-pure a
  returning-Kept (err e) = Keeps-raise e

  thumb_name-Kept :
      (studio : Studio) (take : Take) (i : ℕ) (unique_id : String)
      → Keeps Kept (thumb_name studio take i unique_id)
  unfolding thumb_name
  thumb_name-Kept studio take i unique_id =
      Keeps-bind (returning-Kept (uuid_node_base36 studio.has_long studio.hardware_address))
        λ _. Keeps-pure _

  thumbnail-Kept :
      (studio : Studio) (take : Take) (i : ℕ) (f : Option String) (unique_id : String)
      (jpeg : Option String)
      → Keeps Kept (thumbnail studio take i f unique_id jpeg)
  unfolding thumbnail
  thumbnail-Kept studio take i f unique_id none = Keeps-pure f
  thumbnail-Kept studio take i f unique_id (some _) =
      Keeps-bind (thumb_name-Kept studio take i unique_id) λ name. Keeps-pure (some name)

  pub create_recording-Kept : (r : Recording) → Keeps Kept (create_recording r)
  unfolding create_recording
  create_recording-Kept r = record {
    at = λ w h. record {
      takes = h.takes;
      shots = h.shots;
      nodes = h.nodes;
      cameras = h.cameras;
      locations = h.locations;
    };
  }

  video_row-Kept :
      (studio : Studio) (take : Take) (machine : String) (cam : CameraReport) (rotation : ℤ)
      (r : Recorder) (m : Meta) (f : Option String)
      → Keeps Kept (video_row studio take machine cam rotation r m f)
  unfolding video_row
  video_row-Kept studio take machine cam rotation r m f =
      Keeps-bind (Keeps-or_raise (head? r.filenames) index_error)
        λ _. Keeps-bind (Keeps-or_raise f unbound_local) λ _. create_recording-Kept _

  audio_row-Kept :
      (take : Take) (machine : String) (cam : CameraReport) (a : Audio)
      → Keeps Kept (audio_row take machine cam a)
  unfolding audio_row
  audio_row-Kept take machine cam a =
      Keeps-bind (Keeps-or_raise (first_character a.filename) index_error)
        λ _. create_recording-Kept _

  row_by_parts-Kept :
      (studio : Studio) (take : Take) (machine : String) (cam : CameraReport) (rotation : ℤ)
      (f : Option String) (r : Option Recorder) (m : Option Meta) (a : Option Audio)
      → Keeps Kept (row_by_parts studio take machine cam rotation f r m a)
  unfolding row_by_parts
  row_by_parts-Kept studio take machine cam rotation f (some r) (some m) a =
      video_row-Kept studio take machine cam rotation r m f
  row_by_parts-Kept studio take machine cam rotation f (some r) none (some a) =
      audio_row-Kept take machine cam a
  row_by_parts-Kept studio take machine cam rotation f (some r) none none = Keeps-pure tt
  row_by_parts-Kept studio take machine cam rotation f none m (some a) =
      audio_row-Kept take machine cam a
  row_by_parts-Kept studio take machine cam rotation f none m none = Keeps-pure tt

  add_row-Kept :
      (studio : Studio) (take : Take) (machine : String) (cam : CameraReport) (rotation : ℤ)
      (f : Option String)
      → Keeps Kept (add_row studio take machine cam rotation f)
  unfolding add_row
  add_row-Kept studio take machine cam rotation f =
      row_by_parts-Kept studio take machine cam rotation f cam.recorder cam.metadata cam.audio

  register_camera-Kept :
      (studio : Studio) (location : ℕ) (take : Take) (machine : String) (i : ℕ) (f : Option String)
      (cam : CameraReport)
      → Keeps Kept (register_camera studio location take machine i f cam)
  unfolding register_camera
  register_camera-Kept studio location take machine i f cam =
      Keeps-bind (thumbnail-Kept studio take i f cam.unique_id cam.jpeg_thumbnail) λ f'.
        Keeps-bind
          (Keeps-gets (λ w. cameras_named cam.unique_id (cameras_of_machine location machine w)))
          λ known. Keeps-bind (Keeps-or_raise (head? known) index_error) λ (c : Camera).
            Keeps-bind (add_row-Kept studio take machine cam c.rotation f') λ _. Keeps-pure f'

  register_cameras-Kept :
      (studio : Studio) (location : ℕ) (take : Take) (machine : String) (i : ℕ) (f : Option String)
      (cams : List CameraReport)
      → Keeps Kept (register_cameras studio location take machine i f cams)
  unfolding register_cameras
  register_cameras-Kept studio location take machine i f [] = Keeps-pure f
  register_cameras-Kept studio location take machine i f (cam ∷ cams) =
      Keeps-bind (register_camera-Kept studio location take machine i f cam)
        λ f'. register_cameras-Kept studio location take machine (suc i) f' cams

  register_node-Kept :
      (studio : Studio) (location : ℕ) (take : Take) (machine : String) (f : Option String)
      (cams : Option (List CameraReport))
      → Keeps Kept (register_node studio location take machine f cams)
  unfolding register_node
  register_node-Kept studio location take machine f none = Keeps-pure f
  register_node-Kept studio location take machine f (some cams) =
      register_cameras-Kept studio location take machine 0 f cams

  pub register_nodes-Kept :
      (studio : Studio) (location : ℕ) (take : Take) (f : Option String) (nodes : List NodeReport)
      → Keeps Kept (register_nodes studio location take f nodes)
  unfolding register_nodes
  register_nodes-Kept studio location take f [] = Keeps-pure tt
  register_nodes-Kept studio location take f (node ∷ nodes) =
      Keeps-bind (register_node-Kept studio location take node.machine_name f node.cameras)
        λ f'. register_nodes-Kept studio location take f' nodes
