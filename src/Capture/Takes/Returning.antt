-- ===== src/Capture/Takes/Returning.antt =====
-- The cameras of `register_new_take`, on complete reports.
use ava_capture.Base.{
  ⊤, ℕ, suc, ◌≡◌, ◌≢◌, refl, String, true, Option, none, some, List, [], ◌∷◌, head?, All,
}
use ava_capture.Base.Int.{ℤ}
use ava_capture.ShortIds.{uuid_node_base36, base36encode}
use ava_capture.Site.{
  Site, Take, Recording, Camera, Error, or_raise, index_error, unbound_local, Total, total_bind,
  total_pure, total_given, gets, create_recording,
}
use ava_capture.Capture.Takes.Reports.{
  Studio, CameraReport, NodeReport, Recorder, Meta, Audio, cameras_named, cameras_of_machine,
}
use ava_capture.Capture.Takes.Rows.{
  returning, thumb_name, thumbnail, video_row, audio_row, row_by_parts, add_row, first_character,
}
use ava_capture.Capture.Takes.{register_camera, register_cameras, register_node, register_nodes}
use ava_capture.Capture.Takes.Framing.{SameButRecordings, create_recording-Kept}

-- What `add_row` reads of the parts of a report.
abbrev HasFiles : Option Recorder → Option Meta → Option Audio → Type 0
HasFiles (some r) (some m) a = head? r.filenames ≢ none
HasFiles _ _ (some a) = first_character a.filename ≢ none
HasFiles _ _ none = ⊤

-- A camera with a thumbnail and the files of its parts, which the database knows on the machine.
abbrev pub IsComplete : Site → (location : ℕ) → (machine : String) → CameraReport → Type 0
IsComplete w location machine cam =
    (cam.jpeg_thumbnail ≢ none)
    × (head? (cameras_named cam.unique_id (cameras_of_machine location machine w)) ≢ none)
    × HasFiles cam.recorder cam.metadata cam.audio

abbrev pub AllComplete : Site → ℕ → String → Option (List CameraReport) → Type 0
AllComplete w location machine none = ⊤
AllComplete w location machine (some cams) = All (IsComplete w location machine) cams

module _ (w₀ : Site) (studio : Studio) (has_long : studio.has_long ≡ true) (take : Take) where
  abbrev Same : Site → Type 0
  Same = SameButRecordings w₀

  returning_total :
      Total Same (returning (uuid_node_base36 studio.has_long studio.hardware_address)) (λ _. Same)
  unfolding uuid_node_base36 base36encode
  returning_total = rw has_long (total_pure _ (λ _ h. h))

  thumb_name_total :
      (i : ℕ) (unique_id : String) → Total Same (thumb_name studio take i unique_id) (λ _. Same)
  unfolding thumb_name
  thumb_name_total i unique_id = total_bind returning_total λ _. total_pure _ (λ _ h. h)

  thumbnail_total :
      (i : ℕ) (f : Option String) (unique_id : String) (jpeg : Option String)
      → jpeg ≢ none
      → Total Same (thumbnail studio take i f unique_id jpeg) (λ f' w. Same w × (f' ≢ none))
  unfolding thumbnail
  thumbnail_total i f unique_id none there = absurd (there refl)
  thumbnail_total i f unique_id (some _) there =
      total_bind (thumb_name_total i unique_id)
        λ name. total_pure (some name) (λ _ h. (h, λ e. absurd (cc)))

  create_recording_total : (r : Recording) → Total Same (create_recording r) (λ _. Same)
  unfolding create_recording
  create_recording_total r = record {
    at = λ w h. (tt, (create_recording r w).1, refl, (create_recording-Kept w₀ r).at w h);
  }

  value_total :
      {A : Type 0} (o : Option A) (e : Error) → o ≢ none → Total Same (or_raise o e) (λ _. Same)
  value_total none e there = absurd (there refl)
  value_total (some a) e there = total_pure a (λ _ h. h)

  video_row_total :
      (machine : String) (cam : CameraReport) (rotation : ℤ) (r : Recorder) (m : Meta)
      (f : Option String)
      → head? r.filenames ≢ none
      → f ≢ none
      → Total Same (video_row studio take machine cam rotation r m f) (λ _. Same)
  unfolding video_row
  video_row_total machine cam rotation r m f files named =
      total_bind (value_total (head? r.filenames) index_error files)
        λ _. total_bind (value_total f unbound_local named) λ _. create_recording_total _

  audio_row_total :
      (machine : String) (cam : CameraReport) (a : Audio)
      → first_character a.filename ≢ none
      → Total Same (audio_row take machine cam a) (λ _. Same)
  unfolding audio_row
  audio_row_total machine cam a file =
      total_bind (value_total (first_character a.filename) index_error file)
        λ _. create_recording_total _

  row_total :
      (machine : String) (cam : CameraReport) (rotation : ℤ) (f : Option String)
      (r : Option Recorder) (m : Option Meta) (a : Option Audio)
      → f ≢ none
      → HasFiles r m a
      → Total Same (row_by_parts studio take machine cam rotation f r m a) (λ _. Same)
  unfolding row_by_parts
  row_total machine cam rotation f (some r) (some m) a named files =
      video_row_total machine cam rotation r m f files named
  row_total machine cam rotation f (some r) none (some a) named files =
      audio_row_total machine cam a files
  row_total machine cam rotation f (some r) none none named files = total_pure tt (λ _ h. h)
  row_total machine cam rotation f none m (some a) named files = audio_row_total machine cam a files
  row_total machine cam rotation f none m none named files = total_pure tt (λ _ h. h)

  -- The lookup of the camera, in a state where the machines and cameras are those of `w₀`.
  known_total :
      (location : ℕ) (machine unique_id : String)
      → head? (cameras_named unique_id (cameras_of_machine location machine w₀)) ≢ none
      → Total Same
          (gets (λ w. cameras_named unique_id (cameras_of_machine location machine w)))
          (λ known w. Same w × (head? known ≢ none))
  unfolding cameras_of_machine
  known_total location machine unique_id there = record {
    at = λ w h. (_, w, refl, (h, rw (h.nodes, h.cameras) there));
  }

  register_camera_total :
      (location : ℕ) (machine : String) (i : ℕ) (f : Option String) (cam : CameraReport)
      → IsComplete w₀ location machine cam
      → Total Same (register_camera studio location take machine i f cam) (λ _. Same)
  unfolding register_camera add_row
  register_camera_total location machine i f cam (there, known, files) =
      total_bind (thumbnail_total i f cam.unique_id cam.jpeg_thumbnail there)
        λ (f' : Option String). total_given λ named.
          total_bind (known_total location machine cam.unique_id known) λ (found : List Camera).
            total_given λ some_found.
              total_bind (value_total (head? found) index_error some_found) λ (c : Camera).
                total_bind
                  (row_total machine cam c.rotation f' cam.recorder cam.metadata cam.audio named
                    files)
                  λ _. total_pure f' (λ _ h. h)

  register_cameras_total :
      (location : ℕ) (machine : String) (i : ℕ) (f : Option String) (cams : List CameraReport)
      → All (IsComplete w₀ location machine) cams
      → Total Same (register_cameras studio location take machine i f cams) (λ _. Same)
  unfolding register_cameras
  register_cameras_total location machine i f [] h = total_pure f (λ _ h. h)
  register_cameras_total location machine i f (cam ∷ cams) (h, rest) =
      total_bind (register_camera_total location machine i f cam h)
        λ (f' : Option String). register_cameras_total location machine (suc i) f' cams rest

  register_node_total :
      (location : ℕ) (machine : String) (f : Option String) (cams : Option (List CameraReport))
      → AllComplete w₀ location machine cams
      → Total Same (register_node studio location take machine f cams) (λ _. Same)
  unfolding register_node
  register_node_total location machine f none h = total_pure f (λ _ h. h)
  register_node_total location machine f (some cams) h =
      register_cameras_total location machine 0 f cams h

  pub register_nodes_total :
      (location : ℕ) (f : Option String) (nodes : List NodeReport)
      → All (λ (n : NodeReport). AllComplete w₀ location n.machine_name n.cameras) nodes
      → Total Same (register_nodes studio location take f nodes) (λ _. Same)
  unfolding register_nodes
  register_nodes_total location f [] h = total_pure tt (λ _ h. h)
  register_nodes_total location f (n ∷ nodes) (h, rest) =
      total_bind (register_node_total location n.machine_name f n.cameras h)
        λ (f' : Option String). register_nodes_total location f' nodes rest
