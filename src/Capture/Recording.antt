-- ===== src/Capture/Recording.antt =====
-- The requests that record: `post_start_recording`, `post_stop_recording`, `post_record_single_image`
-- and `post_message` of website-backend/ava/capture/views.py.
--
-- The requests that the thread pool makes to the nodes are in the nodes' order. A request that fails
-- is logged, and what is modelled is that it is sent; what a node answers to the last one is given by
-- `reports`, where it has a summary.
pub mod Numbered
use Prim.Native.String.{◌++◌ as ◌<>◌}
use ava_capture.Base.{
  ⊤, ℕ, ◌+◌, ltb, String, str_eq, ◌==◌, if◌then◌else◌, Bool, true, false, not, ◌&&◌, Option, none,
  some, List, [], ◌∷◌, ◌++◌, head?, select, any_of, map,
}
use ava_capture.Base.Decimal.{decimal}
use ava_capture.Base.Int.{ℤ, pos, negsuc, ltb_ℤ}
use ava_capture.Farm.{User}
use ava_capture.Site.{
  Site, Task, Location, CaptureNode, Camera, Body, no_body, text, cameras, pure, raise, gets,
  key_error, value_error, ◌>>=◌, ◌>>◌, get_location, send, for_each,
}
use ava_capture.Capture.{has_write_access_location_id}
use ava_capture.Capture.Shots.{create_session_shot}
use ava_capture.Capture.Takes.Reports.{Studio, NodeReport, CameraReport, TakeInfo, cameras_named}
use ava_capture.Capture.Takes.{register_new_take}

-- The nodes of a location that are online.
abbrev pub is_online_at : ℕ → CaptureNode → Bool
is_online_at location n = n.online && elim n.location [ none ↦ false | some l ↦ l == location ]

unfoldable pub online_nodes : ℕ → Site → List CaptureNode
online_nodes location w = select (is_online_at location) w.nodes

-- The rotations of the cameras of a node.
abbrev pub rotations : CaptureNode → Site → List (String × ℤ)
rotations n w =
    map (λ (c : Camera). (c.unique_id, c.rotation)) (select (λ c. c.node == n.id) w.cameras)

-- The requests `parallel_all_prepare_multi1` and `parallel_all_prepare_single` list the cameras.
unfoldable pub prepare : String → CaptureNode → Task ⊤
prepare path n = do listed ← gets (rotations n); send n.ip_address path (cameras listed)

-- The other requests carry nothing.
abbrev pub tell : String → CaptureNode → Task ⊤
tell path n = send n.ip_address path no_body

unfoldable pub parallel_send_message : String → CaptureNode → Task ⊤
parallel_send_message message n = send n.ip_address "message" (text message)

-- `str` of an integer
abbrev pub integer_text : ℤ → String
integer_text (pos n) = decimal n
integer_text (negsuc n) = "-" <> decimal (1 + n)

-- What a node answers to `all_stop_recording` or `all_finalize_single`, by its name and address.
abbrev pub Reports : Type 0
Reports = String → String → Option NodeReport

abbrev summary_of : Reports → CaptureNode → List NodeReport
summary_of reports n = elim (reports n.machine_name n.ip_address) [
  | none ↦ []
  | some r ↦ record r { machine_name = n.machine_name; ip_address = n.ip_address } ∷ []
]

-- `summary['nodes']`
unfoldable pub collect : Reports → List CaptureNode → List NodeReport
collect reports [] = []
collect reports (n ∷ ns) = summary_of reports n ++ collect reports ns

-- The rotation of the first camera with this id on a machine with this name.
abbrev pub rotation_of : String → CameraReport → Site → Option Camera
rotation_of machine cam w = head? (
    cameras_named cam.unique_id (
      select
        (λ (c : Camera).
          any_of (λ (n : CaptureNode). n.id == c.node && str_eq n.machine_name machine) w.nodes)
        w.cameras))

abbrev pub rotated : String → Site → CameraReport → CameraReport
rotated machine w cam = elim (rotation_of machine cam w) [
  | none ↦ cam
  | some c ↦ record cam { rotation = some c.rotation }
]

-- The cameras of a node; a summary without cameras raises a KeyError.
unfoldable pub turn_cameras : NodeReport → Option (List CameraReport) → Task NodeReport
turn_cameras node none = raise key_error
turn_cameras node (some cams) = do
  turned ← gets (λ w. map (rotated node.machine_name w) cams)
  pure (record node { cameras = some turned })

unfoldable pub add_rotation_info_to_cameras : List NodeReport → Task (List NodeReport)
add_rotation_info_to_cameras [] = pure []
add_rotation_info_to_cameras (node ∷ nodes) = do
  turned ← turn_cameras node node.cameras
  rest ← add_rotation_info_to_cameras nodes
  pure (turned ∷ rest)

-- A JSON answer, or an answer with only its status.
pub data RecordAnswer : Type 0 where
  status : ℕ → RecordAnswer
  summary : List NodeReport → Option TakeInfo → RecordAnswer

-- The body of a request to record. A body without `location` makes the view return nothing.
pub record RecordRequest : Type 0 where
  pub location : Option ℕ
  pub session_id : Option ℕ
  pub shot : Option String
  pub burst_length : Option ℤ
  pub burst_is_scan : Option Bool

-- `post_start_recording`, for a user who may write the location.
unfoldable pub start_recording : ℕ → RecordRequest → Task RecordAnswer
start_recording location_id r = do
  loc ← get_location location_id
  chosen ← create_session_shot loc r.session_id r.shot
  nodes ← gets (online_nodes location_id)
  for_each (prepare "all_prepare_multi1") nodes
  for_each (tell "all_prepare_multi2") nodes
  for_each (tell "all_start_multi") nodes
  pure (status 200)

-- A view with the rights on the location of the body.
unfoldable pub at_location : User → Option ℕ → (ℕ → Task RecordAnswer) → Task RecordAnswer
at_location user none view = raise value_error
at_location user (some location_id) view = do
  allowed ← gets (has_write_access_location_id user location_id)
  (if not allowed then pure (status 403) else view location_id)

unfoldable pub post_start_recording : User → RecordRequest → Task RecordAnswer
post_start_recording user r = at_location user r.location (λ k. start_recording k r)

-- `post_message`
abbrev pub message_to : String → ℕ → Task RecordAnswer
message_to message location_id = do
  nodes ← gets (online_nodes location_id)
  for_each (parallel_send_message message) nodes
  pure (status 200)

unfoldable pub post_message : User → Option ℕ → Option String → Task RecordAnswer
post_message user (some location_id) (some message) =
    at_location user (some location_id) (message_to message)
post_message user _ _ = pure (status 500)

-- `post_stop_recording`, for a user who may write the location.
unfoldable pub stop_recording : Studio → Reports → ℕ → Task RecordAnswer
stop_recording studio reports location_id = do
  loc ← get_location location_id
  nodes ← gets (online_nodes location_id)
  for_each (tell "all_stop_sync") nodes
  for_each (tell "all_stop_recording") nodes
  for_each (tell "resume_preview") nodes
  reported ← add_rotation_info_to_cameras (collect reports nodes)
  info ← register_new_take studio loc reported false false
  pure (summary reported info)

unfoldable pub post_stop_recording : Studio → Reports → User → RecordRequest → Task RecordAnswer
post_stop_recording studio reports user r =
    at_location user r.location (stop_recording studio reports)

abbrev pub burst_of : RecordRequest → ℤ
burst_of r = elim r.burst_length [ none ↦ pos 1 | some n ↦ n ]

abbrev pub is_scan_of : RecordRequest → Bool
is_scan_of r = elim r.burst_is_scan [ none ↦ false | some b ↦ b ]

-- The requests of `post_record_single_image` to the nodes.
unfoldable pub take_images : ℤ → List CaptureNode → Task ⊤
take_images burst nodes = do
  for_each (prepare ("all_prepare_single/" <> integer_text burst)) nodes
  for_each (tell "all_prepare_single2") nodes
  for_each (tell "all_start_single") nodes
  for_each (tell "all_finalize_single") nodes

-- `post_record_single_image`, for a user who may write the location. The images are taken before the
-- location, its session and its shot are looked at.
unfoldable pub record_single_image : Studio → Reports → RecordRequest → ℕ → Task RecordAnswer
record_single_image studio reports r location_id = do
  nodes ← gets (online_nodes location_id)
  take_images (burst_of r) nodes
  reported ← add_rotation_info_to_cameras (collect reports nodes)
  loc ← get_location location_id
  chosen ← create_session_shot loc r.session_id r.shot
  info ←
      register_new_take studio chosen reported (ltb_ℤ (pos 1) (burst_of r))
        (is_scan_of r && ltb_ℤ (pos 1) (burst_of r))
  pure (summary reported info)

unfoldable pub post_record_single_image :
    Studio → Reports → User → RecordRequest → Task RecordAnswer
post_record_single_image studio reports user r =
    at_location user r.location (record_single_image studio reports r)
