-- ===== src/Capture.antt =====
-- website-backend/ava/capture/views.py: the studios (locations), their capture nodes and cameras,
-- and the recording of takes. Here are the rights, and the requests about one camera or node.
--
-- A view that returns nothing makes Django raise a ValueError. A request to a capture node is in a
-- `try`: what is modelled is that it is sent. `urllib2` is imported nowhere, so `post_set_roi` and
-- `post_reset_roi` log a NameError and send nothing.
pub mod Shots
pub mod Takes
pub mod Recording
pub mod Locations
pub mod Discover
pub mod Rights
pub mod Allowed
use Prim.Native.String.{◌++◌ as ◌<>◌}
use ava_capture.Base.{
  ⊤, ℕ, String, str_eq, ◌==◌, if◌then◌else◌, Bool, true, false, not, ◌&&◌, ◌||◌, Option, none, some,
  List, any_of,
}
use ava_capture.Base.Int.{ℤ, pos, ltb_ℤ}
use ava_capture.Farm.{User}
use ava_capture.Site.{
  Site, Task, Location, LocationAccess, CaptureNode, Camera, Body, no_body, options, pure, raise,
  gets, attribute_error, value_error, ◌>>=◌, ◌>>◌, get_camera, get_capture_node, save_camera, send,
}

-- `user.access_rights.filter(id=k, locationaccess__write_access=True)`: the filter of the related
-- manager and that of the view are about one row of `LocationAccess`.
unfoldable pub has_write_access_location_id : User → ℕ → Site → Bool
has_write_access_location_id user k w =
    any_of
      (λ (a : LocationAccess). str_eq a.user user.username && a.location == k && a.write_access)
      w.accesses

-- The same with `read_access`.
unfoldable pub has_read_access_location_id : User → ℕ → Site → Bool
has_read_access_location_id user k w =
    any_of (λ (a : LocationAccess). str_eq a.user user.username && a.location == k && a.read_access)
      w.accesses

-- `has_write_access_node`, by the node's location: a node without one has no `id` to read.
unfoldable pub has_write_access_node : User → (location : Option ℕ) → Task Bool
has_write_access_node user none = raise attribute_error
has_write_access_node user (some k) = gets (has_write_access_location_id user k)

-- A view on a camera of a node, for a user who may write its location.
abbrev pub for_writer : User → (Camera → CaptureNode → Task ℕ) → Camera → CaptureNode → Task ℕ
for_writer user view camera node = do
  allowed ← has_write_access_node user node.location
  (if not allowed then pure 403 else view camera node)

-- The same on the camera `k`.
unfoldable pub with_camera : User → ℕ → (Camera → CaptureNode → Task ℕ) → Task ℕ
with_camera user k view = do
  camera ← get_camera k
  node ← get_capture_node camera.node
  for_writer user view camera node

unfoldable pub toggle_using_sync : Camera → CaptureNode → Task ℕ
toggle_using_sync camera node = do
  save_camera (record camera { using_sync = not camera.using_sync })
  send node.ip_address "options/" (
      options (record {
        unique_id = camera.unique_id;
        using_sync = some (not camera.using_sync);
        image_rotation = none;
      }))
  pure 200

unfoldable pub post_toggle_using_sync : User → Option ℕ → Task ℕ
post_toggle_using_sync user none = raise value_error
post_toggle_using_sync user (some k) = with_camera user k toggle_using_sync

unfoldable pub set_camera_rotation : ℤ → Camera → CaptureNode → Task ℕ
set_camera_rotation angle camera node = do
  save_camera (record camera { rotation = angle })
  send node.ip_address "options/" (
      options
        (record { unique_id = camera.unique_id; using_sync = none; image_rotation = some angle }))
  pure 200

unfoldable pub post_set_camera_rotation : User → Option ℕ → Option ℤ → Task ℕ
post_set_camera_rotation user (some k) (some angle) = with_camera user k (set_camera_rotation angle)
post_set_camera_rotation user _ _ = raise value_error

unfoldable pub toggle_capturing : Camera → CaptureNode → Task ℕ
toggle_capturing camera node = do
  send node.ip_address ("toggle_capturing/" <> camera.unique_id <> "/") no_body
  pure 200

unfoldable pub post_toggle_capturing : User → Option ℕ → Task ℕ
post_toggle_capturing user none = pure 500
post_toggle_capturing user (some k) = with_camera user k toggle_capturing

-- `post_close_node` asks for no rights.
unfoldable pub post_close_node : User → Option ℕ → Task ℕ
post_close_node user none = pure 200
post_close_node user (some k) = do
  node ← get_capture_node k
  send node.ip_address "close_node" no_body
  pure 200

-- The check of `post_set_roi` and `post_reset_roi`, on which nothing follows: by the camera, where
-- its key is positive, and by the location otherwise.
unfoldable pub roi_of_location : User → ℤ → Task ℕ
roi_of_location user (pos l) = do
  allowed ← gets (has_write_access_location_id user l)
  pure (if l == 0 || allowed then 200 else 403)
roi_of_location user _ = pure 200

unfoldable pub post_roi : User → (camera_id loc_id : ℤ) → Task ℕ
post_roi user (pos k) loc_id =
    if k == 0 then roi_of_location user loc_id else with_camera user k (λ _ _. pure 200)
post_roi user _ loc_id = roi_of_location user loc_id

-- The parameters that `camera_parameter` keeps in the database.
abbrev pub with_parameter : String → String → Camera → Camera
with_parameter name value camera =
    if str_eq name "exposure"
    then record camera { exposure = value }
    else if str_eq name "lens_aperture_value"
    then record camera { lens_aperture = value }
    else if str_eq name "gain"
    then record camera { gain = value }
    else camera

abbrev is_kept : String → Bool
is_kept name = str_eq name "exposure" || str_eq name "lens_aperture_value" || str_eq name "gain"

-- The POST of `camera_parameter`: the rights are those on the location of the URL, whatever location
-- the camera is in. `answers` tells whether the node gives a JSON answer.
unfoldable pub camera_parameter :
    (answers : Bool) → User → (location_id cam_id : ℕ) → (name value : String) → Task ℕ
camera_parameter answers user location_id cam_id name value = do
  allowed ← gets (has_write_access_location_id user location_id)
  if not allowed then pure 403 else do
    camera ← get_camera cam_id
    (if is_kept name then save_camera (with_parameter name value camera) else pure tt)
    node ← get_capture_node camera.node
    send node.ip_address ("camera/" <> camera.unique_id <> "/" <> name <> "/" <> value) no_body
    if answers then pure 200 else raise value_error
