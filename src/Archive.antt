-- ===== src/Archive.antt =====
-- website-backend/ava/archive/views.py and the methods of archive/models.py: what is done with the
-- takes that were recorded. Here are the requests about one row, and the uploads.
--
-- `objects.get` raises where there is no row, so the tests `if not src_take` never hold. The contents
-- of the uploaded files are left out.
pub mod Files
pub mod Deletion
pub mod Export
pub mod Methods
pub mod Dependency
use Prim.Native.String.{◌++◌ as ◌<>◌}
use ava_capture.Base.{
  ⊤, ℕ, String, ◌==◌, if◌then◌else◌, Bool, true, false, not, ◌&&◌, Option, none, some, List, [],
  ◌∷◌, ◌++◌, contains, select, map, str_eq,
}
use ava_capture.Base.Int.{pos}
use ava_capture.Base.Decimal.{decimal}
use ava_capture.Base.Table.{find, update_where}
use ava_capture.Farm.{User, Job, ready, create_job}
use ava_capture.Requests.{new_job}
use ava_capture.Names.{padded, is_number, value_from}
use ava_capture.ShortIds.{uuid_node_base36}
use ava_capture.Capture.Takes.Reports.{Studio}
use ava_capture.Capture.Takes.Rows.{returning}
use ava_capture.Site.{
  Site, Task, Session, Shot, Take, Recording, ScanAsset, TrackingAsset, pure, raise, modify,
  type_error, ◌>>=◌, ◌>>◌, get, get_session, get_shot, get_project, get_take, save_session,
  save_take, save_scan, save_tracking, create_tracking, on_farm, scan_key, tracking_key,
}

-- `os.path.join`, `os.path.split(f.replace('\\', '/'))[1]`, and the database's order of texts.
pub record Paths : Type 0 where
  pub join : String → String → String
  pub base_name : String → String
  pub text_le : String → String → Bool

-- A view for superusers.
unfoldable pub for_superuser : User → Task ℕ → Task ℕ
for_superuser user view = if not user.is_superuser then pure 403 else view

-- The body of `post_create_tracking_asset`.
pub record TrackingRequest : Type 0 where
  pub take_id : ℕ
  pub start_time : String
  pub end_time : String

abbrev new_tracking : TrackingRequest → ℕ → TrackingAsset
new_tracking r take = record {
  id = 0;
  take = take;
  work_folder = none;
  start_time = r.start_time;
  end_time = r.end_time;
  video_thumb = none;
}

-- The new asset, its folder and the job for its thumbnail; a take that is not exported has no path to
-- join.
unfoldable pub track :
    Paths → User → TrackingRequest → (take : ℕ) → (export_path : Option String) → Task ℕ
track paths user r take none = do asset ← create_tracking (new_tracking r take); raise type_error
track paths user r take (some export_path) = do
  asset ← create_tracking (new_tracking r take)
  save_tracking
      (record asset { work_folder = some (paths.join export_path ("work_TA" <> decimal asset.id)) })
  job ← on_farm (
      create_job (record (new_job "jobs.thumbnails.GenerateThumbnail" user.username none) {
        status = ready;
        ext_tracking_assets = some asset.id;
      }))
  pure 200

unfoldable pub create_tracking_asset : Paths → User → TrackingRequest → Task ℕ
create_tracking_asset paths user r = do
  src_take ← get_take r.take_id
  track paths user r src_take.id src_take.export_path

unfoldable pub post_create_tracking_asset : Paths → User → TrackingRequest → Task ℕ
post_create_tracking_asset paths user r = for_superuser user (create_tracking_asset paths user r)

unfoldable pub set_frontal_cam : (session_id : ℕ) → (cam_unique_id : String) → Task ℕ
set_frontal_cam session_id cam_unique_id = do
  session ← get_session session_id
  save_session (record session { frontal_cam_id = some cam_unique_id })
  pure 200

unfoldable pub post_set_frontal_cam : User → (session_id : ℕ) → (cam_unique_id : String) → Task ℕ
post_set_frontal_cam user session_id cam_unique_id =
    for_superuser user (set_frontal_cam session_id cam_unique_id)

-- The body of `post_set_take_flag`.
pub record FlagRequest : Type 0 where
  pub take_id : Option ℕ
  pub take_ids : Option (List ℕ)
  pub flag_name : String
  pub flag_set : Bool

abbrev one : Option ℕ → List ℕ
one none = []
one (some k) = k ∷ []

abbrev many : Option (List ℕ) → List ℕ
many none = []
many (some ks) = ks

abbrev pub flagged_ids : FlagRequest → List ℕ
flagged_ids r = one r.take_id ++ many r.take_ids

abbrev pub flag_name_of : FlagRequest → String
flag_name_of r = if r.flag_set then r.flag_name else "none"

-- `Take.objects.filter(id__in=…).update(flag=…)`
unfoldable pub set_take_flag : FlagRequest → Task ℕ
set_take_flag r = do
  modify λ w. record w {
    takes =
        update_where (λ (t : Take). contains (flagged_ids r) t.id)
          (λ t. record t { flag = flag_name_of r }) w.takes;
  }
  pure 200

unfoldable pub post_set_take_flag : User → FlagRequest → Task ℕ
post_set_take_flag user r = for_superuser user (set_take_flag r)

-- An upload: whether the request has a file, and whether it is written.
pub data Upload : Type 0 where
  no_files : Upload
  written : Bool → Upload

-- `uuid_node_base36()` as a text
unfoldable pub node_text : Studio → Task String
node_text studio = do
  digits ← returning (uuid_node_base36 studio.has_long studio.hardware_address)
  pure (studio.text_of digits)

-- An upload about a row: the name of the file is made from the row's key, and stored where the file
-- is written.
unfoldable pub upload :
    {A : Type 0} → Upload → Task A → (A → Task String) → (A → String → Task ⊤) → Task ℕ
upload no_files row name store = pure 500
upload (written ok) row name store = do
  asset ← row
  filename ← name asset
  (if ok then store asset filename else pure tt)
  pure 200

-- `post_tracking_asset_thumbnail` stores no name.
unfoldable pub post_tracking_asset_thumbnail : Upload → (asset_id frame : ℕ) → Task ℕ
post_tracking_asset_thumbnail file asset_id frame =
    upload file (get tracking_key (λ w. w.tracking_assets) asset_id)
      (λ _. pure ("track" <> decimal asset_id <> "_f" <> decimal frame <> ".jpg")) (λ _ _. pure tt)

abbrev scan_file : Studio → (asset_id : ℕ) → (asset_type : String) → Task String
scan_file studio asset_id asset_type = do
  node_id ← node_text studio
  pure (
      "s"
      <> padded 8 asset_id
      <> "_"
      <> (if is_number asset_type then "f" <> decimal (value_from 0 asset_type) else asset_type)
      <> "_"
      <> node_id
      <> ".jpg")

-- Only the front image becomes the thumbnail of a scan.
unfoldable pub post_scan_asset_thumbnail :
    Studio → Upload → (asset_id : ℕ) → (asset_type : String) → Task ℕ
post_scan_asset_thumbnail studio file asset_id asset_type =
    upload file (get scan_key (λ w. w.scan_assets) asset_id)
      (λ _. scan_file studio asset_id asset_type)
      (λ asset filename.
        if str_eq asset_type "front"
        then save_scan (record asset { thumbnail_filename = some filename })
        else pure tt)

abbrev video_file : Studio → (prefix : String) → ℕ → Task String
video_file studio prefix k = do
  node_id ← node_text studio
  pure (prefix <> padded 8 k <> "_front_" <> node_id <> ".mp4")

unfoldable pub post_tracking_video_thumbnail : Studio → Upload → (asset_id : ℕ) → Task ℕ
post_tracking_video_thumbnail studio file asset_id =
    upload file (get tracking_key (λ w. w.tracking_assets) asset_id)
      (λ asset. video_file studio "tr" asset.id)
      (λ asset filename. save_tracking (record asset { video_thumb = some filename }))

unfoldable pub post_take_video_thumbnail : Studio → Upload → (take_id : ℕ) → Task ℕ
post_take_video_thumbnail studio file take_id =
    upload file (get_take take_id) (λ take. video_file studio "t" take.id)
      (λ take filename. save_take (record take { video_thumb = some filename }))
