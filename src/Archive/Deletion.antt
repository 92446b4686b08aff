-- ===== src/Archive/Deletion.antt =====
-- `post_delete_takes` of website-backend/ava/archive/views.py: the rows of the takes go, and jobs on
-- the machines delete their files.
--
-- The files of the site itself (thumbnails) are removed, errors ignored; that is left out.
pub mod Covered
pub mod Complete
pub mod Recorded
use ava_capture.Base.{
  ⊤, ℕ, String, ◌==◌, if◌then◌else◌, Bool, true, false, not, ◌&&◌, ◌||◌, Option, none, some, List,
  [], ◌∷◌, ◌++◌, contains, select, map, any_of,
}
use ava_capture.Base.Table.{update_where}
use ava_capture.Farm.{Env, User, Job, ready, create_job}
use ava_capture.Requests.{new_job}
use ava_capture.Discover.Machine.{make_sure_node_exists}
use ava_capture.Site.{
  Site, Task, Session, Take, Recording, ScanAsset, TrackingAsset, pure, raise, gets, modify,
  or_raise, attribute_error, ◌>>=◌, ◌>>◌, on_farm, for_each,
}
use ava_capture.Archive.{Paths, for_superuser}
use ava_capture.Archive.Files.{split, extend_at, cameras_of}

-- The files to delete, by machine.
abbrev pub Remote : Type 0
Remote = List (String × List String)

-- The files of a camera: on its machine, and where the take is exported.
abbrev pub files_on : Paths → (export_path : Option String) → List String → List String
files_on paths none files = files
files_on paths (some folder) files = files ++ map (λ f. paths.join folder (paths.base_name f)) files

-- The files of one camera, added to those of its machine. A camera without `all_files` raises.
unfoldable pub add_files : Paths → Take → Remote → Recording → Task Remote
add_files paths take remote cam = do
  files ← or_raise cam.all_files attribute_error
  pure (extend_at cam.machine_name (files_on paths take.export_path (split files)) remote)

unfoldable pub add_cameras : Paths → Take → Remote → List Recording → Task Remote
add_cameras paths take remote [] = pure remote
add_cameras paths take remote (cam ∷ cams) = do
  remote' ← add_files paths take remote cam
  add_cameras paths take remote' cams

unfoldable pub add_takes : Paths → Remote → List Take → Task Remote
add_takes paths remote [] = pure remote
add_takes paths remote (take ∷ takes) = do
  cams ← gets (cameras_of paths.text_le take.id)
  remote' ← add_cameras paths take remote cams
  add_takes paths remote' takes

-- A key that is set to NULL where it is one of the deleted.
abbrev pub unless_gone : List ℕ → Option ℕ → Option ℕ
unless_gone gone none = none
unless_gone gone (some k) = if contains gone k then none else some k

abbrev clear_session : List ℕ → Session → Session
clear_session gone s = record s {
  session_master_calib = unless_gone gone s.session_master_calib;
  session_master_colorchart = unless_gone gone s.session_master_colorchart;
  session_neutral_take = unless_gone gone s.session_neutral_take;
}

abbrev clear_scan : List ℕ → ScanAsset → ScanAsset
clear_scan gone a = record a { take = unless_gone gone a.take }

abbrev clear_job : (takes tracking : List ℕ) → Job → Job
clear_job takes tracking j = record j {
  ext_take = unless_gone takes j.ext_take;
  ext_tracking_assets = unless_gone tracking j.ext_tracking_assets;
}

abbrev tracking_of : List ℕ → Site → List ℕ
tracking_of gone w =
    map (λ (a : TrackingAsset). a.id) (select (λ a. contains gone a.take) w.tracking_assets)

-- `Take.objects.filter(pk__in=…).delete()`, as the models say of the rows that refer to a take.
unfoldable pub delete_takes : List ℕ → Site → Site
delete_takes gone w = record w {
  takes = select (λ (t : Take). not (contains gone t.id)) w.takes;
  recordings = select (λ (r : Recording). not (contains gone r.take)) w.recordings;
  tracking_assets = select (λ (a : TrackingAsset). not (contains gone a.take)) w.tracking_assets;
  sessions = map (clear_session gone) w.sessions;
  scan_assets = map (clear_scan gone) w.scan_assets;
  farm = record w.farm { jobs = map (clear_job gone (tracking_of gone w)) w.farm.jobs };
}

-- A job on a machine that deletes files there; `dumps` writes the parameters.
unfoldable pub delete_files :
    Env → (dumps : List String → String → String) → User → String × List String → Task ⊤
delete_files env dumps user (machine, files) = do
  node ← on_farm (make_sure_node_exists env machine)
  job ← on_farm (
      create_job
        (record (new_job "jobs.archive.DeleteFiles" user.username (some (dumps files machine))) {
          status = ready;
          node = some node.id;
        }))
  pure tt

-- `post_delete_takes`, for a superuser.
unfoldable pub remove_takes :
    Env → Paths → (dumps : List String → String → String) → User → List ℕ → Task ℕ
remove_takes env paths dumps user list_of_take_ids = do
  takes ← gets (λ w. select (λ (t : Take). contains list_of_take_ids t.id) w.takes)
  remote_files_to_delete ← add_takes paths [] takes
  modify (delete_takes list_of_take_ids)
  for_each (delete_files env dumps user) remote_files_to_delete
  pure 200

-- A body without `takeid_list` changes nothing.
unfoldable pub listed_takes :
    Env → Paths → (dumps : List String → String → String) → User → Option (List ℕ) → Task ℕ
listed_takes env paths dumps user none = pure 200
listed_takes env paths dumps user (some ids) = remove_takes env paths dumps user ids

unfoldable pub post_delete_takes :
    Env → Paths → (dumps : List String → String → String) → User → Option (List ℕ) → Task ℕ
post_delete_takes env paths dumps user takeid_list =
    for_superuser user (listed_takes env paths dumps user takeid_list)
