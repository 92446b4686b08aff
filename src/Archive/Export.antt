-- ===== src/Archive/Export.antt =====
-- `post_export_takes` of website-backend/ava/archive/views.py: each take gets its folder, and jobs
-- that copy its files there and make thumbnails.
pub mod Waits
use Prim.Native.String.{◌++◌ as ◌<>◌}
use ava_capture.Base.{
  ⊤, ℕ, ◌+◌, String, str_eq, ◌==◌, if◌then◌else◌, Bool, true, false, not, ◌&&◌, Option, none, some,
  List, [], ◌∷◌, ◌++◌, map, any_of, select,
}
use ava_capture.Base.Int.{pos}
use ava_capture.Base.Decimal.{decimal}
use ava_capture.Farm.{Env, User, Job, Action, Farm, created, ready, create_job, save_job}
use ava_capture.Requests.{new_job}
use ava_capture.Site.{
  Site, Task, Project, Session, Shot, Take, Recording, ScanAsset, pure, gets, modify, or_raise,
  attribute_error, ◌>>=◌, ◌>>◌, get_take, get_shot, get_session, get_project, save_take, save_scan,
  create_scan, on_farm,
}
use ava_capture.Archive.{Paths, for_superuser}
use ava_capture.Archive.Files.{split, extend_at, cameras_of, frame_count}

-- The files to export and where they go, by machine.
abbrev pub FilesToExport : Type 0
FilesToExport = List (String × List (String × String))

-- `json.dumps` of the parameters of a job.
pub record Dumps : Type 0 where
  pub of_export : (root_export_path export_path : String) → FilesToExport → String
  pub of_thumbnail : (take_export_path : String) → String

unfoldable pub add_exports :
    (export_path : String) → FilesToExport → List Recording → Task FilesToExport
add_exports export_path files [] = pure files
add_exports export_path files (cam ∷ cams) = do
  listed ← or_raise cam.all_files attribute_error
  add_exports export_path
      (extend_at cam.machine_name (map (λ f. (f, export_path)) (split listed)) files) cams

-- The priority of the jobs of a take, after that of the take before it.
abbrev pub by_flag : String → ℕ → ℕ
by_flag flag priority =
    if str_eq flag "calib" then 55 else if str_eq flag "best" then 52 else priority

abbrev pub is_single : Option ℕ → Bool
is_single none = false
is_single (some n) = n == 1

abbrev pub priority_after : (flag : String) → (frames : Option ℕ) → ℕ → ℕ
priority_after flag frames priority =
    if is_single frames then by_flag flag priority + 1 else by_flag flag priority

-- The job that copies the files, and one for thumbnails that waits for it.
abbrev pub export_job :
    Dumps → User → (root path : String) → FilesToExport → (take priority : ℕ) → Job
export_job dumps user root path files take priority =
    record (new_job "jobs.archive.ExportTake" user.username
      (some (dumps.of_export root path files))) {
        status = ready;
        ext_take = some take;
        priority = pos priority;
      }

abbrev pub thumbnail_job : Dumps → User → (path : String) → (priority : ℕ) → Job
thumbnail_job dumps user path priority =
    record (new_job "jobs.thumbnails.GenerateThumbnail" user.username
      (some (dumps.of_thumbnail path))) { priority = pos priority }

-- A job that is made ready once its dependency is stored.
unfoldable pub create_dependent : Job → (dependency : ℕ) → Action ⊤
create_dependent job dependency = do
  job2 ← create_job job
  modify λ w. record w { dependencies = w.dependencies ++ (job2.id, dependency) ∷ [] }
  save_job (record job2 { status = ready })

-- `Take.full_name`
abbrev full_name : Take → Shot → Session → Project → String
full_name take shot session project =
    take.name <> "/" <> shot.name <> "/" <> session.name <> "/" <> project.name

abbrev scan_of : (path : String) → (name : String) → (project take : ℕ) → ScanAsset
scan_of path name project take = record {
  id = 0;
  project = project;
  name = name;
  image_folder = path;
  work_folder = "";
  thumbnail_filename = none;
  take = some take;
  take_neutral_start_time = none;
  take_neutral_end_time = none;
  take_mixed_w_time = none;
  take_pattern_start_time = none;
  take_pattern_last_time = none;
  has_tracking = false;
}

abbrev is_scan_of_take : ℕ → ScanAsset → Bool
is_scan_of_take k a = elim a.take [ none ↦ false | some t ↦ t == k ]

module _ (paths : Paths) (dumps : Dumps) (user : User) (root : String) where
  -- The scan asset of a burst, unless the take has one.
  unfoldable pub add_scan : Take → Shot → Session → (path : String) → (job1 priority : ℕ) → Task ⊤
  add_scan take shot session path job1 priority = do
    project ← get_project session.project
    asset ← create_scan (scan_of path (full_name take shot session project) session.project take.id)
    save_scan (record asset { work_folder = paths.join path ("work_SA" <> decimal asset.id) })
    on_farm (
        create_dependent
          (record (thumbnail_job dumps user path priority) { ext_scan_assets = some asset.id })
          job1)

  unfoldable pub ensure_scan :
      Take → Shot → Session → (path : String) → (job1 priority : ℕ) → Task ⊤
  ensure_scan take shot session path job1 priority = do
    there ← gets (λ w. any_of (is_scan_of_take take.id) w.scan_assets)
    (if there then pure tt else add_scan take shot session path job1 priority)

  -- The jobs of a take that has its folder.
  unfoldable pub add_jobs :
      Take → Shot → Session → (path : String) → (frames : Option ℕ) → (priority : ℕ) → Task ⊤
  add_jobs take shot session path frames priority = do
    cams ← gets (cameras_of paths.text_le take.id)
    files ← add_exports path [] cams
    job1 ← on_farm (create_job (export_job dumps user root path files take.id priority))
    (if take.is_scan_burst then ensure_scan take shot session path job1.id priority else pure tt)
    (if is_single frames
        then pure tt
        else on_farm (
            create_dependent
              (record (thumbnail_job dumps user path priority) { ext_take = some take.id })
              job1.id))

  abbrev pub export_path_of : Take → Shot → Session → (take_id : ℕ) → String
  export_path_of take shot session take_id =
      paths.join (paths.join (paths.join root session.name) shot.name)
        (take.name <> "_" <> decimal take_id)

  -- A round of the loop: the priority that it ends with is the one that the next take starts with.
  unfoldable pub export_take : (priority take_id : ℕ) → Task ℕ
  export_take priority take_id = do
    take ← get_take take_id
    shot ← get_shot take.shot
    session ← get_session shot.session
    let path = export_path_of take shot session take_id
    save_take (record take {
      export_path = some path;
      work_folder = some (paths.join path ("work_T" <> decimal take_id));
    })
    frames ← gets (frame_count take_id)
    let priority' = priority_after take.flag frames priority
    add_jobs take shot session path frames priority'
    pure priority'

  unfoldable pub export_each : (priority : ℕ) → (takeid_list : List ℕ) → Task ℕ
  export_each priority [] = pure 200
  export_each priority (take_id ∷ rest) = do
    priority' ← export_take priority take_id
    export_each priority' rest

-- `userdata.export_path`: the last one of each user.
abbrev set_path : String → String → List (String × String) → List (String × String)
set_path name path exports = (name, path) ∷ select (λ e. not (str_eq e.0 name)) exports

unfoldable pub export_listed :
    Paths → Dumps → User → (export_path : String) → (takeid_list : List ℕ) → Task ℕ
export_listed paths dumps user root ids = do
  modify λ w. record w { export_paths = set_path user.username root w.export_paths }
  export_each paths dumps user root 50 ids

-- A body without a list or a path changes nothing.
unfoldable pub export_body :
    Paths → Dumps → User → (export_path : Option String) → (takeid_list : Option (List ℕ)) → Task ℕ
export_body paths dumps user (some root) (some ids) = export_listed paths dumps user root ids
export_body paths dumps user _ _ = pure 200

unfoldable pub post_export_takes :
    Paths → Dumps → User → (export_path : Option String) → (takeid_list : Option (List ℕ)) → Task ℕ
post_export_takes paths dumps user export_path takeid_list =
    for_superuser user (export_body paths dumps user export_path takeid_list)
